-- ===== src/Tasks/Calls/Grabs.antt =====
-- Grabs after any run of the queue: what is grabbed, and that no task is grabbed twice.
use ai_studio.Prelude.{ℕ, true, false, some, List, ◌≡◌, ◌≢◌, inl, refl, sym, ◌∙◌, subst, ap, ok}
use ai_studio.TaskState.{up_for_grabs, claimed}
use ai_studio.Db.{Db, Task}
use ai_studio.Tasks.Rows.{find_task}
use ai_studio.Tasks.Grab.{Request, grab_task, identity_quarantined}
use ai_studio.Tasks.Grab.Laws.{PrerequisitesMerged, grab_task-Grabbed}
use ai_studio.Tasks.Writes.{Writes-trans, weaken}
use ai_studio.Tasks.Writes.Operations.{grab_task-IsWriter}
use ai_studio.Tasks.Writes.History.{empty}
use ai_studio.Tasks.Writes.Unique.{Unique, Writes-Unique}
use ai_studio.Tasks.Calls.{Call, run, run-Writes}

run-Unique : (now : ℕ) (cs : List Call) → Unique (run cs (empty now)).tasks
run-Unique now cs = Writes-Unique now (run-Writes {forcible = true} cs (empty now) (inl refl))

-- When `grab_task` returns a task after any calls from empty tables, with whatever other modules
-- have written into the trust ledger in between, the worker's identity is not
-- fenced, and the task was a row in the pool that no other transaction had locked, with every
-- prerequisite that is a row merged. The task is now stored as claimed by that worker, with a
-- heartbeat of this moment.
pub run_grab :
    (now : ℕ) (cs : List Call) (q : Request) (t : Task) (db' : Db)
    → let db = run cs (empty now) in
      grab_task q db ≡ (ok (some t), db')
      → (identity_quarantined db q.worker_id ≡ false)
        × ((row : Task) × (find_task t.id db.tasks ≡ some row)
            × (row.status ≡ up_for_grabs)
            × (q.busy row.id ≡ false)
            × PrerequisitesMerged row db.tasks)
        × (t.status ≡ claimed)
        × (t.claimed_by ≡ some q.worker_id)
        × (t.heartbeat_at ≡ some db.clock)
        × (find_task t.id db'.tasks ≡ some t)
run_grab now cs q t db' h =
    let u = run-Unique now cs in
    let g = grab_task-Grabbed q (run cs (empty now)) t db' u h in
    let p = g.pickable in
    let found =
      subst (λ k. find_task k (run cs (empty now)).tasks ≡ some g.row) (sym g.same_id)
        (u g.row p.listed) in
    (
      g.trusted,
      (g.row, found, p.free, p.unlocked, p.ready),
      g.now_claimed,
      g.holder,
      g.beating,
      g.stored,
    )

-- Two grabs in a row, by any workers and with any filters, never return the same task.
pub run_grab_exclusive :
    (now : ℕ) (cs : List Call) (p q : Request) (t u : Task) (mid db' : Db)
    → grab_task p (run cs (empty now)) ≡ (ok (some t), mid)
    → grab_task q mid ≡ (ok (some u), db')
    → t.id ≢ u.id
run_grab_exclusive now cs p q t u mid db' h k same =
    let db = run cs (empty now) in
    let first = grab_task-Grabbed p db t mid (run-Unique now cs) h in
    let w =
      Writes-trans (run-Writes {forcible = true} cs (empty now) (inl refl))
        (weaken ((grab_task-IsWriter p).writes db)) in
    let unique = subst (λ d. Unique d.tasks) (ap (λ r. r.1) h) (Writes-Unique now w) in
    let second = grab_task-Grabbed q mid u db' unique k in
    let row = unique second.row second.pickable.listed in
    let free = second.pickable.free in
    let taken = first.now_claimed in
    let at : find_task second.row.id mid.tasks ≡ some t =
      subst (λ j. find_task j mid.tasks ≡ some t) (same ∙ second.same_id) first.stored in
    let one : t ≡ second.row = cc (at, row) in
    let clash : claimed ≡ up_for_grabs = sym taken ∙ ap (λ x. x.status) one ∙ free in cc
