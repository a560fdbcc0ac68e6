-- ===== src/Tasks/Calls.antt =====
-- Runs of the queue: any sequence of calls of the functions of runtime/tasks.py that change it,
-- by any number of workers, and sweeps of runtime/supervisor.py, with time passing in between.
-- Each call is a transaction or several. Other modules may replace the trust ledger's rows
-- between any two calls.
pub mod Grabs
pub mod Sweeps
use ai_studio.Prelude.{
  ℕ, ◌+◌, String, Bool, true, false, Option, some, List, [], ◌∷◌, ◌≡◌, ◌⊎◌, inl, inr, refl, arith,
  not, all, map,
}
use ai_studio.TaskState.{Status, up_for_grabs, ready_for_review, approved, merged}
use ai_studio.TaskState.Lifecycle.{Run, Enters, IsTerminal}
use ai_studio.Db.{Db, Task, IdentityTrust}
use ai_studio.Traffic.{Env}
use ai_studio.Tasks.Rows.{find_task}
use ai_studio.Tasks.Transition.{Options, transition}
use ai_studio.Tasks.Enqueue.{NewTask, enqueue_task}
use ai_studio.Tasks.Grab.{Request, grab_task, start_task, claim_task}
use ai_studio.Tasks.Finish.{
  Completion, heartbeat, complete_task, block_task, requeue_blocked_task, add_spent_tokens,
}
use ai_studio.Tasks.Recovery.{nudge_task, rekick_task, escalate_stuck_task}
use ai_studio.Supervisor.{Ladder, sweep}
use ai_studio.Supervisor.Writer.{sweep-Writes}
use ai_studio.Tasks.Writes.{
  Writes, done, also, tick, judge, Writes-trans, weaken, IsWriter-transition,
}
use ai_studio.Tasks.Writes.Operations.{
  enqueue_task-IsWriter, grab_task-IsWriter, start_task-IsWriter, claim_task-IsWriter,
  heartbeat-IsWriter, complete_task-IsWriter, block_task-IsWriter, requeue_blocked_task-IsWriter,
  add_spent_tokens-IsWriter, nudge_task-IsWriter, rekick_task-IsWriter,
  escalate_stuck_task-IsWriter,
}
use ai_studio.Tasks.Writes.Kept.{Writes-Kept}
use ai_studio.Tasks.Writes.History.{
  empty, trail, follow, status_of, Writes-Recorded, Writes-Legal, merged_reviewed,
}
use ai_studio.Tasks.Writes.Reports.{reported, report_of, Writes-Reported}

pub data Call : Type 0 where
  enqueue : Env → NewTask → Call
  grab : Request → Call
  start : (id : ℕ) → (worker_id : String) → (agent_type : Option String) → Call
  claim : Request → Call
  beat : (id : ℕ) → (worker_id : String) → Call
  complete : (id : ℕ) → Completion → Call
  block : (id approval_id : ℕ) → (reason : String) → Call
  requeue : (id : ℕ) → Call
  spend : (id tokens : ℕ) → Call
  nudge : (id grace : ℕ) → Call
  rekick : (id : ℕ) → (made_progress : Option Bool) → Call
  escalate : (id : ℕ) → (stall_reason : String) → (no_progress_rekicks retries : ℕ) → Call
  move : (id : ℕ) → (to : Status) → Options → Call
  supervise : Ladder → Call
  trust : (rows : List IdentityTrust) → Call  -- other modules have written the trust ledger
  wait : (time : ℕ) → Call

-- The tables after a call, whether it returned or raised.
unfoldable pub perform : Call → Db → Db
perform (enqueue env n) db = (enqueue_task env n db).1
perform (grab q) db = (grab_task q db).1
perform (start id worker_id agent_type) db = (start_task id worker_id agent_type db).1
perform (claim q) db = (claim_task q db).1
perform (beat id worker_id) db = (heartbeat id worker_id db).1
perform (complete id c) db = (complete_task id c db).1
perform (block id approval_id reason) db = (block_task id approval_id reason db).1
perform (requeue id) db = (requeue_blocked_task id db).1
perform (spend id tokens) db = (add_spent_tokens id tokens db).1
perform (nudge id grace) db = (nudge_task id grace db).1
perform (rekick id made) db = (rekick_task id made db).1
perform (escalate id reason rekicks retries) db =
    (escalate_stuck_task id reason rekicks retries db).1
perform (move id to o) db = (transition id to o db).1
perform (supervise l) db = (sweep l db).1
perform (trust rows) db = record db { trust = rows }
perform (wait time) db = record db { clock = db.clock + time }

unfoldable pub run : List Call → Db → Db
unfolding perform
run [] db = db
run (c ∷ cs) db = run cs (perform c db)

-- The call does not ask for `force`.
unfoldable pub unforced : Call → Bool
unforced (complete id c) = not c.force
unforced (move id to o) = not o.force
unforced _ = true

not-forced :
    {forcible b : Bool} → (forcible ≡ true) ⊎ (not b ≡ true) → (forcible ≡ true) ⊎ (b ≡ false)
not-forced (inl e) = inl e
not-forced {b = false} (inr e) = inr refl
not-forced {b = true} (inr e) = cc

perform-Writes :
    {forcible : Bool} (c : Call) (db : Db)
    → (forcible ≡ true) ⊎ (unforced c ≡ true)
    → Writes forcible db (perform c db)
unfolding perform unforced
perform-Writes (enqueue env n) db h = weaken ((enqueue_task-IsWriter env n).writes db)
perform-Writes (grab q) db h = weaken ((grab_task-IsWriter q).writes db)
perform-Writes (start id w k) db h = weaken ((start_task-IsWriter id w k).writes db)
perform-Writes (claim q) db h = weaken ((claim_task-IsWriter q).writes db)
perform-Writes (beat id w) db h = weaken ((heartbeat-IsWriter id w).writes db)
perform-Writes (complete id c) db h = (complete_task-IsWriter id c (not-forced h)).writes db
perform-Writes (block id a r) db h = weaken ((block_task-IsWriter id a r).writes db)
perform-Writes (requeue id) db h = weaken ((requeue_blocked_task-IsWriter id).writes db)
perform-Writes (spend id n) db h = weaken ((add_spent_tokens-IsWriter id n).writes db)
perform-Writes (nudge id g) db h = weaken ((nudge_task-IsWriter id g).writes db)
perform-Writes (rekick id m) db h = weaken ((rekick_task-IsWriter id m).writes db)
perform-Writes (escalate id s n r) db h = weaken ((escalate_stuck_task-IsWriter id s n r).writes db)
perform-Writes (move id to o) db h = (IsWriter-transition id to o (not-forced h)).writes db
perform-Writes (supervise l) db h = weaken (sweep-Writes l db)
perform-Writes (trust rows) db h = also done (judge rows)
perform-Writes (wait n) db h = also done (tick n)

pub run-Writes :
    {forcible : Bool} (cs : List Call) (db : Db)
    → (forcible ≡ true) ⊎ (all unforced cs ≡ true)
    → Writes forcible db (run cs db)
unfolding run
run-Writes [] db h = done
run-Writes (c ∷ cs) db h =
    Writes-trans (perform-Writes c db (first h)) (run-Writes cs (perform c db) (later h))
  where
    first :
        {forcible : Bool}
        → (forcible ≡ true) ⊎ (all unforced (c ∷ cs) ≡ true)
        → (forcible ≡ true) ⊎ (unforced c ≡ true)
    first (inl e) = inl e
    first (inr e) = inr (ground arith)

    later :
        {forcible : Bool}
        → (forcible ≡ true) ⊎ (all unforced (c ∷ cs) ≡ true)
        → (forcible ≡ true) ⊎ (all unforced cs ≡ true)
    later (inl e) = inl e
    later (inr e) = inr (ground arith)

-- After any calls from empty tables, forced or not, the hops recorded for a task in
-- `task_transitions` connect, start in the pool and end in the status that the task has.
pub run_recorded :
    (now : ℕ) (cs : List Call) (id : ℕ)
    → let db = run cs (empty now) in
      follow id up_for_grabs db.hops ≡ some (status_of (find_task id db.tasks))
run_recorded now cs id =
    Writes-Recorded now (run-Writes {forcible = true} cs (empty now) (inl refl)) id

-- After any calls from empty tables, forced or not, the `task.transition` events of the log are
-- the rows of `task_transitions`, each once and in their order.
pub run-reported :
    (now : ℕ) (cs : List Call)
    → let db = run cs (empty now) in reported db.events ≡ map report_of db.hops
run-reported now cs = Writes-Reported now (run-Writes {forcible = true} cs (empty now) (inl refl))

-- After any calls from empty tables that force nothing, the hops recorded for a task are a legal
-- run of the state machine from the pool to the status that the task has.
pub run_legal :
    (now : ℕ) (cs : List Call) (id : ℕ)
    → all unforced cs ≡ true
    → let db = run cs (empty now) in
      Run up_for_grabs (trail id db.hops) (status_of (find_task id db.tasks))
run_legal now cs id h = Writes-Legal now (run-Writes {forcible = false} cs (empty now) (inr h)) id

-- After any calls from empty tables that force nothing, the recorded hops of a merged task enter
-- `approved` directly from `ready_for_review`: nothing is merged without a recorded approval.
pub run_merged_reviewed :
    (now : ℕ) (cs : List Call) (id : ℕ) (t : Task)
    → all unforced cs ≡ true
    → find_task id (run cs (empty now)).tasks ≡ some t
    → t.status ≡ merged
    → Enters ready_for_review approved up_for_grabs (trail id (run cs (empty now)).hops)
run_merged_reviewed now cs id t h =
    merged_reviewed now id t (run-Writes {forcible = false} cs (empty now) (inr h))

-- Calls that force nothing never remove a task and never change its workstream or its
-- prerequisites, and a task that is merged or abandoned keeps that status.
pub run_persists :
    (cs : List Call) (db : Db) (id : ℕ) (t : Task)
    → all unforced cs ≡ true
    → find_task id db.tasks ≡ some t
    → (t' : Task) × (find_task id (run cs db).tasks ≡ some t')
      × (t'.workstream ≡ t.workstream)
      × (t'.depends_on ≡ t.depends_on)
      × (IsTerminal t.status → t'.status ≡ t.status)
run_persists cs db id t h f =
    let (t', f', p) = Writes-Kept id t f (run-Writes {forcible = false} cs db (inr h)) in
    (t', f', p.workstream, p.depends_on, p.terminal)
