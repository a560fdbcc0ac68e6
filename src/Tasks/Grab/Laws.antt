-- ===== src/Tasks/Grab/Laws.antt =====
-- What a grab promises: the task was free and its prerequisites merged, and now it is the
-- worker's; a fenced identity gets nothing.
use ai_studio.Prelude.{
  ℕ, false, Option, none, some, List, ◌≡◌, inl, inr, refl, sym, arith, In, In-keep, In-first_by,
  any-eq-false, ◌==◌, ◌&&◌, not, ==_refl, Bool-cases, Option-cases, ◌∙◌, subst, ap, keep, ok, any,
}
use ai_studio.TaskState.{up_for_grabs, claimed, merged, status_eq}
use ai_studio.TaskState.Lifecycle.{status_eq→eq}
use ai_studio.Db.{Db, Task}
use ai_studio.Db.Action.{Outcome, ◌>>=◌, rollback, rollback-eq-ok, >>=-eq-ok}
use ai_studio.Tasks.Rows.{find_task}
use ai_studio.Tasks.Transition.{apply_sets, transition}
use ai_studio.Tasks.Transition.Laws.{transition-cases, after}
use ai_studio.Tasks.Query.{SortFragment, Clause, build_sort, build_filter}
use ai_studio.Tasks.Selection.{precedes}
use ai_studio.Tasks.Writes.Kept.{find_task-after}
use ai_studio.Tasks.Writes.Unique.{Unique}
use ai_studio.Tasks.Grab.{
  Request, grab_task, grab_selected, grab_options, pick, grabbable, unmet, identity_quarantined,
  lift,
}

-- Every prerequisite that is a row is merged.
abbrev pub PrerequisitesMerged : Task → List Task → Type 0
PrerequisitesMerged t ts =
    (dep : ℕ) (p : Task) → In dep t.depends_on → In p ts → p.id ≡ dep → p.status ≡ merged

unmet-eq-false : (ts : List Task) (t : Task) → unmet ts t ≡ false → PrerequisitesMerged t ts
unfolding unmet
unmet-eq-false ts t h dep p d m e =
    let none_of =
      any-eq-false (λ dep. any (λ p. p.id == dep && not (status_eq p.status merged)) ts)
        t.depends_on dep h d in
    let this = any-eq-false (λ p. p.id == dep && not (status_eq p.status merged)) ts p none_of m in
    status_eq→eq p.status merged (ground arith)

-- What the picked row satisfies.
pub record IsPickable (q : Request) (ts : List Task) (t : Task) : Type 0 where
  pub listed : In t ts
  pub free : t.status ≡ up_for_grabs
  pub ready : PrerequisitesMerged t ts
  pub unlocked : q.busy t.id ≡ false

pick-IsPickable :
    (q : Request) (order : List SortFragment) (clauses : List Clause) (ts : List Task) (t : Task)
    → pick q order clauses ts ≡ some t
    → IsPickable q ts t
unfolding pick
pick-IsPickable q order clauses ts t h =
    let test = λ (x : Task). grabbable q.assignee q.workstream clauses ts x && not (q.busy x.id) in
    let (m, passes) =
      In-keep test ts t (In-first_by (precedes q.collate order) (keep test ts) t h) in
    record {
      listed = m;
      free = status_eq→eq t.status up_for_grabs (unfold grabbable in ground arith);
      ready = unmet-eq-false ts t (unfold grabbable in ground arith);
      unlocked = ground arith;
    }

-- A grab that returns a task, with the row that it was.
pub record Grabbed (q : Request) (db : Db) (t : Task) (db' : Db) : Type 0 where
  pub row : Task
  pub pickable : IsPickable q db.tasks row
  pub trusted : identity_quarantined db q.worker_id ≡ false
  pub same_id : t.id ≡ row.id
  pub now_claimed : t.status ≡ claimed
  pub holder : t.claimed_by ≡ some q.worker_id
  pub beating : t.heartbeat_at ≡ some db.clock
  pub prerequisites : t.depends_on ≡ row.depends_on
  pub stored : find_task t.id db'.tasks ≡ some t

claimed-Grabbed :
    (q : Request) (db : Db) (picked t : Task) (db' : Db)
    → IsPickable q db.tasks picked
    → (find_task picked.id db.tasks ≡ some picked)
    → identity_quarantined db q.worker_id ≡ false
    → rollback db (transition picked.id claimed (grab_options q) db) ≡ (ok (some t), db')
    → Grabbed q db t db'
unfolding apply_sets
claimed-Grabbed q db picked t db' pickable found trusted h =
    elim (transition-cases picked.id claimed (grab_options q) db) [
      | inr r ↦ absurd (
          r.no_task t
            (rollback-eq-ok db (transition picked.id claimed (grab_options q) db) (some t) db' h).0)
      | inl m ↦
          let (returned, left) =
            rollback-eq-ok db (transition picked.id claimed (grab_options q) db) (some t) db' h in
          let same : m.row ≡ picked = cc (m.found, found) in
          let is_t : apply_sets (grab_options q) claimed db.clock m.row ≡ t =
            cc (returned, m.result) in
          let is_db' : after db m.row claimed (grab_options q) ≡ db' =
            sym (ap (λ r. r.1) m.result) ∙ left in
          subst (λ x. Grabbed q db x db') is_t
            (record {
              row = m.row;
              pickable = subst (IsPickable q db.tasks) (sym same) pickable;
              trusted = trusted;
              same_id = refl;
              now_claimed = refl;
              holder = refl;
              beating = refl;
              prerequisites = refl;
              stored =
                  subst
                    (λ d.
                      find_task m.row.id d.tasks
                      ≡ some (apply_sets (grab_options q) claimed db.clock m.row))
                    is_db' (find_task-after m m.row.id ∙ rw (==_refl m.row.id) refl);
            })
    ]

not_none :
    (db : Db) (t : Task) (db' : Db)
    → ¬ (let r : Outcome (Option Task) × Db = (ok none, db) in r ≡ (ok (some t), db'))
not_none db t db' h = let bad : ok none ≡ ok (some t) = ap (λ r. r.0) h in cc

grab_selected-Grabbed :
    (q : Request) (order : List SortFragment) (clauses : List Clause) (db : Db) (t : Task)
    (db' : Db)
    → Unique db.tasks
    → grab_selected q order clauses db ≡ (ok (some t), db')
    → Grabbed q db t db'
unfolding grab_selected
grab_selected-Grabbed q order clauses db t db' u h =
    elim (Bool-cases (identity_quarantined db q.worker_id)) [
      | inl bad ↦ absurd (not_none db t db' (rw bad at h))
      | inr good ↦ elim (Option-cases (pick q order clauses db.tasks)) [
        | inl e ↦ absurd (not_none db t db' (rw (good, e) at h))
        | inr (picked, e) ↦
            let p = pick-IsPickable q order clauses db.tasks picked e in
            claimed-Grabbed q db picked t db' p (u picked p.listed) good (rw (good, e) at h)
      ]
    ]

pub grab_task-Grabbed :
    (q : Request) (db : Db) (t : Task) (db' : Db)
    → Unique db.tasks
    → grab_task q db ≡ (ok (some t), db')
    → Grabbed q db t db'
unfolding grab_task
grab_task-Grabbed q db t db' u h =
    let (order, mid, e, rest) =
      >>=-eq-ok (lift (build_sort q.sort))
        (λ order. lift (build_filter q.filter) >>= grab_selected q order) db (some t) db' h in
    let (clauses, last, e', sel) =
      >>=-eq-ok (lift (build_filter q.filter)) (grab_selected q order) mid (some t) db' rest in
    let same : db ≡ mid = ap (λ r. r.1) e in
    let same' : mid ≡ last = ap (λ r. r.1) e' in
    grab_selected-Grabbed q order clauses db t db' u (rw (same, same') sel)
