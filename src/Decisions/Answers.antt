-- ===== src/Decisions/Answers.antt =====
-- What `answer_decision` does to the decision and to the task that waits for it.
use ai_studio.Prelude.{
  ℕ, String, true, false, Option, none, some, List, [], ◌∷◌, ◌==◌, ◌≡◌, ◌⊎◌, inl, inr, refl, ◌∙◌,
  ap, arith, Bool-cases, Option-cases, Result, ok, err, str_eq,
}
use ai_studio.TaskState.{up_for_grabs, blocked, status_eq, allowed}
use ai_studio.TaskState.Lifecycle.{status_eq→eq}
use ai_studio.Db.{Db, Task}
use ai_studio.Db.Action.{Outcome}
use ai_studio.Tasks.Rows.{find_task}
use ai_studio.Tasks.Transition.{transition, apply_sets, expected, assigns_twice}
use ai_studio.Tasks.Transition.Laws.{Refuses, moves, after, transition_found, transition_missing}
use ai_studio.Tasks.Transition.After.{after_self}
use ai_studio.Decisions.{
  Decision, still_open, Desk, DecisionError, rolled_back, settle, find_decision, resume,
  settled_row, resumed, resume_task, answering, answer_decision,
}

-- The task is back in the pool with no claim.
pub record Freed (t : ℕ) (db db' : Db) : Type 0 where
  pub before : Task
  pub found : find_task t db.tasks ≡ some before
  pub was_blocked : before.status ≡ blocked
  pub row : Task
  pub stored : find_task t db'.tasks ≡ some row
  pub in_pool : row.status ≡ up_for_grabs
  pub unclaimed : row.claimed_by ≡ none

-- A task that is blocked, in a workstream that has a name.
abbrev pub Waits : ℕ → Db → Type 0
Waits t db =
    (row : Task) × (find_task t db.tasks ≡ some row)
    × (row.status ≡ blocked)
    × (str_eq row.workstream "" ≡ false)

abbrev pub Resumes : Option ℕ → Db → Db → Type 0
Resumes none db db' = db' ≡ db
Resumes (some t) db db' = Freed t db db' ⊎ ((db' ≡ db) × (¬ Waits t db))

pub data Answered (id : ℕ) (text resolver : String) (now : Option ℕ) (k : Desk)
    : Result DecisionError (Option Decision) × Desk → Type 0 where
  failed : (e : DecisionError) → Answered id text resolver now k (err e, k)
  not_open :
      ((d : Decision) → find_decision id k.decisions ≡ some d → still_open d.status ≡ false)
      → Answered id text resolver now k (ok none, k)
  taken :
      (d : Decision) (k' : Desk)
      → find_decision id k.decisions ≡ some d
      → still_open d.status ≡ true
      → find_decision id k'.decisions ≡ some (answering text resolver now k.db.clock d)
      → Resumes d.dependent_task_id k.db k'.db
      → Answered id text resolver now k (ok (some (answering text resolver now k.db.clock d)), k')

resume-moves :
    (row : Task)
    → row.status ≡ blocked
    → str_eq row.workstream "" ≡ false
    → moves resume up_for_grabs row ≡ true
unfolding moves expected assigns_twice allowed status_eq
resume-moves row e n = rw (e, n) refl

resume-Freed :
    (t : ℕ) (db : Db) (row : Task)
    → find_task t db.tasks ≡ some row
    → moves resume up_for_grabs row ≡ true
    → Freed t db (after db row up_for_grabs resume)
unfolding moves expected apply_sets status_eq
resume-Freed t db row f g = record {
  before = row;
  found = f;
  was_blocked = status_eq→eq row.status blocked (ground arith);
  row = apply_sets resume up_for_grabs db.clock row;
  stored = after_self up_for_grabs resume db row t f;
  in_pool = refl;
  unclaimed = refl;
}

-- The ways in which `transition` ends here.
data Ended (t : ℕ) (db : Db) : Outcome (Option Task) × Db → Type 0 where
  raised : (e : ai_studio.Db.Action.Error) (db' : Db) → Ended t db (err e, db')
  returned :
      (o : Option Task) (db' : Db)
      → Freed t db db' ⊎ ((db' ≡ db) × (¬ Waits t db))
      → Ended t db (ok o, db')

refused-Ended :
    (t : ℕ) (db : Db) (r : Outcome (Option Task) × Db)
    → Refuses db r
    → (¬ Waits t db)
    → Ended t db r
refused-Ended t db (err e, db') n w = raised e db'
refused-Ended t db (ok o, db') n w = returned o db' (inr (n.unchanged, w))

transition-Ended : (t : ℕ) (db : Db) → Ended t db (transition t up_for_grabs resume db)
transition-Ended t db = elim (Option-cases (find_task t db.tasks)) [
  | inl e ↦
      rw (transition_missing t up_for_grabs resume db e)
        (returned none db (inr (refl, λ (row, f, b, n). cc)))
  | inr (row, f) ↦ elim (transition_found t up_for_grabs resume db row f) [
    | inl (m, r) ↦ rw r (returned _ _ (inl (resume-Freed t db row f m)))
    | inr (m, r) ↦ refused-Ended t db (transition t up_for_grabs resume db) r (λ (row', f', b, n).
        let same : row' ≡ row = cc in
        let yes_moves = resume-moves row' b n in
        let still : moves resume up_for_grabs row' ≡ false = rw same m in cc)
  ]
]

find_decision-settle_self :
    (id : ℕ) (f : Decision → Decision) (ds : List Decision) (d : Decision)
    → ((x : Decision) → (f x).id ≡ x.id)
    → find_decision id ds ≡ some d
    → still_open d.status ≡ true
    → find_decision id (settle id f ds) ≡ some (f d)
unfolding find_decision settle
find_decision-settle_self id f [] d s h o = cc
find_decision-settle_self id f (x ∷ ds) d s h o = elim (Bool-cases (x.id == id)) [
  | inr e ↦ rw e (rw e (find_decision-settle_self id f ds d s (rw e at h) o))
  | inl e ↦
      let same : x ≡ d = ground arith in
      let q : ((f x).id == id) ≡ true = ap (λ n. n == id) (s x) ∙ e in
      let p : still_open x.status ≡ true = rw same o in rw (e, p) (rw q (ap (λ y. some (f y)) same))
]

module _ (id : ℕ) (text resolver : String) (now : Option ℕ) (k : Desk) (d : Decision)
    (found : find_decision id k.decisions ≡ some d) (waiting : still_open d.status ≡ true) where
  abbrev answer : Decision → Decision
  answer = answering text resolver now k.db.clock

  stored : find_decision id (settle id answer k.decisions) ≡ some (answer d)
  stored = find_decision-settle_self id answer k.decisions d (λ x. refl) found waiting

  resumed-Answered :
      (t : ℕ) (r : Outcome (Option Task) × Db)
      → d.dependent_task_id ≡ some t
      → Ended t k.db r
      → Answered id text resolver now k (
          rolled_back k (
            resumed
              (answer d)
              r.0
              (record k { decisions = settle id answer k.decisions; db = r.1 })))
  resumed-Answered t _ e (raised x db') = failed _
  resumed-Answered t _ e (returned o db' f) = elim (Bool-cases (str_eq d.workstream "")) [
    | inl blank ↦ rw blank (failed _)
    | inr named ↦ rw named (taken d _ found waiting stored (rw e f))
  ]

  resume_task-Answered :
      (t : Option ℕ)
      → d.dependent_task_id ≡ t
      → Answered id text resolver now k (
          rolled_back k
            (resume_task (answer d) t (record k { decisions = settle id answer k.decisions })))
  resume_task-Answered none e = elim (Bool-cases (str_eq d.workstream "")) [
    | inl blank ↦ rw blank (failed _)
    | inr named ↦ rw named (taken d _ found waiting stored (rw e refl))
  ]
  resume_task-Answered (some t) e =
      resumed-Answered t (transition t up_for_grabs resume k.db) e (transition-Ended t k.db)

-- An answer either raises and leaves every table and the log as they were; or finds no open decision
-- of that id, and changes nothing; or it is stored in the decision, which was open, and the task that
-- waits for it, if it is blocked (and has a workstream), goes back to the pool with its claim cleared.
pub answer_decision-Answered :
    (id : ℕ) (text resolver : String) (now : Option ℕ) (k : Desk)
    → Answered id text resolver now k (answer_decision id text resolver now k)
unfolding answer_decision
answer_decision-Answered id text resolver now k =
    elim (Option-cases (find_decision id k.decisions)) [
      | inl e ↦ rw (settled_row, e) (not_open (λ d f. cc))
      | inr (d, e) ↦ elim (Bool-cases (still_open d.status)) [
        | inr n ↦ rw (settled_row, e, n) (not_open (λ d' f. let same : d' ≡ d = cc in rw same n))
        | inl o ↦
            rw (settled_row, e, o)
              (resume_task-Answered id text resolver now k d e o d.dependent_task_id refl)
      ]
    ]
