-- ===== src/Decisions/Laws.antt =====
-- What one call of runtime/decisions.py does to the tables.
use ai_studio.Prelude.{
  ℕ, false, Option, none, some, List, [], ◌∷◌, ◌++◌, ◌==◌, ◌≡◌, inl, inr, refl, ◌∙◌, arith, any,
  str_eq, Bool-cases, ==_refl, Result, ok, err, if◌then◌else◌,
}
use ai_studio.TaskState.{in_progress, blocked, status_eq}
use ai_studio.TaskState.Lifecycle.{status_eq→eq}
use ai_studio.Db.{Db, Task, blocked_on_decision}
use ai_studio.Db.Action.{Outcome}
use ai_studio.Tasks.Rows.{find_task}
use ai_studio.Tasks.Transition.{transition, apply_sets, expected}
use ai_studio.Tasks.Transition.Laws.{Moved, Refuses, moves, after, transition-cases}
use ai_studio.Tasks.Transition.After.{after_self}
use ai_studio.Decisions.{
  Decision, Desk, DecisionError, rolled_back, Question, park, new_decision, insert_decision, parked,
  requested_for, request_decision, find_decision,
}

-- A row is found by its id.
pub find_decision-append :
    (id : ℕ) (ds : List Decision) (d : Decision)
    → any (λ (x : Decision). x.id == d.id) ds ≡ false
    → find_decision id (ds ++ d ∷ []) ≡ (if d.id == id then some d else find_decision id ds)
unfolding find_decision
find_decision-append id [] d n = refl
find_decision-append id (x ∷ ds) d n = ground (arith, find_decision-append id ds d)

-- The task that a decision parks, before and after.
pub record Parked (decision_id task_id : ℕ) (db db' : Db) : Type 0 where
  pub before : Task
  pub found : find_task task_id db.tasks ≡ some before
  pub was_running : before.status ≡ in_progress
  pub row : Task
  pub stored : find_task task_id db'.tasks ≡ some row
  pub is_blocked : row.status ≡ blocked
  pub marked : row.result ≡ some (blocked_on_decision decision_id "awaiting_decision")

abbrev pub Parks : ℕ → Option ℕ → Db → Db → Type 0
Parks id none db db' = db' ≡ db
Parks id (some t) db db' = Parked id t db db'

-- What a request that returns has done, and one that raises.
pub data Requested (q : Question) (k : Desk) : Result DecisionError Decision × Desk → Type 0 where
  refused : (e : DecisionError) → Requested q k (err e, k)
  raised :
      (k' : Desk)
      → find_decision q.id k'.decisions ≡ some (new_decision q k)
      → Parks q.id q.dependent_task_id k.db k'.db
      → Requested q k (ok (new_decision q k), k')

insert-Requested :
    (q : Question) (k mid : Desk)
    → mid.decisions ≡ k.decisions
    → mid.next_seq ≡ k.next_seq
    → mid.db.clock ≡ k.db.clock
    → Parks q.id q.dependent_task_id k.db mid.db
    → Requested q k (rolled_back k (insert_decision q mid))
unfolding insert_decision
insert-Requested q k mid d n c p =
    elim (Bool-cases (any (λ (x : Decision). x.id == q.id) mid.decisions)) [
      | inl e ↦ rw e (refused _)
      | inr e ↦
          let same : new_decision q mid ≡ new_decision q k = rw (n, c) refl in
          elim (Bool-cases (str_eq q.workstream "")) [
            | inl blank ↦ rw (e, blank) (refused _)
            | inr named ↦
                rw (e, named, same)
                  (raised _
                    (find_decision-append q.id mid.decisions (new_decision q k) e
                      ∙ rw (==_refl q.id) refl)
                    p)
          ]
    ]

Moved-Parked :
    (id t : ℕ) (db : Db) (m : Moved t blocked (park id) db)
    → Parked id t db (after db m.row blocked (park id))
unfolding moves expected apply_sets status_eq
Moved-Parked id t db m =
    let g = m.guards in
    record {
      before = m.row;
      found = m.found;
      was_running = status_eq→eq m.row.status in_progress (ground arith);
      row = apply_sets (park id) blocked db.clock m.row;
      stored = after_self blocked (park id) db m.row t m.found;
      is_blocked = refl;
      marked = refl;
    }

refused_parked :
    (q : Question) (t : ℕ) (k : Desk) (r : Outcome (Option Task) × Db)
    → Refuses k.db r
    → Requested q k (rolled_back k (parked q t r.0 (record k { db = r.1 })))
refused_parked q t k (ok none, db) n = refused _
refused_parked q t k (ok (some x), db) n = absurd (n.no_task x refl)
refused_parked q t k (err e, db) n = refused _

requested_for-Requested :
    (q : Question) (k : Desk) (t : Option ℕ)
    → q.dependent_task_id ≡ t
    → Requested q k (rolled_back k (requested_for q t k))
requested_for-Requested q k none e = insert-Requested q k k refl refl refl (rw e refl)
requested_for-Requested q k (some t) e = elim (transition-cases t blocked (park q.id) k.db) [
  | inl m ↦ rw m.result (
      insert-Requested q k (record k { db = after k.db m.row blocked (park q.id) }) refl refl refl
        (rw e (Moved-Parked q.id t k.db m)))
  | inr n ↦ refused_parked q t k (transition t blocked (park q.id) k.db) n
]

-- A request either raises and leaves every table and the log as they were, or returns a decision
-- that is open and stored under its id; a task that depends on it was in progress, and is now stored
-- as blocked with a result that names the decision. So no open decision is recorded whose task
-- could not be parked.
pub request_decision-Requested : (q : Question) (k : Desk) → Requested q k (request_decision q k)
unfolding request_decision
request_decision-Requested q k = requested_for-Requested q k q.dependent_task_id refl
