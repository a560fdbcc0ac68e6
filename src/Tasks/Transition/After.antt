-- ===== src/Tasks/Transition/After.antt =====
-- Where a row stands after an update, and after a hop of `transition`.
use ai_studio.Prelude.{
  ℕ, ◌==◌, Bool, true, false, some, List, ◌≡◌, inl, inr, refl, sym, subst, ◌∙◌, ==_refl, ok,
}
use ai_studio.TaskState.{Status, status_eq}
use ai_studio.TaskState.Lifecycle.{status_eq_refl}
use ai_studio.Db.{Db, Task}
use ai_studio.Tasks.Rows.{find_task, update_task, returning, find_task-update_task, find_task-id}
use ai_studio.Tasks.Transition.{Options, apply_sets, transition}
use ai_studio.Tasks.Transition.Laws.{apply_sets-keeps, moves, after, transition_found}

module _ (id : ℕ) (p : Task → Bool) (f : Task → Task) (ts : List Task)
    (same : (t : Task) → (f t).id ≡ t.id) where
  pub update_task_self :
      (t : Task)
      → find_task id ts ≡ some t
      → p t ≡ true
      → find_task id (update_task id p f ts) ≡ some (f t)
  update_task_self t s h = find_task-update_task id id p f ts same ∙ rw (==_refl id, s) (rw h refl)

  pub update_task_other :
      (j : ℕ) → (id == j) ≡ false → find_task j (update_task id p f ts) ≡ find_task j ts
  update_task_other j h = find_task-update_task id j p f ts same ∙ rw h refl

pub transition-moves :
    (task_id : ℕ) (to : Status) (o : Options) (db : Db) (row : Task)
    → find_task task_id db.tasks ≡ some row
    → moves o to row ≡ true
    → transition task_id to o db ≡ (ok (some (apply_sets o to db.clock row)), after db row to o)
transition-moves task_id to o db row f m = elim (transition_found task_id to o db row f) [
  | inl r ↦ r.1
  | inr r ↦ let bad = r.0 in cc
]

module _ (to : Status) (o : Options) (db : Db) (row : Task) (id : ℕ)
    (found : find_task id db.tasks ≡ some row) where
  abbrev pub unmoved : Task → Bool
  unmoved x = status_eq x.status row.status

  pub after_self : find_task id (after db row to o).tasks ≡ some (apply_sets o to db.clock row)
  after_self =
      subst
        (λ i.
          find_task id (update_task i unmoved (apply_sets o to db.clock) db.tasks)
          ≡ some (apply_sets o to db.clock row))
        (sym (find_task-id id db.tasks row found))
        (update_task_self id unmoved (apply_sets o to db.clock) db.tasks
          (λ x. (apply_sets-keeps o to db.clock x).id) row found (status_eq_refl row.status))

  pub after_other :
      (j : ℕ) → (id == j) ≡ false → find_task j (after db row to o).tasks ≡ find_task j db.tasks
  after_other j n =
      subst
        (λ i.
          find_task j (update_task i unmoved (apply_sets o to db.clock) db.tasks)
          ≡ find_task j db.tasks)
        (sym (find_task-id id db.tasks row found))
        (update_task_other id unmoved (apply_sets o to db.clock) db.tasks
          (λ x. (apply_sets-keeps o to db.clock x).id) j n)

pub returning-eq :
    (id : ℕ) (p : Task → Bool) (f : Task → Task) (ts : List Task) (t : Task)
    → find_task id ts ≡ some t
    → p t ≡ true
    → returning id p f ts ≡ some (f t)
unfolding returning
returning-eq id p f ts t s h = rw (returning, s) (rw h refl)
