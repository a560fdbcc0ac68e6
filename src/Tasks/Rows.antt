-- ===== src/Tasks/Rows.antt =====
-- Reading and writing rows of `tasks` by their primary key.
use ai_studio.Prelude.{
  ℕ, Bool, Option, none, some, List, [], ◌∷◌, ◌++◌, or_else, ◌≡◌, refl, arith, ◌==◌, ◌&&◌,
  if◌then◌else◌, Bool-cases, inl, inr,
}
use ai_studio.Db.{Task}

-- `SELECT … FROM tasks WHERE id = %s`
unfoldable pub find_task : ℕ → List Task → Option Task
find_task id [] = none
find_task id (t ∷ ts) = if t.id == id then some t else find_task id ts

-- `UPDATE tasks SET … WHERE id = %s AND …`
unfoldable pub update_task : ℕ → (Task → Bool) → (Task → Task) → List Task → List Task
update_task id p f [] = []
update_task id p f (t ∷ ts) = (if t.id == id && p t then f t else t) ∷ update_task id p f ts

-- The row that an UPDATE with `RETURNING` gives back.
unfoldable pub returning : ℕ → (Task → Bool) → (Task → Task) → List Task → Option Task
returning id p f ts = elim (find_task id ts) [
  | none ↦ none
  | some t ↦ if p t then some (f t) else none
]

abbrev pub when : (Task → Bool) → (Task → Task) → Option Task → Option Task
when p f none = none
when p f (some t) = some (if p t then f t else t)

pub find_task-id : (id : ℕ) (ts : List Task) (t : Task) → find_task id ts ≡ some t → t.id ≡ id
unfolding find_task
find_task-id id [] t h = ground arith
find_task-id id (x ∷ ts) t h = ground (arith, find_task-id id ts t)

pub find_task-update_task :
    (id j : ℕ) (p : Task → Bool) (f : Task → Task) (ts : List Task)
    → ((t : Task) → (f t).id ≡ t.id)
    → find_task j (update_task id p f ts)
      ≡ (if id == j then when p f (find_task j ts) else find_task j ts)
unfolding find_task update_task
find_task-update_task id j p f [] k = ground arith
find_task-update_task id j p f (t ∷ ts) k = elim (Bool-cases (p t)) [
  | inl e ↦ ground (arith, k t, find_task-update_task id j p f ts k)
  | inr e ↦ ground (arith, k t, find_task-update_task id j p f ts k)
]

pub find_task-append :
    (j : ℕ) (ts : List Task) (t : Task)
    → find_task j (ts ++ t ∷ []) ≡ or_else (find_task j ts) (if t.id == j then some t else none)
unfolding find_task
find_task-append j [] t = refl
find_task-append j (x ∷ ts) t = ground (arith, find_task-append j ts t)
