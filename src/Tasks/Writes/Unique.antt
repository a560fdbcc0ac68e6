-- ===== src/Tasks/Writes/Unique.antt =====
-- The primary key: a row of the table is the one that its id finds.
use ai_studio.Prelude.{
  ℕ, Bool, true, false, some, List, [], ◌∷◌, ◌≡◌, inl, inr, refl, sym, arith, In, In-append-cases,
  if◌then◌else◌, ◌==◌, ◌&&◌, ==_refl, Bool-cases, ◌∙◌, subst,
}
use ai_studio.TaskState.{status_eq}
use ai_studio.Db.{Db, Task}
use ai_studio.Tasks.Rows.{find_task, update_task, find_task-update_task, find_task-append}
use ai_studio.Tasks.Transition.{apply_sets}
use ai_studio.Tasks.Transition.Laws.{apply_sets-keeps}
use ai_studio.Tasks.Writes.{Write, Writes, hop, columns, append, create, tick, judge, done, also}
use ai_studio.Tasks.Writes.History.{empty}

abbrev pub Unique : List Task → Type 0
Unique ts = (t : Task) → In t ts → find_task t.id ts ≡ some t

-- A row after an update is a row before it, updated or not.
pub In-update_task :
    (id : ℕ) (p : Task → Bool) (f : Task → Task) (ts : List Task) (t' : Task)
    → In t' (update_task id p f ts)
    → (t : Task) × In t ts × (t' ≡ (if t.id == id && p t then f t else t))
unfolding update_task
In-update_task id p f [] t' m = absurd m
In-update_task id p f (x ∷ ts) t' (inl e) = (x, inl refl, e)
In-update_task id p f (x ∷ ts) t' (inr m) =
    let (t, i, e) = In-update_task id p f ts t' m in (t, inr i, e)

Unique-update_task :
    (id : ℕ) (p : Task → Bool) (f : Task → Task) (ts : List Task)
    → ((t : Task) → (f t).id ≡ t.id)
    → Unique ts
    → Unique (update_task id p f ts)
Unique-update_task id p f ts k u t' m =
    let (t, i, e) = In-update_task id p f ts t' m in rw e (found t i)
  where
    found :
        (t : Task)
        → In t ts
        → let t' = if t.id == id && p t then f t else t in
          find_task t'.id (update_task id p f ts) ≡ some t'
    found t i = elim (Bool-cases (t.id == id)) [
      | inr n ↦
          let n' : (id == t.id) ≡ false = ground arith in
          rw n (find_task-update_task id t.id p f ts k ∙ rw n' (u t i))
      | inl n ↦
          let n' : (id == t.id) ≡ true = ground arith in
          elim (Bool-cases (p t)) [
            | inl q ↦
                rw (n, q)
                  (subst (λ j. find_task j (update_task id p f ts) ≡ some (f t)) (sym (k t))
                    (find_task-update_task id t.id p f ts k ∙ rw (n', u t i) (rw q refl)))
            | inr q ↦
                rw (n, q) (find_task-update_task id t.id p f ts k ∙ rw (n', u t i) (rw q refl))
          ]
    ]

Write-Unique :
    {forcible : Bool} {db db' : Db} → Unique db.tasks → Write forcible db db' → Unique db'.tasks
Write-Unique {db = db} u (hop {to = to} {o = o} m f) =
    Unique-update_task m.row.id (λ x. status_eq x.status m.row.status) (apply_sets o to db.clock)
      db.tasks (λ t. (apply_sets-keeps o to db.clock t).id) u
Write-Unique {db = db} u (columns id p f k) = Unique-update_task id p f db.tasks k.id u
Write-Unique u (append e q) = u
Write-Unique {db = db} u (create t fresh s w) = λ x m.
    elim (In-append-cases x db.tasks (t ∷ []) m) [
      | inl l ↦ find_task-append x.id db.tasks t ∙ rw (u x l) refl
      | inr r ↦ elim r [
        | inl same ↦ rw same (find_task-append t.id db.tasks t ∙ rw fresh (rw (==_refl t.id) refl))
        | inr none_left ↦ absurd none_left
      ]
    ]
Write-Unique u (tick n) = u
Write-Unique u (judge rows) = u

pub Writes-Unique :
    {forcible : Bool} (now : ℕ) {db : Db} → Writes forcible (empty now) db → Unique db.tasks
unfolding empty
Writes-Unique now done = λ t m. absurd m
Writes-Unique now (also w last) = Write-Unique (Writes-Unique now w) last
