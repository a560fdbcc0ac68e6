-- ===== src/Tasks/Writes/Named.antt =====
-- Every task has a workstream, as its creation reports itself to the log of one.
use ai_studio.Prelude.{
  ℕ, Bool, false, some, List, arith, [], ◌∷◌, ◌≡◌, inl, inr, In, In-append-cases, str_eq, ◌==◌,
  ◌&&◌, Bool-cases,
}
use ai_studio.TaskState.{status_eq}
use ai_studio.Db.{Db, Task}
use ai_studio.Tasks.Rows.{find_task, update_task}
use ai_studio.Tasks.Transition.{apply_sets}
use ai_studio.Tasks.Transition.Laws.{apply_sets-keeps}
use ai_studio.Tasks.Writes.{Write, Writes, hop, columns, append, create, tick, judge, done, also}
use ai_studio.Tasks.Writes.Unique.{In-update_task}
use ai_studio.Tasks.Writes.History.{empty}

abbrev pub Named : List Task → Type 0
Named ts = (t : Task) → In t ts → str_eq t.workstream "" ≡ false

Named-update_task :
    (id : ℕ) (p : Task → Bool) (f : Task → Task) (ts : List Task)
    → ((t : Task) → (f t).workstream ≡ t.workstream)
    → Named ts
    → Named (update_task id p f ts)
Named-update_task id p f ts k n t' m =
    let (t, i, e) = In-update_task id p f ts t' m in
    elim (Bool-cases (t.id == id && p t)) [
      | inl b ↦ let e' : t' ≡ f t = rw b at e in rw (e', k t) (n t i)
      | inr b ↦ let e' : t' ≡ t = rw b at e in rw e' (n t i)
    ]

Write-Named :
    {forcible : Bool} {db db' : Db} → Named db.tasks → Write forcible db db' → Named db'.tasks
Write-Named {db = db} n (hop {to = to} {o = o} m f) =
    Named-update_task m.row.id (λ x. status_eq x.status m.row.status) (apply_sets o to db.clock)
      db.tasks (λ t. (apply_sets-keeps o to db.clock t).workstream) n
Write-Named {db = db} n (columns id p f k) = Named-update_task id p f db.tasks k.workstream n
Write-Named n (append e q) = n
Write-Named {db = db} n (create t fresh s w) = λ x m. elim (In-append-cases x db.tasks (t ∷ []) m) [
  | inl l ↦ n x l
  | inr r ↦ elim r [ inl same ↦ rw same w | inr none_left ↦ absurd none_left ]
]
Write-Named n (tick k) = n
Write-Named n (judge rows) = n

pub Writes-Named :
    {forcible : Bool} {db db' : Db} → Named db.tasks → Writes forcible db db' → Named db'.tasks
Writes-Named n done = n
Writes-Named n (also w last) = Write-Named (Writes-Named n w) last

pub empty-Named : (now : ℕ) → Named (empty now).tasks
unfolding empty
empty-Named now t m = absurd m

-- A row that an id finds is in the table.
pub find_task-In : (id : ℕ) (ts : List Task) (t : Task) → find_task id ts ≡ some t → In t ts
unfolding find_task
find_task-In id [] t h = absurd (ground arith)
find_task-In id (x ∷ ts) t h = elim (Bool-cases (x.id == id)) [
  | inl e ↦ inl (ground arith)
  | inr e ↦ inr (find_task-In id ts t (ground arith))
]
