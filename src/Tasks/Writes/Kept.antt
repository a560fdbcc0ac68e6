-- ===== src/Tasks/Writes/Kept.antt =====
-- What no write changes: the workstream and the prerequisites of a task, and a terminal status.
use ai_studio.Prelude.{
  ℕ, Bool, true, false, some, ◌≡◌, ◌⊎◌, inl, inr, refl, sym, arith, if◌then◌else◌, ◌==◌, Bool-cases,
  ◌∙◌, subst,
}
use ai_studio.TaskState.{Status, allowed, status_eq}
use ai_studio.TaskState.Lifecycle.{status_eq_refl, IsTerminal, IsTerminal-iff}
use ai_studio.Db.{Db, Task}
use ai_studio.Tasks.Rows.{
  find_task, update_task, find_task-id, find_task-update_task, find_task-append, when,
}
use ai_studio.Tasks.Transition.{Options, apply_sets}
use ai_studio.Tasks.Transition.Laws.{Moved, after, moves, apply_sets-keeps}
use ai_studio.Tasks.Writes.{
  Write, Writes, hop, columns, append, create, tick, judge, done, also, IsMinor,
}

-- The row of a task after a hop of the row `m.row`.
pub find_task-after :
    {task_id : ℕ} {to : Status} {o : Options} {db : Db} (m : Moved task_id to o db) (j : ℕ)
    → find_task j (after db m.row to o).tasks
      ≡ (if m.row.id == j then some (apply_sets o to db.clock m.row) else find_task j db.tasks)
find_task-after {task_id} {to} {o} {db} m j =
    find_task-update_task m.row.id j (λ x. status_eq x.status m.row.status)
      (apply_sets o to db.clock) db.tasks (λ t. (apply_sets-keeps o to db.clock t).id)
    ∙ pick_row m.row (find_task-id task_id db.tasks m.row m.found) m.found
  where
    pick_row :
        (row : Task)
        → row.id ≡ task_id
        → find_task task_id db.tasks ≡ some row
        → (if row.id == j
            then when
                (λ x. status_eq x.status row.status)
                (apply_sets o to db.clock)
                (find_task j db.tasks)
            else find_task j db.tasks)
          ≡ (if row.id == j then some (apply_sets o to db.clock row) else find_task j db.tasks)
    pick_row row same found = elim (Bool-cases (row.id == j)) [
      | inl e ↦
          let at : task_id ≡ j = ground arith in
          let here : find_task j db.tasks ≡ some row = rw (← at) found in
          rw (e, here) (rw (status_eq_refl row.status) refl)
      | inr e ↦ rw e refl
    ]

pub find_task-columns :
    (db : Db) (id j : ℕ) (p : Task → Bool) (f : Task → Task)
    → IsMinor f
    → (t : Task) → find_task j db.tasks ≡ some t
    → (find_task j (update_task id p f db.tasks) ≡ some t)
      ⊎ (find_task j (update_task id p f db.tasks) ≡ some (f t))
find_task-columns db id j p f k t h = elim (Bool-cases (id == j)) [
  | inr e ↦ inl (rw (find_task-update_task id j p f db.tasks k.id) (rw e h))
  | inl e ↦ elim (Bool-cases (p t)) [
    | inl q ↦ inr (rw (find_task-update_task id j p f db.tasks k.id) (rw (e, h) (rw q refl)))
    | inr q ↦ inl (rw (find_task-update_task id j p f db.tasks k.id) (rw (e, h) (rw q refl)))
  ]
]

-- What a later row of a task has in common with an earlier one.
pub record Persists (t t' : Task) : Type 0 where
  pub id : t'.id ≡ t.id
  pub workstream : t'.workstream ≡ t.workstream
  pub depends_on : t'.depends_on ≡ t.depends_on
  pub terminal : IsTerminal t.status → t'.status ≡ t.status

-- A row of the task is there, and persists.
abbrev pub Kept : ℕ → Task → Db → Type 0
Kept j t db = (t' : Task) × (find_task j db.tasks ≡ some t') × Persists t t'

Persists-refl : (t : Task) → Persists t t
Persists-refl t = record { id = refl; workstream = refl; depends_on = refl; terminal = λ _. refl }

Persists-trans : {a b c : Task} → Persists a b → Persists b c → Persists a c
Persists-trans {a} {b} p q = record {
  id = q.id ∙ p.id;
  workstream = q.workstream ∙ p.workstream;
  depends_on = q.depends_on ∙ p.depends_on;
  terminal = λ h. q.terminal (subst IsTerminal (sym (p.terminal h)) h) ∙ p.terminal h;
}

-- An unforced hop never leaves a terminal status.
pub hop_allowed :
    {task_id : ℕ} {to : Status} {o : Options} {db : Db} (m : Moved task_id to o db)
    → o.force ≡ false
    → allowed m.row.status to ≡ true
hop_allowed {to = to} {o = o} m f = let g = m.guards in unfold moves in ground arith

hop-Persists :
    {task_id : ℕ} {to : Status} {o : Options} {db : Db} (m : Moved task_id to o db)
    → o.force ≡ false
    → Persists m.row (apply_sets o to db.clock m.row)
hop-Persists {to = to} {o = o} {db = db} m f =
    let k = apply_sets-keeps o to db.clock m.row in
    record {
      id = k.id;
      workstream = k.workstream;
      depends_on = k.depends_on;
      terminal = λ h. cc (hop_allowed m f, (IsTerminal-iff m.row.status).0 h to);
    }

pub unforced : {b : Bool} → (false ≡ true) ⊎ (b ≡ false) → b ≡ false
unforced (inl e) = cc
unforced (inr e) = e

Write-Kept :
    {db db' : Db} (j : ℕ) (t : Task)
    → find_task j db.tasks ≡ some t
    → Write false db db'
    → Kept j t db'
Write-Kept {db} j t h (hop {task_id} {to} {o} m f) = elim (Bool-cases (m.row.id == j)) [
  | inr e ↦ (t, find_task-after m j ∙ rw e h, Persists-refl t)
  | inl e ↦
      let own : m.row.id ≡ task_id = find_task-id task_id db.tasks m.row m.found in
      let at : task_id ≡ j = ground arith in
      let found : find_task j db.tasks ≡ some m.row =
        subst (λ k. find_task k db.tasks ≡ some m.row) at m.found in
      let same : m.row ≡ t = cc (found, h) in
      (
        apply_sets o to db.clock m.row,
        find_task-after m j ∙ rw e refl,
        subst (λ r. Persists r (apply_sets o to db.clock m.row)) same (hop-Persists m (unforced f)),
      )
]
Write-Kept {db} j t h (columns id p f k) = elim (find_task-columns db id j p f k t h) [
  | inl e ↦ (t, e, Persists-refl t)
  | inr e ↦ (
    f t,
    e,
    record {
      id = k.id t;
      workstream = k.workstream t;
      depends_on = k.depends_on t;
      terminal = λ _. k.status t;
    },
  )
]
Write-Kept j t h (append e r) = (t, h, Persists-refl t)
Write-Kept {db} j t h (create u fresh s w) =
    (t, rw (find_task-append j db.tasks u) (rw h refl), Persists-refl t)
Write-Kept j t h (tick n) = (t, h, Persists-refl t)
Write-Kept j t h (judge rows) = (t, h, Persists-refl t)

-- Whatever the queue does unforced, a task stays in the table with its workstream and its
-- prerequisites, and a task that is merged or abandoned stays so.
pub Writes-Kept :
    {db db' : Db} (j : ℕ) (t : Task)
    → find_task j db.tasks ≡ some t
    → Writes false db db'
    → Kept j t db'
Writes-Kept j t h done = (t, h, Persists-refl t)
Writes-Kept j t h (also w last) =
    let (u, found, p) = Writes-Kept j t h w in
    let (v, found', q) = Write-Kept j u found last in (v, found', Persists-trans p q)
