-- ===== src/Tasks/Writes/Distinct.antt =====
-- The primary key as a fact about the table: no two rows have one id. Sorting and filtering keep it.
use ai_studio.Prelude.{
  ℕ, Bool, false, none, some, List, [], ◌∷◌, ◌++◌, ◌≡◌, inl, inr, refl, arith, In, ◌==◌, ◌&&◌,
  Bool-cases, ◌∙◌, keep, insert_by, sort_by,
}
use ai_studio.TaskState.{status_eq}
use ai_studio.Db.{Db, Task}
use ai_studio.Tasks.Rows.{find_task, update_task, find_task-update_task, find_task-append}
use ai_studio.Tasks.Transition.{apply_sets}
use ai_studio.Tasks.Transition.Laws.{apply_sets-keeps}
use ai_studio.Tasks.Writes.{Write, Writes, hop, columns, append, create, tick, judge, done, also}
use ai_studio.Tasks.Writes.History.{empty}

abbrev pub Distinct : List Task → Type 0
Distinct [] = Unit {0}
Distinct (t ∷ ts) = (find_task t.id ts ≡ none) × Distinct ts

find_task_skip :
    (j : ℕ) (x : Task) (ts : List Task)
    → find_task j (x ∷ ts) ≡ none
    → ((x.id == j) ≡ false) × (find_task j ts ≡ none)
unfolding find_task
find_task_skip j x ts h = elim (Bool-cases (x.id == j)) [
  | inl e ↦ let bad : some x ≡ none = rw e at h in cc
  | inr e ↦ (e, rw e at h)
]

-- An id that finds nothing is the id of no row.
pub find_task-none :
    (j : ℕ) (ts : List Task) (t : Task) → find_task j ts ≡ none → In t ts → (j == t.id) ≡ false
find_task-none j [] t h m = absurd m
find_task-none j (x ∷ ts) t h (inl e) = let n = (find_task_skip j x ts h).0 in rw e (ground arith)
find_task-none j (x ∷ ts) t h (inr m) = find_task-none j ts t (find_task_skip j x ts h).1 m

pub none-find_task :
    (j : ℕ) (ts : List Task) → ((t : Task) → In t ts → (j == t.id) ≡ false) → find_task j ts ≡ none
unfolding find_task
none-find_task j [] h = refl
none-find_task j (x ∷ ts) h =
    let n = h x (inl refl) in
    let e : (x.id == j) ≡ false = ground arith in rw e (none-find_task j ts (λ t m. h t (inr m)))

module _ (id : ℕ) (p : Task → Bool) (f : Task → Task) (same : (t : Task) → (f t).id ≡ t.id) where
  update_task-none :
      (j : ℕ) (ts : List Task) → find_task j ts ≡ none → find_task j (update_task id p f ts) ≡ none
  update_task-none j ts h = elim (Bool-cases (id == j)) [
    | inl e ↦ find_task-update_task id j p f ts same ∙ rw (e, h) refl
    | inr e ↦ find_task-update_task id j p f ts same ∙ rw (e, h) refl
  ]

  Distinct-update_task : (ts : List Task) → Distinct ts → Distinct (update_task id p f ts)
  unfolding update_task
  Distinct-update_task [] d = tt
  Distinct-update_task (x ∷ ts) d = elim (Bool-cases (x.id == id && p x)) [
    | inl e ↦ (rw e (rw (same x) (update_task-none x.id ts d.0)), Distinct-update_task ts d.1)
    | inr e ↦ (rw e (update_task-none x.id ts d.0), Distinct-update_task ts d.1)
  ]

Distinct-append :
    (ts : List Task) (t : Task) → find_task t.id ts ≡ none → Distinct ts → Distinct (ts ++ t ∷ [])
unfolding find_task
Distinct-append [] t h d = (refl, tt)
Distinct-append (x ∷ ts) t h d =
    let (n, rest) = find_task_skip t.id x ts h in
    let n' : (t.id == x.id) ≡ false = ground arith in
    (find_task-append x.id ts t ∙ rw (d.0, n') refl, Distinct-append ts t rest d.1)

Write-Distinct :
    {forcible : Bool} {db db' : Db} → Distinct db.tasks → Write forcible db db' → Distinct db'.tasks
Write-Distinct {db = db} d (hop {to = to} {o = o} m f) =
    Distinct-update_task m.row.id (λ x. status_eq x.status m.row.status) (apply_sets o to db.clock)
      (λ t. (apply_sets-keeps o to db.clock t).id) db.tasks d
Write-Distinct {db = db} d (columns id p f k) = Distinct-update_task id p f k.id db.tasks d
Write-Distinct d (append e q) = d
Write-Distinct {db = db} d (create t fresh s w) = Distinct-append db.tasks t fresh d
Write-Distinct d (tick n) = d
Write-Distinct d (judge rows) = d

pub Writes-Distinct :
    {forcible : Bool} {db db' : Db}
    → Distinct db.tasks
    → Writes forcible db db'
    → Distinct db'.tasks
Writes-Distinct d done = d
Writes-Distinct d (also w last) = Write-Distinct (Writes-Distinct d w) last

pub empty-Distinct : (now : ℕ) → Distinct (empty now).tasks
unfolding empty
empty-Distinct now = tt

keep-none :
    (j : ℕ) (p : Task → Bool) (ts : List Task)
    → find_task j ts ≡ none
    → find_task j (keep p ts) ≡ none
unfolding find_task
keep-none j p [] h = refl
keep-none j p (x ∷ ts) h =
    let (n, rest) = find_task_skip j x ts h in
    elim (Bool-cases (p x)) [
      | inl e ↦ rw (e, n) (keep-none j p ts rest)
      | inr e ↦ rw e (keep-none j p ts rest)
    ]

pub Distinct-keep : (p : Task → Bool) (ts : List Task) → Distinct ts → Distinct (keep p ts)
Distinct-keep p [] d = tt
Distinct-keep p (x ∷ ts) d = elim (Bool-cases (p x)) [
  | inl e ↦ rw e (keep-none x.id p ts d.0, Distinct-keep p ts d.1)
  | inr e ↦ rw e (Distinct-keep p ts d.1)
]

module _ (lt : Task → Task → Bool) where
  insert_by-none :
      (j : ℕ) (x : Task) (ts : List Task)
      → (x.id == j) ≡ false
      → find_task j ts ≡ none
      → find_task j (insert_by lt x ts) ≡ none
  unfolding find_task insert_by
  insert_by-none j x [] n h = rw n refl
  insert_by-none j x (y ∷ ys) n h =
      let (m, rest) = find_task_skip j y ys h in
      elim (Bool-cases (lt y x)) [
        | inl e ↦ rw (e, m) (insert_by-none j x ys n rest)
        | inr e ↦ rw (e, n, m) rest
      ]

  Distinct-insert_by :
      (x : Task) (ts : List Task)
      → find_task x.id ts ≡ none
      → Distinct ts
      → Distinct (insert_by lt x ts)
  unfolding insert_by find_task
  Distinct-insert_by x [] h d = (refl, tt)
  Distinct-insert_by x (y ∷ ys) h d =
      let (m, rest) = find_task_skip x.id y ys h in
      let m' : (x.id == y.id) ≡ false = ground arith in
      elim (Bool-cases (lt y x)) [
        | inl e ↦ rw e (insert_by-none y.id x ys m' d.0, Distinct-insert_by x ys rest d.1)
        | inr e ↦ rw e (h, d)
      ]

  sort_by-none :
      (j : ℕ) (ts : List Task) → find_task j ts ≡ none → find_task j (sort_by lt ts) ≡ none
  unfolding sort_by
  sort_by-none j [] h = h
  sort_by-none j (x ∷ ts) h =
      let (n, rest) = find_task_skip j x ts h in
      insert_by-none j x (sort_by lt ts) n (sort_by-none j ts rest)

  pub Distinct-sort_by : (ts : List Task) → Distinct ts → Distinct (sort_by lt ts)
  unfolding sort_by
  Distinct-sort_by [] d = tt
  Distinct-sort_by (x ∷ ts) d =
      Distinct-insert_by x (sort_by lt ts) (sort_by-none x.id ts d.0) (Distinct-sort_by ts d.1)
