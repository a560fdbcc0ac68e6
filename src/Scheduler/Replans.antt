-- ===== src/Scheduler/Replans.antt =====
-- What the scheduler adds to the queue.
use ai_studio.Prelude.{
  ℕ, ◌+◌, ◌≤◌, String, Bool, true, false, Option, none, some, List, [], ◌∷◌, ◌++◌, ◌==◌, str_eq,
  any, count, is_some, if◌then◌else◌, ◌≡◌, inl, inr, refl, ap, ◌∙◌, arith, Bool-cases, ok, err,
  eq_iff, ==_iff,
}
use ai_studio.TaskState.{status_eq}
use ai_studio.Db.{Db, Task}
use ai_studio.Db.Action.{Outcome, append_event, continue, pure}
use ai_studio.Traffic.{Env, tag_payload}
use ai_studio.Tasks.Rows.{find_task}
use ai_studio.Tasks.Enqueue.{NewTask, new_row, enqueue_task}
use ai_studio.Scheduler.{
  Documents, plain, is_live_tick, pm_tick_pending, tick_once, Stuck, is_replan_of, has_replan,
  dispatch_for,
}

-- One row more, or an exception and nothing changed.
abbrev Appends : Db → Task → Outcome Task × Db → Type 0
Appends db t (ok u, db') = (u ≡ t) × (db'.tasks ≡ db.tasks ++ t ∷ [])
Appends db t (err e, db') = db' ≡ db

enqueue_task-Appends :
    (env : Env) (n : NewTask) (db : Db)
    → Appends db (new_row env db.clock n) (enqueue_task env n db)
unfolding enqueue_task append_event
enqueue_task-Appends env n db =
    let t = new_row env db.clock n in
    elim (Bool-cases (is_some (find_task t.id db.tasks))) [
      | inl e ↦ rw e refl
      | inr e ↦ elim (Bool-cases (any (λ d. d == t.id) t.depends_on)) [
        | inl c ↦ rw (e, c) refl
        | inr c ↦ elim (Bool-cases (str_eq t.workstream "")) [
          | inl w ↦ rw (e, c, w) refl
          | inr w ↦ rw (e, c, w) (refl, refl)
        ]
      ]
    ]

count-append_one :
    (p : Task → Bool) (ts : List Task) (t : Task)
    → count p (ts ++ t ∷ []) ≡ count p ts + (if p t then 1 else 0)
count-append_one p [] t = elim (Bool-cases (p t)) [ inl e ↦ rw e refl | inr e ↦ rw e refl ]
count-append_one p (x ∷ ts) t = elim (Bool-cases (p x)) [
  | inl e ↦ rw e (let c = count-append_one p ts t in omega (arith, c))
  | inr e ↦ rw e (count-append_one p ts t)
]

count_absent : (p : Task → Bool) (ts : List Task) → any p ts ≡ false → count p ts ≡ 0
count_absent p [] h = refl
count_absent p (x ∷ ts) h =
    let n : p x ≡ false = ground arith in rw n (count_absent p ts (ground arith))

count_present : (p : Task → Bool) (ts : List Task) → any p ts ≡ true → 1 ≤ count p ts
count_present p [] h = absurd (ground arith)
count_present p (x ∷ ts) h = elim (Bool-cases (p x)) [
  | inl e ↦ rw e (omega arith)
  | inr e ↦ rw e (count_present p ts (ground arith))
]

-- What a pulse leaves: one live `pm.tick` where there was none, and otherwise nothing new.
abbrev pub Pulses : String → Db → Outcome (Option Task) × Db → Type 0
Pulses w db (ok none, db') = (db' ≡ db) × (1 ≤ count (is_live_tick w) db.tasks)
Pulses w db (ok (some t), db') =
    (count (is_live_tick w) db.tasks ≡ 0)
    × (count (is_live_tick w) db'.tasks ≡ 1)
    × (is_live_tick w t ≡ true)
Pulses w db (err e, db') = db' ≡ db

is_live_tick-new_row :
    (env : Env) (docs : Documents) (id : ℕ) (w : String) (now : ℕ)
    → is_live_tick w (new_row env now (plain id w "pm.tick" docs.pulse)) ≡ true
unfolding new_row status_eq
is_live_tick-new_row env docs id w now = rw ((eq_iff w w).1 refl) refl

Appends-Pulses :
    (w : String) (db : Db) (n : Task) (r : Outcome Task × Db)
    → Appends db n r
    → is_live_tick w n ≡ true
    → count (is_live_tick w) db.tasks ≡ 0
    → Pulses w db (continue r.0 (λ t. pure (some t)) r.1)
Appends-Pulses w db n (ok t, db') (same, added) live z = (
  z,
  ap (λ ts. count (is_live_tick w) ts) added
      ∙ count-append_one (is_live_tick w) db.tasks n
      ∙ rw (z, live) refl,
  ap (λ u. is_live_tick w u) same ∙ live,
)
Appends-Pulses w db n (err e, db') same live z = same

-- A pulse enqueues a `pm.tick` for the workstream exactly where none is live there, and then one is;
-- where one is live, and where it raises, no table changes.
pub tick_once-Pulses :
    (env : Env) (docs : Documents) (id : ℕ) (w : String) (db : Db)
    → Pulses w db (tick_once env docs id w db)
unfolding tick_once pm_tick_pending
tick_once-Pulses env docs id w db = elim (Bool-cases (any (is_live_tick w) db.tasks)) [
  | inl e ↦ rw e (refl, count_present (is_live_tick w) db.tasks e)
  | inr e ↦
      let n = plain id w "pm.tick" docs.pulse in
      rw e (
        Appends-Pulses w db (new_row env db.clock n) (enqueue_task env n db)
          (enqueue_task-Appends env n db) (is_live_tick-new_row env docs id w db.clock)
          (count_absent (is_live_tick w) db.tasks e))
]

-- The document of a replan gives back the id that it was made for.
abbrev pub Reads : Env → Documents → Option ℕ → Type 0
Reads env docs o =
    (i : ℕ) → o ≡ some i → docs.stuck_task_id (tag_payload env (docs.replan i)) ≡ some i

module _ (env : Env) (docs : Documents) where
  is_replan_of-new_row :
      (id j now fresh : ℕ) (w : String)
      → Reads env docs (some j)
      → is_replan_of docs id (new_row env now (plain fresh w "replan" (docs.replan j))) ≡ (j == id)
  unfolding new_row
  is_replan_of-new_row id j now fresh w reads = rw (reads j refl) refl

  -- What one pass of the loop does for an id.
  abbrev pub Passes : ℕ → Option ℕ → Db → Outcome (List ℕ) × Db → Type 0
  Passes id o db (r, db') =
      (count (is_replan_of docs id) db.tasks ≤ 1 → count (is_replan_of docs id) db'.tasks ≤ 1)
      × (1 ≤ count (is_replan_of docs id) db.tasks → 1 ≤ count (is_replan_of docs id) db'.tasks)
      × ((ids : List ℕ) → r ≡ ok ids → o ≡ some id → 1 ≤ count (is_replan_of docs id) db'.tasks)

  Appends-Passes :
      (id j : ℕ) (db : Db) (n : Task) (r : Outcome Task × Db)
      → Appends db n r
      → is_replan_of docs id n ≡ (j == id)
      → count (is_replan_of docs j) db.tasks ≡ 0
      → Passes id (some j) db (continue r.0 (λ t. pure (t.id ∷ [])) r.1)
  Appends-Passes id j db n (err e, db') same p z = (λ h. rw same h, λ h. rw same h, λ ids h. cc)
  Appends-Passes id j db n (ok t, db') (same, added) p z =
      let c : count (is_replan_of docs id) db'.tasks
          ≡ count (is_replan_of docs id) db.tasks + (if j == id then 1 else 0) =
        ap (λ ts. count (is_replan_of docs id) ts) added
        ∙ count-append_one (is_replan_of docs id) db.tasks n
        ∙ rw p refl in
      elim (Bool-cases (j == id)) [
        | inr f ↦
            let c' : count (is_replan_of docs id) db'.tasks
                ≡ count (is_replan_of docs id) db.tasks + 0 =
              rw f at c in
            (λ h. omega (arith, c', h), λ h. omega (arith, c', h), λ ids h e. absurd (ground arith))
        | inl f ↦
            let c' : count (is_replan_of docs id) db'.tasks
                ≡ count (is_replan_of docs id) db.tasks + 1 =
              rw f at c in
            let i : j ≡ id = (==_iff j id).0 f in
            let z' : count (is_replan_of docs id) db.tasks ≡ 0 = rw (← i) z in
            (λ h. omega (arith, c', z'), λ h. omega (arith, c'), λ ids h e. omega (arith, c'))
      ]

  pub dispatch_for-Passes :
      (id : ℕ) (e : Stuck) (o : Option ℕ) (db : Db)
      → Reads env docs o
      → Passes id o db (dispatch_for env docs e o db)
  unfolding has_replan
  dispatch_for-Passes id e none db reads = (λ h. h, λ h. h, λ ids h f. cc)
  dispatch_for-Passes id e (some j) db reads =
      elim (Bool-cases (any (is_replan_of docs j) db.tasks)) [
        | inl f ↦ rw f (λ h. h, λ h. h, λ ids h g. there j id f g)
        | inr f ↦
            let n = plain e.fresh e.workstream "replan" (docs.replan j) in
            rw f (
              Appends-Passes id j db (new_row env db.clock n) (enqueue_task env n db)
                (enqueue_task-Appends env n db)
                (is_replan_of-new_row id j db.clock e.fresh e.workstream reads)
                (count_absent (is_replan_of docs j) db.tasks f))
      ]
    where
      there :
          (j id : ℕ)
          → any (is_replan_of docs j) db.tasks ≡ true
          → some j ≡ some id
          → 1 ≤ count (is_replan_of docs id) db.tasks
      there j id f g =
          let i : j ≡ id = ground arith in rw (← i) (count_present (is_replan_of docs j) db.tasks f)
