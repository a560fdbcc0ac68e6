-- ===== src/Scheduler/Dispatched.antt =====
-- What the loop of `dispatch_replans` does for the events that it read.
use ai_studio.Prelude.{
  ℕ, ◌≤◌, some, List, [], ◌∷◌, ◌++◌, count, ◌≡◌, refl, arith, ok, err, All, subst,
}
use ai_studio.Db.{Db}
use ai_studio.Db.Action.{Outcome, continue, pure}
use ai_studio.Traffic.{Env}
use ai_studio.Scheduler.{Documents, Stuck, is_replan_of, dispatch_for, dispatch_replans, later}
use ai_studio.Scheduler.Replans.{Reads, dispatch_for-Passes}

-- How many replans of an id are stored.
abbrev pub replans : Documents → ℕ → Db → ℕ
replans docs id db = count (is_replan_of docs id) db.tasks

-- The event stands behind the cursor, and its task has a replan.
abbrev pub Consumed : Documents → ℕ → Db → Stuck → Type 0
Consumed docs end db e = (e.seq ≤ end) × ((id : ℕ) → e.task_id ≡ some id → 1 ≤ replans docs id db)

abbrev pub Dispatched : Documents → ℕ → List Stuck → Db → Outcome (ℕ × List ℕ) × Db → Type 0
Dispatched docs since es db (r, db') =
    ((id : ℕ) → replans docs id db ≤ 1 → replans docs id db' ≤ 1)
    × ((id : ℕ) → 1 ≤ replans docs id db → 1 ≤ replans docs id db')
    × ((end : ℕ) (ids : List ℕ)
        → r ≡ ok (end, ids)
        → (since ≤ end) × All (Consumed docs end db') es)

later_left : (a b c : ℕ) → later a b ≤ c → a ≤ c
later_left a b c h = ground arith

later_right : (a b c : ℕ) → later a b ≤ c → b ≤ c
later_right a b c h = ground arith

module _ (docs : Documents) (since : ℕ) (e : Stuck) (es : List Stuck) (db : Db) where
  returns :
      (ids : List ℕ) (db1 : Db) (r : Outcome (ℕ × List ℕ) × Db)
      → ((id : ℕ) → replans docs id db ≤ 1 → replans docs id db1 ≤ 1)
      → ((id : ℕ) → 1 ≤ replans docs id db → 1 ≤ replans docs id db1)
      → ((id : ℕ) → e.task_id ≡ some id → 1 ≤ replans docs id db1)
      → Dispatched docs (later since e.seq) es db1 r
      → Dispatched docs since
          (e ∷ es)
          db
          (continue r.0 (λ (end, more). pure (end, ids ++ more)) r.1)
  returns ids db1 (err x, db') once kept here (p, q, s) =
      (λ id h. p id (once id h), λ id h. q id (kept id h), λ end more h. cc)
  returns ids db1 (ok (end, more), db') once kept here (p, q, s) = (
    λ id h. p id (once id h),
    λ id h. q id (kept id h),
    λ end' ids' h.
        let same : end ≡ end' = ground arith in
        let (c, rest) = s end more refl in
        subst (λ z. (since ≤ z) × All (Consumed docs z db') (e ∷ es)) same
          (
            later_left since e.seq end c,
            ((later_right since e.seq end c, λ id f. q id (here id f)), rest),
          ),
  )

  goes_on :
      (r : Outcome (List ℕ) × Db) (f : List ℕ → Db → Outcome (ℕ × List ℕ) × Db)
      → ((id : ℕ) → replans docs id db ≤ 1 → replans docs id r.1 ≤ 1)
      → ((id : ℕ) → 1 ≤ replans docs id db → 1 ≤ replans docs id r.1)
      → ((id : ℕ) (ids : List ℕ) → r.0 ≡ ok ids → e.task_id ≡ some id → 1 ≤ replans docs id r.1)
      → ((ids : List ℕ) (db1 : Db) → Dispatched docs (later since e.seq) es db1 (f ids db1))
      → Dispatched docs since (e ∷ es) db (
          continue r.0
            (λ ids db1.
              continue (f ids db1).0 (λ (end, more). pure (end, ids ++ more)) (f ids db1).1)
            r.1)
  goes_on (err x, db1) f once kept here rest = (once, kept, λ end ids h. cc)
  goes_on (ok ids, db1) f once kept here rest =
      returns ids db1 (f ids db1) once kept (λ id g. here id ids refl g) (rest ids db1)

-- Where the documents of the replans give back the ids that they are made for: no pass over the events, in
-- any order and with any repeats, makes a second replan of a task, even where it raises; and one that
-- returns has moved the cursor back from neither its start nor any event, and every event's task has
-- a replan. So re-reading events that a pass has seen is harmless.
pub dispatch_replans-Dispatched :
    (env : Env) (docs : Documents) (since : ℕ) (es : List Stuck) (db : Db)
    → All (λ (e : Stuck). Reads env docs e.task_id) es
    → Dispatched docs since es db (dispatch_replans env docs since es db)
unfolding dispatch_replans
dispatch_replans-Dispatched env docs since [] db reads = (
  λ id h. h,
  λ id h. h,
  λ end ids h. let same : since ≡ end = ground arith in (rw same (omega arith), tt),
)
dispatch_replans-Dispatched env docs since (e ∷ es) db reads =
    let pass = λ (id : ℕ). dispatch_for-Passes env docs id e e.task_id db reads.0 in
    goes_on docs since e es db (dispatch_for env docs e e.task_id db)
      (λ ids. dispatch_replans env docs (later since e.seq) es) (λ id h. (pass id).0 h)
      (λ id h. (pass id).1 h) (λ id ids h g. (pass id).2 ids h g)
      (λ ids db1. dispatch_replans-Dispatched env docs (later since e.seq) es db1 reads.1)
