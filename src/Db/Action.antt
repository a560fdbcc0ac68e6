-- ===== src/Db/Action.antt =====
-- Database code that returns a value or raises: the state comes back on both ways out, and
-- `transaction` (psycopg's `conn.transaction()`) rolls it back where the block raises.
use ai_studio.Prelude.{
  ℕ, String, true, false, Option, [], ◌∷◌, ◌++◌, ◌≡◌, Result, ok, err, str_eq, if◌then◌else◌, ap,
  refl,
}
use ai_studio.TaskState.{TransitionError}
use ai_studio.Db.{Db, Event, EventBody}

-- The exceptions that the modelled code raises.
pub data Error : Type 0 where
  illegal_transition : TransitionError → Error
  dependency_cycle : ℕ → Error
  value_error : String → Error
  -- An INSERT meets a primary key that is there.
  unique_violation : Error
  -- Postgres refuses an UPDATE that assigns one column twice.
  duplicate_column : Error

abbrev pub Outcome {ℓ} : Type ℓ → Type ℓ
Outcome A = Result Error A

abbrev pub Action {ℓ} : Type ℓ → Type ℓ
Action A = Db → Outcome A × Db

abbrev pub pure {ℓ} : {A : Type ℓ} → A → Action A
pure a db = (ok a, db)

abbrev pub throw {ℓ} : {A : Type ℓ} → Error → Action A
throw e db = (err e, db)

abbrev pub continue {ℓ κ} : {A : Type ℓ} {B : Type κ} → Outcome A → (A → Action B) → Action B
continue (ok a) f db = f a db
continue (err e) f db = (err e, db)

infixl 5 ◌>>=◌ ◌>>◌
abbrev pub ◌>>=◌ {ℓ κ} : {A : Type ℓ} {B : Type κ} → Action A → (A → Action B) → Action B
◌>>=◌ m f db = let (r, db') = m db in continue r f db'

abbrev pub ◌>>◌ {ℓ} : {B : Type ℓ} → Action (Unit {0}) → Action B → Action B
m >> k = m >>= λ _. k

abbrev pub rollback {ℓ} : {A : Type ℓ} → Db → Outcome A × Db → Outcome A × Db
rollback db (ok a, db') = (ok a, db')
rollback db (err e, db') = (err e, db)

abbrev pub transaction {ℓ} : {A : Type ℓ} → Action A → Action A
transaction m db = rollback db (m db)

-- `make_event`, stamped by the table.
abbrev pub new_event : Db → Option ℕ → String → EventBody → Event
new_event db task_id workstream body = record {
  ts = db.clock;
  task_id = task_id;
  workstream = workstream;
  body = body;
}

abbrev pub log : Event → Db → Db
log e db = record db { events = db.events ++ e ∷ [] }

-- `append_event(conn, make_event(...))`: an event has a workstream.
unfoldable pub append_event : Option ℕ → String → EventBody → Action (Unit {0})
append_event task_id workstream body db =
    if str_eq workstream ""
    then (err (value_error "event workstream must be non-empty"), db)
    else (ok tt, log (new_event db task_id workstream body) db)

pub append_event_named :
    (task_id : Option ℕ) (workstream : String) (body : EventBody) (db : Db)
    → str_eq workstream "" ≡ false
    → append_event task_id workstream body db
      ≡ (ok tt, log (new_event db task_id workstream body) db)
unfolding append_event
append_event_named task_id workstream body db h = rw h

pub append_event_unnamed :
    (task_id : Option ℕ) (workstream : String) (body : EventBody) (db : Db)
    → str_eq workstream "" ≡ true
    → append_event task_id workstream body db
      ≡ (err (value_error "event workstream must be non-empty"), db)
unfolding append_event
append_event_unnamed task_id workstream body db h = rw h

-- A transaction that returns has committed what its block left.
pub rollback-eq-ok {ℓ} :
    {A : Type ℓ} (db : Db) (r : Outcome A × Db) (a : A) (db' : Db)
    → rollback db r ≡ (ok a, db')
    → (r.0 ≡ ok a) × (r.1 ≡ db')
rollback-eq-ok db (ok x, mid) a db' h = (ap (λ r. r.0) h, ap (λ r. r.1) h)
rollback-eq-ok db (err e, mid) a db' h = let bad : err e ≡ ok a = ap (λ r. r.0) h in cc

-- A step of a chain that returns: the first part returned, and the second ran from its state.
pub >>=-eq-ok {ℓ κ} :
    {A : Type ℓ} {B : Type κ} (m : Action A) (f : A → Action B) (db : Db) (b : B) (db' : Db)
    → (m >>= f) db ≡ (ok b, db')
    → (a : A) × (mid : Db) × (m db ≡ (ok a, mid)) × (f a mid ≡ (ok b, db'))
>>=-eq-ok {A = A} {B = B} m f db b db' h = go (m db) refl h
  where
    go :
        (r : Outcome A × Db)
        → m db ≡ r
        → continue r.0 f r.1 ≡ (ok b, db')
        → (a : A) × (mid : Db) × (m db ≡ (ok a, mid)) × (f a mid ≡ (ok b, db'))
    go (ok a, mid) e k = (a, mid, e, k)
    go (err x, mid) e k = let bad : err x ≡ ok b = ap (λ r. r.0) k in cc
