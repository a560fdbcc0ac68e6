-- ===== src/Tasks/Writes.antt =====
-- The writes that the operations of the queue are made of, and the rule by which every action
-- built from them is a sequence of writes.
pub mod Operations
pub mod Kept
pub mod History
pub mod Reports
pub mod Unique
pub mod Named
pub mod Distinct
use ai_studio.Prelude.{
  ℕ, ◌+◌, String, Bool, true, false, Option, none, some, List, [], ◌∷◌, ◌++◌, ◌≡◌, ◌≢◌, ◌⊎◌, inl,
  inr, refl, arith, if◌then◌else◌, ok, err, str_eq, Result, Bool-cases,
}
use ai_studio.TaskState.{Status, up_for_grabs, allowed}
use ai_studio.Db.{Db, Task, IdentityTrust, Event, EventBody, task_transition}
use ai_studio.Db.Action.{
  Action, Outcome, Error, pure, throw, ◌>>=◌, continue, transaction, rollback, append_event,
  append_event_named, append_event_unnamed, new_event, log,
}
use ai_studio.Tasks.Rows.{find_task, update_task}
use ai_studio.Tasks.Transition.{Options, transition}
use ai_studio.Tasks.Finish.{update_returning}
use ai_studio.Tasks.Transition.Laws.{Moved, Refuses, after, transition-cases}

-- An update of columns that leaves alone what identifies a task and its place in the lifecycle.
pub record IsMinor (f : Task → Task) : Type 0 where
  pub id : (t : Task) → (f t).id ≡ t.id
  pub status : (t : Task) → (f t).status ≡ t.status
  pub workstream : (t : Task) → (f t).workstream ≡ t.workstream
  pub depends_on : (t : Task) → (f t).depends_on ≡ t.depends_on

-- The events that report a change of status are written with it, and by nothing else.
unfoldable pub reports_hop : EventBody → Bool
reports_hop (task_transition s a b i k l) = true
reports_hop _ = false

-- One write. `forcible` says whether a hop may be forced past the state machine.
pub data Write (forcible : Bool) (db : Db) : Db → Type 0 where
  hop :
      {task_id : ℕ} {to : Status} {o : Options} (m : Moved task_id to o db)
      → (forcible ≡ true) ⊎ (o.force ≡ false)
      → Write forcible db (after db m.row to o)
  columns :
      (id : ℕ) (p : Task → Bool) (f : Task → Task)
      → IsMinor f
      → Write forcible db (record db { tasks = update_task id p f db.tasks })
  append : (e : Event) → reports_hop e.body ≡ false → Write forcible db (log e db)
  create :
      (t : Task)
      → find_task t.id db.tasks ≡ none
      → t.status ≡ up_for_grabs
      → str_eq t.workstream "" ≡ false
      → Write forcible db (record db { tasks = db.tasks ++ t ∷ [] })
  tick : (n : ℕ) → Write forcible db (record db { clock = db.clock + n })
  judge : (rows : List IdentityTrust) → Write forcible db (record db { trust = rows })

pub data Writes (forcible : Bool) (db : Db) : Db → Type 0 where
  done : Writes forcible db db
  also : {mid db' : Db} → Writes forcible db mid → Write forcible mid db' → Writes forcible db db'

pub Writes-trans :
    {forcible : Bool} {a b c : Db} → Writes forcible a b → Writes forcible b c → Writes forcible a c
Writes-trans w done = w
Writes-trans w (also v last) = also (Writes-trans w v) last

weaken-Write : {forcible : Bool} {db db' : Db} → Write false db db' → Write forcible db db'
weaken-Write (hop m (inl e)) = cc
weaken-Write (hop m (inr e)) = hop m (inr e)
weaken-Write (columns id p f k) = columns id p f k
weaken-Write (append e r) = append e r
weaken-Write (create t fresh s w) = create t fresh s w
weaken-Write (tick n) = tick n
weaken-Write (judge rows) = judge rows

-- What is done without force may be done where force is allowed.
pub weaken : {forcible : Bool} {db db' : Db} → Writes false db db' → Writes forcible db db'
weaken done = done
weaken (also w last) = also (weaken w) (weaken-Write last)

-- `m` is a sequence of writes, whether it returns or raises.
pub record IsWriter {ℓ} {A : Type ℓ} (forcible : Bool) (m : Action A) : Type ℓ where
  pub writes : (db : Db) → Writes forcible db (m db).1

module _ {forcible : Bool} where
  pub IsWriter-pure {ℓ} : {A : Type ℓ} (a : A) → IsWriter forcible (pure a)
  IsWriter-pure a = record { writes = λ db. done }

  pub IsWriter-throw {ℓ} : {A : Type ℓ} (e : Error) → IsWriter forcible (throw {A = A} e)
  IsWriter-throw e = record { writes = λ db. done }

  continue-Writes {ℓ κ} :
      {A : Type ℓ} {B : Type κ} (r : Outcome A) (f : A → Action B) (db : Db)
      → ((a : A) → IsWriter forcible (f a))
      → Writes forcible db (continue r f db).1
  continue-Writes (ok a) f db k = (k a).writes db
  continue-Writes (err e) f db k = done

  pub IsWriter-bind {ℓ κ} :
      {A : Type ℓ} {B : Type κ} (m : Action A) (f : A → Action B)
      → IsWriter forcible m
      → ((a : A) → IsWriter forcible (f a))
      → IsWriter forcible (m >>= f)
  IsWriter-bind m f w k = record {
    writes = λ db. Writes-trans (w.writes db) (continue-Writes (m db).0 f (m db).1 k);
  }

  pub IsWriter-reader {ℓ} :
      {A : Type ℓ} (m : Db → Action A)
      → ((db : Db) → IsWriter forcible (m db))
      → IsWriter forcible (λ db. m db db)
  IsWriter-reader m k = record { writes = λ db. (k db).writes db }

  pub rollback-Writes {ℓ} :
      {A : Type ℓ} (db : Db) (r : Outcome A × Db)
      → Writes forcible db r.1
      → Writes forcible db (rollback db r).1
  rollback-Writes db (ok a, db') w = w
  rollback-Writes db (err e, db') w = done

  pub IsWriter-transaction {ℓ} :
      {A : Type ℓ} (m : Action A) → IsWriter forcible m → IsWriter forcible (transaction m)
  IsWriter-transaction m w = record { writes = λ db. rollback-Writes db (m db) (w.writes db) }

  pub IsWriter-if {ℓ} :
      {A : Type ℓ} (b : Bool) (m n : Action A)
      → IsWriter forcible m
      → IsWriter forcible n
      → IsWriter forcible (if b then m else n)
  IsWriter-if true m n w v = w
  IsWriter-if false m n w v = v

  pub IsWriter-append_event :
      (task_id : Option ℕ) (workstream : String) (body : EventBody)
      → reports_hop body ≡ false
      → IsWriter forcible (append_event task_id workstream body)
  IsWriter-append_event task_id workstream body h = record {
    writes = λ db. elim (Bool-cases (str_eq workstream "")) [
      | inl e ↦ rw (append_event_unnamed task_id workstream body db e) done
      | inr e ↦
          rw (append_event_named task_id workstream body db e)
            (also done (append (new_event db task_id workstream body) h))
    ];
  }

  pub IsWriter-update_returning :
      (id : ℕ) (p : Task → Bool) (f : Task → Task)
      → IsMinor f
      → IsWriter forcible (update_returning id p f)
  unfolding update_returning
  IsWriter-update_returning id p f k = record { writes = λ db. also done (columns id p f k) }

  pub IsWriter-transition :
      (task_id : ℕ) (to : Status) (o : Options)
      → (forcible ≡ true) ⊎ (o.force ≡ false)
      → IsWriter forcible (transition task_id to o)
  IsWriter-transition task_id to o h = record {
    writes = λ db. elim (transition-cases task_id to o db) [
      | inl m ↦ rw m.result (also done (hop m h))
      | inr r ↦ rw r.unchanged done
    ];
  }
