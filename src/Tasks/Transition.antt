-- ===== src/Tasks/Transition.antt =====
-- `transition` of runtime/tasks.py, the single guarded change of a task's status.
pub mod Laws
pub mod After
use ai_studio.Prelude.{
  ℕ, ◌+◌, ◌-◌, ◌/◌, String, Bool, true, false, Option, none, some, List, [], ◌∷◌, ◌++◌, ◌==◌, ◌&&◌,
  ◌||◌, any, if◌then◌else◌, is_some, or_else, leb, Result, ok, err,
}
use ai_studio.TaskState.{Status, status_eq, wire, TransitionError, assert_transition, is_terminal}
use ai_studio.Db.{Db, Task, Hop, Event, EventBody, task_transition, task_finished, Json}
use ai_studio.Db.Action.{
  Action, Error, illegal_transition, duplicate_column, pure, throw, ◌>>=◌, ◌>>◌, continue,
  transaction, rollback, append_event,
}
use ai_studio.Tasks.Rows.{find_task, update_task}

-- The keyword arguments. `none` in `result` and in `claimed_by` is `_UNSET`; `expected_from` is
-- the collection that `_norm_expected` makes of a status, of several, or of none.
pub record Options : Type 0 where
  pub agent_id : Option String
  pub agent_type : Option String
  pub expected_from : Option (List Status)
  pub result : Option (Option Json)
  pub spent_tokens : Option ℕ
  pub claimed_by : Option (Option String)
  pub clear_claim : Bool
  pub set_claimed_at : Bool
  pub set_heartbeat : Bool
  pub increment_retries : Bool
  pub set_last_progress : Bool
  pub force : Bool

abbrev pub defaults : Options
defaults = record {
  agent_id = none;
  agent_type = none;
  expected_from = none;
  result = none;
  spent_tokens = none;
  claimed_by = none;
  clear_claim = false;
  set_claimed_at = false;
  set_heartbeat = false;
  increment_retries = false;
  set_last_progress = false;
  force = false;
}

-- `expected_from` is absent or holds the current status.
unfoldable pub expected : Option (List Status) → Status → Bool
expected none current = true
expected (some from) current = any (status_eq current) from

abbrev pub given {ℓ} : {A : Type ℓ} → Option A → A → A
given none a = a
given (some b) a = b

-- The columns that the `SET` list assigns, from the row's old values.
unfoldable pub apply_sets : Options → Status → ℕ → Task → Task
apply_sets o to now t = record t {
  status = to;
  updated_at = now;
  result = given o.result t.result;
  spent_tokens = given o.spent_tokens t.spent_tokens;
  claimed_by = if o.clear_claim then none else given o.claimed_by t.claimed_by;
  agent_type = or_else o.agent_type t.agent_type;
  claimed_at = if o.set_claimed_at then some now else t.claimed_at;
  heartbeat_at =
      if o.clear_claim then none else if o.set_heartbeat then some now else t.heartbeat_at;
  retries = if o.increment_retries then t.retries + 1 else t.retries;
  last_progress_at = if o.set_last_progress then some now else t.last_progress_at;
}

-- `clear_claim` assigns `claimed_by` and `heartbeat_at` once more.
unfoldable pub assigns_twice : Options → Bool
assigns_twice o = o.clear_claim && (is_some o.claimed_by || o.set_heartbeat)

-- `max(at)` over the task's rows of `task_transitions`.
unfoldable pub last_hop_at : ℕ → List Hop → Option ℕ
last_hop_at id [] = none
last_hop_at id (h ∷ hs) =
    let rest = last_hop_at id hs in
    if h.task_id == id
    then elim rest [ none ↦ some h.at | some m ↦ some (if leb m h.at then h.at else m) ]
    else rest

-- `(EXTRACT(EPOCH FROM …) * 1000)::bigint`, which rounds to the nearest millisecond.
unfoldable pub latency : Db → Task → ℕ
unfolding last_hop_at
latency db t = (db.clock - given (last_hop_at t.id db.hops) t.created_at + 500) / 1000

-- The row of `task_transitions`; `t` is the updated task.
unfoldable pub hop_of : Db → Task → Status → Status → Options → Hop
unfolding latency
hop_of db t current to o = record {
  task_id = t.id;
  source = current;
  target = to;
  agent_id = o.agent_id;
  agent_type = or_else o.agent_type t.agent_type;
  latency_ms = latency db t;
  at = db.clock;
}

abbrev pub check : Bool → Status → Status → Result TransitionError (Unit {0})
check true current to = ok tt
check false current to = assert_transition (wire current) (wire to)

-- A terminal status has one more event.
unfoldable pub finished : Task → Status → Action (Unit {0})
finished t to =
    if is_terminal (wire to)
    then append_event (some t.id) t.workstream (task_finished to t.spent_tokens)
    else pure tt

-- The statements that write: the guarded UPDATE, the telemetry row and the events.
unfoldable pub write_hop : Task → Status → Options → Action (Option Task)
write_hop row to o db =
    let t = apply_sets o to db.clock row in
    let hop = hop_of db t row.status to o in
    let db' = record db {
      tasks =
          update_task row.id (λ x. status_eq x.status row.status) (apply_sets o to db.clock)
            db.tasks;
      hops = db.hops ++ hop ∷ [];
    } in
    (do
      append_event (some t.id) t.workstream
          (task_transition to row.status to o.agent_id hop.agent_type hop.latency_ms)
      finished t to
      pure (some t))
      db'

abbrev pub checked :
    Result TransitionError (Unit {0}) → Task → Status → Options → Action (Option Task)
checked (err e) row to o = throw (illegal_transition e)
checked (ok _) row to o = if assigns_twice o then throw duplicate_column else write_hop row to o

-- The guards on the locked row, in the order of the source.
unfoldable pub transition_row : Task → Status → Options → Action (Option Task)
transition_row row to o =
    if expected o.expected_from row.status
    then if status_eq row.status to
      then pure none
      else checked (check o.force row.status to) row to o
    else pure none

abbrev pub locked : Option Task → Status → Options → Action (Option Task)
locked none to o = pure none
locked (some row) to o = transition_row row to o

unfoldable pub transition : ℕ → Status → Options → Action (Option Task)
transition task_id to o = transaction (λ db. locked (find_task task_id db.tasks) to o db)
