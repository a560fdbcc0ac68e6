-- ===== src/Lib.antt =====
-- A verification library for the runtime: the task queue with its lifecycle and its supervisor, the
-- gates through which agents run tools, spend money, ask and tell the human, and the gate through
-- which remote clients reach the queue.
--
-- The parts and where they stand.
--
--   TaskState         runtime/task_state.py and the statuses of runtime/models.py. `transitions` is
--                     TRANSITIONS; `assert_transition` and `can_transition` read wire strings, as the
--                     source does; `allowed` is the test on members. TaskState/Lifecycle has its
--                     theorems. TaskState/Acyclic is `assert_acyclic`, a depth-first search with
--                     three colours; its theorems stand in the files below it.
--   Db                The tables that the queue reads and writes, and the types of their rows.
--                     Db/Action is code that returns a value or raises, with the state on both ways
--                     out; `transaction` is psycopg's and rolls back. Db/Connect is
--                     `connect_with_retry` of runtime/db.py.
--   Traffic           runtime/traffic.py.
--   Tasks             runtime/tasks.py. Rows: SELECT and UPDATE by id. Transition: `transition`, the
--                     one function that moves a status, with its row in task_transitions and its
--                     events. Query and Selection: the structured sort and filter and what they do to
--                     rows. Grab: `grab_task`, `start_task`, `claim_task`. Enqueue, Finish, Recovery:
--                     the other functions that write. Views: the lists that read the queue. Writes
--                     says what every writer does to the tables; Calls is any sequence of calls.
--   Supervisor        runtime/supervisor.py: `rung` is the choice of a rung of the ladder, `climb`
--                     what it does, `sweep` one sweep. Supervisor/Loop is `GraceTracker`,
--                     `supervised_sweep` and `run`, a turn of its loop at a time.
--   Scheduler         runtime/scheduler.py: `tick_once` and `dispatch_replans`.
--   Capabilities      runtime/capabilities.py.
--   Policy            runtime/policy.py: `decide`.
--   Trust             runtime/trust.py: the trust ledger and the claims, whose rows the queue reads.
--                     Trust/Strikes has the books of one identity, Trust/Calls any sequence of calls, and
--                     Trust/Revoked what follows a fabrication.
--   Approvals         runtime/approvals.py: the rows of approvals and what moves them.
--   Budget            runtime/budget.py: the caps, the spend and the zones; Budget/Gate is
--                     `enforce` with its reservation, its events and its approval, and
--                     `release_reservation`; Budget/Amounts and Budget/Room are about the room that
--                     the caps leave; Budget/Flights is any number of calls in flight.
--   Enforce           runtime/enforce.py: `invoke`. Enforce/Gate is about one call, Enforce/Grants and
--                     Enforce/Sessions about sequences of calls.
--   Gateway           gateway/auth.py: Tokens is the credentials and their registry, Limits the
--                     limiter, Gates the composed decision `authorize`.
--   Grounding         runtime/grounding.py: claims and their evidence.
--   Relay             spokesman/grounding_gate.py: Resolve is the six resolvers of evidence, Relay itself
--                     `verify_claim`, `cascade_strike_to_approvers` and `relay_claims`.
--   Router            runtime/model/registry.py and router.py: the choice of a model.
--   Decisions         runtime/decisions.py: questions for the human that park a task.
--   Prelude           Names and lemmas that the parts share. Examples has tests and runs.
--
-- How they interact. The queue moves every status through `transition`, which asks TaskState and
-- appends to the event log in one transaction. `grab_task` reads the trust ledger and the rows of the
-- prerequisites. A sweep of the supervisor and the scheduler call the functions of the queue, and so do the
-- decisions, which park a task and free it. `invoke` asks `decide`, which asks `effective_tier`; a
-- decision that needs approval goes to the rows of Approvals, where a human resolves it and the next
-- call spends it. The relay checks claims and writes its verdicts, its strikes and its requests for
-- proof into the trust ledger, whose states fence the grab.
--
-- How the code is read. A UUID is a number, and so is a moment, in microseconds; `now()` is a clock
-- in the state that a call `wait` moves forward, and one transaction sees one moment. JSON documents
-- are opaque, but for the entry `traffic` of a payload. Amounts of money are in micro-dollars, and
-- what a bucket of the limiter holds in sixty-millionths of a request; both are exact where the source
-- rounds floats. The rows that other transactions have locked (SKIP LOCKED) and the database's order
-- of texts are parameters of a grab. What the fingerprint of an action takes from Python's library (the
-- digest, the JSON text, `sorted`) is the record `Host` of the approvals; no theorem supposes anything
-- about it. The registry of tools is a parameter, what tools change is any type, and a tool reports its
-- failures in its result, as its base class says; one that raises is not modelled. Which texts are
-- blank for the trust ledger is a parameter too. What the relay reads (texts, the answers of the
-- database and the disk) is the record `Host` of Relay, and what the gateway takes from Python is
-- `Lib` of Gateway/Tokens. The events that a pass of the scheduler reads, and its documents, are
-- arguments. What other modules write into the trust ledger between calls of the queue is any
-- list of rows. `make_event` of runtime/models.py refuses an empty workstream, and each part says what
-- comes of that. Calls stand in a sequence: the code runs each of these operations in a transaction,
-- whose guard is part of its UPDATE.
--
-- Fuel. Only `visit` of TaskState/Acyclic has fuel. `assert_acyclic` gives one more than the number of
-- entries of the dictionary; every level of the search colours another node gray, so it is enough.
--
-- Not modelled: a connection that is lost while one task of a sweep is handled, a notifier that fails,
-- log lines and the parsing of the environment; the burn rate and the forecast of the budget; the loop
-- of the scheduler; the worker and its roles, the calls of models and what they cost, the HTTP application
-- of the gateway, the chat service of the spokesman, parsing of configuration files, and
-- the queue's telemetry reads. They rest on these parts or on services.
pub mod Prelude
pub mod TaskState
pub mod Db
pub mod Traffic
pub mod Tasks
pub mod Supervisor
pub mod Scheduler
pub mod Capabilities
pub mod Policy
pub mod Trust
pub mod Approvals
pub mod Budget
pub mod Enforce
pub mod Gateway
pub mod Grounding
pub mod Relay
pub mod Router
pub mod Decisions
mod Examples
