-- ===== src/Db.antt =====
-- The tables of the runtime's database as the modules of runtime/ read and write them: `Task` of
-- runtime/models.py, `task_transitions`, the event log of runtime/events.py and the trust ledger.
-- A moment is a number of microseconds; `now()` is the clock of the state, the same throughout a
-- transaction. A UUID is a number.
pub mod Action
pub mod Connect
use ai_studio.Prelude.{ℕ, String, Bool, Option, List, ℤ}
use ai_studio.TaskState.{Status}

-- `Assignee`
pub data Assignee : Type 0 where
  host offhost : Assignee

-- JSON objects that the queue and the decisions write into `result`; `other` is a document of a caller.
pub data Json : Type 0 where
  blocked_on_approval : (approval_id : ℕ) → (reason : String) → Json
  blocked_on_decision : (decision_id : ℕ) → (reason : String) → Json
  stuck_needs_replan : (stall_reason : String) → (no_progress_rekicks retries : ℕ) → Json
  max_retries_exhausted : (retries max_retries : ℕ) → Json
  other : String → Json

-- A task's payload: its `traffic` entry, where that is a text, and the rest of the document.
pub record Payload : Type 0 where
  pub traffic : Option String
  pub rest : String

-- `Task`, with the column `trajectory_id`.
pub record Task : Type 0 where
  pub id : ℕ
  pub workstream : String
  pub kind : String  -- the column `type`
  pub status : Status
  pub priority : ℤ
  pub assignee : Option Assignee
  pub payload : Payload
  pub result : Option Json
  pub heartbeat_at : Option ℕ
  pub claimed_by : Option String
  pub agent_type : Option String
  pub claimed_at : Option ℕ
  pub depends_on : List ℕ
  pub budget_tokens : Option ℕ
  pub spent_tokens : ℕ
  pub retries : ℕ
  pub last_progress_at : Option ℕ
  pub no_progress_rekicks : ℕ
  pub stall_reason : Option String
  pub nudged_at : Option ℕ
  pub trajectory_id : Option ℕ
  pub created_at : ℕ
  pub updated_at : ℕ

-- A row of `task_transitions`.
pub record Hop : Type 0 where
  pub task_id : ℕ
  pub source : Status
  pub target : Status
  pub agent_id : Option String
  pub agent_type : Option String
  pub latency_ms : ℕ
  pub at : ℕ

-- The type and the payload of an event of the queue; the payload's `status` stands first.
pub data EventBody : Type 0 where
  task_created : Status → (kind : String) → (priority : ℤ) → EventBody
  task_transition :
      Status
      → (source target : Status) → (agent_id agent_type : Option String) → (latency_ms : ℕ)
      → EventBody
  task_finished : Status → (spent_tokens : ℕ) → EventBody
  task_nudge : Status → (grace : ℕ) → EventBody
  task_rekicked :
      Status → (retries : ℕ) → (made_progress : Option Bool) → (no_progress_rekicks : ℕ) → EventBody
  task_stuck : Status → (stall_reason : String) → (no_progress_rekicks retries : ℕ) → EventBody
  task_failed_exhausted : Status → (retries max_retries : ℕ) → EventBody
  model_call : EventBody

pub record Event : Type 0 where
  pub ts : ℕ
  pub task_id : Option ℕ
  pub workstream : String
  pub body : EventBody

pub data TrustState : Type 0 where
  trusted quarantined revoked : TrustState

-- `IdentityTrust`
pub record IdentityTrust : Type 0 where
  pub identity : String
  pub trust_state : TrustState
  pub human_relay_allowed : Bool
  pub strikes : ℕ
  pub last_strike_at : Option ℕ
  pub created_at : ℕ
  pub updated_at : ℕ

-- A row of `trajectory_steps`, as far as the queue reads it.
pub record TrajectoryStep : Type 0 where
  pub trajectory_id : ℕ
  pub created_at : ℕ

-- The events stand in the order of `seq`.
pub record Db : Type 0 where
  pub tasks : List Task
  pub hops : List Hop
  pub events : List Event
  pub trust : List IdentityTrust
  pub steps : List TrajectoryStep
  pub clock : ℕ
