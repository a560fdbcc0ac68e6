-- ===== src/Scheduler.antt =====
-- runtime/scheduler.py: `tick_once` and `dispatch_replans`. The events that `read` gives are an
-- argument, as in the source; with each stands the UUID that a task for it would get.
pub mod Replans
pub mod Dispatched
use ai_studio.Prelude.{
  ℕ, String, Bool, false, ◌||◌, Option, none, some, List, [], ◌∷◌, ◌++◌, ◌==◌, ◌&&◌, ltb, not,
  str_eq, any, if◌then◌else◌, ℤ, pos,
}
use ai_studio.TaskState.{status_eq, merged, abandoned}
use ai_studio.Db.{Db, Task, Payload}
use ai_studio.Db.Action.{Action, pure, ◌>>=◌}
use ai_studio.Traffic.{Env}
use ai_studio.Tasks.Enqueue.{NewTask, enqueue_task}

-- The documents that the scheduler writes, and `payload->>'stuck_task_id'`.
pub record Documents : Type 0 where
  pub pulse : Payload
  pub replan : ℕ → Payload
  pub stuck_task_id : Payload → Option ℕ

-- A call of `enqueue_task` with its defaults.
abbrev pub plain : (id : ℕ) → (workstream kind : String) → Payload → NewTask
plain id workstream kind payload = record {
  id = id;
  workstream = workstream;
  kind = kind;
  payload = payload;
  priority = pos 0;
  assignee = none;
  budget_tokens = none;
  depends_on = [];
  trajectory_id = none;
}

abbrev pub is_live_tick : String → Task → Bool
is_live_tick workstream t =
    str_eq t.workstream workstream
    && str_eq t.kind "pm.tick"
    && not (status_eq t.status merged || status_eq t.status abandoned)

-- `_pm_tick_pending`
unfoldable pub pm_tick_pending : String → Db → Bool
pm_tick_pending workstream db = any (is_live_tick workstream) db.tasks

unfoldable pub tick_once : Env → Documents → (id : ℕ) → (workstream : String) → Action (Option Task)
unfolding pm_tick_pending
tick_once env docs id workstream db =
    if pm_tick_pending workstream db
    then pure none db
    else (enqueue_task env (plain id workstream "pm.tick" docs.pulse) >>= λ t. pure (some t)) db

-- A `task.stuck` event that was read.
pub record Stuck : Type 0 where
  pub seq : ℕ
  pub task_id : Option ℕ
  pub workstream : String
  pub fresh : ℕ

abbrev pub names : ℕ → Option ℕ → Bool
names id none = false
names id (some j) = j == id

abbrev pub is_replan_of : Documents → ℕ → Task → Bool
is_replan_of docs id t = str_eq t.kind "replan" && names id (docs.stuck_task_id t.payload)

-- `_has_replan_task`
unfoldable pub has_replan : Documents → ℕ → Db → Bool
has_replan docs id db = any (is_replan_of docs id) db.tasks

-- The body of the loop: the ids that it appends.
abbrev pub dispatch_for : Env → Documents → Stuck → Option ℕ → Action (List ℕ)
dispatch_for env docs e none db = pure [] db
dispatch_for env docs e (some id) db =
    if has_replan docs id db
    then pure [] db
    else (enqueue_task env (plain e.fresh e.workstream "replan" (docs.replan id)) >>= λ t.
          pure (t.id ∷ []))
        db

abbrev pub later : ℕ → ℕ → ℕ
later a b = if ltb a b then b else a

unfoldable pub dispatch_replans :
    Env → Documents → (since_seq : ℕ) → List Stuck → Action (ℕ × List ℕ)
unfolding has_replan
dispatch_replans env docs cursor [] = pure (cursor, [])
dispatch_replans env docs cursor (e ∷ es) = dispatch_for env docs e e.task_id >>= λ ids.
    dispatch_replans env docs (later cursor e.seq) es >>= λ (end, more). pure (end, ids ++ more)
