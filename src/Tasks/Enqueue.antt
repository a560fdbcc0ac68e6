-- ===== src/Tasks/Enqueue.antt =====
-- `enqueue_task` and `get_task` of runtime/tasks.py.
use ai_studio.Prelude.{
  ℕ, String, Option, none, some, List, [], ◌∷◌, ◌++◌, ◌==◌, any, is_some, if◌then◌else◌, ℤ, ok, err,
}
use ai_studio.TaskState.{up_for_grabs}
use ai_studio.Db.{Task, Assignee, Payload, task_created}
use ai_studio.Db.Action.{
  Action, dependency_cycle, unique_violation, pure, throw, ◌>>◌, transaction, append_event,
}
use ai_studio.Traffic.{Env, tag_payload}
use ai_studio.Tasks.Rows.{find_task}

-- The arguments of `enqueue_task`; `id` is what `gen_random_uuid()` gives.
pub record NewTask : Type 0 where
  pub id : ℕ
  pub workstream : String
  pub kind : String
  pub payload : Payload
  pub priority : ℤ
  pub assignee : Option Assignee
  pub budget_tokens : Option ℕ
  pub depends_on : List ℕ
  pub trajectory_id : Option ℕ

-- The inserted row, with the defaults of the table.
unfoldable pub new_row : Env → ℕ → NewTask → Task
new_row env now n = record {
  id = n.id;
  workstream = n.workstream;
  kind = n.kind;
  status = up_for_grabs;
  priority = n.priority;
  assignee = n.assignee;
  payload = tag_payload env n.payload;
  result = none;
  heartbeat_at = none;
  claimed_by = none;
  agent_type = none;
  claimed_at = none;
  depends_on = n.depends_on;
  budget_tokens = n.budget_tokens;
  spent_tokens = 0;
  retries = 0;
  last_progress_at = none;
  no_progress_rekicks = 0;
  stall_reason = none;
  nudged_at = none;
  trajectory_id = n.trajectory_id;
  created_at = now;
  updated_at = now;
}

abbrev pub insert : Task → Action (Unit {0})
insert t db =
    if is_some (find_task t.id db.tasks)
    then (err unique_violation, db)
    else (ok tt, record db { tasks = db.tasks ++ t ∷ [] })

abbrev pub reject_self : Task → Action (Unit {0})
reject_self t = if any (λ d. d == t.id) t.depends_on then throw (dependency_cycle t.id) else pure tt

abbrev pub insert_and_log : Task → Action Task
insert_and_log t = do
  insert t
  reject_self t
  append_event (some t.id) t.workstream (task_created t.status t.kind t.priority)
  pure t

unfoldable pub enqueue_task : Env → NewTask → Action Task
unfolding new_row
enqueue_task env n = transaction (λ db. insert_and_log (new_row env db.clock n) db)

unfoldable pub get_task : ℕ → Action (Option Task)
get_task id db = (ok (find_task id db.tasks), db)
