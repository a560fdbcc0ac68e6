-- ===== src/Tasks/Finish.antt =====
-- `heartbeat`, `complete_task`, `block_task`, `requeue_blocked_task` and `add_spent_tokens` of
-- runtime/tasks.py.
use ai_studio.Prelude.{
  ℕ, ◌+◌, String, Bool, true, false, Option, none, some, List, [], ◌∷◌, ◌&&◌, ◌||◌, str_eq,
  if◌then◌else◌, ok,
}
use ai_studio.TaskState.{
  Status, up_for_grabs, claimed, in_progress, blocked, ready_for_review, approved, merged,
  abandoned, status_eq, is_terminal, wire,
}
use ai_studio.Db.{Task, Json, blocked_on_approval}
use ai_studio.Db.Action.{Action, value_error, pure, throw, ◌>>=◌, transaction}
use ai_studio.Tasks.Rows.{update_task, returning}
use ai_studio.Tasks.Transition.{Options, defaults, transition}

-- `status IN ('claimed', 'in_progress')`
unfoldable pub held : Task → Bool
held t = status_eq t.status claimed || status_eq t.status in_progress

abbrev pub claimed_by_worker : String → Task → Bool
claimed_by_worker worker_id t = elim t.claimed_by [ none ↦ false | some w ↦ str_eq w worker_id ]

-- `UPDATE tasks SET f WHERE id = %s AND p RETURNING …`, which leaves the other tables alone.
unfoldable pub update_returning : ℕ → (Task → Bool) → (Task → Task) → Action (Option Task)
update_returning id p f db =
    (ok (returning id p f db.tasks), record db { tasks = update_task id p f db.tasks })

abbrev pub beat : ℕ → Task → Task
beat now t = record t { heartbeat_at = some now; updated_at = now; nudged_at = none }

unfoldable pub heartbeat : ℕ → String → Action (Option Task)
unfolding held update_returning
heartbeat task_id worker_id = transaction (λ db.
    update_returning task_id (λ t. claimed_by_worker worker_id t && held t) (beat db.clock) db)

-- The arguments of `complete_task`.
pub record Completion : Type 0 where
  pub result : Option Json
  pub status : Status
  pub spent_tokens : Option ℕ
  pub expected_from : Option (List Status)
  pub force : Bool

abbrev pub completion : Completion
completion = record {
  result = none;
  status = merged;
  spent_tokens = none;
  expected_from = some (in_progress ∷ []);
  force = false;
}

-- The first hop carries the result, also where it is `None`.
abbrev pub first_hop : Completion → Options
first_hop c = record defaults {
  expected_from = if c.force then none else c.expected_from;
  result = some c.result;
  spent_tokens = c.spent_tokens;
  force = c.force;
}

abbrev pub if_some : Option Task → Action (Option Task) → Action (Option Task)
if_some none m = pure none
if_some (some t) m = m

-- Auto-approve and merge; each hop is a transaction of its own.
unfoldable pub merge_task : ℕ → Completion → Action (Option Task)
merge_task task_id c = do
  t ← transition task_id ready_for_review (first_hop c)
  if_some t
      (do u ← transition task_id approved defaults; if_some u (transition task_id merged defaults))

unfoldable pub complete_task : ℕ → Completion → Action (Option Task)
unfolding merge_task
complete_task task_id c =
    if is_terminal (wire c.status)
    then if status_eq c.status merged
      then merge_task task_id c
      else transition task_id abandoned (first_hop c)
    else throw (value_error "complete_task status must be 'merged' or 'abandoned'")

unfoldable pub block_task : ℕ → ℕ → String → Action (Option Task)
block_task task_id approval_id reason = transition task_id blocked (record defaults {
  expected_from = some (in_progress ∷ []);
  result = some (some (blocked_on_approval approval_id reason));
})

unfoldable pub requeue_blocked_task : ℕ → Action (Option Task)
requeue_blocked_task task_id =
    transition task_id up_for_grabs
      (record defaults { expected_from = some (blocked ∷ []); clear_claim = true })

abbrev pub spend : ℕ → ℕ → Task → Task
spend tokens now t = record t { spent_tokens = t.spent_tokens + tokens; updated_at = now }

-- A number of tokens is not negative, so the source's check of that never raises here.
unfoldable pub add_spent_tokens : ℕ → ℕ → Action (Option Task)
unfolding update_returning
add_spent_tokens task_id tokens =
    transaction (λ db. update_returning task_id (λ _. true) (spend tokens db.clock) db)
