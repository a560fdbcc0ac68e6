-- ===== src/Tasks/Recovery.antt =====
-- The supervisor's recovery operations of runtime/tasks.py: `task_made_progress`, `nudge_task`,
-- `rekick_task` and `escalate_stuck_task`.
use ai_studio.Prelude.{
  ℕ, ◌+◌, String, Bool, true, false, Option, none, some, List, [], ◌∷◌, ◌==◌, ◌&&◌, ◌||◌, any, ltb,
  is_none, if◌then◌else◌, ok,
}
use ai_studio.TaskState.{up_for_grabs, claimed, in_progress, abandoned, status_eq}
use ai_studio.Db.{
  Db, Task, Event, TrajectoryStep, EventBody, model_call, task_nudge, task_rekicked, task_stuck,
  stuck_needs_replan,
}
use ai_studio.Db.Action.{Action, pure, ◌>>=◌, ◌>>◌, transaction, append_event}
use ai_studio.Tasks.Rows.{find_task, update_task}
use ai_studio.Tasks.Transition.{Options, defaults, transition}
use ai_studio.Tasks.Finish.{held, update_returning, Completion, completion, complete_task}

-- `%s IS NULL OR ts > %s`
abbrev pub newer : Option ℕ → ℕ → Bool
newer none ts = true
newer (some since) ts = ltb since ts

abbrev pub is_model_call : EventBody → Bool
is_model_call model_call = true
is_model_call _ = false

abbrev pub of_task : ℕ → Option ℕ → Bool
of_task id none = false
of_task id (some j) = j == id

abbrev pub called_model : ℕ → Option ℕ → List Event → Bool
called_model id since events =
    any (λ e. of_task id e.task_id && is_model_call e.body && newer since e.ts) events

abbrev pub stepped : Option ℕ → Option ℕ → List TrajectoryStep → Bool
stepped none since steps = false
stepped (some id) since steps = any (λ s. s.trajectory_id == id && newer since s.created_at) steps

unfoldable pub made_progress : ℕ → Db → Bool
made_progress id db = elim (find_task id db.tasks) [
  | none ↦ false
  | some t ↦
      called_model id t.last_progress_at db.events
      || stepped t.trajectory_id t.last_progress_at db.steps
]

unfoldable pub task_made_progress : ℕ → Action Bool
unfolding made_progress
task_made_progress id db = (ok (made_progress id db), db)

abbrev pub emit_nudge : ℕ → Option Task → Action (Option Task)
emit_nudge grace none = pure none
emit_nudge grace (some t) = do
  append_event (some t.id) t.workstream (task_nudge t.status grace)
  pure (some t)

abbrev pub open_nudge : ℕ → Task → Task
open_nudge now t = record t { nudged_at = some now; updated_at = now }

unfoldable pub nudge_task : ℕ → ℕ → Action (Option Task)
unfolding held update_returning
nudge_task task_id grace = transaction (λ db.
    (do
      row ← update_returning task_id (λ t. held t && is_none t.nudged_at) (open_nudge db.clock)
      emit_nudge grace row)
      db)

abbrev pub rekick_options : Options
rekick_options = record defaults { clear_claim = true; increment_retries = true }

-- The second UPDATE: the counter of attempts without progress, the episode and the watermark.
abbrev pub count_progress : Bool → ℕ → Task → Task
count_progress made now t = record t {
  no_progress_rekicks = if made then 0 else t.no_progress_rekicks + 1;
  nudged_at = none;
  last_progress_at = some now;
  updated_at = now;
}

abbrev pub rekicks_after : Option Bool → Task → ℕ
rekicks_after none t = t.no_progress_rekicks
rekicks_after (some made) t = if made then 0 else t.no_progress_rekicks + 1

abbrev pub write_progress : Option Bool → ℕ → Action (Unit {0})
write_progress none id db = (ok tt, db)
write_progress (some made) id db = (
  ok tt,
  record db { tasks = update_task id (λ _. true) (count_progress made db.clock) db.tasks },
)

-- The task that `transition` returned is the one that `rekick_task` returns.
abbrev pub after_rekick : Option Bool → Option Task → Action (Option Task)
after_rekick made none = pure none
after_rekick made (some t) =
    if status_eq t.status up_for_grabs
    then (do
      write_progress made t.id
      append_event (some t.id) t.workstream
          (task_rekicked t.status t.retries made (rekicks_after made t))
      pure (some t))
    else pure none

abbrev pub if_held : Option Task → Action (Option Task) → Action (Option Task)
if_held none m = pure none
if_held (some t) m = if held t then m else pure none

unfoldable pub rekick_task : ℕ → Option Bool → Action (Option Task)
unfolding held
rekick_task task_id made = transaction (λ db.
    if_held (find_task task_id db.tasks)
      (do t ← transition task_id up_for_grabs rekick_options; after_rekick made t) db)

abbrev pub set_reason : String → ℕ → Task → Task
set_reason reason now t = record t { stall_reason = some reason; updated_at = now }

abbrev pub superseding : String → ℕ → ℕ → Completion
superseding reason rekicks retries = record completion {
  status = abandoned;
  expected_from = some (claimed ∷ in_progress ∷ []);
  result = some (stuck_needs_replan reason rekicks retries);
}

abbrev pub emit_stuck : String → ℕ → ℕ → Option Task → Action (Option Task)
emit_stuck reason rekicks retries none = pure none
emit_stuck reason rekicks retries (some t) = do
  append_event (some t.id) t.workstream (task_stuck t.status reason rekicks retries)
  pure (some t)

abbrev pub supersede : ℕ → String → ℕ → ℕ → Option Task → Action (Option Task)
supersede task_id reason rekicks retries none = pure none
supersede task_id reason rekicks retries (some _) = do
  t ← complete_task task_id (superseding reason rekicks retries)
  emit_stuck reason rekicks retries t

unfoldable pub escalate_stuck_task : ℕ → String → ℕ → ℕ → Action (Option Task)
unfolding held update_returning
escalate_stuck_task task_id reason rekicks retries = transaction (λ db.
    (do
      row ← update_returning task_id held (set_reason reason db.clock)
      supersede task_id reason rekicks retries row)
      db)
