-- ===== src/Examples/Scheduler.antt =====
-- Tests of runtime/scheduler.py.
use ai_studio.Prelude.{ℕ, none, some, List, [], ◌∷◌, ◌≡◌, refl, map, str_eq, if◌then◌else◌}
use ai_studio.Db.{Task}
use ai_studio.Db.Action.{append_event}
use ai_studio.Traffic.{Env, tag_payload}
use ai_studio.Tasks.Rows.{find_task}
use ai_studio.Tasks.Enqueue.{enqueue_task, new_row}
use ai_studio.Tasks.Writes.History.{empty}
use ai_studio.Scheduler.{Documents, Stuck, tick_once, dispatch_replans, has_replan}
use ai_studio.Scheduler.Replans.{Pulses, tick_once-Pulses}
use ai_studio.Scheduler.Dispatched.{Dispatched, dispatch_replans-Dispatched}

abbrev env : Env
env = record { traffic = none; test_db = none; normalize = λ s. s }

abbrev docs : Documents
docs = record {
  pulse = record { traffic = none; rest = "pulse" };
  replan = λ i. record { traffic = none; rest = "7" };
  stuck_task_id = λ p. if str_eq p.rest "7" then some 7 else none;
}

abbrev stuck : List Stuck
stuck =
    record { seq = 3; task_id = some 7; workstream = "video"; fresh = 20 }
    ∷ record { seq = 5; task_id = some 7; workstream = "video"; fresh = 21 }
    ∷ record { seq = 4; task_id = none; workstream = "video"; fresh = 22 }
    ∷ []

-- Two signals of one task make one replan.
one_replan :
    map (λ (t : Task). t.id) (dispatch_replans env docs 0 stuck (empty 9)).1.tasks ≡ 20 ∷ []
unfolding dispatch_replans has_replan enqueue_task new_row append_event find_task empty tag_payload
one_replan = refl

dispatch_replans-Dispatched_example :
    Dispatched docs 0 stuck (empty 9) (dispatch_replans env docs 0 stuck (empty 9))
unfolding tag_payload
dispatch_replans-Dispatched_example =
    dispatch_replans-Dispatched env docs 0 stuck (empty 9) (readable, (readable, (λ i h. cc, tt)))
  where
    readable :
        (i : ℕ) → some 7 ≡ some i → docs.stuck_task_id (tag_payload env (docs.replan i)) ≡ some i
    readable i h = h

tick_once-Pulses_example : Pulses "video" (empty 9) (tick_once env docs 1 "video" (empty 9))
tick_once-Pulses_example = tick_once-Pulses env docs 1 "video" (empty 9)
