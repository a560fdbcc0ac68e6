-- ===== src/Examples/Supervisor.antt =====
-- Tests of runtime/supervisor.py and of the lists that it reads.
use ai_studio.Prelude.{
  ℕ, true, false, none, some, List, [], ◌∷◌, ◌≡◌, ◌↔◌, ◌⊎◌, refl, inl, inr, In, map, pos, head?,
  sort_by, first_by,
}
use ai_studio.TaskState.{
  allowed, assert_transition, of_wire, transitions, wire, is_terminal, status_eq,
}
use ai_studio.Db.{Db, Task}
use ai_studio.Db.Action.{append_event, transaction}
use ai_studio.Traffic.{Env, default_traffic, is_traffic, tag_payload}
use ai_studio.Tasks.Rows.{find_task, update_task, returning}
use ai_studio.Tasks.Enqueue.{NewTask, enqueue_task, new_row}
use ai_studio.Tasks.Transition.{
  transition, transition_row, apply_sets, assigns_twice, expected, finished, hop_of, last_hop_at,
  latency, write_hop,
}
use ai_studio.Tasks.Query.{
  build_sort, build_filter, parse_sort_term, sort_column, sort_descending, sort_nulls,
}
use ai_studio.Tasks.Selection.{clause_holds, filter_value, precedes, sort_value, satisfies}
use ai_studio.Tasks.Grab.{
  Request, grab_task, grab_selected, claim_picked, identity_quarantined, pick, fenced, find_trust,
  grabbable, start_task, claim_task, unmet,
}
use ai_studio.Tasks.Finish.{heartbeat, held, update_returning}
use ai_studio.Tasks.Recovery.{nudge_task}
use ai_studio.Tasks.Views.{ready_tasks, waiting_tasks, find_stale_tasks, is_stale, pending}
use ai_studio.Tasks.Views.Readiness.{InPool, InPool-iff, task_of, grab_task-ready_tasks}
use ai_studio.Tasks.Views.Staleness.{find_stale_tasks-In_iff}
use ai_studio.Tasks.Writes.History.{empty}
use ai_studio.Tasks.Calls.{Call, enqueue, claim, wait, run, perform}
use ai_studio.Tasks.Calls.Sweeps.{run-Swept, run_spared}
use ai_studio.Supervisor.{Ladder, rung, nudge_grace_elapsed, sweep, sweep_tasks, climb}
use ai_studio.Supervisor.Swept.{Swept}
use ai_studio.Supervisor.Loop.{
  Turn, connected, swept, failed, run_loop, turn, try_sweep, supervised_sweep, in_grace,
  note_connected, note_failure, lose_connection,
}
use ai_studio.Supervisor.Loop.Graced.{Graced, starting, run_loop-Graced}

abbrev env : Env
env = record { traffic = none; test_db = none; normalize = λ s. s }

abbrev task : ℕ → List ℕ → NewTask
task n deps = record {
  id = n;
  workstream = "productivity";
  kind = "research";
  payload = record { traffic = none; rest = "" };
  priority = pos 0;
  assignee = none;
  budget_tokens = none;
  depends_on = deps;
  trajectory_id = none;
}

abbrev request : Request
request = record {
  worker_id = "w";
  agent_type = none;
  assignee = none;
  workstream = none;
  sort = none;
  filter = [];
  busy = λ _. false;
  collate = λ a b. false;
}

-- A worker takes the first of three tasks, and falls silent.
abbrev calls : List Call
calls =
    enqueue env (task 1 [])
    ∷ enqueue env (task 2 (1 ∷ []))
    ∷ enqueue env (task 3 [])
    ∷ claim request
    ∷ wait 500
    ∷ []

-- The defaults, in seconds.
abbrev ladder : Ladder
ladder = record {
  threshold = 120;
  max_retries = 5;
  nudge_grace = 45;
  stuck_threshold = 2;
  now = 500;
}

evaluation : Unit {0}
unfolding run empty is_terminal status_eq transition transition_row find_task claim_task grab_task
    build_sort build_filter grab_selected identity_quarantined enqueue_task append_event pick
    satisfies allowed assert_transition of_wire transitions wire perform new_row heartbeat held
    update_returning fenced find_trust grabbable start_task unmet parse_sort_term sort_column
    sort_descending sort_nulls returning update_task clause_holds filter_value precedes sort_value
    apply_sets assigns_twice expected finished hop_of last_hop_at latency write_hop default_traffic
    is_traffic tag_payload ready_tasks waiting_tasks find_stale_tasks is_stale first_by pending
    sweep sweep_tasks rung climb nudge_task nudge_grace_elapsed sort_by
evaluation = tt

abbrev after : Db
after = run calls (empty 0)

abbrev row : ℕ → Task
unfolding evaluation
row n = elim (find_task n after.tasks) [ some t ↦ t | none ↦ new_row env 0 (task 0 []) ]

row_1 : In (row 1) after.tasks
unfolding evaluation
row_1 = inl refl

row_3 : In (row 3) after.tasks
unfolding evaluation
row_3 = inr (inr (inl refl))

row_1_stale : is_stale (row 1) 120 after.clock ≡ true
unfolding evaluation
row_1_stale = refl

row_3_fresh : is_stale (row 3) 120 after.clock ≡ false
unfolding evaluation
row_3_fresh = refl

nudged_first : (sweep ladder after).0.nudged ≡ 1 ∷ []
unfolding evaluation
nudged_first = refl

run-Swept_example : Swept ladder (row 1) after.clock (sweep ladder after).0 (sweep ladder after).1
run-Swept_example = run-Swept 0 calls ladder (row 1) row_1 row_1_stale

run_spared_example : find_task (row 3).id (sweep ladder after).1.tasks ≡ some (row 3)
run_spared_example = run_spared 0 calls ladder (row 3) row_3 row_3_fresh

find_stale_tasks-In_iff_example :
    In (row 1) (find_stale_tasks 120 after)
    ↔ (In (row 1) after.tasks × (is_stale (row 1) 120 after.clock ≡ true))
find_stale_tasks-In_iff_example = find_stale_tasks-In_iff 120 after (row 1)

InPool-iff_example :
    (InPool none after (row 3) ↔ (
      In (row 3) (ready_tasks none none none after)
      ⊎ In (row 3) (map task_of (waiting_tasks none after))))
    × (¬ (
        In (row 3) (ready_tasks none none none after)
        × In (row 3) (map task_of (waiting_tasks none after))))
InPool-iff_example = InPool-iff none after (row 3)

trusted_worker : identity_quarantined after "w" ≡ false
unfolding evaluation
trusted_worker = refl

grab_task-ready_tasks_example :
    grab_task request after
    ≡ transaction (claim_picked request (head? (ready_tasks none none none after))) after
grab_task-ready_tasks_example =
    grab_task-ready_tasks request after refl refl (λ id. refl) trusted_worker

-- The database is away at first; the sweep of the second turn is deferred.
abbrev turns : List Turn
turns =
    record {
      calls = [];
      ladder = ladder;
      dropped = false;
      connects = false;
      before_connected = 5;
      before_sweep = 0;
      fault = none;
    }
    ∷ record {
      calls = [];
      ladder = ladder;
      dropped = false;
      connects = true;
      before_connected = 5;
      before_sweep = 1;
      fault = none;
    }
    ∷ record {
      calls = [];
      ladder = ladder;
      dropped = false;
      connects = true;
      before_connected = 0;
      before_sweep = 60;
      fault = none;
    }
    ∷ []

marks : (run_loop turns (starting 60 0 (empty 0))).0 ≡ failed ∷ connected 10 ∷ swept 71 ∷ []
unfolding evaluation run_loop turn try_sweep supervised_sweep in_grace note_connected note_failure
    lose_connection
marks = refl

run_loop-Graced_example : Graced 60 false none (run_loop turns (starting 60 0 (empty 0))).0
run_loop-Graced_example = run_loop-Graced 60 0 (empty 0) turns
