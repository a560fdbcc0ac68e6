-- ===== src/Examples/Queue.antt =====
-- Tests of runtime/tasks.py.
use ai_studio.Prelude.{
  ℕ, String, true, false, none, some, List, [], ◌∷◌, ◌≡◌, refl, pos, first_by, map, all, ok, ◌≢◌,
  Option,
}
use ai_studio.TaskState.{up_for_grabs, ready_for_review, approved, merged}
use ai_studio.Db.{Task, Db, IdentityTrust, revoked}
use ai_studio.Traffic.{Env}
use ai_studio.Tasks.Rows.{find_task}
use ai_studio.Tasks.Enqueue.{NewTask}
use ai_studio.Tasks.Grab.{Request}
use ai_studio.Tasks.Finish.{completion}
use ai_studio.Traffic.{default_traffic, is_traffic, tag_payload}
use ai_studio.TaskState.{
  allowed, assert_transition, of_wire, transitions, wire, is_terminal, status_eq, claimed,
  in_progress,
}
use ai_studio.TaskState.Lifecycle.{Enters, Run}
use ai_studio.Db.Action.{append_event}
use ai_studio.Tasks.Rows.{returning, update_task}
use ai_studio.Tasks.Transition.{
  transition, transition_row, apply_sets, assigns_twice, expected, finished, hop_of, last_hop_at,
  latency, write_hop,
}
use ai_studio.Tasks.Enqueue.{enqueue_task, new_row}
use ai_studio.Tasks.Query.{
  build_sort, build_filter, parse_sort_term, sort_column, sort_descending, sort_nulls,
}
use ai_studio.Tasks.Selection.{clause_holds, filter_value, precedes, sort_value, satisfies}
use ai_studio.Tasks.Grab.{
  grab_task, grab_selected, identity_quarantined, pick, fenced, find_trust, grabbable, start_task,
  claim_task, unmet,
}
use ai_studio.Tasks.Finish.{complete_task, merge_task, heartbeat, held, update_returning}
use ai_studio.Tasks.Writes.History.{empty, trail, follow, status_of}
use ai_studio.Tasks.Writes.Reports.{reported, report_of}
use ai_studio.Tasks.Calls.Grabs.{run_grab, run_grab_exclusive}
use ai_studio.Tasks.Grab.Laws.{PrerequisitesMerged}
use ai_studio.TaskState.Lifecycle.{IsTerminal}
use ai_studio.Db.Action.{Outcome}
use ai_studio.Tasks.Calls.{
  Call, run_persists, enqueue, claim, complete, trust, wait, run, perform, unforced, run_recorded,
  run-reported, run_legal, run_merged_reviewed,
}

abbrev env : Env
env = record { traffic = none; test_db = none; normalize = λ s. s }

abbrev task : ℕ → List ℕ → NewTask
task n deps = record {
  id = n;
  workstream = "productivity";
  kind = "research";
  payload = record { traffic = none; rest = "" };
  priority = pos 0;
  assignee = none;
  budget_tokens = none;
  depends_on = deps;
  trajectory_id = none;
}

abbrev request : String → Request
request worker = record {
  worker_id = worker;
  agent_type = none;
  assignee = none;
  workstream = none;
  sort = none;
  filter = [];
  busy = λ _. false;
  collate = λ a b. false;
}

abbrev calls : List Call
calls =
    enqueue env (task 1 [])
    ∷ enqueue env (task 2 (1 ∷ []))
    ∷ claim (request "w")
    ∷ wait 5000
    ∷ complete 1 completion
    ∷ []

-- What a run of the queue evaluates through.
evaluation : Unit {0}
unfolding run trail empty complete_task is_terminal status_eq transition transition_row find_task
    claim_task grab_task build_sort build_filter grab_selected identity_quarantined enqueue_task
    append_event pick first_by satisfies allowed assert_transition of_wire transitions wire perform
    new_row heartbeat held merge_task update_returning fenced find_trust grabbable start_task unmet
    parse_sort_term sort_column sort_descending sort_nulls returning update_task clause_holds
    filter_value precedes sort_value apply_sets assigns_twice expected finished hop_of last_hop_at
    latency write_hop default_traffic is_traffic tag_payload unforced follow
evaluation = tt

trail-calls :
    trail 1 (run calls (empty 0)).hops
    ≡ claimed ∷ in_progress ∷ ready_for_review ∷ approved ∷ merged ∷ []
unfolding evaluation
trail-calls = refl

unforced-calls : all unforced calls ≡ true
unfolding evaluation
unforced-calls = refl

-- The first task after the run.
abbrev first : Task
unfolding evaluation
first = elim (find_task 1 (run calls (empty 0)).tasks) [
  | some t ↦ t
  | none ↦ new_row env 0 (task 1 [])
]

first_found : find_task 1 (run calls (empty 0)).tasks ≡ some first
unfolding evaluation
first_found = refl

first_merged : first.status ≡ merged
unfolding evaluation
first_merged = refl

run_recorded_example :
    follow 1 up_for_grabs (run calls (empty 0)).hops
    ≡ some (status_of (find_task 1 (run calls (empty 0)).tasks))
run_recorded_example = run_recorded 0 calls 1

run-reported_example :
    reported (run calls (empty 0)).events ≡ map report_of (run calls (empty 0)).hops
run-reported_example = run-reported 0 calls

run_merged_reviewed_example :
    Enters ready_for_review approved up_for_grabs (trail 1 (run calls (empty 0)).hops)
run_merged_reviewed_example =
    run_merged_reviewed 0 calls 1 first unforced-calls first_found first_merged

run_legal_example :
    Run up_for_grabs
      (trail 1 (run calls (empty 0)).hops)
      (status_of (find_task 1 (run calls (empty 0)).tasks))
run_legal_example = run_legal 0 calls 1 unforced-calls

-- A worker that is barred from the queue.
abbrev fenced_row : IdentityTrust
fenced_row = record {
  identity = "liar";
  trust_state = revoked;
  human_relay_allowed = false;
  strikes = 1;
  last_strike_at = some 0;
  created_at = 0;
  updated_at = 0;
}

-- Two tasks in the pool, a barred worker, and the grabs of two others.
abbrev pool : List Call
pool = enqueue env (task 1 []) ∷ trust (fenced_row ∷ []) ∷ enqueue env (task 2 []) ∷ wait 10 ∷ []

abbrev task_of : Outcome (Option Task) × Db → Task
task_of (ok (some t), db) = t
task_of (r, db) = new_row env 0 (task 0 [])

abbrev first_grab : Outcome (Option Task) × Db
first_grab = grab_task (request "w") (run pool (empty 0))

abbrev second_grab : Outcome (Option Task) × Db
second_grab = grab_task (request "v") first_grab.1

first_grab_ok : first_grab ≡ (ok (some (task_of first_grab)), first_grab.1)
unfolding evaluation
first_grab_ok = refl

second_grab_ok : second_grab ≡ (ok (some (task_of second_grab)), second_grab.1)
unfolding evaluation
second_grab_ok = refl

barred : (grab_task (request "liar") (run pool (empty 0))).0 ≡ ok none
unfolding evaluation
barred = refl

run_grab_example :
    let db = run pool (empty 0) in
    let t = task_of first_grab in
    (identity_quarantined db "w" ≡ false)
    × ((row : Task) × (find_task t.id db.tasks ≡ some row)
        × (row.status ≡ up_for_grabs)
        × ((request "w").busy row.id ≡ false)
        × PrerequisitesMerged row db.tasks)
    × (t.status ≡ claimed)
    × (t.claimed_by ≡ some "w")
    × (t.heartbeat_at ≡ some db.clock)
    × (find_task t.id first_grab.1.tasks ≡ some t)
run_grab_example = run_grab 0 pool (request "w") (task_of first_grab) first_grab.1 first_grab_ok

run_grab_exclusive_example : (task_of first_grab).id ≢ (task_of second_grab).id
run_grab_exclusive_example =
    run_grab_exclusive 0 pool (request "w") (request "v") (task_of first_grab) (task_of second_grab)
      first_grab.1 second_grab.1 first_grab_ok second_grab_ok

run_persists_example :
    (t' : Task) × (find_task 1 (run calls (run calls (empty 0))).tasks ≡ some t')
    × (t'.workstream ≡ first.workstream)
    × (t'.depends_on ≡ first.depends_on)
    × (IsTerminal first.status → t'.status ≡ first.status)
run_persists_example = run_persists calls (run calls (empty 0)) 1 first unforced-calls first_found
