-- ===== src/Examples/Decisions.antt =====
-- Tests of runtime/decisions.py.
use ai_studio.Prelude.{none, some, List, [], ◌∷◌, ◌≡◌, refl, pos, ok, err}
use ai_studio.TaskState.{
  blocked, in_progress, up_for_grabs, allowed, assert_transition, of_wire, transitions, wire,
  is_terminal, status_eq,
}
use ai_studio.Db.{Task}
use ai_studio.Db.Action.{append_event}
use ai_studio.Tasks.Rows.{find_task, update_task}
use ai_studio.Tasks.Transition.{
  transition, transition_row, apply_sets, assigns_twice, expected, finished, hop_of, last_hop_at,
  latency, write_hop,
}
use ai_studio.Tasks.Calls.{wait}
use ai_studio.Decisions.{
  Desk, Decision, Question, request_decision, insert_decision, answer_decision, resolve_decision,
  settle, find_decision, get_decision, still_open, open_digest, open_decisions,
}
use ai_studio.Decisions.Laws.{Requested, request_decision-Requested}
use ai_studio.Decisions.Answers.{Answered, answer_decision-Answered}
use ai_studio.Decisions.Runs.{Call, answer, queue, run, Settles, run-Settles}

abbrev working : Task
working = record {
  id = 1;
  workstream = "productivity";
  kind = "research";
  status = in_progress;
  priority = pos 0;
  assignee = none;
  payload = record { traffic = none; rest = "" };
  result = none;
  heartbeat_at = some 5;
  claimed_by = some "w";
  agent_type = none;
  claimed_at = some 5;
  depends_on = [];
  budget_tokens = none;
  spent_tokens = 0;
  retries = 0;
  last_progress_at = none;
  no_progress_rekicks = 0;
  stall_reason = none;
  nudged_at = none;
  trajectory_id = none;
  created_at = 0;
  updated_at = 5;
}

abbrev desk : Desk
desk = record {
  db = record { tasks = working ∷ []; hops = []; events = []; trust = []; steps = []; clock = 9 };
  decisions = [];
  emitted = [];
  next_seq = 1;
}

abbrev question : Question
question = record {
  id = 7;
  workstream = "productivity";
  question = "Which one?";
  options = some ("a" ∷ "b" ∷ []);
  dependent_task_id = some 1;
  default_choice = none;
  now = none;
}

evaluation : Unit {0}
unfolding request_decision insert_decision answer_decision resolve_decision settle find_decision
    get_decision open_digest transition transition_row find_task update_task apply_sets
    assigns_twice expected finished hop_of last_hop_at latency write_hop append_event allowed
    assert_transition of_wire transitions wire is_terminal status_eq
evaluation = tt

abbrev asked : Desk
asked = (request_decision question desk).1

abbrev status_of_first : Desk → ai_studio.TaskState.Status
status_of_first k = elim k.db.tasks [ [] ↦ in_progress | t ∷ ts ↦ t.status ]

parks : status_of_first asked ≡ blocked
unfolding evaluation
parks = refl

resumes : status_of_first (answer_decision 7 "a" "human" none asked).1 ≡ up_for_grabs
unfolding evaluation
resumes = refl

one_open : (open_digest none asked).0 ≡ 1
unfolding evaluation
one_open = refl

abbrev first : Decision
unfolding evaluation
first = elim (request_decision question desk).0 [
  | ok d ↦ d
  | err e ↦ record {
    id = 0;
    workstream = "";
    question = "";
    options = none;
    status = ai_studio.Decisions.is_open;
    answer = none;
    answered_by = none;
    dependent_task_id = none;
    default_choice = none;
    seq = 0;
    created_at = 0;
    answered_at = none;
  }
]

first_found : find_decision 7 asked.decisions ≡ some first
unfolding evaluation
first_found = refl

request_decision-Requested_example : Requested question desk (request_decision question desk)
request_decision-Requested_example = request_decision-Requested question desk

answer_decision-Answered_example :
    Answered 7 "a" "human" none asked (answer_decision 7 "a" "human" none asked)
answer_decision-Answered_example = answer_decision-Answered 7 "a" "human" none asked

abbrev calls : List Call
calls = answer 7 "a" "human" none ∷ queue (wait 5) ∷ answer 7 "b" "human" none ∷ []

run-Settles_example :
    (d' : Decision) × (find_decision 7 (run calls asked).decisions ≡ some d') × Settles first d'
run-Settles_example = run-Settles calls asked 7 first first_found
