-- ===== src/Decisions.antt =====
-- runtime/decisions.py: questions for the human that park a task until they are resolved. The table of
-- decisions stands beside the queue's; a new UUID is an argument, and so is the moment that a caller
-- injects. The events that the sink takes carry no text.
pub mod Laws
pub mod Runs
pub mod Answers
use ai_studio.Prelude.{
  ℕ, suc, ◌+◌, String, Bool, true, false, Option, none, some, List, [], ◌∷◌, ◌++◌, ◌==◌, ◌&&◌,
  find?, keep, length, str_eq, is_some, any, if◌then◌else◌, Result, ok, err,
}
use ai_studio.TaskState.{up_for_grabs, in_progress, blocked}
use ai_studio.Db.{Db, Task, blocked_on_decision}
use ai_studio.Db.Action.{Action, Outcome, Error, value_error}
use ai_studio.Tasks.Transition.{Options, defaults, transition}
use ai_studio.Tasks.Grab.{workstream_fits}

pub data DecisionStatus : Type 0 where
  is_open answered withdrawn : DecisionStatus

abbrev pub still_open : DecisionStatus → Bool
still_open is_open = true
still_open _ = false

-- `Decision`
pub record Decision : Type 0 where
  pub id : ℕ
  pub workstream : String
  pub question : String
  pub options : Option (List String)
  pub status : DecisionStatus
  pub answer : Option String
  pub answered_by : Option String
  pub dependent_task_id : Option ℕ
  pub default_choice : Option String
  pub seq : ℕ
  pub created_at : ℕ
  pub answered_at : Option ℕ

-- The payload of a `decision.*` event.
pub record DecisionEvent : Type 0 where
  pub requested : Bool  -- `decision.requested`, or `decision.answered`
  pub decision_id : ℕ
  pub status : DecisionStatus
  pub has_options : Bool
  pub has_default : Bool
  pub task_id : Option ℕ
  pub answered_by : Option String

pub record Desk : Type 0 where
  pub db : Db
  pub decisions : List Decision
  pub emitted : List DecisionEvent
  pub next_seq : ℕ

-- What the functions raise.
pub data DecisionError : Type 0 where
  park_failed : (task_id : ℕ) → DecisionError
  duplicate_decision : DecisionError
  from_queue : Error → DecisionError

abbrev pub Step {ℓ} : Type ℓ → Type ℓ
Step A = Desk → Result DecisionError A × Desk

abbrev pub rolled_back {ℓ} :
    {A : Type ℓ} → Desk → Result DecisionError A × Desk → Result DecisionError A × Desk
rolled_back k (ok a, k') = (ok a, k')
rolled_back k (err e, k') = (err e, k)

-- The arguments of `request_decision`.
pub record Question : Type 0 where
  pub id : ℕ
  pub workstream : String
  pub question : String
  pub options : Option (List String)
  pub dependent_task_id : Option ℕ
  pub default_choice : Option String
  pub now : Option ℕ

abbrev pub at_moment : Option ℕ → ℕ → ℕ
at_moment none clock = clock
at_moment (some t) clock = t

abbrev pub has_items : Option (List String) → Bool
has_items none = false
has_items (some []) = false
has_items (some (x ∷ xs)) = true

-- `_emit`
abbrev pub emit : Bool → Decision → Desk → Desk
emit requested d k = record k {
  emitted =
      k.emitted
      ++ record {
        requested = requested;
        decision_id = d.id;
        status = d.status;
        has_options = has_items d.options;
        has_default = is_some d.default_choice;
        task_id = d.dependent_task_id;
        answered_by = d.answered_by;
      }
        ∷ [];
}

-- A step that ends with its event; `make_event` raises at an empty workstream.
abbrev pub told {ℓ} : {A : Type ℓ} → (requested : Bool) → Decision → A → Step A
told requested d a k =
    if str_eq d.workstream ""
    then (err (from_queue (value_error "event workstream must be non-empty")), k)
    else (ok a, emit requested d k)

abbrev pub park : ℕ → Options
park decision_id = record defaults {
  expected_from = some (in_progress ∷ []);
  result = some (some (blocked_on_decision decision_id "awaiting_decision"));
}

abbrev pub new_decision : Question → Desk → Decision
new_decision q k = record {
  id = q.id;
  workstream = q.workstream;
  question = q.question;
  options = q.options;
  status = is_open;
  answer = none;
  answered_by = none;
  dependent_task_id = q.dependent_task_id;
  default_choice = q.default_choice;
  seq = k.next_seq;
  created_at = at_moment q.now k.db.clock;
  answered_at = none;
}

-- INSERT INTO decisions, and the event.
unfoldable pub insert_decision : Question → Step Decision
insert_decision q k =
    let d = new_decision q k in
    if any (λ (x : Decision). x.id == q.id) k.decisions
    then (err duplicate_decision, k)
    else told true d d (record k { decisions = k.decisions ++ d ∷ []; next_seq = suc k.next_seq })

-- The task is parked before there is a row.
abbrev pub parked : Question → ℕ → Outcome (Option Task) → Step Decision
parked q t (ok none) k = (err (park_failed t), k)
parked q t (ok (some row)) k = insert_decision q k
parked q t (err e) k = (err (from_queue e), k)

abbrev pub requested_for : Question → Option ℕ → Step Decision
requested_for q none k = insert_decision q k
requested_for q (some t) k =
    let (r, db) = transition t blocked (park q.id) k.db in parked q t r (record k { db = db })

unfoldable pub request_decision : Question → Step Decision
request_decision q k = rolled_back k (requested_for q q.dependent_task_id k)

-- UPDATE decisions SET … WHERE id = %s AND status = 'open' RETURNING …
unfoldable pub settle : ℕ → (Decision → Decision) → List Decision → List Decision
settle id f [] = []
settle id f (d ∷ ds) = (if d.id == id && still_open d.status then f d else d) ∷ settle id f ds

unfoldable pub find_decision : ℕ → List Decision → Option Decision
find_decision id [] = none
find_decision id (d ∷ ds) = if d.id == id then some d else find_decision id ds

abbrev pub resume : Options
resume = record defaults { expected_from = some (blocked ∷ []); clear_claim = true }

-- The row that the UPDATE returned, or none.
abbrev pub settled_row : (Decision → Decision) → Option Decision → Option Decision
settled_row f none = none
settled_row f (some d) = if still_open d.status then some (f d) else none

abbrev pub resumed : Decision → Outcome (Option Task) → Step (Option Decision)
resumed d (ok t) k = told false d (some d) k
resumed d (err e) k = (err (from_queue e), k)

abbrev pub resume_task : Decision → Option ℕ → Step (Option Decision)
resume_task d none k = resumed d (ok none) k
resume_task d (some t) k =
    let (r, db) = transition t up_for_grabs resume k.db in resumed d r (record k { db = db })

abbrev pub resolve_row : ℕ → (Decision → Decision) → Option Decision → Step (Option Decision)
resolve_row id f none k = (ok none, k)
resolve_row id f (some d) k =
    resume_task d d.dependent_task_id (record k { decisions = settle id f k.decisions })

unfoldable pub resolve_decision : ℕ → (ℕ → Decision → Decision) → Step (Option Decision)
unfolding settle find_decision
resolve_decision id f k =
    rolled_back k
      (resolve_row id (f k.db.clock) (settled_row (f k.db.clock) (find_decision id k.decisions)) k)

abbrev pub answering : (answer resolver : String) → (now : Option ℕ) → ℕ → Decision → Decision
answering answer resolver now clock d = record d {
  status = answered;
  answer = some answer;
  answered_by = some resolver;
  answered_at = some (at_moment now clock);
}

abbrev pub withdrawing : (resolver : String) → (now : Option ℕ) → ℕ → Decision → Decision
withdrawing resolver now clock d = record d {
  status = withdrawn;
  answered_by = some resolver;
  answered_at = some (at_moment now clock);
}

unfoldable pub answer_decision :
    ℕ → (answer resolver : String) → (now : Option ℕ) → Step (Option Decision)
unfolding resolve_decision
answer_decision id answer resolver now = resolve_decision id (answering answer resolver now)

unfoldable pub withdraw_decision :
    ℕ → (resolver : String) → (now : Option ℕ) → Step (Option Decision)
unfolding resolve_decision
withdraw_decision id resolver now = resolve_decision id (withdrawing resolver now)

unfoldable pub get_decision : ℕ → Desk → Option Decision
unfolding find_decision
get_decision id k = find_decision id k.decisions

abbrev pub in_stream : Option String → String → Bool
in_stream none w = true
in_stream (some v) w = str_eq v w

-- The rows stand in the order of `seq`.
unfoldable pub open_decisions : Option String → Desk → List Decision
open_decisions workstream k =
    keep (λ (d : Decision). still_open d.status && in_stream workstream d.workstream) k.decisions

unfoldable pub open_digest : Option String → Desk → ℕ × List Decision
unfolding open_decisions
open_digest workstream k = let items = open_decisions workstream k in (length items, items)
