-- ===== src/Examples/Relay.antt =====
-- Tests of spokesman/grounding_gate.py, over a small stand-in for Python's texts.
use ai_studio.Prelude.{
  String, true, false, none, some, List, [], ◌∷◌, ◌≡◌, refl, str_eq, ok, err, if◌then◌else◌,
}
use ai_studio.TaskState.{of_wire}
use ai_studio.Tasks.Grab.{find_trust, fenced}
use ai_studio.Trust.{
  get_trust, ensure_trust, update_trust, struck, is_relay_allowed, record_strike, record_claim,
  record_proof_request, set_claim_verification, verdict_of, get_claim, update_claim,
}
use ai_studio.Trust.Calls.{opened, strike, run}
use ai_studio.Grounding.{EvidenceRef, Claim, task, db_row, validate_claim, no_evidence}
use ai_studio.Relay.Sources.{TextLib, Answers}
use ai_studio.Relay.Resolve.{column, parse_parts, row_found, resolve_ref, resolve_task}
use ai_studio.Relay.{
  Studio, Host, Message, alarm, relay, fact, verdict_on, verify_claim, task_ids, approvers_of,
  others, strike_all, cascade, relay_claim, relay_each, send, relay_claims, Summary, withheld,
  verified, rejected,
}
use ai_studio.Relay.Sent.{Told, relay_claims-Told}
use ai_studio.Relay.Revokes.{relay_claims-revokes}

abbrev lib : TextLib
lib = record {
  strip = λ s. s;
  lower = λ s. s;
  partition =
      λ s sep. if str_eq s "status=merged" then ("status", true, "merged") else (s, false, "");
  rpartition = λ s sep. ("", false, s);
  split_commas = λ s. s ∷ "rubbish" ∷ [];
  drop_prefix = λ p s. none;
  is_digits = λ s. false;
  is_name = λ s. true;
  chars = λ s. [];
  uuid = λ s. if str_eq s "t1" then some 1 else none;
  int = λ s. none;
  sorted = λ xs. xs;
}

abbrev answers : Answers
answers = record {
  event_by_seq = λ n. none;
  event_by_id = λ n. none;
  task_status = λ id. some (some "in_progress");
  row = λ t c v. none;
  metric = λ s. none;
  exists = λ s. false;
  digest = λ s. none;
}

abbrev host : Host
host = record {
  lib = lib;
  ask = λ s. answers;
  blank = λ s. str_eq s "";
  dump = λ r. r.locator;
  render = λ w. "";
}

abbrev claim_of : String → Claim
claim_of want = record {
  statement = want;
  evidence = record { kind = task; locator = "t1"; expected = some want } ∷ [];
  is_judgment = false;
}

abbrev studio : Studio
studio = record { ledger = opened 0; hops = []; sent = [] }

unsupported :
    validate_claim host.blank (record { statement = "x"; evidence = []; is_judgment = false })
    ≡ err no_evidence
unfolding validate_claim
unsupported = refl

evaluation : Unit {0}
unfolding opened relay_claims relay_each relay_claim send cascade verify_claim verdict_on
    resolve_ref resolve_task get_trust ensure_trust update_trust struck is_relay_allowed
    record_strike record_claim record_proof_request set_claim_verification verdict_of get_claim
    update_claim find_trust fenced of_wire strike_all others task_ids approvers_of
evaluation = tt

abbrev told : List Claim → List Message
told cs = (relay_claims host "report" "w" cs none studio).1.sent

told_truth : told (claim_of "in_progress" ∷ []) ≡ relay "report" (fact "in_progress" ∷ []) ∷ []
unfolding evaluation
told_truth = refl

told_lie : told (claim_of "in_progress" ∷ claim_of "merged" ∷ []) ≡ alarm "w" ∷ []
unfolding evaluation
told_lie = refl

abbrev batch : List Claim
batch = claim_of "in_progress" ∷ claim_of "merged" ∷ []

relay_claims-Told_example :
    Told host "report" "w" batch none studio (relay_claims host "report" "w" batch none studio)
relay_claims-Told_example = relay_claims-Told host "report" "w" batch none studio

abbrev lied : Studio
lied = (relay_claims host "report" "w" batch none studio).1

abbrev summary : Summary
summary = record {
  blocked = true;
  escalated = true;
  relayed = [];
  claims = some verified ∷ some rejected ∷ [];
}

lied_eq : relay_claims host "report" "w" batch none studio ≡ (ok summary, lied)
unfolding evaluation
lied_eq = refl

abbrev late : Studio
late = record lied { ledger = run host.blank (strike "v" none "late" none ∷ []) lied.ledger }

relay_claims-revokes_example :
    ((relay_claims host "answer" "w" (claim_of "in_progress" ∷ []) none late).0 ≡ ok withheld)
    × ((relay_claims host "answer" "w" (claim_of "in_progress" ∷ []) none late).1.sent ≡ late.sent)
relay_claims-revokes_example =
    relay_claims-revokes host "w" refl refl "report" batch none studio summary lied lied_eq refl
      (strike "v" none "late" none ∷ []) "answer" (claim_of "in_progress" ∷ []) none

abbrev ref : EvidenceRef
ref = record { kind = db_row; locator = "tasks:1"; expected = some "status=merged" }

abbrev stored : List (String × String)
stored = ("status", "claimed") ∷ []

-- The segment that cannot be read does not hide the one that differs.
lie_found : (row_found lib answers ref (some stored)).contradicted ≡ true
unfolding row_found parse_parts column
lie_found = refl
