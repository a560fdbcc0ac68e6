-- ===== src/Budget/Gate.antt =====
-- runtime/budget.py: `enforce`, the gate before a model call, and `release_reservation`. The gate
-- reads, decides and reserves in one transaction, and emits its events after it.
use Prim.Native.String.{◌++◌ as concat}
use ai_studio.Prelude.{
  ℕ, ◌+◌, ◌-◌, String, Bool, true, false, Option, none, some, List, [], ◌∷◌, ◌++◌, ◌==◌, ◌&&◌, ◌||◌,
  not, keep, find?, map, str_eq, is_none, if◌then◌else◌, Result, ok, err,
}
use ai_studio.Policy.{exceed_reason, raise_budget}
use ai_studio.Approvals.{
  Host, Store, Approval, ApprovalAction, request_approval, ValueError, blank_workstream,
}
use ai_studio.Budget.{
  Period, daily, monthly, rolling_30d, all_time, period_text, period_rank, is_org, Budget,
  ModelCall, Calendar, BudgetStatus, gated_status, context, Zone, fine, reserve, over, zone,
}

-- `VALID_PURPOSES`; any other text raises.
pub data Purpose : Type 0 where
  normal wind_down escalation : Purpose

-- `RESERVE_PURPOSES`
abbrev pub may_reserve : Purpose → Bool
may_reserve normal = false
may_reserve wind_down = true
may_reserve escalation = true

-- The events of the gate: `budget.exceeded`, `budget.checkpoint`, and those of the other zones.
pub data EventBody : Type 0 where
  exceeded checkpoint : BudgetStatus → EventBody
  zoned : Zone → Purpose → BudgetStatus → EventBody

pub record BudgetEvent : Type 0 where
  pub workstream : String
  pub task_id : Option ℕ
  pub body : EventBody

-- The tables that the gate reads and writes: `budgets`, the `model.call` events, and the store of
-- approvals. The gate's own events stand apart from those of the approvals.
pub record Books : Type 0 where
  pub rows : List Budget
  pub calls : List ModelCall
  pub clock : ℕ
  pub events : List BudgetEvent
  pub store : Store

pub record Request : Type 0 where
  pub workstream : String
  pub est_usd : ℕ
  pub est_tokens : ℕ
  pub purpose : Purpose
  pub role : String
  pub task_id : Option ℕ

-- What the gate takes from outside: the host of the fingerprints, the calendar, whether the
-- database sorts the org row before a workstream's, and which events the sink takes; it raises
-- at any other.
pub record Setting : Type 0 where
  pub host : Host
  pub calendar : Calendar
  pub org_first : String → Bool
  pub accepts : BudgetEvent → Bool

pub data BudgetError : Type 0 where
  over_budget : BudgetStatus → BudgetError
  sink_failed : BudgetEvent → BudgetError
  raised : ValueError → BudgetError  -- of `make_event`, here or in the request for an approval

-- WHERE workstream = ANY([workstream, org])
unfoldable pub in_scope : String → Budget → Bool
in_scope workstream b = str_eq b.workstream workstream || is_org b.workstream

unfoldable pub is_capped : Budget → Bool
is_capped b = not (is_none b.cap_usd && is_none b.cap_tokens)

-- A sort by key, where the keys are listed in their order.
abbrev pub buckets : {K A : Type 0} → (K → A → Bool) → List K → List A → List A
buckets fits [] xs = []
buckets fits (k ∷ ks) xs = keep (fits k) xs ++ buckets fits ks xs

abbrev pub fits_key : Bool × Period → BudgetStatus → Bool
fits_key (true, p) st = is_org st.row.workstream && period_rank st.row.period == period_rank p
fits_key (false, p) st =
    not (is_org st.row.workstream) && period_rank st.row.period == period_rank p

abbrev pub own_keys : List (Bool × Period)
own_keys = (false, all_time) ∷ (false, daily) ∷ (false, monthly) ∷ (false, rolling_30d) ∷ []

abbrev pub org_keys : List (Bool × Period)
org_keys = (true, all_time) ∷ (true, daily) ∷ (true, monthly) ∷ (true, rolling_30d) ∷ []

-- The workstream's own caps, then the org's.
unfoldable pub ordered : List BudgetStatus → List BudgetStatus
ordered entries = buckets fits_key (own_keys ++ org_keys) entries

-- ORDER BY workstream, period
abbrev pub lock_order : Bool → List BudgetStatus → List BudgetStatus
lock_order true entries = buckets fits_key (org_keys ++ own_keys) entries
lock_order false entries = ordered entries

-- The caps that constrain the call, as the locked read gives them.
unfoldable pub entries_of : Setting → Request → Books → List BudgetStatus
entries_of g q b = lock_order (g.org_first q.workstream) (
    map (gated_status g.calendar b.clock b.calls q.est_usd q.est_tokens)
      (keep (λ r. in_scope q.workstream r && is_capped r) b.rows))

unfoldable pub is_over : BudgetStatus → Bool
unfolding zone
is_over st = elim (zone st) [ over ↦ true | _ ↦ false ]

unfoldable pub is_reserve : BudgetStatus → Bool
unfolding zone
is_reserve st = elim (zone st) [ reserve ↦ true | _ ↦ false ]

pub data Verdict : Type 0 where
  unconstrained allowed : Verdict
  blocked withheld : BudgetStatus → Verdict

abbrev pub judge_reserve : Purpose → Option BudgetStatus → Verdict
judge_reserve purpose none = allowed
judge_reserve purpose (some st) = if may_reserve purpose then allowed else withheld st

abbrev pub judge_over : Purpose → List BudgetStatus → Option BudgetStatus → Verdict
judge_over purpose entries (some st) = blocked st
judge_over purpose entries none = judge_reserve purpose (find? is_reserve (ordered entries))

unfoldable pub judge : Purpose → List BudgetStatus → Verdict
judge purpose [] = unconstrained
judge purpose (e ∷ es) = judge_over purpose (e ∷ es) (find? is_over (ordered (e ∷ es)))

abbrev pub hold : Request → Budget → Budget
hold q b = record b {
  reserved_usd = b.reserved_usd + q.est_usd;
  reserved_tokens = b.reserved_tokens + q.est_tokens;
}

-- The UPDATE that reserves the estimate on every capped row of the scope.
unfoldable pub reserve_rows : Request → List Budget → List Budget
reserve_rows q rows =
    if q.est_usd == 0 && q.est_tokens == 0
    then rows
    else map (λ r. if in_scope q.workstream r && is_capped r then hold q r else r) rows

-- GREATEST(reserved - estimate, 0)
abbrev pub drop_hold : ℕ → ℕ → Budget → Budget
drop_hold usd tokens b = record b {
  reserved_usd = b.reserved_usd - usd;
  reserved_tokens = b.reserved_tokens - tokens;
}

-- `release_reservation`: every row of the scope, capped or not.
unfoldable pub release_rows : String → (usd tokens : ℕ) → List Budget → List Budget
release_rows workstream usd tokens rows =
    if usd == 0 && tokens == 0
    then rows
    else map (λ r. if in_scope workstream r then drop_hold usd tokens r else r) rows

unfoldable pub release_reservation : String → (usd tokens : ℕ) → Books → Books
release_reservation workstream usd tokens b = record b {
  rows = release_rows workstream usd tokens b.rows;
}

-- `sink.emit(make_event(...))` returns: the event has a workstream, and the sink takes it.
unfoldable pub takes : Setting → BudgetEvent → Bool
takes g e = not (str_eq e.workstream "") && g.accepts e

abbrev pub failure : BudgetEvent → BudgetError
failure e = if str_eq e.workstream "" then raised blank_workstream else sink_failed e

abbrev pub send : Setting → BudgetEvent → Books → Result BudgetError (Unit {0}) × Books
send g e b =
    if takes g e then (ok tt, record b { events = b.events ++ e ∷ [] }) else (err (failure e), b)

abbrev pub event_of : Request → EventBody → BudgetEvent
event_of q body = record { workstream = q.workstream; task_id = q.task_id; body = body }

-- The event of an allowed call in a zone (`_ZONE_EVENT`).
abbrev pub zone_body : Purpose → Zone → BudgetStatus → EventBody
zone_body purpose fine st = checkpoint st
zone_body purpose z st = zoned z purpose st

-- The loop over the events; it stops where one raises.
unfoldable pub send_zones :
    Setting → Request → List BudgetStatus → Books → Result BudgetError (Unit {0}) × Books
unfolding zone takes
send_zones g q [] b = (ok tt, b)
send_zones g q (st ∷ rest) b =
    let e = event_of q (zone_body q.purpose (zone st) st) in
    let more = send_zones g q rest (record b { events = b.events ++ e ∷ [] }) in
    if takes g e then more else (err (failure e), b)

-- `_budget_fingerprint`
unfoldable pub budget_fingerprint : Host → String → Period → String
budget_fingerprint host workstream period =
    host.sha256 (concat "budget|" (concat workstream (concat "|" (period_text period))))

abbrev pub raise_action : Request → BudgetStatus → ApprovalAction
raise_action q st = record {
  task_id = q.task_id;
  role = q.role;
  tool = "model.call";
  capabilities = [];
  tier = "🛑";
  reason = raise_budget st.row.workstream (period_text st.row.period) (exceed_reason (context st));
}

abbrev pub ask_more : Setting → Request → BudgetStatus → Books → Result ValueError Approval × Store
ask_more g q st b =
    request_approval g.host (raise_action q st) q.workstream
      (some (budget_fingerprint g.host st.row.workstream st.row.period)) [] b.store

abbrev pub Answer : Type 0
Answer = Result BudgetError (List BudgetStatus) × Books

abbrev pub after_asking : BudgetStatus → Books → Result ValueError Approval × Store → Answer
after_asking st b (ok a, store) = (err (over_budget st), record b { store = store })
after_asking st b (err e, store) = (err (raised e), record b { store = store })

abbrev pub after_exceeded :
    Setting → Request → BudgetStatus → Result BudgetError (Unit {0}) × Books → Answer
after_exceeded g q st (ok u, b) = after_asking st b (ask_more g q st b)
after_exceeded g q st (err e, b) = (err e, b)

abbrev pub after_withheld : BudgetStatus → Result BudgetError (Unit {0}) × Books → Answer
after_withheld st (ok u, b) = (err (over_budget st), b)
after_withheld st (err e, b) = (err e, b)

-- An event that raises after the reservation: it is released, and the exception goes on.
abbrev pub after_zones :
    Request → List BudgetStatus → Result BudgetError (Unit {0}) × Books → Answer
after_zones q entries (ok u, b) = (ok entries, b)
after_zones q entries (err e, b) =
    (err e, release_reservation q.workstream q.est_usd q.est_tokens b)

abbrev pub act : Setting → Request → List BudgetStatus → Books → Verdict → Answer
act g q entries b unconstrained = (ok [], b)
act g q entries b (blocked st) = after_exceeded g q st (send g (event_of q (exceeded st)) b)
act g q entries b (withheld st) =
    after_withheld st (send g (event_of q (zoned reserve q.purpose st)) b)
act g q entries b allowed =
    after_zones q entries
      (send_zones g q (ordered entries) (record b { rows = reserve_rows q b.rows }))

unfoldable pub enforce : Setting → Request → Books → Answer
enforce g q b = let entries = entries_of g q b in act g q entries b (judge q.purpose entries)
