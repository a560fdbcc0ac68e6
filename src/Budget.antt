-- ===== src/Budget.antt =====
-- runtime/budget.py: the caps of a workstream, what it has spent, and the zone of a pending call.
-- Money is in micro-dollars and a fraction is in millionths, so the rounding of the source's floats
-- is not modelled: a fraction `used / cap` is compared with a threshold by multiplying out.
pub mod Gate
pub mod Reserved
pub mod Passes
pub mod Amounts
pub mod Room
pub mod Flights
use ai_studio.Prelude.{
  ℕ, ◌+◌, ◌-◌, ◌*◌, String, Bool, true, false, Option, none, some, List, [], ◌∷◌, ◌++◌, ◌==◌, ◌&&◌,
  ◌||◌, not, any, keep, find?, leb, ltb, str_eq, is_none, if◌then◌else◌,
}
use ai_studio.Policy.{BudgetContext, would_exceed}

-- `VALID_PERIODS`; any other text raises.
pub data Period : Type 0 where
  daily monthly rolling_30d all_time : Period

unfoldable pub period_text : Period → String
period_text daily = "daily"
period_text monthly = "monthly"
period_text rolling_30d = "rolling_30d"
period_text all_time = "all_time"

-- The place in the order of the texts.
unfoldable pub period_rank : Period → ℕ
period_rank all_time = 0
period_rank daily = 1
period_rank monthly = 2
period_rank rolling_30d = 3

abbrev pub org_workstream : String
org_workstream = "__org__"

-- A row of `budgets`: `Budget`, and the cushion of the calls in flight.
pub record Budget : Type 0 where
  pub workstream : String
  pub period : Period
  pub cap_usd : Option ℕ
  pub cap_tokens : Option ℕ
  pub warn_frac : Option ℕ
  pub throttle_frac : Option ℕ
  pub reserve_frac : Option ℕ
  pub reserved_usd : ℕ
  pub reserved_tokens : ℕ

-- A `model.call` event, as far as the budget reads it; `tokens` is input and output together.
pub record ModelCall : Type 0 where
  pub ts : ℕ
  pub workstream : String
  pub cost_usd : ℕ
  pub tokens : ℕ

pub record Spend : Type 0 where
  pub cost_usd : ℕ
  pub tokens : ℕ
  pub calls : ℕ

-- `date_trunc('day', t)` and `date_trunc('month', t)` of the database.
pub record Calendar : Type 0 where
  pub day_start : ℕ → ℕ
  pub month_start : ℕ → ℕ

-- 30 days, in microseconds.
abbrev pub thirty_days : ℕ
thirty_days = 2592000000000

-- `_window_clause`: the first moment of the window.
unfoldable pub window_start : Calendar → Period → ℕ → ℕ
window_start cal daily now = cal.day_start now
window_start cal monthly now = cal.month_start now
window_start cal rolling_30d now = now - thirty_days
window_start cal all_time now = 0

-- WHERE type = 'model.call' AND workstream = %s AND ts in the window; the workstream is optional.
unfoldable pub counted : Option String → ℕ → ModelCall → Bool
counted none start c = leb start c.ts
counted (some w) start c = str_eq c.workstream w && leb start c.ts

abbrev pub total : (ModelCall → ℕ) → (ModelCall → Bool) → List ModelCall → ℕ
total f p [] = 0
total f p (c ∷ cs) = (if p c then f c else 0) + total f p cs

abbrev pub sum_calls : (ModelCall → Bool) → List ModelCall → Spend
sum_calls p cs = record {
  cost_usd = total (λ c. c.cost_usd) p cs;
  tokens = total (λ c. c.tokens) p cs;
  calls = total (λ c. 1) p cs;
}

-- `_spent_in_tx`, which `spent` and `org_spent` agree with.
unfoldable pub spent_in : Calendar → Option String → Period → ℕ → List ModelCall → Spend
spent_in cal workstream period now calls =
    sum_calls (counted workstream (window_start cal period now)) calls

unfoldable pub is_org : String → Bool
is_org workstream = str_eq workstream org_workstream

-- The org ceiling counts the calls of all workstreams.
abbrev pub scope_of : String → Option String
scope_of workstream = if is_org workstream then none else some workstream

pub record BudgetStatus : Type 0 where
  pub row : Budget
  pub spend : Spend
  pub est_usd : ℕ
  pub est_tokens : ℕ
  pub held_usd : ℕ
  pub held_tokens : ℕ

-- `status`: outside the gate there is no cushion.
unfoldable pub status : Calendar → ℕ → List ModelCall → Budget → ℕ → ℕ → BudgetStatus
status cal now calls b est_usd est_tokens = record {
  row = b;
  spend = spent_in cal (scope_of b.workstream) b.period now calls;
  est_usd = est_usd;
  est_tokens = est_tokens;
  held_usd = 0;
  held_tokens = 0;
}

-- The row as the gate reads it, cushion included.
unfoldable pub gated_status : Calendar → ℕ → List ModelCall → ℕ → ℕ → Budget → BudgetStatus
gated_status cal now calls est_usd est_tokens b = record {
  row = b;
  spend = spent_in cal (scope_of b.workstream) b.period now calls;
  est_usd = est_usd;
  est_tokens = est_tokens;
  held_usd = b.reserved_usd;
  held_tokens = b.reserved_tokens;
}

-- `BudgetStatus.context`
unfoldable pub context : BudgetStatus → BudgetContext
context st = record {
  spent_tokens = st.spend.tokens;
  budget_tokens = st.row.cap_tokens;
  estimated_tokens = st.est_tokens + st.held_tokens;
  spent_usd = st.spend.cost_usd;
  budget_usd = st.row.cap_usd;
  estimated_usd = st.est_usd + st.held_usd;
}

-- A cap above zero has a fraction.
abbrev pub ratio : Option ℕ → ℕ → List (ℕ × ℕ)
ratio none used = []
ratio (some cap) used = if ltb 0 cap then (used, cap) ∷ [] else []

-- `fraction`: the ratios whose maximum it is; no ratio is the source's None.
unfoldable pub ratios : BudgetStatus → List (ℕ × ℕ)
ratios st =
    ratio st.row.cap_usd (st.spend.cost_usd + st.held_usd + st.est_usd)
    ++ ratio st.row.cap_tokens (st.spend.tokens + st.held_tokens + st.est_tokens)

abbrev pub at_least : ℕ → ℕ × ℕ → Bool
at_least threshold (used, cap) = leb (threshold * cap) (used * 1000000)

-- `frac >= threshold`, where the threshold is set and some ratio reaches it.
unfoldable pub reached : Option ℕ → BudgetStatus → Bool
reached none st = false
reached (some threshold) st = any (at_least threshold) (ratios st)

pub data Zone : Type 0 where
  fine warn throttle reserve over : Zone

-- `BudgetStatus.zone`
unfoldable pub zone : BudgetStatus → Zone
zone st =
    if would_exceed (context st)
    then over
    else if reached st.row.reserve_frac st
    then reserve
    else if reached st.row.throttle_frac st
    then throttle
    else if reached st.row.warn_frac st
    then warn
    else fine

abbrev pub is_row : String → Period → Budget → Bool
is_row workstream period b =
    str_eq b.workstream workstream && period_rank b.period == period_rank period

-- The columns that an upsert sets; the cushion stays.
pub record Caps : Type 0 where
  pub cap_usd : Option ℕ
  pub cap_tokens : Option ℕ
  pub warn_frac : Option ℕ
  pub throttle_frac : Option ℕ
  pub reserve_frac : Option ℕ

abbrev pub capped_by : Caps → Budget → Budget
capped_by c b = record b {
  cap_usd = c.cap_usd;
  cap_tokens = c.cap_tokens;
  warn_frac = c.warn_frac;
  throttle_frac = c.throttle_frac;
  reserve_frac = c.reserve_frac;
}

-- `set_budget`: INSERT … ON CONFLICT (workstream, period) DO UPDATE.
unfoldable pub set_budget : String → Period → Caps → List Budget → List Budget
set_budget workstream period c [] =
    capped_by c (record {
      workstream = workstream;
      period = period;
      cap_usd = none;
      cap_tokens = none;
      warn_frac = none;
      throttle_frac = none;
      reserve_frac = none;
      reserved_usd = 0;
      reserved_tokens = 0;
    })
    ∷ []
set_budget workstream period c (b ∷ rows) =
    if is_row workstream period b
    then capped_by c b ∷ rows
    else b ∷ set_budget workstream period c rows

unfoldable pub get_budget : String → Period → List Budget → Option Budget
get_budget workstream period rows = find? (is_row workstream period) rows

-- `remaining` and `budget_context`
unfoldable pub remaining :
    Calendar → ℕ → List ModelCall → List Budget → String → Period → Option BudgetStatus
remaining cal now calls rows workstream period = elim (get_budget workstream period rows) [
  | none ↦ none
  | some b ↦ some (status cal now calls b 0 0)
]

unfoldable pub budget_context :
    Calendar
    → ℕ
    → List ModelCall
    → List Budget
    → String
    → Period
    → (tokens usd : ℕ) → Option BudgetContext
budget_context cal now calls rows workstream period tokens usd =
    elim (get_budget workstream period rows) [
      | none ↦ none
      | some b ↦ some (context (status cal now calls b usd tokens))
    ]
