-- ===== src/Policy.antt =====
-- runtime/policy.py: the decision on one tool call. Amounts of money are in micro-dollars, so the
-- rounding of the source's floats is not modelled; a reason is data instead of a sentence.
pub mod Laws
use ai_studio.Prelude.{
  ℕ, ◌+◌, ◌≤◌, ◌<◌, String, Bool, true, false, Option, none, some, List, [], ◌∷◌, ◌≡◌, ◌≢◌, ◌⊎◌,
  inl, inr, ◌↔◌, refl, arith, ◌&&◌, ◌||◌, not, any, all, keep, ltb, str_eq, if◌then◌else◌,
  Bool-cases, In,
}
use ai_studio.Capabilities.{
  Capability, cap_eq, ActionTier, green, yellow, red, Overrides, effective_tier,
}

pub data Effect : Type 0 where
  allow deny needs_approval : Effect

pub record BudgetContext : Type 0 where
  pub spent_tokens : ℕ
  pub budget_tokens : Option ℕ
  pub estimated_tokens : ℕ
  pub spent_usd : ℕ
  pub budget_usd : Option ℕ
  pub estimated_usd : ℕ

-- `budget is not None and spent + estimated > budget`
abbrev pub over : Option ℕ → ℕ → ℕ → Bool
over none spent estimated = false
over (some budget) spent estimated = ltb budget (spent + estimated)

unfoldable pub would_exceed : BudgetContext → Bool
would_exceed b =
    if over b.budget_tokens b.spent_tokens b.estimated_tokens
    then true
    else over b.budget_usd b.spent_usd b.estimated_usd

-- Why a call, or an approval that is asked for, is as it is.
pub data Reason : Type 0 where
  lacks : List Capability → Reason
  budget_exceeded : (tokens usd : Bool) → Reason
  red_tier yellow_tier green_tier unknown_tool : Reason
  raise_budget : (workstream period : String) → Reason → Reason

-- `exceed_reason`: which caps would be broken.
unfoldable pub exceed_reason : BudgetContext → Reason
exceed_reason b =
    budget_exceeded (over b.budget_tokens b.spent_tokens b.estimated_tokens)
      (over b.budget_usd b.spent_usd b.estimated_usd)

pub record PolicyRequest : Type 0 where
  pub role : String
  pub tool : String
  pub required_capabilities : List Capability
  pub budget : Option BudgetContext

pub record Decision : Type 0 where
  pub effect : Effect
  pub tier : ActionTier
  pub reason : Reason
  pub role : String
  pub tool : String
  pub required_capabilities : List Capability
  pub missing_capabilities : List Capability
  pub logged : Bool

pub record PolicyConfig : Type 0 where
  pub roles : List (String × List Capability)
  pub tier_overrides : Overrides

abbrev pub grants_in : String → List (String × List Capability) → List Capability
grants_in role [] = []
grants_in role ((r, caps) ∷ rest) = if str_eq r role then caps else grants_in role rest

-- An unknown role is granted nothing.
unfoldable pub granted : PolicyConfig → String → List Capability
granted config role = grants_in role config.roles

unfoldable pub has : List Capability → Capability → Bool
has caps c = any (cap_eq c) caps

-- The set difference `required - granted`.
unfoldable pub missing : PolicyConfig → PolicyRequest → List Capability
missing config request =
    keep (λ c. not (has (granted config request.role) c)) request.required_capabilities

unfoldable pub over_budget : Option BudgetContext → Bool
over_budget none = false
over_budget (some b) = would_exceed b

abbrev pub reason_of : Option BudgetContext → Reason
reason_of none = budget_exceeded false false
reason_of (some b) = exceed_reason b

-- The fields that every answer shares.
abbrev pub common : Effect → Reason → Bool → List Capability → PolicyRequest → ActionTier → Decision
common effect reason logged absent request tier = record {
  effect = effect;
  tier = tier;
  reason = reason;
  role = request.role;
  tool = request.tool;
  required_capabilities = request.required_capabilities;
  missing_capabilities = absent;
  logged = logged;
}

abbrev pub by_tier : ActionTier → PolicyRequest → Decision
by_tier red request = common needs_approval red_tier false [] request red
by_tier yellow request = common allow yellow_tier true [] request yellow
by_tier green request = common allow green_tier false [] request green

abbrev pub after_grants : List Capability → PolicyRequest → ActionTier → Decision
after_grants (c ∷ cs) request tier = common deny (lacks (c ∷ cs)) false (c ∷ cs) request tier
after_grants [] request tier =
    if over_budget request.budget
    then common needs_approval (reason_of request.budget) false [] request tier
    else by_tier tier request

unfoldable pub decide : PolicyRequest → PolicyConfig → Decision
decide request config =
    after_grants (missing config request) request
      (effective_tier config.tier_overrides request.required_capabilities)

-- Every required capability is granted to the role.
abbrev pub IsGranted : PolicyConfig → PolicyRequest → Type 0
IsGranted config request =
    (c : Capability)
    → In c request.required_capabilities
    → has (granted config request.role) c ≡ true
