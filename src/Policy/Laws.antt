-- ===== src/Policy/Laws.antt =====
-- The decision on a tool call, characterised.
use ai_studio.Prelude.{
  Option, none, some, ◌+◌, ◌≤◌, ℕ, Bool, true, false, List, [], ◌∷◌, ◌≡◌, ◌≢◌, inl, inr, ◌↔◌, refl,
  arith, not, keep, Bool-cases, In,
}
use ai_studio.Capabilities.{Capability, ActionTier, green, yellow, red, effective_tier}
use ai_studio.Policy.{
  would_exceed, over, BudgetContext, allow, deny, PolicyRequest, PolicyConfig, granted, has,
  missing, over_budget, after_grants, by_tier, decide, IsGranted,
}

keep-empty :
    {A : Type 0} (p : A → Bool) (xs : List A) → keep p xs ≡ [] → (a : A) → In a xs → p a ≡ false
keep-empty p [] h a m = absurd m
keep-empty p (x ∷ xs) h a m = elim (Bool-cases (p x)) [
  | inl e ↦ let bad : x ∷ keep p xs ≡ [] = rw e at h in cc
  | inr e ↦ elim m [ inl same ↦ rw same e | inr m ↦ keep-empty p xs (rw e at h) a m ]
]

empty-keep :
    {A : Type 0} (p : A → Bool) (xs : List A) → ((a : A) → In a xs → p a ≡ false) → keep p xs ≡ []
empty-keep p [] h = refl
empty-keep p (x ∷ xs) h = rw (h x (inl refl)) (empty-keep p xs (λ a m. h a (inr m)))

missing-IsGranted :
    (config : PolicyConfig) (request : PolicyRequest)
    → (missing config request ≡ []) ↔ IsGranted config request
unfolding missing
missing-IsGranted config request = (
  λ h c m.
      let e =
        keep-empty (λ c. not (has (granted config request.role) c)) request.required_capabilities h
          c m in
      ground arith,
  λ g. empty-keep _ request.required_capabilities (λ c m. let e = g c m in rw e refl),
)

-- The answer of a tier, where nothing is missing and no budget is exceeded.
by_tier-effect :
    (request : PolicyRequest) (tier : ActionTier)
    → ((by_tier tier request).effect ≡ allow ↔ (tier ≢ red))
      × ((by_tier tier request).effect ≢ deny)
by_tier-effect request red = ((λ h. cc, λ h. absurd (h refl)), λ h. cc)
by_tier-effect request yellow = ((λ h. λ e. cc, λ h. refl), λ h. cc)
by_tier-effect request green = ((λ h. λ e. cc, λ h. refl), λ h. cc)

-- The decision from the capabilities that are missing and the tier.
after_grants-effect :
    (absent : List Capability) (request : PolicyRequest) (tier : ActionTier)
    → ((after_grants absent request tier).effect ≡ allow
        ↔ ((absent ≡ []) × (over_budget request.budget ≡ false) × (tier ≢ red)))
      × ((after_grants absent request tier).effect ≡ deny ↔ (¬ (absent ≡ [])))
after_grants-effect (c ∷ cs) request tier = ((λ h. cc, λ (n, b, r). cc), (λ h. λ e. cc, λ h. refl))
after_grants-effect [] request tier = elim (Bool-cases (over_budget request.budget)) [
  | inl e ↦ rw e ((λ h. cc, λ (n, b, r). cc), (λ h. cc, λ h. absurd (h refl)))
  | inr e ↦
      let (may, never) = by_tier-effect request tier in
      rw e (
        (λ h. (refl, refl, may.0 h), λ (n, b, r). may.1 r),
        (λ h. absurd (never h), λ h. absurd (h refl)),
      )
]

-- A call is allowed exactly when every required capability is granted to the role, no budget would
-- be exceeded and the effective tier is not red; it is denied exactly when a capability is not
-- granted. So a call that would exceed its budget, or whose effective tier is red, is never allowed.
pub decide-effect_iff :
    (request : PolicyRequest) (config : PolicyConfig)
    → ((decide request config).effect ≡ allow ↔ (
        IsGranted config request
        × (over_budget request.budget ≡ false)
        × (effective_tier config.tier_overrides request.required_capabilities ≢ red)))
      × ((decide request config).effect ≡ deny ↔ (¬ IsGranted config request))
unfolding decide
decide-effect_iff request config =
    let tier = effective_tier config.tier_overrides request.required_capabilities in
    let (may, not_may) = after_grants-effect (missing config request) request tier in
    let (to, from) = missing-IsGranted config request in
    (
      (λ h. let (m, b, r) = may.0 h in (to m, b, r), λ (g, b, r). may.1 (from g, b, r)),
      (λ h g. not_may.0 h (from g), λ n. not_may.1 (λ m. n (to m))),
    )

-- What is not denied is granted.
pub decide-granted :
    (request : PolicyRequest) (config : PolicyConfig)
    → (decide request config).effect ≢ deny
    → IsGranted config request
unfolding decide
decide-granted request config h = missing_case (missing config request) refl
  where
    missing_case : (m : List Capability) → missing config request ≡ m → IsGranted config request
    missing_case [] e = (missing-IsGranted config request).0 e
    missing_case (c ∷ cs) e = absurd (h (rw e refl))

-- No cap would be exceeded, resource by resource.
pub would_exceed-false :
    (b : BudgetContext)
    → would_exceed b ≡ false
    → (over b.budget_tokens b.spent_tokens b.estimated_tokens ≡ false)
      × (over b.budget_usd b.spent_usd b.estimated_usd ≡ false)
unfolding would_exceed
would_exceed-false b h =
    elim (Bool-cases (over b.budget_tokens b.spent_tokens b.estimated_tokens)) [
      | inl e ↦ let bad : true ≡ false = rw e at h in cc
      | inr e ↦ (e, rw e at h)
    ]

pub over-false :
    (cap : Option ℕ) (c spent estimated : ℕ)
    → cap ≡ some c
    → over cap spent estimated ≡ false
    → spent + estimated ≤ c
over-false none c spent estimated k h = cc
over-false (some x) c spent estimated k h = ground arith
