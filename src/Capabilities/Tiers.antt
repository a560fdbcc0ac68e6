-- ===== src/Capabilities/Tiers.antt =====
-- The effective tier is the most restrictive one among the capabilities.
use ai_studio.Prelude.{
  ◌≤◌, List, [], ◌∷◌, ◌≡◌, ◌⊎◌, inl, inr, refl, arith, In, ltb, Bool-cases, if◌then◌else◌,
}
use ai_studio.Capabilities.{
  Capability, ActionTier, green, tier_rank, Overrides, tier_for_capability, restrict,
  effective_tier,
}

module _ (overrides : Overrides) where
  abbrev tier : Capability → ActionTier
  tier = tier_for_capability overrides

  -- The loop's result is no less restrictive than where it starts, nor than any capability seen.
  restrict-start :
      (t : ActionTier) (caps : List Capability)
      → tier_rank t ≤ tier_rank (restrict overrides t caps)
  unfolding restrict
  restrict-start t [] = omega arith
  restrict-start t (c ∷ caps) = elim (Bool-cases (ltb (tier_rank t) (tier_rank (tier c)))) [
    | inl e ↦ rw e (let ih = restrict-start (tier c) caps in ground arith)
    | inr e ↦ rw e (restrict-start t caps)
  ]

  restrict-bound :
      (t : ActionTier) (caps : List Capability) (c : Capability)
      → In c caps
      → tier_rank (tier c) ≤ tier_rank (restrict overrides t caps)
  unfolding restrict
  restrict-bound t [] c m = absurd m
  restrict-bound t (x ∷ caps) c (inr m) =
      restrict-bound (if ltb (tier_rank t) (tier_rank (tier x)) then tier x else t) caps c m
  restrict-bound t (x ∷ caps) c (inl same) =
      elim (Bool-cases (ltb (tier_rank t) (tier_rank (tier x)))) [
        | inl e ↦ rw e (rw same (restrict-start (tier x) caps))
        | inr e ↦ rw e (let ih = restrict-start t caps in rw same (ground arith))
      ]

  -- It is where the loop starts, or the tier of a capability seen.
  restrict-attained :
      (t : ActionTier) (caps : List Capability)
      → (restrict overrides t caps ≡ t)
        ⊎ ((c : Capability) × In c caps × (restrict overrides t caps ≡ tier c))
  unfolding restrict
  restrict-attained t [] = inl refl
  restrict-attained t (x ∷ caps) = elim (Bool-cases (ltb (tier_rank t) (tier_rank (tier x)))) [
    | inl e ↦ rw e (elim (restrict-attained (tier x) caps) [
      | inl h ↦ inr (x, inl refl, h)
      | inr (c, m, h) ↦ inr (c, inr m, h)
    ])
    | inr e ↦
        rw e (elim (restrict-attained t caps) [ inl h ↦ inl h | inr (c, m, h) ↦ inr (c, inr m, h) ])
  ]

  -- The effective tier is at least as restrictive as the tier of every capability, overrides
  -- included, and it is green or the tier of one of them.
  pub effective_tier_max :
      (caps : List Capability)
      → ((c : Capability)
          → In c caps
          → tier_rank (tier c) ≤ tier_rank (effective_tier overrides caps))
        × ((effective_tier overrides caps ≡ green)
            ⊎ ((c : Capability) × In c caps × (effective_tier overrides caps ≡ tier c)))
  unfolding effective_tier
  effective_tier_max caps = (restrict-bound green caps, restrict-attained green caps)
