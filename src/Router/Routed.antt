-- ===== src/Router/Routed.antt =====
-- Which model a call is routed to.
use ai_studio.Prelude.{
  String, Bool, true, false, Option, none, some, List, [], ◌∷◌, ◌++◌, ◌≡◌, ◌⊎◌, inl, inr, refl,
  str_eq, or_else, arith, Bool-cases, Result, ok, err, ap, sym, ◌∙◌, subst,
}
use ai_studio.Policy.{BudgetContext}
use ai_studio.Router.{
  Tier, value, ModelSpec, look_up, Registry, RouteError, bad_quality, blank_workstream, no_mapping,
  unknown_tier, no_model, over_budget, tier_for, tier_of, cheaper_than, cheaper_tier, candidates,
  by_tier, first, first_present, first_available, RouteDecision, exceeds, is_quality, shifted,
  within, found, mapped, route_decision, logged, route, in_table, named_tier,
}

-- The first of a chain that the catalog has: no id before it is there.
pub data FirstOf (r : Registry) : List String → ModelSpec → Type 0 where
  here :
      (id : String) (ids : List String) (m : ModelSpec)
      → look_up id r.models ≡ some m
      → FirstOf r (id ∷ ids) m
  there :
      (id : String) (ids : List String) (m : ModelSpec)
      → look_up id r.models ≡ none
      → FirstOf r ids m
      → FirstOf r (id ∷ ids) m

-- No id of a chain is in the catalog.
abbrev pub Drifted : Registry → List String → Type 0
Drifted r [] = Unit {0}
Drifted r (id ∷ ids) = (look_up id r.models ≡ none) × Drifted r ids

-- What a search of a chain means.
abbrev pub Presents : Registry → List String → Option ModelSpec → Type 0
Presents r ids none = Drifted r ids
Presents r ids (some m) = FirstOf r ids m

first_present-Presents : (r : Registry) (ids : List String) → Presents r ids (first_present r ids)
unfolding first_present
first_present-Presents r [] = tt
first_present-Presents r (id ∷ ids) =
    at (look_up id r.models) refl (first_present r ids) (first_present-Presents r ids)
  where
    at :
        (o : Option ModelSpec)
        → look_up id r.models ≡ o
        → (rest : Option ModelSpec) → Presents r ids rest
        → Presents r (id ∷ ids) (or_else o rest)
    at (some m) e rest p = here id ids m e
    at none e none p = (e, p)
    at none e (some m) p = there id ids m e p

-- The model of a tier: the first of its chain that the catalog has, or where the catalog has none of
-- the chain, the first of the tier in the catalog.
abbrev pub Best : Registry → Tier → Option ModelSpec → Type 0
Best r t none = Drifted r (candidates r.policy t) × (first (by_tier r t) ≡ none)
Best r t (some m) =
    FirstOf r (candidates r.policy t) m
    ⊎ (Drifted r (candidates r.policy t) × (first (by_tier r t) ≡ some m))

first_available-Best : (r : Registry) (t : Tier) → Best r t (first_available r t)
unfolding first_available
first_available-Best r t =
    at (first_present r (candidates r.policy t)) (first_present-Presents r (candidates r.policy t))
      (first (by_tier r t)) refl
  where
    at :
        (o : Option ModelSpec)
        → Presents r (candidates r.policy t) o
        → (f : Option ModelSpec) → first (by_tier r t) ≡ f
        → Best r t (or_else o f)
    at (some m) p f e = inl p
    at none p none e = (p, e)
    at none p (some m) e = inr (p, e)

-- A decision, or an exception, and what it rests on.
abbrev pub Decides :
    Registry
    → (task_type quality : String) → Option BudgetContext
    → Result RouteError RouteDecision
    → Type 0
Decides r k q b (ok d) =
    Best r d.tier (some d.model)
    × (((d.downshifted ≡ false) × (exceeds b ≡ false) × (tier_for r.policy k q ≡ ok d.tier))
        ⊎ ((d.downshifted ≡ true)
            × (exceeds b ≡ true)
            × ((t : Tier) × (tier_for r.policy k q ≡ ok t)
                × (cheaper_tier r.policy t ≡ ok (some d.tier)))))
Decides r k q b (err bad_quality) = is_quality q ≡ false
Decides r k q b (err blank_workstream) = ⊥
Decides r k q b (err no_mapping) = tier_for r.policy k q ≡ err no_mapping
Decides r k q b (err unknown_tier) =
    (tier_for r.policy k q ≡ err unknown_tier)
    ⊎ ((exceeds b ≡ true)
        × ((t : Tier) × (tier_for r.policy k q ≡ ok t)
            × (cheaper_tier r.policy t ≡ err unknown_tier)))
Decides r k q b (err (no_model t)) = (tier_for r.policy k q ≡ ok t) × Best r t none
Decides r k q b (err (over_budget t)) =
    (exceeds b ≡ true)
    × (tier_for r.policy k q ≡ ok t)
    × ((cheaper_tier r.policy t ≡ ok none)
        ⊎ ((c : Tier) × (cheaper_tier r.policy t ≡ ok (some c)) × Best r c none))

module _ (r : Registry) (k q : String) (b : Option BudgetContext) where
  shifted-Decides :
      (t : Tier) (c : Result RouteError (Option Tier))
      → cheaper_tier r.policy t ≡ c
      → ((e : RouteError) → c ≡ err e → e ≡ unknown_tier)
      → exceeds b ≡ true
      → tier_for r.policy k q ≡ ok t
      → Decides r k q b (shifted r k q t c)
  shifted-Decides t (err e) h only x m =
      let u = only e refl in
      subst (λ y. Decides r k q b (err y)) (sym u) (inr (x, (t, m, h ∙ ap err u)))
  shifted-Decides t (ok none) h only x m = (x, m, inl h)
  shifted-Decides t (ok (some c)) h only x m = at (first_available r c) (first_available-Best r c)
    where
      at :
          (o : Option ModelSpec)
          → Best r c o
          → Decides r k q b (elim o [
            | none ↦ err (over_budget t)
            | some m ↦
                ok (record { model = m; tier = c; task_type = k; quality = q; downshifted = true })
          ])
      at none p = (x, m, inr (c, h, p))
      at (some y) p = (p, inr (refl, x, (t, m, h)))

  cheaper_than_raises :
      (t : Tier) (o : Option String) (e : RouteError) → cheaper_than t o ≡ err e → e ≡ unknown_tier
  cheaper_than_raises t none e h = absurd (ground arith)
  cheaper_than_raises t (some name) e h = elim (Bool-cases (str_eq name (value t))) [
    | inl f ↦ let bad : ok none ≡ err e = rw f at h in absurd (ground arith)
    | inr f ↦ at (tier_of name) (rw f at h)
  ]
    where
      at :
          (o : Option Tier)
          → elim o as (λ _. Result RouteError (Option Tier)) [
            | none ↦ err unknown_tier
            | some c ↦ ok (some c)
          ]
            ≡ err e
          → e ≡ unknown_tier
      at none g = ground arith
      at (some c) g = absurd (ground arith)

  within-Decides :
      (t : Tier) (m : ModelSpec) (over : Bool)
      → exceeds b ≡ over
      → Best r t (some m)
      → tier_for r.policy k q ≡ ok t
      → Decides r k q b (within r k q t m over)
  unfolding cheaper_tier
  within-Decides t m false x p h = (p, inl (refl, x, h))
  within-Decides t m true x p h =
      shifted-Decides t (cheaper_tier r.policy t) refl
        (cheaper_than_raises t (look_up (value t) r.policy.downshift)) x h

  found-Decides :
      (t : Tier) (o : Option ModelSpec)
      → Best r t o
      → tier_for r.policy k q ≡ ok t
      → Decides r k q b (found r k q b t o)
  found-Decides t none p h = (h, p)
  found-Decides t (some m) p h = within-Decides t m (exceeds b) refl p h

  mapped-Decides :
      (o : Result RouteError Tier)
      → tier_for r.policy k q ≡ o
      → ((e : RouteError) → o ≡ err e → (e ≡ no_mapping) ⊎ (e ≡ unknown_tier))
      → Decides r k q b (mapped r k q b o)
  mapped-Decides (ok t) h only = found-Decides t (first_available r t) (first_available-Best r t) h
  mapped-Decides (err e) h only = elim (only e refl) [
    | inl u ↦ subst (λ y. Decides r k q b (err y)) (sym u) (h ∙ ap err u)
    | inr u ↦ subst (λ y. Decides r k q b (err y)) (sym u) (inl (h ∙ ap err u))
  ]

  tier_for_raises :
      (e : RouteError) → tier_for r.policy k q ≡ err e → (e ≡ no_mapping) ⊎ (e ≡ unknown_tier)
  unfolding tier_for
  tier_for_raises e h =
      at (or_else (in_table q (look_up k r.policy.task_types)) (look_up q r.policy.default)) h
    where
      read :
          (o : Option Tier)
          → elim o as (λ _. Result RouteError Tier) [ none ↦ err unknown_tier | some t ↦ ok t ]
            ≡ err e
          → e ≡ unknown_tier
      read none g = ground arith
      read (some t) g = absurd (ground arith)

      at : (o : Option String) → named_tier o ≡ err e → (e ≡ no_mapping) ⊎ (e ≡ unknown_tier)
      at none g = inl (ground arith)
      at (some name) g = inr (read (tier_of name) g)

  route_decision-Decides : Decides r k q b (route_decision r k q b)
  unfolding route_decision
  route_decision-Decides = elim (Bool-cases (is_quality q)) [
    | inr e ↦ rw e e
    | inl e ↦ rw e (mapped-Decides (tier_for r.policy k q) refl tier_for_raises)
  ]

-- What `route` returns, and what the sink has of it.
abbrev pub Routes :
    Registry
    → (task_type quality : String) → Option BudgetContext
    → (workstream : String) → List RouteDecision
    → Result RouteError ModelSpec × List RouteDecision
    → Type 0
Routes r k q b ws sink (err e, sink') =
    (sink' ≡ sink)
    × (Decides r k q b (err e)
        ⊎ ((e ≡ blank_workstream)
            × (str_eq ws "" ≡ true)
            × ((d : RouteDecision) × Decides r k q b (ok d))))
Routes r k q b ws sink (ok m, sink') =
    (str_eq ws "" ≡ false)
    × ((d : RouteDecision) × (m ≡ d.model) × (sink' ≡ sink ++ d ∷ []) × Decides r k q b (ok d))

logged-Routes :
    (r : Registry) (k q : String) (b : Option BudgetContext) (ws : String)
    (sink : List RouteDecision) (o : Result RouteError RouteDecision)
    → Decides r k q b o
    → Routes r k q b ws sink (logged ws o sink)
logged-Routes r k q b ws sink (err e) p = (refl, inl p)
logged-Routes r k q b ws sink (ok d) p = elim (Bool-cases (str_eq ws "")) [
  | inl e ↦ rw e (refl, inr (refl, e, (d, p)))
  | inr e ↦ rw e (e, (d, refl, refl, p))
]

-- A call is routed to the best model of its tier: the first of the tier's chain that the catalog has,
-- or where it has none of them, its first model of the tier. A call that is over budget is routed
-- instead to the best model of the tier that the policy names as the cheaper one, one step only and
-- without a second look at the budget. The decision is logged once. Where a call raises, nothing is
-- logged, and it is for an unknown quality, for no mapping of the task type and the quality, for an
-- unknown name of a tier, for a tier with no model, only over budget for no cheaper tier or none with
-- a model, or for a workstream without a name, in which no decision can be logged.
pub route-Routes :
    (r : Registry) (k q : String) (b : Option BudgetContext) (ws : String)
    (sink : List RouteDecision)
    → Routes r k q b ws sink (route r k q b ws sink)
unfolding route
route-Routes r k q b ws sink =
    logged-Routes r k q b ws sink (route_decision r k q b) (route_decision-Decides r k q b)
