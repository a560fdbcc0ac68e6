-- ===== src/Router.antt =====
-- runtime/model/registry.py and runtime/model/router.py: the choice of a model. A dictionary is a list
-- of pairs in its order; the prices of a model and its provenance are not read here. The texts of a
-- reason are not modelled, but what they are made from is.
pub mod Routed
use ai_studio.Prelude.{
  ℕ, String, Bool, true, false, Option, none, some, List, [], ◌∷◌, ◌++◌, ◌||◌, not, str_eq, or_else,
  keep, map, if◌then◌else◌, Result, ok, err,
}
use ai_studio.Policy.{BudgetContext, would_exceed}

-- `Tier`
pub data Tier : Type 0 where
  pm mid cheap coding embedding : Tier

abbrev pub value : Tier → String
value pm = "pm"
value mid = "mid"
value cheap = "cheap"
value coding = "coding"
value embedding = "embedding"

abbrev pub tier_eq : Tier → Tier → Bool
tier_eq a b = str_eq (value a) (value b)

-- `Tier(name)`, which raises on an unknown name.
abbrev pub tier_of : String → Option Tier
tier_of s =
    if str_eq s "pm"
    then some pm
    else if str_eq s "mid"
    then some mid
    else if str_eq s "cheap"
    then some cheap
    else if str_eq s "coding"
    then some coding
    else if str_eq s "embedding"
    then some embedding
    else none

-- `ModelSpec`
pub record ModelSpec : Type 0 where
  pub id : String
  pub provider : String
  pub tier : Tier

abbrev pub Table {ℓ} : Type ℓ → Type ℓ
Table V = List (String × V)

unfoldable pub look_up {ℓ} : {V : Type ℓ} → String → Table V → Option V
look_up k [] = none
look_up k ((j, v) ∷ m) = if str_eq k j then some v else look_up k m

-- `RoutingPolicy`
pub record RoutingPolicy : Type 0 where
  pub task_types : Table (Table String)
  pub default : Table String
  pub tiers : Table (List String)
  pub downshift : Table String

-- `Registry`
pub record Registry : Type 0 where
  pub models : Table ModelSpec
  pub policy : RoutingPolicy

-- What the routing raises.
pub data RouteError : Type 0 where
  bad_quality no_mapping unknown_tier blank_workstream : RouteError
  no_model over_budget : Tier → RouteError

abbrev pub in_table : String → Option (Table String) → Option String
in_table quality none = none
in_table quality (some m) = look_up quality m

abbrev pub named_tier : Option String → Result RouteError Tier
named_tier none = err no_mapping
named_tier (some name) = elim (tier_of name) [ none ↦ err unknown_tier | some t ↦ ok t ]

unfoldable pub tier_for : RoutingPolicy → (task_type quality : String) → Result RouteError Tier
unfolding look_up
tier_for p task_type quality =
    named_tier
      (or_else (in_table quality (look_up task_type p.task_types)) (look_up quality p.default))

abbrev pub or_empty : Option (List String) → List String
or_empty none = []
or_empty (some xs) = xs

unfoldable pub candidates : RoutingPolicy → Tier → List String
unfolding look_up
candidates p t = or_empty (look_up (value t) p.tiers)

abbrev pub cheaper_than : Tier → Option String → Result RouteError (Option Tier)
cheaper_than t none = ok none
cheaper_than t (some name) =
    if str_eq name (value t)
    then ok none
    else elim (tier_of name) [ none ↦ err unknown_tier | some c ↦ ok (some c) ]

unfoldable pub cheaper_tier : RoutingPolicy → Tier → Result RouteError (Option Tier)
unfolding look_up
cheaper_tier p t = cheaper_than t (look_up (value t) p.downshift)

unfoldable pub by_tier : Registry → Tier → List ModelSpec
by_tier r t =
    keep (λ (m : ModelSpec). tier_eq m.tier t) (map (λ (e : String × ModelSpec). e.1) r.models)

abbrev pub first : List ModelSpec → Option ModelSpec
first [] = none
first (m ∷ ms) = some m

-- The first id of a chain that the catalog has.
unfoldable pub first_present : Registry → List String → Option ModelSpec
unfolding look_up
first_present r [] = none
first_present r (id ∷ ids) = or_else (look_up id r.models) (first_present r ids)

-- `_first_available`
unfoldable pub first_available : Registry → Tier → Option ModelSpec
unfolding candidates first_present by_tier
first_available r t = or_else (first_present r (candidates r.policy t)) (first (by_tier r t))

-- The rest of a chain behind an id.
unfoldable pub behind : String → List String → List String
behind id [] = []
behind id (x ∷ xs) = if str_eq x id then xs else behind id xs

unfoldable pub next_candidate : Registry → Tier → (after_model_id : String) → Option ModelSpec
unfolding candidates first_present behind
next_candidate r t id = first_present r (behind id (candidates r.policy t))

-- `RouteDecision`
pub record RouteDecision : Type 0 where
  pub model : ModelSpec
  pub tier : Tier
  pub task_type : String
  pub quality : String
  pub downshifted : Bool

abbrev pub exceeds : Option BudgetContext → Bool
exceeds none = false
exceeds (some b) = would_exceed b

abbrev pub is_quality : String → Bool
is_quality q = str_eq q "high" || str_eq q "standard" || str_eq q "low"

-- The cheaper tier's model, or the call is over budget.
abbrev pub shifted :
    Registry
    → (task_type quality : String) → Tier
    → Result RouteError (Option Tier)
    → Result RouteError RouteDecision
shifted r k q t (err e) = err e
shifted r k q t (ok none) = err (over_budget t)
shifted r k q t (ok (some c)) = elim (first_available r c) [
  | none ↦ err (over_budget t)
  | some m ↦ ok (record { model = m; tier = c; task_type = k; quality = q; downshifted = true })
]

abbrev pub within :
    Registry
    → (task_type quality : String) → Tier
    → ModelSpec
    → (over : Bool) → Result RouteError RouteDecision
within r k q t m false =
    ok (record { model = m; tier = t; task_type = k; quality = q; downshifted = false })
within r k q t m true = shifted r k q t (cheaper_tier r.policy t)

abbrev pub found :
    Registry
    → (task_type quality : String) → Option BudgetContext
    → Tier
    → Option ModelSpec
    → Result RouteError RouteDecision
found r k q b t none = err (no_model t)
found r k q b t (some m) = within r k q t m (exceeds b)

abbrev pub mapped :
    Registry
    → (task_type quality : String) → Option BudgetContext
    → Result RouteError Tier
    → Result RouteError RouteDecision
mapped r k q b (err e) = err e
mapped r k q b (ok t) = found r k q b t (first_available r t)

unfoldable pub route_decision :
    Registry → (task_type quality : String) → Option BudgetContext → Result RouteError RouteDecision
unfolding tier_for first_available cheaper_tier
route_decision r k q b =
    if not (is_quality q) then err bad_quality else mapped r k q b (tier_for r.policy k q)

-- `sink.emit(make_event(...))`, which raises at an empty workstream, and the model.
abbrev pub logged :
    (workstream : String)
    → Result RouteError RouteDecision
    → List RouteDecision
    → Result RouteError ModelSpec × List RouteDecision
logged workstream (err e) sink = (err e, sink)
logged workstream (ok d) sink =
    if str_eq workstream "" then (err blank_workstream, sink) else (ok d.model, sink ++ d ∷ [])

-- `route`: the model, and the `model.routed` events that the sink has.
unfoldable pub route :
    Registry
    → (task_type quality : String) → Option BudgetContext
    → (workstream : String) → List RouteDecision
    → Result RouteError ModelSpec × List RouteDecision
unfolding route_decision
route r k q b workstream sink = logged workstream (route_decision r k q b) sink
