-- ===== src/Examples/Router.antt =====
-- Tests of runtime/model/router.py.
use ai_studio.Prelude.{none, some, [], ◌∷◌, ◌≡◌, refl, ok, err}
use ai_studio.Policy.{BudgetContext, would_exceed}
use ai_studio.Router.{
  ModelSpec, Registry, pm, cheap, over_budget, tier_for, look_up, candidates, by_tier,
  first_present, first_available, cheaper_tier, behind, next_candidate, route_decision, route,
}
use ai_studio.Router.Routed.{Routes, route-Routes}

abbrev large : ModelSpec
large = record { id = "large"; provider = "p"; tier = pm }

abbrev small : ModelSpec
small = record { id = "small"; provider = "p"; tier = cheap }

-- The chain of the premium tier begins with a model that the catalog lacks.
abbrev registry : Registry
registry = record {
  models = ("large", large) ∷ ("small", small) ∷ [];
  policy = record {
    task_types = ("plan", ("high", "pm") ∷ []) ∷ [];
    default = ("standard", "cheap") ∷ [];
    tiers = ("pm", "gone" ∷ "large" ∷ "small" ∷ []) ∷ [];
    downshift = ("pm", "cheap") ∷ ("cheap", "cheap") ∷ [];
  };
}

-- 90 and 20 of 100 tokens.
abbrev spent : BudgetContext
spent = record {
  spent_tokens = 90;
  budget_tokens = some 100;
  estimated_tokens = 20;
  spent_usd = 0;
  budget_usd = none;
  estimated_usd = 0;
}

within_budget : (route registry "plan" "high" none "studio" []).0 ≡ ok large
unfolding route route_decision tier_for look_up first_available first_present candidates by_tier
within_budget = refl

-- The call goes through on the cheaper tier, although its tokens exceed the budget there too.
over_cap : (route registry "plan" "high" (some spent) "studio" []).0 ≡ ok small
unfolding route route_decision tier_for look_up first_available first_present candidates by_tier
    cheaper_tier would_exceed
over_cap = refl

no_cheaper : (route registry "talk" "standard" (some spent) "studio" []).0 ≡ err (over_budget cheap)
unfolding route route_decision tier_for look_up first_available first_present candidates by_tier
    cheaper_tier would_exceed
no_cheaper = refl

falls_back : next_candidate registry pm "large" ≡ some small
unfolding next_candidate candidates look_up behind first_present
falls_back = refl

route-Routes_example :
    Routes registry "plan" "high"
      (some spent)
      "studio"
      []
      (route registry "plan" "high" (some spent) "studio" [])
route-Routes_example = route-Routes registry "plan" "high" (some spent) "studio" []
