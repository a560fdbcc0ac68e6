-- ===== src/Examples/Gate.antt =====
-- Tests of runtime/capabilities.py, runtime/policy.py, runtime/approvals.py and runtime/enforce.py.
use ai_studio.Prelude.{
  ℕ, suc, String, true, false, Option, none, some, List, [], ◌∷◌, ◌≡◌, ◌≢◌, ◌≤◌, ◌⊎◌, ◌↔◌, refl, In,
  count, first_by, err,
}
use ai_studio.Capabilities.{
  Capability, fs_read, fs_delete, deploy, green, red, tier_rank, tier_for_capability,
  effective_tier, restrict, default_tier, override_of, cap_eq, cap_value,
}
use ai_studio.Capabilities.Tiers.{effective_tier_max}
use ai_studio.Policy.{
  allow, deny, PolicyRequest, PolicyConfig, decide, IsGranted, over_budget, missing, has, granted,
  would_exceed,
}
use ai_studio.Policy.Laws.{decide-effect_iff}
use ai_studio.Approvals.{
  Host, approved, join, args_digest, compute_fingerprint, update_row, request_approval,
  resolve_approval, find_grant, consume_grant, blank_workstream,
}
use ai_studio.Enforce.{Tool, Invocation, invoke}
use ai_studio.Enforce.Gate.{Invoked, invoke-cases}
use ai_studio.Enforce.Grants.{is_run, is_spent, is_approval}
use ai_studio.Enforce.Sessions.{Call, invocation, resolve, wait, run, perform, opened, run_once}

-- A host whose digest is the text itself.
abbrev host : Host
host = record { sorted = λ xs. xs; dumps = λ args. "args"; sha256 = λ s. s; str_uuid = λ n. "task" }

-- A tool that deletes, and counts its runs.
abbrev eraser : Tool ℕ
eraser = record {
  capabilities_for = λ args. fs_delete ∷ [];
  execute = λ args w. (record { is_ok = true; output = "" }, suc w);
}

abbrev registry : String → Option (Tool ℕ)
registry name = some eraser

abbrev config : PolicyConfig
config = record { roles = ("engineer", fs_read ∷ fs_delete ∷ []) ∷ []; tier_overrides = [] }

abbrev call : Invocation
call = record {
  role = "engineer";
  tool_name = "filesystem";
  connected = true;
  workstream = "productivity";
  budget = none;
  task_id = some 7;
  args = [];
}

abbrev ask : PolicyRequest
ask = record {
  role = "engineer";
  tool = "filesystem";
  required_capabilities = fs_read ∷ fs_delete ∷ [];
  budget = none;
}

-- Pending, approved, run, and pending again.
abbrev session : List Call
session =
    invocation call
    ∷ wait 5
    ∷ resolve 0 approved "owner" "productivity"
    ∷ invocation call
    ∷ invocation call
    ∷ []

gate_evaluation : Unit {0}
unfolding run perform opened invoke decide missing has granted over_budget would_exceed
    effective_tier restrict tier_for_capability default_tier override_of cap_eq cap_value tier_rank
    join args_digest compute_fingerprint update_row request_approval resolve_approval find_grant
    consume_grant first_by
gate_evaluation = tt

-- One run of the tool, one spent approval.
session_runs : (run host registry config session (opened 0, 0)).1 ≡ 1
unfolding gate_evaluation
session_runs = refl

session_spent : count (is_spent 0) (run host registry config session (opened 0, 0)).0.approvals ≡ 1
unfolding gate_evaluation
session_spent = refl

tier_of_both : effective_tier [] (fs_read ∷ fs_delete ∷ []) ≡ red
unfolding gate_evaluation
tier_of_both = refl

run_once_example :
    let s = (run host registry config session (opened 0, 0)).0 in
    (count (is_run 0) s.events ≤ count (is_spent 0) s.approvals)
    × (count (is_spent 0) s.approvals ≤ count (is_approval 0) s.events)
    × (count (is_approval 0) s.events ≤ 1)
run_once_example = run_once host registry config 0 0 session 0

invoke-cases_example :
    Invoked host registry config call (opened 0) 0 (invoke host registry config call (opened 0) 0)
invoke-cases_example = invoke-cases host registry config call (opened 0) 0

-- No event can be made for a workstream without a name.
nameless :
    (invoke host registry config (record call { workstream = "" }) (opened 0) 0).0
    ≡ err blank_workstream
unfolding gate_evaluation
nameless = refl

decide-effect_iff_example :
    ((decide ask config).effect ≡ allow ↔ (
      IsGranted config ask
      × (over_budget none ≡ false)
      × (effective_tier [] (fs_read ∷ fs_delete ∷ []) ≢ red)))
    × ((decide ask config).effect ≡ deny ↔ (¬ IsGranted config ask))
decide-effect_iff_example = decide-effect_iff ask config

effective_tier_max_example :
    ((c : Capability)
      → In c (fs_read ∷ deploy ∷ [])
      → tier_rank (tier_for_capability [] c)
        ≤ tier_rank (effective_tier [] (fs_read ∷ deploy ∷ [])))
    × ((effective_tier [] (fs_read ∷ deploy ∷ []) ≡ green)
        ⊎ ((c : Capability) × In c (fs_read ∷ deploy ∷ [])
            × (effective_tier [] (fs_read ∷ deploy ∷ []) ≡ tier_for_capability [] c)))
effective_tier_max_example = effective_tier_max [] (fs_read ∷ deploy ∷ [])
