-- ===== src/Enforce.antt =====
-- runtime/enforce.py: `invoke`, the path on which an agent runs a tool. The registry and its tools
-- are a parameter; what a tool changes is the type `W`, and a tool reports a failure in its result.
pub mod Grants
pub mod Gate
pub mod Sessions
use ai_studio.Prelude.{
  ℕ, suc, String, Bool, true, false, Option, none, some, List, [], ◌∷◌, map, if◌then◌else◌, str_eq,
  Result, ok, err,
}
use ai_studio.Capabilities.{Capability, cap_value, tier_value, ActionTier, red}
use ai_studio.Policy.{
  Effect, allow, deny, needs_approval, BudgetContext, PolicyRequest, PolicyConfig, Decision, decide,
  unknown_tool,
}
use ai_studio.Approvals.{
  Args, Host, Approval, ApprovalAction, Store, emit, Note, policy_decision,
  approval_requested_ephemeral, tool_invoked, compute_fingerprint, find_grant, consume_grant,
  request_approval, ValueError, blank_workstream,
}

pub record ToolResult : Type 0 where
  pub is_ok : Bool
  pub output : String

-- `Tool`: the capabilities of a call, and the side effect.
pub record Tool (W : Type 0) : Type 0 where
  pub capabilities_for : Args → List Capability
  pub execute : Args → W → ToolResult × W

pub data InvokeStatus : Type 0 where
  executed denied pending : InvokeStatus

pub record InvokeResult : Type 0 where
  pub status : InvokeStatus
  pub decision : Decision
  pub result : Option ToolResult
  pub approval_id : Option ℕ

-- The arguments of `invoke`; `connected` says whether a connection was passed.
pub record Invocation : Type 0 where
  pub role : String
  pub tool_name : String
  pub connected : Bool
  pub workstream : String
  pub budget : Option BudgetContext
  pub task_id : Option ℕ
  pub args : Args

abbrev pub action_of : Host → Invocation → List Capability → Decision → ApprovalAction
action_of host q required d = record {
  task_id = q.task_id;
  role = q.role;
  tool = q.tool_name;
  capabilities = host.sorted (map cap_value required);
  tier = tier_value d.tier;
  reason = d.reason;
}

abbrev pub request_of : Invocation → List Capability → PolicyRequest
request_of q required = record {
  role = q.role;
  tool = q.tool_name;
  required_capabilities = required;
  budget = q.budget;
}

abbrev pub unknown : Invocation → Decision
unknown q = record {
  effect = deny;
  tier = red;
  reason = unknown_tool;
  role = q.role;
  tool = q.tool_name;
  required_capabilities = [];
  missing_capabilities = [];
  logged = false;
}

-- What `invoke` comes to: a result or an exception, the store, and what tools change.
abbrev pub Out : Type 0 → Type 0
Out W = Result ValueError InvokeResult × Store × W

module _ {W : Type 0} where
  -- `events.emit(make_event(...))`, and what comes after it.
  abbrev pub with_event : String → Note → Store → W → (Store → Out W) → Out W
  with_event workstream n s w next =
      if str_eq workstream "" then (err blank_workstream, s, w) else next (emit n s)

  -- `_execute`: the event, then the tool.
  abbrev pub execute : Tool W → Invocation → Decision → Option ℕ → Store → W → Out W
  execute tool q d approval_id s w =
      with_event q.workstream (tool_invoked q.tool_name q.role d.tier approval_id) s w (λ s'.
        let (result, w') = tool.execute q.args w in
        (
          ok (record {
            status = executed;
            decision = d;
            result = some result;
            approval_id = approval_id;
          }),
          s',
          w',
        ))

  abbrev pub refuse : InvokeStatus → Decision → Option ℕ → Store → W → Out W
  refuse status d approval_id s w = (
    ok (record { status = status; decision = d; result = none; approval_id = approval_id }),
    s,
    w,
  )

  abbrev pub pended : Decision → Result ValueError Approval × Store → W → Out W
  pended d (ok a, s) w = refuse pending d (some a.id) s w
  pended d (err e, s) w = (err e, s, w)

  -- No grant, or it is spent by another call: a pending request is stored.
  abbrev pub pend : Host → Invocation → List Capability → Decision → String → Store → W → Out W
  pend host q required d fp s w =
      pended d (request_approval host (action_of host q required d) q.workstream (some fp) [] s) w

  -- After `consume_grant`.
  abbrev pub after_consume :
      Host
      → Tool W
      → Invocation
      → List Capability
      → Decision
      → String
      → ℕ
      → Option Approval × Store
      → W
      → Out W
  after_consume host tool q required d fp id (none, s) w = pend host q required d fp s w
  after_consume host tool q required d fp id (some a, s) w = execute tool q d (some id) s w

  abbrev pub with_grant :
      Host
      → Tool W
      → Invocation
      → List Capability
      → Decision
      → String
      → Option Approval
      → Store
      → W
      → Out W
  with_grant host tool q required d fp none s w = pend host q required d fp s w
  with_grant host tool q required d fp (some g) s w =
      after_consume host tool q required d fp g.id (consume_grant g.id s) w

  abbrev pub ask :
      Host → Tool W → Invocation → List Capability → Decision → Bool → Store → W → Out W
  ask host tool q required d true s w =
      let fp =
        compute_fingerprint host q.task_id q.tool_name (host.sorted (map cap_value required))
          q.workstream q.args in
      with_grant host tool q required d fp (find_grant fp s) s w
  ask host tool q required d false s w =
      with_event q.workstream (approval_requested_ephemeral s.next_id d)
        (record s { next_id = suc s.next_id }) w (λ s'. refuse pending d (some s.next_id) s' w)

  abbrev pub branch :
      Host → Tool W → Invocation → List Capability → Decision → Effect → Store → W → Out W
  branch host tool q required d deny s w = refuse denied d none s w
  branch host tool q required d needs_approval s w = ask host tool q required d q.connected s w
  branch host tool q required d allow s w = execute tool q d none s w

  abbrev pub invoke_tool : Host → PolicyConfig → Option (Tool W) → Invocation → Store → W → Out W
  invoke_tool host config none q s w =
      with_event q.workstream (policy_decision (unknown q)) s w
        (λ s'. refuse denied (unknown q) none s' w)
  invoke_tool host config (some tool) q s w =
      let required = tool.capabilities_for q.args in
      let d = decide (request_of q required) config in
      with_event q.workstream (policy_decision d) s w
        (λ s'. branch host tool q required d d.effect s' w)

  unfoldable pub invoke :
      Host → (String → Option (Tool W)) → PolicyConfig → Invocation → Store → W → Out W
  invoke host registry config q s w = invoke_tool host config (registry q.tool_name) q s w
