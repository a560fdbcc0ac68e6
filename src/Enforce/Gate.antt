-- ===== src/Enforce/Gate.antt =====
-- What a call of `invoke` does: the tool runs where the policy or a grant permits it, and is not
-- touched otherwise.
use ai_studio.Prelude.{
  ℕ, String, Bool, true, false, Option, none, some, List, ◌≡◌, ◌≢◌, ◌⊎◌, inl, inr, refl, In, map,
  Option-cases, In-first_by, In-keep, ok, err, str_eq, first_by, keep, Bool-cases, [],
}
use ai_studio.Policy.{
  Effect, allow, deny, needs_approval, PolicyConfig, Decision, decide, IsGranted,
}
use ai_studio.Policy.Laws.{decide-granted}
use ai_studio.Capabilities.{Capability, cap_value}
use ai_studio.Approvals.{
  Host, Approval, Store, Note, emit, policy_decision, compute_fingerprint, find_grant,
  consume_grant, is_grant, request_row, ApprovalAction, request_approval, created_before, is_open,
  chosen, blank_workstream,
}
use ai_studio.Enforce.{
  Tool, InvokeResult, Invocation, executed, pend, after_consume, with_grant, ask, branch, invoke,
  invoke_tool, execute, pended, action_of, Out, request_of,
}

-- The fingerprint under which a call looks for its grant.
abbrev pub fingerprint_of : Host → Invocation → List Capability → String
fingerprint_of host q required =
    compute_fingerprint host q.task_id q.tool_name (host.sorted (map cap_value required))
      q.workstream q.args

-- An approved row of the store with the fingerprint of the call.
pub record Grant (fp : String) (s : Store) (id : Option ℕ) : Type 0 where
  pub row : Approval
  pub listed : In row s.approvals
  pub approved_row : is_grant fp row ≡ true
  pub named : id ≡ some row.id

-- The grant that a lookup finds.
find_grant-Grant :
    (fp : String) (s : Store) (g : Approval) → find_grant fp s ≡ some g → Grant fp s (some g.id)
unfolding find_grant
find_grant-Grant fp s g h =
    let (m, p) = In-keep (is_grant fp) s.approvals g (In-first_by _ _ g h) in
    record { row = g; listed = m; approved_row = p; named = refl }

-- A grant stands in the store whatever the sink collects.
Grant-emit :
    (fp : String) (n : Note) (s : Store) (id : Option ℕ) → Grant fp (emit n s) id → Grant fp s id
Grant-emit fp n s id g = record {
  row = g.row;
  listed = g.listed;
  approved_row = g.approved_row;
  named = g.named;
}

-- Why a call that ran was permitted.
abbrev pub Authority :
    Host → PolicyConfig → Invocation → List Capability → Store → Option ℕ → Type 0
Authority host config q required s id =
    ((decide (request_of q required) config).effect ≡ allow) × (id ≡ none)
    ⊎ ((decide (request_of q required) config).effect ≡ needs_approval)
      × (q.connected ≡ true)
      × Grant (fingerprint_of host q required) s id

-- The reason, over the store before the decision's event.
settle :
    {A B C : Type 0} {fp : String} (n : Note) {s : Store} {id : Option ℕ}
    → A ⊎ B × C × Grant fp (emit n s) id
    → A ⊎ B × C × Grant fp s id
settle n (inl a) = inl a
settle {fp = fp} n {s = s} {id = id} (inr (b, c, g)) = inr (b, c, Grant-emit fp n s id g)

allowed_not_denied :
    {e : Effect} {A B C : Type 0} → (e ≡ allow) × A ⊎ (e ≡ needs_approval) × B × C → e ≢ deny
allowed_not_denied (inl (h, a)) k = cc
allowed_not_denied (inr (h, b, c)) k = cc

module _ {W : Type 0} where
  pub record Ran (host : Host) (registry : String → Option (Tool W)) (config : PolicyConfig)
      (q : Invocation) (s : Store) (w : W) (r : InvokeResult) (after : W) : Type 0 where
    pub tool : Tool W
    pub registered : registry q.tool_name ≡ some tool
    pub granted : IsGranted config (request_of q (tool.capabilities_for q.args))
    pub answer : r.result ≡ some (tool.execute q.args w).0
    pub effect : after ≡ (tool.execute q.args w).1
    pub authority : Authority host config q (tool.capabilities_for q.args) s r.approval_id

  abbrev pub Held : W → InvokeResult → W → Type 0
  Held w r after = (r.status ≢ executed) × (r.result ≡ none) × (after ≡ w)

  -- The tool ran for a reason `P`, or it did not run.
  abbrev Did : Tool W → Invocation → W → (Option ℕ → Type 0) → InvokeResult → W → Type 0
  Did tool q w P r after =
      (r.result ≡ some (tool.execute q.args w).0)
        × (after ≡ (tool.execute q.args w).1)
        × P r.approval_id
      ⊎ Held w r after

  -- It returned, and so.
  abbrev Done : Tool W → Invocation → W → (Option ℕ → Type 0) → Out W → Type 0
  Done tool q w P (ok r, s, after) = Did tool q w P r after
  Done tool q w P (err e, s, after) = ⊥

  module _ (host : Host) (tool : Tool W) (q : Invocation) (w : W)
      (named : str_eq q.workstream "" ≡ false) where
    execute-Done :
        (P : Option ℕ → Type 0) (d : Decision) (id : Option ℕ) (s : Store)
        → P id
        → Done tool q w P (execute tool q d id s w)
    execute-Done P d id s p = rw named (inl (refl, refl, p))

    request_row-ok :
        (a : ApprovalAction) (fp : String) (s : Store)
        → (x : Approval) × (s' : Store) × (request_row q.workstream a fp s ≡ (ok x, s'))
    request_row-ok a fp s =
        elim (Option-cases (first_by created_before (keep (is_open fp) s.approvals))) [
          | inl e ↦ rw (request_row, e) (rw named (_, _, refl))
          | inr (x, e) ↦ rw (request_row, e) (_, _, refl)
        ]

    module _ (P : Option ℕ → Type 0) (required : List Capability) (d : Decision) (fp : String) where
      pend-Done : (s : Store) → Done tool q w P (pend host q required d fp s w)
      unfolding request_approval
      pend-Done s =
          let (x, s', e) =
            request_row-ok
              (record (action_of host q required d) {
                capabilities = host.sorted (host.sorted (map cap_value required));
              })
              (chosen (some fp) (
                compute_fingerprint host q.task_id q.tool_name
                  (host.sorted (host.sorted (map cap_value required))) q.workstream []))
              s in
          rw (pended, e) (inr ((λ h. cc), refl, refl))

      after_consume-Done :
          (id : ℕ) (c : Option Approval × Store)
          → P (some id)
          → Done tool q w P (after_consume host tool q required d fp id c w)
      after_consume-Done id (none, s) p = pend-Done s
      after_consume-Done id (some a, s) p = execute-Done P d (some id) s p

      with_grant-Done :
          (o : Option Approval) (s : Store)
          → ((g : Approval) → o ≡ some g → P (some g.id))
          → Done tool q w P (with_grant host tool q required d fp o s w)
      with_grant-Done none s p = pend-Done s
      with_grant-Done (some g) s p = after_consume-Done g.id (consume_grant g.id s) (p g refl)

    ask-Done :
        (d : Decision) (s : Store) (c : Bool)
        → let required = tool.capabilities_for q.args in
          Done tool q w
            (λ id. (c ≡ true) × Grant (fingerprint_of host q required) s id)
            (ask host tool q required d c s w)
    ask-Done d s false = rw named (inr ((λ h. cc), refl, refl))
    ask-Done d s true =
        with_grant-Done
          (λ id. (true ≡ true) × Grant (fingerprint_of host q (tool.capabilities_for q.args)) s id)
          (tool.capabilities_for q.args) d _ _ s (λ g e. (refl, find_grant-Grant _ s g e))

    -- Why a branch on the effect `e` runs the tool.
    abbrev Reason : Effect → Store → Option ℕ → Type 0
    Reason e s id =
        (e ≡ allow) × (id ≡ none)
        ⊎ (e ≡ needs_approval)
          × (q.connected ≡ true)
          × Grant (fingerprint_of host q (tool.capabilities_for q.args)) s id

    weaken-Done :
        (P Q : Option ℕ → Type 0) (out : Out W)
        → ((id : Option ℕ) → P id → Q id)
        → Done tool q w P out
        → Done tool q w Q out
    weaken-Done P Q (ok r, s, after) f (inl (a, b, p)) = inl (a, b, f r.approval_id p)
    weaken-Done P Q (ok r, s, after) f (inr held) = inr held
    weaken-Done P Q (err e, s, after) f h = h

    branch-Done :
        (d : Decision) (s : Store) (e : Effect)
        → Done tool q w (Reason e s) (branch host tool q (tool.capabilities_for q.args) d e s w)
    branch-Done d s allow = execute-Done (Reason allow s) d none s (inl (refl, refl))
    branch-Done d s deny = inr ((λ h. cc), refl, refl)
    branch-Done d s needs_approval =
        weaken-Done _ (Reason needs_approval s) _ (λ id (on, g). inr (refl, on, g))
          (ask-Done d s q.connected)

  module _ (host : Host) (registry : String → Option (Tool W)) (config : PolicyConfig)
      (q : Invocation) (s : Store) (w : W) where
    -- What a call comes to.
    abbrev pub Invoked : Out W → Type 0
    Invoked (ok r, s', after) =
        (str_eq q.workstream "" ≡ false) × (Ran host registry config q s w r after ⊎ Held w r after)
    Invoked (err e, s', after) =
        (str_eq q.workstream "" ≡ true) × (e ≡ blank_workstream) × (s' ≡ s) × (after ≡ w)

    branch-Invoked :
        (tool : Tool W) (out : Out W)
        → str_eq q.workstream "" ≡ false
        → registry q.tool_name ≡ some tool
        → let d = decide (request_of q (tool.capabilities_for q.args)) config in
          ((named : str_eq q.workstream "" ≡ false)
            → Done tool q w (Reason host tool q w named d.effect (emit (policy_decision d) s)) out)
          → Invoked out
    branch-Invoked tool (err x, s', after) named e done = absurd (done named)
    branch-Invoked tool (ok r, s', after) named e done = (
      named,
      elim (done named) [
        | inr held ↦ inr held
        | inl (a, b, p) ↦
            let required = tool.capabilities_for q.args in
            let d = decide (request_of q required) config in
            inl (record {
              tool = tool;
              registered = e;
              granted = decide-granted (request_of q required) config (allowed_not_denied p);
              answer = a;
              effect = b;
              authority = settle (policy_decision d) p;
            })
      ],
    )

    -- A call of `invoke` in a named workstream returns: it either runs the registered tool once, and
    -- then every capability the call needs is granted to the role, and the policy allows the call or,
    -- on a connection, it asks for approval and the store has an approved row with the call's own
    -- fingerprint, which the result names; or it reports that nothing was executed and leaves what
    -- tools change as it was. A call in a workstream without a name raises, and changes nothing.
    pub invoke-cases : Invoked (invoke host registry config q s w)
    unfolding invoke
    invoke-cases = elim (Bool-cases (str_eq q.workstream "")) [
      | inl blank ↦ elim (Option-cases (registry q.tool_name)) [
        | inl e ↦ rw (invoke_tool, e) (rw blank (blank, refl, refl, refl))
        | inr (tool, e) ↦ rw (invoke_tool, e) (raised tool blank)
      ]
      | inr named ↦ elim (Option-cases (registry q.tool_name)) [
        | inl e ↦ rw (invoke_tool, e) (rw named (named, inr ((λ h. cc), refl, refl)))
        | inr (tool, e) ↦ rw (invoke_tool, e) (went_on tool named e)
      ]
    ]
      where
        raised :
            (tool : Tool W)
            → str_eq q.workstream "" ≡ true
            → Invoked (invoke_tool host config (some tool) q s w)
        raised tool blank = rw blank (blank, refl, refl, refl)

        went_on :
            (tool : Tool W)
            → str_eq q.workstream "" ≡ false
            → registry q.tool_name ≡ some tool
            → Invoked (invoke_tool host config (some tool) q s w)
        went_on tool named e =
            let required = tool.capabilities_for q.args in
            let d = decide (request_of q required) config in
            let s' = emit (policy_decision d) s in
            let out = branch host tool q required d d.effect s' w in
            rw named
              (branch-Invoked tool out named e (λ n. branch-Done host tool q w n d s' d.effect))
