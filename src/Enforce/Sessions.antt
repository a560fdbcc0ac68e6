-- ===== src/Enforce/Sessions.antt =====
-- Any calls of the approval loop, in any order: requests, decisions by a human, invocations of
-- tools, and grants that other modules spend.
use ai_studio.Prelude.{
  ℕ, suc, String, Bool, true, false, Option, none, some, List, [], ◌∷◌, ◌≡◌, ◌≤◌, ◌+◌, inl, inr,
  refl, arith, count, find?, Bool-cases, Option-cases, str_eq, ok, err, Result, if◌then◌else◌,
}
use ai_studio.Policy.{Effect, allow, deny, needs_approval, PolicyConfig, Decision, decide}
use ai_studio.Capabilities.{Capability}
use ai_studio.Approvals.{
  Args, Host, Approval, ApprovalStatus, approval_requested_ephemeral, tool_invoked, Store,
  request_approval, resolve_approval, consume_grant, ApprovalAction, by_id, is_approved, find_grant,
  ValueError, Note, emit, policy_decision, blank_workstream,
}
use ai_studio.Enforce.{
  Tool, Invocation, invoke, invoke_tool, branch, ask, with_grant, pend, pended, Out, request_of,
}
use ai_studio.Enforce.Grants.{
  Books, Books-emit, Books-consume, Books-resolve, Books-request_row, count-append, is_run,
  is_approval, has_id, was_approved, is_spent,
}

pub data Call : Type 0 where
  request : ApprovalAction → (workstream : String) → (fingerprint : Option String) → Args → Call
  resolve : ℕ → ApprovalStatus → (resolver workstream : String) → Call
  consume : ℕ → Call
  invocation : Invocation → Call
  wait : ℕ → Call

module _ {W : Type 0} (host : Host) (registry : String → Option (Tool W))
    (config : PolicyConfig) where
  unfoldable pub perform : Call → Store × W → Store × W
  perform (request a workstream fp args) (s, w) =
      ((request_approval host a workstream fp args s).1, w)
  perform (resolve id decision resolver workstream) (s, w) =
      ((resolve_approval id decision resolver workstream s).1, w)
  perform (consume id) (s, w) = ((consume_grant id s).1, w)
  perform (invocation q) (s, w) = let out = invoke host registry config q s w in (out.1, out.2)
  perform (wait d) (s, w) = (record s { clock = s.clock + d }, w)

  unfoldable pub run : List Call → Store × W → Store × W
  run [] x = x
  run (c ∷ cs) x = run cs (perform c x)

  module _ (i : ℕ) where
    pended-Books :
        (d : Decision) (r : Result ValueError Approval × Store) (w : W)
        → Books i r.1
        → Books i (pended d r w).1
    pended-Books d (ok a, s) w b = b
    pended-Books d (err e, s) w b = b

    pend-Books :
        (q : Invocation) (required : List Capability) (d : Decision) (fp : String) (s : Store)
        (w : W)
        → Books i s
        → Books i (pend host q required d fp s w).1
    unfolding request_approval
    pend-Books q required d fp s w b = pended-Books d _ w (Books-request_row i q.workstream _ _ s b)

    -- A run by a grant: the row is spent, and the event counts it.
    with_grant-Books :
        (tool : Tool W) (q : Invocation) (required : List Capability) (d : Decision) (fp : String)
        (g : Option Approval) (s : Store) (w : W)
        → Books i s
        → Books i (with_grant host tool q required d fp g s w).1
    unfolding consume_grant
    with_grant-Books tool q required d fp none s w b = pend-Books q required d fp s w b
    with_grant-Books tool q required d fp (some g) s w b =
        elim (Option-cases (find? (by_id g.id is_approved) s.approvals)) [
          | inl e ↦ rw (consume_grant, e) (pend-Books q required d fp s w b)
          | inr (a, e) ↦
              rw (consume_grant, e)
                (let (after, spent, same) = Books-consume i g.id s a e b in
                  let n = tool_invoked q.tool_name q.role d.tier (some g.id) in
                  let c = count-append (is_run i) s.events (n ∷ []) in
                  let k = count-append (is_approval i) s.events (n ∷ []) in
                  let u = b.runs in
                  let v = after.approvals in
                  elim (Bool-cases (str_eq q.workstream "")) [
                    | inl blank ↦ rw blank after
                    | inr named ↦ rw named (record {
                      runs = ground arith;
                      approvals = ground arith;
                      rows = after.rows;
                      fresh = after.fresh;
                    })
                  ])
        ]

    branch-Books :
        (tool : Tool W) (q : Invocation) (required : List Capability) (d : Decision) (e : Effect)
        (s : Store) (w : W)
        → Books i s
        → Books i (branch host tool q required d e s w).1
    branch-Books tool q required d allow s w b =
        let n = tool_invoked q.tool_name q.role d.tier none in
        elim (Bool-cases (str_eq q.workstream "")) [
          | inl blank ↦ rw blank b
          | inr named ↦ rw named (Books-emit i n s refl refl b)
        ]
    branch-Books tool q required d deny s w b = b
    branch-Books tool q required d needs_approval s w b = ask_case q.connected
      where
        ask_case : (c : Bool) → Books i (ask host tool q required d c s w).1
        ask_case true = with_grant-Books tool q required d _ (find_grant _ s) s w b
        ask_case false =
            let f = b.fresh in
            let n = approval_requested_ephemeral s.next_id d in
            let s' = record s { next_id = suc s.next_id } in
            let b' : Books i s' = record {
              runs = b.runs;
              approvals = b.approvals;
              rows = b.rows;
              fresh = λ le. ground arith;
            } in
            elim (Bool-cases (str_eq q.workstream "")) [
              | inl blank ↦ rw blank b'
              | inr named ↦ rw named (Books-emit i n s' refl refl b')
            ]

    invoke-Books :
        (q : Invocation) (s : Store) (w : W)
        → Books i s
        → Books i (invoke host registry config q s w).1
    unfolding invoke
    invoke-Books q s w b = elim (Bool-cases (str_eq q.workstream "")) [
      | inl blank ↦ elim (Option-cases (registry q.tool_name)) [
        | inl e ↦ rw (invoke_tool, e, blank) b
        | inr (tool, e) ↦ rw (invoke_tool, e, blank) b
      ]
      | inr named ↦ elim (Option-cases (registry q.tool_name)) [
        | inl e ↦ rw (invoke_tool, e) (rw named (Books-emit i _ s refl refl b))
        | inr (tool, e) ↦
            let required = tool.capabilities_for q.args in
            let d = decide (request_of q required) config in
            let mid : Books i (emit (policy_decision d) s) =
              Books-emit i (policy_decision d) s refl refl b in
            let after =
              branch-Books tool q required d d.effect (emit (policy_decision d) s) w mid in
            rw (invoke_tool, e) (when q.workstream named (policy_decision d) _ after)
      ]
    ]
      where
        when :
            (ws : String)
            → str_eq ws "" ≡ false
            → (n : Note) (out : Out W) → Books i out.1
            → Books i (if str_eq ws "" then (err blank_workstream, s, w) else out).1
        when ws named n out after = rw named after

    consume_grant-Books : (j : ℕ) (s : Store) → Books i s → Books i (consume_grant j s).1
    unfolding consume_grant
    consume_grant-Books j s b = elim (Option-cases (find? (by_id j is_approved) s.approvals)) [
      | inl e ↦ rw (consume_grant, e) b
      | inr (a, e) ↦ rw (consume_grant, e) ((Books-consume i j s a e b).0)
    ]

    perform-Books : (c : Call) (x : Store × W) → Books i x.0 → Books i (perform c x).0
    unfolding perform request_approval
    perform-Books (request a workstream fp args) (s, w) b = Books-request_row i workstream _ _ s b
    perform-Books (resolve id decision resolver ws) (s, w) b =
        Books-resolve i id decision resolver ws s b
    perform-Books (consume id) (s, w) b = consume_grant-Books id s b
    perform-Books (invocation q) (s, w) b = invoke-Books q s w b
    perform-Books (wait d) (s, w) b = record {
      runs = b.runs;
      approvals = b.approvals;
      rows = b.rows;
      fresh = b.fresh;
    }

    run-Books : (cs : List Call) (x : Store × W) → Books i x.0 → Books i (run cs x).0
    unfolding run
    run-Books [] x b = b
    run-Books (c ∷ cs) x b = run-Books cs (perform c x) (perform-Books c x b)

-- A store with no rows and no events.
unfoldable pub opened : ℕ → Store
opened now = record { approvals = []; events = []; clock = now; next_id = 0 }

opened-Books : (i now : ℕ) → Books i (opened now)
unfolding opened
opened-Books i now = record {
  runs = omega arith;
  approvals = refl;
  rows = omega arith;
  fresh = λ le. refl;
}

count_mono :
    {A : Type 0} (p q : A → Bool) (xs : List A)
    → ((a : A) → p a ≡ true → q a ≡ true)
    → count p xs ≤ count q xs
count_mono p q [] h = omega arith
count_mono p q (x ∷ xs) h = elim (Bool-cases (p x)) [
  | inl e ↦ let f = h x e in let ih = count_mono p q xs h in ground arith
  | inr e ↦ let ih = count_mono p q xs h in ground arith
]

-- After any calls of the approval loop from an empty store, with any tools and any policy, the
-- tools have run under one approval no more often than humans approved it, and humans approved it
-- at most once; each run under it has left its row consumed.
pub run_once :
    {W : Type 0} (host : Host) (registry : String → Option (Tool W)) (config : PolicyConfig)
    (now : ℕ) (w : W) (cs : List Call) (i : ℕ)
    → let s = (run host registry config cs (opened now, w)).0 in
      (count (is_run i) s.events ≤ count (is_spent i) s.approvals)
      × (count (is_spent i) s.approvals ≤ count (is_approval i) s.events)
      × (count (is_approval i) s.events ≤ 1)
run_once host registry config now w cs i =
    let s = (run host registry config cs (opened now, w)).0 in
    let b = run-Books host registry config i cs (opened now, w) (opened-Books i now) in
    let spent = count_mono (is_spent i) (was_approved i) s.approvals (λ a h. ground arith) in
    let one = count_mono (was_approved i) (has_id i) s.approvals (λ a h. ground arith) in
    let u = b.runs in let v = b.approvals in let r = b.rows in (u, omega arith, omega arith)
