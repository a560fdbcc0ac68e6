-- ===== src/Trust/Revoked.antt =====
-- A fabrication bars an identity, and no call of the trust ledger undoes it.
use ai_studio.Prelude.{
  ℕ, String, Bool, true, false, Option, some, List, [], ◌∷◌, ◌≡◌, inl, inr, refl, sym, ◌∙◌, ap,
  str_eq, eq_iff, Bool-cases, Option-cases, ok, subst,
}
use ai_studio.Db.{IdentityTrust}
use ai_studio.Tasks.Grab.{find_trust}
use ai_studio.Trust.{
  Ledger, ensure_trust, update_trust, struck, emit_strike, emit_verdict, Verdict, verified,
  rejected, unverifiable, verdict_of, set_known, get_claim, get_trust, is_relay_allowed,
  record_claim, set_claim_verification, record_proof_request, record_strike, at_moment, judged,
  CommsClaim,
}
use ai_studio.Trust.Strikes.{
  View, view, view_struck, ensure_trust-view, ensure_trust-found, strike-view,
}
use ai_studio.Trust.Calls.{Call, contact, relay, claim, verdict, proof, strike, wait, perform, run}

-- The ways in which a call may leave the ledger's rows.
pub data Touched (l : Ledger) : List IdentityTrust → Type 0 where
  kept : Touched l l.trust
  ensured : (j : String) → Touched l (ensure_trust l.clock j l.trust).1
  struck_row :
      (j : String) (b : Bool) (at : ℕ)
      → Touched l (update_trust j (struck b at) (ensure_trust l.clock j l.trust).1)

abbrev pub IsBarred : String → List IdentityTrust → Type 0
IsBarred i rows = ((view (find_trust i rows)).1 ≡ false) × ((view (find_trust i rows)).2 ≡ true)

view_struck-barred :
    (b : Bool) (v : View)
    → v.1 ≡ false
    → v.2 ≡ true
    → ((view_struck b v).1 ≡ false) × ((view_struck b v).2 ≡ true)
view_struck-barred true v h k = (refl, refl)
view_struck-barred false v h k = (h, k)

Touched-IsBarred :
    (i : String) (l : Ledger) (rows : List IdentityTrust)
    → Touched l rows
    → IsBarred i l.trust
    → IsBarred i rows
Touched-IsBarred i l _ kept b = b
Touched-IsBarred i l _ (ensured j) (h, k) =
    let v = ensure_trust-view l.clock i j l.trust in (ap (λ x. x.1) v ∙ h, ap (λ x. x.2) v ∙ k)
Touched-IsBarred i l _ (struck_row j b at) (h, k) =
    let v = strike-view i j b l.clock at l.trust in
    elim (Bool-cases (str_eq j i)) [
      | inl e ↦
          let (x, y) = view_struck-barred b (view (find_trust i l.trust)) h k in
          (ap (λ x. x.1) v ∙ rw e x, ap (λ x. x.2) v ∙ rw e y)
      | inr e ↦ (ap (λ x. x.1) v ∙ rw e h, ap (λ x. x.2) v ∙ rw e k)
    ]

emit_verdict-kept :
    (v : Verdict) (c : CommsClaim) (by : String) (l : Ledger)
    → (emit_verdict v c by l).trust ≡ l.trust
emit_verdict-kept verified c by l = refl
emit_verdict-kept rejected c by l = refl
emit_verdict-kept unverifiable c by l = refl

emit_strike-kept :
    (b : Bool) (j : String) (cid : Option ℕ) (kind : String) (n : ℕ) (l : Ledger)
    → (emit_strike b j cid kind n l).trust ≡ l.trust
emit_strike-kept true j cid kind n l = refl
emit_strike-kept false j cid kind n l = refl

module _ (blank : String → Bool) where
  get_trust-Touched : (j : String) (l : Ledger) → Touched l (get_trust blank j l).1.trust
  unfolding get_trust
  get_trust-Touched j l = elim (Bool-cases (blank j)) [
    | inl e ↦ rw e kept
    | inr e ↦ rw e (ensured j)
  ]

  record_claim-Touched :
      (j statement : String) (evidence : List String) (g : Bool) (ref : Option String)
      (now : Option ℕ) (l : Ledger)
      → Touched l (record_claim blank j statement evidence g ref now l).1.trust
  unfolding record_claim
  record_claim-Touched j statement evidence g ref now l = elim (Bool-cases (blank j)) [
    | inl e ↦ rw e kept
    | inr e ↦ elim (Bool-cases (blank statement)) [
      | inl f ↦ rw (e, f) kept
      | inr f ↦ rw (e, f) kept
    ]
  ]

  set_claim_verification-kept :
      (id : ℕ) (status by : String) (reason : Option String) (l : Ledger)
      → (set_claim_verification blank id status by reason l).1.trust ≡ l.trust
  unfolding set_claim_verification
  set_claim_verification-kept id status by reason l = elim (Option-cases (verdict_of status)) [
    | inl e ↦ rw (set_claim_verification, e) refl
    | inr (v, e) ↦ elim (Bool-cases (blank by)) [
      | inl f ↦ rw (set_claim_verification, e, f) refl
      | inr f ↦ elim (Option-cases (get_claim id l)) [
        | inl g ↦ rw (set_claim_verification, e, f, set_known, g) refl
        | inr (c, g) ↦
            rw (set_claim_verification, e, f, set_known, g)
              (emit_verdict-kept v (judged v by reason c) by _)
      ]
    ]
  ]

  record_proof_request-Touched :
      (j : String) (cid : Option ℕ) (l : Ledger)
      → Touched l (record_proof_request blank j cid l).1.trust
  unfolding record_proof_request
  record_proof_request-Touched j cid l = elim (Bool-cases (blank j)) [
    | inl e ↦ rw e kept
    | inr e ↦ rw e kept
  ]

  record_strike-Touched :
      (j : String) (cid : Option ℕ) (kind : String) (now : Option ℕ) (l : Ledger)
      → Touched l (record_strike blank j cid kind now l).1.trust
  unfolding record_strike
  record_strike-Touched j cid kind now l = elim (Bool-cases (blank j)) [
    | inl e ↦ rw e kept
    | inr e ↦ elim (Bool-cases (blank kind)) [
      | inl f ↦ rw (e, f) kept
      | inr f ↦
          let b = str_eq kind "fabrication" in
          let at = at_moment now l.clock in rw (e, f, emit_strike-kept b) (struck_row j b at)
    ]
  ]

  perform-Touched : (c : Call) (l : Ledger) → Touched l (perform blank c l).trust
  unfolding perform is_relay_allowed
  perform-Touched (contact j) l = get_trust-Touched j l
  perform-Touched (relay j) l = get_trust-Touched j l
  perform-Touched (claim j statement evidence g ref now) l =
      record_claim-Touched j statement evidence g ref now l
  perform-Touched (verdict id status by reason) l =
      subst (Touched l) (sym (set_claim_verification-kept id status by reason l)) kept
  perform-Touched (proof j cid) l = record_proof_request-Touched j cid l
  perform-Touched (strike j cid kind now) l = record_strike-Touched j cid kind now l
  perform-Touched (wait d) l = kept

  pub run-IsBarred :
      (i : String) (cs : List Call) (l : Ledger)
      → IsBarred i l.trust
      → IsBarred i (run blank cs l).trust
  unfolding run
  run-IsBarred i [] l b = b
  run-IsBarred i (c ∷ cs) l b =
      run-IsBarred i cs (perform blank c l)
        (Touched-IsBarred i l (perform blank c l).trust (perform-Touched c l) b)

  -- A strike for a fabrication that passes the checks.
  pub fabrication-IsBarred :
      (i : String) (cid : Option ℕ) (now : Option ℕ) (l : Ledger)
      → blank i ≡ false
      → blank "fabrication" ≡ false
      → IsBarred i (record_strike blank i cid "fabrication" now l).1.trust
  unfolding record_strike
  fabrication-IsBarred i cid now l h k =
      let same = (eq_iff i i).1 refl in
      let v = strike-view i i true l.clock (at_moment now l.clock) l.trust in
      let w : view (
            find_trust i (
              update_trust i (struck true (at_moment now l.clock))
                (ensure_trust l.clock i l.trust).1))
          ≡ view_struck true (view (find_trust i l.trust)) =
        v ∙ rw same refl in
      rw (h, k) (ap (λ x. x.1) w, ap (λ x. x.2) w)

  pub is_relay_allowed-IsBarred :
      (i : String) (l : Ledger)
      → blank i ≡ false
      → IsBarred i l.trust
      → (is_relay_allowed blank i l).0 ≡ ok false
  unfolding is_relay_allowed get_trust
  is_relay_allowed-IsBarred i l e (h, k) =
      let v : view (some (ensure_trust l.clock i l.trust).0) ≡ view (find_trust i l.trust) =
        ap view (sym (ensure_trust-found l.clock i l.trust))
        ∙ ensure_trust-view l.clock i i l.trust in
      let shut = ap (λ x. x.1) v ∙ h in rw (is_relay_allowed, get_trust, e, shut) refl

  -- A strike for a fabrication against an identity that is not blank, on any ledger: after any
  -- calls that follow, later strikes and verdicts included, the identity may not relay to the
  -- human, and its row is fenced off from the queue.
  pub run_revoked :
      (i : String) (cid now : Option ℕ) (l : Ledger) (cs : List Call)
      → blank i ≡ false
      → blank "fabrication" ≡ false
      → let after = run blank (strike i cid "fabrication" now ∷ cs) l in
        ((is_relay_allowed blank i after).0 ≡ ok false)
        × ((view (find_trust i after.trust)).2 ≡ true)
  unfolding run perform
  run_revoked i cid now l cs h k =
      let after = run blank cs (record_strike blank i cid "fabrication" now l).1 in
      let b =
        run-IsBarred i cs (record_strike blank i cid "fabrication" now l).1
          (fabrication-IsBarred i cid now l h k) in
      (is_relay_allowed-IsBarred i after h b, b.1)
