-- ===== src/Trust/Calls.antt =====
-- Any calls of the trust ledger, in any order, and what they leave of an identity.
use ai_studio.Prelude.{
  ℕ, ◌+◌, String, Bool, true, false, Option, none, some, List, [], ◌∷◌, ◌≡◌, inl, inr, refl, sym,
  ◌∙◌, ap, ◌&&◌, not, str_eq, any, Bool-cases, Option-cases, if◌then◌else◌, ok,
}
use ai_studio.Db.{Db, IdentityTrust}
use ai_studio.Tasks.Grab.{find_trust, fenced, identity_quarantined}
use ai_studio.Trust.{
  Ledger, ensure_trust, update_trust, struck, emit_strike, emit_verdict, Verdict, verified,
  rejected, unverifiable, verdict_of, set_known, get_claim, judged, update_claim, get_trust,
  is_relay_allowed, record_claim, set_claim_verification, record_proof_request, record_strike,
  CommsClaim, proof_requested, claim_verified, claim_rejected, at_moment,
}
use ai_studio.Trust.Strikes.{
  view, booked, Books, ensure_trust-view, ensure_trust-found, strike-view, booked-append,
  booked-strike, view_struck, is_fabrication,
}

pub data Call : Type 0 where
  contact relay : String → Call
  claim : (identity statement : String) → List String → Bool → Option String → Option ℕ → Call
  verdict : ℕ → (status verified_by : String) → Option String → Call
  proof : String → Option ℕ → Call
  strike : String → Option ℕ → (kind : String) → Option ℕ → Call
  wait : ℕ → Call

module _ (blank : String → Bool) where
  unfoldable pub perform : Call → Ledger → Ledger
  perform (contact i) l = (get_trust blank i l).1
  perform (relay i) l = (is_relay_allowed blank i l).1
  perform (claim i statement evidence is_judgment ref now) l =
      (record_claim blank i statement evidence is_judgment ref now l).1
  perform (verdict id status by reason) l = (set_claim_verification blank id status by reason l).1
  perform (proof i cid) l = (record_proof_request blank i cid l).1
  perform (strike i cid kind now) l = (record_strike blank i cid kind now l).1
  perform (wait d) l = record l { clock = l.clock + d }

  unfoldable pub run : List Call → Ledger → Ledger
  run [] l = l
  run (c ∷ cs) l = run cs (perform c l)

  module _ (i : String) where
    get_trust-Books : (j : String) (l : Ledger) → Books i l → Books i (get_trust blank j l).1
    unfolding get_trust
    get_trust-Books j l b = elim (Bool-cases (blank j)) [
      | inl e ↦ rw e b
      | inr e ↦ rw e (ensure_trust-view l.clock i j l.trust ∙ b)
    ]

    record_claim-Books :
        (j statement : String) (evidence : List String) (g : Bool) (ref : Option String)
        (now : Option ℕ) (l : Ledger)
        → Books i l
        → Books i (record_claim blank j statement evidence g ref now l).1
    unfolding record_claim
    record_claim-Books j statement evidence g ref now l b = elim (Bool-cases (blank j)) [
      | inl e ↦ rw e b
      | inr e ↦ elim (Bool-cases (blank statement)) [ inl f ↦ rw (e, f) b | inr f ↦ rw (e, f) b ]
    ]

    emit_verdict-Books :
        (v : Verdict) (c : CommsClaim) (by : String) (l : Ledger)
        → Books i l
        → Books i (emit_verdict v c by l)
    emit_verdict-Books verified c by l b =
        b ∙ sym (booked-append i (claim_verified c.id c.originating_identity by) l.events)
    emit_verdict-Books rejected c by l b =
        b ∙ sym (booked-append i (claim_rejected c.id c.originating_identity by) l.events)
    emit_verdict-Books unverifiable c by l b = b

    set_known-Books :
        (id : ℕ) (v : Verdict) (by : String) (reason : Option String) (l : Ledger)
        → Books i l
        → Books i (set_known id v by reason l).1
    set_known-Books id v by reason l b = elim (Option-cases (get_claim id l)) [
      | inl e ↦ rw (set_known, e) b
      | inr (c, e) ↦
          rw (set_known, e)
            (emit_verdict-Books v (judged v by reason c) by
              (record l { claims = update_claim id (judged v by reason) l.claims }) b)
    ]

    set_claim_verification-Books :
        (id : ℕ) (status by : String) (reason : Option String) (l : Ledger)
        → Books i l
        → Books i (set_claim_verification blank id status by reason l).1
    unfolding set_claim_verification
    set_claim_verification-Books id status by reason l b = elim (Option-cases (verdict_of status)) [
      | inl e ↦ rw (set_claim_verification, e) b
      | inr (v, e) ↦ elim (Bool-cases (blank by)) [
        | inl f ↦ rw (set_claim_verification, e, f) b
        | inr f ↦ rw (set_claim_verification, e, f) (set_known-Books id v by reason l b)
      ]
    ]

    record_proof_request-Books :
        (j : String) (cid : Option ℕ) (l : Ledger)
        → Books i l
        → Books i (record_proof_request blank j cid l).1
    unfolding record_proof_request
    record_proof_request-Books j cid l b = elim (Bool-cases (blank j)) [
      | inl e ↦ rw e b
      | inr e ↦ rw e (b ∙ sym (booked-append i (proof_requested j cid) l.events))
    ]

    emit_strike-Books :
        (b : Bool) (j : String) (cid : Option ℕ) (kind : String) (n at : ℕ) (l : Ledger)
        → Books i l
        → Books i (
            emit_strike b j cid kind n (record l {
              trust = update_trust j (struck b at) (ensure_trust l.clock j l.trust).1;
            }))
    emit_strike-Books true j cid kind n at l b =
        strike-view i j true l.clock at l.trust
        ∙ ap (λ v. if str_eq j i then view_struck true v else v) b
        ∙ sym (booked-strike i j true cid kind n l)
    emit_strike-Books false j cid kind n at l b =
        strike-view i j false l.clock at l.trust
        ∙ ap (λ v. if str_eq j i then view_struck false v else v) b
        ∙ sym (booked-strike i j false cid kind n l)

    record_strike-Books :
        (j : String) (cid : Option ℕ) (kind : String) (now : Option ℕ) (l : Ledger)
        → Books i l
        → Books i (record_strike blank j cid kind now l).1
    unfolding record_strike
    record_strike-Books j cid kind now l b = elim (Bool-cases (blank j)) [
      | inl e ↦ rw e b
      | inr e ↦ elim (Bool-cases (blank kind)) [
        | inl f ↦ rw (e, f) b
        | inr f ↦
            rw (e, f)
              (emit_strike-Books (str_eq kind "fabrication") j cid kind _ (at_moment now l.clock) l
                b)
      ]
    ]

    perform-Books : (c : Call) (l : Ledger) → Books i l → Books i (perform c l)
    unfolding perform is_relay_allowed
    perform-Books (contact j) l b = get_trust-Books j l b
    perform-Books (relay j) l b = get_trust-Books j l b
    perform-Books (claim j statement evidence g ref now) l b =
        record_claim-Books j statement evidence g ref now l b
    perform-Books (verdict id status by reason) l b =
        set_claim_verification-Books id status by reason l b
    perform-Books (proof j cid) l b = record_proof_request-Books j cid l b
    perform-Books (strike j cid kind now) l b = record_strike-Books j cid kind now l b
    perform-Books (wait d) l b = b

    run-Books : (cs : List Call) (l : Ledger) → Books i l → Books i (run cs l)
    unfolding run
    run-Books [] l b = b
    run-Books (c ∷ cs) l b = run-Books cs (perform c l) (perform-Books c l b)

-- A ledger with no rows and no events.
unfoldable pub opened : ℕ → Ledger
opened now = record { trust = []; claims = []; events = []; clock = now; next_id = 0; next_seq = 1 }

opened-Books : (i : String) (now : ℕ) → Books i (opened now)
unfolding opened find_trust
opened-Books i now = refl

-- The answer of the relay, from the view of the identity.
is_relay_allowed-Books :
    (blank : String → Bool) (i : String) (l : Ledger)
    → blank i ≡ false
    → Books i l
    → (is_relay_allowed blank i l).0 ≡ ok (not (any (is_fabrication i) l.events))
unfolding is_relay_allowed get_trust
is_relay_allowed-Books blank i l e b =
    let (row, rows) = ensure_trust l.clock i l.trust in
    let v : view (some row) ≡ booked i l.events =
      ap view (sym (ensure_trust-found l.clock i l.trust))
      ∙ ensure_trust-view l.clock i i l.trust
      ∙ b in
    let relay = ap (λ x. x.1) v in
    let fence = ap (λ x. x.2) v in
    rw (is_relay_allowed, get_trust, e, relay, fence)
      (ap ok (twice (any (is_fabrication i) l.events)))
  where
    twice : (f : Bool) → (not f && not f) ≡ not f
    twice true = refl
    twice false = refl

fence-view :
    (o : Option IdentityTrust)
    → (elim o [ none ↦ false | some row ↦ fenced row.trust_state ]) ≡ (view o).2
fence-view none = refl
fence-view (some r) = refl

-- After any calls of the trust ledger from an empty one, for an identity that is not blank: it may
-- relay to the human exactly when the log has no fabrication of it, a queue that reads this ledger
-- fences it exactly when the log has one, and the strikes in its row are those in the log.
pub run_barred :
    (blank : String → Bool) (now : ℕ) (cs : List Call) (i : String) (db : Db)
    → blank i ≡ false
    → str_eq i "" ≡ false
    → db.trust ≡ (run blank cs (opened now)).trust
    → let l = run blank cs (opened now) in
      ((is_relay_allowed blank i l).0 ≡ ok (not (any (is_fabrication i) l.events)))
      × (identity_quarantined db i ≡ any (is_fabrication i) l.events)
      × (view (find_trust i l.trust) ≡ booked i l.events)
unfolding identity_quarantined find_trust
run_barred blank now cs i db h k same =
    let l = run blank cs (opened now) in
    let b = run-Books blank i cs (opened now) (opened-Books i now) in
    (
      is_relay_allowed-Books blank i l h b,
      rw (k, same) (fence-view (find_trust i l.trust) ∙ ap (λ x. x.2) b),
      b,
    )
