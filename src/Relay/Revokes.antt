-- ===== src/Relay/Revokes.antt =====
-- A fabrication that the gate finds bars its source, and the gate keeps it barred.
use ai_studio.Prelude.{
  ℕ, String, Bool, true, false, Option, none, some, List, [], ◌∷◌, ◌++◌, ◌≡◌, refl, sym, ◌∙◌, map,
  Result, ok, err,
}
use ai_studio.Trust.{
  TrustError, is_relay_allowed, set_claim_verification, record_proof_request, record_strike,
}
use ai_studio.Trust.Calls.{Call, claim, verdict, proof, strike, perform, run}
use ai_studio.Trust.Revoked.{
  IsBarred, run-IsBarred, fabrication-IsBarred, is_relay_allowed-IsBarred,
}
use ai_studio.Grounding.{Claim}
use ai_studio.Relay.{
  Status, verified, unverifiable, rejected, status_text, ClaimVerdict, verify_claim, Studio, Host,
  Step, pure, ◌>>=◌, ◌>>◌, continue, on_ledger, Batch, no_batch, Summary, withheld, gate_identity,
  strike_all, cascade, ruled, handled, recorded, stamped, relay_claim, relay_each, decided, send,
  permitted, relay_claims,
}
use ai_studio.Relay.Steps.{Ends, Ends-bind, Ends-then}

module _ (h : Host) (i : String) where
  abbrev Shut : Studio → Type 0
  Shut s = IsBarred i s.ledger.trust

  -- The step leaves a barred identity barred.
  record Bars {ℓ} {A : Type ℓ} (m : Step A) : Type ℓ where
    keeps : (s : Studio) → Shut s → Shut (m s).1

  Bars-pure {ℓ} : {A : Type ℓ} (a : A) → Bars (pure a)
  Bars-pure a = record { keeps = λ s b. b }

  continue-Shut {ℓ κ} :
      {A : Type ℓ} {B : Type κ} (r : Result TrustError A) (k : A → Step B) (s : Studio)
      → ((a : A) → Bars (k a))
      → Shut s
      → Shut (continue r k s).1
  continue-Shut (ok a) k s q b = (q a).keeps s b
  continue-Shut (err e) k s q b = b

  Bars-bind {ℓ κ} :
      {A : Type ℓ} {B : Type κ} (m : Step A) (k : A → Step B)
      → Bars m
      → ((a : A) → Bars (k a))
      → Bars (m >>= k)
  Bars-bind m k p q = record { keeps = λ s b. continue-Shut (m s).0 k (m s).1 q (p.keeps s b) }

  Bars-then {ℓ κ} :
      {A : Type ℓ} {B : Type κ} (m : Step A) (k : Step B) → Bars m → Bars k → Bars (m >> k)
  Bars-then m k p q = Bars-bind m (λ _. k) p (λ _. q)

  strike-Bars :
      (j : String) (cid : ℕ)
      → Bars (on_ledger (record_strike h.blank j (some cid) "fabrication" none))
  unfolding run perform
  strike-Bars j cid = record {
    keeps = λ s b. run-IsBarred h.blank i (strike j (some cid) "fabrication" none ∷ []) s.ledger b;
  }

  proof-Bars : (j : String) (cid : ℕ) → Bars (on_ledger (record_proof_request h.blank j (some cid)))
  unfolding run perform
  proof-Bars j cid = record {
    keeps = λ s b. run-IsBarred h.blank i (proof j (some cid) ∷ []) s.ledger b;
  }

  recorded-Bars : (j : String) (c : Claim) (ref : Option String) → Bars (recorded h j c ref)
  unfolding run perform
  recorded-Bars j c ref = record {
    keeps = λ s b.
        run-IsBarred h.blank i
          (claim j c.statement (map h.dump c.evidence) c.is_judgment ref none ∷ []) s.ledger b;
  }

  stamped-Bars : (cid : ℕ) (v : ClaimVerdict) → Bars (stamped h cid v)
  unfolding run perform
  stamped-Bars cid v =
      Bars-then
        (on_ledger (
          set_claim_verification h.blank cid (status_text v.status) gate_identity
            (some (h.render v.why))))
        (pure tt)
        (record {
          keeps = λ s b.
              run-IsBarred h.blank i
                (verdict cid (status_text v.status) gate_identity (some (h.render v.why)) ∷ [])
                s.ledger b;
        })
        (Bars-pure tt)

  strike_all-Bars : (cid : ℕ) (who : List String) → Bars (strike_all h cid who)
  unfolding strike_all
  strike_all-Bars cid [] = Bars-pure tt
  strike_all-Bars cid (a ∷ more) =
      Bars-then (on_ledger (record_strike h.blank a (some cid) "fabrication" none))
        (strike_all h cid more) (strike-Bars a cid) (strike_all-Bars cid more)

  cascade-Bars : (c : Claim) (cid : ℕ) (j : String) → Bars (cascade h c cid j)
  unfolding cascade
  cascade-Bars c cid j = record { keeps = λ s b. (strike_all-Bars cid _).keeps s b }

  -- Where a batch notes a fabrication, its source is barred.
  abbrev Noted : Batch → Studio → Type 0
  Noted b s = b.fabrication ≡ true → Shut s

  -- What leaves the note as it was keeps this.
  Ends-Noted :
      (m : Step Batch) (b : Batch) (s : Studio)
      → Bars m
      → Ends (λ b' _. b'.fabrication ≡ b.fabrication) (m s)
      → Noted b s
      → Ends Noted (m s)
  Ends-Noted m b s k e n = go (m s).0 (m s).1 e (k.keeps s)
    where
      go :
          (r : Result TrustError Batch) (s' : Studio)
          → Ends (λ b' _. b'.fabrication ≡ b.fabrication) (r, s')
          → (Shut s → Shut s')
          → Ends Noted (r, s')
      go (ok b') s' e k = λ f. k (n (sym e ∙ f))
      go (err x) s' e k = tt

  abbrev Closed {ℓ} : {A : Type ℓ} → A → Studio → Type 0
  Closed a s = Shut s

  Ends-Closed {ℓ} :
      {A : Type ℓ} (r : Result TrustError A) (s : Studio) → Shut s → Ends Closed (r, s)
  Ends-Closed (ok a) s k = k
  Ends-Closed (err e) s k = tt

  module _ (named : h.blank i ≡ false) (word : h.blank "fabrication" ≡ false) where
    ruled-Noted :
        (st : Status) (c : Claim) (cid : ℕ) (v : ClaimVerdict) (b : Batch) (s : Studio)
        → Noted b s
        → Ends Noted (ruled h st i c cid v b s)
    ruled-Noted verified c cid v b s n =
        Ends-Noted (ruled h verified i c cid v b) b s
          (Bars-then (stamped h cid v) _ (stamped-Bars cid v) (Bars-pure _))
          (Ends-then (λ b' _. b'.fabrication ≡ b.fabrication) (stamped h cid v) _ s (λ _ s'. refl))
          n
    ruled-Noted unverifiable c cid v b s n =
        let m = stamped h cid v >> on_ledger (record_proof_request h.blank i (some cid)) in
        Ends-Noted (ruled h unverifiable i c cid v b) b s
          (Bars-then m _ (Bars-then (stamped h cid v) _ (stamped-Bars cid v) (proof-Bars i cid))
            (Bars-pure _))
          (Ends-then (λ b' _. b'.fabrication ≡ b.fabrication) m _ s (λ _ s'. refl)) n
    ruled-Noted rejected c cid v b s n =
        let hit = on_ledger (record_strike h.blank i (some cid) "fabrication" none) in
        Ends-bind Closed Noted (stamped h cid v >> hit >> cascade h c cid i)
          (λ _. pure (record b { statuses = b.statuses ++ some rejected ∷ []; fabrication = true }))
          s
          (Ends-bind Closed Closed (stamped h cid v >> hit) (λ _. cascade h c cid i) s
            (Ends-then Closed (stamped h cid v) (λ _. hit) s
              (λ _ s'.
                Ends-Closed (hit s').0 (hit s').1
                  (fabrication-IsBarred h.blank i (some cid) none s'.ledger named word)))
            (λ _ s' k.
              Ends-Closed (cascade h c cid i s').0 (cascade h c cid i s').1
                ((cascade-Bars c cid i).keeps s' k)))
          (λ _ s' k f. k)

    handled-Noted :
        (j : Bool) (c : Claim) (b : Batch) (cid : ℕ) (s : Studio)
        → Noted b s
        → Ends Noted (handled h j i c b cid s)
    handled-Noted true c b cid s n = n
    handled-Noted false c b cid s n =
        let v = verify_claim h.lib (h.ask s) c in ruled-Noted v.status c cid v b s n

    relay_each-Noted :
        (ref : Option String) (cs : List Claim) (b : Batch) (s : Studio)
        → Noted b s
        → Ends Noted (relay_each h i ref cs b s)
    unfolding relay_each relay_claim
    relay_each-Noted ref [] b s n = n
    relay_each-Noted ref (c ∷ cs) b s n =
        Ends-bind Noted Noted (relay_claim h i ref c b) (relay_each h i ref cs) s
          (Ends-bind (λ _ s'. Noted b s') Noted (recorded h i c ref) (handled h c.is_judgment i c b)
            s
            (kept (recorded h i c ref s).0 (recorded h i c ref s).1
              (λ f. (recorded-Bars i c ref).keeps s (n f)))
            (λ cid s' n'. handled-Noted c.is_judgment c b cid s' n'))
          (λ b' s' n'. relay_each-Noted ref cs b' s' n')
      where
        kept :
            (r : Result TrustError ℕ) (s' : Studio) → Noted b s' → Ends (λ _ s'. Noted b s') (r, s')
        kept (ok x) s' n = n
        kept (err e) s' n = tt

    -- What an alarm leaves behind.
    abbrev After : Result TrustError Summary × Studio → Type 0
    After (ok r, s') = r.escalated ≡ true → Shut s'
    After (err e, s') = Unit {0}

    decided-After :
        (f : Bool) (kind : String) (b : Batch) (s : Studio)
        → (f ≡ true → Shut s)
        → After (decided h f kind i b s)
    decided-After true kind b s n = λ e. n refl
    decided-After false kind b s n = λ e. cc

    send-After :
        (kind : String) (o : Result TrustError Batch) (s : Studio)
        → Ends Noted (o, s)
        → After (continue o (send h kind i) s)
    unfolding send
    send-After kind (ok b) s n = decided-After b.fabrication kind b s n
    send-After kind (err e) s n = tt

    permitted-After :
        (allowed : Result TrustError Bool) (kind : String) (cs : List Claim) (ref : Option String)
        (s : Studio)
        → After (permitted h allowed kind i cs ref s)
    permitted-After (ok true) kind cs ref s =
        let r = relay_each h i ref cs no_batch s in
        send-After kind r.0 r.1 (relay_each-Noted ref cs no_batch s (λ e. cc))
    permitted-After (ok false) kind cs ref s = λ e. cc
    permitted-After (err e) kind cs ref s = λ e. cc

    relay_claims-After :
        (kind : String) (cs : List Claim) (ref : Option String) (s : Studio)
        → After (relay_claims h kind i cs ref s)
    unfolding relay_claims
    relay_claims-After kind cs ref s =
        let (allowed, l) = is_relay_allowed h.blank i s.ledger in
        permitted-After allowed kind cs ref (record s { ledger = l })

    escalated-Shut :
        (r : Result TrustError Summary × Studio) (m : Summary) (s' : Studio)
        → r ≡ (ok m, s')
        → m.escalated ≡ true
        → After r
        → Shut s'
    escalated-Shut r m s' e f a = let b : After (ok m, s') = rw e at a in b f

    relay_claims-Shut :
        (kind : String) (cs : List Claim) (ref : Option String) (s : Studio)
        → Shut s
        → ((relay_claims h kind i cs ref s).0 ≡ ok withheld)
          × ((relay_claims h kind i cs ref s).1.sent ≡ s.sent)
    unfolding relay_claims
    relay_claims-Shut kind cs ref s b =
        let e = is_relay_allowed-IsBarred h.blank i s.ledger named b in (rw e refl, rw e refl)

    -- Once a call of the gate has raised the alarm, its source is silenced for good: after any calls of
    -- the trust ledger that follow, verdicts and strikes included, every call of the gate for that
    -- identity, with any claims and of any kind, is withheld and sends nothing.
    pub relay_claims-revokes :
        (kind : String) (cs : List Claim) (ref : Option String) (s : Studio) (m : Summary)
        (s' : Studio)
        → relay_claims h kind i cs ref s ≡ (ok m, s')
        → m.escalated ≡ true
        → (calls : List Call) (kind' : String) (more : List Claim) (ref' : Option String)
        → let late = record s' { ledger = run h.blank calls s'.ledger } in
          ((relay_claims h kind' i more ref' late).0 ≡ ok withheld)
          × ((relay_claims h kind' i more ref' late).1.sent ≡ late.sent)
    relay_claims-revokes kind cs ref s m s' e f calls kind' more ref' =
        let late : Studio = record s' { ledger = run h.blank calls s'.ledger } in
        relay_claims-Shut kind' more ref' late (
          run-IsBarred h.blank i calls s'.ledger (
            escalated-Shut (relay_claims h kind i cs ref s) m s' e f
              (relay_claims-After kind cs ref s)))
