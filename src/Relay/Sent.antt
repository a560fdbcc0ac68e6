-- ===== src/Relay/Sent.antt =====
-- What the gate lets through to the human.
use ai_studio.Prelude.{
  ℕ, String, Bool, true, false, Option, none, some, List, [], ◌∷◌, ◌++◌, ◌≡◌, inl, inr, refl, sym,
  ◌∙◌, ◌||◌, ap, arith, In, All, any, map, Result, ok, err,
}
use ai_studio.Trust.{TrustError, is_relay_allowed, record_proof_request, record_strike}
use ai_studio.Grounding.{EvidenceRef, Claim, is_empty}
use ai_studio.Relay.Resolve.{resolve_ref}
use ai_studio.Relay.{
  Status, verified, unverifiable, rejected, ClaimVerdict, verify_claim, Line, judgment, fact, alarm,
  relay, Studio, Host, ◌>>◌, on_ledger, Batch, no_batch, Summary, strike_all, cascade, ruled,
  handled, recorded, relay_claim, relay_each, send, relay_claims, statement_of, stamped, decided,
  permitted, deliver, continue,
}
use ai_studio.Relay.Steps.{
  IsQuiet, IsQuiet-pure, IsQuiet-on_ledger, IsQuiet-bind, IsQuiet-then, Ends, Ends-bind, Ends-then,
  Ends-reached, Ends-Any, Any,
}
use ai_studio.Relay.Verdicts.{Supports, verdict_on-verified}

All-snoc :
    {A : Type 0} (P : A → Type 0) (xs : List A) (x : A) → All P xs → P x → All P (xs ++ x ∷ [])
All-snoc P [] x a p = (p, tt)
All-snoc P (y ∷ ys) x a p = (a.0, All-snoc P ys x a.1 p)

any-snoc :
    {A : Type 0} (p : A → Bool) (xs : List A) (x : A) → any p (xs ++ x ∷ []) ≡ (any p xs || p x)
any-snoc p [] x = ground arith
any-snoc p (y ∷ ys) x = ground (arith, any-snoc p ys x)

module _ (h : Host) where
  strike_all-IsQuiet : (cid : ℕ) (who : List String) → IsQuiet (strike_all h cid who)
  unfolding strike_all
  strike_all-IsQuiet cid [] = IsQuiet-pure tt
  strike_all-IsQuiet cid (a ∷ more) =
      IsQuiet-bind (on_ledger (record_strike h.blank a (some cid) "fabrication" none)) _
        (IsQuiet-on_ledger _) (λ _. strike_all-IsQuiet cid more)

  cascade-IsQuiet : (c : Claim) (cid : ℕ) (i : String) → IsQuiet (cascade h c cid i)
  unfolding cascade
  cascade-IsQuiet c cid i = record { silent = λ s. (strike_all-IsQuiet cid _).silent s }

  stamped-IsQuiet : (cid : ℕ) (v : ClaimVerdict) → IsQuiet (stamped h cid v)
  stamped-IsQuiet cid v = IsQuiet-then _ _ (IsQuiet-on_ledger _) (IsQuiet-pure tt)

  ruled-IsQuiet :
      (st : Status) (i : String) (c : Claim) (cid : ℕ) (v : ClaimVerdict) (b : Batch)
      → IsQuiet (ruled h st i c cid v b)
  ruled-IsQuiet verified i c cid v b = IsQuiet-then _ _ (stamped-IsQuiet cid v) (IsQuiet-pure _)
  ruled-IsQuiet unverifiable i c cid v b =
      IsQuiet-then _ _ (IsQuiet-then _ _ (stamped-IsQuiet cid v) (IsQuiet-on_ledger _))
        (IsQuiet-pure _)
  ruled-IsQuiet rejected i c cid v b =
      IsQuiet-then _ _
        (IsQuiet-then _ _ (IsQuiet-then _ _ (stamped-IsQuiet cid v) (IsQuiet-on_ledger _))
          (cascade-IsQuiet c cid i))
        (IsQuiet-pure _)

  handled-IsQuiet :
      (j : Bool) (i : String) (c : Claim) (b : Batch) (cid : ℕ) → IsQuiet (handled h j i c b cid)
  handled-IsQuiet true i c b cid = record { silent = λ s. refl }
  handled-IsQuiet false i c b cid = record {
    silent = λ s.
        let v = verify_claim h.lib (h.ask s) c in (ruled-IsQuiet v.status i c cid v b).silent s;
  }

  recorded-IsQuiet : (i : String) (c : Claim) (ref : Option String) → IsQuiet (recorded h i c ref)
  recorded-IsQuiet i c ref = record { silent = λ s. refl }

  relay_claim-IsQuiet :
      (i : String) (ref : Option String) (c : Claim) (b : Batch) → IsQuiet (relay_claim h i ref c b)
  unfolding relay_claim
  relay_claim-IsQuiet i ref c b =
      IsQuiet-bind (recorded h i c ref) (handled h c.is_judgment i c b) (recorded-IsQuiet i c ref)
        (handled-IsQuiet c.is_judgment i c b)

  relay_each-IsQuiet :
      (i : String) (ref : Option String) (cs : List Claim) (b : Batch)
      → IsQuiet (relay_each h i ref cs b)
  unfolding relay_each
  relay_each-IsQuiet i ref [] b = IsQuiet-pure b
  relay_each-IsQuiet i ref (c ∷ cs) b =
      IsQuiet-bind _ _ (relay_claim-IsQuiet i ref c b) (relay_each-IsQuiet i ref cs)

  -- `Came i ref s₀ cs rest b s`: the loop over `cs`, begun in `s₀`, came to the batch `b` in `s`, with
  -- the claims `rest` before it.
  pub data Came (i : String) (ref : Option String) (s0 : Studio) (cs : List Claim)
      : List Claim → Batch → Studio → Type 0 where
    begun : Came i ref s0 cs cs no_batch s0
    moved :
        {c : Claim} {rest : List Claim} {b b' : Batch} {s s' : Studio}
        → Came i ref s0 cs (c ∷ rest) b s
        → relay_claim h i ref c b s ≡ (ok b', s')
        → Came i ref s0 cs rest b' s'

  -- The loop came to the claim, recorded it, and then every ref of it was found and supports it.
  pub record Checked (i : String) (ref : Option String) (s0 : Studio) (cs : List Claim) (c : Claim)
      : Type 0 where
    pub rest : List Claim
    pub batch : Batch
    pub came_in : Studio
    pub came : Came i ref s0 cs (c ∷ rest) batch came_in
    pub claim_id : ℕ
    pub asked_in : Studio
    pub stored : recorded h i c ref came_in ≡ (ok claim_id, asked_in)
    pub supported : All Supports (map (resolve_ref h.lib (h.ask asked_in)) c.evidence)

  -- A line that the gate may send: a labelled judgment of the batch, or the statement of a factual
  -- claim of it whose refs, one at least, were all found and not contradicted when it was checked.
  abbrev pub Backed : String → Option String → Studio → List Claim → Line → Type 0
  Backed i ref s0 cs (judgment t) =
      (c : Claim) × In c cs × (c.is_judgment ≡ true) × (c.statement ≡ t)
  Backed i ref s0 cs (fact t) =
      (c : Claim) × In c cs
      × (c.is_judgment ≡ false)
      × (c.statement ≡ t)
      × (is_empty c.evidence ≡ false)
      × Checked i ref s0 cs c

  abbrev is_rejected : Option Status → Bool
  is_rejected (some rejected) = true
  is_rejected _ = false

  -- What holds of a batch within the loop.
  pub record Vetted (i : String) (ref : Option String) (s0 : Studio) (cs : List Claim) (b : Batch)
      : Type 0 where
    pub backed : All (Backed i ref s0 cs) b.sendable
    pub counted : b.fabrication ≡ any is_rejected b.statuses

  -- What a batch is after a claim.
  abbrev passed_on : Batch → Option Status → List Line → Bool → Batch
  passed_on b st lines f = record {
    statuses = b.statuses ++ st ∷ [];
    sendable = lines;
    fabrication = f;
  }

  module _ (i : String) (ref : Option String) (s0 : Studio) (cs : List Claim) (b : Batch)
      (k : Vetted i ref s0 cs b) where
    counted_on :
        (st : Option Status)
        → is_rejected st ≡ false
        → b.fabrication ≡ any is_rejected (b.statuses ++ st ∷ [])
    counted_on st e = k.counted ∙ sym (any-snoc is_rejected b.statuses st ∙ rw e (ground arith))

    ruled-Vetted :
        (st : Status) (c : Claim) (rest : List Claim) (s1 : Studio) (cid : ℕ) (v : ClaimVerdict)
        (s : Studio)
        → Came i ref s0 cs (c ∷ rest) b s1
        → recorded h i c ref s1 ≡ (ok cid, s)
        → In c cs
        → c.is_judgment ≡ false
        → v ≡ verify_claim h.lib (h.ask s) c
        → v.status ≡ st
        → Ends (λ b' _. Vetted i ref s0 cs b') (ruled h st i c cid v b s)
    unfolding verify_claim
    ruled-Vetted verified c rest s1 cid v s came stored m j e q =
        let (some_refs, all_refs) =
          verdict_on-verified (map (resolve_ref h.lib (h.ask s)) c.evidence)
            (sym (ap (λ (x : ClaimVerdict). x.status) e) ∙ q) in
        Ends-then _ (stamped h cid v) _ s (λ _ s'. record {
          backed = All-snoc (Backed i ref s0 cs) b.sendable (fact c.statement) k.backed (
            c,
            m,
            j,
            refl,
            nonempty c.evidence some_refs,
            record {
              rest = rest;
              batch = b;
              came_in = s1;
              came = came;
              claim_id = cid;
              asked_in = s;
              stored = stored;
              supported = all_refs;
            },
          );
          counted = counted_on (some verified) refl;
        })
      where
        nonempty :
            (rs : List EvidenceRef)
            → is_empty (map (resolve_ref h.lib (h.ask s)) rs) ≡ false
            → is_empty rs ≡ false
        nonempty [] n = n
        nonempty (x ∷ xs) n = refl
    ruled-Vetted unverifiable c rest s1 cid v s came stored m j e q =
        Ends-then (λ b' _. Vetted i ref s0 cs b')
          (stamped h cid v >> on_ledger (record_proof_request h.blank i (some cid))) _ s
          (λ _ s'. record { backed = k.backed; counted = counted_on (some unverifiable) refl })
    ruled-Vetted rejected c rest s1 cid v s came stored m j e q =
        Ends-then (λ b' _. Vetted i ref s0 cs b')
          (stamped h cid v
            >> on_ledger (record_strike h.blank i (some cid) "fabrication" none)
            >> cascade h c cid i)
          _ s
          (λ _ s'. record {
            backed = k.backed;
            counted = sym (any-snoc is_rejected b.statuses (some rejected) ∙ ground arith);
          })

    handled-Vetted :
        (j : Bool) (c : Claim) (rest : List Claim) (s1 : Studio) (cid : ℕ) (s : Studio)
        → Came i ref s0 cs (c ∷ rest) b s1
        → recorded h i c ref s1 ≡ (ok cid, s)
        → c.is_judgment ≡ j
        → In c cs
        → Ends (λ b' _. Vetted i ref s0 cs b') (handled h j i c b cid s)
    handled-Vetted true c rest s1 cid s came stored e m = record {
      backed =
          All-snoc (Backed i ref s0 cs) b.sendable (judgment c.statement) k.backed (c, m, e, refl);
      counted = counted_on none refl;
    }
    handled-Vetted false c rest s1 cid s came stored e m =
        let v = verify_claim h.lib (h.ask s) c in
        ruled-Vetted v.status c rest s1 cid v s came stored m e refl refl

  relay_each-Vetted :
      (i : String) (ref : Option String) (s0 : Studio) (all_claims cs : List Claim) (b : Batch)
      (s : Studio)
      → Came i ref s0 all_claims cs b s
      → ((c : Claim) → In c cs → In c all_claims)
      → Vetted i ref s0 all_claims b
      → Ends (λ b' _. Vetted i ref s0 all_claims b') (relay_each h i ref cs b s)
  unfolding relay_each relay_claim
  relay_each-Vetted i ref s0 all_claims [] b s came sub k = k
  relay_each-Vetted i ref s0 all_claims (c ∷ cs) b s came sub k =
      let Q = λ (b' : Batch) (_ : Studio). Vetted i ref s0 all_claims b' in
      let one =
        Ends-bind _ Q (recorded h i c ref) (handled h c.is_judgment i c b) s
          (Ends-reached Any (recorded h i c ref s) (Ends-Any (recorded h i c ref s)))
          (λ cid s' (_, stored).
            handled-Vetted i ref s0 all_claims b k c.is_judgment c cs s cid s' came stored refl
              (sub c (inl refl))) in
      Ends-bind _ Q (relay_claim h i ref c b) (relay_each h i ref cs) s
        (Ends-reached Q (relay_claim h i ref c b s) one)
        (λ b' s' (k', ran).
          relay_each-Vetted i ref s0 all_claims cs b' s' (moved came ran) (λ x m. sub x (inr m)) k')

  module _ (kind identity : String) (cs : List Claim) (ref : Option String) (s : Studio) where
    -- The studio once the ledger has said whether the identity may relay: where the loop begins.
    abbrev pub asked : Studio
    asked = record s { ledger = (is_relay_allowed h.blank identity s.ledger).1 }

    -- What a call that returns has told the human.
    pub data Delivery (r : Summary) (s' : Studio) : Type 0 where
      silence : s'.sent ≡ s.sent → r.relayed ≡ [] → Delivery r s'
      alarmed :
          s'.sent ≡ s.sent ++ alarm identity ∷ []
          → r.relayed ≡ []
          → any is_rejected r.claims ≡ true
          → Delivery r s'
      relayed :
          (lines : List Line)
          → (is_relay_allowed h.blank identity s.ledger).0 ≡ ok true
          → s'.sent ≡ s.sent ++ relay kind lines ∷ []
          → r.relayed ≡ map statement_of lines
          → All (Backed identity ref asked cs) lines
          → any is_rejected r.claims ≡ false
          → Delivery r s'

    -- Where the call raises, it has told nothing.
    abbrev pub Told : Result TrustError Summary × Studio → Type 0
    Told (ok r, s') = Delivery r s'
    Told (err e, s') = s'.sent ≡ s.sent

    decided-Told :
        (f : Bool) (b : Batch) (mid : Studio)
        → (is_relay_allowed h.blank identity s.ledger).0 ≡ ok true
        → mid.sent ≡ s.sent
        → Vetted identity ref asked cs b
        → b.fabrication ≡ f
        → Told (decided h f kind identity b mid)
    decided-Told true b mid a q k e =
        alarmed (ap (λ m. m ++ alarm identity ∷ []) q) refl (sym k.counted ∙ e)
    decided-Told false b mid a q k e = lines b.sendable k.backed
      where
        lines :
            (ls : List Line)
            → All (Backed identity ref asked cs) ls
            → Delivery
                (record {
                  blocked = false;
                  escalated = false;
                  relayed = map statement_of ls;
                  claims = b.statuses;
                })
                (deliver kind ls mid)
        lines [] all_backed = silence q refl
        lines (x ∷ xs) all_backed =
            relayed (x ∷ xs) a (ap (λ m. m ++ relay kind (x ∷ xs) ∷ []) q) refl all_backed
              (sym k.counted ∙ e)

    send-Told :
        (o : Result TrustError Batch) (mid : Studio)
        → (is_relay_allowed h.blank identity s.ledger).0 ≡ ok true
        → mid.sent ≡ s.sent
        → Ends (λ b _. Vetted identity ref asked cs b) (o, mid)
        → Told (continue o (send h kind identity) mid)
    unfolding send
    send-Told (ok b) mid a q k = decided-Told b.fabrication b mid a q k refl
    send-Told (err e) mid a q k = q

    permitted-Told :
        (allowed : Result TrustError Bool)
        → (is_relay_allowed h.blank identity s.ledger).0 ≡ allowed
        → Told (permitted h allowed kind identity cs ref asked)
    permitted-Told (ok true) a =
        let r = relay_each h identity ref cs no_batch asked in
        send-Told r.0 r.1 a ((relay_each-IsQuiet identity ref cs no_batch).silent asked) (
          relay_each-Vetted identity ref asked cs cs no_batch asked begun (λ c m. m)
            (record { backed = tt; counted = refl }))
    permitted-Told (ok false) a = silence refl refl
    permitted-Told (err e) a = silence refl refl

    -- Whatever a call of the gate is given, by any identity and on any tables: where it returns, it
    -- has sent nothing; or the alarm alone, and then a claim of the batch was rejected; or one message
    -- from an identity that the ledger allows to relay, in which every line is a labelled judgment of
    -- the batch, or the statement of a factual claim of it whose refs, one at least, were all found
    -- and not contradicted when the loop had come to the claim and recorded it, by what the sources
    -- answered then; and then no claim of the batch was rejected. Where it raises, it has sent nothing.
    pub relay_claims-Told : Told (relay_claims h kind identity cs ref s)
    unfolding relay_claims
    relay_claims-Told = permitted-Told (is_relay_allowed h.blank identity s.ledger).0 refl
