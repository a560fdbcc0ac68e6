-- ===== src/Trust.antt =====
-- runtime/trust.py: the writer of the trust ledger and of the claims made to the human. Whether a
-- text is blank (`not s or not s.strip()`) is the parameter `blank`. An item of evidence is opaque.
pub mod Strikes
pub mod Calls
pub mod Revoked
use ai_studio.Prelude.{
  ℕ, suc, ◌+◌, String, Bool, true, false, Option, none, some, List, [], ◌∷◌, ◌++◌, ◌==◌, ◌&&◌, not,
  str_eq, find?, or_else, if◌then◌else◌, Result, ok, err,
}
use ai_studio.Db.{IdentityTrust, TrustState, trusted, quarantined, revoked}
use ai_studio.Tasks.Grab.{find_trust, fenced}

-- `VERIFICATION_STATUSES`
pub data Verdict : Type 0 where
  verified rejected unverifiable : Verdict

unfoldable pub verdict_of : String → Option Verdict
verdict_of s =
    if str_eq s "verified"
    then some verified
    else if str_eq s "rejected"
    then some rejected
    else if str_eq s "unverifiable"
    then some unverifiable
    else none

pub record CommsClaim : Type 0 where
  pub id : ℕ
  pub message_ref : Option String
  pub originating_identity : String
  pub statement : String
  pub evidence : List String
  pub is_judgment : Bool
  pub verification_status : Option Verdict
  pub verified_by : Option String
  pub reason : Option String
  pub seq : ℕ
  pub created_at : ℕ

-- The `comms.*` and `trust.*` events, which carry no statement.
pub data TrustEvent : Type 0 where
  claim_verified claim_rejected : (claim_id : ℕ) → (identity verified_by : String) → TrustEvent
  proof_requested : (identity : String) → (claim_id : Option ℕ) → TrustEvent
  fabrication_detected trust_strike :
      (identity : String) → (claim_id : Option ℕ) → (kind : String) → (strikes : ℕ) → TrustEvent
  capability_revoked : (identity : String) → (claim_id : Option ℕ) → (kind : String) → TrustEvent

pub record Ledger : Type 0 where
  pub trust : List IdentityTrust
  pub claims : List CommsClaim
  pub events : List TrustEvent
  pub clock : ℕ
  pub next_id : ℕ
  pub next_seq : ℕ

pub data TrustError : Type 0 where
  blank_identity blank_kind blank_statement blank_verifier : TrustError
  unknown_verdict : String → TrustError

abbrev pub emit : TrustEvent → Ledger → Ledger
emit e l = record l { events = l.events ++ e ∷ [] }

-- A row by default: the columns' defaults in the schema.
abbrev pub new_trust : ℕ → String → IdentityTrust
new_trust now identity = record {
  identity = identity;
  trust_state = trusted;
  human_relay_allowed = true;
  strikes = 0;
  last_strike_at = none;
  created_at = now;
  updated_at = now;
}

-- `COALESCE(now, now())`
abbrev pub at_moment : Option ℕ → ℕ → ℕ
at_moment none clock = clock
at_moment (some t) clock = t

-- INSERT … ON CONFLICT DO NOTHING, and the row that is there then.
unfoldable pub ensure_trust : ℕ → String → List IdentityTrust → IdentityTrust × List IdentityTrust
ensure_trust now identity rows = elim (find_trust identity rows) [
  | some row ↦ (row, rows)
  | none ↦ (new_trust now identity, rows ++ new_trust now identity ∷ [])
]

-- UPDATE of the row with the primary key `identity`.
unfoldable pub update_trust :
    String → (IdentityTrust → IdentityTrust) → List IdentityTrust → List IdentityTrust
update_trust identity f [] = []
update_trust identity f (r ∷ rows) =
    if str_eq r.identity identity then f r ∷ rows else r ∷ update_trust identity f rows

-- The columns that a strike sets; a fabrication also revokes.
unfoldable pub struck : (fabrication : Bool) → (now : ℕ) → IdentityTrust → IdentityTrust
struck true now r = record r {
  strikes = suc r.strikes;
  last_strike_at = some now;
  trust_state = revoked;
  human_relay_allowed = false;
  updated_at = now;
}
struck false now r = record r {
  strikes = suc r.strikes;
  last_strike_at = some now;
  updated_at = now;
}

abbrev pub emit_strike : Bool → String → Option ℕ → String → ℕ → Ledger → Ledger
emit_strike true identity cid kind n l =
    emit (capability_revoked identity cid kind)
      (emit (trust_strike identity cid kind n) (emit (fabrication_detected identity cid kind n) l))
emit_strike false identity cid kind n l = emit (trust_strike identity cid kind n) l

-- `_emit` of a verdict; one that is unverifiable has no event.
abbrev pub emit_verdict : Verdict → CommsClaim → String → Ledger → Ledger
emit_verdict verified c by l = emit (claim_verified c.id c.originating_identity by) l
emit_verdict rejected c by l = emit (claim_rejected c.id c.originating_identity by) l
emit_verdict unverifiable c by l = l

abbrev pub judged : Verdict → String → Option String → CommsClaim → CommsClaim
judged v by reason c = record c {
  verification_status = some v;
  verified_by = some by;
  reason = reason;
}

unfoldable pub update_claim : ℕ → (CommsClaim → CommsClaim) → List CommsClaim → List CommsClaim
update_claim id f [] = []
update_claim id f (c ∷ cs) = if c.id == id then f c ∷ cs else c ∷ update_claim id f cs

unfoldable pub get_claim : ℕ → Ledger → Option CommsClaim
get_claim id l = find? (λ c. c.id == id) l.claims

abbrev pub set_known : ℕ → Verdict → String → Option String → Ledger → Option CommsClaim × Ledger
set_known id v by reason l = elim (get_claim id l) [
  | none ↦ (none, l)
  | some c ↦ (
    some (judged v by reason c),
    emit_verdict v (judged v by reason c) by
        (record l { claims = update_claim id (judged v by reason) l.claims }),
  )
]

module _ (blank : String → Bool) where
  unfoldable pub get_trust : String → Ledger → Result TrustError IdentityTrust × Ledger
  get_trust identity l =
      let (row, rows) = ensure_trust l.clock identity l.trust in
      if blank identity then (err blank_identity, l) else (ok row, record l { trust = rows })

  unfoldable pub is_relay_allowed : String → Ledger → Result TrustError Bool × Ledger
  is_relay_allowed identity l =
      let (r, l') = get_trust identity l in
      (
        elim r [
          | ok row ↦ ok (row.human_relay_allowed && not (fenced row.trust_state))
          | err e ↦ err e
        ],
        l',
      )

  unfoldable pub record_claim :
      String
      → String
      → List String
      → (is_judgment : Bool) → (message_ref : Option String) → (now : Option ℕ) → Ledger
      → Result TrustError ℕ × Ledger
  record_claim identity statement evidence is_judgment message_ref now l =
      if blank identity
      then (err blank_identity, l)
      else if blank statement
      then (err blank_statement, l)
      else (
        ok l.next_id,
        record l {
          claims =
              l.claims
              ++ record {
                id = l.next_id;
                message_ref = message_ref;
                originating_identity = identity;
                statement = statement;
                evidence = evidence;
                is_judgment = is_judgment;
                verification_status = none;
                verified_by = none;
                reason = none;
                seq = l.next_seq;
                created_at = at_moment now l.clock;
              }
                ∷ [];
          next_id = suc l.next_id;
          next_seq = suc l.next_seq;
        },
      )

  unfoldable pub set_claim_verification :
      ℕ → String → String → Option String → Ledger → Result TrustError (Option CommsClaim) × Ledger
  set_claim_verification id status by reason l = elim (verdict_of status) [
    | none ↦ (err (unknown_verdict status), l)
    | some v ↦
        let (c, l') = set_known id v by reason l in
        if blank by then (err blank_verifier, l) else (ok c, l')
  ]

  unfoldable pub record_proof_request :
      String → Option ℕ → Ledger → Result TrustError (Unit {0}) × Ledger
  record_proof_request identity claim_id l =
      if blank identity
      then (err blank_identity, l)
      else (ok tt, emit (proof_requested identity claim_id) l)

  -- The ledger after a strike that passes the checks, and the row that is returned.
  abbrev pub strike : String → Option ℕ → String → Option ℕ → Ledger → IdentityTrust × Ledger
  strike identity claim_id kind now l =
      let (row, rows) = ensure_trust l.clock identity l.trust in
      let fabrication = str_eq kind "fabrication" in
      let at = at_moment now l.clock in
      let rec = struck fabrication at row in
      (
        rec,
        emit_strike fabrication identity claim_id kind rec.strikes
            (record l { trust = update_trust identity (struck fabrication at) rows }),
      )

  unfoldable pub record_strike :
      String
      → Option ℕ
      → (kind : String) → (now : Option ℕ) → Ledger
      → Result TrustError IdentityTrust × Ledger
  record_strike identity claim_id kind now l =
      if blank identity
      then (err blank_identity, l)
      else if blank kind
      then (err blank_kind, l)
      else (let (rec, l') = strike identity claim_id kind now l in (ok rec, l'))
