-- ===== src/Relay.antt =====
-- spokesman/grounding_gate.py: the gate between what agents claim and what the human is told. The
-- children read the evidence (Sources, Resolve) and prove what the gate lets through.
pub mod Sources
pub mod Resolve
pub mod Steps
pub mod Verdicts
pub mod Sent
pub mod Revokes
use ai_studio.Prelude.{
  ℕ, String, Bool, true, false, Option, none, some, List, [], ◌∷◌, ◌++◌, ◌&&◌, ◌||◌, ◌==◌, not,
  str_eq, any, all, keep, map, find?, if◌then◌else◌, Result, ok, err,
}
use ai_studio.TaskState.{ready_for_review, approved, status_eq}
use ai_studio.Db.{Hop}
use ai_studio.Trust.{
  Ledger, TrustError, is_relay_allowed, record_claim, set_claim_verification, record_proof_request,
  record_strike,
}
use ai_studio.Grounding.{EvidenceRef, Claim, task, db_row, is_empty}
use ai_studio.Relay.Sources.{TextLib, Answers}
use ai_studio.Relay.Resolve.{RefResolution, Note, resolve_ref}

-- `VERIFICATION_VERIFIED`, `_UNVERIFIABLE`, `_REJECTED`
pub data Status : Type 0 where
  verified unverifiable rejected : Status

abbrev pub status_text : Status → String
status_text verified = "verified"
status_text unverifiable = "unverifiable"
status_text rejected = "rejected"

-- Why a claim has its verdict, with the notes of the refs that decided it.
pub data Why : Type 0 where
  contradicted_by : Note → Why
  all_matched : Why
  not_interpretable unresolved_refs : List Note → Why

-- `ClaimVerdict`
pub record ClaimVerdict : Type 0 where
  pub status : Status
  pub refs : List RefResolution
  pub why : Why

abbrev is_contradicted : RefResolution → Bool
is_contradicted r = r.contradicted

abbrev problems : List RefResolution → List Note
problems rs = map (λ (r : RefResolution). r.note) (keep (λ (r : RefResolution). not r.resolved) rs)

-- The verdict on the resolutions of a claim's refs.
unfoldable pub verdict_on : List RefResolution → ClaimVerdict
verdict_on rs = elim (find? is_contradicted rs) [
  | some bad ↦ record { status = rejected; refs = rs; why = contradicted_by bad.note }
  | none ↦
      if not (is_empty rs) && all (λ (r : RefResolution). r.resolved) rs
      then record { status = verified; refs = rs; why = all_matched }
      else record {
        status = unverifiable;
        refs = rs;
        why =
            if any (λ (r : RefResolution). r.malformed) rs
            then not_interpretable (problems rs)
            else unresolved_refs (problems rs);
      }
]

-- `verify_claim`
unfoldable pub verify_claim : TextLib → Answers → Claim → ClaimVerdict
verify_claim lib ask c = verdict_on (map (resolve_ref lib ask) c.evidence)

-- A line of a relayed message; a judgment is labelled.
pub data Line : Type 0 where
  judgment fact : String → Line

-- What the notifier was handed.
pub data Message : Type 0 where
  alarm : (identity : String) → Message
  relay : (kind : String) → List Line → Message

-- The tables and the channel that the gate works on.
pub record Studio : Type 0 where
  pub ledger : Ledger
  pub hops : List Hop
  pub sent : List Message

-- What the gate uses and does not implement. What the sources answer may change with every write.
pub record Host : Type 0 where
  pub lib : TextLib
  pub ask : Studio → Answers
  pub blank : String → Bool
  pub dump : EvidenceRef → String  -- `model_dump`
  pub render : Why → String

abbrev pub Step {ℓ} : Type ℓ → Type ℓ
Step A = Studio → Result TrustError A × Studio

abbrev pub pure {ℓ} : {A : Type ℓ} → A → Step A
pure a s = (ok a, s)

abbrev pub continue {ℓ κ} : {A : Type ℓ} {B : Type κ} → Result TrustError A → (A → Step B) → Step B
continue (ok a) f s = f a s
continue (err e) f s = (err e, s)

infixl 5 ◌>>=◌ ◌>>◌
abbrev pub ◌>>=◌ {ℓ κ} : {A : Type ℓ} {B : Type κ} → Step A → (A → Step B) → Step B
◌>>=◌ m f s = let (r, s') = m s in continue r f s'

abbrev pub ◌>>◌ {ℓ κ} : {A : Type ℓ} {B : Type κ} → Step A → Step B → Step B
m >> k = m >>= λ _. k

-- A function of the trust ledger, as a step.
abbrev pub on_ledger {ℓ} : {A : Type ℓ} → (Ledger → Result TrustError A × Ledger) → Step A
on_ledger f s = let (r, l) = f s.ledger in (r, record s { ledger = l })

abbrev pub notify : Message → Studio → Studio
notify m s = record s { sent = s.sent ++ m ∷ [] }

-- `GATE_IDENTITY`
abbrev pub gate_identity : String
gate_identity = "spokesman-gate"

-- The state of the loop over the claims: the lines to send, and whether one was a fabrication.
pub record Batch : Type 0 where
  pub statuses : List (Option Status)
  pub sendable : List Line
  pub fabrication : Bool

abbrev pub no_batch : Batch
no_batch = record { statuses = []; sendable = []; fabrication = false }

-- What `relay_claims` returns.
pub record Summary : Type 0 where
  pub blocked : Bool
  pub escalated : Bool
  pub relayed : List String
  pub claims : List (Option Status)

abbrev pub withheld : Summary
withheld = record { blocked = true; escalated = false; relayed = []; claims = [] }

abbrev pub statement_of : Line → String
statement_of (judgment s) = s
statement_of (fact s) = s

-- A message is sent where there is a line to send.
abbrev pub deliver : String → List Line → Studio → Studio
deliver kind [] s = s
deliver kind (x ∷ xs) s = notify (relay kind (x ∷ xs)) s

module _ (h : Host) where
  open h use {lib, ask, blank, dump, render}

  -- The task that a ref names, as a text.
  abbrev named_task : EvidenceRef → Option String
  named_task r =
      let loc = lib.strip r.locator in
      elim r.kind [
        | task ↦ elim (lib.drop_prefix "task:" loc) [ some t ↦ some t | none ↦ some loc ]
        | db_row ↦
            let (table, has_colon, rest) = lib.partition loc ":" in
            if str_eq (lib.strip table) "tasks"
              && not (str_eq rest "")
              && not (lib.partition rest "=").1
            then some (lib.strip rest)
            else none
        | _ ↦ none
      ]

  -- `_task_ids_from_claim`
  unfoldable pub task_ids : List EvidenceRef → List ℕ
  task_ids [] = []
  task_ids (r ∷ rs) =
      let rest = task_ids rs in
      elim (named_task r) [
        | none ↦ rest
        | some t ↦ elim (lib.uuid t) [ none ↦ rest | some id ↦ id ∷ rest ]
      ]

  -- The agents recorded on the approvals of a task.
  unfoldable pub approvers_of : ℕ → List Hop → List String
  unfolding status_eq
  approvers_of id [] = []
  approvers_of id (x ∷ xs) =
      let rest = approvers_of id xs in
      if x.task_id == id && status_eq x.source ready_for_review && status_eq x.target approved
      then elim x.agent_id [ none ↦ rest | some a ↦ a ∷ rest ]
      else rest

  -- A set of texts as a list without repetitions, less one.
  unfoldable pub others : String → List String → List String
  others i [] = []
  others i (a ∷ more) =
      let rest = others i more in
      if str_eq a i || any (λ b. str_eq b a) rest then rest else a ∷ rest

  abbrev pub gathered : List ℕ → List Hop → List String
  gathered [] hops = []
  gathered (id ∷ ids) hops = approvers_of id hops ++ gathered ids hops

  unfoldable pub strike_all : ℕ → List String → Step (Unit {0})
  strike_all cid [] = pure tt
  strike_all cid (a ∷ more) =
      on_ledger (record_strike blank a (some cid) "fabrication" none) >> strike_all cid more

  -- `cascade_strike_to_approvers`
  unfoldable pub cascade : Claim → ℕ → String → Step (Unit {0})
  unfolding strike_all others task_ids approvers_of
  cascade c cid originator s =
      strike_all cid (lib.sorted (others originator (gathered (task_ids c.evidence) s.hops))) s

  abbrev pub recorded : String → Claim → Option String → Step ℕ
  recorded identity c ref =
      on_ledger
        (record_claim blank identity c.statement (map dump c.evidence) c.is_judgment ref none)

  abbrev pub stamped : ℕ → ClaimVerdict → Step (Unit {0})
  stamped cid v =
      on_ledger (
        set_claim_verification blank cid (status_text v.status) gate_identity (some (render v.why)))
      >> pure tt

  -- What follows from the verdict on a factual claim.
  abbrev pub ruled : Status → String → Claim → ℕ → ClaimVerdict → Batch → Step Batch
  ruled verified identity c cid v b =
      stamped cid v
      >> pure (record b {
        statuses = b.statuses ++ some verified ∷ [];
        sendable = b.sendable ++ fact c.statement ∷ [];
      })
  ruled unverifiable identity c cid v b =
      stamped cid v
      >> on_ledger (record_proof_request blank identity (some cid))
      >> pure (record b { statuses = b.statuses ++ some unverifiable ∷ [] })
  ruled rejected identity c cid v b =
      stamped cid v
      >> on_ledger (record_strike blank identity (some cid) "fabrication" none)
      >> cascade c cid identity
      >> pure (record b { statuses = b.statuses ++ some rejected ∷ []; fabrication = true })

  -- A judgment is passed on with its label; a factual claim is checked.
  abbrev pub handled : Bool → String → Claim → Batch → ℕ → Step Batch
  handled true identity c b cid = pure (record b {
    statuses = b.statuses ++ none ∷ [];
    sendable = b.sendable ++ judgment c.statement ∷ [];
  })
  handled false identity c b cid =
      λ s. let v = verify_claim lib (ask s) c in ruled v.status identity c cid v b s

  -- One turn of the loop.
  unfoldable pub relay_claim : String → Option String → Claim → Batch → Step Batch
  relay_claim identity ref c b = recorded identity c ref >>= handled c.is_judgment identity c b

  unfoldable pub relay_each : String → Option String → List Claim → Batch → Step Batch
  relay_each identity ref [] b = pure b
  relay_each identity ref (c ∷ cs) b = relay_claim identity ref c b >>= relay_each identity ref cs

  -- The send decision: nothing of a batch with a fabrication.
  abbrev pub decided : (fabrication : Bool) → (kind identity : String) → Batch → Step Summary
  decided true kind identity b s = (
    ok (record { blocked = true; escalated = true; relayed = []; claims = b.statuses }),
    notify (alarm identity) s,
  )
  decided false kind identity b s = (
    ok (record {
      blocked = false;
      escalated = false;
      relayed = map statement_of b.sendable;
      claims = b.statuses;
    }),
    deliver kind b.sendable s,
  )

  unfoldable pub send : (kind identity : String) → Batch → Step Summary
  send kind identity b = decided b.fabrication kind identity b

  -- An identity that is not allowed, or a ledger that cannot say so, relays nothing.
  abbrev pub permitted :
      Result TrustError Bool → (kind identity : String) → List Claim → Option String → Step Summary
  permitted (ok true) kind identity cs ref =
      relay_each identity ref cs no_batch >>= send kind identity
  permitted (ok false) kind identity cs ref = pure withheld
  permitted (err e) kind identity cs ref = pure withheld

  unfoldable pub relay_claims : (kind identity : String) → List Claim → Option String → Step Summary
  relay_claims kind identity cs ref s =
      let (allowed, l) = is_relay_allowed blank identity s.ledger in
      permitted allowed kind identity cs ref (record s { ledger = l })
