-- ===== src/Approvals.antt =====
-- runtime/approvals.py: the store of approvals and the operations that move a row. A UUID is a
-- number; a reason is data, as in Policy. What the fingerprint takes from Python's library and
-- from the caller's values is the record `Host`.
use Prim.Native.String.{◌++◌ as concat}
use ai_studio.Prelude.{
  ℕ, suc, String, Bool, true, false, Option, none, some, List, [], ◌∷◌, ◌++◌, ◌&&◌, ◌||◌, ◌==◌, ltb,
  str_eq, find?, keep, first_by, if◌then◌else◌, Result, ok, err,
}
use ai_studio.Capabilities.{ActionTier}
use ai_studio.Policy.{Decision, Reason}

pub data ApprovalStatus : Type 0 where
  pending approved denied consumed : ApprovalStatus

abbrev pub is_pending : ApprovalStatus → Bool
is_pending pending = true
is_pending _ = false

abbrev pub is_approved : ApprovalStatus → Bool
is_approved approved = true
is_approved _ = false

abbrev pub is_consumed : ApprovalStatus → Bool
is_consumed consumed = true
is_consumed _ = false

pub record Approval : Type 0 where
  pub id : ℕ
  pub task_id : Option ℕ
  pub role : String
  pub tool : String
  pub capabilities : List String
  pub tier : String
  pub reason : Reason
  pub fingerprint : String
  pub status : ApprovalStatus
  pub created_at : ℕ
  pub resolved_at : Option ℕ
  pub resolver : Option String

-- The keyword arguments of a call: each name with the JSON text of its value.
abbrev pub Args : Type 0
Args = List (String × String)

-- `sorted`, `json.dumps(..., sort_keys=True)`, `hashlib.sha256(...).hexdigest()` and `str` of a UUID.
pub record Host : Type 0 where
  pub sorted : List String → List String
  pub dumps : Args → String
  pub sha256 : String → String
  pub str_uuid : ℕ → String

-- `sep.join(parts)`
unfoldable pub join : String → List String → String
join sep [] = ""
join sep (s ∷ []) = s
join sep (s ∷ t ∷ rest) = concat s (concat sep (join sep (t ∷ rest)))

unfoldable pub args_digest : Host → Args → String
args_digest host [] = ""
args_digest host (a ∷ args) = host.sha256 (host.dumps (a ∷ args))

abbrev pub str_or_empty : (ℕ → String) → Option ℕ → String
str_or_empty str none = ""
str_or_empty str (some n) = str n

unfoldable pub compute_fingerprint : Host → Option ℕ → String → List String → String → Args → String
compute_fingerprint host task_id tool capabilities workstream args =
    let caps = join "," (host.sorted capabilities) in
    host.sha256 (
      join "|" (
        str_or_empty host.str_uuid task_id ∷ tool ∷ caps ∷ workstream ∷ args_digest host args ∷ []))

-- What the event sink has collected.
pub data Note : Type 0 where
  policy_decision : Decision → Note
  approval_requested : Approval → Note
  -- Without a connection: the id is fresh and no row has it.
  approval_requested_ephemeral : ℕ → Decision → Note
  approval_resolved : Approval → Note
  tool_invoked : (tool role : String) → ActionTier → (approval_id : Option ℕ) → Note

-- The table, the sink's events, and the clock and source of ids of the database.
pub record Store : Type 0 where
  pub approvals : List Approval
  pub events : List Note
  pub clock : ℕ
  pub next_id : ℕ

-- What is raised: a text that is no decision, and what `make_event` says to an empty workstream.
pub data ValueError : Type 0 where
  not_a_decision : ApprovalStatus → ValueError
  blank_workstream : ValueError

abbrev pub emit : Note → Store → Store
emit n s = record s { events = s.events ++ n ∷ [] }

-- UPDATE of the row that passes the test: `id` is the primary key, so it is one at most.
unfoldable pub update_row :
    (Approval → Bool) → (Approval → Approval) → List Approval → List Approval
update_row p f [] = []
update_row p f (a ∷ rows) = if p a then f a ∷ rows else a ∷ update_row p f rows

-- ORDER BY created_at
abbrev pub created_before : Approval → Approval → Bool
created_before a b = ltb a.created_at b.created_at

abbrev pub is_open : String → Approval → Bool
is_open fp a = str_eq a.fingerprint fp && (is_pending a.status || is_approved a.status)

pub record ApprovalAction : Type 0 where
  pub task_id : Option ℕ
  pub role : String
  pub tool : String
  pub capabilities : List String
  pub tier : String
  pub reason : Reason

abbrev pub new_approval : Store → ApprovalAction → String → Approval
new_approval s a fp = record {
  id = s.next_id;
  task_id = a.task_id;
  role = a.role;
  tool = a.tool;
  capabilities = a.capabilities;
  tier = a.tier;
  reason = a.reason;
  fingerprint = fp;
  status = pending;
  created_at = s.clock;
  resolved_at = none;
  resolver = none;
}

-- A row and its event, which stand in one transaction.
abbrev pub insert_approval : Approval → Store → Store
insert_approval a s =
    emit (approval_requested a)
      (record s { approvals = s.approvals ++ a ∷ []; next_id = suc s.next_id })

-- `fingerprint or compute_fingerprint(...)`
abbrev pub chosen : Option String → String → String
chosen none computed = computed
chosen (some fp) computed = if str_eq fp "" then computed else fp

-- An open row of the same action is returned as it is. A new one is rolled back where there can be
-- no event for it.
abbrev pub request_row :
    String → ApprovalAction → String → Store → Result ValueError Approval × Store
request_row workstream action fp s =
    elim (first_by created_before (keep (is_open fp) s.approvals)) [
      | some existing ↦ (ok existing, s)
      | none ↦
          if str_eq workstream ""
          then (err blank_workstream, s)
          else (let a = new_approval s action fp in (ok a, insert_approval a s))
    ]

unfoldable pub request_approval :
    Host
    → ApprovalAction
    → (workstream : String) → Option String
    → Args
    → Store
    → Result ValueError Approval × Store
request_approval host a workstream fingerprint args s =
    let caps = host.sorted a.capabilities in
    request_row workstream (record a { capabilities = caps })
      (chosen fingerprint (compute_fingerprint host a.task_id a.tool caps workstream args)) s

abbrev pub by_id : ℕ → (ApprovalStatus → Bool) → Approval → Bool
by_id id p a = a.id == id && p a.status

abbrev pub resolved : ApprovalStatus → String → ℕ → Approval → Approval
resolved decision resolver now a = record a {
  status = decision;
  resolved_at = some now;
  resolver = some resolver;
}

abbrev pub is_decision : ApprovalStatus → Bool
is_decision approved = true
is_decision denied = true
is_decision _ = false

-- UPDATE … WHERE id AND status = 'pending' RETURNING, and the event where a row was updated.
abbrev pub resolve_pending :
    ℕ → ApprovalStatus → String → String → Store → Result ValueError (Option Approval) × Store
resolve_pending id decision resolver workstream s = elim (find? (by_id id is_pending) s.approvals) [
  | none ↦ (ok none, s)
  | some a ↦
      let b = resolved decision resolver s.clock a in
      if str_eq workstream "" then (err blank_workstream, s) else (
        ok (some b),
        emit (approval_resolved b) (record s {
          approvals =
              update_row (by_id id is_pending) (resolved decision resolver s.clock) s.approvals;
        }),
      )
]

unfoldable pub resolve_approval :
    ℕ
    → ApprovalStatus
    → (resolver workstream : String) → Store
    → Result ValueError (Option Approval) × Store
resolve_approval id decision resolver workstream s =
    if is_decision decision
    then resolve_pending id decision resolver workstream s
    else (err (not_a_decision decision), s)

unfoldable pub get_approval : ℕ → Store → Option Approval
get_approval id s = find? (λ a. a.id == id) s.approvals

-- ORDER BY resolved_at ASC NULLS LAST, created_at ASC
abbrev pub resolved_before : Approval → Approval → Bool
resolved_before a b = elim a.resolved_at [
  | none ↦ elim b.resolved_at [ none ↦ created_before a b | some y ↦ false ]
  | some x ↦ elim b.resolved_at [ none ↦ true | some y ↦ ltb x y || (x == y && created_before a b) ]
]

abbrev pub is_grant : String → Approval → Bool
is_grant fp a = str_eq a.fingerprint fp && is_approved a.status

unfoldable pub find_grant : String → Store → Option Approval
find_grant fp s = first_by resolved_before (keep (is_grant fp) s.approvals)

abbrev pub spend : Approval → Approval
spend a = record a { status = consumed }

unfoldable pub consume_grant : ℕ → Store → Option Approval × Store
consume_grant id s = elim (find? (by_id id is_approved) s.approvals) [
  | none ↦ (none, s)
  | some a ↦
      (some (spend a), record s { approvals = update_row (by_id id is_approved) spend s.approvals })
]
