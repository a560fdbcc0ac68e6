-- ===== src/Relay/Resolve.antt =====
-- The resolvers of spokesman/grounding_gate.py: `resolve_ref` and what it calls. A note is data.
use ai_studio.Prelude.{
  String, Bool, true, false, Option, none, some, List, [], ◌∷◌, ◌++◌, ◌&&◌, ◌||◌, ◌==◌, not, leb,
  str_eq, all, any, length, if◌then◌else◌, is_some, is_none, eq_int,
}
use ai_studio.TaskState.{of_wire}
use ai_studio.Grounding.{EvidenceKind, EvidenceRef, event, task, db_row, artifact, file, metric}
use ai_studio.Relay.Sources.{TextLib, Answers}

-- A field of an `expected` that cannot be read.
pub data FieldNote : Type 0 where
  no_equals empty_column unknown_column : String → FieldNote

pub data Note : Type 0 where
  nothing_to_note no_such_event no_such_task no_such_row not_readable missing_pk invalid_pk : Note
  not_whitelisted no_value no_such_path not_a_digest hash_mismatch no_store failed_to_resolve : Note
  unknown_status not_numeric : String → Note
  differs : (actual expected : String) → Note
  column_differs : (column actual expected : String) → Note
  ill_formed : List FieldNote → Note

-- `RefResolution`
pub record RefResolution : Type 0 where
  pub kind : EvidenceKind
  pub locator : String
  pub resolved : Bool
  pub contradicted : Bool
  pub malformed : Bool
  pub actual : Option String
  pub note : Note

module _ (r : EvidenceRef) where
  abbrev pub unresolved : Note → RefResolution
  unresolved n = record {
    kind = r.kind;
    locator = r.locator;
    resolved = false;
    contradicted = false;
    malformed = false;
    actual = none;
    note = n;
  }

  abbrev pub ill_specified : Option String → Note → RefResolution
  ill_specified a n = record {
    kind = r.kind;
    locator = r.locator;
    resolved = false;
    contradicted = false;
    malformed = true;
    actual = a;
    note = n;
  }

  abbrev pub contradicts : String → Note → RefResolution
  contradicts a n = record {
    kind = r.kind;
    locator = r.locator;
    resolved = true;
    contradicted = true;
    malformed = false;
    actual = some a;
    note = n;
  }

  abbrev pub confirms : Option String → RefResolution
  confirms a = record {
    kind = r.kind;
    locator = r.locator;
    resolved = true;
    contradicted = false;
    malformed = false;
    actual = a;
    note = nothing_to_note;
  }

  abbrev event_found : Option String → RefResolution
  event_found none = unresolved no_such_event
  event_found (some a) = elim r.expected [
    | none ↦ confirms (some a)
    | some want ↦ if str_eq a want then confirms (some a) else contradicts a (differs a want)
  ]

abbrev pub and_then {ℓ κ} : {A : Type ℓ} {B : Type κ} → Option A → (A → Option B) → Option B
and_then none f = none
and_then (some a) f = f a

abbrev pub found {ℓ κ} : {A : Type ℓ} {B : Type κ} → (A → B) → Option A → Option B
found f none = none
found f (some a) = some (f a)

-- The tables that a `db_row` may read, and the metrics that may be asked for.
abbrev pub readable_tables : List String
readable_tables =
    "tasks" ∷ "events" ∷ "comms_claims" ∷ "identity_trust" ∷ "task_transitions" ∷ "approvals"
    ∷ "budgets" ∷ []

abbrev pub metric_names : List String
metric_names = "tasks_total" ∷ "tasks_merged_total" ∷ "events_total" ∷ "comms_claims_total" ∷ []

abbrev pub listed_in : List String → String → Bool
listed_in names s = any (λ n. str_eq n s) names

-- The value of the first entry of a column.
unfoldable pub column : String → List (String × String) → Option String
column c [] = none
column c ((k, v) ∷ row) = if str_eq k c then some v else column c row

-- The check of the well-formed fields: the first that differs, or the notes of the others.
pub data Fields : Type 0 where
  differing : (column actual expected : String) → Fields
  all_match : List FieldNote → Fields

unfoldable pub check_fields :
    List (String × String) → List (String × String) → List FieldNote → Fields
check_fields row [] notes = all_match notes
check_fields row ((c, want) ∷ fs) notes = elim (column c row) [
  | none ↦ check_fields row fs (notes ++ unknown_column c ∷ [])
  | some got ↦
      let rest = check_fields row fs notes in if str_eq got want then rest else differing c got want
]

module _ (lib : TextLib) where
  unfoldable pub is_sha256_hex : String → Bool
  is_sha256_hex s =
      let v = lib.chars (lib.lower (lib.strip s)) in
      (length v == 64) && all (λ c. (leb b'0' c && leb c b'9') || (leb b'a' c && leb c b'f')) v

  -- The segments of an `expected`, in their order: a pair, or a note, of each.
  unfoldable pub parse_parts : List String → List (String × String) × List FieldNote
  parse_parts [] = ([], [])
  parse_parts (part ∷ parts) =
      let (fields, notes) = parse_parts parts in
      let (before, has_equals, after) = lib.partition part "=" in
      let col = lib.strip before in
      if not has_equals
      then (fields, no_equals (lib.strip part) ∷ notes)
      else if str_eq col ""
      then (fields, empty_column (lib.strip part) ∷ notes)
      else ((col, lib.strip after) ∷ fields, notes)

  -- `_parse_expected_fields`
  unfoldable pub parse_expected_fields : Option String → List (String × String) × List FieldNote
  unfolding parse_parts
  parse_expected_fields none = ([], [])
  parse_expected_fields (some e) =
      if str_eq e "" then ([], []) else parse_parts (lib.split_commas e)

  module _ (ask : Answers) (r : EvidenceRef) where
    unfoldable pub resolve_event : Option RefResolution
    resolve_event =
        let loc = lib.strip r.locator in
        let by_seq = λ (s : String). and_then (lib.int s) ask.event_by_seq in
        let by_id = λ (s : String). and_then (lib.uuid s) ask.event_by_id in
        found (event_found r) (elim (lib.drop_prefix "seq:" loc) [
          | some s ↦ by_seq s
          | none ↦ elim (lib.drop_prefix "id:" loc) [
            | some s ↦ by_id s
            | none ↦ if is_some (lib.uuid loc) then by_id loc else by_seq loc
          ]
        ])

    abbrev task_found : Option String → RefResolution
    task_found none = unresolved r no_such_task
    task_found (some a) = elim r.expected [
      | none ↦ confirms r (some a)
      | some e ↦
          let want = lib.strip e in
          if is_none (of_wire want)
          then ill_specified r (some a) (unknown_status e)
          else if str_eq a want
          then confirms r (some a)
          else contradicts r a (differs a want)
    ]

    unfoldable pub resolve_task : Option RefResolution
    resolve_task =
        let loc = lib.strip r.locator in
        let id : String = elim (lib.drop_prefix "task:" loc) [ some s ↦ s | none ↦ loc ] in
        found task_found (and_then (lib.uuid id) ask.task_status)

    abbrev pub row_checked : List FieldNote → RefResolution
    row_checked [] = confirms r none
    row_checked (n ∷ ns) = ill_specified r none (ill_formed (n ∷ ns))

    abbrev pub row_fields : Fields → RefResolution
    row_fields (differing c got want) = contradicts r got (column_differs c got want)
    row_fields (all_match notes) = row_checked notes

    unfoldable pub row_found : Option (List (String × String)) → RefResolution
    unfolding check_fields parse_expected_fields
    row_found none = unresolved r no_such_row
    row_found (some row) =
        let (fields, notes) = parse_expected_fields r.expected in
        row_fields (check_fields row fields notes)

    -- The column and the value of the primary key.
    abbrev pk_of : String → String × String
    pk_of rest =
        let (col, has_equals, val) = lib.partition rest "=" in
        if has_equals then (lib.strip col, lib.strip val) else ("id", lib.strip rest)

    unfoldable pub resolve_db_row : Option RefResolution
    unfolding row_found
    resolve_db_row =
        let (before, has_colon, rest) = lib.partition (lib.strip r.locator) ":" in
        let table = lib.strip before in
        let (pkcol, pkval) = pk_of rest in
        if not (listed_in readable_tables table)
        then some (unresolved r not_readable)
        else if str_eq rest ""
        then some (unresolved r missing_pk)
        else if not (lib.is_name pkcol)
        then some (unresolved r invalid_pk)
        else found row_found (ask.row table pkcol pkval)

    -- `int(actual) != want`; the count of a query is a number.
    abbrev metric_found : Option String → Option RefResolution
    metric_found none = some (unresolved r no_value)
    metric_found (some a) = elim r.expected [
      | none ↦ some (confirms r (some a))
      | some e ↦ elim (lib.int (lib.strip e)) [
        | none ↦ some (ill_specified r (some a) (not_numeric e))
        | some want ↦ and_then (lib.int a) (λ got.
            some (if eq_int got want then confirms r (some a) else contradicts r a (differs a e)))
      ]
    ]

    unfoldable pub resolve_metric : Option RefResolution
    resolve_metric =
        let name = lib.strip r.locator in
        if listed_in metric_names name
        then and_then (ask.metric name) metric_found
        else some (unresolved r not_whitelisted)

    unfoldable pub resolve_file : Option RefResolution
    unfolding is_sha256_hex
    resolve_file =
        let loc = lib.strip r.locator in
        let (head, has_colon, tail) = lib.rpartition loc ":" in
        let path = if has_colon && lib.is_digits tail then head else loc in
        if ask.exists path
        then elim r.expected [
          | none ↦ some (confirms r none)
          | some e ↦
              if is_sha256_hex e
              then found
                  (λ d.
                    if str_eq d (lib.lower (lib.strip e))
                    then confirms r none
                    else contradicts r d hash_mismatch)
                  (ask.digest path)
              else some (ill_specified r none not_a_digest)
        ]
        else some (unresolved r no_such_path)

    abbrev resolver : EvidenceKind → Option RefResolution
    resolver event = resolve_event
    resolver task = resolve_task
    resolver db_row = resolve_db_row
    resolver artifact = some (unresolved r no_store)
    resolver file = resolve_file
    resolver metric = resolve_metric

    -- `resolve_ref` fails closed: a resolver that raises resolves nothing.
    unfoldable pub resolve_ref : RefResolution
    unfolding resolve_event resolve_task resolve_db_row resolve_file resolve_metric
    resolve_ref = elim (resolver r.kind) [ some x ↦ x | none ↦ unresolved r failed_to_resolve ]
