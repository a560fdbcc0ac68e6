-- ===== src/Tasks/Query.antt =====
-- The structured `sort` and `filter` of `grab_task`: `_parse_sort_term`, `_build_sort` and
-- `_build_filter` of runtime/tasks.py, with the meaning that SQL gives to what they build.
-- A sort is `none` or a list of tuples `(column, direction, nulls)`, stripped and in upper case.
use ai_studio.Prelude.{
  String, Bool, true, false, Option, none, some, List, [], ◌∷◌, str_eq, if◌then◌else◌, ℤ, ok, err,
}
use ai_studio.Db.Action.{value_error, Outcome}

-- `_SORTABLE_COLUMNS`
pub data SortColumn : Type 0 where
  priority created_at updated_at claimed_at id workstream kind agent_type : SortColumn

pub data Nulls : Type 0 where
  nulls_first nulls_last : Nulls

-- One term of ORDER BY.
pub record SortFragment : Type 0 where
  pub column : SortColumn
  pub descending : Bool
  pub nulls : Option Nulls

pub record SortTerm : Type 0 where
  pub column : String
  pub direction : Option String
  pub nulls : Option String

unfoldable pub sort_column : String → Option SortColumn
sort_column s =
    if str_eq s "priority"
    then some priority
    else if str_eq s "created_at"
    then some created_at
    else if str_eq s "updated_at"
    then some updated_at
    else if str_eq s "claimed_at"
    then some claimed_at
    else if str_eq s "id"
    then some id
    else if str_eq s "workstream"
    then some workstream
    else if str_eq s "type"
    then some kind
    else if str_eq s "agent_type"
    then some agent_type
    else none

-- An absent or empty direction is ASC.
unfoldable pub sort_descending : Option String → Option Bool
sort_descending none = some false
sort_descending (some s) =
    if str_eq s ""
    then some false
    else if str_eq s "ASC"
    then some false
    else if str_eq s "DESC"
    then some true
    else none

unfoldable pub sort_nulls : Option String → Option (Option Nulls)
sort_nulls none = some none
sort_nulls (some s) =
    if str_eq s ""
    then some none
    else if str_eq s "NULLS FIRST"
    then some (some nulls_first)
    else if str_eq s "NULLS LAST"
    then some (some nulls_last)
    else none

-- `_parse_sort_term` on a tuple; the errors stand in the order of its checks.
unfoldable pub parse_sort_term : SortTerm → Outcome SortFragment
unfolding sort_column sort_descending sort_nulls
parse_sort_term t = elim (sort_column t.column) [
  | none ↦ err (value_error "unsortable column")
  | some c ↦ elim (sort_descending t.direction) [
    | none ↦ err (value_error "invalid sort direction")
    | some d ↦ elim (sort_nulls t.nulls) [
      | none ↦ err (value_error "invalid nulls ordering")
      | some n ↦ ok (record { column = c; descending = d; nulls = n })
    ]
  ]
]

abbrev pub cons_ok {ℓ} : {A : Type ℓ} → Outcome A → Outcome (List A) → Outcome (List A)
cons_ok (err e) rest = err e
cons_ok (ok a) (err e) = err e
cons_ok (ok a) (ok rest) = ok (a ∷ rest)

parse_sort_terms : List SortTerm → Outcome (List SortFragment)
parse_sort_terms [] = ok []
parse_sort_terms (t ∷ ts) = cons_ok (parse_sort_term t) (parse_sort_terms ts)

-- `DEFAULT_SORT_TERMS`
abbrev pub default_sort_terms : List SortTerm
default_sort_terms =
    record { column = "priority"; direction = some "DESC"; nulls = none }
    ∷ record { column = "created_at"; direction = some "ASC"; nulls = none }
    ∷ []

-- `_build_sort`; `if not sort` takes the default for an empty list too.
unfoldable pub build_sort : Option (List SortTerm) → Outcome (List SortFragment)
unfolding parse_sort_terms parse_sort_term
build_sort none = parse_sort_terms default_sort_terms
build_sort (some []) = parse_sort_terms default_sort_terms
build_sort (some (t ∷ ts)) = parse_sort_terms (t ∷ ts)

-- A value of a column. NULL is `none` in what `column_value` returns.
pub data Value : Type 0 where
  number : ℤ → Value
  text : String → Value

-- `_FILTERABLE_COLUMNS`
pub data FilterColumn : Type 0 where
  kind workstream assignee priority agent_type claimed_by : FilterColumn

unfoldable pub filter_column : String → Option FilterColumn
filter_column s =
    if str_eq s "type"
    then some kind
    else if str_eq s "workstream"
    then some workstream
    else if str_eq s "assignee"
    then some assignee
    else if str_eq s "priority"
    then some priority
    else if str_eq s "agent_type"
    then some agent_type
    else if str_eq s "claimed_by"
    then some claimed_by
    else none

pub data FilterValue : Type 0 where
  one : Value → FilterValue
  any_of : List Value → FilterValue

-- A clause with its bound parameter: `col = %s` or `col = ANY(%s)`.
pub record Clause : Type 0 where
  pub column : FilterColumn
  pub value : FilterValue

-- `_build_filter` on the items of the mapping.
unfoldable pub build_filter : List (String × FilterValue) → Outcome (List Clause)
unfolding filter_column
build_filter [] = ok []
build_filter ((col, val) ∷ items) = elim (filter_column col) [
  | none ↦ err (value_error "unfilterable column")
  | some c ↦ cons_ok (ok (record { column = c; value = val })) (build_filter items)
]
