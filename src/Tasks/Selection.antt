-- ===== src/Tasks/Selection.antt =====
-- What the SQL built from a filter and a sort selects: the clauses of WHERE on a row, and the row
-- that ORDER BY … LIMIT 1 takes. Texts are ordered by the collation of the database, a parameter.
use ai_studio.Prelude.{
  ℕ, String, Bool, true, false, Option, none, some, List, [], ◌∷◌, any, all, str_eq, if◌then◌else◌,
  pos, lt_int, eq_int,
}
use ai_studio.Db.{Task, Assignee, host, offhost}
use ai_studio.Tasks.Query.{
  SortColumn, nulls_first, nulls_last, SortFragment, FilterColumn, Value, number, text, FilterValue,
  one, any_of, Clause,
}

abbrev pub assignee_text : Assignee → String
assignee_text host = "host"
assignee_text offhost = "offhost"

abbrev pub text_of : Option String → Option Value
text_of none = none
text_of (some s) = some (text s)

abbrev pub time_of : Option ℕ → Option Value
time_of none = none
time_of (some n) = some (number (pos n))

unfoldable pub filter_value : FilterColumn → Task → Option Value
filter_value FilterColumn.kind t = some (text t.kind)
filter_value FilterColumn.workstream t = some (text t.workstream)
filter_value FilterColumn.assignee t = elim t.assignee [
  | none ↦ none
  | some a ↦ some (text (assignee_text a))
]
filter_value FilterColumn.priority t = some (number t.priority)
filter_value FilterColumn.agent_type t = text_of t.agent_type
filter_value FilterColumn.claimed_by t = text_of t.claimed_by

abbrev pub value_eq : Value → Value → Bool
value_eq (number a) (number b) = eq_int a b
value_eq (text a) (text b) = str_eq a b
value_eq (number a) (text b) = false
value_eq (text a) (number b) = false

abbrev pub value_fits : FilterValue → Value → Bool
value_fits (one v) w = value_eq w v
value_fits (any_of vs) w = any (value_eq w) vs

-- A comparison with NULL is not true.
unfoldable pub clause_holds : Clause → Task → Bool
unfolding filter_value
clause_holds c t = elim (filter_value c.column t) [ none ↦ false | some w ↦ value_fits c.value w ]

unfoldable pub satisfies : List Clause → Task → Bool
unfolding clause_holds
satisfies cs t = all (λ c. clause_holds c t) cs

unfoldable pub sort_value : SortColumn → Task → Option Value
sort_value SortColumn.priority t = some (number t.priority)
sort_value SortColumn.created_at t = some (number (pos t.created_at))
sort_value SortColumn.updated_at t = some (number (pos t.updated_at))
sort_value SortColumn.claimed_at t = time_of t.claimed_at
sort_value SortColumn.id t = some (number (pos t.id))
sort_value SortColumn.workstream t = some (text t.workstream)
sort_value SortColumn.kind t = some (text t.kind)
sort_value SortColumn.agent_type t = text_of t.agent_type

pub data Compared : Type 0 where
  before same behind : Compared

abbrev pub flip : Compared → Compared
flip before = behind
flip same = same
flip behind = before

module _ (collate : String → String → Bool) where
  abbrev compare_values : Value → Value → Compared
  compare_values (number a) (number b) =
      if lt_int a b then before else if lt_int b a then behind else same
  compare_values (text a) (text b) =
      if collate a b then before else if collate b a then behind else same
  compare_values (number a) (text b) = same
  compare_values (text a) (number b) = same

  -- NULLs stand last in an ascending order and first in a descending one, unless the term says.
  abbrev null_place : SortFragment → Compared
  null_place f = elim f.nulls [
    | none ↦ if f.descending then before else behind
    | some nulls_first ↦ before
    | some nulls_last ↦ behind
  ]

  abbrev compare_keys : SortFragment → Option Value → Option Value → Compared
  compare_keys f none none = same
  compare_keys f none (some b) = null_place f
  compare_keys f (some a) none = flip (null_place f)
  compare_keys f (some a) (some b) =
      if f.descending then flip (compare_values a b) else compare_values a b

  -- ORDER BY puts `a` strictly before `b`.
  unfoldable pub precedes : List SortFragment → Task → Task → Bool
  unfolding sort_value
  precedes [] a b = false
  precedes (f ∷ fs) a b = elim (compare_keys f (sort_value f.column a) (sort_value f.column b)) [
    | before ↦ true
    | same ↦ precedes fs a b
    | behind ↦ false
  ]
