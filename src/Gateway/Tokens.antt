-- ===== src/Gateway/Tokens.antt =====
-- Credentials of remote clients: `Token`, `parse_token_spec`, `TokenRegistry` and `parse_bearer`.
pub mod Registered
pub mod Presented
use ai_studio.Prelude.{
  ℕ, String, Bool, true, false, Option, none, some, List, [], ◌∷◌, ◌&&◌, ◌||◌, not, str_eq, any,
  all, keep, map, if◌then◌else◌, Result, ok, err, is_some,
}

pub data Scope : Type 0 where
  read enqueue claim complete : Scope

abbrev pub scope_eq : Scope → Scope → Bool
scope_eq read read = true
scope_eq enqueue enqueue = true
scope_eq claim claim = true
scope_eq complete complete = true
scope_eq _ _ = false

-- What the gates take from Python's library.
pub record Lib : Type 0 where
  pub strip : String → String
  pub lower : String → String
  pub drop_bearer : String → Option String  -- the text after a leading `bearer `, in any case
  pub split_on : (separator : String) → String → List String
  pub entries : String → List String  -- the texts between blanks and commas that are not empty
  pub is_identifier : String → Bool  -- the regular expression `_IDENT_RE`
  pub is_digest : String → Bool  -- the regular expression `_DIGEST_RE`
  pub sha256 : String → String

-- `Token`; a list stands for a set.
pub record Token : Type 0 where
  pub identity : String
  pub scopes : List Scope
  pub digest : String
  pub workstreams : List String

pub data SpecError : Type 0 where
  wrong_fields invalid_identity invalid_digest no_scopes unknown_scope invalid_workstream
        duplicate_digest :
      SpecError

unfoldable pub has_scope : Token → Scope → Bool
has_scope t s = any (scope_eq s) t.scopes

abbrev pub named : List String → Option String → Bool
named ws none = false
named ws (some w) = any (str_eq w) ws

abbrev pub pinned : List String → Bool
pinned [] = false
pinned (w ∷ ws) = true

unfoldable pub allows_workstream : Token → Option String → Bool
allows_workstream t w = if not (pinned t.workstreams) then true else named t.workstreams w

-- The element of a set that has one.
abbrev pub only : List String → Option String
only [] = none
only (w ∷ ws) = if all (str_eq w) ws then some w else none

unfoldable pub default_workstream : Token → Option String
default_workstream t = only t.workstreams

abbrev pub scope_of : String → Option Scope
scope_of s =
    if str_eq s "read"
    then some read
    else if str_eq s "enqueue"
    then some enqueue
    else if str_eq s "claim"
    then some claim
    else if str_eq s "complete"
    then some complete
    else none

abbrev pub is_text : String → Bool
is_text s = not (str_eq s "")

-- The parts between bars, less the empty ones.
unfoldable pub bar_parts : Lib → String → List String
bar_parts lib raw = keep is_text (map lib.strip (lib.split_on "|" raw))

-- Every part as a scope, or none.
unfoldable pub all_scopes : List String → Option (List Scope)
all_scopes [] = some []
all_scopes (s ∷ ss) = elim (scope_of s) [
  | none ↦ none
  | some a ↦ elim (all_scopes ss) [ none ↦ none | some bs ↦ some (a ∷ bs) ]
]

abbrev pub with_workstreams :
    Lib → (identity digest : String) → List Scope → List String → Result SpecError Token
with_workstreams lib identity digest scopes ws =
    if all lib.is_identifier ws
    then ok (record { identity = identity; scopes = scopes; digest = digest; workstreams = ws })
    else err invalid_workstream

abbrev pub with_scopes :
    Lib → (identity digest : String) → Option (List Scope) → List String → Result SpecError Token
with_scopes lib identity digest none ws = err unknown_scope
with_scopes lib identity digest (some []) ws = err no_scopes
with_scopes lib identity digest (some (s ∷ ss)) ws =
    with_workstreams lib identity digest (s ∷ ss) ws

unfoldable pub parse_fields :
    Lib → (identity raw_scopes digest raw_workstreams : String) → Result SpecError Token
unfolding all_scopes bar_parts
parse_fields lib identity raw_scopes digest raw_workstreams =
    if not (lib.is_identifier identity)
    then err invalid_identity
    else if not (lib.is_digest digest)
    then err invalid_digest
    else with_scopes lib identity digest (all_scopes (bar_parts lib raw_scopes))
        (bar_parts lib raw_workstreams)

abbrev pub parse_parts : Lib → List String → Result SpecError Token
parse_parts lib (identity ∷ scopes ∷ digest ∷ []) =
    parse_fields lib identity scopes (lib.lower digest) ""
parse_parts lib (identity ∷ scopes ∷ digest ∷ ws ∷ []) =
    parse_fields lib identity scopes (lib.lower digest) ws
parse_parts lib _ = err wrong_fields

unfoldable pub parse_token_spec : Lib → String → Result SpecError Token
unfolding parse_fields
parse_token_spec lib spec = parse_parts lib (map lib.strip (lib.split_on ":" (lib.strip spec)))

-- The loop of `TokenRegistry.__init__` over `seen`.
unfoldable pub repeats : (seen : List String) → List Token → Bool
repeats seen [] = false
repeats seen (t ∷ ts) = any (str_eq t.digest) seen || repeats (t.digest ∷ seen) ts

unfoldable pub new_registry : List Token → Result SpecError (List Token)
unfolding repeats
new_registry ts = if repeats [] ts then err duplicate_digest else ok ts

unfoldable pub parse_all : Lib → List String → Result SpecError (List Token)
unfolding parse_token_spec
parse_all lib [] = ok []
parse_all lib (e ∷ es) = elim (parse_token_spec lib e) [
  | err x ↦ err x
  | ok t ↦ elim (parse_all lib es) [ err x ↦ err x | ok ts ↦ ok (t ∷ ts) ]
]

abbrev pub registry_of : Result SpecError (List Token) → Result SpecError (List Token)
registry_of (err x) = err x
registry_of (ok ts) = new_registry ts

-- `TokenRegistry.from_spec`
unfoldable pub from_spec : Lib → Option String → Result SpecError (List Token)
unfolding parse_all new_registry
from_spec lib none = new_registry []
from_spec lib (some raw) =
    if not (is_text raw) || not (is_text (lib.strip raw))
    then new_registry []
    else registry_of (parse_all lib (lib.entries (lib.strip raw)))

-- The loop of `authenticate`, which goes on after a match.
unfoldable pub scan : (digest : String) → (matched : Option Token) → List Token → Option Token
scan digest matched [] = matched
scan digest matched (t ∷ ts) = scan digest (if str_eq digest t.digest then some t else matched) ts

abbrev pub no_tokens : List Token → Bool
no_tokens [] = true
no_tokens (t ∷ ts) = false

unfoldable pub authenticate : Lib → List Token → (presented : Option String) → Option Token
unfolding scan
authenticate lib ts none = none
authenticate lib ts (some secret) =
    if not (is_text secret) || no_tokens ts then none else scan (lib.sha256 secret) none ts

abbrev pub credential : String → Option String
credential value = if is_text value then some value else none

abbrev pub after_scheme : Lib → String → Option String → Option String
after_scheme lib value none = credential value
after_scheme lib value (some rest) = credential (lib.strip rest)

unfoldable pub parse_bearer : Lib → Option String → Option String
parse_bearer lib none = none
parse_bearer lib (some header) =
    if not (is_text header)
    then none
    else let value = lib.strip header in
      if str_eq (lib.lower value) "bearer"
      then none
      else after_scheme lib value (lib.drop_bearer value)
