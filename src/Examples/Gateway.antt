-- ===== src/Examples/Gateway.antt =====
-- Tests of gateway/auth.py, over a small stand-in for Python's texts.
use ai_studio.Prelude.{
  ◌+◌, ◌*◌, ◌≤◌, String, true, false, Option, none, some, List, [], ◌∷◌, ◌≡◌, ◌↔◌, refl, In, str_eq,
  ok, err, if◌then◌else◌,
}
use ai_studio.Gateway.Tokens.{
  Lib, Token, read, claim, duplicate_digest, unknown_scope, parse_token_spec, parse_fields,
  all_scopes, bar_parts, new_registry, repeats, from_spec, parse_all, authenticate, scan,
  parse_bearer,
}
use ai_studio.Gateway.Tokens.Registered.{Registers, from_spec-Registers, authenticate_iff}
use ai_studio.Gateway.Limits.{one, RateLimiter, new_limiter, check, bucket_of, set_bucket}
use ai_studio.Gateway.Limits.Bounded.{passed, waited, wait, passed-bounded}
use ai_studio.Gateway.Gates.{Demand, authorize, scoping, pinning, allowed, deny, workstream_denied}
use ai_studio.Gateway.Gates.Opened.{Decided, authorize-Decided}

abbrev parts_of : String → String → List String
parts_of separator s =
    if str_eq separator ":"
    then (if str_eq s "bob"
        then "bob" ∷ "read|claim" ∷ "d1" ∷ "video" ∷ []
        else "eve" ∷ s ∷ "d1" ∷ [])
    else if str_eq s "read|claim"
    then "read" ∷ " " ∷ "claim" ∷ []
    else s ∷ []

abbrev lib : Lib
lib = record {
  strip = λ s. if str_eq s " " then "" else s;
  lower = λ s. s;
  drop_bearer = λ s. if str_eq s "bearer x1" then some "x1" else none;
  split_on = parts_of;
  entries = λ s. if str_eq s "two" then "bob" ∷ "read" ∷ [] else s ∷ [];
  is_identifier = λ s. true;
  is_digest = λ s. true;
  sha256 = λ s. if str_eq s "x1" then "d1" else s;
}

abbrev bob : Token
bob = record {
  identity = "bob";
  scopes = read ∷ claim ∷ [];
  digest = "d1";
  workstreams = "video" ∷ [];
}

bob_parses : from_spec lib (some "bob") ≡ ok (bob ∷ [])
unfolding from_spec parse_all parse_token_spec parse_fields all_scopes bar_parts new_registry
    repeats
bob_parses = refl

one_digest_twice : from_spec lib (some "two") ≡ err duplicate_digest
unfolding from_spec parse_all parse_token_spec parse_fields all_scopes bar_parts new_registry
    repeats
one_digest_twice = refl

no_scope : from_spec lib (some "write") ≡ err unknown_scope
unfolding from_spec parse_all parse_token_spec parse_fields all_scopes bar_parts new_registry
    repeats
no_scope = refl

from_spec-Registers_example : Registers lib (from_spec lib (some "bob"))
from_spec-Registers_example = from_spec-Registers lib (some "bob")

authenticate_iff_example :
    (authenticate lib (bob ∷ []) (some "x1") ≡ some bob)
    ↔ (In bob (bob ∷ []) × (lib.sha256 "x1" ≡ bob.digest))
authenticate_iff_example = authenticate_iff lib (bob ∷ []) "x1" bob (λ u m. absurd m, tt) refl

abbrev small : RateLimiter
small = new_limiter 60 2 0

-- Three at once, and one after a second.
four_requests :
    passed "bob" ((0, "bob") ∷ (0, "bob") ∷ (0, "bob") ∷ (1000000, "bob") ∷ []) small ≡ 3
unfolding passed wait check bucket_of set_bucket new_limiter
four_requests = refl

passed-bounded_example :
    passed "bob" ((0, "bob") ∷ (5, "eve") ∷ (0, "bob") ∷ []) small * one
    ≤ small.burst * one + waited ((0, "bob") ∷ (5, "eve") ∷ (0, "bob") ∷ []) * small.rate
passed-bounded_example = passed-bounded "bob" ((0, "bob") ∷ (5, "eve") ∷ (0, "bob") ∷ []) small

abbrev asks : Option String → Demand
asks workstream = record {
  authorization = some "bearer x1";
  scope = some claim;
  workstream = workstream;
  workstream_optional = false;
}

-- The one workstream of a pinned token is what a request without one means.
opens : (authorize lib (bob ∷ []) (asks none) none).0 ≡ allowed bob (some "video")
unfolding authorize scoping pinning authenticate scan parse_bearer
opens = refl

stays_shut :
    (authorize lib (bob ∷ []) (asks (some "audio")) none).0
    ≡ deny 403 workstream_denied (some "bob")
unfolding authorize scoping pinning authenticate scan parse_bearer
stays_shut = refl

authorize-Decided_example :
    Decided lib
      (bob ∷ [])
      (asks none)
      (some small)
      (authorize lib (bob ∷ []) (asks none) (some small)).0
authorize-Decided_example = authorize-Decided lib (bob ∷ []) (asks none) (some small)
