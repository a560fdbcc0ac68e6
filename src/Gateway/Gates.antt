-- ===== src/Gateway/Gates.antt =====
-- `authorize`: the gates that a request meets, in their order, and what they refuse it for. The limiter
-- is returned with the answer, since a check of it spends from a bucket.
pub mod Opened
use ai_studio.Prelude.{
  ℕ, String, Bool, true, false, Option, none, some, List, [], ◌∷◌, ◌&&◌, not, is_none, or_else,
  if◌then◌else◌,
}
use ai_studio.Gateway.Tokens.{
  Lib, Scope, Token, has_scope, allows_workstream, default_workstream, no_tokens, authenticate,
  parse_bearer,
}
use ai_studio.Gateway.Limits.{RateLimiter, Retry, check}

-- The reasons of a refusal.
pub data Reason : Type 0 where
  no_tokens_configured no_token unknown_token missing_scope workstream_denied rate_limited : Reason

-- `Denied`
pub record Denied : Type 0 where
  pub status : ℕ
  pub reason : Reason
  pub identity : Option String
  pub retry_after : Option Retry

-- `Allowed`, or `Denied`
pub data Answer : Type 0 where
  allowed : Token → (workstream : Option String) → Answer
  refused : Denied → Answer

-- What a request asks; no scope stands for `SCOPE_ANY`.
pub record Demand : Type 0 where
  pub authorization : Option String
  pub scope : Option Scope
  pub workstream : Option String
  pub workstream_optional : Bool

abbrev pub deny : ℕ → Reason → Option String → Answer
deny status reason identity =
    refused (record { status = status; reason = reason; identity = identity; retry_after = none })

abbrev pub in_scope : Token → Option Scope → Bool
in_scope t none = true
in_scope t (some s) = has_scope t s

abbrev pub resolved : Token → Option String → Option String
resolved t w = or_else w (default_workstream t)

unfoldable pub pinning : Token → Demand → Answer
unfolding default_workstream allows_workstream
pinning t q =
    if q.workstream_optional && is_none q.workstream
    then allowed t (resolved t q.workstream)
    else if not (allows_workstream t (resolved t q.workstream))
    then deny 403 workstream_denied (some t.identity)
    else allowed t (resolved t q.workstream)

unfoldable pub scoping : Token → Demand → Answer
unfolding pinning has_scope
scoping t q =
    if not (in_scope t q.scope) then deny 403 missing_scope (some t.identity) else pinning t q

abbrev pub rated : Token → Demand → Option Retry → Answer
rated t q none = scoping t q
rated t q (some retry) = refused (record {
  status = 429;
  reason = rate_limited;
  identity = some t.identity;
  retry_after = some retry;
})

abbrev pub limited : Token → Demand → Option RateLimiter → Answer × Option RateLimiter
limited t q none = (scoping t q, none)
limited t q (some l) = let (r, l') = check t.identity l in (rated t q r, some l')

abbrev pub recognised : Option Token → Demand → Option RateLimiter → Answer × Option RateLimiter
recognised none q l = (deny 401 unknown_token none, l)
recognised (some t) q l = limited t q l

abbrev pub presented :
    Lib → List Token → Option String → Demand → Option RateLimiter → Answer × Option RateLimiter
presented lib ts none q l = (deny 401 no_token none, l)
presented lib ts (some secret) q l = recognised (authenticate lib ts (some secret)) q l

unfoldable pub authorize :
    Lib → List Token → Demand → Option RateLimiter → Answer × Option RateLimiter
unfolding scoping check authenticate parse_bearer
authorize lib ts q l =
    if no_tokens ts
    then (deny 503 no_tokens_configured none, l)
    else presented lib ts (parse_bearer lib q.authorization) q l
