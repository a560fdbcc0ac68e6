-- ===== src/Gateway/Gates/Opened.antt =====
-- Which requests the gates let through, and what they refuse the others for.
use ai_studio.Prelude.{
  String, true, false, Option, none, some, List, ◌&&◌, is_none, ◌≡◌, ◌⊎◌, inl, inr, refl, arith, In,
  Bool-cases, subst, sym,
}
use ai_studio.Gateway.Tokens.{Lib, Token, allows_workstream, no_tokens, authenticate, parse_bearer}
use ai_studio.Gateway.Tokens.Presented.{authenticate-some, authenticate-none, parse_bearer-is_text}
use ai_studio.Gateway.Limits.{RateLimiter, Retry, check}
use ai_studio.Gateway.Gates.{
  Reason, no_tokens_configured, no_token, unknown_token, missing_scope, workstream_denied,
  rate_limited, Answer, allowed, refused, Demand, in_scope, resolved, pinning, scoping, rated,
  limited, recognised, presented, authorize,
}

-- The limiter, where there is one, lets the identity through.
abbrev pub Passes : String → Option RateLimiter → Type 0
Passes i none = Unit {0}
Passes i (some l) = (check i l).0 ≡ none

-- The secret that the request carries is the token's.
abbrev pub Shows : Lib → List Token → Demand → Token → Type 0
Shows lib ts q t =
    (secret : String) × (parse_bearer lib q.authorization ≡ some secret)
    × In t ts
    × (lib.sha256 secret ≡ t.digest)

-- The request names no workstream and needs none.
abbrev pub Unscoped : Demand → Type 0
Unscoped q = (q.workstream_optional ≡ true) × (is_none q.workstream ≡ true)

abbrev pub OutOfScope : Token → Demand → Reason → Type 0
OutOfScope t q why =
    ((why ≡ missing_scope) × (in_scope t q.scope ≡ false))
    ⊎ ((why ≡ workstream_denied)
        × (in_scope t q.scope ≡ true)
        × (allows_workstream t (resolved t q.workstream) ≡ false)
        × (¬ Unscoped q))

-- What the answer to the holder of a token means.
abbrev pub Fits : Token → Demand → Answer → Type 0
Fits t q (allowed a w) =
    (a ≡ t)
    × (w ≡ resolved t q.workstream)
    × (in_scope t q.scope ≡ true)
    × ((allows_workstream t w ≡ true) ⊎ Unscoped q)
Fits t q (refused d) = (d.identity ≡ some t.identity) × OutOfScope t q d.reason

pinning-Fits : (t : Token) (q : Demand) → in_scope t q.scope ≡ true → Fits t q (pinning t q)
unfolding pinning
pinning-Fits t q s = elim (Bool-cases (q.workstream_optional && is_none q.workstream)) [
  | inl e ↦ rw e (refl, refl, s, inr (ground arith, ground arith))
  | inr e ↦ elim (Bool-cases (allows_workstream t (resolved t q.workstream))) [
    | inl a ↦ rw (e, a) (refl, refl, s, inl a)
    | inr a ↦ rw (e, a) (refl, inr (refl, s, a, λ (o, n). absurd (ground arith)))
  ]
]

scoping-Fits : (t : Token) (q : Demand) → Fits t q (scoping t q)
unfolding scoping
scoping-Fits t q = elim (Bool-cases (in_scope t q.scope)) [
  | inl e ↦ rw e (pinning-Fits t q e)
  | inr e ↦ rw e (refl, inl (refl, e))
]

-- What any answer means.
abbrev pub Decided : Lib → List Token → Demand → Option RateLimiter → Answer → Type 0
Decided lib ts q l (allowed t w) = Shows lib ts q t × Passes t.identity l × Fits t q (allowed t w)
Decided lib ts q l (refused d) =
    ((d.reason ≡ no_tokens_configured) × (no_tokens ts ≡ true))
    ⊎ ((d.reason ≡ no_token) × (parse_bearer lib q.authorization ≡ none))
    ⊎ ((d.reason ≡ unknown_token) × ((t : Token) → ¬ Shows lib ts q t))
    ⊎ ((t : Token) × Shows lib ts q t
        × (((d.reason ≡ rate_limited) × (¬ Passes t.identity l))
            ⊎ (Passes t.identity l × Fits t q (refused d))))

module _ (lib : Lib) (ts : List Token) (q : Demand) where
  scoped :
      (l : Option RateLimiter) (t : Token) (a : Answer)
      → Shows lib ts q t
      → Passes t.identity l
      → Fits t q a
      → Decided lib ts q l a
  scoped l t (allowed u w) s p (same, w_eq, in_s, may) = (
    subst (λ v. Shows lib ts q v) (sym same) s,
    subst (λ (v : Token). Passes v.identity l) (sym same) p,
    subst (λ v. Fits v q (allowed u w)) (sym same) (same, w_eq, in_s, may),
  )
  scoped l t (refused d) s p f = inr (inr (inr (t, s, inr (p, f))))

  rated-Decided :
      (t : Token) (l : RateLimiter) (r : Option Retry)
      → (check t.identity l).0 ≡ r
      → Shows lib ts q t
      → Decided lib ts q (some l) (rated t q r)
  rated-Decided t l none e s = scoped (some l) t (scoping t q) s e (scoping-Fits t q)
  rated-Decided t l (some retry) e s = inr (inr (inr (t, s, inl (refl, λ p. cc))))

  limited-Decided :
      (t : Token) (l : Option RateLimiter) → Shows lib ts q t → Decided lib ts q l (limited t q l).0
  limited-Decided t none s = scoped none t (scoping t q) s tt (scoping-Fits t q)
  limited-Decided t (some l) s = rated-Decided t l (check t.identity l).0 refl s

  recognised-Decided :
      (secret : String) (o : Option Token) (l : Option RateLimiter)
      → no_tokens ts ≡ false
      → parse_bearer lib q.authorization ≡ some secret
      → authenticate lib ts (some secret) ≡ o
      → Decided lib ts q l (recognised o q l).0
  recognised-Decided secret none l n b e = inr (
      inr (
        inl (
          refl,
          λ t (other, c, m, d).
              let same : other ≡ secret = ground arith in
              authenticate-none lib ts secret (parse_bearer-is_text lib q.authorization secret b) n
                e t m (rw (← same) d),
        )))
  recognised-Decided secret (some t) l n b e =
      let (m, d) = authenticate-some lib ts secret t e in limited-Decided t l (secret, b, m, d)

  presented-Decided :
      (o : Option String) (l : Option RateLimiter)
      → no_tokens ts ≡ false
      → parse_bearer lib q.authorization ≡ o
      → Decided lib ts q l (presented lib ts o q l).0
  presented-Decided none l n b = inr (inl (refl, b))
  presented-Decided (some secret) l n b =
      recognised-Decided secret (authenticate lib ts (some secret)) l n b refl

-- Every answer of the gates has its reason. A request is let through as a token only where it shows a
-- secret with the token's digest, the limiter lets the identity through, and the token has the scope
-- and may act in the workstream that the answer names, unless the request needs none and names none.
-- A request is refused only for a reason that holds: no token is configured, it carries no secret, the
-- secret is no token's, or the limit, the scopes or the workstreams of the token that it shows stand
-- against it.
pub authorize-Decided :
    (lib : Lib) (ts : List Token) (q : Demand) (l : Option RateLimiter)
    → Decided lib ts q l (authorize lib ts q l).0
unfolding authorize
authorize-Decided lib ts q l = elim (Bool-cases (no_tokens ts)) [
  | inl e ↦ rw e (inl (refl, e))
  | inr e ↦ rw e (presented-Decided lib ts q (parse_bearer lib q.authorization) l e refl)
]
