-- ===== src/Gateway/Tokens/Presented.antt =====
-- What a presented credential comes to.
use ai_studio.Prelude.{
  String, true, false, Option, none, some, List, [], ◌∷◌, ◌||◌, not, str_eq, ◌≡◌, inl, inr, arith,
  In, Bool-cases, eq_iff, ap, ◌∙◌,
}
use ai_studio.Gateway.Tokens.{
  Lib, Token, scan, no_tokens, authenticate, is_text, credential, after_scheme, parse_bearer,
}
use ai_studio.Gateway.Tokens.Registered.{scan-In}

scan-some : (digest : String) (u : Token) (ts : List Token) → ¬ (scan digest (some u) ts ≡ none)
unfolding scan
scan-some digest u [] h = cc
scan-some digest u (x ∷ ts) h = elim (Bool-cases (str_eq digest x.digest)) [
  | inl e ↦ scan-some digest x ts (rw e at h)
  | inr e ↦ scan-some digest u ts (rw e at h)
]

scan-none :
    (digest : String) (ts : List Token)
    → scan digest none ts ≡ none
    → (t : Token) → In t ts
    → ¬ (digest ≡ t.digest)
unfolding scan
scan-none digest [] h t m e = absurd m
scan-none digest (x ∷ ts) h t m e = elim (Bool-cases (str_eq digest x.digest)) [
  | inl b ↦ scan-some digest x ts (rw b at h)
  | inr b ↦ elim m [
    | inl same ↦ let y = (eq_iff digest x.digest).1 (e ∙ ap (λ (u : Token). u.digest) same) in cc
    | inr i ↦ scan-none digest ts (rw b at h) t i e
  ]
]

pub authenticate-some :
    (lib : Lib) (ts : List Token) (secret : String) (t : Token)
    → authenticate lib ts (some secret) ≡ some t
    → In t ts × (lib.sha256 secret ≡ t.digest)
unfolding authenticate
authenticate-some lib ts secret t h = elim (Bool-cases (not (is_text secret) || no_tokens ts)) [
  | inl e ↦ let bad : none ≡ some t = rw e at h in cc
  | inr e ↦ elim (scan-In (lib.sha256 secret) none ts t (rw e at h)) [ inl a ↦ cc | inr r ↦ r ]
]

pub authenticate-none :
    (lib : Lib) (ts : List Token) (secret : String)
    → is_text secret ≡ true
    → no_tokens ts ≡ false
    → authenticate lib ts (some secret) ≡ none
    → (t : Token) → In t ts
    → ¬ (lib.sha256 secret ≡ t.digest)
unfolding authenticate
authenticate-none lib ts secret s n h t m = scan-none (lib.sha256 secret) ts (rw (s, n) at h) t m

credential-is_text :
    (value secret : String) → credential value ≡ some secret → is_text secret ≡ true
credential-is_text value secret h = elim (Bool-cases (is_text value)) [
  | inl e ↦
      let same : some value ≡ some secret = rw e at h in
      let v : value ≡ secret = ground arith in rw (← v) e
  | inr e ↦ let bad : none ≡ some secret = rw e at h in cc
]

after_scheme-is_text :
    (lib : Lib) (value : String) (o : Option String) (secret : String)
    → after_scheme lib value o ≡ some secret
    → is_text secret ≡ true
after_scheme-is_text lib value none secret h = credential-is_text value secret h
after_scheme-is_text lib value (some rest) secret h = credential-is_text (lib.strip rest) secret h

-- A credential that is read from a header is never empty.
pub parse_bearer-is_text :
    (lib : Lib) (header : Option String) (secret : String)
    → parse_bearer lib header ≡ some secret
    → is_text secret ≡ true
unfolding parse_bearer
parse_bearer-is_text lib none secret h = cc
parse_bearer-is_text lib (some header) secret h = elim (Bool-cases (not (is_text header))) [
  | inl e ↦ let bad : none ≡ some secret = rw e at h in cc
  | inr e ↦ elim (Bool-cases (str_eq (lib.lower (lib.strip header)) "bearer")) [
    | inl f ↦ let bad : none ≡ some secret = rw (e, f) at h in cc
    | inr f ↦
        after_scheme-is_text lib (lib.strip header) (lib.drop_bearer (lib.strip header)) secret
          (rw (e, f) at h)
  ]
]
