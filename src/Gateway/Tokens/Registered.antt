-- ===== src/Gateway/Tokens/Registered.antt =====
-- What a configured registry holds, and whom it recognises.
use ai_studio.Prelude.{
  String, true, false, Option, none, some, List, [], ◌∷◌, ◌||◌, not, str_eq, any, all, map,
  if◌then◌else◌, Result, ok, err, ◌≡◌, ◌↔◌, inl, inr, refl, sym, arith, In, Bool-cases, ◌∙◌, ap,
  subst, eq_iff, all_of_In, ◌⊎◌,
}
use ai_studio.Gateway.Tokens.{
  Lib, Token, Scope, SpecError, bar_parts, all_scopes, with_scopes, parse_fields, parse_parts,
  parse_token_spec, repeats, new_registry, parse_all, registry_of, from_spec, scan, authenticate,
  is_text,
}

-- A credential that the configuration may hold.
pub record IsConfigured (lib : Lib) (t : Token) : Type 0 where
  pub identity : lib.is_identifier t.identity ≡ true
  pub digest : lib.is_digest t.digest ≡ true
  pub scopes : ¬ (t.scopes ≡ [])
  pub workstreams : (w : String) → In w t.workstreams → lib.is_identifier w ≡ true

-- No two tokens have one digest.
abbrev pub IsDistinct : List Token → Type 0
IsDistinct [] = Unit {0}
IsDistinct (t ∷ ts) = ((u : Token) → In u ts → ¬ (t.digest ≡ u.digest)) × IsDistinct ts

abbrev pub AllConfigured : Lib → List Token → Type 0
AllConfigured lib [] = Unit {0}
AllConfigured lib (t ∷ ts) = IsConfigured lib t × AllConfigured lib ts

module _ (lib : Lib) where
  abbrev Parses : Result SpecError Token → Type 0
  Parses (err e) = Unit {0}
  Parses (ok t) = IsConfigured lib t

  with_scopes-Parses :
      (identity digest : String) (ss : Option (List Scope)) (ws : List String)
      → lib.is_identifier identity ≡ true
      → lib.is_digest digest ≡ true
      → Parses (with_scopes lib identity digest ss ws)
  with_scopes-Parses identity digest none ws i d = tt
  with_scopes-Parses identity digest (some []) ws i d = tt
  with_scopes-Parses identity digest (some (s ∷ ss)) ws i d =
      elim (Bool-cases (all lib.is_identifier ws)) [
        | inr e ↦ rw e tt
        | inl e ↦ rw e (record {
          identity = i;
          digest = d;
          scopes = λ n. cc;
          workstreams = λ w m. all_of_In lib.is_identifier ws w e m;
        })
      ]

  parse_fields-Parses :
      (identity scopes digest ws : String) → Parses (parse_fields lib identity scopes digest ws)
  unfolding parse_fields
  parse_fields-Parses identity scopes digest ws = elim (Bool-cases (lib.is_identifier identity)) [
    | inr e ↦ rw e tt
    | inl i ↦ elim (Bool-cases (lib.is_digest digest)) [
      | inr e ↦ rw (i, e) tt
      | inl d ↦
          rw (i, d)
            (with_scopes-Parses identity digest (all_scopes (bar_parts lib scopes))
              (bar_parts lib ws) i d)
    ]
  ]

  parse_parts-Parses : (parts : List String) → Parses (parse_parts lib parts)
  parse_parts-Parses [] = tt
  parse_parts-Parses (a ∷ []) = tt
  parse_parts-Parses (a ∷ b ∷ []) = tt
  parse_parts-Parses (a ∷ b ∷ c ∷ []) = parse_fields-Parses a b (lib.lower c) ""
  parse_parts-Parses (a ∷ b ∷ c ∷ d ∷ []) = parse_fields-Parses a b (lib.lower c) d
  parse_parts-Parses (a ∷ b ∷ c ∷ d ∷ e ∷ rest) = tt

  abbrev AllParse : Result SpecError (List Token) → Type 0
  AllParse (err e) = Unit {0}
  AllParse (ok ts) = AllConfigured lib ts

  parse_all-AllParse : (es : List String) → AllParse (parse_all lib es)
  unfolding parse_all parse_token_spec
  parse_all-AllParse [] = tt
  parse_all-AllParse (e ∷ es) =
      both (parse_token_spec lib e) (parse_all lib es)
        (parse_parts-Parses (map lib.strip (lib.split_on ":" (lib.strip e))))
        (parse_all-AllParse es)
    where
      both :
          (r : Result SpecError Token) (rs : Result SpecError (List Token))
          → Parses r
          → AllParse rs
          → AllParse
              (elim r [ err x ↦ err x | ok t ↦ elim rs [ err x ↦ err x | ok ts ↦ ok (t ∷ ts) ] ])
      both (err x) rs p q = tt
      both (ok t) (err x) p q = tt
      both (ok t) (ok ts) p q = (p, q)

-- The texts seen so far meet no digest of the rest.
repeats-IsDistinct :
    (seen : List String) (ts : List Token)
    → repeats seen ts ≡ false
    → ((t : Token) → In t ts → any (str_eq t.digest) seen ≡ false) × IsDistinct ts
unfolding repeats
repeats-IsDistinct seen [] h = (λ t m. absurd m, tt)
repeats-IsDistinct seen (x ∷ ts) h =
    let (fresh, d) = repeats-IsDistinct (x.digest ∷ seen) ts (ground arith) in
    (
      (λ t m. elim m [ inl e ↦ rw e (ground arith) | inr i ↦ let f = fresh t i in ground arith ]),
      (
        λ u i same.
            let f = fresh u i in
            let e = (eq_iff u.digest x.digest).1 (sym same) in absurd (ground arith),
        d,
      ),
    )

abbrev pub Registers : Lib → Result SpecError (List Token) → Type 0
Registers lib (err e) = Unit {0}
Registers lib (ok ts) = AllConfigured lib ts × IsDistinct ts

new_registry-Registers :
    (lib : Lib) (ts : List Token) → AllConfigured lib ts → Registers lib (new_registry ts)
unfolding new_registry
new_registry-Registers lib ts c = elim (Bool-cases (repeats [] ts)) [
  | inl e ↦ rw e tt
  | inr e ↦ rw e (c, (repeats-IsDistinct [] ts e).1)
]

-- A registry that `from_spec` builds has no two tokens with one digest, and every token in it
-- has an identity, a digest and workstreams that the gateway's regular expressions accept, and
-- some scope.
pub from_spec-Registers : (lib : Lib) (raw : Option String) → Registers lib (from_spec lib raw)
unfolding from_spec
from_spec-Registers lib none = new_registry-Registers lib [] tt
from_spec-Registers lib (some raw) =
    elim (Bool-cases (not (is_text raw) || not (is_text (lib.strip raw)))) [
      | inl e ↦ rw e (new_registry-Registers lib [] tt)
      | inr e ↦ rw e (
          of_parsed (parse_all lib (lib.entries (lib.strip raw)))
            (parse_all-AllParse lib (lib.entries (lib.strip raw))))
    ]
  where
    of_parsed : (r : Result SpecError (List Token)) → AllParse lib r → Registers lib (registry_of r)
    of_parsed (err x) p = tt
    of_parsed (ok ts) p = new_registry-Registers lib ts p

str_eq-false : (a b : String) → (¬ (a ≡ b)) → str_eq a b ≡ false
str_eq-false a b n = elim (Bool-cases (str_eq a b)) [
  | inr e ↦ e
  | inl e ↦ absurd (n ((eq_iff a b).0 e))
]

pub scan-In :
    (digest : String) (o : Option Token) (ts : List Token) (t : Token)
    → scan digest o ts ≡ some t
    → (o ≡ some t) ⊎ (In t ts × (digest ≡ t.digest))
unfolding scan
scan-In digest o [] t h = inl h
scan-In digest o (x ∷ ts) t h = elim (Bool-cases (str_eq digest x.digest)) [
  | inr e ↦ elim (scan-In digest o ts t (rw e at h)) [ inl a ↦ inl a | inr (m, q) ↦ inr (inr m, q) ]
  | inl e ↦ elim (scan-In digest (some x) ts t (rw e at h)) [
    | inl a ↦
        let same : x ≡ t = ground arith in
        inr (inl (sym same), rw (← same) ((eq_iff digest x.digest).0 e))
    | inr (m, q) ↦ inr (inr m, q)
  ]
]

scan_other :
    (digest : String) (o : Option Token) (ts : List Token)
    → ((u : Token) → In u ts → ¬ (digest ≡ u.digest))
    → scan digest o ts ≡ o
unfolding scan
scan_other digest o [] h = refl
scan_other digest o (x ∷ ts) h =
    let n : str_eq digest x.digest ≡ false = str_eq-false digest x.digest (h x (inl refl)) in
    rw n (scan_other digest o ts (λ u i. h u (inr i)))

scan_self :
    (o : Option Token) (ts : List Token) (t : Token)
    → IsDistinct ts
    → In t ts
    → scan t.digest o ts ≡ some t
unfolding scan
scan_self o [] t d m = absurd m
scan_self o (x ∷ ts) t d (inl e) =
    let y = (eq_iff t.digest x.digest).1 (ap (λ (u : Token). u.digest) e) in
    rw y (
      scan_other t.digest (some x) ts
        (λ u i same. d.0 u i (ap (λ (u : Token). u.digest) (sym e) ∙ same))
      ∙ ap some (sym e))
scan_self o (x ∷ ts) t d (inr m) =
    scan_self (if str_eq t.digest x.digest then some x else o) ts t d.1 m

-- In a registry without repeated digests, a secret that is not empty is recognised as a token exactly
-- where the token is of the registry and its digest is the secret's.
pub authenticate_iff :
    (lib : Lib) (ts : List Token) (secret : String) (t : Token)
    → IsDistinct ts
    → is_text secret ≡ true
    → (authenticate lib ts (some secret) ≡ some t) ↔ (In t ts × (lib.sha256 secret ≡ t.digest))
unfolding authenticate
authenticate_iff lib [] secret t d s = rw s (λ h. absurd (ground arith), λ (m, e). absurd m)
authenticate_iff lib (x ∷ ts) secret t d s = rw s (
  (λ h. elim (scan-In (lib.sha256 secret) none (x ∷ ts) t h) [
    | inl a ↦ absurd (ground arith)
    | inr r ↦ r
  ]),
  λ (m, e). subst (λ c. scan c none (x ∷ ts) ≡ some t) (sym e) (scan_self none (x ∷ ts) t d m),
)
