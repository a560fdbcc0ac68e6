-- ===== src/Relay/Verdicts.antt =====
-- What the verdicts of the gate say of the evidence.
use ai_studio.Prelude.{
  String, Bool, true, false, none, some, List, [], ◌∷◌, ◌≡◌, ◌↔◌, inl, inr, refl, arith, All, any,
  all, find?, not, ◌&&◌, str_eq, Bool-cases, Option-cases,
}
use ai_studio.Grounding.{is_empty}
use ai_studio.Relay.Resolve.{RefResolution, FieldNote, Fields, differing, all_match, column}
use ai_studio.Relay.{verified, unverifiable, rejected, verdict_on}

-- A ref that was found, and is not contradicted.
abbrev pub Supports : RefResolution → Type 0
Supports r = (r.resolved ≡ true) × (r.contradicted ≡ false)

find?-none-any :
    (p : RefResolution → Bool) (rs : List RefResolution) → find? p rs ≡ none → any p rs ≡ false
find?-none-any p [] h = refl
find?-none-any p (r ∷ rs) h = elim (Bool-cases (p r)) [
  | inl e ↦ let bad : some r ≡ none = rw e at h in cc
  | inr e ↦ rw e (find?-none-any p rs (rw e at h))
]

find?-some-any :
    (p : RefResolution → Bool) (rs : List RefResolution) (x : RefResolution)
    → find? p rs ≡ some x
    → any p rs ≡ true
find?-some-any p [] x h = cc
find?-some-any p (r ∷ rs) x h = elim (Bool-cases (p r)) [
  | inl e ↦ rw e refl
  | inr e ↦ rw e (find?-some-any p rs x (rw e at h))
]

supported :
    (rs : List RefResolution)
    → any (λ (r : RefResolution). r.contradicted) rs ≡ false
    → all (λ (r : RefResolution). r.resolved) rs ≡ true
    → All Supports rs
supported [] n a = tt
supported (r ∷ rs) n a = ((ground arith, ground arith), supported rs (ground arith) (ground arith))

-- A verdict of `verified` rests on refs that all support the claim, and there is one.
pub verdict_on-verified :
    (rs : List RefResolution)
    → (verdict_on rs).status ≡ verified
    → (is_empty rs ≡ false) × All Supports rs
unfolding verdict_on
verdict_on-verified rs h = elim (Option-cases (find? (λ (r : RefResolution). r.contradicted) rs)) [
  | inr (bad, e) ↦ let wrong : rejected ≡ verified = rw (verdict_on, e) at h in cc
  | inl e ↦ elim (Bool-cases (not (is_empty rs) && all (λ (r : RefResolution). r.resolved) rs)) [
    | inl f ↦ (ground arith, supported rs (find?-none-any _ rs e) (ground arith))
    | inr f ↦ let wrong : unverifiable ≡ verified = rw (verdict_on, e, f) at h in cc
  ]
]

-- A claim is rejected exactly where one of its refs is contradicted.
pub verdict_on-rejected :
    (rs : List RefResolution)
    → ((verdict_on rs).status ≡ rejected) ↔ (any (λ (r : RefResolution). r.contradicted) rs ≡ true)
unfolding verdict_on
verdict_on-rejected rs = elim (Option-cases (find? (λ (r : RefResolution). r.contradicted) rs)) [
  | inr (bad, e) ↦ (λ _. find?-some-any _ rs bad e, λ _. rw (verdict_on, e) refl)
  | inl e ↦
      let none_bad = find?-none-any _ rs e in
      (
        λ h. elim (Bool-cases (not (is_empty rs) && all (λ (r : RefResolution). r.resolved) rs)) [
          | inl f ↦ let wrong : verified ≡ rejected = rw (verdict_on, e, f) at h in cc
          | inr f ↦ let wrong : unverifiable ≡ rejected = rw (verdict_on, e, f) at h in cc
        ],
        λ h. cc,
      )
]

-- A field whose column is there with another value, and one whose column is not there.
abbrev pub conflicts : List (String × String) → String × String → Bool
conflicts row (c, want) = elim (column c row) [ none ↦ false | some got ↦ not (str_eq got want) ]

abbrev pub is_unknown : List (String × String) → String × String → Bool
is_unknown row (c, want) = elim (column c row) [ none ↦ true | some got ↦ false ]

is_differing : Fields → Bool
is_differing (differing c got want) = true
is_differing (all_match notes) = false

notes_of : Fields → List FieldNote
notes_of (differing c got want) = []
notes_of (all_match notes) = notes

is_clean : Fields → Bool
is_clean (differing c got want) = false
is_clean (all_match []) = true
is_clean (all_match (n ∷ ns)) = false
