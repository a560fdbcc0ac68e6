-- ===== src/Prelude/Lists.antt =====
-- Lists under native lengths, Boolean quantifiers, membership, and dictionaries by number.
use Prim.Native.Nat.{ℕ, suc, ◌+◌}
use mathlib.Core.Path.{◌≡◌, refl, sym, subst}
use mathlib.Core.Logic.{◌⊎◌, inl, inr}
use mathlib.Core.Bool.{Bool, true, false, ◌&&◌, ◌||◌}
use mathlib.Core.Option.{Option, none, some}
use mathlib.Core.List.{List, [], ◌∷◌, ◌++◌, map}
use native.Mathlib.Omega.{arith}
use ai_studio.Prelude.Tests.{◌==◌, if◌then◌else◌, Bool-cases, Option-cases}

module _ {ℓ} {A : Type ℓ} where
  abbrev pub length : List A → ℕ
  length [] = 0
  length (x ∷ xs) = suc (length xs)

  pub length-append : (xs ys : List A) → length (xs ++ ys) ≡ length xs + length ys
  length-append [] ys = omega arith
  length-append (x ∷ xs) ys = omega (arith, length-append xs ys)

module _ {ℓ} {A : Type ℓ} (p : A → Bool) where
  abbrev pub any : List A → Bool
  any [] = false
  any (x ∷ xs) = p x || any xs

  abbrev pub all : List A → Bool
  all [] = true
  all (x ∷ xs) = p x && all xs

  abbrev pub keep : List A → List A
  keep [] = []
  keep (x ∷ xs) = let rest = keep xs in if p x then x ∷ rest else rest

  abbrev pub find? : List A → Option A
  find? [] = none
  find? (x ∷ xs) = if p x then some x else find? xs

  abbrev pub count : List A → ℕ
  count [] = 0
  count (x ∷ xs) = let rest = count xs in if p x then suc rest else rest

-- Membership by recursion, which the tactics read.
abbrev pub In : {A : Type 0} → A → List A → Type 0
In a [] = ⊥
In a (x ∷ xs) = (a ≡ x) ⊎ In a xs

abbrev pub All {κ} : {A : Type 0} → (A → Type κ) → List A → Type κ
All P [] = Unit
All P (x ∷ xs) = P x × All P xs

pub All-In : {A : Type 0} (P : A → Type 0) (xs : List A) (a : A) → All P xs → In a xs → P a
All-In P [] a h m = absurd m
All-In P (x ∷ xs) a h (inl e) = subst P (sym e) h.0
All-In P (x ∷ xs) a h (inr m) = All-In P xs a h.1 m

pub In-append_left : {A : Type 0} (a : A) (xs ys : List A) → In a xs → In a (xs ++ ys)
In-append_left a [] ys m = elim m [ ]
In-append_left a (x ∷ xs) ys (inl e) = inl e
In-append_left a (x ∷ xs) ys (inr m) = inr (In-append_left a xs ys m)

pub In-append_right : {A : Type 0} (a : A) (xs ys : List A) → In a ys → In a (xs ++ ys)
In-append_right a [] ys m = m
In-append_right a (x ∷ xs) ys m = inr (In-append_right a xs ys m)

-- A search that succeeds returns an element of the list that passes the test.
pub find?-eq-some :
    {A : Type 0} (p : A → Bool) (xs : List A) (a : A) → find? p xs ≡ some a → In a xs × (p a ≡ true)
find?-eq-some p [] a h = absurd (ground arith)
find?-eq-some p (x ∷ xs) a h = elim (Bool-cases (p x)) [
  | inl e ↦ let same : x ≡ a = ground arith in (inl (sym same), rw (← same) e)
  | inr e ↦ let (m, q) = find?-eq-some p xs a (rw e at h) in (inr m, q)
]

-- A test that every element passes is passed by each of them.
pub all_of_In :
    {A : Type 0} (p : A → Bool) (xs : List A) (a : A) → all p xs ≡ true → In a xs → p a ≡ true
all_of_In p [] a h m = elim m [ ]
all_of_In p (x ∷ xs) a h (inl e) = rw e (ground arith)
all_of_In p (x ∷ xs) a h (inr m) = all_of_In p xs a (ground arith) m

-- Dictionaries by number, as `dict` of the source: `get` reads the first entry of a key, and
-- `put` keeps the place of a key that is there.
abbrev pub Dict {ℓ} : Type ℓ → Type ℓ
Dict V = List (ℕ × V)

module _ {ℓ} {V : Type ℓ} where
  unfoldable pub get : ℕ → Dict V → Option V
  get k [] = none
  get k ((j, v) ∷ m) = if j == k then some v else get k m

  unfoldable pub put : ℕ → V → Dict V → Dict V
  put k v [] = (k, v) ∷ []
  put k v ((j, w) ∷ m) = if j == k then (k, v) ∷ m else (j, w) ∷ put k v m

  pub get-put :
      (k j : ℕ) (v : V) (m : Dict V) → get j (put k v m) ≡ (if k == j then some v else get j m)
  unfolding get put
  get-put k j v [] = refl
  get-put k j v ((i, w) ∷ m) = ground (arith, get-put k j v m)

pub In-append-cases : {A : Type 0} (a : A) (xs ys : List A) → In a (xs ++ ys) → In a xs ⊎ In a ys
In-append-cases a [] ys m = inr m
In-append-cases a (x ∷ xs) ys (inl e) = inl (inl e)
In-append-cases a (x ∷ xs) ys (inr m) = elim (In-append-cases a xs ys m) [
  | inl l ↦ inl (inr l)
  | inr r ↦ inr r
]

pub In-keep :
    {A : Type 0} (p : A → Bool) (xs : List A) (a : A) → In a (keep p xs) → In a xs × (p a ≡ true)
In-keep p [] a m = absurd m
In-keep p (x ∷ xs) a m = elim (Bool-cases (p x)) [
  | inr e ↦ let (i, q) = In-keep p xs a (rw e at m) in (inr i, q)
  | inl e ↦ elim (let n : In a (x ∷ keep p xs) = rw e at m in n) [
    | inl same ↦ (inl same, rw same e)
    | inr m ↦ let (i, q) = In-keep p xs a m in (inr i, q)
  ]
]

pub any-eq-false :
    {A : Type 0} (p : A → Bool) (xs : List A) (a : A) → any p xs ≡ false → In a xs → p a ≡ false
any-eq-false p [] a h m = elim m [ ]
any-eq-false p (x ∷ xs) a h (inl e) = rw e (ground arith)
any-eq-false p (x ∷ xs) a h (inr m) = any-eq-false p xs a (ground arith) m

-- A row that `lt` puts first: ORDER BY … LIMIT 1.
unfoldable pub first_by {ℓ} : {A : Type ℓ} → (A → A → Bool) → List A → Option A
first_by lt [] = none
first_by lt (t ∷ ts) = elim (first_by lt ts) [
  | none ↦ some t
  | some u ↦ if lt u t then some u else some t
]

pub In-first_by :
    {A : Type 0} (lt : A → A → Bool) (ts : List A) (t : A) → first_by lt ts ≡ some t → In t ts
unfolding first_by
In-first_by lt [] t h = absurd (ground arith)
In-first_by lt (x ∷ ts) t h = elim (Option-cases (first_by lt ts)) [
  | inl e ↦ inl (ground arith)
  | inr (u, e) ↦ elim (Bool-cases (lt u x)) [
    | inl b ↦ inr (In-first_by lt ts t (ground arith))
    | inr b ↦ inl (ground arith)
  ]
]

pub keep-In :
    {A : Type 0} (p : A → Bool) (xs : List A) (a : A) → In a xs → p a ≡ true → In a (keep p xs)
keep-In p [] a m h = m
keep-In p (x ∷ xs) a (inl same) h = let e : p x ≡ true = rw (← same) h in rw e (inl same)
keep-In p (x ∷ xs) a (inr m) h = elim (Bool-cases (p x)) [
  | inl e ↦ rw e (inr (keep-In p xs a m h))
  | inr e ↦ rw e (keep-In p xs a m h)
]

pub In-map :
    {A B : Type 0} (f : A → B) (xs : List A) (b : B)
    → In b (map f xs)
    → (a : A) × In a xs × (b ≡ f a)
In-map f [] b m = absurd m
In-map f (x ∷ xs) b (inl e) = (x, inl refl, e)
In-map f (x ∷ xs) b (inr m) = let (a, i, e) = In-map f xs b m in (a, inr i, e)

pub map-In : {A B : Type 0} (f : A → B) (xs : List A) (a : A) → In a xs → In (f a) (map f xs)
map-In f [] a m = absurd m
map-In f (x ∷ xs) a (inl e) = inl (rw e refl)
map-In f (x ∷ xs) a (inr m) = inr (map-In f xs a m)

pub find?-eq-none :
    {A : Type 0} (p : A → Bool) (xs : List A) (a : A) → find? p xs ≡ none → In a xs → p a ≡ false
find?-eq-none p [] a h m = absurd m
find?-eq-none p (x ∷ xs) a h m = elim (Bool-cases (p x)) [
  | inl e ↦ let bad : some x ≡ none = rw e at h in cc
  | inr e ↦ elim m [ inl same ↦ rw same e | inr m ↦ find?-eq-none p xs a (rw e at h) m ]
]
