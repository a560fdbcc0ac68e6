-- ===== src/Prelude/Sorting.antt =====
-- ORDER BY as a stable insertion sort: rows that `lt` does not order stand as the table has them.
use Prim.Native.Nat.{ℕ, zero, suc}
use mathlib.Core.Path.{◌≡◌, refl}
use mathlib.Core.Logic.{inl, inr}
use mathlib.Core.Bool.{Bool}
use mathlib.Core.Option.{Option, none, some}
use mathlib.Core.List.{List, [], ◌∷◌}
use ai_studio.Prelude.Tests.{if◌then◌else◌, Bool-cases, Option-cases}
use ai_studio.Prelude.Lists.{In, first_by}

unfoldable pub insert_by {ℓ} : {A : Type ℓ} → (A → A → Bool) → A → List A → List A
insert_by lt x [] = x ∷ []
insert_by lt x (y ∷ ys) = let rest = insert_by lt x ys in if lt y x then y ∷ rest else x ∷ y ∷ ys

unfoldable pub sort_by {ℓ} : {A : Type ℓ} → (A → A → Bool) → List A → List A
unfolding insert_by
sort_by lt [] = []
sort_by lt (x ∷ xs) = insert_by lt x (sort_by lt xs)

abbrev pub head? {ℓ} : {A : Type ℓ} → List A → Option A
head? [] = none
head? (x ∷ xs) = some x

-- LIMIT
abbrev pub take {ℓ} : {A : Type ℓ} → ℕ → List A → List A
take zero xs = []
take (suc n) [] = []
take (suc n) (x ∷ xs) = x ∷ take n xs

head?-insert_by :
    {A : Type 0} (lt : A → A → Bool) (x : A) (ys : List A)
    → head? (insert_by lt x ys)
      ≡ elim (head? ys) [ none ↦ some x | some u ↦ if lt u x then some u else some x ]
unfolding insert_by
head?-insert_by lt x [] = refl
head?-insert_by lt x (y ∷ ys) = elim (Bool-cases (lt y x)) [ inl e ↦ rw e refl | inr e ↦ rw e refl ]

-- LIMIT 1 takes the first row of the sorted table.
pub head?-sort_by :
    {A : Type 0} (lt : A → A → Bool) (xs : List A) → head? (sort_by lt xs) ≡ first_by lt xs
unfolding sort_by first_by
head?-sort_by lt [] = refl
head?-sort_by lt (x ∷ xs) = rw (head?-insert_by lt x (sort_by lt xs), head?-sort_by lt xs) refl

In-insert_by :
    {A : Type 0} (lt : A → A → Bool) (x : A) (ys : List A) (a : A)
    → In a (insert_by lt x ys)
    → In a (x ∷ ys)
unfolding insert_by
In-insert_by lt x [] a m = m
In-insert_by lt x (y ∷ ys) a m = elim (Bool-cases (lt y x)) [
  | inr e ↦ rw (insert_by, e) at m
  | inl e ↦ elim (let n : In a (y ∷ insert_by lt x ys) = rw (insert_by, e) at m in n) [
    | inl same ↦ inr (inl same)
    | inr n ↦ elim (In-insert_by lt x ys a n) [ inl same ↦ inl same | inr k ↦ inr (inr k) ]
  ]
]

insert_by-In :
    {A : Type 0} (lt : A → A → Bool) (x : A) (ys : List A) (a : A)
    → In a (x ∷ ys)
    → In a (insert_by lt x ys)
unfolding insert_by
insert_by-In lt x [] a m = m
insert_by-In lt x (y ∷ ys) a m = elim (Bool-cases (lt y x)) [
  | inr e ↦ rw (insert_by, e) m
  | inl e ↦
      rw (insert_by, e)
        (elim m [
          | inl same ↦ inr (insert_by-In lt x ys a (inl same))
          | inr n ↦ elim n [ inl same ↦ inl same | inr k ↦ inr (insert_by-In lt x ys a (inr k)) ]
        ])
]

pub In-sort_by :
    {A : Type 0} (lt : A → A → Bool) (xs : List A) (a : A) → In a (sort_by lt xs) → In a xs
unfolding sort_by
In-sort_by lt [] a m = m
In-sort_by lt (x ∷ xs) a m = elim (In-insert_by lt x (sort_by lt xs) a m) [
  | inl same ↦ inl same
  | inr n ↦ inr (In-sort_by lt xs a n)
]

pub sort_by-In :
    {A : Type 0} (lt : A → A → Bool) (xs : List A) (a : A) → In a xs → In a (sort_by lt xs)
unfolding sort_by
sort_by-In lt [] a m = m
sort_by-In lt (x ∷ xs) a m =
    insert_by-In lt x (sort_by lt xs) a
      (elim m [ inl same ↦ inl same | inr n ↦ inr (sort_by-In lt xs a n) ])

-- Tests that agree take the same row.
pub first_by-ext :
    {A : Type 0} (lt gt : A → A → Bool) (xs : List A)
    → ((a b : A) → lt a b ≡ gt a b)
    → first_by lt xs ≡ first_by gt xs
unfolding first_by
first_by-ext lt gt [] h = refl
first_by-ext lt gt (x ∷ xs) h = elim (Option-cases (first_by gt xs)) [
  | inl e ↦ rw (first_by-ext lt gt xs h, e) refl
  | inr (u, e) ↦ rw (first_by-ext lt gt xs h, e, h u x) refl
]
