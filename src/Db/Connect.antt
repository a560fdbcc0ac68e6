-- ===== src/Db/Connect.antt =====
-- runtime/db.py: `connect_with_retry`. The driver's `connect` is a parameter: what attempt `n` gives,
-- a connection or an exception. Delays are in microseconds.
use Prim.Native.Nat.{◌^◌}
use ai_studio.Prelude.{
  ℕ, zero, suc, ◌+◌, ◌-◌, ◌*◌, ◌≤◌, ◌<◌, Option, none, some, List, [], ◌∷◌, ◌++◌, ◌≡◌, ◌⊎◌, inl,
  inr, refl, subst, arith, ltb, length, length-append, All, Option-cases, Bool-cases, if◌then◌else◌,
}

pub record Retry : Type 0 where
  pub attempts : ℕ
  pub base_delay : ℕ
  pub max_delay : ℕ

abbrev min : ℕ → ℕ → ℕ
min a b = if ltb a b then a else b

abbrev max : ℕ → ℕ → ℕ
max a b = if ltb a b then b else a

-- The wait after attempt `n`: it doubles, up to a bound.
unfoldable pub backoff : Retry → ℕ → ℕ
backoff r n = min r.max_delay (r.base_delay * 2 ^ (n - 1))

ltb_cases : (n m : ℕ) → (n < m) ⊎ (m ≤ n)
ltb_cases n m = elim (Bool-cases (ltb n m)) [
  | inl e ↦ inl (ground arith)
  | inr e ↦ inr (ground arith)
]

All-append :
    {A : Type 0} (P : A → Type 0) (xs : List A) (a : A) → All P xs → P a → All P (xs ++ a ∷ [])
All-append P [] a h p = (p, tt)
All-append P (x ∷ xs) a h p = (h.0, All-append P xs a h.1 p)

module _ {C : Type 0} (r : Retry) (connect : ℕ → Option C) where
  -- The loop from attempt `n`, with `left` more after it: the connection, or none where the source
  -- raises DBUnavailable, and the delays that were slept.
  unfoldable pub attempt_from : ℕ → ℕ → List ℕ → Option C × List ℕ
  attempt_from zero n slept = (connect n, slept)
  attempt_from (suc left) n slept = elim (connect n) [
    | some c ↦ (some c, slept)
    | none ↦ attempt_from left (suc n) (slept ++ backoff r n ∷ [])
  ]

  unfoldable pub connect_with_retry : Option C × List ℕ
  unfolding attempt_from
  connect_with_retry = attempt_from (max 1 r.attempts - 1) 1 []

  -- The result of the loop: the first attempt that connects, or none.
  pub data Connected (n last : ℕ) (before : ℕ) : Option C × List ℕ → Type 0 where
    at_attempt :
        (k : ℕ) (c : C) (slept : List ℕ)
        → n ≤ k
        → k ≤ last
        → connect k ≡ some c
        → ((m : ℕ) → n ≤ m → m < k → connect m ≡ none)
        → length slept + n ≡ before + k
        → Connected n last before (some c, slept)
    gave_up :
        (slept : List ℕ)
        → ((m : ℕ) → n ≤ m → m ≤ last → connect m ≡ none)
        → length slept + n ≡ before + last
        → Connected n last before (none, slept)

  same_attempt : (n m : ℕ) → connect n ≡ none → n ≤ m → m ≤ n → connect m ≡ none
  same_attempt n m e a b = let k : n ≡ m = omega arith in rw (← k) e

  later :
      (n last before : ℕ) (x : Option C × List ℕ)
      → connect n ≡ none
      → Connected (suc n) last (suc before) x
      → Connected n last before x
  later n last before _ e (at_attempt k c slept a b h first len) =
      at_attempt k c slept (omega arith) b h
        (λ m p q. elim (ltb_cases n m) [ inl lt ↦ first m lt q | inr ge ↦ same_attempt n m e p ge ])
        (omega arith)
  later n last before _ e (gave_up slept all_bad len) =
      gave_up slept
        (λ m p q. elim (ltb_cases n m) [
          | inl lt ↦ all_bad m lt q
          | inr ge ↦ same_attempt n m e p ge
        ])
        (omega arith)

  attempt_from-Connected :
      (left n : ℕ) (slept : List ℕ)
      → Connected n (n + left) (length slept) (attempt_from left n slept)
  unfolding attempt_from
  attempt_from-Connected zero n slept = elim (Option-cases (connect n)) [
    | inl e ↦ rw e (gave_up slept (λ m p q. same_attempt n m e p (omega arith)) (omega arith))
    | inr (c, e) ↦
        rw e
          (at_attempt n c slept (omega arith) (omega arith) e (λ m p q. absurd (omega arith)) refl)
  ]
  attempt_from-Connected (suc left) n slept = elim (Option-cases (connect n)) [
    | inl e ↦
        let ih = attempt_from-Connected left (suc n) (slept ++ backoff r n ∷ []) in
        let last : suc n + left ≡ n + suc left = omega arith in
        let one = length-append slept (backoff r n ∷ []) in
        let more : length (slept ++ backoff r n ∷ []) ≡ suc (length slept) = omega arith in
        rw (attempt_from, e)
          (later n (n + suc left) (length slept)
            (attempt_from left (suc n) (slept ++ backoff r n ∷ [])) e (rw (more, last) at ih))
    | inr (c, e) ↦
        rw (attempt_from, e)
          (at_attempt n c slept (omega arith) (omega arith) e (λ m p q. absurd (omega arith)) refl)
  ]

  backoff-le : (n : ℕ) → backoff r n ≤ r.max_delay
  unfolding backoff
  backoff-le n = ground arith

  attempt_from-bounded :
      (left n : ℕ) (slept : List ℕ)
      → All (λ d. d ≤ r.max_delay) slept
      → All (λ d. d ≤ r.max_delay) (attempt_from left n slept).1
  unfolding attempt_from
  attempt_from-bounded zero n slept h = h
  attempt_from-bounded (suc left) n slept h = elim (Option-cases (connect n)) [
    | inl e ↦
        rw (attempt_from, e)
          (attempt_from-bounded left (suc n) (slept ++ backoff r n ∷ [])
            (All-append (λ d. d ≤ r.max_delay) slept (backoff r n) h (backoff-le n)))
    | inr (c, e) ↦ rw (attempt_from, e) h
  ]

  -- Connecting ends after at most `max(1, attempts)` attempts. It returns what the first attempt
  -- that connects gives, or raises when all have failed; it sleeps once between one attempt and
  -- the next, and never longer than the bound.
  pub connect_with_retry-Connected :
      Connected 1 (max 1 r.attempts) 0 connect_with_retry
      × All (λ d. d ≤ r.max_delay) connect_with_retry.1
  unfolding connect_with_retry
  connect_with_retry-Connected =
      let last : 1 + (max 1 r.attempts - 1) ≡ max 1 r.attempts = ground arith in
      let found = attempt_from-Connected (max 1 r.attempts - 1) 1 [] in
      (
        subst (λ k. Connected 1 k 0 (attempt_from (max 1 r.attempts - 1) 1 [])) last found,
        attempt_from-bounded (max 1 r.attempts - 1) 1 [] tt,
      )
