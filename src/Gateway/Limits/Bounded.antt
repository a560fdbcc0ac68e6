-- ===== src/Gateway/Limits/Bounded.antt =====
-- How many requests a limiter lets through.
use ai_studio.Prelude.{
  ℕ, zero, suc, ◌+◌, ◌-◌, ◌*◌, ◌≤◌, String, Bool, true, false, Option, none, some, List, [], ◌∷◌,
  ◌&&◌, ◌≡◌, inl, inr, refl, arith, ltb, str_eq, is_none, if◌then◌else◌, Bool-cases, subst, eq_iff,
}
use ai_studio.Gateway.Limits.{
  one, Bucket, RateLimiter, bucket_of, set_bucket, refilled, Retry, taken_from, check,
}

-- A request: the time since the last one, and who asks.
abbrev pub Request : Type 0
Request = ℕ × String

unfoldable pub wait : ℕ → RateLimiter → RateLimiter
wait d l = record l { clock = l.clock + d }

-- How many of the requests of an identity pass.
unfoldable pub passed : String → List Request → RateLimiter → ℕ
unfolding check wait
passed i [] l = 0
passed i ((d, j) ∷ qs) l =
    let (r, l') = check j (wait d l) in
    let rest = passed i qs l' in if str_eq i j && is_none r then suc rest else rest

unfoldable pub waited : List Request → ℕ
waited [] = 0
waited ((d, j) ∷ qs) = d + waited qs

mul_mono : (a b d r : ℕ) → a ≤ b + d → a * r ≤ b * r + d * r
mul_mono a b d zero h = omega arith
mul_mono a b d (suc r) h = omega (arith, mul_mono a b d r h)

bucket_of-set_bucket_self :
    (i : String) (b : Bucket) (bs : List (String × Bucket))
    → bucket_of i (set_bucket i b bs) ≡ some b
unfolding bucket_of set_bucket
bucket_of-set_bucket_self i b [] = rw ((eq_iff i i).1 refl) refl
bucket_of-set_bucket_self i b ((j, c) ∷ bs) = elim (Bool-cases (str_eq i j)) [
  | inl e ↦ rw e (rw e refl)
  | inr e ↦ rw e (rw e (bucket_of-set_bucket_self i b bs))
]

bucket_of-set_bucket_other :
    (i j : String) (b : Bucket) (bs : List (String × Bucket))
    → str_eq i j ≡ false
    → bucket_of i (set_bucket j b bs) ≡ bucket_of i bs
unfolding bucket_of set_bucket
bucket_of-set_bucket_other i j b [] n = rw n refl
bucket_of-set_bucket_other i j b ((k, c) ∷ bs) n = elim (Bool-cases (str_eq j k)) [
  | inl e ↦
      let same : j ≡ k = (eq_iff j k).0 e in
      let n' : str_eq i k ≡ false = rw (← same) n in rw e (rw n' refl)
  | inr e ↦ rw e (elim (Bool-cases (str_eq i k)) [
    | inl f ↦ rw f refl
    | inr f ↦ rw f (bucket_of-set_bucket_other i j b bs n)
  ])
]

-- What an identity may spend now.
abbrev pub level : String → RateLimiter → ℕ
level i l = refilled l.rate (l.burst * one) l.clock (bucket_of i l.buckets)

refilled_waits :
    (rate cap now d : ℕ) (o : Option Bucket)
    → refilled rate cap (now + d) o ≤ refilled rate cap now o + d * rate
refilled_waits rate cap now d none = omega arith
refilled_waits rate cap now d (some b) =
    let m = mul_mono (now + d - b.at) (now - b.at) d rate (omega arith) in ground arith

refilled_full : (rate cap now : ℕ) (o : Option Bucket) → refilled rate cap now o ≤ cap
refilled_full rate cap now none = omega arith
refilled_full rate cap now (some b) = ground arith

refilled_now :
    (rate cap now parts : ℕ)
    → refilled rate cap now (some (record { parts = parts; at = now })) ≤ parts
refilled_now rate cap now parts =
    let z : (now - now) * rate ≡ 0 = rw (let n : now - now ≡ 0 = omega arith in n) (omega arith) in
    ground arith

-- What a check of `j` leaves to `i`.
abbrev Leaves : String → String → RateLimiter → Option Retry × RateLimiter → Type 0
Leaves i j l (r, l') =
    (l'.rate ≡ l.rate)
    × (l'.burst ≡ l.burst)
    × ((if str_eq i j && is_none r then one else 0) + level i l' ≤ level i l)

-- The limiter whose bucket of `j` is set now.
abbrev set_now : String → ℕ → RateLimiter → RateLimiter
set_now j parts l = record l {
  buckets = set_bucket j (record { parts = parts; at = l.clock }) l.buckets;
}

level-set_now_self :
    (i : String) (parts : ℕ) (l : RateLimiter) → level i (set_now i parts l) ≤ parts
level-set_now_self i parts l =
    rw (bucket_of-set_bucket_self i (record { parts = parts; at = l.clock }) l.buckets)
      (refilled_now l.rate (l.burst * one) l.clock parts)

level-set_now_other :
    (i j : String) (parts : ℕ) (l : RateLimiter)
    → str_eq i j ≡ false
    → level i (set_now j parts l) ≡ level i l
level-set_now_other i j parts l n =
    rw (bucket_of-set_bucket_other i j (record { parts = parts; at = l.clock }) l.buckets n) refl

after_one : (a p l : ℕ) → a ≤ p - one → ltb p one ≡ false → p ≤ l → one + a ≤ l
after_one a p l h e q = ground arith

taken_from-Leaves_self :
    (i : String) (parts : ℕ) (l : RateLimiter)
    → parts ≤ level i l
    → Leaves i i l (taken_from parts i l)
taken_from-Leaves_self i parts l h = elim (Bool-cases (ltb parts one)) [
  | inl e ↦
      let s = level-set_now_self i parts l in
      rw e (rw ((eq_iff i i).1 refl) (refl, refl, trans _ _ _ s h))
  | inr e ↦ rw e (
      rw ((eq_iff i i).1 refl)
        (refl, refl, after_one _ parts _ (level-set_now_self i (parts - one) l) e h))
]
  where
    trans : (a b c : ℕ) → a ≤ b → b ≤ c → 0 + a ≤ c
    trans a b c p q = omega arith

taken_from-Leaves_other :
    (i j : String) (parts : ℕ) (l : RateLimiter)
    → str_eq i j ≡ false
    → Leaves i j l (taken_from parts j l)
taken_from-Leaves_other i j parts l n = elim (Bool-cases (ltb parts one)) [
  | inl e ↦ rw e (rw n (refl, refl, same _ _ (level-set_now_other i j parts l n)))
  | inr e ↦ rw e (rw n (refl, refl, same _ _ (level-set_now_other i j (parts - one) l n)))
]
  where
    same : (a b : ℕ) → a ≡ b → 0 + a ≤ b
    same a b p = omega arith

check-Leaves : (i j : String) (l : RateLimiter) → Leaves i j l (check j l)
unfolding check
check-Leaves i j l = elim (Bool-cases (str_eq i j)) [
  | inr n ↦ taken_from-Leaves_other i j (level j l) l n
  | inl y ↦
      subst (λ k. Leaves i k l (taken_from (level k l) k l)) ((eq_iff i j).0 y)
        (taken_from-Leaves_self i (level i l) l (omega arith))
]

passed-level :
    (i : String) (qs : List Request) (l : RateLimiter)
    → passed i qs l * one ≤ level i l + waited qs * l.rate
unfolding passed waited wait
passed-level i [] l = omega arith
passed-level i ((d, j) ∷ qs) l =
    let l' = wait d l in
    let (r, b, left) = check-Leaves i j l' in
    let rest = passed-level i qs (check j l').1 in
    counted (str_eq i j && is_none (check j l').0) (passed i qs (check j l').1) _ _ _ d (waited qs)
      l.rate _ left (refilled_waits l.rate (l.burst * one) l.clock d (bucket_of i l.buckets)) rest r
  where
    counted :
        (b : Bool) (n after mid before d w rate rate' : ℕ)
        → (if b then one else 0) + after ≤ mid
        → mid ≤ before + d * rate
        → n * one ≤ after + w * rate'
        → rate' ≡ rate
        → (if b then suc n else n) * one ≤ before + (d + w) * rate
    counted true n after mid before d w rate rate' p q s e =
        let t : n * one ≤ after + w * rate = rw (← e) s in omega (arith, p, q, t)
    counted false n after mid before d w rate rate' p q s e =
        let t : n * one ≤ after + w * rate = rw (← e) s in omega (arith, p, q, t)

-- However the requests of the identities are spread over time, the requests of one identity that a
-- limiter lets through are at most its burst and what its rate grants in the time that they take,
-- counted in the parts of a request.
pub passed-bounded :
    (i : String) (qs : List Request) (l : RateLimiter)
    → passed i qs l * one ≤ l.burst * one + waited qs * l.rate
passed-bounded i qs l =
    let p = passed-level i qs l in
    let q = refilled_full l.rate (l.burst * one) l.clock (bucket_of i l.buckets) in
    add_left _ _ _ _ p q
  where
    add_left : (a b c d : ℕ) → a ≤ b + d → b ≤ c → a ≤ c + d
    add_left a b c d p q = omega arith
