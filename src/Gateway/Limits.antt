-- ===== src/Gateway/Limits.antt =====
-- `RateLimiter`: a bucket per identity. A moment is a number of microseconds, and an amount in a bucket
-- counts parts of which sixty million are one request, so that a rate of requests in a minute refills
-- as many parts in a microsecond; the arithmetic is exact where the source rounds floats.
pub mod Bounded
use ai_studio.Prelude.{
  ℕ, zero, suc, ◌+◌, ◌-◌, ◌*◌, String, Bool, true, false, Option, none, some, List, [], ◌∷◌, ltb,
  str_eq, if◌then◌else◌,
}

abbrev pub one : ℕ
one = 60000000

abbrev pub least : ℕ → ℕ → ℕ
least a b = if ltb a b then a else b

abbrev pub greatest : ℕ → ℕ → ℕ
greatest a b = if ltb a b then b else a

pub record Bucket : Type 0 where
  pub parts : ℕ
  pub at : ℕ

pub record RateLimiter : Type 0 where
  pub rate : ℕ  -- requests in a minute
  pub burst : ℕ
  pub buckets : List (String × Bucket)
  pub clock : ℕ

unfoldable pub new_limiter : (rate_per_min burst clock : ℕ) → RateLimiter
new_limiter rate burst clock = record {
  rate = rate;
  burst = greatest 1 burst;
  buckets = [];
  clock = clock;
}

unfoldable pub bucket_of : String → List (String × Bucket) → Option Bucket
bucket_of i [] = none
bucket_of i ((j, b) ∷ bs) = if str_eq i j then some b else bucket_of i bs

unfoldable pub set_bucket : String → Bucket → List (String × Bucket) → List (String × Bucket)
set_bucket i b [] = (i, b) ∷ []
set_bucket i b ((j, c) ∷ bs) = if str_eq i j then (j, b) ∷ bs else (j, c) ∷ set_bucket i b bs

-- What a bucket holds after it is refilled.
abbrev pub refilled : (rate cap now : ℕ) → Option Bucket → ℕ
refilled rate cap now none = cap
refilled rate cap now (some b) = least cap (b.parts + (now - b.at) * rate)

-- The answer to a request that finds too little: `missing` parts at a `rate`, or no refill at all.
pub data Retry : Type 0 where
  in_a_minute : Retry
  after : (missing rate : ℕ) → Retry

abbrev pub retry_at : (rate missing : ℕ) → Retry
retry_at zero missing = in_a_minute
retry_at (suc r) missing = after missing (suc r)

abbrev pub taken_from : ℕ → String → RateLimiter → Option Retry × RateLimiter
taken_from parts i l =
    if ltb parts one
    then (
      some (retry_at l.rate (one - parts)),
      record l { buckets = set_bucket i (record { parts = parts; at = l.clock }) l.buckets },
    )
    else (
      none,
      record l { buckets = set_bucket i (record { parts = parts - one; at = l.clock }) l.buckets },
    )

unfoldable pub check : String → RateLimiter → Option Retry × RateLimiter
unfolding bucket_of set_bucket
check i l = taken_from (refilled l.rate (l.burst * one) l.clock (bucket_of i l.buckets)) i l
