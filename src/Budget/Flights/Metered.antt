-- ===== src/Budget/Flights/Metered.antt =====
-- Money and tokens as one kind of thing, and the arithmetic of the gate for each.
use ai_studio.Prelude.{
  ℕ, ◌+◌, ◌-◌, ◌≤◌, Bool, true, false, Option, some, ◌≡◌, inl, inr, refl, ◌&&◌, not, Bool-cases,
  is_none,
}
use ai_studio.Policy.{would_exceed}
use ai_studio.Policy.Laws.{would_exceed-false, over-false}
use ai_studio.Budget.{
  Budget, ModelCall, Calendar, BudgetStatus, gated_status, context, zone, total, counted, scope_of,
  window_start, spent_in,
}
use ai_studio.Budget.Gate.{Setting, Request, Books, is_capped, is_over, hold, drop_hold}
use ai_studio.Budget.Flights.{Flight, flight_of, event_of_flight}
use ai_studio.Budget.Flights.Rows.{entry}

-- Money, or tokens.
pub record Resource : Type 0 where
  pub cap : Budget → Option ℕ
  pub reserved : Budget → ℕ
  pub cost : ModelCall → ℕ
  pub est : Flight → ℕ

abbrev pub usd : Resource
usd = record {
  cap = λ b. b.cap_usd;
  reserved = λ b. b.reserved_usd;
  cost = λ c. c.cost_usd;
  est = λ f. f.est_usd;
}

abbrev pub tokens : Resource
tokens = record {
  cap = λ b. b.cap_tokens;
  reserved = λ b. b.reserved_tokens;
  cost = λ c. c.tokens;
  est = λ f. f.est_tokens;
}

-- What the row counts as spent at a moment.
abbrev pub spent_by : Resource → Calendar → Budget → Books → ℕ
spent_by R cal r b =
    total R.cost (counted (scope_of r.workstream) (window_start cal r.period b.clock)) b.calls

-- The gate's arithmetic, for one resource.
pub record IsMetered (R : Resource) : Type 0 where
  pub hold_cap : (q : Request) (r : Budget) → R.cap (hold q r) ≡ R.cap r
  pub drop_cap : (f : Flight) (r : Budget) → R.cap (drop_hold f.est_usd f.est_tokens r) ≡ R.cap r
  pub hold_reserved :
      (q : Request) (r : Budget) → R.reserved (hold q r) ≡ R.reserved r + R.est (flight_of q)
  pub drop_reserved :
      (f : Flight) (r : Budget)
      → R.reserved (drop_hold f.est_usd f.est_tokens r) ≡ R.reserved r - R.est f
  pub landed_est : (f : Flight) → R.est (record f { landed = true }) ≡ R.est f
  pub paid :
      (f : Flight) (ts cost_usd n : ℕ)
      → cost_usd ≤ f.est_usd
      → n ≤ f.est_tokens
      → R.cost (event_of_flight f ts cost_usd n) ≤ R.est f
  pub has_cap : (r : Budget) (c : ℕ) → R.cap r ≡ some c → is_capped r ≡ true
  pub limit :
      (g : Setting) (q : Request) (b : Books) (r : Budget) (c : ℕ)
      → is_over (entry g q b r) ≡ false
      → R.cap r ≡ some c
      → spent_by R g.calendar r b + (R.est (flight_of q) + R.reserved r) ≤ c

-- The zone is not over where the context does not exceed.
is_over-false : (st : BudgetStatus) → is_over st ≡ false → would_exceed (context st) ≡ false
unfolding is_over zone
is_over-false st h = elim (Bool-cases (would_exceed (context st))) [
  | inr e ↦ e
  | inl e ↦ let bad : true ≡ false = rw (is_over, e) at h in cc
]

limit_usd :
    (g : Setting) (q : Request) (b : Books) (r : Budget) (c : ℕ)
    → is_over (entry g q b r) ≡ false
    → r.cap_usd ≡ some c
    → spent_by usd g.calendar r b + (q.est_usd + r.reserved_usd) ≤ c
unfolding context gated_status spent_in
limit_usd g q b r c h k =
    let (t, u) = would_exceed-false (context (entry g q b r)) (is_over-false (entry g q b r) h) in
    over-false r.cap_usd c (spent_by usd g.calendar r b) (q.est_usd + r.reserved_usd) k u

limit_tokens :
    (g : Setting) (q : Request) (b : Books) (r : Budget) (c : ℕ)
    → is_over (entry g q b r) ≡ false
    → r.cap_tokens ≡ some c
    → spent_by tokens g.calendar r b + (q.est_tokens + r.reserved_tokens) ≤ c
unfolding context gated_status spent_in
limit_tokens g q b r c h k =
    let (t, u) = would_exceed-false (context (entry g q b r)) (is_over-false (entry g q b r) h) in
    over-false r.cap_tokens c (spent_by tokens g.calendar r b) (q.est_tokens + r.reserved_tokens) k
      t

pub IsMetered-usd : IsMetered usd
unfolding is_capped
IsMetered-usd = record {
  paid = λ f ts cost_usd n h k. h;
  hold_cap = λ q r. refl;
  drop_cap = λ f r. refl;
  hold_reserved = λ q r. refl;
  drop_reserved = λ f r. refl;
  landed_est = λ f. refl;
  has_cap = λ r c h. rw h refl;
  limit = limit_usd;
}

not_both : (b : Bool) → not (b && false) ≡ true
not_both true = refl
not_both false = refl

pub IsMetered-tokens : IsMetered tokens
unfolding is_capped
IsMetered-tokens = record {
  paid = λ f ts cost_usd n h k. k;
  hold_cap = λ q r. refl;
  drop_cap = λ f r. refl;
  hold_reserved = λ q r. refl;
  drop_reserved = λ f r. refl;
  landed_est = λ f. refl;
  has_cap = λ r c h. rw h (not_both (is_none r.cap_usd));
  limit = limit_tokens;
}
