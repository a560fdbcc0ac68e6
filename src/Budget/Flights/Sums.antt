-- ===== src/Budget/Flights/Sums.antt =====
-- Sums over the flights and over the recorded calls.
use ai_studio.Prelude.{
  ℕ, ◌+◌, ◌≤◌, String, Bool, true, List, [], ◌∷◌, ◌++◌, ◌≡◌, Option, none, some, inl, inr, refl, ap,
  arith, ◌&&◌, ◌||◌, not, leb, str_eq, eq_iff, Bool-cases, if◌then◌else◌,
}
use ai_studio.Budget.{
  Budget, ModelCall, Calendar, Period, daily, monthly, rolling_30d, all_time, total, counted,
  scope_of, is_org, window_start,
}
use ai_studio.Budget.Gate.{in_scope}
use ai_studio.Budget.Flights.{Flight, Pick, here, there, covers, held_sum, pending_sum}

module _ (est : Flight → ℕ) (b : Budget) where
  pub pending_sum-le : (fs : List Flight) → pending_sum est b fs ≤ held_sum est b fs
  pending_sum-le [] = omega arith
  pending_sum-le (f ∷ fs) = let ih = pending_sum-le fs in ground arith

  pub held_sum-Pick :
      (f : Flight) {fs rest : List Flight}
      → Pick f fs rest
      → held_sum est b fs ≡ (if covers f b then est f else 0) + held_sum est b rest
  held_sum-Pick f (here fs) = refl
  held_sum-Pick f (there g p) = omega (arith, held_sum-Pick f p)

  pub pending_sum-Pick :
      (f : Flight) {fs rest : List Flight}
      → Pick f fs rest
      → pending_sum est b fs
        ≡ (if covers f b && not f.landed then est f else 0) + pending_sum est b rest
  pending_sum-Pick f (here fs) = refl
  pending_sum-Pick f (there g p) = omega (arith, pending_sum-Pick f p)

pub total-append :
    (cost : ModelCall → ℕ) (p : ModelCall → Bool) (cs : List ModelCall) (c : ModelCall)
    → total cost p (cs ++ c ∷ []) ≡ total cost p cs + (if p c then cost c else 0)
total-append cost p [] c = omega arith
total-append cost p (x ∷ cs) c = omega (arith, total-append cost p cs c)

-- A later window holds no more.
pub total-counted_le :
    (cost : ModelCall → ℕ) (w : Option String) (a z : ℕ) (cs : List ModelCall)
    → a ≤ z
    → total cost (counted w z) cs ≤ total cost (counted w a) cs
unfolding counted
total-counted_le cost w a z [] h = omega arith
total-counted_le cost none a z (c ∷ cs) h =
    let ih = total-counted_le cost none a z cs h in ground arith
total-counted_le cost (some w) a z (c ∷ cs) h =
    let ih = total-counted_le cost (some w) a z cs h in ground arith

-- `date_trunc` does not go back when time passes.
pub record IsCalendar (cal : Calendar) : Type 0 where
  pub day : (a z : ℕ) → a ≤ z → cal.day_start a ≤ cal.day_start z
  pub month : (a z : ℕ) → a ≤ z → cal.month_start a ≤ cal.month_start z

pub window_start_mono :
    (cal : Calendar) (p : Period) (a z : ℕ)
    → IsCalendar cal
    → a ≤ z
    → window_start cal p a ≤ window_start cal p z
unfolding window_start
window_start_mono cal daily a z k h = k.day a z h
window_start_mono cal monthly a z k h = k.month a z h
window_start_mono cal rolling_30d a z k h = omega arith
window_start_mono cal all_time a z k h = omega arith

-- A call that a row counts is one of a flight that the row bounds.
pub counted-in_scope :
    (b : Budget) (start : ℕ) (c : ModelCall)
    → counted (scope_of b.workstream) start c ≡ true
    → in_scope c.workstream b ≡ true
unfolding counted in_scope
counted-in_scope b start c h = elim (Bool-cases (is_org b.workstream)) [
  | inl e ↦ rw e (ground arith)
  | inr e ↦
      let k : (str_eq c.workstream b.workstream && leb start c.ts) ≡ true = rw e at h in
      let m : str_eq c.workstream b.workstream ≡ true = ground arith in
      let same = (eq_iff c.workstream b.workstream).0 m in
      rw same (rw ((eq_iff b.workstream b.workstream).1 refl) refl)
]

pub in_scope-row :
    (w : String) (r r' : Budget) → r'.workstream ≡ r.workstream → in_scope w r' ≡ in_scope w r
unfolding in_scope
in_scope-row w r r' e = ap (λ x. str_eq x w || is_org x) e

-- The sums read the workstream of the row alone.
pub sums-row :
    (est : Flight → ℕ) (r r' : Budget) (fs : List Flight)
    → r'.workstream ≡ r.workstream
    → (held_sum est r' fs ≡ held_sum est r fs) × (pending_sum est r' fs ≡ pending_sum est r fs)
unfolding covers
sums-row est r r' [] e = (refl, refl)
sums-row est r r' (f ∷ fs) e =
    let (h, p) = sums-row est r r' fs e in
    let c : in_scope f.workstream r' ≡ in_scope f.workstream r = in_scope-row f.workstream r r' e in
    (rw (c, h) refl, rw (c, p) refl)
