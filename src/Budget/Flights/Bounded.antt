-- ===== src/Budget/Flights/Bounded.antt =====
-- Calls in flight never take a workstream, or the org, past a cap.
use ai_studio.Prelude.{ℕ, ◌≤◌, Option, none, some, [], ◌≡◌, refl, arith, In}
use ai_studio.Budget.{Budget, scope_of, spent_in}
use ai_studio.Budget.Gate.{Setting}
use ai_studio.Budget.Flights.{Session, Steps}
use ai_studio.Budget.Flights.Sums.{IsCalendar}
use ai_studio.Budget.Flights.Metered.{Resource, usd, tokens, IsMetered-usd, IsMetered-tokens}
use ai_studio.Budget.Flights.Safe.{AllFit, Steps-AllFit}

-- No call is recorded or in flight, and no row holds anything.
pub record IsFresh (s : Session) : Type 0 where
  pub flights : s.flights ≡ []
  pub calls : s.books.calls ≡ []
  pub usd_free : (r : Budget) → In r s.books.rows → r.reserved_usd ≡ 0
  pub tokens_free : (r : Budget) → In r s.books.rows → r.reserved_tokens ≡ 0

fresh-AllFit :
    (R : Resource) (g : Setting) (s : Session)
    → IsFresh s
    → ((r : Budget) → In r s.books.rows → R.reserved r ≡ 0)
    → AllFit R g.calendar s
fresh-AllFit R g s f free r m =
    let z = free r m in
    let none_held = f.flights in
    let none_called = f.calls in
    record {
      cushion = λ k. rw none_held z;
      room = λ c k. rw (none_held, none_called) (omega arith);
    }

-- No more than the cap, where there is one.
abbrev pub Within : Option ℕ → ℕ → Type 0
Within none n = Unit
Within (some cap) n = n ≤ cap

Within-cap : (cap : Option ℕ) (n : ℕ) → ((c : ℕ) → cap ≡ some c → n ≤ c) → Within cap n
Within-cap none n h = tt
Within-cap (some c) n h = h c refl

-- From a ledger with no calls, after any steps of any number of calls in flight (gates passed or
-- refused, calls recorded at no more than their estimates, reservations released, time passing,
-- in any order): within the window of every cap, the workstream of the row, or for an org row all
-- workstreams, have spent no more than the cap, in money and in tokens.
pub Steps-Within :
    (g : Setting) (s t : Session) (r : Budget)
    → IsCalendar g.calendar
    → IsFresh s
    → Steps g s t
    → In r t.books.rows
    → let spent =
        spent_in g.calendar (scope_of r.workstream) r.period t.books.clock t.books.calls in
      Within r.cap_usd spent.cost_usd × Within r.cap_tokens spent.tokens
unfolding spent_in
Steps-Within g s t r cal f steps m =
    let money =
      Steps-AllFit usd IsMetered-usd g s t cal steps (fresh-AllFit usd g s f f.usd_free) r m in
    let words =
      Steps-AllFit tokens IsMetered-tokens g s t cal steps (fresh-AllFit tokens g s f f.tokens_free)
        r m in
    (
      Within-cap r.cap_usd _ (λ c k. let b = money.room c k in omega arith),
      Within-cap r.cap_tokens _ (λ c k. let b = words.room c k in omega arith),
    )
