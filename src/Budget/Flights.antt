-- ===== src/Budget/Flights.antt =====
-- Model calls in flight, over the gate: runtime/model/call.py asks `enforce` before a call, records
-- what the call cost, and releases the reservation. Any number of calls are in flight at once.
pub mod Sums
pub mod Rows
pub mod Metered
pub mod Safe
pub mod Bounded
use ai_studio.Prelude.{
  ℕ, ◌+◌, ◌≤◌, String, Bool, true, false, List, [], ◌∷◌, ◌++◌, ◌≡◌, Option, none, some, ok, err,
  if◌then◌else◌, ◌&&◌, not,
}
use ai_studio.Budget.{Budget, ModelCall, BudgetStatus, Calendar, Period}
use ai_studio.Budget.Gate.{
  Setting, Request, Books, BudgetError, in_scope, enforce, release_reservation,
}

-- A call that the gate has let through and that has not released its reservation.
pub record Flight : Type 0 where
  pub workstream : String
  pub est_usd : ℕ
  pub est_tokens : ℕ
  pub landed : Bool

pub record Session : Type 0 where
  pub books : Books
  pub flights : List Flight

abbrev pub flight_of : Request → Flight
flight_of q = record {
  workstream = q.workstream;
  est_usd = q.est_usd;
  est_tokens = q.est_tokens;
  landed = false;
}

-- `Pick f fs rest`: `f` is one of `fs`, and `rest` are the others.
pub data Pick (f : Flight) : List Flight → List Flight → Type 0 where
  here : (fs : List Flight) → Pick f (f ∷ fs) fs
  there : (g : Flight) {fs rest : List Flight} → Pick f fs rest → Pick f (g ∷ fs) (g ∷ rest)

abbrev pub record_call : ModelCall → Books → Books
record_call c b = record b { calls = b.calls ++ c ∷ [] }

-- The `model.call` event of a flight: its cost may be anything up to the estimate.
abbrev pub event_of_flight : Flight → (ts cost_usd tokens : ℕ) → ModelCall
event_of_flight f ts cost_usd tokens = record {
  ts = ts;
  workstream = f.workstream;
  cost_usd = cost_usd;
  tokens = tokens;
}

-- One step: the gate lets a call through or refuses it, a call is recorded, a reservation is
-- released (of a call that was recorded, or of one that failed), or time passes.
pub data Step (g : Setting) (s : Session) : Session → Type 0 where
  take_off :
      (q : Request) (entries : List BudgetStatus) (b : Books)
      → enforce g q s.books ≡ (ok entries, b)
      → Step g s (record { books = b; flights = flight_of q ∷ s.flights })
  refuse :
      (q : Request) (e : BudgetError) (b : Books)
      → enforce g q s.books ≡ (err e, b)
      → Step g s (record { books = b; flights = s.flights })
  land :
      (f : Flight) (rest : List Flight) (cost_usd tokens : ℕ)
      → Pick f s.flights rest
      → f.landed ≡ false
      → cost_usd ≤ f.est_usd
      → tokens ≤ f.est_tokens
      → Step g s (record {
        books = record_call (event_of_flight f s.books.clock cost_usd tokens) s.books;
        flights = record f { landed = true } ∷ rest;
      })
  settle :
      (f : Flight) (rest : List Flight)
      → Pick f s.flights rest
      → Step g s (record {
        books = release_reservation f.workstream f.est_usd f.est_tokens s.books;
        flights = rest;
      })
  wait :
      (n : ℕ)
      → Step g s
          (record { books = record s.books { clock = s.books.clock + n }; flights = s.flights })

pub data Steps (g : Setting) (s : Session) : Session → Type 0 where
  start : Steps g s s
  next : {t u : Session} → Steps g s t → Step g t u → Steps g s u

-- The flights that a row of `budgets` bounds.
unfoldable pub covers : Flight → Budget → Bool
unfolding in_scope
covers f b = in_scope f.workstream b

-- What is estimated for the flights that the row bounds; all of them, or those not recorded yet.
abbrev pub held_sum : (Flight → ℕ) → Budget → List Flight → ℕ
held_sum est b [] = 0
held_sum est b (f ∷ fs) = (if covers f b then est f else 0) + held_sum est b fs

abbrev pub pending_sum : (Flight → ℕ) → Budget → List Flight → ℕ
pending_sum est b [] = 0
pending_sum est b (f ∷ fs) =
    (if covers f b && not f.landed then est f else 0) + pending_sum est b fs
