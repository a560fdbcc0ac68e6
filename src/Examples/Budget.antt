-- ===== src/Examples/Budget.antt =====
-- Tests of runtime/budget.py and of the retries of runtime/db.py.
use ai_studio.Prelude.{
  ℕ, ◌≤◌, true, false, Option, none, some, [], ◌∷◌, ◌≡◌, ◌↔◌, ◌==◌, if◌then◌else◌, inl, inr, refl,
  arith, In, All, keep, err, first_by,
}
use ai_studio.Enforce.Sessions.{opened}
use ai_studio.Approvals.{
  Host, blank_workstream, request_approval, args_digest, compute_fingerprint, join, update_row,
}
use ai_studio.Policy.{would_exceed, exceed_reason}
use ai_studio.Db.Connect.{
  Retry, connect_with_retry, Connected, connect_with_retry-Connected, backoff, attempt_from,
}
use ai_studio.Budget.{
  Budget, daily, period_text, period_rank, window_start, counted, spent_in, is_org, gated_status,
  context, ratios, reached, zone,
}
use ai_studio.Budget.Gate.{
  Setting, Request, Books, over_budget, normal, enforce, entries_of, in_scope, is_capped, ordered,
  is_over, is_reserve, judge, reserve_rows, release_rows, release_reservation, send_zones,
  budget_fingerprint, takes, raised,
}
use ai_studio.Budget.Reserved.{enforce-raises}
use ai_studio.Budget.Passes.{is_ok}
use ai_studio.Budget.Room.{Concerns, HasRoom, enforce_iff}
use ai_studio.Budget.Flights.{Session, Step, flight_of, here, take_off, land, start, next}
use ai_studio.Budget.Flights.Sums.{IsCalendar}
use ai_studio.Budget.Flights.Bounded.{IsFresh, Within, Steps-Within}

abbrev host : Host
host = record { sorted = λ xs. xs; dumps = λ args. "args"; sha256 = λ s. s; str_uuid = λ n. "task" }

-- Days of 100 and months of one, which is enough for a test.
abbrev setting : Setting
setting = record {
  host = host;
  calendar = record { day_start = λ t. 100; month_start = λ t. t };
  org_first = λ w. true;
  accepts = λ e. true;
}

abbrev cap_of : ℕ → Budget
cap_of held = record {
  workstream = "w";
  period = daily;
  cap_usd = some 10;
  cap_tokens = none;
  warn_frac = none;
  throttle_frac = none;
  reserve_frac = some 900000;
  reserved_usd = held;
  reserved_tokens = 0;
}

abbrev books : Books
books = record { rows = cap_of 0 ∷ []; calls = []; clock = 150; events = []; store = opened 0 }

abbrev ask : ℕ → Request
ask usd = record {
  workstream = "w";
  est_usd = usd;
  est_tokens = 0;
  purpose = normal;
  role = "engineer";
  task_id = none;
}

budget_evaluation : Unit {0}
unfolding opened request_approval args_digest compute_fingerprint join update_row would_exceed
    exceed_reason period_text period_rank window_start counted spent_in is_org gated_status context
    ratios reached zone enforce entries_of in_scope is_capped ordered is_over is_reserve judge
    reserve_rows release_rows release_reservation send_zones budget_fingerprint takes first_by
budget_evaluation = tt

-- A call of 6 passes and holds 6; a second of 6 beside it does not.
abbrev held : Books
held = (enforce setting (ask 6) books).1

held_rows : held.rows ≡ cap_of 6 ∷ []
unfolding budget_evaluation
held_rows = refl

second_refused : is_ok (enforce setting (ask 6) held).0 ≡ false
unfolding budget_evaluation
second_refused = refl

abbrev empty : Session
empty = record { books = books; flights = [] }

abbrev flying : Session
flying = record { books = held; flights = flight_of (ask 6) ∷ [] }

abbrev landed : Session
landed = record {
  books = record held {
    calls = record { ts = held.clock; workstream = "w"; cost_usd = 5; tokens = 0 } ∷ [];
  };
  flights = record (flight_of (ask 6)) { landed = true } ∷ [];
}

took_off : Step setting empty flying
unfolding budget_evaluation
took_off = take_off (ask 6) (entries_of setting (ask 6) books) held refl

was_recorded : Step setting flying landed
unfolding budget_evaluation
was_recorded = land (flight_of (ask 6)) [] 5 0 (here []) refl (omega arith) (omega arith)

is_calendar : IsCalendar setting.calendar
is_calendar = record { day = λ a z h. omega arith; month = λ a z h. h }

is_fresh : IsFresh empty
is_fresh = record {
  flights = refl;
  calls = refl;
  usd_free = λ r m. elim m [ inl e ↦ rw e refl | inr n ↦ absurd n ];
  tokens_free = λ r m. elim m [ inl e ↦ rw e refl | inr n ↦ absurd n ];
}

-- What the workstream may spend in a day stands at 10, whatever is in flight.
Steps-Within_example : Within (some 10) 5 × Within none 0
unfolding budget_evaluation
Steps-Within_example =
    Steps-Within setting empty landed (cap_of 6) is_calendar is_fresh
      (next (next start took_off) was_recorded) (inl refl)

enforce-raises_example :
    (keep is_capped held.rows ≡ keep is_capped held.rows) × (held.calls ≡ held.calls)
unfolding budget_evaluation
enforce-raises_example =
    enforce-raises setting (ask 6) held
      (over_budget (gated_status setting.calendar 150 [] 6 0 (cap_of 6)))
      (enforce setting (ask 6) held).1 refl

enforce_iff_example :
    (is_ok (enforce setting (ask 6) books).0 ≡ true)
    ↔ ((r : Budget) → In r books.rows → Concerns (ask 6) r → HasRoom setting (ask 6) books r)
enforce_iff_example = enforce_iff setting (ask 6) books (λ e. refl) refl

-- The gate makes no event for a workstream without a name.
nameless_raises :
    (enforce setting
      (record (ask 6) { workstream = "" })
      (record books { rows = record (cap_of 0) { workstream = "__org__" } ∷ [] })).0
    ≡ err (raised blank_workstream)
unfolding budget_evaluation
nameless_raises = refl

-- A server that is up at the third attempt.
abbrev retry : Retry
retry = record { attempts = 5; base_delay = 500000; max_delay = 30000000 }

abbrev third : ℕ → Option ℕ
third n = if n == 3 then some 7 else none

connected_at_third : connect_with_retry retry third ≡ (some 7, 500000 ∷ 1000000 ∷ [])
unfolding connect_with_retry attempt_from backoff
connected_at_third = refl

connect_with_retry-Connected_example :
    Connected retry third 1 5 0 (connect_with_retry retry third)
    × All (λ d. d ≤ 30000000) (connect_with_retry retry third).1
connect_with_retry-Connected_example = connect_with_retry-Connected retry third
