-- ===== src/Budget/Flights/Safe.antt =====
-- Calls in flight never take a cap past its limit.
use ai_studio.Prelude.{
  ℕ, ◌+◌, ◌≤◌, Bool, true, false, some, List, ◌∷◌, ◌≡◌, ◌⊎◌, inl, inr, refl, sym, ◌∙◌, ap, subst,
  arith, ◌&&◌, ◌==◌, keep, In, In-keep, keep-In, In-map, Bool-cases, if◌then◌else◌,
}
use ai_studio.Budget.{Budget, ModelCall, Calendar, counted, scope_of, window_start}
use ai_studio.Budget.Gate.{
  Setting, Request, Books, in_scope, is_capped, is_over, hold, drop_hold, release_rows,
  release_reservation,
}
use ai_studio.Budget.Reserved.{enforce-raises, enforce-clock}
use ai_studio.Budget.Flights.{
  Flight, Session, flight_of, Pick, Step, take_off, refuse, land, settle, wait, Steps, start, next,
  covers, held_sum, pending_sum, event_of_flight, record_call,
}
use ai_studio.Budget.Flights.Sums.{
  pending_sum-le, held_sum-Pick, pending_sum-Pick, total-append, total-counted_le, IsCalendar,
  window_start_mono, counted-in_scope, sums-row,
}
use ai_studio.Budget.Flights.Rows.{entry, Reserved, passed_by, held, Allowed, enforce-Allowed}
use ai_studio.Budget.Flights.Metered.{Resource, spent_by, IsMetered}

-- The invariant of one row, for one resource: its cushion is what its flights hold, and what is
-- spent leaves room for the flights not recorded yet.
pub record Fits (R : Resource) (cal : Calendar) (s : Session) (r : Budget) : Type 0 where
  pub cushion : is_capped r ≡ true → R.reserved r ≡ held_sum R.est r s.flights
  pub room :
      (c : ℕ) → R.cap r ≡ some c → spent_by R cal r s.books + pending_sum R.est r s.flights ≤ c

-- A row without a cap has nothing to fit.
uncapped :
    (R : Resource) (cal : Calendar) (s : Session) (r : Budget)
    → IsMetered R
    → is_capped r ≡ false
    → Fits R cal s r
uncapped R cal s r law h = record {
  cushion = λ k. let bad : true ≡ false = sym k ∙ h in cc;
  room = λ c k. let bad : true ≡ false = sym (law.has_cap r c k) ∙ h in cc;
}

abbrev pub AllFit : Resource → Calendar → Session → Type 0
AllFit R cal s = (r : Budget) → In r s.books.rows → Fits R cal s r

drop_nothing :
    (f : Flight) (r : Budget)
    → (f.est_usd == 0 && f.est_tokens == 0) ≡ true
    → drop_hold f.est_usd f.est_tokens r ≡ r
drop_nothing f r e = ground arith

module _ (R : Resource) (law : IsMetered R) (g : Setting) where
  -- A row that the gate passes by.
  take_off-passed :
      (q : Request) (s : Session) (b' : Books) (r : Budget)
      → (in_scope q.workstream r && is_capped r) ≡ false
      → b'.calls ≡ s.books.calls
      → b'.clock ≡ s.books.clock
      → Fits R g.calendar s r
      → Fits R g.calendar (record { books = b'; flights = flight_of q ∷ s.flights }) r
  unfolding covers
  take_off-passed q s b' r out calls clock f = elim (Bool-cases (is_capped r)) [
    | inr e ↦ uncapped R g.calendar _ r law e
    | inl e ↦
        let o : in_scope q.workstream r ≡ false = ground arith in
        record {
          cushion = λ k. let old = f.cushion k in rw o (omega arith);
          room = λ c k. let old = f.room c k in rw (calls, clock, o) (omega arith);
        }
  ]

  -- A row that holds the estimate.
  take_off-held :
      (q : Request) (s : Session) (b' : Books) (r : Budget)
      → in_scope q.workstream r ≡ true
      → is_over (entry g q s.books r) ≡ false
      → b'.calls ≡ s.books.calls
      → b'.clock ≡ s.books.clock
      → Fits R g.calendar s r
      → Fits R g.calendar (record { books = b'; flights = flight_of q ∷ s.flights }) (hold q r)
  unfolding covers is_capped in_scope
  take_off-held q s b' r inside under calls clock f =
      let (h, p) = sums-row R.est r (hold q r) s.flights refl in
      let more = law.hold_reserved q r in
      let le = pending_sum-le R.est r s.flights in
      record {
        cushion = λ k. let old = f.cushion k in rw (more, old, h, inside) (omega arith);
        room = λ c k.
            let k' : R.cap r ≡ some c = sym (law.hold_cap q r) ∙ k in
            let old = f.cushion (law.has_cap r c k') in
            let free = law.limit g q s.books r c under k' in
            rw (calls, clock, p, inside) (omega arith);
      }

  take_off-AllFit :
      (q : Request) (s : Session) (b' : Books)
      → Allowed g q s.books b'
      → AllFit R g.calendar s
      → AllFit R g.calendar (record { books = b'; flights = flight_of q ∷ s.flights })
  take_off-AllFit q s b' a fit r' m = let (r, i, how) = a.rows r' m in go r i how
    where
      go :
          (r : Budget)
          → In r s.books.rows
          → Reserved g q s.books r r'
          → Fits R g.calendar (record { books = b'; flights = flight_of q ∷ s.flights }) r'
      go r i (passed_by out e) = rw e (take_off-passed q s b' r out a.calls a.clock (fit r i))
      go r i (held inside under e) =
          rw e (take_off-held q s b' r inside under a.calls a.clock (fit r i))

  -- A refused call leaves the capped rows as they are.
  refuse-AllFit :
      (s : Session) (b' : Books)
      → keep is_capped b'.rows ≡ keep is_capped s.books.rows
      → b'.calls ≡ s.books.calls
      → b'.clock ≡ s.books.clock
      → AllFit R g.calendar s
      → AllFit R g.calendar (record { books = b'; flights = s.flights })
  refuse-AllFit s b' rows calls clock fit r m = elim (Bool-cases (is_capped r)) [
    | inr e ↦ uncapped R g.calendar _ r law e
    | inl e ↦
        let i = subst (In r) rows (keep-In is_capped b'.rows r m e) in
        let f = fit r ((In-keep is_capped s.books.rows r i).0) in
        record { cushion = f.cushion; room = λ c k. let old = f.room c k in rw (calls, clock) old }
  ]

  -- A recorded call: what it cost was held for it.
  land-AllFit :
      (f : Flight) (rest : List Flight) (s : Session) (c : ModelCall)
      → Pick f s.flights rest
      → f.landed ≡ false
      → c.workstream ≡ f.workstream
      → R.cost c ≤ R.est f
      → AllFit R g.calendar s
      → AllFit R g.calendar
          (record { books = record_call c s.books; flights = record f { landed = true } ∷ rest })
  unfolding covers
  land-AllFit f rest s c p up same le fit r m =
      let now = window_start g.calendar r.period s.books.clock in
      let fits = fit r m in
      let h = held_sum-Pick R.est r f p in
      let e = pending_sum-Pick R.est r f p in
      let est = law.landed_est f in
      let t : spent_by R g.calendar r (record_call c s.books)
          ≡ spent_by R g.calendar r s.books
            + (if counted (scope_of r.workstream) now c then R.cost c else 0) =
        total-append R.cost (counted (scope_of r.workstream) now) s.books.calls c in
      let mine =
        land_bound r c f (counted (scope_of r.workstream) now c) refl same le
          (counted-in_scope r now c) in
      record {
        cushion = λ k. let old = fits.cushion k in rw est (omega arith);
        room = λ k cap.
            let old = fits.room k cap in
            elim (Bool-cases (in_scope f.workstream r)) [
              | inl i ↦
                  let e' = rw (i, up) at e in let m' = rw i at mine in rw i (rw t (ground arith))
              | inr i ↦ let e' = rw i at e in let m' = rw i at mine in rw i (rw t (ground arith))
            ];
      }
    where
      land_bound :
          (r : Budget) (c : ModelCall) (f : Flight) (b : Bool)
          → b ≡ b
          → c.workstream ≡ f.workstream
          → R.cost c ≤ R.est f
          → (b ≡ true → in_scope c.workstream r ≡ true)
          → (if b then R.cost c else 0) ≤ (if in_scope f.workstream r then R.est f else 0)
      land_bound r c f false e same le h = omega arith
      land_bound r c f true e same le h =
          let k : in_scope f.workstream r ≡ true = rw (← same) (h refl) in rw k le

  -- Time passes: the windows move on.
  wait-AllFit :
      (n : ℕ) (s : Session)
      → IsCalendar g.calendar
      → AllFit R g.calendar s
      → AllFit R g.calendar
          (record { books = record s.books { clock = s.books.clock + n }; flights = s.flights })
  wait-AllFit n s cal fit r m =
      let fits = fit r m in
      let later =
        window_start_mono g.calendar r.period s.books.clock (s.books.clock + n) cal (omega arith) in
      let le =
        total-counted_le R.cost (scope_of r.workstream)
          (window_start g.calendar r.period s.books.clock)
          (window_start g.calendar r.period (s.books.clock + n)) s.books.calls later in
      record { cushion = fits.cushion; room = λ c k. let old = fits.room c k in omega arith }

  release_rows-In :
      (f : Flight) (rows : List Budget) (r' : Budget)
      → In r' (release_rows f.workstream f.est_usd f.est_tokens rows)
      → (r : Budget) × In r rows
        × (((f.est_usd == 0 && f.est_tokens == 0) ≡ true) × (r' ≡ r)
            ⊎ (r' ≡ (if in_scope f.workstream r then drop_hold f.est_usd f.est_tokens r else r)))
  unfolding release_rows
  release_rows-In f rows r' m = elim (Bool-cases (f.est_usd == 0 && f.est_tokens == 0)) [
    | inl e ↦ (r', rw e at m, inl (e, refl))
    | inr e ↦
        let (r, i, k) =
          In-map (λ r. if in_scope f.workstream r then drop_hold f.est_usd f.est_tokens r else r)
            rows r' (rw e at m) in
        (r, i, inr k)
  ]

  -- A row after the release of a flight.
  settle-dropped :
      (f : Flight) (rest : List Flight) (s : Session) (b' : Books) (r : Budget)
      → Pick f s.flights rest
      → b'.calls ≡ s.books.calls
      → b'.clock ≡ s.books.clock
      → Fits R g.calendar s r
      → Fits R g.calendar
          (record { books = b'; flights = rest })
          (if in_scope f.workstream r then drop_hold f.est_usd f.est_tokens r else r)
  unfolding covers is_capped in_scope
  settle-dropped f rest s b' r p calls clock fit =
      let h = held_sum-Pick R.est r f p in
      let e = pending_sum-Pick R.est r f p in
      elim (Bool-cases (in_scope f.workstream r)) [
        | inr out ↦
            let h' = rw out at h in
            rw out (record {
              cushion = λ k. let old = fit.cushion k in omega arith;
              room = λ c k. let old = fit.room c k in rw (calls, clock) (omega arith);
            })
        | inl inside ↦
            let (sh, sp) = sums-row R.est r (drop_hold f.est_usd f.est_tokens r) rest refl in
            let less = law.drop_reserved f r in
            let h' = rw inside at h in
            rw inside (record {
              cushion = λ k. let old = fit.cushion k in rw (less, sh) (omega arith);
              room = λ c k.
                  let old = fit.room c (sym (law.drop_cap f r) ∙ k) in
                  rw (calls, clock, sp) (omega arith);
            })
      ]

  drop_zero :
      (f : Flight) (r : Budget)
      → (f.est_usd == 0 && f.est_tokens == 0) ≡ true
      → (if in_scope f.workstream r then drop_hold f.est_usd f.est_tokens r else r) ≡ r
  drop_zero f r e = elim (Bool-cases (in_scope f.workstream r)) [
    | inl i ↦ rw i (drop_nothing f r e)
    | inr i ↦ rw i refl
  ]

  settle-AllFit :
      (f : Flight) (rest : List Flight) (s : Session)
      → Pick f s.flights rest
      → AllFit R g.calendar s
      → AllFit R g.calendar (record {
        books = release_reservation f.workstream f.est_usd f.est_tokens s.books;
        flights = rest;
      })
  unfolding release_reservation
  settle-AllFit f rest s p fit r' m =
      let (r, i, how) = release_rows-In f s.books.rows r' m in
      let after = record s.books {
        rows = release_rows f.workstream f.est_usd f.est_tokens s.books.rows;
      } in
      let dropped = settle-dropped f rest s after r p refl refl (fit r i) in
      elim how [
        | inl (zero_est, e) ↦ rw e (
            subst (Fits R g.calendar (record { books = after; flights = rest }))
              (drop_zero f r zero_est) dropped)
        | inr e ↦ rw e dropped
      ]

  Step-AllFit :
      (s t : Session)
      → IsCalendar g.calendar
      → Step g s t
      → AllFit R g.calendar s
      → AllFit R g.calendar t
  Step-AllFit s _ cal (take_off q entries b h) fit =
      take_off-AllFit q s b (enforce-Allowed g q s.books entries b h) fit
  Step-AllFit s _ cal (refuse q e b h) fit =
      let (rows, calls) = enforce-raises g q s.books e b h in
      refuse-AllFit s b rows calls (ap (λ x. x.1.clock) (sym h) ∙ enforce-clock g q s.books) fit
  Step-AllFit s _ cal (land f rest cost_usd n p up h k) fit =
      land-AllFit f rest s (event_of_flight f s.books.clock cost_usd n) p up refl
        (law.paid f s.books.clock cost_usd n h k) fit
  Step-AllFit s _ cal (settle f rest p) fit = settle-AllFit f rest s p fit
  Step-AllFit s _ cal (wait n) fit = wait-AllFit n s cal fit

  pub Steps-AllFit :
      (s t : Session)
      → IsCalendar g.calendar
      → Steps g s t
      → AllFit R g.calendar s
      → AllFit R g.calendar t
  Steps-AllFit s _ cal start fit = fit
  Steps-AllFit s _ cal (next {t} {u} many last) fit =
      Step-AllFit t u cal last (Steps-AllFit s t cal many fit)
