-- ===== src/Budget/Reserved.antt =====
-- The reservation of a call that the gate does not let through is not kept.
use ai_studio.Prelude.{
  List, [], ◌∷◌, ◌++◌, ◌≡◌, inl, inr, refl, sym, ◌∙◌, ap, arith, ◌&&◌, ◌==◌, keep, map, Bool-cases,
  if◌then◌else◌, Result, ok, err,
}
use ai_studio.Budget.{Budget, BudgetStatus, zone, reserve}
use ai_studio.Approvals.{Approval, Store, ValueError}
use ai_studio.Budget.Gate.{
  Setting, Request, Books, BudgetError, BudgetEvent, in_scope, is_capped, entries_of, judge,
  Verdict, unconstrained, allowed, blocked, withheld, hold, drop_hold, reserve_rows, release_rows,
  release_reservation, send, event_of, zone_body, send_zones, ordered, act, after_zones,
  after_exceeded, after_withheld, enforce, after_asking, ask_more, takes, exceeded, zoned,
}

-- Emitting events leaves the caps and the calls alone.
pub send_zones-rows :
    (g : Setting) (q : Request) (entries : List BudgetStatus) (b : Books)
    → ((send_zones g q entries b).1.rows ≡ b.rows)
      × ((send_zones g q entries b).1.calls ≡ b.calls)
      × ((send_zones g q entries b).1.clock ≡ b.clock)
unfolding send_zones
send_zones-rows g q [] b = (refl, refl, refl)
send_zones-rows g q (st ∷ rest) b =
    elim (Bool-cases (takes g (event_of q (zone_body q.purpose (zone st) st)))) [
      | inr e ↦ rw (send_zones, e) (refl, refl, refl)
      | inl e ↦
          rw (send_zones, e)
            (send_zones-rows g q rest (record b {
              events = b.events ++ event_of q (zone_body q.purpose (zone st) st) ∷ [];
            }))
    ]

drop_hold-hold : (q : Request) (r : Budget) → drop_hold q.est_usd q.est_tokens (hold q r) ≡ r
drop_hold-hold q r = ground arith

-- Reserving and releasing, on the rows.
undone :
    (q : Request) (rows : List Budget)
    → keep is_capped (
        map
          (λ r. if in_scope q.workstream r then drop_hold q.est_usd q.est_tokens r else r)
          (map (λ r. if in_scope q.workstream r && is_capped r then hold q r else r) rows))
      ≡ keep is_capped rows
unfolding in_scope is_capped
undone q [] = refl
undone q (r ∷ rows) =
    let ih = undone q rows in
    let back = drop_hold-hold q r in
    elim (Bool-cases (in_scope q.workstream r)) [
      | inr out ↦ rw (out, out, ih) refl
      | inl inside ↦ elim (Bool-cases (is_capped r)) [
        | inl c ↦ rw (inside, c, inside, back, ih) (rw c refl)
        | inr c ↦ rw (inside, c, inside, ih) (rw c refl)
      ]
    ]

release_rows-reserve_rows :
    (q : Request) (rows : List Budget)
    → keep is_capped (release_rows q.workstream q.est_usd q.est_tokens (reserve_rows q rows))
      ≡ keep is_capped rows
unfolding release_rows reserve_rows
release_rows-reserve_rows q rows = elim (Bool-cases (q.est_usd == 0 && q.est_tokens == 0)) [
  | inl e ↦ rw e refl
  | inr e ↦ rw e (undone q rows)
]

-- A sink that raises while an allowed call is announced.
after_zones-raises :
    (g : Setting) (q : Request) (entries : List BudgetStatus) (b : Books)
    (x : Result BudgetError (Unit {0}) × Books)
    → x.1.rows ≡ reserve_rows q b.rows
    → x.1.calls ≡ b.calls
    → (e : BudgetError) (b' : Books) → after_zones q entries x ≡ (err e, b')
    → (keep is_capped b'.rows ≡ keep is_capped b.rows) × (b'.calls ≡ b.calls)
unfolding release_reservation
after_zones-raises g q entries b (ok u, mid) r c e b' h = cc
after_zones-raises g q entries b (err x, mid) r c e b' h =
    let same : release_reservation q.workstream q.est_usd q.est_tokens mid ≡ b' = ap (λ y. y.1) h in
    (
      ap (λ y. keep is_capped y.rows) (sym same)
          ∙ ap (λ y. keep is_capped (release_rows q.workstream q.est_usd q.est_tokens y)) r
          ∙ release_rows-reserve_rows q b.rows,
      ap (λ y. y.calls) (sym same) ∙ c,
    )

-- An event, sent or not, leaves the rows and the calls as they are.
send-rows :
    (g : Setting) (e : BudgetEvent) (b : Books)
    → ((send g e b).1.rows ≡ b.rows) × ((send g e b).1.calls ≡ b.calls)
send-rows g e b = elim (Bool-cases (takes g e)) [
  | inl h ↦ rw (send, h) (refl, refl)
  | inr h ↦ rw (send, h) (refl, refl)
]

after_asking-rows :
    (st : BudgetStatus) (b : Books) (x : Result ValueError Approval × Store)
    → ((after_asking st b x).1.rows ≡ b.rows) × ((after_asking st b x).1.calls ≡ b.calls)
after_asking-rows st b (ok a, store) = (refl, refl)
after_asking-rows st b (err e, store) = (refl, refl)

after_exceeded-rows :
    (g : Setting) (q : Request) (st : BudgetStatus) (x : Result BudgetError (Unit {0}) × Books)
    → ((after_exceeded g q st x).1.rows ≡ x.1.rows)
      × ((after_exceeded g q st x).1.calls ≡ x.1.calls)
after_exceeded-rows g q st (ok u, b) = after_asking-rows st b (ask_more g q st b)
after_exceeded-rows g q st (err e, b) = (refl, refl)

after_withheld-rows :
    (st : BudgetStatus) (x : Result BudgetError (Unit {0}) × Books)
    → ((after_withheld st x).1.rows ≡ x.1.rows) × ((after_withheld st x).1.calls ≡ x.1.calls)
after_withheld-rows st (ok u, b) = (refl, refl)
after_withheld-rows st (err e, b) = (refl, refl)

act-raises :
    (g : Setting) (q : Request) (entries : List BudgetStatus) (b : Books) (v : Verdict)
    (e : BudgetError) (b' : Books)
    → act g q entries b v ≡ (err e, b')
    → (keep is_capped b'.rows ≡ keep is_capped b.rows) × (b'.calls ≡ b.calls)
act-raises g q entries b unconstrained e b' h = cc
act-raises g q entries b allowed e b' h =
    let b'' = record b { rows = reserve_rows q b.rows } in
    let (r, c, t) = send_zones-rows g q (ordered entries) b'' in
    after_zones-raises g q entries b (send_zones g q (ordered entries) b'') r c e b' h
act-raises g q entries b (blocked st) e b' h =
    let same = ap (λ y. y.1) (sym h) in
    let (r, c) = after_exceeded-rows g q st (send g (event_of q (exceeded st)) b) in
    let (r', c') = send-rows g (event_of q (exceeded st)) b in
    (
      ap (λ y. keep is_capped y.rows) same ∙ ap (keep is_capped) (r ∙ r'),
      ap (λ y. y.calls) same ∙ c ∙ c',
    )
act-raises g q entries b (withheld st) e b' h =
    let same = ap (λ y. y.1) (sym h) in
    let n = event_of q (zoned reserve q.purpose st) in
    let (r, c) = after_withheld-rows st (send g n b) in
    let (r', c') = send-rows g n b in
    (
      ap (λ y. keep is_capped y.rows) same ∙ ap (keep is_capped) (r ∙ r'),
      ap (λ y. y.calls) same ∙ c ∙ c',
    )

-- Whatever `enforce` raises (over the cap, withheld, or an event that fails, after the reservation too),
-- the rows that have a cap are as they were, their cushions included, and no call is recorded.
pub enforce-raises :
    (g : Setting) (q : Request) (b : Books) (e : BudgetError) (b' : Books)
    → enforce g q b ≡ (err e, b')
    → (keep is_capped b'.rows ≡ keep is_capped b.rows) × (b'.calls ≡ b.calls)
unfolding enforce
enforce-raises g q b e b' h =
    act-raises g q (entries_of g q b) b (judge q.purpose (entries_of g q b)) e b' h

-- The clock does not move in the gate.
after_exceeded-clock :
    (g : Setting) (q : Request) (st : BudgetStatus) (x : Result BudgetError (Unit {0}) × Books)
    → (after_exceeded g q st x).1.clock ≡ x.1.clock
after_exceeded-clock g q st (ok u, b) = asked (ask_more g q st b)
  where
    asked : (x : Result ValueError Approval × Store) → (after_asking st b x).1.clock ≡ b.clock
    asked (ok a, store) = refl
    asked (err e, store) = refl
after_exceeded-clock g q st (err e, b) = refl

after_withheld-clock :
    (st : BudgetStatus) (x : Result BudgetError (Unit {0}) × Books)
    → (after_withheld st x).1.clock ≡ x.1.clock
after_withheld-clock st (ok u, b) = refl
after_withheld-clock st (err e, b) = refl

after_zones-clock :
    (q : Request) (entries : List BudgetStatus) (x : Result BudgetError (Unit {0}) × Books)
    → (after_zones q entries x).1.clock ≡ x.1.clock
unfolding release_reservation
after_zones-clock q entries (ok u, b) = refl
after_zones-clock q entries (err e, b) = refl

send-clock : (g : Setting) (e : BudgetEvent) (b : Books) → (send g e b).1.clock ≡ b.clock
send-clock g e b = elim (Bool-cases (takes g e)) [
  | inl h ↦ rw (send, h) refl
  | inr h ↦ rw (send, h) refl
]

act-clock :
    (g : Setting) (q : Request) (entries : List BudgetStatus) (b : Books) (v : Verdict)
    → (act g q entries b v).1.clock ≡ b.clock
act-clock g q entries b unconstrained = refl
act-clock g q entries b allowed =
    after_zones-clock q entries _
    ∙ (send_zones-rows g q (ordered entries) (record b { rows = reserve_rows q b.rows })).2
act-clock g q entries b (blocked st) =
    after_exceeded-clock g q st _ ∙ send-clock g (event_of q (exceeded st)) b
act-clock g q entries b (withheld st) =
    after_withheld-clock st _ ∙ send-clock g (event_of q (zoned reserve q.purpose st)) b

pub enforce-clock : (g : Setting) (q : Request) (b : Books) → (enforce g q b).1.clock ≡ b.clock
unfolding enforce
enforce-clock g q b = act-clock g q (entries_of g q b) b (judge q.purpose (entries_of g q b))
