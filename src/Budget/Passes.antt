-- ===== src/Budget/Passes.antt =====
-- Which calls the gate lets through, in terms of the entries that it reads.
use ai_studio.Prelude.{
  Bool, true, false, List, [], ◌∷◌, ◌++◌, ◌≡◌, ◌↔◌, inl, inr, refl, sym, ◌∙◌, ◌||◌, not, In,
  In-append-cases, In-keep, keep, find?, find?-eq-some, find?-eq-none, Bool-cases, Option-cases, ok,
  str_eq, err, Result,
}
use ai_studio.Budget.{BudgetStatus, zone, reserve}
use ai_studio.Budget.Gate.{
  Setting, Request, Books, BudgetEvent, Purpose, may_reserve, entries_of, judge, judge_over,
  Verdict, unconstrained, allowed, blocked, withheld, ordered, is_over, is_reserve, act, send,
  send_zones, after_zones, enforce, buckets, fits_key, own_keys, org_keys, zone_body, event_of,
  reserve_rows, exceeded, zoned, BudgetError, EventBody, takes, after_asking, ask_more,
}
use ai_studio.Approvals.{Approval, Store, ValueError}
use ai_studio.Budget.Flights.Rows.{ordered-In}

pub buckets_sub :
    {K A : Type 0} (fits : K → A → Bool) (ks : List K) (xs : List A) (a : A)
    → In a (buckets fits ks xs)
    → In a xs
buckets_sub fits [] xs a m = absurd m
buckets_sub fits (k ∷ ks) xs a m =
    elim (In-append-cases a (keep (fits k) xs) (buckets fits ks xs) m) [
      | inl l ↦ (In-keep (fits k) xs a l).0
      | inr r ↦ buckets_sub fits ks xs a r
    ]

ordered_sub : (xs : List BudgetStatus) (st : BudgetStatus) → In st (ordered xs) → In st xs
unfolding ordered
ordered_sub xs st m = buckets_sub fits_key (own_keys ++ org_keys) xs st m

or_true : (b : Bool) → (b || true) ≡ true
or_true true = refl
or_true false = refl

-- No cap would be broken, and a normal call stays out of the reserve.
abbrev pub Passes : Purpose → BudgetStatus → Type 0
Passes purpose st = (is_over st ≡ false) × ((may_reserve purpose || not (is_reserve st)) ≡ true)

abbrev is_allowed : Verdict → Bool
is_allowed unconstrained = true
is_allowed allowed = true
is_allowed _ = false

judge_iff :
    (purpose : Purpose) (entries : List BudgetStatus)
    → (is_allowed (judge purpose entries) ≡ true)
      ↔ ((st : BudgetStatus) → In st entries → Passes purpose st)
unfolding judge
judge_iff purpose [] = (λ h st m. absurd m, λ h. refl)
judge_iff purpose (x ∷ xs) = elim (Option-cases (find? is_over (ordered (x ∷ xs)))) [
  | inr (st, e) ↦
      let (m, bad) = find?-eq-some is_over (ordered (x ∷ xs)) st e in
      rw (judge_over, e)
        (
          λ h. cc,
          λ h.
              let k = (h st (ordered_sub (x ∷ xs) st m)).0 in
              let no_way : true ≡ false = sym bad ∙ k in cc,
        )
  | inl e ↦
      let under = λ (st : BudgetStatus) (m : In st (x ∷ xs)).
        find?-eq-none is_over (ordered (x ∷ xs)) st e (ordered-In (x ∷ xs) st m) in
      elim (Option-cases (find? is_reserve (ordered (x ∷ xs)))) [
        | inl f ↦
            let out = λ (st : BudgetStatus) (m : In st (x ∷ xs)).
              find?-eq-none is_reserve (ordered (x ∷ xs)) st f (ordered-In (x ∷ xs) st m) in
            rw (judge_over, e, f)
              (
                λ h st m. (under st m, let o = out st m in rw o (or_true (may_reserve purpose))),
                λ h. refl,
              )
        | inr (st, f) ↦
            let (m, inside) = find?-eq-some is_reserve (ordered (x ∷ xs)) st f in
            elim (Bool-cases (may_reserve purpose)) [
              | inl p ↦ rw (judge_over, e, f, p) (λ h s i. (under s i, refl), λ h. refl)
              | inr p ↦
                  rw (judge_over, e, f, p)
                    (
                      λ h. cc,
                      λ h.
                          let k = (h st (ordered_sub (x ∷ xs) st m)).1 in
                          let no_way : false ≡ true = rw inside at k in cc,
                    )
            ]
      ]
]

abbrev pub is_ok : {A : Type 0} → Result BudgetError A → Bool
is_ok (ok a) = true
is_ok (err e) = false

-- Every event of the call is made and taken.
abbrev Taken : Setting → Request → Type 0
Taken g q = (body : EventBody) → takes g (event_of q body) ≡ true

send_zones-accepts :
    (g : Setting) (q : Request) (entries : List BudgetStatus) (b : Books)
    → Taken g q
    → (send_zones g q entries b).0 ≡ ok tt
unfolding send_zones
send_zones-accepts g q [] b all_in = refl
send_zones-accepts g q (st ∷ rest) b all_in =
    let body = zone_body q.purpose (zone st) st in
    rw (send_zones, all_in body)
      (send_zones-accepts g q rest (record b { events = b.events ++ event_of q body ∷ [] }) all_in)

after_zones-ok :
    (q : Request) (entries : List BudgetStatus) (x : Result BudgetError (Unit {0}) × Books)
    → x.0 ≡ ok tt
    → is_ok (after_zones q entries x).0 ≡ true
after_zones-ok q entries (ok u, b) h = refl
after_zones-ok q entries (err e, b) h = cc

after_asking_fails :
    (st : BudgetStatus) (b : Books) (x : Result ValueError Approval × Store)
    → is_ok (after_asking st b x).0 ≡ false
after_asking_fails st b (ok a, store) = refl
after_asking_fails st b (err e, store) = refl

act-is_ok :
    (g : Setting) (q : Request) (entries : List BudgetStatus) (b : Books) (v : Verdict)
    → Taken g q
    → is_ok (act g q entries b v).0 ≡ is_allowed v
act-is_ok g q entries b unconstrained all_in = refl
act-is_ok g q entries b allowed all_in =
    let mid = record b { rows = reserve_rows q b.rows } in
    after_zones-ok q entries (send_zones g q (ordered entries) mid)
      (send_zones-accepts g q (ordered entries) mid all_in)
act-is_ok g q entries b (blocked st) all_in =
    let b' = record b { events = b.events ++ event_of q (exceeded st) ∷ [] } in
    rw (send, all_in (exceeded st)) (after_asking_fails st b' (ask_more g q st b'))
act-is_ok g q entries b (withheld st) all_in = rw (send, all_in (zoned reserve q.purpose st)) refl

-- In terms of the entries that the gate reads.
pub enforce-entries :
    (g : Setting) (q : Request) (b : Books)
    → ((e : BudgetEvent) → g.accepts e ≡ true)
    → str_eq q.workstream "" ≡ false
    → (is_ok (enforce g q b).0 ≡ true)
      ↔ ((st : BudgetStatus) → In st (entries_of g q b) → Passes q.purpose st)
unfolding enforce takes
enforce-entries g q b all_in named =
    let all_taken : Taken g q = λ body. rw (named, all_in (event_of q body)) refl in
    rw (act-is_ok g q (entries_of g q b) b (judge q.purpose (entries_of g q b)) all_taken)
      (judge_iff q.purpose (entries_of g q b))
