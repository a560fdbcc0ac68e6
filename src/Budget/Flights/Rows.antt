-- ===== src/Budget/Flights/Rows.antt =====
-- What one call of the gate does to the rows of `budgets`, row by row.
use ai_studio.Prelude.{
  Bool, true, false, List, [], ◌∷◌, ◌++◌, ◌≡◌, inl, inr, refl, sym, ◌∙◌, ap, subst, arith, ◌&&◌,
  ◌==◌, keep, find?, In, keep-In, In-map, map-In, In-append_left, In-append_right, find?-eq-none,
  Bool-cases, Option-cases, if◌then◌else◌, Result, ok, err,
}
use ai_studio.Budget.{
  Budget, BudgetStatus, Period, daily, monthly, rolling_30d, all_time, gated_status, period_rank,
  is_org, reserve,
}
use ai_studio.Approvals.{Approval, Store, ValueError}
use ai_studio.Budget.Gate.{
  Setting, Request, Books, BudgetError, in_scope, is_capped, entries_of, judge, judge_over, Verdict,
  unconstrained, allowed, blocked, withheld, hold, reserve_rows, send, send_zones, ordered, act,
  after_zones, after_exceeded, after_withheld, enforce, buckets, fits_key, own_keys, org_keys,
  is_over, lock_order, event_of, exceeded, zoned, is_reserve, may_reserve, over_budget,
  after_asking, ask_more, raised,
}
use ai_studio.Budget.Reserved.{send_zones-rows}

-- A sort by key keeps everything whose key is listed.
buckets-In :
    {K A : Type 0} (fits : K → A → Bool) (ks : List K) (k : K) (xs : List A) (a : A)
    → In k ks
    → fits k a ≡ true
    → In a xs
    → In a (buckets fits ks xs)
buckets-In fits [] k xs a m h i = absurd m
buckets-In fits (j ∷ ks) k xs a (inl e) h i =
    In-append_left a (keep (fits j) xs) (buckets fits ks xs) (keep-In (fits j) xs a i (rw (← e) h))
buckets-In fits (j ∷ ks) k xs a (inr m) h i =
    In-append_right a (keep (fits j) xs) (buckets fits ks xs) (buckets-In fits ks k xs a m h i)

-- The key of an entry.
own_key : (p : Period) → In (false, p) own_keys
own_key all_time = inl refl
own_key daily = inr (inl refl)
own_key monthly = inr (inr (inl refl))
own_key rolling_30d = inr (inr (inr (inl refl)))

org_key : (p : Period) → In (true, p) org_keys
org_key all_time = inl refl
org_key daily = inr (inl refl)
org_key monthly = inr (inr (inl refl))
org_key rolling_30d = inr (inr (inr (inl refl)))

period_rank_refl : (p : Period) → (period_rank p == period_rank p) ≡ true
period_rank_refl p = ground arith

pub ordered-In : (xs : List BudgetStatus) (st : BudgetStatus) → In st xs → In st (ordered xs)
unfolding ordered
ordered-In xs st m = elim (Bool-cases (is_org st.row.workstream)) [
  | inl e ↦
      buckets-In fits_key (own_keys ++ org_keys) (true, st.row.period) xs st
        (In-append_right (true, st.row.period) own_keys org_keys (org_key st.row.period))
        (rw e (period_rank_refl st.row.period)) m
  | inr e ↦
      buckets-In fits_key (own_keys ++ org_keys) (false, st.row.period) xs st
        (In-append_left (false, st.row.period) own_keys org_keys (own_key st.row.period))
        (rw e (period_rank_refl st.row.period)) m
]

lock_order-In :
    (b : Bool) (xs : List BudgetStatus) (st : BudgetStatus) → In st xs → In st (lock_order b xs)
lock_order-In false xs st m = ordered-In xs st m
lock_order-In true xs st m = elim (Bool-cases (is_org st.row.workstream)) [
  | inl e ↦
      buckets-In fits_key (org_keys ++ own_keys) (true, st.row.period) xs st
        (In-append_left (true, st.row.period) org_keys own_keys (org_key st.row.period))
        (rw e (period_rank_refl st.row.period)) m
  | inr e ↦
      buckets-In fits_key (org_keys ++ own_keys) (false, st.row.period) xs st
        (In-append_right (false, st.row.period) org_keys own_keys (own_key st.row.period))
        (rw e (period_rank_refl st.row.period)) m
]

abbrev pub entry : Setting → Request → Books → Budget → BudgetStatus
entry g q b r = gated_status g.calendar b.clock b.calls q.est_usd q.est_tokens r

-- Every capped row of the scope is an entry of the gate.
pub entries_of-In :
    (g : Setting) (q : Request) (b : Books) (r : Budget)
    → In r b.rows
    → in_scope q.workstream r ≡ true
    → is_capped r ≡ true
    → In (entry g q b r) (entries_of g q b)
unfolding entries_of
entries_of-In g q b r m s c = lock_order-In (g.org_first q.workstream) _ (entry g q b r) (
    map-In (entry g q b) (keep (λ x. in_scope q.workstream x && is_capped x) b.rows) r
      (keep-In (λ x. in_scope q.workstream x && is_capped x) b.rows r m (rw (s, c) refl)))

-- What an allowed call does to one row.
pub data Reserved (g : Setting) (q : Request) (b : Books) (r : Budget) (r' : Budget) : Type 0 where
  passed_by : (in_scope q.workstream r && is_capped r) ≡ false → r' ≡ r → Reserved g q b r r'
  held :
      in_scope q.workstream r ≡ true
      → is_over (entry g q b r) ≡ false
      → r' ≡ hold q r
      → Reserved g q b r r'

hold_zero : (q : Request) (r : Budget) → (q.est_usd == 0 && q.est_tokens == 0) ≡ true → r ≡ hold q r
hold_zero q r h = ground arith

reserve_rows-In :
    (q : Request) (rows : List Budget) (r' : Budget)
    → In r' (reserve_rows q rows)
    → (r : Budget) × In r rows
      × (r' ≡ (if in_scope q.workstream r && is_capped r then hold q r else r))
unfolding reserve_rows
reserve_rows-In q rows r' m = elim (Bool-cases (q.est_usd == 0 && q.est_tokens == 0)) [
  | inr e ↦
      In-map (λ r. if in_scope q.workstream r && is_capped r then hold q r else r) rows r'
        (rw e at m)
  | inl e ↦ (
    r',
    rw e at m,
    elim (Bool-cases (in_scope q.workstream r' && is_capped r')) [
      | inl s ↦ rw s (hold_zero q r' e)
      | inr s ↦ rw s refl
    ],
  )
]

-- The verdict, with what it tells of the entries.
data Judged (entries : List BudgetStatus) : Verdict → Type 0 where
  none_there : entries ≡ [] → Judged entries unconstrained
  under : ((st : BudgetStatus) → In st entries → is_over st ≡ false) → Judged entries allowed
  too_much : (st : BudgetStatus) → Judged entries (blocked st)
  kept_back : (st : BudgetStatus) → Judged entries (withheld st)

judge-Judged :
    (q : Request) (entries : List BudgetStatus) → Judged entries (judge q.purpose entries)
unfolding judge
judge-Judged q [] = none_there refl
judge-Judged q (x ∷ xs) = elim (Option-cases (find? is_over (ordered (x ∷ xs)))) [
  | inr (st, e) ↦ rw (judge_over, e) (too_much st)
  | inl e ↦
      let ok_all = λ (st : BudgetStatus) (m : In st (x ∷ xs)).
        find?-eq-none is_over (ordered (x ∷ xs)) st e (ordered-In (x ∷ xs) st m) in
      elim (Option-cases (find? is_reserve (ordered (x ∷ xs)))) [
        | inl f ↦ rw (judge_over, e, f) (under ok_all)
        | inr (st, f) ↦ elim (Bool-cases (may_reserve q.purpose)) [
          | inl p ↦ rw (judge_over, e, f, p) (under ok_all)
          | inr p ↦ rw (judge_over, e, f, p) (kept_back st)
        ]
      ]
]

after_exceeded-raises :
    (g : Setting) (q : Request) (st : BudgetStatus) (x : Result BudgetError (Unit {0}) × Books)
    → (e : BudgetError) × ((after_exceeded g q st x).0 ≡ err e)
after_exceeded-raises g q st (ok u, b) = asked (ask_more g q st b)
  where
    asked :
        (x : Result ValueError Approval × Store)
        → (e : BudgetError) × ((after_asking st b x).0 ≡ err e)
    asked (ok a, store) = (over_budget st, refl)
    asked (err e, store) = (raised e, refl)
after_exceeded-raises g q st (err e, b) = (e, refl)

after_withheld-raises :
    (st : BudgetStatus) (x : Result BudgetError (Unit {0}) × Books)
    → (e : BudgetError) × ((after_withheld st x).0 ≡ err e)
after_withheld-raises st (ok u, b) = (over_budget st, refl)
after_withheld-raises st (err e, b) = (e, refl)

-- The state after a call of the gate that returns.
pub record Allowed (g : Setting) (q : Request) (b b' : Books) : Type 0 where
  pub calls : b'.calls ≡ b.calls
  pub clock : b'.clock ≡ b.clock
  pub rows : (r' : Budget) → In r' b'.rows → (r : Budget) × In r b.rows × Reserved g q b r r'

after_zones-Allowed :
    (q : Request) (entries es : List BudgetStatus) (x : Result BudgetError (Unit {0}) × Books)
    (b' : Books)
    → after_zones q entries x ≡ (ok es, b')
    → x.1 ≡ b'
after_zones-Allowed q entries es (ok u, b) b' h = ap (λ y. y.1) h
after_zones-Allowed q entries es (err e, b) b' h = let bad : err e ≡ ok es = ap (λ y. y.0) h in cc

-- No entry: the scope has no capped row.
bypassed :
    (g : Setting) (q : Request) (b : Books)
    → entries_of g q b ≡ []
    → (r : Budget) → In r b.rows
    → (in_scope q.workstream r && is_capped r) ≡ false
bypassed g q b e r m = elim (Bool-cases (in_scope q.workstream r)) [
  | inr s ↦ rw s refl
  | inl s ↦ elim (Bool-cases (is_capped r)) [
    | inr c ↦ rw (s, c) refl
    | inl c ↦ absurd (subst (In (entry g q b r)) e (entries_of-In g q b r m s c))
  ]
]

reserved_case :
    (g : Setting) (q : Request) (b : Books) (r : Budget)
    → In r b.rows
    → ((st : BudgetStatus) → In st (entries_of g q b) → is_over st ≡ false)
    → Reserved g q b r (if in_scope q.workstream r && is_capped r then hold q r else r)
reserved_case g q b r m fine_all = elim (Bool-cases (in_scope q.workstream r)) [
  | inr s ↦ rw s (passed_by (rw s refl) refl)
  | inl s ↦ elim (Bool-cases (is_capped r)) [
    | inr c ↦ rw (s, c) (passed_by (rw (s, c) refl) refl)
    | inl c ↦ rw (s, c) (held s (fine_all (entry g q b r) (entries_of-In g q b r m s c)) refl)
  ]
]

act-Allowed :
    (g : Setting) (q : Request) (b : Books) (v : Verdict) (es : List BudgetStatus) (b' : Books)
    → Judged (entries_of g q b) v
    → act g q (entries_of g q b) b v ≡ (ok es, b')
    → Allowed g q b b'
act-Allowed g q b unconstrained es b' (none_there e) h =
    let same = ap (λ y. y.1) h in
    record {
      calls = ap (λ y. y.calls) (sym same);
      clock = ap (λ y. y.clock) (sym same);
      rows = λ r' m.
          let m' : In r' b.rows = subst (λ y. In r' y.rows) (sym same) m in
          (r', m', passed_by (bypassed g q b e r' m') refl);
    }
act-Allowed g q b (blocked _) es b' (too_much st) h =
    let (e, k) = after_exceeded-raises g q st (send g (event_of q (exceeded st)) b) in
    let bad : err e ≡ ok es = sym k ∙ ap (λ y. y.0) h in cc
act-Allowed g q b (withheld _) es b' (kept_back st) h =
    let (e, k) = after_withheld-raises st (send g (event_of q (zoned reserve q.purpose st)) b) in
    let bad : err e ≡ ok es = sym k ∙ ap (λ y. y.0) h in cc
act-Allowed g q b allowed es b' (under fine_all) h =
    let entries = entries_of g q b in
    let mid = record b { rows = reserve_rows q b.rows } in
    let same = after_zones-Allowed q entries es (send_zones g q (ordered entries) mid) b' h in
    let (r, c, t) = send_zones-rows g q (ordered entries) mid in
    record {
      calls = ap (λ y. y.calls) (sym same) ∙ c;
      clock = ap (λ y. y.clock) (sym same) ∙ t;
      rows = λ r' m.
          let m' : In r' (reserve_rows q b.rows) =
            subst (In r') r (subst (λ y. In r' y.rows) (sym same) m) in
          let (x, i, e) = reserve_rows-In q b.rows r' m' in
          (x, i, subst (Reserved g q b x) (sym e) (reserved_case g q b x i fine_all));
    }

-- A call of the gate that returns records no model call, and each capped row of its scope was not
-- over with the estimate and holds it now.
pub enforce-Allowed :
    (g : Setting) (q : Request) (b : Books) (es : List BudgetStatus) (b' : Books)
    → enforce g q b ≡ (ok es, b')
    → Allowed g q b b'
unfolding enforce
enforce-Allowed g q b es b' h =
    act-Allowed g q b (judge q.purpose (entries_of g q b)) es b' (judge-Judged q (entries_of g q b))
      h
