-- ===== src/Budget/Room.antt =====
-- The room that the caps leave for a call, in terms of the rows and the calls alone, and the gate.
use ai_studio.Prelude.{
  ℕ, ◌+◌, Bool, true, false, Option, none, some, List, ◌++◌, ◌≡◌, ◌⊎◌, ◌↔◌, inl, inr, refl, sym,
  ◌∙◌, ap, ◌&&◌, ◌||◌, not, keep, str_eq, eq_iff, if◌then◌else◌, In, In-keep, Bool-cases, is_none,
  subst, In-map,
}
use ai_studio.Policy.{would_exceed}
use ai_studio.Budget.{
  Budget, BudgetStatus, window_start, spent_in, is_org, gated_status, context, reached, zone, over,
  reserve, throttle, warn, fine,
}
use ai_studio.Budget.Amounts.{used, Fits, Short, total-used, exceeds-Fits, reached-Short}
use ai_studio.Budget.Gate.{
  Setting, Request, Books, BudgetEvent, Purpose, normal, wind_down, escalation, may_reserve,
  in_scope, is_capped, entries_of, lock_order, is_over, is_reserve, enforce, fits_key, own_keys,
  org_keys, ordered,
}
use ai_studio.Budget.Passes.{Passes, is_ok, enforce-entries, buckets_sub}
use ai_studio.Budget.Flights.Rows.{entry, entries_of-In}

-- What a row counts against its caps: spent, held for other calls, and estimated for this one.
abbrev pub usd_of : Setting → Request → Books → Budget → ℕ
usd_of g q b r =
    used (λ c. c.cost_usd) (window_start g.calendar r.period b.clock) r b.calls
    + r.reserved_usd
    + q.est_usd

abbrev pub tokens_of : Setting → Request → Books → Budget → ℕ
tokens_of g q b r =
    used (λ c. c.tokens) (window_start g.calendar r.period b.clock) r b.calls
    + r.reserved_tokens
    + q.est_tokens

-- The row has room for the call, and a normal call stays out of its reserve.
abbrev pub HasRoom : Setting → Request → Books → Budget → Type 0
HasRoom g q b r =
    Fits r.cap_usd (usd_of g q b r)
    × Fits r.cap_tokens (tokens_of g q b r)
    × (q.purpose ≡ normal
        → Short r.reserve_frac r.cap_usd (usd_of g q b r)
          × Short r.reserve_frac r.cap_tokens (tokens_of g q b r))

-- The zones, by their tests.
zone_tests :
    (a b c d : Bool)
    → let z =
        if a
        then over
        else if b
        then reserve
        else if c
        then throttle
        else if d
        then warn
        else fine in
      ((elim z as (λ _. Bool) [ over ↦ true | _ ↦ false ]) ≡ a)
      × ((elim z as (λ _. Bool) [ reserve ↦ true | _ ↦ false ]) ≡ (not a && b))
zone_tests true b c d = (refl, refl)
zone_tests false true c d = (refl, refl)
zone_tests false false true d = (refl, refl)
zone_tests false false false true = (refl, refl)
zone_tests false false false false = (refl, refl)

module _ (g : Setting) (q : Request) (b : Books) (r : Budget) where
  abbrev st : BudgetStatus
  st = entry g q b r

  entry_tests :
      (is_over st ≡ would_exceed (context st))
      × (is_reserve st ≡ (not (would_exceed (context st)) && reached r.reserve_frac st))
  unfolding is_over is_reserve zone gated_status
  entry_tests =
      zone_tests (would_exceed (context st)) (reached r.reserve_frac st)
        (reached r.throttle_frac st) (reached r.warn_frac st)

if_or : (a b : Bool) → ((if a then true else b) ≡ false) ↔ ((b ≡ false) × (a ≡ false))
if_or true b = (λ h. cc, λ (h, k). cc)
if_or false b = (λ h. (h, refl), λ (h, k). h)

-- The purposes that stay out of the reserve.
purpose_rule :
    (p : Purpose) (inside : Bool)
    → ((may_reserve p || not inside) ≡ true) ↔ (p ≡ normal → inside ≡ false)
purpose_rule normal true = (λ h. cc, λ k. cc (k refl))
purpose_rule normal false = (λ h e. refl, λ k. refl)
purpose_rule wind_down inside = (λ h e. cc, λ k. refl)
purpose_rule escalation inside = (λ h e. cc, λ k. refl)

module _ (g : Setting) (q : Request) (b : Books) (r : Budget) where
  usd_total : (entry g q b r).spend.cost_usd + r.reserved_usd + q.est_usd ≡ usd_of g q b r
  unfolding gated_status spent_in
  usd_total =
      ap (λ n. n + r.reserved_usd + q.est_usd)
        (total-used (λ c. c.cost_usd) (window_start g.calendar r.period b.clock) r b.calls)

  tokens_total : (entry g q b r).spend.tokens + r.reserved_tokens + q.est_tokens ≡ tokens_of g q b r
  unfolding gated_status spent_in
  tokens_total =
      ap (λ n. n + r.reserved_tokens + q.est_tokens)
        (total-used (λ c. c.tokens) (window_start g.calendar r.period b.clock) r b.calls)

  would_exceed-Fits :
      (would_exceed (context (entry g q b r)) ≡ false)
      ↔ (Fits r.cap_usd (usd_of g q b r) × Fits r.cap_tokens (tokens_of g q b r))
  unfolding would_exceed context gated_status
  would_exceed-Fits =
      let st = entry g q b r in
      let usd =
        exceeds-Fits r.cap_usd st.spend.cost_usd r.reserved_usd q.est_usd _ (sym usd_total) in
      let tokens =
        exceeds-Fits r.cap_tokens st.spend.tokens r.reserved_tokens q.est_tokens _
          (sym tokens_total) in
      let (out, back) = if_or _ _ in
      (λ e. let (x, y) = out e in (usd.0 x, tokens.0 y), λ (x, y). back (usd.1 x, tokens.1 y))

  reached_reserve : (reached r.reserve_frac (entry g q b r) ≡ false) ↔ (
      Short r.reserve_frac r.cap_usd (usd_of g q b r)
      × Short r.reserve_frac r.cap_tokens (tokens_of g q b r))
  unfolding gated_status
  reached_reserve =
      let (out, back) = reached-Short r.reserve_frac (entry g q b r) in
      (
        λ e.
            let (x, y) = out e in
            (
              subst (Short r.reserve_frac r.cap_usd) usd_total x,
              subst (Short r.reserve_frac r.cap_tokens) tokens_total y,
            ),
        λ (x, y). back (
          subst (Short r.reserve_frac r.cap_usd) (sym usd_total) x,
          subst (Short r.reserve_frac r.cap_tokens) (sym tokens_total) y,
        ),
      )

  -- An entry lets the call pass exactly where its row has room for it.
  Passes-HasRoom : Passes q.purpose (entry g q b r) ↔ HasRoom g q b r
  Passes-HasRoom =
      let (over_is, reserve_is) = entry_tests g q b r in
      let (rule, rule_back) = purpose_rule q.purpose (is_reserve (entry g q b r)) in
      (
        λ (under, out).
            let fine_now = sym over_is ∙ under in
            let (x, y) = would_exceed-Fits.0 fine_now in
            (x, y, λ n. reached_reserve.0 (outside _ _ fine_now (sym reserve_is ∙ rule out n))),
        λ (x, y, z).
            let fine_now = would_exceed-Fits.1 (x, y) in
            (
              over_is ∙ fine_now,
              rule_back (λ n. reserve_is ∙ inside _ _ fine_now (reached_reserve.1 (z n))),
            ),
      )
    where
      outside : (a c : Bool) → a ≡ false → (not a && c) ≡ false → c ≡ false
      outside true c h k = cc
      outside false c h k = k

      inside : (a c : Bool) → a ≡ false → c ≡ false → (not a && c) ≡ false
      inside true c h k = cc
      inside false c h k = k

lock_order_sub :
    (o : Bool) (xs : List BudgetStatus) (st : BudgetStatus) → In st (lock_order o xs) → In st xs
unfolding ordered
lock_order_sub true xs st m = buckets_sub fits_key (org_keys ++ own_keys) xs st m
lock_order_sub false xs st m = buckets_sub fits_key (own_keys ++ org_keys) xs st m

-- An entry is a capped row of the scope.
entry_row :
    (g : Setting) (q : Request) (b : Books) (st : BudgetStatus)
    → In st (entries_of g q b)
    → (r : Budget) × In r b.rows × (in_scope q.workstream r ≡ true) × (st ≡ entry g q b r)
unfolding entries_of
entry_row g q b st m =
    let (r, i, e) =
      In-map (entry g q b) (keep (λ r. in_scope q.workstream r && is_capped r) b.rows) st
        (lock_order_sub (g.org_first q.workstream) _ st m) in
    let (k, p) = In-keep (λ r. in_scope q.workstream r && is_capped r) b.rows r i in
    (r, k, left (in_scope q.workstream r) (is_capped r) p, e)
  where
    left : (x y : Bool) → (x && y) ≡ true → x ≡ true
    left true y h = refl
    left false y h = h

-- The row is of the workstream, or of the org.
abbrev pub Concerns : Request → Budget → Type 0
Concerns q r = (r.workstream ≡ q.workstream) ⊎ (r.workstream ≡ "__org__")

in_scope-Concerns : (q : Request) (r : Budget) → (in_scope q.workstream r ≡ true) ↔ Concerns q r
unfolding in_scope is_org
in_scope-Concerns q r = (forth, back)
  where
    forth :
        (str_eq r.workstream q.workstream || str_eq r.workstream "__org__") ≡ true → Concerns q r
    forth h = elim (Bool-cases (str_eq r.workstream q.workstream)) [
      | inl e ↦ inl ((eq_iff r.workstream q.workstream).0 e)
      | inr e ↦ inr ((eq_iff r.workstream "__org__").0 (rw e at h))
    ]

    or_right : (a : Bool) → (a || true) ≡ true
    or_right true = refl
    or_right false = refl

    back : Concerns q r → (str_eq r.workstream q.workstream || str_eq r.workstream "__org__") ≡ true
    back (inl e) = rw ((eq_iff r.workstream q.workstream).1 e) refl
    back (inr e) = rw ((eq_iff r.workstream "__org__").1 e) (or_right _)

-- A row without caps has room for any call.
uncapped-HasRoom :
    (g : Setting) (q : Request) (b : Books) (r : Budget) → is_capped r ≡ false → HasRoom g q b r
unfolding is_capped
uncapped-HasRoom g q b r h =
    let (u, t) = no_caps r.cap_usd r.cap_tokens h in
    (λ limit e. cc, λ limit e. cc, λ n. ((λ part limit f e. cc), (λ part limit f e. cc)))
  where
    no_caps : (x y : Option ℕ) → not (is_none x && is_none y) ≡ false → (x ≡ none) × (y ≡ none)
    no_caps none none h = (refl, refl)
    no_caps none (some y) h = cc
    no_caps (some x) y h = cc

-- For a call in a named workstream and with a sink that takes every event, `enforce` returns exactly
-- when every row of the workstream and every row of the org has room for it: what the calls of the
-- row's window have used (those of the workstream, or all of them for an org row), what is held for
-- calls in flight and the estimate are together within the caps of the row, in money and in tokens,
-- and for a normal call short of the reserve fraction of each cap. Otherwise it raises.
pub enforce_iff :
    (g : Setting) (q : Request) (b : Books)
    → ((e : BudgetEvent) → g.accepts e ≡ true)
    → str_eq q.workstream "" ≡ false
    → (is_ok (enforce g q b).0 ≡ true)
      ↔ ((r : Budget) → In r b.rows → Concerns q r → HasRoom g q b r)
enforce_iff g q b all_in named =
    let (out, back) = enforce-entries g q b all_in named in
    (
      λ h r m c. elim (Bool-cases (is_capped r)) [
        | inr e ↦ uncapped-HasRoom g q b r e
        | inl e ↦
            (Passes-HasRoom g q b r).0
              (out h (entry g q b r) (entries_of-In g q b r m ((in_scope-Concerns q r).1 c) e))
      ],
      λ k. back (λ st m.
          let (r, i, s, e) = entry_row g q b st m in
          subst (Passes q.purpose) (sym e)
            ((Passes-HasRoom g q b r).1 (k r i ((in_scope-Concerns q r).0 s)))),
    )
