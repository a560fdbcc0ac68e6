-- ===== src/Budget/Amounts.antt =====
-- What a row counts of the calls, and amounts against a cap and a fraction of it.
use ai_studio.Prelude.{
  ℕ, ◌+◌, ◌*◌, ◌≤◌, ◌<◌, Bool, true, false, Option, none, some, List, [], ◌∷◌, ◌++◌, ◌≡◌, ◌↔◌, refl,
  sym, ◌∙◌, ap, arith, ◌&&◌, ◌||◌, any, leb, ltb, str_eq, inl, inr, if◌then◌else◌, Bool-cases,
  subst,
}
use ai_studio.Policy.{over as exceeds}
use ai_studio.Budget.{
  Budget, BudgetStatus, ModelCall, counted, total, scope_of, is_org, ratio, ratios, at_least,
  reached,
}

-- What the calls since `start` have used of a resource, against a row: those of its workstream, or
-- of every workstream for an org row.
abbrev pub used : (ModelCall → ℕ) → ℕ → Budget → List ModelCall → ℕ
used f start r [] = 0
used f start r (c ∷ cs) =
    let rest = used f start r cs in
    if leb start c.ts && (str_eq r.workstream "__org__" || str_eq c.workstream r.workstream)
    then f c + rest
    else rest

-- An amount is within a cap, where there is one.
abbrev pub Fits : Option ℕ → ℕ → Type 0
Fits cap n = (limit : ℕ) → cap ≡ some limit → n ≤ limit

-- An amount is short of a fraction of a cap, in millionths, where both are there and the cap is not 0.
abbrev pub Short : Option ℕ → Option ℕ → ℕ → Type 0
Short frac cap n =
    (part limit : ℕ) → frac ≡ some part → cap ≡ some limit → 0 < limit → n * 1000000 < part * limit

counted_of :
    (start : ℕ) (r : Budget) (c : ModelCall)
    → counted (scope_of r.workstream) start c
      ≡ (leb start c.ts && (str_eq r.workstream "__org__" || str_eq c.workstream r.workstream))
unfolding counted is_org
counted_of start r c = elim (Bool-cases (str_eq r.workstream "__org__")) [
  | inl e ↦ rw e (and_true (leb start c.ts))
  | inr e ↦ rw e (and_comm (str_eq c.workstream r.workstream) (leb start c.ts))
]
  where
    and_true : (a : Bool) → a ≡ (a && true)
    and_true true = refl
    and_true false = refl

    and_comm : (a b : Bool) → (a && b) ≡ (b && a)
    and_comm true true = refl
    and_comm true false = refl
    and_comm false true = refl
    and_comm false false = refl

pub total-used :
    (f : ModelCall → ℕ) (start : ℕ) (r : Budget) (cs : List ModelCall)
    → total f (counted (scope_of r.workstream) start) cs ≡ used f start r cs
total-used f start r [] = refl
total-used f start r (c ∷ cs) =
    step (counted (scope_of r.workstream) start c) _ (f c) (counted_of start r c)
      (total-used f start r cs)
  where
    step :
        (x y : Bool) (n : ℕ) {m k : ℕ}
        → x ≡ y
        → m ≡ k
        → (if x then n else 0) + m ≡ (if y then n + k else k)
    step true true n e h = ap (λ k. n + k) h
    step true false n e h = cc
    step false true n e h = cc
    step false false n e h = omega (arith, h)

pub exceeds-Fits :
    (cap : Option ℕ) (spent held est n : ℕ)
    → n ≡ spent + held + est
    → (exceeds cap spent (est + held) ≡ false) ↔ Fits cap n
exceeds-Fits none spent held est n h = (λ e limit k. cc, λ k. refl)
exceeds-Fits (some c) spent held est n h = (
  λ e limit k. let same : c ≡ limit = ground arith in ground arith,
  λ k. let m = k c refl in ground arith,
)

ratio-Short :
    (cap : Option ℕ) (part n : ℕ)
    → (any (at_least part) (ratio cap n) ≡ false) ↔ Short (some part) cap n
ratio-Short none part n = (λ e p limit h k. cc, λ k. refl)
ratio-Short (some c) part n = elim (Bool-cases (ltb 0 c)) [
  | inr z ↦ rw z (
    λ e p limit h k positive. let same : c ≡ limit = ground arith in absurd (ground arith),
    λ k. refl,
  )
  | inl y ↦ rw y (
    λ e p limit h k positive.
        let same : c ≡ limit = ground arith in
        let part_same : part ≡ p = ground arith in
        let reached_not : leb (part * c) (n * 1000000) ≡ false = ground arith in
        subst (λ a. n * 1000000 < a * limit) part_same
          (subst (λ a. n * 1000000 < part * a) same (below _ _ reached_not)),
    λ k. not_below _ _ (k part c refl refl (positive_of c y)),
  )
]
  where
    below : (a b : ℕ) → leb a b ≡ false → b < a
    below a b h = ground arith

    not_below : (a b : ℕ) → b < a → (leb a b || false) ≡ false
    not_below a b h = ground arith

    positive_of : (c : ℕ) → ltb 0 c ≡ true → 0 < c
    positive_of c h = ground arith

any-append :
    {A : Type 0} (p : A → Bool) (xs ys : List A) → any p (xs ++ ys) ≡ (any p xs || any p ys)
any-append p [] ys = refl
any-append p (x ∷ xs) ys = ground (arith, any-append p xs ys)

or_false : (a b : Bool) → ((a || b) ≡ false) ↔ ((a ≡ false) × (b ≡ false))
or_false true b = (λ h. cc, λ (h, k). cc)
or_false false b = (λ h. (refl, h), λ (h, k). k)

-- A fraction that no resource has reached.
pub reached-Short :
    (frac : Option ℕ) (st : BudgetStatus)
    → (reached frac st ≡ false) ↔ (
        Short frac st.row.cap_usd (st.spend.cost_usd + st.held_usd + st.est_usd)
        × Short frac st.row.cap_tokens (st.spend.tokens + st.held_tokens + st.est_tokens))
unfolding reached ratios
reached-Short none st = (λ e. ((λ p limit h. cc), (λ p limit h. cc)), λ k. refl)
reached-Short (some p) st =
    let usd = ratio st.row.cap_usd (st.spend.cost_usd + st.held_usd + st.est_usd) in
    let tokens = ratio st.row.cap_tokens (st.spend.tokens + st.held_tokens + st.est_tokens) in
    let both = any-append (at_least p) usd tokens in
    let (out, back) = or_false (any (at_least p) usd) (any (at_least p) tokens) in
    let u = ratio-Short st.row.cap_usd p (st.spend.cost_usd + st.held_usd + st.est_usd) in
    let t = ratio-Short st.row.cap_tokens p (st.spend.tokens + st.held_tokens + st.est_tokens) in
    (λ e. let (x, y) = out (sym both ∙ e) in (u.0 x, t.0 y), λ (x, y). both ∙ back (u.1 x, t.1 y))
