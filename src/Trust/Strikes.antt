-- ===== src/Trust/Strikes.antt =====
-- The ledger after any calls: what a strike costs an identity, and that nothing gives it back.
use ai_studio.Prelude.{
  ℕ, suc, ◌+◌, String, Bool, true, false, Option, none, some, List, [], ◌∷◌, ◌++◌, ◌≡◌, ◌⊎◌, inl,
  inr, refl, sym, ◌∙◌, ap, subst, arith, ◌||◌, not, str_eq, eq_iff, any, count, Bool-cases,
  Option-cases, if◌then◌else◌,
}
use ai_studio.Db.{IdentityTrust}
use ai_studio.Tasks.Grab.{find_trust, fenced}
use ai_studio.Enforce.Grants.{count-append}
use ai_studio.Trust.{
  TrustEvent, fabrication_detected, trust_strike, Ledger, new_trust, ensure_trust, update_trust,
  struck, emit_strike, capability_revoked,
}

-- The events of a strike against an identity, and of a fabrication.
abbrev pub is_strike : String → TrustEvent → Bool
is_strike i (trust_strike j claim kind n) = str_eq j i
is_strike i _ = false

abbrev pub is_fabrication : String → TrustEvent → Bool
is_fabrication i (fabrication_detected j claim kind n) = str_eq j i
is_fabrication i _ = false

any-append :
    {A : Type 0} (p : A → Bool) (xs ys : List A) → any p (xs ++ ys) ≡ (any p xs || any p ys)
any-append p [] ys = refl
any-append p (x ∷ xs) ys = let ih = any-append p xs ys in ground arith

-- A lookup after an update of the row, and of another row.
find_trust-update_trust :
    (i : String) (f : IdentityTrust → IdentityTrust) (rows : List IdentityTrust)
    → ((r : IdentityTrust) → str_eq (f r).identity i ≡ str_eq r.identity i)
    → find_trust i (update_trust i f rows)
      ≡ elim (find_trust i rows) [ none ↦ none | some r ↦ some (f r) ]
unfolding find_trust update_trust
find_trust-update_trust i f [] k = refl
find_trust-update_trust i f (r ∷ rows) k = elim (Bool-cases (str_eq r.identity i)) [
  | inl e ↦ let d = k r ∙ e in rw (e, d) refl
  | inr e ↦ rw e (rw e (find_trust-update_trust i f rows k))
]

find_trust-update_other :
    (i j : String) (f : IdentityTrust → IdentityTrust) (rows : List IdentityTrust)
    → ((r : IdentityTrust) → str_eq (f r).identity i ≡ str_eq r.identity i)
    → str_eq j i ≡ false
    → find_trust i (update_trust j f rows) ≡ find_trust i rows
unfolding find_trust update_trust
find_trust-update_other i j f [] k h = refl
find_trust-update_other i j f (r ∷ rows) k h = elim (Bool-cases (str_eq r.identity j)) [
  | inl e ↦
      let same : r.identity ≡ j = (eq_iff r.identity j).0 e in
      let c : str_eq r.identity i ≡ false = subst (λ s. str_eq s i ≡ false) (sym same) h in
      let d = k r ∙ c in rw (e, c, d) refl
  | inr e ↦
      rw e (
        ap (λ o. if str_eq r.identity i then some r else o)
          (find_trust-update_other i j f rows k h))
]

find_trust-append :
    (i : String) (rows : List IdentityTrust) (r : IdentityTrust)
    → find_trust i (rows ++ r ∷ []) ≡ elim (find_trust i rows) [
      | some q ↦ some q
      | none ↦ if str_eq r.identity i then some r else none
    ]
unfolding find_trust
find_trust-append i [] r = refl
find_trust-append i (q ∷ rows) r = elim (Bool-cases (str_eq q.identity i)) [
  | inl e ↦ rw e refl
  | inr e ↦ rw e (find_trust-append i rows r)
]

-- What the gate of the queue and the relay read of an identity: strikes, relay and fence.
abbrev pub View : Type 0
View = ℕ × Bool × Bool

abbrev pub view : Option IdentityTrust → View
view none = (0, true, false)
view (some r) = (r.strikes, r.human_relay_allowed, fenced r.trust_state)

abbrev pub view_struck : Bool → View → View
view_struck true (n, relay, fence) = (suc n, false, true)
view_struck false (n, relay, fence) = (suc n, relay, fence)

-- A row that is made by a lookup changes no view, and is there afterwards.
pub ensure_trust-view :
    (now : ℕ) (i j : String) (rows : List IdentityTrust)
    → view (find_trust i (ensure_trust now j rows).1) ≡ view (find_trust i rows)
unfolding ensure_trust fenced
ensure_trust-view now i j rows = elim (Option-cases (find_trust j rows)) [
  | inr (r, e) ↦ rw (ensure_trust, e) refl
  | inl e ↦
      rw (ensure_trust, e, find_trust-append i rows (new_trust now j))
        (appended (find_trust i rows) (Bool-cases (str_eq j i)))
]
  where
    appended :
        (o : Option IdentityTrust)
        → (str_eq j i ≡ true) ⊎ (str_eq j i ≡ false)
        → view (elim o [
          | some q ↦ some q
          | none ↦ if str_eq j i then some (new_trust now j) else none
        ])
          ≡ view o
    appended (some q) c = refl
    appended none (inl c) = rw c refl
    appended none (inr c) = rw c refl

-- A lookup that makes a row finds it afterwards.
pub ensure_trust-found :
    (now : ℕ) (j : String) (rows : List IdentityTrust)
    → find_trust j (ensure_trust now j rows).1 ≡ some (ensure_trust now j rows).0
unfolding ensure_trust
ensure_trust-found now j rows = elim (Option-cases (find_trust j rows)) [
  | inr (r, e) ↦ rw (ensure_trust, e) e
  | inl e ↦
      rw (ensure_trust, e, find_trust-append j rows (new_trust now j), e)
        (rw ((eq_iff j j).1 refl) refl)
]

-- A strike changes the view of its identity alone.
struck-view :
    (b : Bool) (now : ℕ) (r : IdentityTrust)
    → view (some (struck b now r)) ≡ view_struck b (view (some r))
unfolding struck fenced
struck-view true now r = refl
struck-view false now r = refl

struck-identity : (b : Bool) (now : ℕ) (r : IdentityTrust) → (struck b now r).identity ≡ r.identity
unfolding struck
struck-identity true now r = refl
struck-identity false now r = refl

strike-own :
    (j : String) (b : Bool) (clock at : ℕ) (rows : List IdentityTrust)
    → view (find_trust j (update_trust j (struck b at) (ensure_trust clock j rows).1))
      ≡ view_struck b (view (find_trust j rows))
strike-own j b clock at rows =
    let (row, after) = ensure_trust clock j rows in
    let found = ensure_trust-found clock j rows in
    let seen = ensure_trust-view clock j j rows in
    rw
      (
        find_trust-update_trust j (struck b at) after
            (λ r. ap (λ s. str_eq s j) (struck-identity b at r)),
        found,
      )
      (struck-view b at row ∙ ap (view_struck b) (ap view (sym found) ∙ seen))

pub strike-view :
    (i j : String) (b : Bool) (clock at : ℕ) (rows : List IdentityTrust)
    → view (find_trust i (update_trust j (struck b at) (ensure_trust clock j rows).1))
      ≡ (if str_eq j i then view_struck b (view (find_trust i rows)) else view (find_trust i rows))
strike-view i j b clock at rows = elim (Bool-cases (str_eq j i)) [
  | inr e ↦
      rw
        (
          e,
          find_trust-update_other i j (struck b at) (ensure_trust clock j rows).1
              (λ r. ap (λ s. str_eq s i) (struck-identity b at r)) e,
        )
        (ensure_trust-view clock i j rows)
  | inl e ↦
      let same : j ≡ i = (eq_iff j i).0 e in
      rw e (
        subst
          (λ x.
            view (find_trust x (update_trust j (struck b at) (ensure_trust clock j rows).1))
            ≡ view_struck b (view (find_trust x rows)))
          same (strike-own j b clock at rows))
]

-- The books of one identity: its strikes are those of the log, and it is barred from the relay
-- and fenced where the log has a fabrication.
abbrev pub booked : String → List TrustEvent → View
booked i events =
    (count (is_strike i) events, not (any (is_fabrication i) events), any (is_fabrication i) events)

abbrev pub Books : String → Ledger → Type 0
Books i l = view (find_trust i l.trust) ≡ booked i l.events

-- What one event adds to the books.
abbrev pub bump : Bool → Bool → View → View
bump s f (n, relay, fence) =
    (if s then suc n else n, if f then false else relay, if f then true else fence)

arith_suc : (n : ℕ) → n + 1 ≡ suc n
arith_suc n = omega arith

arith_zero : (n : ℕ) → n + 0 ≡ n
arith_zero n = omega arith

bump_cases :
    (n : ℕ) (a s f : Bool)
    → (n + (if s then 1 else 0), not (a || (f || false)), a || (f || false))
      ≡ bump s f (n, not a, a)
bump_cases n true true true = rw (arith_suc n) refl
bump_cases n true true false = rw (arith_suc n) refl
bump_cases n true false true = rw (arith_zero n) refl
bump_cases n true false false = rw (arith_zero n) refl
bump_cases n false true true = rw (arith_suc n) refl
bump_cases n false true false = rw (arith_suc n) refl
bump_cases n false false true = rw (arith_zero n) refl
bump_cases n false false false = rw (arith_zero n) refl

pub booked-append :
    (i : String) (e : TrustEvent) (events : List TrustEvent)
    → booked i (events ++ e ∷ []) ≡ bump (is_strike i e) (is_fabrication i e) (booked i events)
booked-append i e events =
    rw (count-append (is_strike i) events (e ∷ []), any-append (is_fabrication i) events (e ∷ []))
      (bump_cases (count (is_strike i) events) (any (is_fabrication i) events) (is_strike i e)
        (is_fabrication i e))

pub booked-strike :
    (i j : String) (b : Bool) (cid : Option ℕ) (kind : String) (n : ℕ) (l : Ledger)
    → booked i (emit_strike b j cid kind n l).events
      ≡ (if str_eq j i then view_struck b (booked i l.events) else booked i l.events)
booked-strike i j true cid kind n l =
    booked-append i (capability_revoked j cid kind)
      (l.events ++ fabrication_detected j cid kind n ∷ [] ++ trust_strike j cid kind n ∷ [])
    ∙ booked-append i (trust_strike j cid kind n)
        (l.events ++ fabrication_detected j cid kind n ∷ [])
    ∙ ap (bump (str_eq j i) false) (booked-append i (fabrication_detected j cid kind n) l.events)
    ∙ both (Bool-cases (str_eq j i))
  where
    both :
        (str_eq j i ≡ true) ⊎ (str_eq j i ≡ false)
        → bump (str_eq j i) false (bump false (str_eq j i) (booked i l.events))
          ≡ (if str_eq j i then view_struck true (booked i l.events) else booked i l.events)
    both (inl e) = rw e refl
    both (inr e) = rw e refl
booked-strike i j false cid kind n l = elim (Bool-cases (str_eq j i)) [
  | inl e ↦ booked-append i (trust_strike j cid kind n) l.events ∙ rw e refl
  | inr e ↦ booked-append i (trust_strike j cid kind n) l.events ∙ rw e refl
]
