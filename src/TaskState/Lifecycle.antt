-- ===== src/TaskState/Lifecycle.antt =====
-- Laws of the lifecycle of runtime/task_state.py: wire strings, terminal states, reachability.
use ai_studio.Prelude.{
  String, true, false, some, List, [], ◌∷◌, ◌≡◌, ◌≢◌, ◌↔◌, ◌⊎◌, inl, inr, refl, sym, arith, eq_iff,
  ok, err, str_eq, find?-eq-some,
}
use ai_studio.TaskState.{
  Status, up_for_grabs, claimed, in_progress, blocked, ready_for_review, reviewer_blocked, approved,
  merged, abandoned, states, status_eq, wire, of_wire, transitions, allowed, assert_transition,
  is_terminal, illegal,
}

pub of_wire-wire : (a : Status) → of_wire (wire a) ≡ some a
unfolding of_wire
of_wire-wire up_for_grabs = refl
of_wire-wire _ = refl

pub status_eq_refl : (a : Status) → status_eq a a ≡ true
unfolding status_eq
status_eq_refl up_for_grabs = refl
status_eq_refl _ = refl

pub status_eq→eq : (a b : Status) → status_eq a b ≡ true → a ≡ b
unfolding status_eq
status_eq→eq up_for_grabs b h = ground arith
status_eq→eq _ b h = ground arith

-- A string stands for a member exactly when it is the member's wire string.
pub of_wire-eq-some_iff : (s : String) (a : Status) → (of_wire s ≡ some a) ↔ (s ≡ wire a)
of_wire-eq-some_iff s a = (
  λ h. sym (
      (eq_iff (wire a) s).0
        ((find?-eq-some (λ b. str_eq (wire b) s) states a (unfold of_wire in h)).1)),
  λ h. rw h (of_wire-wire a),
)

pub assert_transition-wire :
    (a b : Status) → allowed a b ≡ true → assert_transition (wire a) (wire b) ≡ ok tt
unfolding assert_transition
assert_transition-wire a b h = ground (arith, of_wire-wire a, of_wire-wire b)

pub assert_transition_refused :
    (a b : Status) → allowed a b ≡ false → assert_transition (wire a) (wire b) ≡ err (illegal a b)
unfolding assert_transition
assert_transition_refused a b h = ground (arith, of_wire-wire a, of_wire-wire b)

-- `is_terminal` on a member.
abbrev pub IsTerminal : Status → Type 0
IsTerminal a = is_terminal (wire a) ≡ true

-- A status is terminal exactly when no transition leaves it.
pub IsTerminal-iff : (a : Status) → IsTerminal a ↔ ((b : Status) → allowed a b ≡ false)
unfolding is_terminal allowed transitions wire status_eq
IsTerminal-iff merged = (λ h b. refl, λ h. refl)
IsTerminal-iff abandoned = (λ h b. refl, λ h. refl)
IsTerminal-iff a = (λ h. absurd (ground arith), λ h. absurd (ground (arith, h abandoned)))

-- Every status that is not terminal may be dropped.
pub allowed-abandoned : (a : Status) → is_terminal (wire a) ≡ false → allowed a abandoned ≡ true
unfolding is_terminal allowed transitions wire status_eq
allowed-abandoned merged h = ground arith
allowed-abandoned a h = ground arith

-- The legal runs from a status, with the statuses entered on the way.
pub data Run : Status → List Status → Status → Type 0 where
  here : {a : Status} → Run a [] a
  hop :
      {a b c : Status} {path : List Status} → allowed a b ≡ true → Run b path c → Run a (b ∷ path) c

-- Work can always be finished: a run leads from every status but `abandoned` to `merged`.
pub Run-merged : (a : Status) → a ≢ abandoned → (path : List Status) × Run a path merged
unfolding allowed transitions status_eq
Run-merged merged h = ([], here)
Run-merged approved h = (_, hop refl here)
Run-merged ready_for_review h = (_, hop {b = approved} refl (hop refl here))
Run-merged in_progress h =
    (_, hop {b = ready_for_review} refl (hop {b = approved} refl (hop refl here)))
Run-merged reviewer_blocked h = (
  _,
  hop {b = in_progress} refl
      (hop {b = ready_for_review} refl (hop {b = approved} refl (hop refl here))),
)
Run-merged blocked h = (
  _,
  hop {b = in_progress} refl
      (hop {b = ready_for_review} refl (hop {b = approved} refl (hop refl here))),
)
Run-merged claimed h = (
  _,
  hop {b = in_progress} refl
      (hop {b = ready_for_review} refl (hop {b = approved} refl (hop refl here))),
)
Run-merged up_for_grabs h = (
  _,
  hop {b = claimed} refl (
      hop {b = in_progress} refl
        (hop {b = ready_for_review} refl (hop {b = approved} refl (hop refl here)))),
)
Run-merged abandoned h = absurd (h refl)

-- The statuses in which a task has not been through review.
abbrev pub Unreviewed : Status → Type 0
Unreviewed a = (a ≢ approved) × (a ≢ merged)

allowed-approved : (a : Status) → allowed a approved ≡ true → a ≡ ready_for_review
unfolding allowed transitions status_eq
allowed-approved up_for_grabs h = ground arith
allowed-approved _ h = ground arith

allowed-merged : (a : Status) → allowed a merged ≡ true → a ≡ approved
unfolding allowed transitions status_eq
allowed-merged up_for_grabs h = ground arith
allowed-merged _ h = ground arith

-- `y` is entered directly from `x` somewhere on the run that starts at `a`.
abbrev pub Enters : Status → Status → Status → List Status → Type 0
Enters x y a [] = ⊥
Enters x y a (b ∷ path) = ((a ≡ x) × (b ≡ y)) ⊎ Enters x y b path

-- Nothing is merged unreviewed: a legal run to `merged` from a status that is neither `approved`
-- nor `merged` enters `approved` directly from `ready_for_review`.
pub Run-merged_reviewed :
    {a : Status} {path : List Status}
    → Run a path merged
    → Unreviewed a
    → Enters ready_for_review approved a path
Run-merged_reviewed here u = absurd (u.1 refl)
Run-merged_reviewed {a} (hop {b = approved} h r) u = inl (allowed-approved a h, refl)
Run-merged_reviewed {a} (hop {b = merged} h r) u = absurd (u.0 (allowed-merged a h))
Run-merged_reviewed (hop {b = b} h r) u = inr (Run-merged_reviewed r ((λ e. cc), (λ e. cc)))

-- A run from a terminal status stays where it is.
pub Run-terminal : {a b : Status} {path : List Status} → IsTerminal a → Run a path b → path ≡ []
Run-terminal t here = refl
Run-terminal {a} t (hop {b = c} h r) = cc (h, (IsTerminal-iff a).0 t c)
