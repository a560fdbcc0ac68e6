-- ===== src/TaskState.antt =====
-- runtime/task_state.py (the lifecycle of a task) and `TaskStatus` of runtime/models.py.
-- A status travels as its wire string; `of_wire` finds the member of the enumeration.
pub mod Lifecycle
pub mod Acyclic
use ai_studio.Prelude.{
  ℕ, String, Bool, true, false, Option, none, some, List, [], ◌∷◌, ◌==◌, str_eq, any, find?,
  if◌then◌else◌, Result, ok, err,
}

pub data Status : Type 0 where
  up_for_grabs claimed in_progress blocked ready_for_review reviewer_blocked : Status
  approved merged abandoned : Status

-- The place of a member in the enumeration, by which two members are compared.
abbrev index : Status → ℕ
index up_for_grabs = 0
index claimed = 1
index in_progress = 2
index blocked = 3
index ready_for_review = 4
index reviewer_blocked = 5
index approved = 6
index merged = 7
index abandoned = 8

unfoldable pub status_eq : Status → Status → Bool
status_eq a b = index a == index b

unfoldable pub wire : Status → String
wire up_for_grabs = "up_for_grabs"
wire claimed = "claimed"
wire in_progress = "in_progress"
wire blocked = "blocked"
wire ready_for_review = "ready_for_review"
wire reviewer_blocked = "reviewer_blocked"
wire approved = "approved"
wire merged = "merged"
wire abandoned = "abandoned"

-- `STATES`, in the order of the enumeration.
abbrev pub states : List Status
states =
    up_for_grabs ∷ claimed ∷ in_progress ∷ blocked ∷ ready_for_review ∷ reviewer_blocked ∷ approved
    ∷ merged ∷ abandoned ∷ []

unfoldable pub of_wire : String → Option Status
unfolding wire
of_wire s = find? (λ a. str_eq (wire a) s) states

-- `TERMINAL`
abbrev pub terminal_states : List Status
terminal_states = merged ∷ abandoned ∷ []

-- `TRANSITIONS`
unfoldable pub transitions : Status → List Status
transitions up_for_grabs = claimed ∷ abandoned ∷ []
transitions claimed = in_progress ∷ up_for_grabs ∷ abandoned ∷ []
transitions in_progress = ready_for_review ∷ blocked ∷ abandoned ∷ up_for_grabs ∷ []
transitions blocked = in_progress ∷ abandoned ∷ up_for_grabs ∷ []
transitions ready_for_review = approved ∷ reviewer_blocked ∷ abandoned ∷ []
transitions reviewer_blocked = in_progress ∷ abandoned ∷ []
transitions approved = merged ∷ abandoned ∷ []
transitions merged = []
transitions abandoned = []

-- `to in TRANSITIONS[frm]`, on members.
unfoldable pub allowed : Status → Status → Bool
unfolding transitions status_eq
allowed frm to = any (status_eq to) (transitions frm)

-- `can_transition` on wire strings: an unknown source has no transitions, and the target is only
-- looked up among them.
unfoldable pub can_transition : String → String → Bool
unfolding transitions wire
can_transition frm to = elim (of_wire frm) [
  | none ↦ false
  | some a ↦ any (λ b. str_eq to (wire b)) (transitions a)
]

-- `IllegalTransition`, with its three messages.
pub data TransitionError : Type 0 where
  unknown_source : String → TransitionError
  unknown_target : String → TransitionError
  illegal : Status → Status → TransitionError

-- `assert_transition`
unfoldable pub assert_transition : String → String → Result TransitionError (Unit {0})
assert_transition frm to = elim (of_wire frm) [
  | none ↦ err (unknown_source frm)
  | some a ↦ elim (of_wire to) [
    | none ↦ err (unknown_target to)
    | some b ↦ if allowed a b then ok tt else err (illegal a b)
  ]
]

unfoldable pub is_terminal : String → Bool
unfolding wire
is_terminal s = any (λ a. str_eq (wire a) s) terminal_states
