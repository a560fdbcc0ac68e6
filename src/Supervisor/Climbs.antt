-- ===== src/Supervisor/Climbs.antt =====
-- One rung of the ladder on a task that is stored as the sweep read it: what a rung makes of the
-- row, and the hops that its guards let pass. Climbs/Rungs has each rung.
pub mod Rungs
use ai_studio.Prelude.{
  ℕ, ◌+◌, ◌==◌, String, Bool, true, false, Option, none, some, List, [], ◌∷◌, ◌++◌, ◌≡◌, ◌⊎◌, inl,
  inr, refl, sym, subst, ◌∙◌, ap, arith, Bool-cases, ==_refl, is_none, str_eq, ok, ◌&&◌, ◌||◌,
  if◌then◌else◌,
}
use ai_studio.TaskState.{
  Status, up_for_grabs, claimed, in_progress, abandoned, status_eq, allowed, transitions, wire,
  is_terminal,
}
use ai_studio.TaskState.Lifecycle.{status_eq→eq, status_eq_refl}
use ai_studio.Db.{Db, Task, Event, task_rekicked, task_nudge, task_stuck, task_failed_exhausted}
use ai_studio.Db.Action.{append_event_named, Outcome, log, new_event}
use ai_studio.Tasks.Rows.{find_task, update_task, returning, find_task-update_task, find_task-id}
use ai_studio.Tasks.Transition.{Options, apply_sets, assigns_twice, expected, transition}
use ai_studio.Tasks.Transition.Laws.{apply_sets-keeps, moves, after, transition_found}
use ai_studio.Tasks.Finish.{held, first_hop, update_returning, complete_task}
use ai_studio.Tasks.Recovery.{
  rekick_options, made_progress, task_made_progress, rekick_task, nudge_task, escalate_stuck_task,
  superseding, count_progress, open_nudge, set_reason,
}
use ai_studio.Supervisor.{
  Ladder, Rung, nudging, deferring, escalating, failing, rekicking, climb, rekick, escalate_stuck,
  fail_exhausted, exhausted, reason_of,
}

-- What a rung makes of a task `t`; `now` is the moment of the database.
abbrev pub Handled : Rung → Task → ℕ → Task → Type 0
Handled nudging t now u =
    (u.nudged_at ≡ some now)
    × (u.status ≡ t.status)
    × (u.claimed_by ≡ t.claimed_by)
    × (u.retries ≡ t.retries)
Handled deferring t now u = u ≡ t
Handled escalating t now u =
    (u.status ≡ abandoned) × (u.stall_reason ≡ some (reason_of t.stall_reason))
Handled failing t now u = u.status ≡ abandoned
Handled rekicking t now u =
    (u.status ≡ up_for_grabs)
    × (u.claimed_by ≡ none)
    × (u.heartbeat_at ≡ none)
    × (u.nudged_at ≡ none)
    × (u.retries ≡ t.retries + 1)

-- The rung acted: it returned a task, and changed the row of its own task only.
pub record Climbed (k : Rung) (t : Task) (db : Db) (r : Outcome (Option Task) × Db) : Type 0 where
  pub task : Task
  pub returned : r.0 ≡ ok (some task)
  pub row : Task
  pub stored : find_task t.id r.1.tasks ≡ some row
  pub handled : Handled k t db.clock row
  pub others : (j : ℕ) → (t.id == j) ≡ false → find_task j r.1.tasks ≡ find_task j db.tasks
  pub clock : r.1.clock ≡ db.clock

held-cases : (t : Task) → held t ≡ true → (t.status ≡ claimed) ⊎ (t.status ≡ in_progress)
unfolding held
held-cases t h = elim (Bool-cases (status_eq t.status claimed)) [
  | inl e ↦ inl (status_eq→eq t.status claimed e)
  | inr e ↦ inr (status_eq→eq t.status in_progress (ground arith))
]

-- The hops of the ladder that their guards let pass.
pub rekick-moves :
    (t : Task)
    → held t ≡ true
    → str_eq t.workstream "" ≡ false
    → moves rekick_options up_for_grabs t ≡ true
unfolding moves expected assigns_twice allowed
rekick-moves t h n = elim (held-cases t h) [ inl e ↦ rw (e, n) refl | inr e ↦ rw (e, n) refl ]

pub escalate-moves :
    (reason : String) (rekicks retries : ℕ) (t : Task)
    → held t ≡ true
    → str_eq t.workstream "" ≡ false
    → moves (first_hop (superseding reason rekicks retries)) abandoned t ≡ true
unfolding moves expected assigns_twice allowed
escalate-moves reason rekicks retries t h n = elim (held-cases t h) [
  | inl e ↦ rw (e, n) refl
  | inr e ↦ rw (e, n) refl
]

pub exhaust-moves :
    (max_retries : ℕ) (s t : Task)
    → held t ≡ true
    → str_eq t.workstream "" ≡ false
    → moves (first_hop (exhausted s max_retries)) abandoned t ≡ true
unfolding moves expected assigns_twice allowed
exhaust-moves max_retries s t h n = elim (held-cases t h) [
  | inl e ↦ rw (e, n) refl
  | inr e ↦ rw (e, n) refl
]
