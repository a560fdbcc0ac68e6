-- ===== src/Tasks/Views.antt =====
-- The lists that runtime/tasks.py reads for a dispatcher, a reviewer, an approver and the
-- supervisor, and `is_stale` of runtime/models.py. Rows that ORDER BY leaves equal stand as in the
-- table.
pub mod Staleness
pub mod Readiness
use ai_studio.Prelude.{
  ℕ, ◌-◌, String, Bool, true, false, Option, none, some, List, [], ◌∷◌, any, keep, map, ltb, lt_int,
  ◌==◌, ◌&&◌, ◌||◌, not, is_none, if◌then◌else◌, sort_by, take,
}
use ai_studio.TaskState.{
  Status, up_for_grabs, claimed, in_progress, blocked, ready_for_review, merged, abandoned,
  status_eq,
}
use ai_studio.Db.{Db, Task, Assignee}
use ai_studio.Tasks.Grab.{unmet, assignee_fits, workstream_fits}
use ai_studio.Tasks.Finish.{held}

-- ORDER BY created_at ASC
abbrev pub older : Task → Task → Bool
older a b = ltb a.created_at b.created_at

-- ORDER BY priority DESC, created_at ASC
abbrev pub more_urgent : Task → Task → Bool
more_urgent a b =
    if lt_int a.priority b.priority
    then false
    else if lt_int b.priority a.priority
    then true
    else older a b

abbrev pub limited : Option ℕ → List Task → List Task
limited none ts = ts
limited (some n) ts = take n ts

abbrev pub is_ready : Option Assignee → Option String → List Task → Task → Bool
is_ready assignee workstream tasks t =
    status_eq t.status up_for_grabs
    && assignee_fits assignee t
    && workstream_fits workstream t
    && not (unmet tasks t)

unfoldable pub ready_tasks : Option Assignee → Option String → Option ℕ → Db → List Task
unfolding unmet
ready_tasks assignee workstream limit db =
    limited limit (sort_by more_urgent (keep (is_ready assignee workstream db.tasks) db.tasks))

-- What `waiting_tasks` says of a task.
pub record Waiting : Type 0 where
  pub task : Task
  pub pending_prereqs : List ℕ
  pub blocked_by_abandoned : Bool

-- `cardinality(depends_on) > 0`
abbrev pub has_prereqs : Task → Bool
has_prereqs t = elim t.depends_on [ [] ↦ false | d ∷ ds ↦ true ]

abbrev pub is_waiting : Option String → List Task → Task → Bool
is_waiting workstream tasks t =
    status_eq t.status up_for_grabs
    && has_prereqs t
    && workstream_fits workstream t
    && unmet tasks t

-- WHERE id = ANY(depends_on) AND status <> 'merged'
unfoldable pub pending : List Task → Task → List Task
pending tasks t =
    keep (λ p. any (λ d. d == p.id) t.depends_on && not (status_eq p.status merged)) tasks

abbrev pub waiting_of : List Task → Task → Waiting
waiting_of tasks t =
    let rows = pending tasks t in
    record {
      task = t;
      pending_prereqs = map (λ p. p.id) rows;
      blocked_by_abandoned = any (λ p. status_eq p.status abandoned) rows;
    }

unfoldable pub waiting_tasks : Option String → Db → List Waiting
unfolding unmet pending
waiting_tasks workstream db =
    map (waiting_of db.tasks) (sort_by older (keep (is_waiting workstream db.tasks) db.tasks))

unfoldable pub find_blocked_tasks : Db → List Task
find_blocked_tasks db = sort_by older (keep (λ t. status_eq t.status blocked) db.tasks)

unfoldable pub list_for_review : Option String → Option ℕ → Db → List Task
list_for_review workstream limit db = limited limit (
    sort_by more_urgent
      (keep (λ t. status_eq t.status ready_for_review && workstream_fits workstream t) db.tasks))

-- heartbeat_at IS NULL OR heartbeat_at < now() - threshold; a moment is not negative.
abbrev pub silent : ℕ → ℕ → Option ℕ → Bool
silent threshold now none = true
silent threshold now (some beat) = ltb beat (now - threshold)

-- ORDER BY heartbeat_at ASC NULLS FIRST
abbrev pub silent_longer : Option ℕ → Option ℕ → Bool
silent_longer none none = false
silent_longer none (some b) = true
silent_longer (some a) none = false
silent_longer (some a) (some b) = ltb a b

unfoldable pub find_stale_tasks : ℕ → Db → List Task
unfolding held
find_stale_tasks threshold db =
    sort_by (λ a b. silent_longer a.heartbeat_at b.heartbeat_at)
      (keep (λ t. held t && silent threshold db.clock t.heartbeat_at) db.tasks)

-- The age of a heartbeat is `now - heartbeat`; one that is not in the past has no age.
abbrev pub beat_too_old : ℕ → ℕ → Option ℕ → Bool
beat_too_old threshold now none = true
beat_too_old threshold now (some beat) = ltb threshold (now - beat)

-- `is_stale` of runtime/models.py
unfoldable pub is_stale : Task → ℕ → ℕ → Bool
is_stale t threshold now =
    if status_eq t.status claimed || status_eq t.status in_progress
    then beat_too_old threshold now t.heartbeat_at
    else false
