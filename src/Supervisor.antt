-- ===== src/Supervisor.antt =====
-- runtime/supervisor.py: one sweep of the recovery ladder over the queue. The window of grace after
-- an outage of the database and the loop stand in Supervisor/Loop. Lengths of time are in microseconds.
pub mod Writer
pub mod Climbs
pub mod Swept
pub mod Loop
use ai_studio.Prelude.{
  ℕ, suc, ◌+◌, String, Bool, true, false, Option, none, some, List, [], ◌∷◌, ◌++◌, ◌&&◌, not, ltb,
  leb, is_none, str_eq, if◌then◌else◌, ok, err,
}
use ai_studio.TaskState.{claimed, in_progress, abandoned}
use ai_studio.Db.{Db, Task, max_retries_exhausted, task_failed_exhausted}
use ai_studio.Db.Action.{Action, Outcome, pure, ◌>>=◌, ◌>>◌, transaction, append_event}
use ai_studio.Tasks.Finish.{Completion, completion, complete_task}
use ai_studio.Tasks.Recovery.{task_made_progress, nudge_task, rekick_task, escalate_stuck_task}
use ai_studio.Tasks.Views.{find_stale_tasks}

-- The arguments of `sweep`; `now` is the clock of the supervisor's process.
pub record Ladder : Type 0 where
  pub threshold : ℕ
  pub max_retries : ℕ
  pub nudge_grace : ℕ
  pub stuck_threshold : ℕ
  pub now : ℕ

-- `_nudge_grace_elapsed`
unfoldable pub nudge_grace_elapsed : Task → (now grace : ℕ) → Bool
nudge_grace_elapsed t now grace = elim t.nudged_at [
  | none ↦ true
  | some nudged ↦ leb (nudged + grace) now
]

-- The rungs, cheapest first.
pub data Rung : Type 0 where
  nudging deferring escalating failing rekicking : Rung

-- The rung that a stale task is on.
unfoldable pub rung : Ladder → Task → Rung
unfolding nudge_grace_elapsed
rung l t =
    if ltb 0 l.nudge_grace && is_none t.nudged_at
    then nudging
    else if ltb 0 l.nudge_grace && not (nudge_grace_elapsed t l.now l.nudge_grace)
    then deferring
    else if leb l.stuck_threshold t.no_progress_rekicks
    then escalating
    else if leb l.max_retries t.retries
    then failing
    else rekicking

-- `_default_rekick`
unfoldable pub rekick : Task → Action (Option Task)
rekick t = do made ← task_made_progress t.id; rekick_task t.id (some made)

-- `task.stall_reason or "no_progress"`
abbrev pub reason_of : Option String → String
reason_of none = "no_progress"
reason_of (some reason) = if str_eq reason "" then "no_progress" else reason

-- `_default_escalate_stuck`
unfoldable pub escalate_stuck : Task → Action (Option Task)
escalate_stuck t =
    escalate_stuck_task t.id (reason_of t.stall_reason) t.no_progress_rekicks t.retries

abbrev pub exhausted : Task → ℕ → Completion
exhausted t max_retries = record completion {
  status = abandoned;
  expected_from = some (claimed ∷ in_progress ∷ []);
  result = some (max_retries_exhausted t.retries max_retries);
}

abbrev pub emit_exhausted : Task → ℕ → Option Task → Action (Option Task)
emit_exhausted t max_retries none = pure none
emit_exhausted t max_retries (some failed) = do
  append_event (some t.id) t.workstream (task_failed_exhausted abandoned t.retries max_retries)
  pure (some failed)

-- `_default_fail_exhausted`
unfoldable pub fail_exhausted : Task → ℕ → Action (Option Task)
fail_exhausted t max_retries =
    transaction (do
      failed ← complete_task t.id (exhausted t max_retries)
      emit_exhausted t max_retries failed)

-- The action of a rung.
unfoldable pub climb : Ladder → Task → Rung → Action (Option Task)
climb l t nudging = nudge_task t.id l.nudge_grace
climb l t deferring = pure (some t)
climb l t escalating = escalate_stuck t
climb l t failing = fail_exhausted t l.max_retries
climb l t rekicking = rekick t

-- `SweepResult`: the tasks that were acted on, by rung.
pub record SweepResult : Type 0 where
  pub scanned : ℕ
  pub nudged : List ℕ
  pub deferred : List ℕ
  pub rekicked : List ℕ
  pub stuck : List ℕ
  pub failed : List ℕ

abbrev pub nothing_swept : SweepResult
nothing_swept = record {
  scanned = 0;
  nudged = [];
  deferred = [];
  rekicked = [];
  stuck = [];
  failed = [];
}

abbrev pub listed : Rung → ℕ → SweepResult → SweepResult
listed nudging id r = record r { nudged = r.nudged ++ id ∷ [] }
listed deferring id r = record r { deferred = r.deferred ++ id ∷ [] }
listed escalating id r = record r { stuck = r.stuck ++ id ∷ [] }
listed failing id r = record r { failed = r.failed ++ id ∷ [] }
listed rekicking id r = record r { rekicked = r.rekicked ++ id ∷ [] }

-- A task that changed before it was handled, and one whose handling raised, is in no list.
abbrev pub note : Rung → ℕ → Outcome (Option Task) → SweepResult → SweepResult
note k id (ok none) r = r
note k id (ok (some t)) r = listed k id r
note k id (err e) r = r

-- The loop: an exception ends the handling of its task only.
unfoldable pub sweep_tasks : Ladder → List Task → SweepResult → Db → SweepResult × Db
unfolding rung climb
sweep_tasks l [] r db = (r, db)
sweep_tasks l (t ∷ ts) r db =
    let (outcome, db') = climb l t (rung l t) db in
    sweep_tasks l ts (note (rung l t) t.id outcome (record r { scanned = suc r.scanned })) db'

unfoldable pub sweep : Ladder → Db → SweepResult × Db
unfolding sweep_tasks
sweep l db = sweep_tasks l (find_stale_tasks l.threshold db) nothing_swept db
