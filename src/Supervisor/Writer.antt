-- ===== src/Supervisor/Writer.antt =====
-- A sweep is a sequence of writes of the queue.
use ai_studio.Prelude.{ℕ, false, Option, none, some, List, [], ◌∷◌, refl, inr}
use ai_studio.Db.{Db, Task}
use ai_studio.Db.Action.{append_event}
use ai_studio.Tasks.Recovery.{task_made_progress}
use ai_studio.Tasks.Finish.{complete_task}
use ai_studio.Tasks.Writes.{
  Writes, done, Writes-trans, reports_hop, IsWriter, IsWriter-pure, IsWriter-bind,
  IsWriter-transaction, IsWriter-append_event,
}
use ai_studio.Tasks.Writes.Operations.{
  complete_task-IsWriter, nudge_task-IsWriter, rekick_task-IsWriter, escalate_stuck_task-IsWriter,
}
use ai_studio.Tasks.Views.{find_stale_tasks}
use ai_studio.Supervisor.{
  Ladder, Rung, nudging, deferring, escalating, failing, rekicking, rung, climb, rekick,
  escalate_stuck, fail_exhausted, emit_exhausted, exhausted, SweepResult, sweep_tasks, sweep,
}

rekick-IsWriter : (t : Task) → IsWriter false (rekick t)
unfolding rekick task_made_progress
rekick-IsWriter t =
    IsWriter-bind (task_made_progress t.id) _ (record { writes = λ db. done })
      (λ made. rekick_task-IsWriter t.id (some made))

emit_exhausted-IsWriter :
    (t : Task) (max_retries : ℕ) (o : Option Task) → IsWriter false (emit_exhausted t max_retries o)
unfolding reports_hop
emit_exhausted-IsWriter t max_retries none = IsWriter-pure none
emit_exhausted-IsWriter t max_retries (some f) =
    IsWriter-bind (append_event _ _ _) _ (IsWriter-append_event _ _ _ refl) (λ _. IsWriter-pure _)

climb-IsWriter : (l : Ladder) (t : Task) (k : Rung) → IsWriter false (climb l t k)
unfolding climb escalate_stuck fail_exhausted
climb-IsWriter l t nudging = nudge_task-IsWriter t.id l.nudge_grace
climb-IsWriter l t deferring = IsWriter-pure (some t)
climb-IsWriter l t escalating = escalate_stuck_task-IsWriter t.id _ _ _
climb-IsWriter l t failing = IsWriter-transaction _ (
    IsWriter-bind (complete_task t.id (exhausted t l.max_retries)) _
      (complete_task-IsWriter t.id _ (inr refl)) (emit_exhausted-IsWriter t l.max_retries))
climb-IsWriter l t rekicking = rekick-IsWriter t

sweep_tasks-Writes :
    (l : Ladder) (ts : List Task) (r : SweepResult) (db : Db)
    → Writes false db (sweep_tasks l ts r db).1
unfolding sweep_tasks
sweep_tasks-Writes l [] r db = done
sweep_tasks-Writes l (t ∷ ts) r db =
    Writes-trans ((climb-IsWriter l t (rung l t)).writes db)
      (sweep_tasks-Writes l ts _ (climb l t (rung l t) db).1)

pub sweep-Writes : (l : Ladder) (db : Db) → Writes false db (sweep l db).1
unfolding sweep
sweep-Writes l db = sweep_tasks-Writes l (find_stale_tasks l.threshold db) _ db
