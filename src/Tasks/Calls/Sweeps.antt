-- ===== src/Tasks/Calls/Sweeps.antt =====
-- A sweep of the supervisor on whatever a run of the queue has left.
use ai_studio.Prelude.{ℕ, true, false, some, List, ◌≡◌, In, inl, refl}
use ai_studio.Db.{Task}
use ai_studio.Tasks.Rows.{find_task}
use ai_studio.Tasks.Views.{is_stale}
use ai_studio.Tasks.Writes.Unique.{Writes-Unique}
use ai_studio.Tasks.Writes.Named.{Writes-Named, empty-Named}
use ai_studio.Tasks.Writes.Distinct.{Writes-Distinct, empty-Distinct}
use ai_studio.Tasks.Writes.History.{empty}
use ai_studio.Supervisor.{Ladder, sweep}
use ai_studio.Supervisor.Swept.{Swept, Sound, sweep-Swept, sweep-others}
use ai_studio.Tasks.Calls.{Call, run, run-Writes}

run-Sound : (now : ℕ) (cs : List Call) → Sound (run cs (empty now))
run-Sound now cs =
    let w = run-Writes {forcible = true} cs (empty now) (inl refl) in
    record {
      distinct = Writes-Distinct (empty-Distinct now) w;
      found = Writes-Unique now w;
      named = Writes-Named (empty-Named now) w;
    }

-- After any calls from empty tables, forced or not, a sweep handles every task that is stale: its
-- row is nudged with its claim kept, deferred as it was, abandoned with its reason, abandoned, or
-- put back into the pool with its claim cleared and one more retry, as the rung says on which the
-- task stands, and the result lists it under that rung. No stale task is dropped.
pub run-Swept :
    (now : ℕ) (cs : List Call) (l : Ladder) (t : Task)
    → let db = run cs (empty now) in
      In t db.tasks
      → is_stale t l.threshold db.clock ≡ true
      → Swept l t db.clock (sweep l db).0 (sweep l db).1
run-Swept now cs l t i h = sweep-Swept l (run cs (empty now)) t (run-Sound now cs) i h

-- After any calls from empty tables, forced or not, a sweep leaves the row of every task that is
-- not stale as it was.
pub run_spared :
    (now : ℕ) (cs : List Call) (l : Ladder) (t : Task)
    → let db = run cs (empty now) in
      In t db.tasks
      → is_stale t l.threshold db.clock ≡ false
      → find_task t.id (sweep l db).1.tasks ≡ some t
run_spared now cs l t i h = sweep-others l (run cs (empty now)) t (run-Sound now cs) i h
