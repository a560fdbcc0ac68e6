-- ===== src/Supervisor/Loop.antt =====
-- runtime/supervisor.py: `GraceTracker`, `supervised_sweep` and the loop of `run`. The readings of
-- the monotonic clock within a turn stand as the time that has passed before each, so the clock
-- never goes back. Before a turn other processes have made any calls of the queue.
pub mod Graced
use ai_studio.Prelude.{
  ℕ, ◌+◌, ◌-◌, Bool, true, false, Option, none, some, List, [], ◌∷◌, ◌++◌, ◌&&◌, ◌||◌, not, ltb,
  leb, if◌then◌else◌, Result, ok, err,
}
use ai_studio.Db.{Db}
use ai_studio.Supervisor.{Ladder, SweepResult, sweep}
use ai_studio.Tasks.Calls.{Call, run}

-- `GraceTracker`
pub record GraceTracker : Type 0 where
  pub grace : ℕ
  pub db_down : Bool
  pub grace_until : Option ℕ

-- `GraceTracker(grace_s)`
abbrev pub new_tracker : ℕ → GraceTracker
new_tracker grace = record { grace = grace; db_down = false; grace_until = none }

unfoldable pub note_failure : GraceTracker → GraceTracker
note_failure g = record g { db_down = true }

unfoldable pub note_connected : ℕ → GraceTracker → GraceTracker
note_connected now g = record g {
  db_down = false;
  grace_until = if g.db_down && ltb 0 g.grace then some (now + g.grace) else g.grace_until;
}

-- The answer, and the tracker, which clears a window that has elapsed.
unfoldable pub in_grace : ℕ → GraceTracker → Bool × GraceTracker
in_grace now g = elim g.grace_until [
  | none ↦ (false, g)
  | some deadline ↦ if leb deadline now then (false, record g { grace_until = none }) else (true, g)
]

unfoldable pub grace_remaining : ℕ → GraceTracker → ℕ
grace_remaining now g = elim g.grace_until [ none ↦ 0 | some deadline ↦ deadline - now ]

-- What can go wrong in a sweep outside the handling of one task: the query for stale tasks fails.
pub data Fault : Type 0 where
  operational_error other_error : Fault

-- `supervised_sweep`: `none` where the sweep was deferred.
unfoldable pub supervised_sweep :
    ℕ
    → Ladder
    → Option Fault
    → GraceTracker
    → Db
    → Result Fault (Option SweepResult) × GraceTracker × Db
supervised_sweep now l fault g db =
    let (deferred, g') = in_grace now g in
    if deferred then (ok none, g', db) else elim fault [
      | some e ↦ (err e, g', db)
      | none ↦ let (r, db') = sweep l db in (ok (some r), g', db')
    ]

-- What one turn of the loop meets.
pub record Turn : Type 0 where
  pub calls : List Call  -- of other processes, since the last turn
  pub ladder : Ladder
  pub dropped : Bool  -- `conn.closed`
  pub connects : Bool  -- `connect_with_retry` returns, or raises `DBUnavailable`
  pub before_connected : ℕ
  pub before_sweep : ℕ
  pub fault : Option Fault

-- The variables of `run`; `has_conn` is `conn is not None`.
pub record Loop : Type 0 where
  pub has_conn : Bool
  pub grace : GraceTracker
  pub clock : ℕ
  pub db : Db

-- What a turn did, in order.
pub data Mark : Type 0 where
  failed : Mark
  connected swept : ℕ → Mark

unfoldable pub lose_connection : Loop → Loop
lose_connection s = record s { has_conn = false; grace = note_failure s.grace }

-- What the loop does with the outcome of a pass: its `except` clauses.
abbrev pub passed : ℕ → Result Fault (Option SweepResult) → Loop → List Mark × Loop
passed now (ok none) s = ([], s)
passed now (ok (some r)) s = (swept now ∷ [], s)
passed now (err operational_error) s = (failed ∷ [], lose_connection s)
passed now (err other_error) s = ([], record s { has_conn = false })

-- The `try` block once there is a connection.
unfoldable pub try_sweep : Turn → Loop → List Mark × Loop
try_sweep t s =
    let now = s.clock + t.before_sweep in
    let (outcome, g, db) = supervised_sweep now t.ladder t.fault s.grace s.db in
    passed now outcome (record s { grace = g; clock = now; db = db })

abbrev pub connected_at : ℕ → Loop → Loop
connected_at now s = record s { has_conn = true; grace = note_connected now s.grace; clock = now }

-- One turn of `while True`.
unfoldable pub turn : Turn → Loop → List Mark × Loop
turn t s =
    let now = s.clock + t.before_connected in
    let s' = record s { db = run t.calls s.db } in
    if not s.has_conn || t.dropped
    then if t.connects
      then (let (marks, after) = try_sweep t (connected_at now s') in
          (connected now ∷ marks, after))
      else (failed ∷ [], lose_connection (record s' { clock = now }))
    else try_sweep t s'

unfoldable pub run_loop : List Turn → Loop → List Mark × Loop
run_loop [] s = ([], s)
run_loop (t ∷ ts) s =
    let (marks, s') = turn t s in let (more, after) = run_loop ts s' in (marks ++ more, after)
