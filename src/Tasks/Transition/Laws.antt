-- ===== src/Tasks/Transition/Laws.antt =====
-- What one call of `transition` does to the tables.
use ai_studio.Prelude.{
  ℕ, Bool, true, false, Option, none, some, List, [], ◌∷◌, ◌++◌, ◌≡◌, ◌≢◌, ◌⊎◌, inl, inr, refl,
  arith, ◌&&◌, ◌||◌, not, if◌then◌else◌, ok, err, str_eq, Bool-cases, Option-cases,
}
use ai_studio.TaskState.{Status, status_eq, wire, allowed, is_terminal, illegal}
use ai_studio.TaskState.Lifecycle.{assert_transition-wire, assert_transition_refused}
use ai_studio.Db.{Db, Task, Event, task_transition, task_finished}
use ai_studio.Db.Action.{
  Outcome, Error, rollback, value_error, append_event_named, append_event_unnamed, log, new_event,
  illegal_transition, duplicate_column,
}
use ai_studio.Tasks.Rows.{find_task, update_task}
use ai_studio.Tasks.Transition.{
  Options, expected, apply_sets, assigns_twice, hop_of, check, finished, write_hop, transition_row,
  transition,
}

-- The event log after a hop to `to`; `t` is the updated task.
unfoldable pub hop_events : Db → Task → Status → Status → Options → List Event
hop_events db t current to o =
    let hop = hop_of db t current to o in
    let moved =
      db.events
      ++ new_event db (some t.id) t.workstream
          (task_transition to current to o.agent_id hop.agent_type hop.latency_ms)
        ∷ [] in
    if is_terminal (wire to)
    then moved ++ new_event db (some t.id) t.workstream (task_finished to t.spent_tokens) ∷ []
    else moved

-- The tables after a hop of `row`.
abbrev pub after : Db → Task → Status → Options → Db
after db row to o =
    let t = apply_sets o to db.clock row in
    record db {
      tasks =
          update_task row.id (λ x. status_eq x.status row.status) (apply_sets o to db.clock)
            db.tasks;
      hops = db.hops ++ hop_of db t row.status to o ∷ [];
      events = hop_events db t row.status to o;
    }

finished_named :
    (t : Task) (to : Status) (db : Db)
    → str_eq t.workstream "" ≡ false
    → finished t to db ≡ (
      ok tt,
      if is_terminal (wire to)
          then log (new_event db (some t.id) t.workstream (task_finished to t.spent_tokens)) db
          else db,
    )
unfolding finished
finished_named t to db h = elim (Bool-cases (is_terminal (wire to))) [
  | inl e ↦
      rw (e, append_event_named (some t.id) t.workstream (task_finished to t.spent_tokens) db h)
  | inr e ↦ rw e
]

-- The columns that a hop does not touch, and the status that it sets.
pub record SetsStatus (to : Status) (t t' : Task) : Type 0 where
  pub status : t'.status ≡ to
  pub id : t'.id ≡ t.id
  pub workstream : t'.workstream ≡ t.workstream
  pub depends_on : t'.depends_on ≡ t.depends_on

pub apply_sets-keeps :
    (o : Options) (to : Status) (now : ℕ) (t : Task) → SetsStatus to t (apply_sets o to now t)
unfolding apply_sets
apply_sets-keeps o to now t = record {
  status = refl;
  id = refl;
  workstream = refl;
  depends_on = refl;
}

write_hop_named :
    (row : Task) (to : Status) (o : Options) (db : Db)
    → str_eq row.workstream "" ≡ false
    → write_hop row to o db ≡ (ok (some (apply_sets o to db.clock row)), after db row to o)
unfolding write_hop hop_events apply_sets
write_hop_named row to o db h = elim (Bool-cases (is_terminal (wire to))) [
  | inl e ↦ rw (append_event_named, h) (rw (finished_named, h) (rw e refl))
  | inr e ↦ rw (append_event_named, h) (rw (finished_named, h) (rw e refl))
]

write_hop_unnamed :
    (row : Task) (to : Status) (o : Options) (db : Db)
    → str_eq row.workstream "" ≡ true
    → (write_hop row to o db).0 ≡ err (value_error "event workstream must be non-empty")
unfolding write_hop apply_sets
write_hop_unnamed row to o db h = rw (append_event_unnamed, h) refl

-- The guards under which a found row is moved.
unfoldable pub moves : Options → Status → Task → Bool
moves o to row =
    expected o.expected_from row.status
    && not (status_eq row.status to)
    && (o.force || allowed row.status to)
    && not (assigns_twice o)
    && not (str_eq row.workstream "")

-- Nothing was changed, and no task was returned.
pub record Refuses {A : Type 0} (db : Db) (r : Outcome (Option A) × Db) : Type 0 where
  pub unchanged : r.1 ≡ db
  pub no_task : (a : A) → r.0 ≢ ok (some a)

check-eq-ok :
    (force : Bool) (a b : Status) → (force || allowed a b) ≡ true → check force a b ≡ ok tt
check-eq-ok true a b h = refl
check-eq-ok false a b h = assert_transition-wire a b h

check-eq-err :
    (force : Bool) (a b : Status)
    → (force || allowed a b) ≡ false
    → check force a b ≡ err (illegal a b)
check-eq-err true a b h = cc
check-eq-err false a b h = assert_transition_refused a b h

transition_row-moves :
    (row : Task) (to : Status) (o : Options) (db : Db)
    → moves o to row ≡ true
    → transition_row row to o db ≡ (ok (some (apply_sets o to db.clock row)), after db row to o)
unfolding moves transition_row
transition_row-moves row to o db h =
    let e : expected o.expected_from row.status ≡ true = ground arith in
    let n : status_eq row.status to ≡ false = ground arith in
    let l : (o.force || allowed row.status to) ≡ true = ground arith in
    let a : assigns_twice o ≡ false = ground arith in
    let w : str_eq row.workstream "" ≡ false = ground arith in
    rw (e, n) (rw (check-eq-ok o.force row.status to l) (rw a (write_hop_named row to o db w)))

Refuses-none : (db : Db) → Refuses {A = Task} db (ok none, db)
Refuses-none db = record { unchanged = refl; no_task = λ a q. cc }

Refuses-err :
    (db : Db) (r : Outcome (Option Task) × Db) (e : Error)
    → r.0 ≡ err e
    → Refuses db (rollback db r)
Refuses-err db (ok x, db') e h = cc
Refuses-err db (err x, db') e h = record { unchanged = refl; no_task = λ a q. cc }

transition_row-Refuses :
    (row : Task) (to : Status) (o : Options) (db : Db)
    → moves o to row ≡ false
    → Refuses db (rollback db (transition_row row to o db))
unfolding moves transition_row
transition_row-Refuses row to o db h = elim (Bool-cases (expected o.expected_from row.status)) [
  | inr e ↦ rw e (Refuses-none db)
  | inl e ↦ elim (Bool-cases (status_eq row.status to)) [
    | inl n ↦ rw (e, n) (Refuses-none db)
    | inr n ↦ elim (Bool-cases (o.force || allowed row.status to)) [
      | inr l ↦
          rw (e, n)
            (rw (check-eq-err o.force row.status to l) (
              Refuses-err db (err (illegal_transition (illegal row.status to)), db)
                (illegal_transition (illegal row.status to)) refl))
      | inl l ↦
          rw (e, n)
            (rw (check-eq-ok o.force row.status to l) (elim (Bool-cases (assigns_twice o)) [
              | inl a ↦ rw a (Refuses-err db (err duplicate_column, db) duplicate_column refl)
              | inr a ↦ rw a (
                  Refuses-err db (write_hop row to o db)
                    (value_error "event workstream must be non-empty")
                    (write_hop_unnamed row to o db (ground arith)))
            ]))
    ]
  ]
]

-- The result of `transition` on a row that is found.
pub transition_found :
    (task_id : ℕ) (to : Status) (o : Options) (db : Db) (row : Task)
    → find_task task_id db.tasks ≡ some row
    → ((moves o to row ≡ true)
        × (transition task_id to o db
            ≡ (ok (some (apply_sets o to db.clock row)), after db row to o)))
      ⊎ ((moves o to row ≡ false) × Refuses db (transition task_id to o db))
unfolding transition
transition_found task_id to o db row h = elim (Bool-cases (moves o to row)) [
  | inl m ↦ inl (m, rw h (rw (transition_row-moves row to o db m) refl))
  | inr m ↦ inr (m, rw h (transition_row-Refuses row to o db m))
]

pub transition_missing :
    (task_id : ℕ) (to : Status) (o : Options) (db : Db)
    → find_task task_id db.tasks ≡ none
    → transition task_id to o db ≡ (ok none, db)
unfolding transition
transition_missing task_id to o db h = rw h refl

-- A call of `transition` that moves its task, with the row that it found.
pub record Moved (task_id : ℕ) (to : Status) (o : Options) (db : Db) : Type 0 where
  pub row : Task
  pub found : find_task task_id db.tasks ≡ some row
  pub guards : moves o to row ≡ true
  pub result :
      transition task_id to o db ≡ (ok (some (apply_sets o to db.clock row)), after db row to o)

-- Every call of `transition` moves its task under the guards, or refuses and changes nothing.
pub transition-cases :
    (task_id : ℕ) (to : Status) (o : Options) (db : Db)
    → Moved task_id to o db ⊎ Refuses db (transition task_id to o db)
transition-cases task_id to o db = elim (Option-cases (find_task task_id db.tasks)) [
  | inl m ↦ inr (rw (transition_missing task_id to o db m) (Refuses-none db))
  | inr (row, f) ↦ elim (transition_found task_id to o db row f) [
    | inl (m, r) ↦ inl (record { row = row; found = f; guards = m; result = r })
    | inr (m, r) ↦ inr r
  ]
]
