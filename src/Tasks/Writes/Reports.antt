-- ===== src/Tasks/Writes/Reports.antt =====
-- The event log reports every recorded hop once, in order, and no other change of status.
use ai_studio.Prelude.{
  ℕ, Bool, Option, some, List, [], ◌∷◌, ◌++◌, ◌≡◌, inl, inr, refl, sym, if◌then◌else◌, map,
  Bool-cases, ◌∙◌, ap,
}
use ai_studio.TaskState.{Status, is_terminal, wire}
use ai_studio.Db.{Db, Task, Hop, Event, EventBody, task_transition}
use ai_studio.Tasks.Transition.{Options, apply_sets, hop_of}
use ai_studio.Tasks.Transition.Laws.{hop_events}
use ai_studio.Tasks.Writes.{
  Write, Writes, hop, columns, append, create, tick, judge, done, also, reports_hop,
}
use ai_studio.Tasks.Writes.History.{empty}

-- The `task.transition` events of a log: the task and the payload.
unfoldable pub reported : List Event → List (Option ℕ × EventBody)
unfolding reports_hop
reported [] = []
reported (e ∷ es) =
    let rest = reported es in if reports_hop e.body then (e.task_id, e.body) ∷ rest else rest

-- The event that a row of `task_transitions` is reported by.
unfoldable pub report_of : Hop → Option ℕ × EventBody
report_of h = (
  some h.task_id,
  task_transition h.target h.source h.target h.agent_id h.agent_type h.latency_ms,
)

abbrev pub Reported : Db → Type 0
Reported db = reported db.events ≡ map report_of db.hops

reported-append :
    (es : List Event) (e : Event)
    → reported (es ++ e ∷ [])
      ≡ (if reports_hop e.body then reported es ++ (e.task_id, e.body) ∷ [] else reported es)
unfolding reported
reported-append [] e = refl
reported-append (x ∷ es) e = elim (Bool-cases (reports_hop x.body)) [
  | inl q ↦ elim (Bool-cases (reports_hop e.body)) [
    | inl p ↦ rw (q, reported-append es e) (rw p refl)
    | inr p ↦ rw (q, reported-append es e) (rw p refl)
  ]
  | inr q ↦ rw q (reported-append es e)
]

map-snoc :
    (hs : List Hop) (h : Hop) → map report_of (hs ++ h ∷ []) ≡ map report_of hs ++ report_of h ∷ []
map-snoc [] h = refl
map-snoc (x ∷ hs) h = ap (λ l. report_of x ∷ l) (map-snoc hs h)

reported-hop_events :
    (db : Db) (row : Task) (to : Status) (o : Options)
    → let t = apply_sets o to db.clock row in
      reported (hop_events db t row.status to o)
      ≡ reported db.events ++ report_of (hop_of db t row.status to o) ∷ []
unfolding hop_events hop_of report_of reports_hop
reported-hop_events db row to o = elim (Bool-cases (is_terminal (wire to))) [
  | inl e ↦ rw e (rw reported-append (rw reported-append refl))
  | inr e ↦ rw e (rw reported-append refl)
]

Write-Reported :
    {forcible : Bool} {db db' : Db} → Reported db → Write forcible db db' → Reported db'
Write-Reported {db = db} r (hop {to = to} {o = o} m f) =
    reported-hop_events db m.row to o
    ∙ ap (λ l. l ++ report_of (hop_of db (apply_sets o to db.clock m.row) m.row.status to o) ∷ []) r
    ∙ sym (map-snoc db.hops (hop_of db (apply_sets o to db.clock m.row) m.row.status to o))
Write-Reported r (columns id p f k) = r
Write-Reported {db = db} r (append e q) = reported-append db.events e ∙ rw q r
Write-Reported r (create u fresh s w) = r
Write-Reported r (tick n) = r
Write-Reported r (judge rows) = r

-- Whatever the queue does from empty tables, the `task.transition` events of the log are those of
-- the telemetry rows, in their order: none is missing, and none reports a hop that was not made.
pub Writes-Reported :
    {forcible : Bool} (now : ℕ) {db : Db} → Writes forcible (empty now) db → Reported db
unfolding empty reported
Writes-Reported now done = refl
Writes-Reported now (also w last) = Write-Reported (Writes-Reported now w) last
