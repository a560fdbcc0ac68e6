-- ===== src/Tasks/Writes/History.antt =====
-- The telemetry is a complete record: each task's status is the end of the hops recorded for it,
-- and these are a legal run of the state machine.
use ai_studio.Prelude.{
  ℕ, Bool, true, false, Option, none, some, List, [], ◌∷◌, ◌++◌, ◌≡◌, inl, inr, refl, sym, arith,
  if◌then◌else◌, ◌==◌, Bool-cases, or_else, ◌∙◌, subst, ap,
}
use ai_studio.TaskState.{
  Status, up_for_grabs, ready_for_review, approved, merged, allowed, status_eq,
}
use ai_studio.TaskState.Lifecycle.{
  status_eq_refl, Run, here, Run.hop as hop_run, Enters, Run-merged_reviewed,
}
use ai_studio.Db.{Db, Task, Hop}
use ai_studio.Tasks.Rows.{
  find_task, update_task, find_task-id, find_task-update_task, find_task-append, when,
}
use ai_studio.Tasks.Transition.{Options, apply_sets, hop_of}
use ai_studio.Tasks.Transition.Laws.{Moved, after, apply_sets-keeps}
use ai_studio.Tasks.Writes.{
  Write, Writes, hop, columns, append, create, tick, judge, done, also, IsMinor,
}
use ai_studio.Tasks.Writes.Kept.{find_task-after, hop_allowed, unforced}

-- The statuses that the recorded hops of a task enter, in order.
unfoldable pub trail : ℕ → List Hop → List Status
trail id [] = []
trail id (h ∷ hs) = let rest = trail id hs in if h.task_id == id then h.target ∷ rest else rest

-- Following the recorded hops of a task from a status: each starts where the last one ended.
unfoldable pub follow : ℕ → Status → List Hop → Option Status
follow id s [] = some s
follow id s (h ∷ hs) =
    let moved = follow id h.target hs in
    let other = follow id s hs in
    if h.task_id == id then if status_eq h.source s then moved else none else other

-- A task that is not there yet starts in the pool.
abbrev pub status_of : Option Task → Status
status_of none = up_for_grabs
status_of (some t) = t.status

-- The hops that the log holds for a task lead to the status that the task has.
abbrev pub Recorded : Db → Type 0
Recorded db = (id : ℕ) → follow id up_for_grabs db.hops ≡ some (status_of (find_task id db.tasks))

abbrev pub Legal : Db → Type 0
Legal db = (id : ℕ) → Run up_for_grabs (trail id db.hops) (status_of (find_task id db.tasks))

follow-append :
    (id : ℕ) (s : Status) (hs : List Hop) (h : Hop) (r : Status)
    → follow id s hs ≡ some r
    → follow id s (hs ++ h ∷ []) ≡ follow id r (h ∷ [])
unfolding follow
follow-append id s [] h r e = let same : s ≡ r = cc in rw same refl
follow-append id s (x ∷ hs) h r e = elim (Bool-cases (x.task_id == id)) [
  | inl at ↦ elim (Bool-cases (status_eq x.source s)) [
    | inl on ↦ rw (at, on) (follow-append id x.target hs h r (ground arith))
    | inr off ↦ absurd (ground arith)
  ]
  | inr other ↦ rw other (follow-append id s hs h r (ground arith))
]

trail-append :
    (id : ℕ) (hs : List Hop) (h : Hop)
    → trail id (hs ++ h ∷ [])
      ≡ (if h.task_id == id then trail id hs ++ h.target ∷ [] else trail id hs)
unfolding trail
trail-append id [] h = refl
trail-append id (x ∷ hs) h = ground (arith, trail-append id hs h)

Run-snoc :
    {a b c : Status} {path : List Status}
    → Run a path b
    → allowed b c ≡ true
    → Run a (path ++ c ∷ []) c
Run-snoc here h = hop_run h here
Run-snoc (hop_run e r) h = hop_run e (Run-snoc r h)

-- How the status of each task changes, write by write.
status-columns :
    (db : Db) (id j : ℕ) (p : Task → Bool) (f : Task → Task)
    → IsMinor f
    → status_of (find_task j (update_task id p f db.tasks)) ≡ status_of (find_task j db.tasks)
status-columns db id j p f k =
    ap status_of (find_task-update_task id j p f db.tasks k.id) ∙ settled (find_task j db.tasks)
  where
    settled : (o : Option Task) → status_of (if id == j then when p f o else o) ≡ status_of o
    settled none = elim (Bool-cases (id == j)) [ inl e ↦ rw e refl | inr e ↦ rw e refl ]
    settled (some t) = elim (Bool-cases (id == j)) [
      | inl e ↦ elim (Bool-cases (p t)) [ inl q ↦ rw (e, q) (k.status t) | inr q ↦ rw (e, q) refl ]
      | inr e ↦ rw e refl
    ]

status-create :
    (db : Db) (j : ℕ) (u : Task)
    → u.status ≡ up_for_grabs
    → status_of (find_task j (db.tasks ++ u ∷ [])) ≡ status_of (find_task j db.tasks)
status-create db j u s =
    ap status_of (find_task-append j db.tasks u) ∙ settled (find_task j db.tasks)
  where
    settled :
        (o : Option Task) → status_of (or_else o (if u.id == j then some u else none)) ≡ status_of o
    settled none = elim (Bool-cases (u.id == j)) [ inl e ↦ rw e s | inr e ↦ rw e refl ]
    settled (some t) = refl

status-hop :
    {task_id : ℕ} {to : Status} {o : Options} {db : Db} (m : Moved task_id to o db) (j : ℕ)
    → status_of (find_task j (after db m.row to o).tasks)
      ≡ (if m.row.id == j then to else status_of (find_task j db.tasks))
status-hop {to = to} {o = o} {db = db} m j =
    ap status_of (find_task-after m j) ∙ (elim (Bool-cases (m.row.id == j)) [
      | inl e ↦ rw e (apply_sets-keeps o to db.clock m.row).status
      | inr e ↦ rw e refl
    ])

-- The row that a hop moves is the one that the log knows.
row-status :
    {task_id : ℕ} {to : Status} {o : Options} {db : Db} (m : Moved task_id to o db) (j : ℕ)
    → (m.row.id == j) ≡ true
    → status_of (find_task j db.tasks) ≡ m.row.status
row-status {task_id} {db = db} m j e =
    let own : m.row.id ≡ task_id = find_task-id task_id db.tasks m.row m.found in
    let at : task_id ≡ j = ground arith in
    ap status_of (subst (λ k. find_task k db.tasks ≡ some m.row) at m.found)

-- The recorded hop takes the task from the status that it had to the one that it has.
follow-hop :
    {task_id : ℕ} {to : Status} {o : Options} {db : Db} (m : Moved task_id to o db) (j : ℕ)
    → follow j
        (status_of (find_task j db.tasks))
        (hop_of db (apply_sets o to db.clock m.row) m.row.status to o ∷ [])
      ≡ some (if m.row.id == j then to else status_of (find_task j db.tasks))
unfolding hop_of follow apply_sets
follow-hop m j = elim (Bool-cases (m.row.id == j)) [
  | inl e ↦ rw (e, row-status m j e, status_eq_refl) refl
  | inr e ↦ rw e refl
]

trail-hop :
    {task_id : ℕ} {to : Status} {o : Options} {db : Db} (m : Moved task_id to o db) (j : ℕ)
    → trail j (after db m.row to o).hops
      ≡ (if m.row.id == j then trail j db.hops ++ to ∷ [] else trail j db.hops)
unfolding hop_of apply_sets
trail-hop {to = to} {o = o} {db = db} m j =
    trail-append j db.hops (hop_of db (apply_sets o to db.clock m.row) m.row.status to o)

Write-Recorded :
    {forcible : Bool} {db db' : Db} → Recorded db → Write forcible db db' → Recorded db'
Write-Recorded {db = db} r (hop {task_id} {to} {o} m f) j =
    follow-append j up_for_grabs db.hops
      (hop_of db (apply_sets o to db.clock m.row) m.row.status to o)
      (status_of (find_task j db.tasks)) (r j)
    ∙ follow-hop m j
    ∙ ap some (sym (status-hop m j))
Write-Recorded {db = db} r (columns id p f k) j = r j ∙ ap some (sym (status-columns db id j p f k))
Write-Recorded r (append e q) j = r j
Write-Recorded {db = db} r (create u fresh s w) j = r j ∙ ap some (sym (status-create db j u s))
Write-Recorded r (tick n) j = r j
Write-Recorded r (judge rows) j = r j

Write-Legal : {db db' : Db} → Legal db → Write false db db' → Legal db'
Write-Legal {db} r (hop {task_id} {to} {o} m f) j = elim (Bool-cases (m.row.id == j)) [
  | inl e ↦
      let step : allowed (status_of (find_task j db.tasks)) to ≡ true =
        rw (row-status m j e) (hop_allowed m (unforced f)) in
      rw (trail-hop m j, status-hop m j) (rw e (Run-snoc (r j) step))
  | inr e ↦ rw (trail-hop m j, status-hop m j) (rw e (r j))
]
Write-Legal {db} r (columns id p f k) j = rw (status-columns db id j p f k) (r j)
Write-Legal r (append e q) j = r j
Write-Legal {db} r (create u fresh s w) j = rw (status-create db j u s) (r j)
Write-Legal r (tick n) j = r j
Write-Legal r (judge rows) j = r j

-- The empty tables, at a time.
unfoldable pub empty : ℕ → Db
empty now = record { tasks = []; hops = []; events = []; trust = []; steps = []; clock = now }

-- Whatever the queue does from empty tables, forced hops included, following the recorded hops of
-- a task from the pool leads to its status: the telemetry alone replays the queue.
pub Writes-Recorded :
    {forcible : Bool} (now : ℕ) {db : Db} → Writes forcible (empty now) db → Recorded db
unfolding empty find_task follow
Writes-Recorded now done = λ j. refl
Writes-Recorded now (also w last) = Write-Recorded (Writes-Recorded now w) last

-- Unless a hop is forced, the recorded hops of every task are a legal run to its status.
pub Writes-Legal : (now : ℕ) {db : Db} → Writes false (empty now) db → Legal db
unfolding empty find_task trail
Writes-Legal now done = λ j. here
Writes-Legal now (also w last) = Write-Legal (Writes-Legal now w) last

-- Unless a hop is forced, the telemetry of every merged task shows its approval: a recorded hop
-- enters `approved` directly from `ready_for_review`.
pub merged_reviewed :
    (now : ℕ) {db : Db} (id : ℕ) (t : Task)
    → Writes false (empty now) db
    → find_task id db.tasks ≡ some t
    → t.status ≡ merged
    → Enters ready_for_review approved up_for_grabs (trail id db.hops)
merged_reviewed now {db} id t w f m =
    Run-merged_reviewed
      (subst (λ s. Run up_for_grabs (trail id db.hops) s) (ap status_of f ∙ m)
        (Writes-Legal now w id))
      ((λ e. cc), (λ e. cc))
