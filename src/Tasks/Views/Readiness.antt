-- ===== src/Tasks/Views/Readiness.antt =====
-- Work in the pool is ready or waiting, and a grab takes the first of what is ready.
use ai_studio.Prelude.{
  ℕ, String, Bool, true, false, Option, none, List, [], ◌∷◌, ◌≡◌, ◌↔◌, ◌⊎◌, inl, inr, refl, ◌∙◌,
  arith, In, In-keep, keep-In, In-sort_by, sort_by-In, keep, ◌&&◌, not, Bool-cases, head?,
  head?-sort_by, first_by-ext, In-map, map-In, lt_int, ltb, ok, any, map, sort_by, ap,
}
use ai_studio.TaskState.{up_for_grabs, status_eq}
use ai_studio.TaskState.Lifecycle.{status_eq→eq}
use ai_studio.Db.Action.{transaction}
use ai_studio.Db.{Db, Task}
use ai_studio.Tasks.Query.{SortColumn, SortFragment, build_sort, build_filter}
use ai_studio.Tasks.Selection.{precedes, satisfies}
use ai_studio.Tasks.Grab.{
  Request, grab_task, grab_selected, claim_picked, identity_quarantined, pick, grabbable, unmet,
  workstream_fits,
}
use ai_studio.Tasks.Views.{
  ready_tasks, waiting_tasks, more_urgent, older, is_ready, is_waiting, has_prereqs, Waiting,
  waiting_of,
}

keep-ext :
    {A : Type 0} (p q : A → Bool) (xs : List A) → ((a : A) → p a ≡ q a) → keep p xs ≡ keep q xs
keep-ext p q [] h = refl
keep-ext p q (x ∷ xs) h = rw (h x, keep-ext p q xs h) refl

any-listed :
    (p : ℕ → Bool) (ds : List ℕ) → ((elim ds [ [] ↦ false | d ∷ ds ↦ true ]) && any p ds) ≡ any p ds
any-listed p [] = refl
any-listed p (d ∷ ds) = refl

-- A task without prerequisites has none that is unmet.
has_prereqs-unmet : (ts : List Task) (t : Task) → (has_prereqs t && unmet ts t) ≡ unmet ts t
unfolding unmet
has_prereqs-unmet ts t = any-listed _ t.depends_on

-- A row of the pool, in the workstream where one is given.
pub record InPool (workstream : Option String) (db : Db) (t : Task) : Type 0 where
  pub listed : In t db.tasks
  pub free : t.status ≡ up_for_grabs
  pub in_workstream : workstream_fits workstream t ≡ true

In-ready_tasks :
    (w : Option String) (db : Db) (t : Task)
    → In t (ready_tasks none w none db) ↔ (InPool w db t × (unmet db.tasks t ≡ false))
unfolding ready_tasks status_eq
In-ready_tasks w db t =
    let test = is_ready none w db.tasks in
    (
      λ m.
          let (i, h) = In-keep test db.tasks t (In-sort_by more_urgent (keep test db.tasks) t m) in
          (
            record {
              listed = i;
              free = status_eq→eq t.status up_for_grabs (ground arith);
              in_workstream = ground arith;
            },
            ground arith,
          ),
      λ (p, u). sort_by-In more_urgent (keep test db.tasks) t (
          keep-In test db.tasks t p.listed (
            let a = p.in_workstream in
            let b : status_eq t.status up_for_grabs ≡ true =
              ap (λ x. status_eq x up_for_grabs) p.free in
            ground arith)),
    )

abbrev pub task_of : Waiting → Task
task_of x = x.task

waiting_rows :
    (ts rows : List Task) (t : Task) → In t (map task_of (map (waiting_of ts) rows)) → In t rows
waiting_rows ts rows t m =
    let (x, k, e) = In-map task_of (map (waiting_of ts) rows) t m in
    let (u, l, f) = In-map (waiting_of ts) rows x k in
    let same : t ≡ u = e ∙ ap task_of f in rw same l

In-waiting_tasks :
    (w : Option String) (db : Db) (t : Task)
    → In t (map task_of (waiting_tasks w db)) ↔ (InPool w db t × (unmet db.tasks t ≡ true))
unfolding waiting_tasks status_eq
In-waiting_tasks w db t =
    let test = is_waiting w db.tasks in
    let rows = sort_by older (keep test db.tasks) in
    (
      λ m.
          let (i, h) =
            In-keep test db.tasks t
              (In-sort_by older (keep test db.tasks) t (waiting_rows db.tasks rows t m)) in
          (
            record {
              listed = i;
              free = status_eq→eq t.status up_for_grabs (ground arith);
              in_workstream = ground arith;
            },
            ground arith,
          ),
      λ (p, u).
          let m = sort_by-In older (keep test db.tasks) t (
            keep-In test db.tasks t p.listed (
              let a = p.in_workstream in
              let b : status_eq t.status up_for_grabs ≡ true =
                ap (λ x. status_eq x up_for_grabs) p.free in
              let c = has_prereqs-unmet db.tasks t in ground arith)) in
          map-In task_of (map (waiting_of db.tasks) rows) (waiting_of db.tasks t)
            (map-In (waiting_of db.tasks) rows t m),
    )

-- The tasks of the pool are those listed as ready and those listed as waiting, in every
-- workstream and in all; no task is listed as both.
pub InPool-iff :
    (w : Option String) (db : Db) (t : Task)
    → (InPool w db t
        ↔ (In t (ready_tasks none w none db) ⊎ In t (map task_of (waiting_tasks w db))))
      × (¬ (In t (ready_tasks none w none db) × In t (map task_of (waiting_tasks w db))))
InPool-iff w db t =
    let (from_ready, to_ready) = In-ready_tasks w db t in
    let (from_waiting, to_waiting) = In-waiting_tasks w db t in
    (
      (
        λ p. elim (Bool-cases (unmet db.tasks t)) [
          | inl e ↦ inr (to_waiting (p, e))
          | inr e ↦ inl (to_ready (p, e))
        ],
        λ m. elim m [ inl r ↦ (from_ready r).0 | inr v ↦ (from_waiting v).0 ],
      ),
      λ (r, v). let a = (from_ready r).1 in let b = (from_waiting v).1 in cc,
    )

abbrev default_order : List SortFragment
default_order =
    record { column = SortColumn.priority; descending = true; nulls = none }
    ∷ record { column = SortColumn.created_at; descending = false; nulls = none }
    ∷ []

build_filter_none : build_filter [] ≡ ok []
unfolding build_filter
build_filter_none = refl

build_sort_default : build_sort none ≡ ok default_order
unfolding build_sort
build_sort_default = refl

precedes-eq :
    (collate : String → String → Bool) (a b : Task)
    → precedes collate default_order a b ≡ more_urgent a b
unfolding precedes
precedes-eq collate a b = elim (Bool-cases (lt_int a.priority b.priority)) [
  | inl e ↦ rw (precedes, e) refl
  | inr e ↦ elim (Bool-cases (lt_int b.priority a.priority)) [
    | inl f ↦ rw (precedes, e, f) refl
    | inr f ↦ elim (Bool-cases (ltb a.created_at b.created_at)) [
      | inl g ↦ rw (precedes, e, f, g) refl
      | inr g ↦ elim (Bool-cases (ltb b.created_at a.created_at)) [
        | inl h ↦ rw (precedes, e, f, g, h) refl
        | inr h ↦ rw (precedes, e, f, g, h) refl
      ]
    ]
  ]
]

all_ready :
    (q : Request) (ts : List Task) (t : Task)
    → ((id : ℕ) → q.busy id ≡ false)
    → (grabbable q.assignee q.workstream [] ts t && not (q.busy t.id))
      ≡ is_ready q.assignee q.workstream ts t
unfolding grabbable satisfies
all_ready q ts t free = rw (free t.id) (ground arith)

pick_first :
    (q : Request) (db : Db)
    → ((id : ℕ) → q.busy id ≡ false)
    → pick q default_order [] db.tasks ≡ head? (ready_tasks q.assignee q.workstream none db)
unfolding pick ready_tasks
pick_first q db free =
    let rows = keep (is_ready q.assignee q.workstream db.tasks) db.tasks in
    rw
      (
        keep-ext _ (is_ready q.assignee q.workstream db.tasks) db.tasks
            (λ t. all_ready q db.tasks t free),
        head?-sort_by more_urgent rows,
      )
      (first_by-ext (precedes q.collate default_order) more_urgent rows (precedes-eq q.collate))

-- With the default order, no filter and no row locked by another transaction, a worker that is
-- not fenced is given the first of what `ready_tasks` lists for the same assignee and workstream:
-- `grab_task` does what moving that task to `claimed` for this worker does, and nothing where the
-- list is empty.
pub grab_task-ready_tasks :
    (q : Request) (db : Db)
    → q.sort ≡ none
    → q.filter ≡ []
    → ((id : ℕ) → q.busy id ≡ false)
    → identity_quarantined db q.worker_id ≡ false
    → grab_task q db
      ≡ transaction (claim_picked q (head? (ready_tasks q.assignee q.workstream none db))) db
unfolding grab_task grab_selected pick ready_tasks
grab_task-ready_tasks q db s f free ok_worker =
    rw (s, f, build_sort_default, build_filter_none, ok_worker, pick_first q db free) refl
