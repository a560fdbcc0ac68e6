-- ===== src/Supervisor/Swept.antt =====
-- A whole sweep: every stale task is handled by its rung, and no other row is touched.
use ai_studio.Prelude.{
  ℕ, suc, true, false, Option, none, some, List, [], ◌∷◌, ◌≡◌, inl, inr, refl, sym, ◌∙◌, subst,
  arith, Bool-cases, ==_iff, In, In-append_left, In-append_right, keep, ok, str_eq, ◌==◌, ◌&&◌,
}
use ai_studio.Db.{Db, Task}
use ai_studio.Db.Action.{Outcome}
use ai_studio.Tasks.Rows.{find_task}
use ai_studio.Tasks.Finish.{held}
use ai_studio.Tasks.Views.{find_stale_tasks, is_stale, silent, silent_longer}
use ai_studio.Tasks.Views.Staleness.{find_stale_tasks-In_iff}
use ai_studio.Tasks.Writes.Distinct.{Distinct, find_task-none, Distinct-keep, Distinct-sort_by}
use ai_studio.Supervisor.{
  Ladder, Rung, nudging, deferring, escalating, failing, rekicking, rung, climb, SweepResult,
  nothing_swept, note, listed, sweep_tasks, sweep,
}
use ai_studio.Supervisor.Climbs.{Handled, Climbed}
use ai_studio.Supervisor.Climbs.Rungs.{climb-Climbed}

-- The list of a result in which a rung notes its tasks.
abbrev pub list_of : Rung → SweepResult → List ℕ
list_of nudging r = r.nudged
list_of deferring r = r.deferred
list_of escalating r = r.stuck
list_of failing r = r.failed
list_of rekicking r = r.rekicked

-- A row that the sweep read: it is stored so, held, and has a workstream.
pub record Sweepable (db : Db) (t : Task) : Type 0 where
  pub found : find_task t.id db.tasks ≡ some t
  pub is_held : held t ≡ true
  pub named : str_eq t.workstream "" ≡ false

-- The task was handled by its rung, and is listed there.
pub record Swept (l : Ladder) (t : Task) (now : ℕ) (r : SweepResult) (db : Db) : Type 0 where
  pub row : Task
  pub stored : find_task t.id db.tasks ≡ some row
  pub handled : Handled (rung l t) t now row
  pub noted : In t.id (list_of (rung l t) r)

note-lists : (k : Rung) (id : ℕ) (r : SweepResult) → In id (list_of k (listed k id r))
note-lists nudging id r = In-append_right id r.nudged (id ∷ []) (inl refl)
note-lists deferring id r = In-append_right id r.deferred (id ∷ []) (inl refl)
note-lists escalating id r = In-append_right id r.stuck (id ∷ []) (inl refl)
note-lists failing id r = In-append_right id r.failed (id ∷ []) (inl refl)
note-lists rekicking id r = In-append_right id r.rekicked (id ∷ []) (inl refl)

listed-keeps :
    (k c : Rung) (x id : ℕ) (r : SweepResult)
    → In x (list_of k r)
    → In x (list_of k (listed c id r))
listed-keeps nudging nudging x id r m = In-append_left x r.nudged (id ∷ []) m
listed-keeps deferring deferring x id r m = In-append_left x r.deferred (id ∷ []) m
listed-keeps escalating escalating x id r m = In-append_left x r.stuck (id ∷ []) m
listed-keeps failing failing x id r m = In-append_left x r.failed (id ∷ []) m
listed-keeps rekicking rekicking x id r m = In-append_left x r.rekicked (id ∷ []) m
listed-keeps _ _ x id r m = m

counted-keeps :
    (k : Rung) (n x : ℕ) (r : SweepResult)
    → In x (list_of k r)
    → In x (list_of k (record r { scanned = n }))
counted-keeps nudging n x r m = m
counted-keeps _ n x r m = m

note-keeps :
    (k c : Rung) (x id : ℕ) (o : Outcome (Option Task)) (r : SweepResult)
    → In x (list_of k r)
    → In x (list_of k (note c id o (record r { scanned = suc r.scanned })))
note-keeps k c x id (ok none) r m = counted-keeps k (suc r.scanned) x r m
note-keeps k c x id (ok (some t)) r m =
    listed-keeps k c x id (record r { scanned = suc r.scanned })
      (counted-keeps k (suc r.scanned) x r m)
note-keeps k c x id _ r m = counted-keeps k (suc r.scanned) x r m

note-acted :
    (k : Rung) (id : ℕ) (o : Outcome (Option Task)) (u : Task) (r : SweepResult)
    → o ≡ ok (some u)
    → In id (list_of k (note k id o r))
note-acted k id o u r e = rw e (note-lists k id r)

module _ (l : Ladder) where
  sweep_tasks-keeps :
      (k : Rung) (ts : List Task) (r : SweepResult) (db : Db) (x : ℕ)
      → In x (list_of k r)
      → In x (list_of k (sweep_tasks l ts r db).0)
  unfolding sweep_tasks
  sweep_tasks-keeps k [] r db x m = m
  sweep_tasks-keeps k (t ∷ ts) r db x m =
      sweep_tasks-keeps k ts _ _ x (note-keeps k (rung l t) x t.id (climb l t (rung l t) db).0 r m)

  climbs : (db : Db) (t : Task) → Sweepable db t → Climbed (rung l t) t db (climb l t (rung l t) db)
  climbs db t s = climb-Climbed t db s.found s.is_held s.named l (rung l t) refl

  -- The other tasks of a list stand as they did when one of them has been handled.
  later :
      (db : Db) (t : Task) (ts : List Task)
      → find_task t.id ts ≡ none
      → Sweepable db t
      → ((u : Task) → In u ts → Sweepable db u)
      → (u : Task) → In u ts
      → Sweepable (climb l t (rung l t) db).1 u
  later db t ts d s all u m =
      let before = all u m in
      record {
        found = (climbs db t s).others u.id (find_task-none t.id ts u d m) ∙ before.found;
        is_held = before.is_held;
        named = before.named;
      }

  -- Rows of no task in the list are left alone.
  sweep_tasks-others :
      (ts : List Task) (r : SweepResult) (db : Db)
      → Distinct ts
      → ((u : Task) → In u ts → Sweepable db u)
      → (j : ℕ) → ((u : Task) → In u ts → (u.id == j) ≡ false)
      → find_task j (sweep_tasks l ts r db).1.tasks ≡ find_task j db.tasks
  unfolding sweep_tasks
  sweep_tasks-others [] r db d all j n = refl
  sweep_tasks-others (t ∷ ts) r db d all j n =
      let s = all t (inl refl) in
      let rest = λ (u : Task) (m : In u ts). all u (inr m) in
      sweep_tasks-others ts _ (climb l t (rung l t) db).1 d.1 (later db t ts d.0 s rest) j
        (λ u m. n u (inr m))
      ∙ (climbs db t s).others j (n t (inl refl))

  sweep_tasks-Swept :
      (ts : List Task) (r : SweepResult) (db : Db)
      → Distinct ts
      → ((u : Task) → In u ts → Sweepable db u)
      → (t : Task) → In t ts
      → let out = sweep_tasks l ts r db in Swept l t db.clock out.0 out.1
  unfolding sweep_tasks
  sweep_tasks-Swept [] r db d all t m = absurd m
  sweep_tasks-Swept (x ∷ ts) r db d all t m =
      let s = all x (inl refl) in
      let rest = λ (u : Task) (m : In u ts). all u (inr m) in
      let c = climbs db x s in
      let mid = (climb l x (rung l x) db).1 in
      let r' =
        note (rung l x) x.id (climb l x (rung l x) db).0 (record r { scanned = suc r.scanned }) in
      let out = sweep_tasks l ts r' mid in
      elim m [
        | inr n ↦
            subst (λ now. Swept l t now out.0 out.1) c.clock
              (sweep_tasks-Swept ts r' mid d.1 (later db x ts d.0 s rest) t n)
        | inl e ↦
            subst (λ y. Swept l y db.clock out.0 out.1) (sym e)
              (record {
                row = c.row;
                stored =
                    sweep_tasks-others ts r' mid d.1 (later db x ts d.0 s rest) x.id
                      (λ u n. let k = find_task-none x.id ts u d.0 n in ground arith)
                    ∙ c.stored;
                handled = c.handled;
                noted =
                    sweep_tasks-keeps (rung l x) ts r' mid x.id
                      (note-acted (rung l x) x.id (climb l x (rung l x) db).0 c.task _ c.returned);
              })
      ]

-- What a sweep needs of the tables: rows have ids of their own, and workstreams.
pub record Sound (db : Db) : Type 0 where
  pub distinct : Distinct db.tasks
  pub found : (t : Task) → In t db.tasks → find_task t.id db.tasks ≡ some t
  pub named : (t : Task) → In t db.tasks → str_eq t.workstream "" ≡ false

module _ (l : Ladder) where
  stale_held : (t : Task) (threshold now : ℕ) → is_stale t threshold now ≡ true → held t ≡ true
  unfolding is_stale held
  stale_held t threshold now h = ground arith

  listed_Sweepable :
      (db : Db) → Sound db → (t : Task) → In t (find_stale_tasks l.threshold db) → Sweepable db t
  listed_Sweepable db s t m =
      let (i, stale) = (find_stale_tasks-In_iff l.threshold db t).0 m in
      record {
        found = s.found t i;
        is_held = stale_held t l.threshold db.clock stale;
        named = s.named t i;
      }

  stale_Distinct : (db : Db) → Sound db → Distinct (find_stale_tasks l.threshold db)
  unfolding find_stale_tasks
  stale_Distinct db s =
      let test = λ (x : Task). held x && silent l.threshold db.clock x.heartbeat_at in
      Distinct-sort_by (λ a b. silent_longer a.heartbeat_at b.heartbeat_at) (keep test db.tasks)
        (Distinct-keep test db.tasks s.distinct)

  -- A stale row has the id of no row that is not.
  other :
      (db : Db) (t : Task)
      → Sound db
      → In t db.tasks
      → is_stale t l.threshold db.clock ≡ false
      → (u : Task) → In u (find_stale_tasks l.threshold db)
      → (u.id == t.id) ≡ false
  other db t s i h u m = elim (Bool-cases (u.id == t.id)) [
    | inr e ↦ e
    | inl e ↦
        let (j, stale) = (find_stale_tasks-In_iff l.threshold db u).0 m in
        let ids : u.id ≡ t.id = (==_iff u.id t.id).0 e in
        let a : find_task t.id db.tasks ≡ some u =
          subst (λ k. find_task k db.tasks ≡ some u) ids (s.found u j) in
        let b = s.found t i in
        let same : u ≡ t = cc in
        let c : is_stale t l.threshold db.clock ≡ true =
          subst (λ x. is_stale x l.threshold db.clock ≡ true) same stale in
        cc
  ]

  pub sweep-Swept :
      (db : Db) (t : Task)
      → Sound db
      → In t db.tasks
      → is_stale t l.threshold db.clock ≡ true
      → Swept l t db.clock (sweep l db).0 (sweep l db).1
  unfolding sweep
  sweep-Swept db t s i h =
      sweep_tasks-Swept l (find_stale_tasks l.threshold db) nothing_swept db (stale_Distinct db s)
        (listed_Sweepable db s) t ((find_stale_tasks-In_iff l.threshold db t).1 (i, h))

  pub sweep-others :
      (db : Db) (t : Task)
      → Sound db
      → In t db.tasks
      → is_stale t l.threshold db.clock ≡ false
      → find_task t.id (sweep l db).1.tasks ≡ some t
  unfolding sweep
  sweep-others db t s i h =
      sweep_tasks-others l (find_stale_tasks l.threshold db) nothing_swept db (stale_Distinct db s)
        (listed_Sweepable db s) t.id (other db t s i h)
      ∙ s.found t i
