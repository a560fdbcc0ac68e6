-- ===== src/Tasks/Views/Staleness.antt =====
-- The supervisor's query finds what `is_stale` calls stale.
use ai_studio.Prelude.{
  ℕ, true, Option, none, some, ◌≡◌, ◌↔◌, refl, sym, ◌∙◌, arith, In, In-keep, keep-In, In-sort_by,
  sort_by-In, keep, ◌&&◌, ◌||◌, Bool-cases, inl, inr,
}
use ai_studio.TaskState.{claimed, in_progress, status_eq}
use ai_studio.Db.{Db, Task}
use ai_studio.Tasks.Finish.{held}
use ai_studio.Tasks.Views.{find_stale_tasks, is_stale, silent, silent_longer, beat_too_old}

silent-eq :
    (threshold now : ℕ) (beat : Option ℕ)
    → silent threshold now beat ≡ beat_too_old threshold now beat
silent-eq threshold now none = refl
silent-eq threshold now (some beat) = ground arith

stale-eq :
    (t : Task) (threshold now : ℕ)
    → (held t && silent threshold now t.heartbeat_at) ≡ is_stale t threshold now
unfolding held is_stale
stale-eq t threshold now =
    elim (Bool-cases (status_eq t.status claimed || status_eq t.status in_progress)) [
      | inl e ↦ rw (e, silent-eq threshold now t.heartbeat_at) refl
      | inr e ↦ rw e refl
    ]

-- The query that the supervisor polls lists exactly the rows that `is_stale` of runtime/models.py
-- calls stale at that moment, whatever their heartbeats.
pub find_stale_tasks-In_iff :
    (threshold : ℕ) (db : Db) (t : Task)
    → In t (find_stale_tasks threshold db)
      ↔ (In t db.tasks × (is_stale t threshold db.clock ≡ true))
unfolding find_stale_tasks
find_stale_tasks-In_iff threshold db t =
    let test = λ (x : Task). held x && silent threshold db.clock x.heartbeat_at in
    let lt = λ (a b : Task). silent_longer a.heartbeat_at b.heartbeat_at in
    let same = stale-eq t threshold db.clock in
    (
      λ m.
          let (i, h) = In-keep test db.tasks t (In-sort_by lt (keep test db.tasks) t m) in
          (i, sym same ∙ h),
      λ p. sort_by-In lt (keep test db.tasks) t (keep-In test db.tasks t p.0 (same ∙ p.1)),
    )
