-- ===== src/Supervisor/Climbs/Rungs.antt =====
-- Each rung of the ladder, as one equation for the tables and what follows from it.
use ai_studio.Prelude.{
  ℕ, ◌+◌, String, Bool, true, false, some, ◌≡◌, refl, ◌∙◌, arith, is_none, str_eq, ok, ◌&&◌,
  if◌then◌else◌,
}
use ai_studio.TaskState.{up_for_grabs, abandoned, status_eq, is_terminal}
use ai_studio.Db.{Db, Task, task_rekicked, task_nudge, task_stuck, task_failed_exhausted}
use ai_studio.Db.Action.{append_event_named, log, new_event}
use ai_studio.Tasks.Rows.{find_task, update_task}
use ai_studio.Tasks.Transition.{apply_sets}
use ai_studio.Tasks.Transition.Laws.{apply_sets-keeps, after}
use ai_studio.Tasks.Finish.{held, first_hop, complete_task}
use ai_studio.Tasks.Recovery.{
  rekick_options, made_progress, task_made_progress, rekick_task, nudge_task, escalate_stuck_task,
  superseding, count_progress, open_nudge, set_reason,
}
use ai_studio.Supervisor.{
  Ladder, Rung, rung, nudging, deferring, escalating, failing, rekicking, climb, rekick,
  escalate_stuck, fail_exhausted, exhausted, reason_of,
}
use ai_studio.Supervisor.Climbs.{Climbed, rekick-moves, escalate-moves, exhaust-moves}
use ai_studio.Tasks.Transition.After.{
  update_task_self, update_task_other, transition-moves, after_self, after_other, returning-eq,
}

module _ (t : Task) (db : Db) (found : find_task t.id db.tasks ≡ some t) (h : held t ≡ true)
    (named : str_eq t.workstream "" ≡ false) where
  abbrev nudgeable : Task → Bool
  nudgeable x = held x && is_none x.nudged_at

  nudge_task-eq :
      (grace : ℕ)
      → is_none t.nudged_at ≡ true
      → nudge_task t.id grace db ≡ (
        ok (some (open_nudge db.clock t)),
        log
            (new_event db (some t.id) t.workstream (task_nudge t.status grace))
            (record db { tasks = update_task t.id nudgeable (open_nudge db.clock) db.tasks }),
      )
  unfolding nudge_task
  nudge_task-eq grace fresh =
      rw (returning-eq t.id nudgeable (open_nudge db.clock) db.tasks t found (rw (h, fresh) refl))
        (rw (append_event_named, named) refl)

  nudge_task-Climbed :
      (grace : ℕ) → is_none t.nudged_at ≡ true → Climbed nudging t db (nudge_task t.id grace db)
  nudge_task-Climbed grace fresh = rw (nudge_task-eq grace fresh) (record {
    task = open_nudge db.clock t;
    returned = refl;
    row = open_nudge db.clock t;
    stored =
        update_task_self t.id nudgeable (open_nudge db.clock) db.tasks (λ x. refl) t found
          (rw (h, fresh) refl);
    handled = (refl, refl, refl, refl);
    others = update_task_other t.id nudgeable (open_nudge db.clock) db.tasks (λ x. refl);
    clock = refl;
  })

  fail_exhausted-eq :
      (max_retries : ℕ)
      → let o = first_hop (exhausted t max_retries) in
        let d = after db t abandoned o in
        fail_exhausted t max_retries db ≡ (
          ok (some (apply_sets o abandoned db.clock t)),
          log
              (new_event d
                (some t.id)
                t.workstream
                (task_failed_exhausted abandoned t.retries max_retries))
              d,
        )
  unfolding fail_exhausted complete_task is_terminal status_eq
  fail_exhausted-eq max_retries =
      rw
        (transition-moves t.id abandoned (first_hop (exhausted t max_retries)) db t found
          (exhaust-moves max_retries t t h named))
        (rw (append_event_named, named) refl)

  fail_exhausted-Climbed :
      (max_retries : ℕ) → Climbed failing t db (fail_exhausted t max_retries db)
  fail_exhausted-Climbed max_retries =
      let o = first_hop (exhausted t max_retries) in
      rw (fail_exhausted-eq max_retries) (record {
        task = apply_sets o abandoned db.clock t;
        returned = refl;
        row = apply_sets o abandoned db.clock t;
        stored = after_self abandoned o db t t.id found;
        handled = (apply_sets-keeps o abandoned db.clock t).status;
        others = after_other abandoned o db t t.id found;
        clock = refl;
      })

  -- The row between the two statements of an escalation.
  abbrev reasoned : String → Db
  reasoned reason = record db {
    tasks = update_task t.id held (set_reason reason db.clock) db.tasks;
  }

  reasoned_self :
      (reason : String)
      → find_task t.id (reasoned reason).tasks ≡ some (set_reason reason db.clock t)
  reasoned_self reason =
      update_task_self t.id held (set_reason reason db.clock) db.tasks (λ x. refl) t found h

  escalate-held : (reason : String) → held (set_reason reason db.clock t) ≡ true
  unfolding held
  escalate-held reason = h

  escalate_stuck_task-eq :
      (reason : String) (rekicks retries : ℕ)
      → let o = first_hop (superseding reason rekicks retries) in
        let row = set_reason reason db.clock t in
        let d = after (reasoned reason) row abandoned o in
        let u = apply_sets o abandoned db.clock row in
        escalate_stuck_task t.id reason rekicks retries db ≡ (
          ok (some u),
          log (new_event d (some u.id) u.workstream (task_stuck u.status reason rekicks retries)) d,
        )
  unfolding escalate_stuck_task complete_task is_terminal status_eq
  escalate_stuck_task-eq reason rekicks retries =
      let o = first_hop (superseding reason rekicks retries) in
      let row = set_reason reason db.clock t in
      let u = apply_sets o abandoned db.clock row in
      let w : str_eq u.workstream "" ≡ false =
        rw (apply_sets-keeps o abandoned db.clock row).workstream named in
      rw (returning-eq t.id held (set_reason reason db.clock) db.tasks t found h) (
        rw
          (transition-moves t.id abandoned o (reasoned reason) row (reasoned_self reason)
            (escalate-moves reason rekicks retries row (escalate-held reason) named))
          (rw (append_event_named, w) refl))

  escalate_stuck-Climbed : Climbed escalating t db (escalate_stuck t db)
  unfolding escalate_stuck apply_sets
  escalate_stuck-Climbed =
      let reason = reason_of t.stall_reason in
      let o = first_hop (superseding reason t.no_progress_rekicks t.retries) in
      let row = set_reason reason db.clock t in
      let mid = reasoned reason in
      rw (escalate_stuck_task-eq reason t.no_progress_rekicks t.retries) (record {
        task = apply_sets o abandoned db.clock row;
        returned = refl;
        row = apply_sets o abandoned db.clock row;
        stored = after_self abandoned o mid row t.id (reasoned_self reason);
        handled = (refl, refl);
        others = λ j n.
            after_other abandoned o mid row t.id (reasoned_self reason) j n
            ∙ update_task_other t.id held (set_reason reason db.clock) db.tasks (λ x. refl) j n;
        clock = refl;
      })

  abbrev back_in_pool : Task
  back_in_pool = apply_sets rekick_options up_for_grabs db.clock t

  rekick_task-eq :
      (made : Bool)
      → let d = after db t up_for_grabs rekick_options in
        let u = back_in_pool in
        let counted = record d {
          tasks = update_task u.id (λ _. true) (count_progress made db.clock) d.tasks;
        } in
        rekick_task t.id (some made) db ≡ (
          ok (some u),
          log
              (new_event counted (some u.id) u.workstream (
                task_rekicked u.status u.retries
                  (some made)
                  (if made then 0 else u.no_progress_rekicks + 1)))
              counted,
        )
  unfolding rekick_task status_eq
  rekick_task-eq made =
      let keeps = apply_sets-keeps rekick_options up_for_grabs db.clock t in
      let w : str_eq back_in_pool.workstream "" ≡ false = rw keeps.workstream named in
      rw (found, h)
        (rw (transition-moves t.id up_for_grabs rekick_options db t found (rekick-moves t h named))
          (rw keeps.status (rw (append_event_named, w) refl)))

  rekick-Climbed : Climbed rekicking t db (rekick t db)
  unfolding rekick task_made_progress apply_sets
  rekick-Climbed =
      let made = made_progress t.id db in
      let u = back_in_pool in
      let mid = after db t up_for_grabs rekick_options in
      let count = count_progress made db.clock in
      let all_rows = λ (x : Task). true in
      rw (rekick_task-eq made) (record {
        task = u;
        returned = refl;
        row = count u;
        stored =
            update_task_self t.id all_rows count mid.tasks (λ x. refl) u
              (after_self up_for_grabs rekick_options db t t.id found) refl;
        handled = (refl, refl, refl, refl, refl);
        others = λ j n.
            update_task_other t.id all_rows count mid.tasks (λ x. refl) j n
            ∙ after_other up_for_grabs rekick_options db t t.id found j n;
        clock = refl;
      })

  rung-nudging : (l : Ladder) → rung l t ≡ nudging → is_none t.nudged_at ≡ true
  unfolding rung
  rung-nudging l e = ground arith

  -- Every rung acts on a task that is stored as the sweep read it, held and named.
  pub climb-Climbed : (l : Ladder) (k : Rung) → rung l t ≡ k → Climbed k t db (climb l t k db)
  unfolding climb
  climb-Climbed l nudging e = nudge_task-Climbed l.nudge_grace (rung-nudging l e)
  climb-Climbed l deferring e = record {
    task = t;
    returned = refl;
    row = t;
    stored = found;
    handled = refl;
    others = λ j n. refl;
    clock = refl;
  }
  climb-Climbed l escalating e = escalate_stuck-Climbed
  climb-Climbed l failing e = fail_exhausted-Climbed l.max_retries
  climb-Climbed l rekicking e = rekick-Climbed
