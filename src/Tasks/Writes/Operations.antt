-- ===== src/Tasks/Writes/Operations.antt =====
-- Every operation of the queue is a sequence of writes; only a forced completion may force a hop.
use ai_studio.Prelude.{
  ℕ, String, Bool, true, false, Option, none, some, [], ◌∷◌, ◌++◌, ◌≡◌, ◌⊎◌, inl, inr, refl, ok,
  err, str_eq, Bool-cases, Option-cases, any, ◌==◌,
}
use ai_studio.TaskState.{status_eq, is_terminal, wire, merged, up_for_grabs}
use ai_studio.Db.{Db, Task, task_created}
use ai_studio.Db.Action.{
  Action, Outcome, Error, append_event, append_event_named, append_event_unnamed, new_event, log,
  unique_violation, dependency_cycle, value_error,
}
use ai_studio.Tasks.Rows.{find_task}
use ai_studio.Tasks.Transition.{defaults, transition}
use ai_studio.Traffic.{Env}
use ai_studio.Tasks.Enqueue.{NewTask, new_row, enqueue_task}
use ai_studio.Tasks.Query.{build_sort, build_filter}
use ai_studio.Tasks.Grab.{
  Request, grab_task, grab_selected, claim_picked, start_task, start_grabbed, claim_task,
  identity_quarantined, pick, lift,
}
use ai_studio.Tasks.Finish.{
  heartbeat, beat, complete_task, merge_task, Completion, first_hop, if_some, block_task,
  requeue_blocked_task, spend, add_spent_tokens, update_returning, held,
}
use ai_studio.Tasks.Recovery.{
  nudge_task, open_nudge, emit_nudge, rekick_task, write_progress, after_rekick, rekick_options,
  count_progress, if_held, escalate_stuck_task, set_reason, supersede, emit_stuck, superseding,
}
use ai_studio.Tasks.Writes.{
  IsWriter, IsMinor, done, also, columns, append, create, reports_hop, IsWriter-pure,
  IsWriter-throw, IsWriter-bind, IsWriter-reader, IsWriter-transaction, IsWriter-if,
  IsWriter-append_event, IsWriter-update_returning, IsWriter-transition,
}

IsMinor-beat : (now : ℕ) → IsMinor (beat now)
IsMinor-beat now = record {
  id = λ t. refl;
  status = λ t. refl;
  workstream = λ t. refl;
  depends_on = λ t. refl;
}

IsMinor-spend : (tokens now : ℕ) → IsMinor (spend tokens now)
IsMinor-spend tokens now = record {
  id = λ t. refl;
  status = λ t. refl;
  workstream = λ t. refl;
  depends_on = λ t. refl;
}

IsMinor-open_nudge : (now : ℕ) → IsMinor (open_nudge now)
IsMinor-open_nudge now = record {
  id = λ t. refl;
  status = λ t. refl;
  workstream = λ t. refl;
  depends_on = λ t. refl;
}

IsMinor-count_progress : (made : Bool) (now : ℕ) → IsMinor (count_progress made now)
IsMinor-count_progress made now = record {
  id = λ t. refl;
  status = λ t. refl;
  workstream = λ t. refl;
  depends_on = λ t. refl;
}

IsMinor-set_reason : (reason : String) (now : ℕ) → IsMinor (set_reason reason now)
IsMinor-set_reason reason now = record {
  id = λ t. refl;
  status = λ t. refl;
  workstream = λ t. refl;
  depends_on = λ t. refl;
}

pub heartbeat-IsWriter : (id : ℕ) (w : String) → IsWriter false (heartbeat id w)
unfolding heartbeat
heartbeat-IsWriter id w =
    IsWriter-transaction _
      (IsWriter-reader _ (λ db. IsWriter-update_returning id _ _ (IsMinor-beat db.clock)))

pub add_spent_tokens-IsWriter : (id n : ℕ) → IsWriter false (add_spent_tokens id n)
unfolding add_spent_tokens
add_spent_tokens-IsWriter id n =
    IsWriter-transaction _
      (IsWriter-reader _ (λ db. IsWriter-update_returning id _ _ (IsMinor-spend n db.clock)))

claim_picked-IsWriter : (q : Request) (o : Option Task) → IsWriter false (claim_picked q o)
claim_picked-IsWriter q none = IsWriter-pure none
claim_picked-IsWriter q (some t) = IsWriter-transition t.id _ _ (inr refl)

grab_selected-IsWriter : (q : Request) (o : _) (c : _) → IsWriter false (grab_selected q o c)
unfolding grab_selected
grab_selected-IsWriter q order clauses = IsWriter-transaction _ (
    IsWriter-reader _ λ db.
      IsWriter-if (identity_quarantined db q.worker_id) _ _ (IsWriter-pure none)
        (claim_picked-IsWriter q (pick q order clauses db.tasks)))

IsWriter-lift {ℓ} : {A : Type ℓ} (r : Outcome A) → IsWriter false (lift r)
IsWriter-lift r = record { writes = λ db. done }

pub grab_task-IsWriter : (q : Request) → IsWriter false (grab_task q)
unfolding grab_task
grab_task-IsWriter q = IsWriter-bind (lift (build_sort q.sort)) _ (IsWriter-lift _) λ order.
    IsWriter-bind (lift (build_filter q.filter)) _ (IsWriter-lift _)
      λ clauses. grab_selected-IsWriter q order clauses

pub start_task-IsWriter :
    (id : ℕ) (w : String) (agent_type : Option String) → IsWriter false (start_task id w agent_type)
unfolding start_task
start_task-IsWriter id w agent_type = IsWriter-transition id _ _ (inr refl)

start_grabbed-IsWriter : (q : Request) (o : Option Task) → IsWriter false (start_grabbed q o)
start_grabbed-IsWriter q none = IsWriter-pure none
start_grabbed-IsWriter q (some t) =
    IsWriter-bind (start_task t.id q.worker_id q.agent_type) _
      (start_task-IsWriter t.id q.worker_id q.agent_type) (λ started. IsWriter-pure _)

pub claim_task-IsWriter : (q : Request) → IsWriter false (claim_task q)
unfolding claim_task
claim_task-IsWriter q =
    IsWriter-bind (grab_task q) _ (grab_task-IsWriter q) (start_grabbed-IsWriter q)

if_some-IsWriter :
    {forcible : Bool} (o : Option Task) (m : Action (Option Task))
    → IsWriter forcible m
    → IsWriter forcible (if_some o m)
if_some-IsWriter none m w = IsWriter-pure none
if_some-IsWriter (some t) m w = w

module _ (id : ℕ) (c : Completion) where
  -- The hops of a completion are forced only if the caller says so.
  merge_task-IsWriter :
      {forcible : Bool}
      → (forcible ≡ true) ⊎ (c.force ≡ false)
      → IsWriter forcible (merge_task id c)
  unfolding merge_task
  merge_task-IsWriter h =
      IsWriter-bind (transition id _ (first_hop c)) _ (IsWriter-transition id _ _ h) λ t.
        if_some-IsWriter t _ (
          IsWriter-bind (transition id _ defaults) _ (IsWriter-transition id _ _ (inr refl))
            λ u. if_some-IsWriter u _ (IsWriter-transition id _ _ (inr refl)))

  pub complete_task-IsWriter :
      {forcible : Bool}
      → (forcible ≡ true) ⊎ (c.force ≡ false)
      → IsWriter forcible (complete_task id c)
  unfolding complete_task
  complete_task-IsWriter h =
      IsWriter-if (is_terminal (wire c.status)) _ _
        (IsWriter-if (status_eq c.status merged) _ _ (merge_task-IsWriter h)
          (IsWriter-transition id _ _ h))
        (IsWriter-throw _)

pub block_task-IsWriter :
    (id approval_id : ℕ) (reason : String) → IsWriter false (block_task id approval_id reason)
unfolding block_task
block_task-IsWriter id approval_id reason = IsWriter-transition id _ _ (inr refl)

pub requeue_blocked_task-IsWriter : (id : ℕ) → IsWriter false (requeue_blocked_task id)
unfolding requeue_blocked_task
requeue_blocked_task-IsWriter id = IsWriter-transition id _ _ (inr refl)

emit_nudge-IsWriter : (grace : ℕ) (o : Option Task) → IsWriter false (emit_nudge grace o)
unfolding reports_hop
emit_nudge-IsWriter grace none = IsWriter-pure none
emit_nudge-IsWriter grace (some t) =
    IsWriter-bind (append_event _ _ _) _ (IsWriter-append_event _ _ _ refl) (λ _. IsWriter-pure _)

pub nudge_task-IsWriter : (id grace : ℕ) → IsWriter false (nudge_task id grace)
unfolding nudge_task
nudge_task-IsWriter id grace = IsWriter-transaction _ (
    IsWriter-reader _ λ db.
      IsWriter-bind (update_returning id _ (open_nudge db.clock)) _
        (IsWriter-update_returning id _ _ (IsMinor-open_nudge db.clock))
        (emit_nudge-IsWriter grace))

write_progress-IsWriter : (made : Option Bool) (id : ℕ) → IsWriter false (write_progress made id)
write_progress-IsWriter none id = record { writes = λ db. done }
write_progress-IsWriter (some made) id = record {
  writes = λ db. also done (
      columns id (λ _. true) (count_progress made db.clock) (IsMinor-count_progress made db.clock));
}

after_rekick-IsWriter :
    (made : Option Bool) (o : Option Task) → IsWriter false (after_rekick made o)
unfolding reports_hop
after_rekick-IsWriter made none = IsWriter-pure none
after_rekick-IsWriter made (some t) =
    IsWriter-if (status_eq t.status up_for_grabs) _ _
      (IsWriter-bind (write_progress made t.id) _ (write_progress-IsWriter made t.id) (λ _.
        IsWriter-bind (append_event _ _ _) _ (IsWriter-append_event _ _ _ refl)
          (λ _. IsWriter-pure _)))
      (IsWriter-pure none)

if_held-IsWriter :
    (o : Option Task) (m : Action (Option Task)) → IsWriter false m → IsWriter false (if_held o m)
if_held-IsWriter none m w = IsWriter-pure none
if_held-IsWriter (some t) m w = IsWriter-if (held t) _ _ w (IsWriter-pure none)

pub rekick_task-IsWriter : (id : ℕ) (made : Option Bool) → IsWriter false (rekick_task id made)
unfolding rekick_task
rekick_task-IsWriter id made = IsWriter-transaction _ (
    IsWriter-reader _ λ db. if_held-IsWriter (find_task id db.tasks) _ (
      IsWriter-bind (transition id _ rekick_options) _ (IsWriter-transition id _ _ (inr refl))
        (after_rekick-IsWriter made)))

emit_stuck-IsWriter :
    (reason : String) (rekicks retries : ℕ) (o : Option Task)
    → IsWriter false (emit_stuck reason rekicks retries o)
unfolding reports_hop
emit_stuck-IsWriter reason rekicks retries none = IsWriter-pure none
emit_stuck-IsWriter reason rekicks retries (some t) =
    IsWriter-bind (append_event _ _ _) _ (IsWriter-append_event _ _ _ refl) (λ _. IsWriter-pure _)

supersede-IsWriter :
    (id : ℕ) (reason : String) (rekicks retries : ℕ) (o : Option Task)
    → IsWriter false (supersede id reason rekicks retries o)
supersede-IsWriter id reason rekicks retries none = IsWriter-pure none
supersede-IsWriter id reason rekicks retries (some t) =
    IsWriter-bind (complete_task id (superseding reason rekicks retries)) _
      (complete_task-IsWriter id _ (inr refl)) (emit_stuck-IsWriter reason rekicks retries)

pub escalate_stuck_task-IsWriter :
    (id : ℕ) (reason : String) (rekicks retries : ℕ)
    → IsWriter false (escalate_stuck_task id reason rekicks retries)
unfolding escalate_stuck_task
escalate_stuck_task-IsWriter id reason rekicks retries = IsWriter-transaction _ (
    IsWriter-reader _ λ db.
      IsWriter-bind (update_returning id held (set_reason reason db.clock)) _
        (IsWriter-update_returning id _ _ (IsMinor-set_reason reason db.clock))
        (supersede-IsWriter id reason rekicks retries))

-- What an INSERT that commits has been through.
pub enqueue_task-cases :
    (env : Env) (n : NewTask) (db : Db)
    → (let t = new_row env db.clock n in
        (find_task n.id db.tasks ≡ none)
        × (any (λ d. d == n.id) n.depends_on ≡ false)
        × (str_eq n.workstream "" ≡ false)
        × (enqueue_task env n db ≡ (
          ok t,
          log
              (new_event db (some n.id) n.workstream (task_created up_for_grabs n.kind n.priority))
              (record db { tasks = db.tasks ++ t ∷ [] }),
        )))
      ⊎ ((e : Error) × (enqueue_task env n db ≡ (err e, db)))
unfolding enqueue_task
enqueue_task-cases env n db = elim (Option-cases (find_task n.id db.tasks)) [
  | inr (t, f) ↦ inr (unique_violation, rw f refl)
  | inl f ↦ elim (Bool-cases (any (λ d. d == n.id) n.depends_on)) [
    | inl a ↦ inr (dependency_cycle n.id, rw (f, a) refl)
    | inr a ↦ elim (Bool-cases (str_eq n.workstream "")) [
      | inl w ↦ inr (
        value_error "event workstream must be non-empty",
        rw (f, a) (rw (append_event_unnamed, w) refl),
      )
      | inr w ↦ inl (f, a, w, rw (f, a) (rw (append_event_named, w) refl))
    ]
  ]
]

pub enqueue_task-IsWriter : (env : Env) (n : NewTask) → IsWriter false (enqueue_task env n)
unfolding new_row reports_hop
enqueue_task-IsWriter env n = record {
  writes = λ db. elim (enqueue_task-cases env n db) [
    | inl (f, a, w, r) ↦
        rw r (also (also done (create (new_row env db.clock n) f refl w)) (append _ refl))
    | inr (e, r) ↦ rw r done
  ];
}
