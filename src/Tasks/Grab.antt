-- ===== src/Tasks/Grab.antt =====
-- `grab_task`, `start_task` and `claim_task` of runtime/tasks.py.
pub mod Laws
use ai_studio.Prelude.{
  ℕ, String, Bool, true, false, Option, none, some, List, [], ◌∷◌, ◌==◌, ◌&&◌, ◌||◌, not, any, all,
  keep, str_eq, if◌then◌else◌, find?, first_by, ok, err,
}
use ai_studio.TaskState.{Status, up_for_grabs, claimed, in_progress, merged, status_eq}
use ai_studio.Db.{Db, Task, Assignee, IdentityTrust, TrustState, trusted, quarantined, revoked}
use ai_studio.Db.Action.{Action, Outcome, pure, throw, ◌>>=◌, ◌>>◌, continue, transaction}
use ai_studio.Tasks.Transition.{Options, defaults, transition}
use ai_studio.Tasks.Query.{SortTerm, SortFragment, FilterValue, Clause, build_sort, build_filter}
use ai_studio.Tasks.Selection.{assignee_text, satisfies, precedes}

-- `_QUARANTINE_TRUST_STATES`
unfoldable pub fenced : TrustState → Bool
fenced trusted = false
fenced quarantined = true
fenced revoked = true

unfoldable pub find_trust : String → List IdentityTrust → Option IdentityTrust
find_trust identity rows = find? (λ r. str_eq r.identity identity) rows

-- `_identity_quarantined`
unfoldable pub identity_quarantined : Db → String → Bool
unfolding fenced find_trust
identity_quarantined db identity =
    if str_eq identity ""
    then false
    else elim (find_trust identity db.trust) [ none ↦ false | some row ↦ fenced row.trust_state ]

-- The subquery of the dependency gate: a prerequisite that is a row and is not merged.
unfoldable pub unmet : List Task → Task → Bool
unmet tasks t =
    any (λ dep. any (λ p. p.id == dep && not (status_eq p.status merged)) tasks) t.depends_on

abbrev pub assignee_fits : Option Assignee → Task → Bool
assignee_fits none t = true
assignee_fits (some a) t = elim t.assignee [
  | none ↦ true
  | some b ↦ str_eq (assignee_text b) (assignee_text a)
]

abbrev pub workstream_fits : Option String → Task → Bool
workstream_fits none t = true
workstream_fits (some w) t = str_eq t.workstream w

-- The WHERE clause that `grab_task` and `ready_tasks` share.
unfoldable pub grabbable : Option Assignee → Option String → List Clause → List Task → Task → Bool
unfolding unmet
grabbable assignee workstream clauses tasks t =
    status_eq t.status up_for_grabs
    && assignee_fits assignee t
    && workstream_fits workstream t
    && satisfies clauses t
    && not (unmet tasks t)

-- The arguments of `grab_task`. `busy` holds of the rows that other transactions have locked, and
-- `collate` is the order of texts in the database.
pub record Request : Type 0 where
  pub worker_id : String
  pub agent_type : Option String
  pub assignee : Option Assignee
  pub workstream : Option String
  pub sort : Option (List SortTerm)
  pub filter : List (String × FilterValue)
  pub busy : ℕ → Bool
  pub collate : String → String → Bool

abbrev pub grab_options : Request → Options
grab_options q = record defaults {
  agent_id = some q.worker_id;
  agent_type = q.agent_type;
  expected_from = some (up_for_grabs ∷ []);
  claimed_by = some (some q.worker_id);
  set_claimed_at = true;
  set_heartbeat = true;
}

-- The row that the query picks, past the locked ones.
unfoldable pub pick : Request → List SortFragment → List Clause → List Task → Option Task
unfolding grabbable
pick q order clauses tasks =
    first_by (precedes q.collate order)
      (keep (λ t. grabbable q.assignee q.workstream clauses tasks t && not (q.busy t.id)) tasks)

abbrev pub claim_picked : Request → Option Task → Action (Option Task)
claim_picked q none = pure none
claim_picked q (some picked) = transition picked.id claimed (grab_options q)

unfoldable pub grab_selected : Request → List SortFragment → List Clause → Action (Option Task)
grab_selected q order clauses = transaction (λ db.
    (if identity_quarantined db q.worker_id
        then pure none
        else claim_picked q (pick q order clauses db.tasks))
      db)

abbrev pub lift {ℓ} : {A : Type ℓ} → Outcome A → Action A
lift r db = (r, db)

unfoldable pub grab_task : Request → Action (Option Task)
grab_task q = do
  order ← lift (build_sort q.sort)
  clauses ← lift (build_filter q.filter)
  grab_selected q order clauses

unfoldable pub start_task : ℕ → String → Option String → Action (Option Task)
start_task task_id worker_id agent_type = transition task_id in_progress (record defaults {
  agent_id = some worker_id;
  agent_type = agent_type;
  expected_from = some (claimed ∷ []);
  set_heartbeat = true;
  set_last_progress = true;
})

-- `started or grabbed`
abbrev pub or_grabbed : Task → Option Task → Option Task
or_grabbed grabbed none = some grabbed
or_grabbed grabbed (some started) = some started

abbrev pub start_grabbed : Request → Option Task → Action (Option Task)
start_grabbed q none = pure none
start_grabbed q (some t) = do
  started ← start_task t.id q.worker_id q.agent_type
  pure (or_grabbed t started)

unfoldable pub claim_task : Request → Action (Option Task)
claim_task q = do grabbed ← grab_task q; start_grabbed q grabbed
