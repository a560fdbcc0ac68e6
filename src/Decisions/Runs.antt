-- ===== src/Decisions/Runs.antt =====
-- Any calls of runtime/decisions.py and of the queue, in any order.
use ai_studio.Prelude.{
  Bool, str_eq, suc, ◌++◌, ℕ, String, true, false, Option, none, some, List, [], ◌∷◌, ◌==◌, ◌&&◌,
  ◌≡◌, inl, inr, refl, ◌∙◌, ap, arith, any, Bool-cases, ==_iff, ok, err,
}
use ai_studio.TaskState.{blocked, up_for_grabs}
use ai_studio.Db.{Db, Task}
use ai_studio.Db.Action.{Outcome}
use ai_studio.Tasks.Transition.{transition}
use ai_studio.Tasks.Calls.{run as run_queue}
use ai_studio.Tasks.Calls
use ai_studio.Decisions.{
  told, Decision, still_open, Desk, rolled_back, Question, park, new_decision, insert_decision,
  parked, requested_for, request_decision, settle, find_decision, resume, settled_row, resumed,
  resume_task, resolve_row, answering, withdrawing, answer_decision, withdraw_decision,
}
use ai_studio.Decisions.Laws.{find_decision-append}

pub data Call : Type 0 where
  ask : Question → Call
  answer : (id : ℕ) → (text resolver : String) → (now : Option ℕ) → Call
  withdraw : (id : ℕ) → (resolver : String) → (now : Option ℕ) → Call
  queue : Calls.Call → Call

unfoldable pub perform : Call → Desk → Desk
perform (ask q) k = (request_decision q k).1
perform (answer id text resolver now) k = (answer_decision id text resolver now k).1
perform (withdraw id resolver now) k = (withdraw_decision id resolver now k).1
perform (queue c) k = record k { db = run_queue (c ∷ []) k.db }

unfoldable pub run : List Call → Desk → Desk
unfolding perform
run [] k = k
run (c ∷ cs) k = run cs (perform c k)

-- What may become of a decision: what was asked stays, and a decision that is settled stays whole.
pub record Settles (d d' : Decision) : Type 0 where
  pub question : d'.question ≡ d.question
  pub options : d'.options ≡ d.options
  pub task : d'.dependent_task_id ≡ d.dependent_task_id
  pub final : still_open d.status ≡ false → d' ≡ d

Settles-refl : (d : Decision) → Settles d d
Settles-refl d = record { question = refl; options = refl; task = refl; final = λ e. refl }

Settles-trans : (a b c : Decision) → Settles a b → Settles b c → Settles a c
Settles-trans a b c p q = record {
  question = q.question ∙ p.question;
  options = q.options ∙ p.options;
  task = q.task ∙ p.task;
  final = λ e.
      let same = p.final e in q.final (ap (λ (d : Decision). still_open d.status) same ∙ e) ∙ same;
}

-- The decision is stored as one that it may become.
abbrev Kept : ℕ → Decision → Desk → Type 0
Kept id d k = (d' : Decision) × (find_decision id k.decisions ≡ some d') × Settles d d'

-- An UPDATE of open rows that keeps what was asked.
record IsSettling (f : Decision → Decision) : Type 0 where
  id : (d : Decision) → (f d).id ≡ d.id
  question : (d : Decision) → (f d).question ≡ d.question
  options : (d : Decision) → (f d).options ≡ d.options
  task : (d : Decision) → (f d).dependent_task_id ≡ d.dependent_task_id

module _ (f : Decision → Decision) (s : IsSettling f) where
  find_decision-settle :
      (id j : ℕ) (ds : List Decision) (d : Decision)
      → find_decision id ds ≡ some d
      → (d' : Decision) × (find_decision id (settle j f ds) ≡ some d') × Settles d d'
  unfolding find_decision settle
  find_decision-settle id j [] d h = cc
  find_decision-settle id j (x ∷ ds) d h = elim (Bool-cases (x.id == id)) [
    | inr e ↦
        let (d', g, w) = find_decision-settle id j ds d (rw e at h) in
        elim (Bool-cases (x.id == j && still_open x.status)) [
          | inl b ↦ let i = s.id x in (d', rw b (rw i (rw e g)), w)
          | inr b ↦ (d', rw (b, e) g, w)
        ]
    | inl e ↦
        let same : x ≡ d = ground arith in
        elim (Bool-cases (x.id == j && still_open x.status)) [
          | inl b ↦
              let i = s.id x in
              (
                f x,
                rw b (rw i (rw e refl)),
                rw (← same) (record {
                  question = s.question x;
                  options = s.options x;
                  task = s.task x;
                  final = λ n. cc (not_open x j b n);
                }),
              )
          | inr b ↦ (x, rw (b, e) refl, rw (← same) (Settles-refl x))
        ]
  ]
    where
      not_open :
          (x : Decision) (j : ℕ)
          → (x.id == j && still_open x.status) ≡ true
          → still_open x.status ≡ false
          → true ≡ false
      not_open x j b n = ground arith

not_listed :
    (id : ℕ) (ds : List Decision)
    → any (λ (x : Decision). x.id == id) ds ≡ false
    → find_decision id ds ≡ none
unfolding find_decision
not_listed id [] h = refl
not_listed id (x ∷ ds) h =
    let n : (x.id == id) ≡ false = ground arith in rw n (not_listed id ds (ground arith))

module _ (id : ℕ) (d : Decision) where
  told-Kept {ℓ} :
      {A : Type ℓ} (k mid : Desk) (requested : Bool) (x : Decision) (a : A)
      → Kept id d k
      → Kept id d mid
      → Kept id d (rolled_back k (told requested x a mid)).1
  told-Kept k mid requested x a before after = elim (Bool-cases (str_eq x.workstream "")) [
    | inl e ↦ rw e before
    | inr e ↦ rw e after
  ]

  resumed-Kept :
      (k mid : Desk) (x : Decision) (r : Outcome (Option Task) × Db)
      → Kept id d k
      → Kept id d mid
      → Kept id d (rolled_back k (resumed x r.0 (record mid { db = r.1 }))).1
  resumed-Kept k mid x (ok t, db) a b = told-Kept k (record mid { db = db }) false x (some x) a b
  resumed-Kept k mid x (err e, db) a b = a

  resume_task-Kept :
      (k mid : Desk) (x : Decision) (t : Option ℕ)
      → Kept id d k
      → Kept id d mid
      → Kept id d (rolled_back k (resume_task x t mid)).1
  resume_task-Kept k mid x none a b = told-Kept k mid false x (some x) a b
  resume_task-Kept k mid x (some t) a b =
      resumed-Kept k mid x (transition t up_for_grabs resume mid.db) a b

  resolve_row-Kept :
      (k : Desk) (j : ℕ) (f : Decision → Decision) (o : Option Decision)
      → IsSettling f
      → find_decision id k.decisions ≡ some d
      → Kept id d (rolled_back k (resolve_row j f o k)).1
  resolve_row-Kept k j f none s h = (d, h, Settles-refl d)
  resolve_row-Kept k j f (some x) s h =
      resume_task-Kept k (record k { decisions = settle j f k.decisions }) x x.dependent_task_id
        (d, h, Settles-refl d) (find_decision-settle f s id j k.decisions d h)

  insert-Kept :
      (k mid : Desk) (q : Question)
      → mid.decisions ≡ k.decisions
      → find_decision id k.decisions ≡ some d
      → Kept id d (rolled_back k (insert_decision q mid)).1
  unfolding insert_decision
  insert-Kept k mid q same h =
      elim (Bool-cases (any (λ (x : Decision). x.id == q.id) mid.decisions)) [
        | inl e ↦ rw e (d, h, Settles-refl d)
        | inr e ↦
            let stored : find_decision id mid.decisions ≡ some d = rw same h in
            let row = new_decision q mid in
            rw e (
              told-Kept k
                (record mid { decisions = mid.decisions ++ row ∷ []; next_seq = suc mid.next_seq })
                true row row (d, h, Settles-refl d)
                (
                  d,
                  find_decision-append id mid.decisions row e
                      ∙ rw (absent mid.decisions e stored) stored,
                  Settles-refl d,
                ))
      ]
    where
      absent :
          (ds : List Decision)
          → any (λ (x : Decision). x.id == q.id) ds ≡ false
          → find_decision id ds ≡ some d
          → (q.id == id) ≡ false
      absent ds e g = elim (Bool-cases (q.id == id)) [
        | inr n ↦ n
        | inl n ↦ let bad = not_listed id ds (rw ((==_iff q.id id).0 n) at e) in cc
      ]

  parked-Kept :
      (k : Desk) (q : Question) (t : ℕ) (r : Outcome (Option Task) × Db)
      → find_decision id k.decisions ≡ some d
      → Kept id d (rolled_back k (parked q t r.0 (record k { db = r.1 }))).1
  parked-Kept k q t (ok none, db) h = (d, h, Settles-refl d)
  parked-Kept k q t (ok (some x), db) h = insert-Kept k (record k { db = db }) q refl h
  parked-Kept k q t (err e, db) h = (d, h, Settles-refl d)

  requested_for-Kept :
      (k : Desk) (q : Question) (t : Option ℕ)
      → find_decision id k.decisions ≡ some d
      → Kept id d (rolled_back k (requested_for q t k)).1
  requested_for-Kept k q none h = insert-Kept k k q refl h
  requested_for-Kept k q (some t) h = parked-Kept k q t (transition t blocked (park q.id) k.db) h

  perform-Kept :
      (c : Call) (k : Desk) → find_decision id k.decisions ≡ some d → Kept id d (perform c k)
  unfolding perform request_decision answer_decision withdraw_decision
  perform-Kept (ask q) k h = requested_for-Kept k q q.dependent_task_id h
  perform-Kept (answer j text resolver now) k h =
      let f = answering text resolver now k.db.clock in
      resolve_row-Kept k j f (settled_row f (find_decision j k.decisions))
        (record { id = λ x. refl; question = λ x. refl; options = λ x. refl; task = λ x. refl }) h
  perform-Kept (withdraw j resolver now) k h =
      let f = withdrawing resolver now k.db.clock in
      resolve_row-Kept k j f (settled_row f (find_decision j k.decisions))
        (record { id = λ x. refl; question = λ x. refl; options = λ x. refl; task = λ x. refl }) h
  perform-Kept (queue c) k h = (d, h, Settles-refl d)

-- After any calls, by anyone, of the decisions and of the queue: a decision that was recorded is still
-- recorded, with the same question, options and task, and one that was answered or withdrawn is still
-- exactly as it was. So a decision is resolved at most once.
pub run-Settles :
    (cs : List Call) (k : Desk) (id : ℕ) (d : Decision)
    → find_decision id k.decisions ≡ some d
    → (d' : Decision) × (find_decision id (run cs k).decisions ≡ some d') × Settles d d'
unfolding run
run-Settles [] k id d h = (d, h, Settles-refl d)
run-Settles (c ∷ cs) k id d h =
    let (a, f, p) = perform-Kept id d c k h in
    let (b, g, q) = run-Settles cs (perform c k) id a f in (b, g, Settles-trans d a b p q)
