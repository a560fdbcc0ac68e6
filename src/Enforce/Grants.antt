-- ===== src/Enforce/Grants.antt =====
-- Runs of the approval loop: how often an approval lets a tool run.
use ai_studio.Prelude.{
  ℕ, suc, String, Bool, true, false, some, List, [], ◌∷◌, ◌++◌, ◌≡◌, ◌≤◌, ◌+◌, inl, inr, refl,
  arith, ◌&&◌, ◌||◌, ◌==◌, count, find?, Bool-cases, Option-cases, if◌then◌else◌, find?-eq-some,
  str_eq, first_by, keep,
}
use ai_studio.Approvals.{
  Approval, ApprovalStatus, pending, approved, denied, consumed, is_pending, is_approved,
  is_consumed, Note, approval_requested, approval_resolved, tool_invoked, Store, emit, update_row,
  request_row, resolve_approval, resolve_pending, ApprovalAction, by_id, spend, resolved,
  insert_approval, new_approval, created_before, is_open, is_decision,
}

-- The events of a run under the approval, and of its approval by a human.
abbrev pub is_run : ℕ → Note → Bool
is_run i (tool_invoked tool role tier (some j)) = j == i
is_run i _ = false

abbrev pub is_approval : ℕ → Note → Bool
is_approval i (approval_resolved a) = a.id == i && is_approved a.status
is_approval i _ = false

abbrev pub has_id : ℕ → Approval → Bool
has_id i a = a.id == i

-- Approved once: the row is a grant or a spent one.
abbrev pub was_approved : ℕ → Approval → Bool
was_approved i a = a.id == i && (is_approved a.status || is_consumed a.status)

abbrev pub is_spent : ℕ → Approval → Bool
is_spent i a = a.id == i && is_consumed a.status

pub count-append :
    {A : Type 0} (p : A → Bool) (xs ys : List A) → count p (xs ++ ys) ≡ count p xs + count p ys
count-append p [] ys = omega arith
count-append p (x ∷ xs) ys = ground (arith, count-append p xs ys)

-- The books of one approval: its runs are no more than the spent rows, its approvals by a human
-- are the rows that were approved, and it is one row at most.
pub record Books (i : ℕ) (s : Store) : Type 0 where
  pub runs : count (is_run i) s.events ≤ count (is_spent i) s.approvals
  pub approvals : count (is_approval i) s.events ≡ count (was_approved i) s.approvals
  pub rows : count (has_id i) s.approvals ≤ 1
  pub fresh : s.next_id ≤ i → count (has_id i) s.approvals ≡ 0

-- What one update of a row with the id `j` changes in the count.
update_row-count :
    (r p : Approval → Bool) (f : Approval → Approval) (rows : List Approval) (a : Approval)
    → find? p rows ≡ some a
    → count r (update_row p f rows) + count r (a ∷ []) ≡ count r rows + count r (f a ∷ [])
unfolding update_row
update_row-count r p f [] a h = absurd (ground arith)
update_row-count r p f (x ∷ rows) a h = elim (Bool-cases (p x)) [
  | inl e ↦ let this : x ≡ a = ground arith in rw (e, this) (ground arith)
  | inr e ↦ let ih = update_row-count r p f rows a (rw e at h) in rw e (ground arith)
]

is_approved-excludes :
    (st : ApprovalStatus)
    → is_approved st ≡ true
    → (is_consumed st ≡ false) × (is_pending st ≡ false)
is_approved-excludes approved h = (refl, refl)
is_approved-excludes pending h = absurd (ground arith)
is_approved-excludes denied h = absurd (ground arith)
is_approved-excludes consumed h = absurd (ground arith)

is_pending-excludes :
    (st : ApprovalStatus)
    → is_pending st ≡ true
    → (is_consumed st ≡ false) × (is_approved st ≡ false)
is_pending-excludes pending h = (refl, refl)
is_pending-excludes approved h = absurd (ground arith)
is_pending-excludes denied h = absurd (ground arith)
is_pending-excludes consumed h = absurd (ground arith)

is_decision-not_consumed : (st : ApprovalStatus) → is_decision st ≡ true → is_consumed st ≡ false
is_decision-not_consumed approved h = refl
is_decision-not_consumed denied h = refl
is_decision-not_consumed pending h = refl
is_decision-not_consumed consumed h = absurd (ground arith)

module _ (i : ℕ) where
  pub Books-emit :
      (n : Note) (s : Store)
      → is_run i n ≡ false
      → is_approval i n ≡ false
      → Books i s
      → Books i (emit n s)
  Books-emit n s h k b = record {
    runs = let c = count-append (is_run i) s.events (n ∷ []) in let r = b.runs in ground arith;
    approvals =
        let c = count-append (is_approval i) s.events (n ∷ []) in
        let r = b.approvals in ground arith;
    rows = b.rows;
    fresh = b.fresh;
  }

  -- A new row has a new id, and is neither approved nor spent.
  Books-insert :
      (a : ApprovalAction) (fp : String) (s : Store)
      → Books i s
      → Books i (insert_approval (new_approval s a fp) s)
  Books-insert a fp s b =
      let row = new_approval s a fp in
      let c = count-append (has_id i) s.approvals (row ∷ []) in
      let d = count-append (is_spent i) s.approvals (row ∷ []) in
      let e = count-append (was_approved i) s.approvals (row ∷ []) in
      let f = b.fresh in
      let r = b.rows in
      let u = b.runs in
      let v = b.approvals in
      Books-emit (approval_requested row)
        (record s { approvals = s.approvals ++ row ∷ []; next_id = suc s.next_id }) refl refl
        (record {
          runs = ground arith;
          approvals = ground arith;
          rows = ground arith;
          fresh = λ le. ground arith;
        })

  pub Books-request_row :
      (ws : String) (a : ApprovalAction) (fp : String) (s : Store)
      → Books i s
      → Books i (request_row ws a fp s).1
  Books-request_row ws a fp s b =
      elim (Option-cases (first_by created_before (keep (is_open fp) s.approvals))) [
        | inl e ↦ elim (Bool-cases (str_eq ws "")) [
          | inl n ↦ rw (request_row, e) (rw n b)
          | inr n ↦ rw (request_row, e) (rw n (Books-insert a fp s b))
        ]
        | inr (x, e) ↦ rw (request_row, e) b
      ]

  -- A spent row, and the counts of the others.
  pub Books-consume :
      (j : ℕ) (s : Store) (a : Approval)
      → find? (by_id j is_approved) s.approvals ≡ some a
      → Books i s
      → let s' = record s { approvals = update_row (by_id j is_approved) spend s.approvals } in
        Books i s'
        × (count (is_spent i) s'.approvals
            ≡ count (is_spent i) s.approvals + (if a.id == i then 1 else 0))
        × (a.id ≡ j)
  Books-consume j s a h b =
      let (m, p) = find?-eq-some (by_id j is_approved) s.approvals a h in
      let st : is_approved a.status ≡ true = ground arith in
      let n = is_approved-excludes a.status st in
      let c = update_row-count (is_spent i) (by_id j is_approved) spend s.approvals a h in
      let d = update_row-count (was_approved i) (by_id j is_approved) spend s.approvals a h in
      let e = update_row-count (has_id i) (by_id j is_approved) spend s.approvals a h in
      let f = b.fresh in
      let r = b.rows in
      let u = b.runs in
      let v = b.approvals in
      (
        record {
          runs = ground arith;
          approvals = ground arith;
          rows = ground arith;
          fresh = λ le. ground arith;
        },
        ground arith,
        ground arith,
      )

  Books-resolve_row :
      (j : ℕ) (decision : ApprovalStatus) (resolver : String) (s : Store) (a : Approval)
      → is_decision decision ≡ true
      → find? (by_id j is_pending) s.approvals ≡ some a
      → Books i s
      → let f = resolved decision resolver s.clock in
        Books i (
          emit
            (approval_resolved (f a))
            (record s { approvals = update_row (by_id j is_pending) f s.approvals }))
  Books-resolve_row j decision resolver s a ok_decision h b =
      let f = resolved decision resolver s.clock in
      let (m, p) = find?-eq-some (by_id j is_pending) s.approvals a h in
      let st : is_pending a.status ≡ true = ground arith in
      let n = is_pending-excludes a.status st in
      let q = is_decision-not_consumed decision ok_decision in
      let c = update_row-count (is_spent i) (by_id j is_pending) f s.approvals a h in
      let d = update_row-count (was_approved i) (by_id j is_pending) f s.approvals a h in
      let e = update_row-count (has_id i) (by_id j is_pending) f s.approvals a h in
      let g = count-append (is_approval i) s.events (approval_resolved (f a) ∷ []) in
      let k = count-append (is_run i) s.events (approval_resolved (f a) ∷ []) in
      let z = b.fresh in
      let r = b.rows in
      let u = b.runs in
      let v = b.approvals in
      record {
        runs = ground arith;
        approvals = ground arith;
        rows = ground arith;
        fresh = λ le. ground arith;
      }

  pub Books-resolve :
      (j : ℕ) (decision : ApprovalStatus) (resolver ws : String) (s : Store)
      → Books i s
      → Books i (resolve_approval j decision resolver ws s).1
  unfolding resolve_approval
  Books-resolve j decision resolver ws s b = elim (Bool-cases (is_decision decision)) [
    | inr e ↦ rw e b
    | inl e ↦ elim (Option-cases (find? (by_id j is_pending) s.approvals)) [
      | inl f ↦ rw (e, resolve_pending, f) b
      | inr (a, f) ↦ elim (Bool-cases (str_eq ws "")) [
        | inl n ↦ rw (e, resolve_pending, f) (rw n b)
        | inr n ↦
            rw (e, resolve_pending, f) (rw n (Books-resolve_row j decision resolver s a e f b))
      ]
    ]
  ]
