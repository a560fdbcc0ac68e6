-- ===== src/TaskState/Acyclic/Cycle.antt =====
-- Where the search raises `DependencyCycle`, there is a walk that returns to its start.
use ai_studio.Prelude.{
  ℕ, zero, suc, List, [], ◌∷◌, ◌++◌, ◌≡◌, ◌≢◌, ◌⊎◌, inl, inr, refl, sym, arith, ◌==◌, put, In,
  Bool-cases, subst,
}
use ai_studio.TaskState.Acyclic.{
  white, gray, black, Colors, color_of, Edges, deps_of, Outcome, done, raised, out_of_fuel,
  CycleError, and_then, visit_deps, visit, visit_all, Walk, edge, more,
}
use ai_studio.TaskState.Acyclic.Colors.{color_of-put, Color-cases, Keeps, result_of, visit-Keeps}

module _ (edges : Edges) where
  abbrev pub HasCycle : Type 0
  HasCycle = (n : ℕ) × Walk edges n n

  Walk-then : {a b c : ℕ} → Walk edges a b → In c (deps_of edges b) → Walk edges a c
  Walk-then (edge e) last = more e (edge last)
  Walk-then (more e w) last = more e (Walk-then w last)

  -- The gray nodes lead to `n`.
  abbrev pub Leads : Colors → ℕ → Type 0
  Leads c n = (m : ℕ) → color_of c m ≡ gray → Walk edges m n

  abbrev RaisesCycle : (ℕ → List ℕ → Colors → Outcome) → Type 0
  RaisesCycle go =
      (n : ℕ) (stack : List ℕ) (c : Colors) (e : CycleError)
      → color_of c n ≡ white
      → Leads c n
      → go n stack c ≡ raised e
      → HasCycle

  -- In the loop the gray nodes are `n` and those that lead to it.
  visit_deps_cycle :
      (go : ℕ → List ℕ → Colors → Outcome) (n : ℕ) (stack deps : List ℕ) (c : Colors)
      (e : CycleError)
      → Keeps go
      → RaisesCycle go
      → ((d : ℕ) → In d deps → In d (deps_of edges n))
      → ((m : ℕ) → color_of c m ≡ gray → (m ≡ n) ⊎ Walk edges m n)
      → visit_deps go n stack deps c ≡ raised e
      → HasCycle
  unfolding visit_deps
  visit_deps_cycle go n stack [] c e k r sub g h = absurd (ground arith)
  visit_deps_cycle go n stack (d ∷ deps) c e k r sub g h =
      let to_d = sub d (inl refl) in
      let sub' = λ (x : ℕ) (i : In x deps). sub x (inr i) in
      let lead = λ (m : ℕ) (q : (m ≡ n) ⊎ Walk edges m n). close m d to_d q in
      elim (Bool-cases (d == n)) [
        | inl q ↦
            let same : d ≡ n = ground arith in
            (n, edge (subst (λ x. In x (deps_of edges n)) same to_d))
        | inr q ↦ elim (Color-cases (color_of c d)) [
          | inl w ↦ elim (result_of (go d (stack ++ n ∷ []) c)) [
            | inl (mid, gone) ↦
                let (kept, b) = k d (stack ++ n ∷ []) c mid w gone in
                visit_deps_cycle go n stack deps mid e k r sub' (λ m x. g m (kept.gray_only m x))
                  (ground arith)
            | inr (inl (x, gone)) ↦ r d (stack ++ n ∷ []) c x w (λ m x. lead m (g m x)) gone
            | inr (inr gone) ↦ absurd (ground arith)
          ]
          | inr (inl x) ↦ (d, lead d (g d x))
          | inr (inr b) ↦ visit_deps_cycle go n stack deps c e k r sub' g (ground arith)
        ]
      ]
    where
      close : (m d : ℕ) → In d (deps_of edges n) → (m ≡ n) ⊎ Walk edges m n → Walk edges m d
      close m d to_d (inl same) = edge (subst (λ x. In d (deps_of edges x)) (sym same) to_d)
      close m d to_d (inr w) = Walk-then w to_d

  raised_inside :
      (o : Outcome) (n : ℕ) (e : CycleError)
      → and_then o (λ c. done (put n black c)) ≡ raised e
      → o ≡ raised e
  raised_inside (done c) n e h = cc
  raised_inside (raised x) n e h = h
  raised_inside out_of_fuel n e h = cc

  visit_cycle : (fuel : ℕ) → RaisesCycle (visit edges fuel)
  unfolding visit
  visit_cycle zero n stack c e w g h = absurd (ground arith)
  visit_cycle (suc fuel) n stack c e w g h =
      visit_deps_cycle (visit edges fuel) n stack (deps_of edges n) (put n gray c) e
        (visit-Keeps edges fuel) (visit_cycle fuel) (λ d i. i) gray_leads
        (raised_inside (visit_deps (visit edges fuel) n stack (deps_of edges n) (put n gray c)) n e
          h)
    where
      gray_leads : (m : ℕ) → color_of (put n gray c) m ≡ gray → (m ≡ n) ⊎ Walk edges m n
      gray_leads m x = elim (Bool-cases (n == m)) [
        | inl q ↦ inl (ground arith)
        | inr q ↦ inr (g m (ground (arith, color_of-put n m gray c)))
      ]

  pub visit_all_cycle :
      (fuel : ℕ) (ns : List ℕ) (c : Colors) (e : CycleError)
      → ((m : ℕ) → color_of c m ≢ gray)
      → visit_all edges fuel ns c ≡ raised e
      → HasCycle
  unfolding visit_all
  visit_all_cycle fuel [] c e g h = absurd (ground arith)
  visit_all_cycle fuel (n ∷ ns) c e g h = elim (Color-cases (color_of c n)) [
    | inl w ↦ elim (result_of (visit edges fuel n [] c)) [
      | inl (mid, gone) ↦
          visit_all_cycle fuel ns mid e
            (λ m x. g m ((visit-Keeps edges fuel n [] c mid w gone).0.gray_only m x)) (ground arith)
      | inr (inl (x, gone)) ↦ visit_cycle fuel n [] c x w (λ m q. absurd (g m q)) gone
      | inr (inr gone) ↦ absurd (ground arith)
    ]
    | inr (inl x) ↦ absurd (g n x)
    | inr (inr b) ↦ visit_all_cycle fuel ns c e g (ground arith)
  ]
