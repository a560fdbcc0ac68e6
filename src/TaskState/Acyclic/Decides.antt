-- ===== src/TaskState/Acyclic/Decides.antt =====
-- What `assert_acyclic` decides.
use ai_studio.Prelude.{
  ℕ, suc, List, [], ◌∷◌, ◌≡◌, ◌≢◌, ◌↔◌, inl, inr, refl, arith, get, length, In, All-In,
}
use ai_studio.TaskState.Acyclic.{
  Color, white, gray, black, color_of, Edges, deps_of, Outcome, done, raised, out_of_fuel,
  CycleError, accepted, rejected, unfinished, visit_all, nodes, all_white, assert_acyclic, Walk,
  edge, more, IsAcyclic,
}
use ai_studio.TaskState.Acyclic.Colors.{result_of}
use ai_studio.TaskState.Acyclic.Order.{Ordered, no_return, visit_all-Ordered}
use ai_studio.TaskState.Acyclic.Cycle.{HasCycle, visit_all_cycle}
use ai_studio.TaskState.Acyclic.Fuel.{In-nodes_of_dep, visit_all-Ends, whites-lt-fuel}

color_of-all_white : (edges : Edges) (m : ℕ) → color_of (all_white edges) m ≡ white
unfolding color_of get
color_of-all_white [] m = refl
color_of-all_white ((k, v) ∷ edges) m = ground (arith, color_of-all_white edges m)

start-Ordered : (edges : Edges) → Ordered edges (all_white edges)
start-Ordered edges = record {
  order = [];
  ordered = tt;
  listed = λ m. (λ b. let w = color_of-all_white edges m in ground arith, λ i. absurd i);
}

no_gray : (edges : Edges) (m : ℕ) → color_of (all_white edges) m ≢ gray
no_gray edges m g = let w = color_of-all_white edges m in ground arith

first_dep : {edges : Edges} {n m : ℕ} → Walk edges n m → (d : ℕ) × In d (deps_of edges n)
first_dep {m = m} (edge e) = (m, e)
first_dep (more {d = d} e w) = (d, e)

outcome_of : (edges : Edges) → Outcome
outcome_of edges = visit_all edges (suc (length edges)) (nodes edges) (all_white edges)

-- What a finished search shows, outcome by outcome.
module _ (edges : Edges) where
  IsAcyclic-of_done : (c : List (ℕ × Color)) → outcome_of edges ≡ done c → IsAcyclic edges
  unfolding outcome_of
  IsAcyclic-of_done c h n w =
      let (o, kept, blacks) =
        visit_all-Ordered edges (suc (length edges)) (nodes edges) (all_white edges) c h
          (no_gray edges) (start-Ordered edges) in
      let (d, i) = first_dep w in
      let b =
        All-In (λ m. color_of c m ≡ black) (nodes edges) n blacks (In-nodes_of_dep edges n d i) in
      no_return edges o.order n o.ordered ((o.listed n).0 b) w

  cycle_of_raised : (e : CycleError) → outcome_of edges ≡ raised e → HasCycle edges
  unfolding outcome_of
  cycle_of_raised e h =
      visit_all_cycle edges (suc (length edges)) (nodes edges) (all_white edges) e (no_gray edges) h

  search_ends : outcome_of edges ≢ out_of_fuel
  unfolding outcome_of
  search_ends =
      visit_all-Ends edges (suc (length edges)) (nodes edges) (all_white edges)
        (whites-lt-fuel edges (all_white edges))

  -- The search always reaches a verdict; it accepts exactly the edges along which no chain of
  -- prerequisites returns to the task that it starts from, and raises only where one does.
  pub assert_acyclic_decides :
      (assert_acyclic edges ≢ unfinished)
      × ((assert_acyclic edges ≡ accepted) ↔ IsAcyclic edges)
      × ((e : CycleError) → assert_acyclic edges ≡ rejected e → HasCycle edges)
  unfolding assert_acyclic outcome_of
  assert_acyclic_decides = elim (result_of (outcome_of edges)) [
    | inl (c, h) ↦ (
      λ q. ground arith,
      (λ _. IsAcyclic-of_done c h, λ _. ground arith),
      λ e q. absurd (ground arith),
    )
    | inr (inl (x, h)) ↦
        let (n, w) = cycle_of_raised x h in
        (λ q. ground arith, (λ q. absurd (ground arith), λ a. absurd (a n w)), λ e q. (n, w))
    | inr (inr h) ↦ absurd (search_ends h)
  ]
