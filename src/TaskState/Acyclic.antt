-- ===== src/TaskState/Acyclic.antt =====
-- `assert_acyclic` of runtime/task_state.py: a depth-first search with three colors over the
-- dependency edges. `color` is a dictionary, and a raised `DependencyCycle` is a result.
pub mod Colors
pub mod Order
pub mod Cycle
pub mod Fuel
pub mod Decides
use ai_studio.Prelude.{
  ℕ, zero, suc, Option, none, some, List, [], ◌∷◌, ◌++◌, ◌⊎◌, map, ◌==◌, if◌then◌else◌, length,
  Dict, get, put, In,
}

pub data Color : Type 0 where
  white gray black : Color

abbrev pub Edges : Type 0
Edges = Dict (List ℕ)

abbrev pub Colors : Type 0
Colors = Dict Color

-- `color.get(n, WHITE)`
unfoldable pub color_of : Colors → ℕ → Color
color_of color n = elim (get n color) [ none ↦ white | some c ↦ c ]

-- `edges.get(n, [])`
unfoldable pub deps_of : Edges → ℕ → List ℕ
deps_of edges n = elim (get n edges) [ none ↦ [] | some deps ↦ deps ]

-- The messages of `DependencyCycle`: a task on itself, or the nodes of `stack + [n, dep]`.
pub data CycleError : Type 0 where
  self_dependency : ℕ → CycleError
  cycle : List ℕ → CycleError

pub data Outcome : Type 0 where
  done : Colors → Outcome
  raised : CycleError → Outcome
  out_of_fuel : Outcome

abbrev pub and_then : Outcome → (Colors → Outcome) → Outcome
and_then (done color) f = f color
and_then (raised e) f = raised e
and_then out_of_fuel f = out_of_fuel

-- The loop of `visit` over the prerequisites of `n`; `go` is the recursive call.
unfoldable pub visit_deps : (ℕ → List ℕ → Colors → Outcome) → ℕ → List ℕ → List ℕ → Colors → Outcome
visit_deps go n stack [] color = done color
visit_deps go n stack (dep ∷ deps) color =
    if dep == n then raised (self_dependency n) else elim (color_of color dep) [
      | gray ↦ raised (cycle (stack ++ n ∷ dep ∷ []))
      | white ↦ and_then (go dep (stack ++ n ∷ []) color) (visit_deps go n stack deps)
      | black ↦ visit_deps go n stack deps color
    ]

module _ (edges : Edges) where
  unfoldable pub visit : ℕ → ℕ → List ℕ → Colors → Outcome
  visit zero n stack color = out_of_fuel
  visit (suc fuel) n stack color =
      and_then (visit_deps (visit fuel) n stack (deps_of edges n) (put n gray color))
        (λ color'. done (put n black color'))

  -- The loop over the nodes.
  unfoldable pub visit_all : ℕ → List ℕ → Colors → Outcome
  visit_all fuel [] color = done color
  visit_all fuel (node ∷ nodes) color = elim (color_of color node) [
    | white ↦ and_then (visit fuel node [] color) (visit_all fuel nodes)
    | _ ↦ visit_all fuel nodes color
  ]

  abbrev pub nodes : List ℕ
  nodes = map (λ e. e.0) edges

  abbrev pub all_white : Colors
  all_white = map (λ e. (e.0, white)) edges

pub data Verdict : Type 0 where
  accepted : Verdict
  rejected : CycleError → Verdict
  unfinished : Verdict

abbrev pub verdict : Outcome → Verdict
verdict (done color) = accepted
verdict (raised e) = rejected e
verdict out_of_fuel = unfinished

-- One call more than there are nodes is enough fuel for the recursion.
unfoldable pub assert_acyclic : Edges → Verdict
assert_acyclic edges =
    verdict (visit_all edges (suc (length edges)) (nodes edges) (all_white edges))

-- The chains of prerequisites with at least one edge.
pub data Walk (edges : Edges) : ℕ → ℕ → Type 0 where
  edge : {n d : ℕ} → In d (deps_of edges n) → Walk edges n d
  more : {n d m : ℕ} → In d (deps_of edges n) → Walk edges d m → Walk edges n m

abbrev pub IsAcyclic : Edges → Type 0
IsAcyclic edges = (n : ℕ) → ¬ Walk edges n n
