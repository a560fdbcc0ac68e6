-- ===== src/Examples/Lifecycle.antt =====
-- Tests of runtime/task_state.py.
use ai_studio.Prelude.{false, true, List, [], ◌∷◌, ◌≡◌, ◌≢◌, ◌↔◌, refl, ok, err, get, put}
use ai_studio.TaskState.{
  Status, up_for_grabs, claimed, merged, wire, of_wire, allowed, can_transition, assert_transition,
  unknown_source, unknown_target, illegal,
}
use ai_studio.TaskState.Lifecycle.{Run, Run-merged}
use ai_studio.TaskState.Acyclic.{
  Edges, accepted, rejected, unfinished, self_dependency, cycle, CycleError, assert_acyclic,
  visit_all, visit, visit_deps, color_of, deps_of, IsAcyclic,
}
use ai_studio.TaskState.Acyclic.Cycle.{HasCycle}
use ai_studio.TaskState.Acyclic.Decides.{assert_acyclic_decides}

refusals :
    (assert_transition "done" "merged" ≡ err (unknown_source "done"))
    × (assert_transition "claimed" "done" ≡ err (unknown_target "done"))
    × (assert_transition "merged" "claimed" ≡ err (illegal merged claimed))
    × (assert_transition "claimed" "in_progress" ≡ ok tt)
unfolding assert_transition of_wire wire allowed
refusals = (refl, refl, refl, refl)

permitted :
    (can_transition "claimed" "in_progress" ≡ true) × (can_transition "claimed" "done" ≡ false)
unfolding can_transition of_wire wire allowed
permitted = (refl, refl)

Run-merged_example : (path : List Status) × Run up_for_grabs path merged
Run-merged_example = Run-merged up_for_grabs (λ e. cc)

-- Tasks 2 and 3 wait for 1, and 3 for 2 too; in the other set each of two waits for the other.
abbrev plan : Edges
plan = (1, []) ∷ (2, 1 ∷ []) ∷ (3, 1 ∷ 2 ∷ []) ∷ []

abbrev tangled : Edges
tangled = (1, 2 ∷ []) ∷ (2, 3 ∷ 1 ∷ []) ∷ []

verdicts :
    (assert_acyclic plan ≡ accepted)
    × (assert_acyclic tangled ≡ rejected (cycle (1 ∷ 2 ∷ 1 ∷ [])))
    × (assert_acyclic ((7, 7 ∷ []) ∷ []) ≡ rejected (self_dependency 7))
unfolding assert_acyclic visit_all visit visit_deps color_of deps_of get put
verdicts = (refl, refl, refl)

assert_acyclic_decides_example :
    (assert_acyclic tangled ≢ unfinished)
    × ((assert_acyclic tangled ≡ accepted) ↔ IsAcyclic tangled)
    × ((e : CycleError) → assert_acyclic tangled ≡ rejected e → HasCycle tangled)
assert_acyclic_decides_example = assert_acyclic_decides tangled
