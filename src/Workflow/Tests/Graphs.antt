-- ===== src/Workflow/Tests/Graphs.antt =====
-- Runs of the graph validation.
use teskra.Base.{◌≡◌, ◌↔◌, refl, [], ◌∷◌, none, some}
use teskra.Workflow.Types.{shell}
use teskra.Workflow.Graph.{find_dependency_cycle, node_map}
use teskra.Workflow.Graph.Relations.{IsCycle, IsAcyclic}
use teskra.Workflow.Graph.Cycle.{find_dependency_cycle-IsCycle, find_dependency_cycle-eq-none_iff}
use teskra.Workflow.Validate.{
  unknown_dependency, invalid_condition_edge, validate_graph, success, valid,
  validate_workflow_definition, validation_runs,
}
use teskra.Workflow.Validate.WellFormed.{IsWellFormed, validate_workflow_definition-valid_iff}
use teskra.Workflow.Tests.Samples.{iterate_definition, looping, misread}

iterate_valid : validate_graph iterate_definition ≡ []
unfolding validation_runs
iterate_valid = refl

looping_cycle : find_dependency_cycle looping ≡ some ("a" ∷ "b" ∷ "a" ∷ [])
unfolding find_dependency_cycle
looping_cycle = refl

misread_issues :
    validate_graph misread
    ≡ invalid_condition_edge "b" "approve" shell "a" ∷ unknown_dependency "b" "z" ∷ []
unfolding validation_runs
misread_issues = refl

find_dependency_cycle-IsCycle_example : IsCycle (node_map looping) ("a" ∷ "b" ∷ "a" ∷ [])
find_dependency_cycle-IsCycle_example =
    find_dependency_cycle-IsCycle looping ("a" ∷ "b" ∷ "a" ∷ []) looping_cycle

find_dependency_cycle-eq-none_iff_example :
    (find_dependency_cycle iterate_definition ≡ none) ↔ IsAcyclic iterate_definition
find_dependency_cycle-eq-none_iff_example = find_dependency_cycle-eq-none_iff iterate_definition

validate_workflow_definition-valid_iff_example :
    (validate_workflow_definition (success iterate_definition) ≡ valid iterate_definition)
    ↔ ((success iterate_definition ≡ success iterate_definition) × IsWellFormed iterate_definition)
validate_workflow_definition-valid_iff_example =
    validate_workflow_definition-valid_iff (success iterate_definition) iterate_definition
