-- ===== src/Workflow/Validate.antt =====
-- packages/shared/src/workflow.ts: validation of a definition's graph. A message is represented by
-- the values that its sentence interpolates; what the Zod schema makes of the input is an argument.
pub mod Walk
pub mod Connected
pub mod Sets
pub mod Issues
pub mod WellFormed
use Prim.Native.String.{compare}
use text.Mathlib.Text.{is_le}
use teskra.Base.{
  String, ◌==◌, ℕ, zero, suc, ◌+◌, Bool, true, false, not, ◌&&◌, List, [], ◌∷◌, ◌++◌, map, Option,
  none, some, length, keep, includes, lookup, insert, is_empty, if◌then◌else◌,
}
use mathlib.Core.List.{reverse}
use teskra.Workflow.Types.{NodeType, Node, Definition, node_type}
use teskra.Workflow.Graph.{
  NormalizedDependency, condition_outcomes, normalize_depends_on, set_add,
  active_node_ids_for_iteration, node_map, deps_of, has_key, find_dependency_cycle,
}

pub data Phase : Type 0 where
  first_phase subsequent_phase : Phase

pub data Issue : Type 0 where
  duplicate_node_id : (id : String) (existing repeated : NodeType) → Issue
  unknown_dependency : (node dependency : String) → Issue
  invalid_condition_edge : (node on : String) (upstream_type : NodeType) (upstream : String) → Issue
  dependency_cycle : List String → Issue
  nodes_disconnected : List String → Phase → Issue
  no_active_terminal : Phase → Issue

-- `terminalNodeIds`: the ids that no dependency names.
pub add_dependencies : List NormalizedDependency → List String → List String
add_dependencies [] s = s
add_dependencies (d ∷ ds) s = add_dependencies ds (set_add d.node s)

pub depended_on : List Node → List String → List String
depended_on [] s = s
depended_on (n ∷ ns) s = depended_on ns (add_dependencies (normalize_depends_on n.depends_on) s)

pub add_ids : List String → List String → List String
add_ids [] s = s
add_ids (x ∷ xs) s = add_ids xs (set_add x s)

abbrev pub ids_of : List Node → List String
ids_of ns = map (λ (n : Node). n.id) ns

pub terminal_node_ids : Definition → List String
unfolding depended_on add_dependencies add_ids
terminal_node_ids d =
    let named = depended_on d.steps [] in
    add_ids (keep (λ id. not (includes named id)) (ids_of d.steps)) []

-- The queue is popped at its end, which is the head here.
pub push_nodes : List NormalizedDependency → List String → List String
push_nodes [] q = q
push_nodes (d ∷ ds) q = push_nodes ds (d.node ∷ q)

-- The loop `while (queue.length > 0)`; none: out of fuel.
pub walk : ℕ → List (String × Node) → List String → List String → Option (List String)
walk zero nodes q reaching = none
walk (suc f) nodes [] reaching = some reaching
walk (suc f) nodes (id ∷ q) reaching =
    let skip = walk f nodes q reaching in
    let next = walk f nodes (push_nodes (deps_of nodes id) q) (reaching ++ id ∷ []) in
    if includes reaching id then skip else next

pub deps_count : List (String × Node) → ℕ
deps_count [] = 0
deps_count ((k, n) ∷ ns) = length (normalize_depends_on n.depends_on) + deps_count ns

abbrev pub or_nil : Option (List String) → List String
or_nil none = []
or_nil (some xs) = xs

pub reaching_from : List (String × Node) → List String → List String
unfolding walk deps_count
reaching_from nodes terminals =
    or_nil (walk (suc (length terminals + deps_count nodes)) nodes (reverse terminals) [])

-- `Array.prototype.sort` on texts.
pub sort_insert : String → List String → List String
sort_insert x [] = x ∷ []
sort_insert x (y ∷ ys) = if is_le (compare x y) then x ∷ y ∷ ys else y ∷ sort_insert x ys

pub sort : List String → List String
sort [] = []
sort (x ∷ xs) = sort_insert x (sort xs)

abbrev pub phase_number : Phase → ℕ
phase_number first_phase = 1
phase_number subsequent_phase = 2

pub active_terminals : Definition → Phase → List String
active_terminals d p =
    let active = active_node_ids_for_iteration d (phase_number p) in
    keep (λ id. includes active id) (terminal_node_ids d)

-- `unreachableAfterFiltering(definition, phase).disconnected`
pub disconnected : Definition → Phase → List String
unfolding sort sort_insert reaching_from active_terminals
disconnected d p =
    let reaching = reaching_from (node_map d) (active_terminals d p) in
    sort
      (keep (λ id. not (includes reaching id)) (active_node_ids_for_iteration d (phase_number p)))

-- The four groups of checks of `validateGraph`.
pub duplicate_issues : List Node → List (String × Node) → List Issue
duplicate_issues [] by_id = []
duplicate_issues (n ∷ ns) by_id = elim (lookup n.id by_id) [
  | some existing ↦
      duplicate_node_id n.id (node_type existing) (node_type n) ∷ duplicate_issues ns by_id
  | none ↦ duplicate_issues ns (insert n.id n by_id)
]

pub on_issues : String → Node → Option String → List Issue
on_issues id upstream none = []
on_issues id upstream (some on) =
    if includes (condition_outcomes (node_type upstream)) on
    then []
    else invalid_condition_edge id on (node_type upstream) upstream.id ∷ []

pub dependency_issues : List (String × Node) → String → List NormalizedDependency → List Issue
unfolding on_issues
dependency_issues by_id id [] = []
dependency_issues by_id id (d ∷ ds) = elim (lookup d.node by_id) [
  | none ↦ unknown_dependency id d.node ∷ dependency_issues by_id id ds
  | some upstream ↦ on_issues id upstream d.on ++ dependency_issues by_id id ds
]

pub edge_issues : List (String × Node) → List Node → List Issue
unfolding dependency_issues
edge_issues by_id [] = []
edge_issues by_id (n ∷ ns) =
    dependency_issues by_id n.id (normalize_depends_on n.depends_on) ++ edge_issues by_id ns

abbrev pub cycle_issues : Option (List String) → List Issue
cycle_issues none = []
cycle_issues (some c) = dependency_cycle c ∷ []

pub phase_issues : Definition → Phase → List Issue
unfolding disconnected active_terminals
phase_issues d p =
    (if is_empty (disconnected d p) then [] else nodes_disconnected (disconnected d p) p ∷ [])
    ++ (if is_empty (active_terminals d p) then no_active_terminal p ∷ [] else [])

-- Without duplicates the map of `validateGraph`, which keeps the first node of an id, is `node_map`.
pub graph_issues : Definition → List Issue
unfolding edge_issues phase_issues find_dependency_cycle
graph_issues d =
    edge_issues (node_map d) d.steps
    ++ (cycle_issues (find_dependency_cycle d)
        ++ (phase_issues d first_phase ++ phase_issues d subsequent_phase))

unfoldable pub validate_graph : Definition → List Issue
unfolding duplicate_issues graph_issues
validate_graph d =
    let issues = duplicate_issues d.steps [] in if is_empty issues then graph_issues d else issues

-- `workflowDefinitionSchema.safeParse(input)`: a definition, or paths and messages.
pub data Parsed : Type 0 where
  success : Definition → Parsed
  failure : List (String × String) → Parsed

pub data Validation : Type 0 where
  valid : Definition → Validation
  invalid_graph : List Issue → Validation
  invalid_shape : List (String × String) → Validation

unfoldable pub validate_workflow_definition : Parsed → Validation
unfolding validate_graph
validate_workflow_definition (failure issues) = invalid_shape issues
validate_workflow_definition (success d) =
    if is_empty (validate_graph d) then valid d else invalid_graph (validate_graph d)

-- What a run of the validation computes with.
unfoldable pub validation_runs : Unit {0}
unfolding validate_workflow_definition active_terminals terminal_node_ids
    active_node_ids_for_iteration push_nodes
validation_runs = tt
