-- ===== src/Workflow/Graph.antt =====
-- packages/shared/src/workflow.ts: the dependency graph of a definition. The depth-first search and
-- the backward walk take fuel; Graph/Cycle and Graph/Walk show that what they are given is enough.
pub mod Relations
pub mod Marked
pub mod NodeMap
pub mod Fuel
pub mod Closed
pub mod Cycle
use teskra.Base.{
  String, ◌==◌, ℕ, zero, suc, ◌+◌, Bool, true, false, not, ◌&&◌, List, [], ◌∷◌, ◌++◌, map, Option,
  none, some, length, keep, includes, lookup, insert, nat_eq, if◌then◌else◌,
}
use teskra.Workflow.Types.{
  NodeType, agent, shell, checkpoint, condition, criteria_gate, review_panel, RunOn, first,
  subsequent, always, Dependency, plain, edge, Node, Definition, node_type,
}

pub record NormalizedDependency : Type 0 where
  pub node : String
  pub on : Option String

abbrev pub condition_outcomes : NodeType → List String
condition_outcomes agent = "success" ∷ "failure" ∷ []
condition_outcomes shell = "success" ∷ "failure" ∷ []
condition_outcomes checkpoint = []
condition_outcomes condition = "true" ∷ "false" ∷ []
condition_outcomes criteria_gate = "pass" ∷ "fail" ∷ []
condition_outcomes review_panel = "approve" ∷ "changes_requested" ∷ []

abbrev pub normalize_entry : Dependency → NormalizedDependency
normalize_entry (plain n) = record { node = n; on = none }
normalize_entry (edge n o) = record { node = n; on = o }

abbrev pub normalize_depends_on : Option (List Dependency) → List NormalizedDependency
normalize_depends_on none = []
normalize_depends_on (some ds) = map normalize_entry ds

-- `Set.prototype.add`, in insertion order.
abbrev pub set_add : String → List String → List String
set_add x s = if includes s x then s else s ++ x ∷ []

abbrev pub is_first : RunOn → Bool
is_first first = true
is_first _ = false

abbrev pub is_subsequent : RunOn → Bool
is_subsequent subsequent = true
is_subsequent _ = false

abbrev pub is_always : RunOn → Bool
is_always always = true
is_always _ = false

-- The test of `activeNodeIdsForIteration` on one node; the iteration counts from 1.
abbrev pub runs_in : ℕ → RunOn → Bool
runs_in iteration r =
    if is_always r then true else if nat_eq iteration 1 then is_first r else is_subsequent r

unfoldable pub active_from : ℕ → List Node → List String → List String
active_from i [] active = active
active_from i (n ∷ ns) active =
    active_from i ns (if runs_in i n.run_on then set_add n.id active else active)

unfoldable pub active_node_ids_for_iteration : Definition → ℕ → List String
unfolding active_from
active_node_ids_for_iteration d i = active_from i d.steps []

-- `new Map(definition.steps.map((node) => [node.id, node]))`
pub node_map_from : List Node → List (String × Node) → List (String × Node)
node_map_from [] m = m
node_map_from (n ∷ ns) m = node_map_from ns (insert n.id n m)

abbrev pub node_map : Definition → List (String × Node)
node_map d = node_map_from d.steps []

-- `normalizeDependsOn(byId.get(id)?.dependsOn)`
abbrev pub node_deps : Option Node → List NormalizedDependency
node_deps none = []
node_deps (some n) = normalize_depends_on n.depends_on

abbrev pub deps_of : List (String × Node) → String → List NormalizedDependency
deps_of nodes id = node_deps (lookup id nodes)

abbrev pub has_key {ℓ} : {V : Type ℓ} → Option V → Bool
has_key none = false
has_key (some _) = true

pub data Marker : Type 0 where
  visiting done : Marker

abbrev pub Marks : Type 0
Marks = List (String × Marker)

-- How `visit` ends: out of fuel, with a cycle, or with `null` and the marks it leaves.
pub data Search : Type 0 where
  exhausted : Search
  cycle : List String → Search
  clear : Marks → Search

-- `stack.slice(stack.indexOf(id))`
abbrev pub slice_from : String → List String → List String
slice_from id [] = []
slice_from id (x ∷ xs) = if x == id then x ∷ xs else slice_from id xs

abbrev pub mark_done : String → Search → Search
mark_done id (clear m) = clear (insert id done m)
mark_done id r = r

abbrev pub and_then : Search → (Marks → Search) → Search
and_then (clear m) k = k m
and_then r k = r

-- The loop over the dependencies, given the recursive call.
pub visit_deps :
    (List (String × Node)) → (String → Marks → Search) → List NormalizedDependency → Marks → Search
visit_deps nodes v [] m = clear m
visit_deps nodes v (d ∷ ds) m =
    let rest = visit_deps nodes v ds in
    if has_key (lookup d.node nodes) then and_then (v d.node m) rest else rest m

pub visit : ℕ → List (String × Node) → List String → String → Marks → Search
visit zero nodes stack id m = exhausted
visit (suc f) nodes stack id m = elim (lookup id m) [
  | some done ↦ clear m
  | some visiting ↦ cycle (slice_from id stack ++ id ∷ [])
  | none ↦ mark_done id (
      visit_deps nodes (visit f nodes (stack ++ id ∷ [])) (deps_of nodes id) (insert id visiting m))
]

pub visit_nodes : ℕ → List (String × Node) → List Node → Marks → Search
visit_nodes f nodes [] m = clear m
visit_nodes f nodes (n ∷ ns) m = and_then (visit f nodes [] n.id m) (visit_nodes f nodes ns)

abbrev pub search_cycle : Definition → Search
search_cycle d = visit_nodes (length d.steps + 1) (node_map d) d.steps []

abbrev pub found : Search → Option (List String)
found (cycle c) = some c
found _ = none

unfoldable pub find_dependency_cycle : Definition → Option (List String)
unfolding visit_nodes visit visit_deps node_map_from
find_dependency_cycle d = found (search_cycle d)
