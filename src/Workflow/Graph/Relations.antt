-- ===== src/Workflow/Graph/Relations.antt =====
-- The dependency relation of a definition, independently of the searches over it.
use teskra.Base.{String, ◌≡◌, true, List, [], ◌∷◌, ◌++◌, In, lookup}
use teskra.Workflow.Types.{Node, Definition}
use teskra.Workflow.Graph.{NormalizedDependency, deps_of, has_key, node_map}

-- `y` is a dependency of `x`, and a node of the definition.
pub record Edge (nodes : List (String × Node)) (x y : String) : Type 0 where
  pub dependency : NormalizedDependency
  pub listed : In dependency (deps_of nodes x)
  pub named : dependency.node ≡ y
  pub known : has_key (lookup y nodes) ≡ true

-- One edge or more.
pub data Reaches (nodes : List (String × Node)) (x : String) : String → Type 0 where
  step : {y : String} → Edge nodes x y → Reaches nodes x y
  more : {y z : String} → Reaches nodes x y → Edge nodes y z → Reaches nodes x z

-- Each entry of the list depends on the next.
pub data Chain (nodes : List (String × Node)) : List String → Type 0 where
  one : (x : String) → Chain nodes (x ∷ [])
  link :
      {x y : String} {xs : List String}
      → Edge nodes x y
      → Chain nodes (y ∷ xs)
      → Chain nodes (x ∷ y ∷ xs)

-- A closed chain of at least one edge.
pub record IsCycle (nodes : List (String × Node)) (c : List String) : Type 0 where
  pub start : String
  pub inner : List String
  pub shape : c ≡ start ∷ (inner ++ start ∷ [])
  pub chain : Chain nodes (start ∷ (inner ++ start ∷ []))

abbrev pub IsAcyclic : Definition → Type 0
IsAcyclic d = (x : String) → ¬ Reaches (node_map d) x x
