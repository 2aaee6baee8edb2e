-- ===== src/Workflow/Tests/Samples.antt =====
-- Definitions that the tests share; the first is that of buildIterateDefinition.
use teskra.Base.{String, List, [], ◌∷◌, none, some}
use teskra.Workflow.Types.{
  AgentFields, NodeBody, agent_body, shell_body, review_panel_body, Node, RunOn, first, subsequent,
  always, Dependency, plain, edge, Definition,
}

abbrev agent_fields : String → AgentFields
agent_fields role = record {
  agent = "codex";
  role = some role;
  account_profile = none;
  profile = none;
  env = none;
}

abbrev pub node : String → RunOn → NodeBody → List Dependency → Node
node id run_on body deps = record { id = id; depends_on = some deps; run_on = run_on; body = body }

abbrev pub implement : Node
implement = node "implement" first (agent_body (agent_fields "implementer")) []

abbrev pub fix : Node
fix = node "fix" subsequent (agent_body (agent_fields "fixer")) []

abbrev pub review_implement : Node
review_implement =
    node "review-implement" first (review_panel_body ("codex" ∷ [])) (plain "implement" ∷ [])

abbrev pub review_fix : Node
review_fix = node "review-fix" subsequent (review_panel_body ("codex" ∷ [])) (plain "fix" ∷ [])

abbrev pub iterate_definition : Definition
iterate_definition = record {
  id = "iterate";
  steps = implement ∷ fix ∷ review_implement ∷ review_fix ∷ [];
}

-- Two steps that wait for each other.
abbrev pub looping : Definition
looping = record {
  id = "looping";
  steps =
      node "a" always (shell_body "make") (plain "b" ∷ [])
      ∷ node "b" always (shell_body "test") (edge "a" (some "success") ∷ [])
      ∷ [];
}

-- A step whose edge asks a shell step for an outcome that shell steps do not have.
abbrev pub misread : Definition
misread = record {
  id = "misread";
  steps =
      node "a" always (shell_body "make") []
      ∷ node "b" always (shell_body "test") (edge "a" (some "approve") ∷ edge "z" none ∷ [])
      ∷ [];
}
