-- ===== src/Workflow/Types.antt =====
-- packages/contracts/src/workflow.ts: definitions, runs and steps, as their schemas parse them.
use teskra.Base.{String, ℕ, List, Option}

pub data RunStatus : Type 0 where
  created running waiting needs_user_review completed failed cancelled : RunStatus

pub data NodeType : Type 0 where
  agent shell checkpoint condition criteria_gate review_panel : NodeType

pub data StepStatus : Type 0 where
  pending running completed failed skipped cancelled : StepStatus

pub data RunOn : Type 0 where
  first subsequent always : RunOn

-- `"node"` or `{ node, on }`.
pub data Dependency : Type 0 where
  plain : String → Dependency
  edge : (node : String) (on : Option String) → Dependency

-- What an agent node says beyond the fields that every node has.
pub record AgentFields : Type 0 where
  pub agent : String
  pub role : Option String
  pub account_profile : Option String
  pub profile : Option String
  pub env : Option (List (String × String))

-- The discriminated union `WorkflowNode`, less the fields that every node has.
pub data NodeBody : Type 0 where
  agent_body : AgentFields → NodeBody
  shell_body : (command : String) → NodeBody
  checkpoint_body : (message : Option String) → NodeBody
  condition_body : (expression : String) → NodeBody
  criteria_gate_body : NodeBody
  review_panel_body : (agents : List String) → NodeBody

pub record Node : Type 0 where
  pub id : String
  pub depends_on : Option (List Dependency)
  pub run_on : RunOn
  pub body : NodeBody

abbrev pub body_type : NodeBody → NodeType
body_type (agent_body _) = agent
body_type (shell_body _) = shell
body_type (checkpoint_body _) = checkpoint
body_type (condition_body _) = condition
body_type criteria_gate_body = criteria_gate
body_type (review_panel_body _) = review_panel

-- `node.type`
abbrev pub node_type : Node → NodeType
node_type n = body_type n.body

pub record Definition : Type 0 where
  pub id : String
  pub steps : List Node

-- `Record<string, unknown>` of a settled step: its text entries.
abbrev pub StepResult : Type 0
StepResult = List (String × String)

pub record Run : Type 0 where
  pub id : String
  pub task_id : Option String
  pub workflow_definition_id : String
  pub definition : Definition
  pub status : RunStatus
  pub current_iteration : ℕ
  pub total_iterations : ℕ
  pub criteria_iteration : ℕ
  pub criteria_set_id : Option String
  pub created_at : String
  pub completed_at : Option String

pub record Step : Type 0 where
  pub id : String
  pub workflow_run_id : String
  pub node_id : String
  pub node_type : NodeType
  pub status : StepStatus
  pub iteration : ℕ
  pub attempt : ℕ
  pub depends_on : Option (List String)
  pub result : Option StepResult
  pub started_at : Option String
  pub finished_at : Option String
  pub created_at : String
