-- ===== src/Permissions/Service.antt =====
-- permission-manager.ts: createRule, updateRule, deleteRule, recordDecision and dispose.
use teskra.Base.{
  String, Bool, true, false, not, inl, inr, [], ◌∷◌, ◌++◌, Option, none, some, keep, any, lookup,
  insert, if◌then◌else◌,
}
use teskra.Permissions.{
  Answer, Manager, PermissionAction, PermissionRule, PermissionScope, Registry, RulePatch,
  SessionDecisions, agent_not_registered, allow, deny, get_rule_by_id, is_persistent, or_else,
  permission_resolved, persistent, rule_exists, rule_is, scope_not_persistent, session_key,
  update_rules,
}

pub record CreateRule : Type 0 where
  pub command_pattern : String
  pub action : PermissionAction
  pub scope : PermissionScope
  pub workspace_id : Option String
  pub agent_type : Option String
  pub risk_level : Option String

abbrev pub new_rule : (now id : String) → CreateRule → PermissionRule
new_rule now id q = record {
  id = id;
  workspace_id = q.workspace_id;
  agent_type = q.agent_type;
  command_pattern = q.command_pattern;
  risk_level = q.risk_level;
  action = q.action;
  scope = q.scope;
  created_at = now;
}

abbrev pub insert_rule : Manager → PermissionRule → Answer PermissionRule
insert_rule m r = elim (get_rule_by_id m.rules r.id) [
  | some _ ↦ (m, inl (rule_exists r.id))
  | none ↦ (record m { rules = m.rules ++ r ∷ [] }, inr r)
]

abbrev pub unregistered : Registry → Option String → Option String
unregistered registry none = none
unregistered registry (some a) = elim (registry a) [ none ↦ some a | some _ ↦ none ]

unfoldable pub create_rule :
    Registry → Manager → (now id : String) → CreateRule → Answer PermissionRule
create_rule registry m now id q =
    if is_persistent q.scope
    then elim (unregistered registry q.agent_type) [
      | some a ↦ (m, inl (agent_not_registered a))
      | none ↦ insert_rule m (new_rule now id q)
    ]
    else (m, inl (scope_not_persistent q.scope))

-- The answer is the row as it is read back; none: no row has the id.
abbrev pub write_rule : Manager → String → RulePatch → Answer (Option PermissionRule)
write_rule m id p =
    let rules = update_rules id p m.rules in
    (record m { rules = rules }, inr (get_rule_by_id rules id))

unfoldable pub update_rule : Manager → String → RulePatch → Answer (Option PermissionRule)
unfolding update_rules
update_rule m id p = elim p.scope [
  | none ↦ write_rule m id p
  | some scope ↦
      if is_persistent scope then write_rule m id p else (m, inl (scope_not_persistent scope))
]

abbrev pub other_rule : String → PermissionRule → Bool
other_rule id r = not (rule_is id r)

unfoldable pub delete_rule : Manager → String → Manager × Bool
delete_rule m id = (record m { rules = keep (other_rule id) m.rules }, any (rule_is id) m.rules)

pub data Decision : Type 0 where
  allow_once allow_session always_allow deny_always : Decision

pub record DecisionRequest : Type 0 where
  pub agent_type : String
  pub command_pattern : String
  pub decision : Decision
  pub workspace_id : Option String
  pub run_id : Option String

pub data PersistedAs : Type 0 where
  as_rule : PermissionRule → PersistedAs
  as_session as_once : PersistedAs

abbrev pub no_decisions : SessionDecisions
no_decisions = record { allow = []; deny = []; once = [] }

abbrev pub is_session : Decision → Bool
is_session allow_session = true
is_session _ = false

abbrev pub is_once : Decision → Bool
is_once allow_once = true
is_once _ = false

abbrev pub announce : DecisionRequest → Manager → Manager
announce q m = elim q.run_id [
  | none ↦ m
  | some run ↦ record m { events = m.events ++ permission_resolved run q.command_pattern ∷ [] }
]

abbrev pub recorded : DecisionRequest → Answer PermissionRule → Answer PersistedAs
recorded q (m, inl e) = (m, inl e)
recorded q (m, inr r) = (announce q m, inr (as_rule r))

abbrev pub decision_rule : DecisionRequest → PermissionAction → CreateRule
decision_rule q action = record {
  command_pattern = q.command_pattern;
  action = action;
  scope = persistent;
  workspace_id = q.workspace_id;
  agent_type = some q.agent_type;
  risk_level = none;
}

-- A decision for the session or for one run, added to those of its key.
abbrev pub hold : Manager → DecisionRequest → Manager
hold m q =
    let key = session_key q.workspace_id q.agent_type in
    let current = or_else (lookup key m.session_decisions) no_decisions in
    let held : SessionDecisions = record current {
      allow =
          if is_session q.decision then current.allow ++ q.command_pattern ∷ [] else current.allow;
      once = if is_once q.decision then current.once ++ q.command_pattern ∷ [] else current.once;
    } in
    record m { session_decisions = insert key held m.session_decisions }

abbrev pub decide :
    Registry → Manager → (now id : String) → DecisionRequest → Decision → Answer PersistedAs
decide registry m now id q always_allow =
    recorded q (create_rule registry m now id (decision_rule q allow))
decide registry m now id q deny_always =
    recorded q (create_rule registry m now id (decision_rule q deny))
decide registry m now id q allow_once = (announce q (hold m q), inr as_once)
decide registry m now id q allow_session = (announce q (hold m q), inr as_session)

unfoldable pub record_decision :
    Registry → Manager → (now id : String) → DecisionRequest → Answer PersistedAs
record_decision registry m now id q = elim (registry q.agent_type) [
  | none ↦ (m, inl (agent_not_registered q.agent_type))
  | some _ ↦ decide registry m now id q q.decision
]

unfoldable pub dispose : Manager → Manager
dispose m = record m { session_decisions = [] }
