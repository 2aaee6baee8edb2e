-- ===== src/Permissions.antt =====
-- apps/desktop/src/main/permissions/permission-manager.ts and its table permission_rules
-- (apps/desktop/src/main/db/repositories/permission-repository.ts): rules, decisions of the app session,
-- and the profile they make for a run. The audit of the commands of a run is in Audit.
pub mod Service
pub mod Profiles
pub mod Scopes
pub mod Patterns
pub mod Matched
pub mod Extraction
pub mod Audit
pub mod CommandTests
pub mod Tests
use Prim.Native.String
use teskra.Base.{
  String, ◌==◌, Bool, true, false, not, ◌&&◌, ◌||◌, ◌⊎◌, inl, inr, List, [], ◌∷◌, ◌++◌, map, Option,
  none, some, keep, find, any, includes, is_empty, lookup, insert, if◌then◌else◌,
}

pub data PermissionAction : Type 0 where
  allow deny ask audit : PermissionAction

pub data PermissionScope : Type 0 where
  once session persistent : PermissionScope

pub record PermissionRule : Type 0 where
  pub id : String
  pub workspace_id : Option String
  pub agent_type : Option String
  pub command_pattern : String
  pub risk_level : Option String
  pub action : PermissionAction
  pub scope : PermissionScope
  pub created_at : String

abbrev pub is_persistent : PermissionScope → Bool
is_persistent persistent = true
is_persistent _ = false

-- The repository: the rows in insertion order, which is that of `created_at`.
abbrev pub rule_is : String → PermissionRule → Bool
rule_is id r = r.id == id

abbrev pub get_rule_by_id : List PermissionRule → String → Option PermissionRule
get_rule_by_id rules id = find (rule_is id) rules

pub record RulePatch : Type 0 where
  pub command_pattern : Option String
  pub action : Option PermissionAction
  pub scope : Option PermissionScope
  pub risk_level : Option (Option String)

abbrev pub or_else {ℓ} : {A : Type ℓ} → Option A → A → A
or_else none a = a
or_else (some b) a = b

abbrev pub patch_rule : RulePatch → PermissionRule → PermissionRule
patch_rule p r = record r {
  command_pattern = or_else p.command_pattern r.command_pattern;
  action = or_else p.action r.action;
  scope = or_else p.scope r.scope;
  risk_level = or_else p.risk_level r.risk_level;
}

pub update_rules : String → RulePatch → List PermissionRule → List PermissionRule
update_rules id p [] = []
update_rules id p (r ∷ rs) = if rule_is id r then patch_rule p r ∷ rs else r ∷ update_rules id p rs

-- `workspace_id IS NULL OR workspace_id = ?`, where the argument may be NULL, which equals nothing.
abbrev pub null_or_is : Option String → Option String → Bool
null_or_is none arg = true
null_or_is (some s) none = false
null_or_is (some s) (some t) = s == t

abbrev pub agent_applies : Option String → Option String → Bool
agent_applies rule_agent none = true
agent_applies rule_agent (some a) = null_or_is rule_agent (some a)

abbrev pub applies : Option String → Option String → PermissionRule → Bool
applies workspace agent r =
    is_persistent r.scope && null_or_is r.workspace_id workspace && agent_applies r.agent_type agent

unfoldable pub list_applicable_rules :
    List PermissionRule → Option String → Option String → List PermissionRule
list_applicable_rules rules workspace agent = keep (applies workspace agent) rules

pub record SessionDecisions : Type 0 where
  pub allow : List String
  pub deny : List String
  pub once : List String

pub data Event : Type 0 where
  permission_resolved : (run_id command : String) → Event

pub record Manager : Type 0 where
  pub rules : List PermissionRule
  pub session_decisions : List (String × SessionDecisions)
  pub events : List Event

-- `registry.get(agentType)`: how the agent enforces permissions, where it is registered.
pub data Enforcement : Type 0 where
  native other_enforcement : Enforcement

abbrev pub Registry : Type 0
Registry = String → Option Enforcement

pub data PermissionError : Type 0 where
  scope_not_persistent : PermissionScope → PermissionError
  agent_not_registered : String → PermissionError
  rule_exists : String → PermissionError

abbrev pub session_key : Option String → String → String
session_key workspace agent =
    Prim.Native.String.◌++◌ (or_else workspace "*") (Prim.Native.String.◌++◌ "::" agent)

-- The grants that hold once are taken by the projection of one run.
abbrev pub take_once : Manager → String → SessionDecisions → Bool → Manager
take_once m key d consume =
    if consume && not (is_empty d.once)
    then record m { session_decisions = insert key (record d { once = [] }) m.session_decisions }
    else m

pub merge_session :
    Manager → String → (allowed denied : List String) → Bool → Manager × (List String × List String)
merge_session m key allowed denied consume = elim (lookup key m.session_decisions) [
  | none ↦ (m, (allowed, denied))
  | some d ↦ (take_once m key d consume, (allowed ++ (d.allow ++ d.once), denied ++ d.deny))
]

-- `[...new Set(patterns)]`
pub dedupe_from : List String → List String → List String
dedupe_from seen [] = seen
dedupe_from seen (p ∷ ps) = dedupe_from (if includes seen p then seen else seen ++ p ∷ []) ps

abbrev pub dedupe : List String → List String
dedupe ps = dedupe_from [] ps

pub data Notice : Type 0 where
  asks_natively degraded : (rule_id : String) → Notice

abbrev pub is_allow : PermissionRule → Bool
is_allow r = elim r.action [ allow ↦ true | _ ↦ false ]

abbrev pub is_deny : PermissionRule → Bool
is_deny r = elim r.action [ deny ↦ true | _ ↦ false ]

abbrev pub is_ask : PermissionRule → Bool
is_ask r = elim r.action [ ask ↦ true | _ ↦ false ]

abbrev pub pattern_of : PermissionRule → String
pattern_of r = r.command_pattern

abbrev pub notice_of : Enforcement → PermissionRule → Notice
notice_of native r = asks_natively r.id
notice_of other_enforcement r = degraded r.id

pub record Profile : Type 0 where
  pub id : String
  pub approval_mode : String
  pub allow : List String
  pub deny : List String

pub record Resolved : Type 0 where
  pub profile : Profile
  pub notices : List Notice

abbrev pub not_denied : List String → String → Bool
not_denied denied p = not (includes denied p)

abbrev pub joined : List String → String
joined [] = ""
joined (s ∷ ss) = Prim.Native.String.◌++◌ s (joined ss)

abbrev pub profile_id : Option String → String → String → String
profile_id workspace agent mode =
    joined ("workspace:" ∷ or_else workspace "global" ∷ ":agent:" ∷ agent ∷ ":" ∷ mode ∷ [])

-- Deny wins over allow for the same pattern.
pub effective : (id mode : String) → List String × List String → Profile
unfolding dedupe_from
effective id mode (allowed, denied) =
    let denies = dedupe denied in
    record {
      id = id;
      approval_mode = mode;
      allow = keep (not_denied denies) (dedupe allowed);
      deny = denies;
    }

abbrev pub Answer {ℓ} : Type ℓ → Type ℓ
Answer A = Manager × (PermissionError ⊎ A)

abbrev pub resolved :
    (id mode : String) → List Notice → Manager × (List String × List String) → Answer Resolved
resolved id mode notices (m, merged) =
    (m, inr (record { profile = effective id mode merged; notices = notices }))

unfoldable pub resolve_profile :
    Registry
    → Manager
    → (workspace : Option String) → (agent : String) → (mode : Option String) → Bool
    → Answer Resolved
unfolding list_applicable_rules merge_session effective
resolve_profile registry m workspace agent mode consume = elim (registry agent) [
  | none ↦ (m, inl (agent_not_registered agent))
  | some e ↦
      let listed = list_applicable_rules m.rules workspace (some agent) in
      let mode' = or_else mode "manual" in
      resolved (profile_id workspace agent mode') mode' (map (notice_of e) (keep is_ask listed)) (
        merge_session m (session_key workspace agent) (map pattern_of (keep is_allow listed))
          (map pattern_of (keep is_deny listed)) consume)
]
