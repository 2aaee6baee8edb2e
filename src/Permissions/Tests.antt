-- ===== src/Permissions/Tests.antt =====
-- The permission manager with a rule that denies, a grant of the session and a grant for one run.
use teskra.Base.{
  ◌≡◌, refl, true, not, ◌&&◌, List, [], ◌∷◌, none, some, includes, inr, In, here, ◌⊎◌,
}
use teskra.Permissions.{
  PermissionRule, is_persistent, Manager, Registry, native, Resolved, allow, deny, persistent, once,
  resolve_profile,
}
use teskra.Permissions.Service.{CreateRule, always_allow, create_rule, record_decision, delete_rule}
use teskra.Permissions.Profiles.{granted, denied, resolve_profile-effective}
use teskra.Permissions.Scopes.{Call, creates, records, deletes, call, calls, calls-stored}

abbrev registry : Registry
registry agent = some native

abbrev no_push : PermissionRule
no_push = record {
  id = "p1";
  workspace_id = none;
  agent_type = some "codex";
  command_pattern = "git push";
  risk_level = none;
  action = deny;
  scope = persistent;
  created_at = "t1";
}

abbrev manager : Manager
manager = record {
  rules = no_push ∷ [];
  session_decisions =
      ("w::codex", record { allow = "git push" ∷ []; deny = []; once = "rm -rf build" ∷ [] }) ∷ [];
  events = [];
}

-- A rule that is to hold once is refused.
abbrev ephemeral : CreateRule
ephemeral = record {
  command_pattern = "make";
  action = allow;
  scope = once;
  workspace_id = none;
  agent_type = none;
  risk_level = none;
}

abbrev history : List Call
history =
    creates "t2" "p2" ephemeral
    ∷ records "t3" "p3" (record {
      agent_type = "codex";
      command_pattern = "make";
      decision = always_allow;
      workspace_id = some "w";
      run_id = some "r";
    })
    ∷ deletes "p1"
    ∷ []

resolve_profile-effective_example :
    (r : Resolved) × ((resolve_profile registry manager (some "w") "codex" none true).1 ≡ inr r)
    × (includes r.profile.deny "git push" ≡ denied manager (some "w") "codex" "git push")
    × (includes r.profile.allow "git push" ≡ (
        granted manager (some "w") "codex" "git push"
        && not (denied manager (some "w") "codex" "git push")))
resolve_profile-effective_example =
    resolve_profile-effective registry manager (some "w") "codex" none true "git push" native refl

-- A row of an earlier version, whose scope is not persistent.
abbrev legacy : PermissionRule
legacy = record {
  id = "p0";
  workspace_id = none;
  agent_type = none;
  command_pattern = "make";
  risk_level = none;
  action = allow;
  scope = once;
  created_at = "t0";
}

abbrev old_manager : Manager
old_manager = record manager { rules = no_push ∷ legacy ∷ [] }

legacy-stays : In legacy (calls registry old_manager history).rules
unfolding calls call create_rule record_decision delete_rule
legacy-stays = here refl

calls-stored_example :
    (is_persistent legacy.scope ≡ true)
    ⊎ ((o : PermissionRule) × In o old_manager.rules × (o.id ≡ "p0") × (o.scope ≡ once))
calls-stored_example = calls-stored registry old_manager history legacy legacy-stays
