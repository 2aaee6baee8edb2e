-- ===== src/Permissions/Matched.antt =====
-- permission-manager.ts, findMatchedRule: the rule that a command of a run matches.
use teskra.Base.{
  String, Bool, ℕ, ◌+◌, ◌≡◌, refl, ap, ◌⊎◌, inl, inr, List, [], ◌∷◌, Option, none, some, Text,
  units, keep, sort_by, falling, FirstGreatest, sort_by-FirstGreatest,
}
use teskra.Permissions.{PermissionRule, list_applicable_rules}
use teskra.Permissions.Patterns.{match_command_pattern}

pub record AgentRun : Type 0 where
  pub workspace_id : String
  pub agent_type : String

abbrev pub present : Option String → ℕ
present none = 0
present (some s) = 1

unfoldable pub specificity : PermissionRule → ℕ
specificity rule = present rule.workspace_id + present rule.agent_type

abbrev pub is_pattern_of : Text → PermissionRule → Bool
is_pattern_of command rule = match_command_pattern (units rule.command_pattern) command

unfoldable pub matching_rules : List PermissionRule → AgentRun → Text → List PermissionRule
matching_rules rules run command =
    keep (is_pattern_of command)
      (list_applicable_rules rules (some run.workspace_id) (some run.agent_type))

abbrev pub first_id : List PermissionRule → Option String
first_id [] = none
first_id (rule ∷ rules) = some rule.id

unfoldable pub find_matched_rule : List PermissionRule → Option AgentRun → Text → Option String
unfolding specificity matching_rules match_command_pattern list_applicable_rules
find_matched_rule rules none command = none
find_matched_rule rules (some run) command =
    first_id (sort_by (falling specificity) (matching_rules rules run command))

first_of :
    (rules : List PermissionRule)
    → ((first_id (sort_by (falling specificity) rules) ≡ none) × (rules ≡ []))
      ⊎ ((rule : PermissionRule) × (first_id (sort_by (falling specificity) rules) ≡ some rule.id)
          × FirstGreatest specificity rule rules)
first_of [] = inl (refl, refl)
first_of (r ∷ rules) =
    let (rest, rule, sorted, first) = sort_by-FirstGreatest specificity r rules in
    inr (rule, ap first_id sorted, first)

-- Of a run that is known: either none of the applicable rules has a pattern of the command, and none is
-- found; or the one that is found is the most specific of them, and the first where several are.
pub find_matched_rule-first :
    (rules : List PermissionRule) (run : AgentRun) (command : Text)
    → ((find_matched_rule rules (some run) command ≡ none)
        × (matching_rules rules run command ≡ []))
      ⊎ ((rule : PermissionRule) × (find_matched_rule rules (some run) command ≡ some rule.id)
          × FirstGreatest specificity rule (matching_rules rules run command))
unfolding find_matched_rule
find_matched_rule-first rules run command = first_of (matching_rules rules run command)
