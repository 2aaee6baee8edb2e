-- ===== src/Permissions/CommandTests.antt =====
-- Patterns, matched rules, the commands of an output and their audit, on small inputs.
use mathlib.Core.List.{flatten, map}
use teskra.Base.{
  ◌≡◌, ◌↔◌, ◌⊎◌, refl, String, true, false, List, [], ◌∷◌, Option, none, some, Text, units, ◌++◌,
  text_eq, trim, starts_with_unit, if◌then◌else◌, FirstGreatest,
}
use teskra.Permissions.{PermissionRule, deny, persistent}
use teskra.Permissions.Patterns.{match_command_pattern}
use teskra.Permissions.Patterns.Covers.{Covers, match_command_pattern-true_iff}
use teskra.Permissions.Matched.{
  AgentRun, find_matched_rule, matching_rules, specificity, find_matched_rule-first,
}
use teskra.Permissions.Extraction.{
  AuditPattern, Expressions, create_command_extractor, split_from, extract_executed_commands,
}
use teskra.Permissions.Extraction.Chunks.{
  extract_chunks, extract_chunks-eq-extract_executed_commands,
}
use teskra.Permissions.Audit.{
  Audits, Surroundings, ListPermissionAuditFilter, PermissionAuditEntry, list_audit, forget_rule,
  finish_audit, list_audit_by_run, suppress_command_audit,
}
use teskra.Permissions.Audit.Steps.{AuditStep, chunk, finish, steps}
use teskra.Permissions.Audit.Distinct.{distinct}
use teskra.Permissions.Audit.Once.{commands_of, steps-audit_once}
use teskra.Permissions.Audit.Suppressed.{suppress_command_audit-writes_no_row}

word_matches : match_command_pattern (units "rm*") (units "rm -rf build") ≡ true
unfolding match_command_pattern
word_matches = refl

part_of_word : match_command_pattern (units "rm*") (units "rmdir build") ≡ false
unfolding match_command_pattern
part_of_word = refl

-- With the space the command alone is not matched, without it it is.
spaced_alone : match_command_pattern (units "rm *") (units "rm") ≡ false
unfolding match_command_pattern
spaced_alone = refl

-- A tab is no word boundary.
tab_is_no_boundary : match_command_pattern (units "rm*") (units "rm" ++ 9 ∷ units "build") ≡ false
unfolding match_command_pattern
tab_is_no_boundary = refl

match_command_pattern-true_iff_example :
    (match_command_pattern (units " rm * ") (units "rm -rf build") ≡ true)
    ↔ Covers (trim (units " rm * ")) (units "rm -rf build")
match_command_pattern-true_iff_example =
    match_command_pattern-true_iff (units " rm * ") (units "rm -rf build")

abbrev rule : String → String → Option String → PermissionRule
rule id pattern agent = record {
  id = id;
  workspace_id = none;
  agent_type = agent;
  command_pattern = pattern;
  risk_level = none;
  action = deny;
  scope = persistent;
  created_at = "t";
}

abbrev rules : List PermissionRule
rules =
    rule "any" "*" none
    ∷ rule "push" "git push" (some "codex")
    ∷ rule "git" "git*" (some "codex")
    ∷ []

abbrev run : AgentRun
run = record { workspace_id = "w"; agent_type = "codex" }

most_specific : find_matched_rule rules (some run) (units "git push -f") ≡ some "push"
unfolding find_matched_rule match_command_pattern
most_specific = refl

find_matched_rule-first_example :
    ((find_matched_rule rules (some run) (units "git push -f") ≡ none)
      × (matching_rules rules run (units "git push -f") ≡ []))
    ⊎ ((r : PermissionRule) × (find_matched_rule rules (some run) (units "git push -f") ≡ some r.id)
        × FirstGreatest specificity r (matching_rules rules run (units "git push -f")))
find_matched_rule-first_example = find_matched_rule-first rules run (units "git push -f")

-- A prompt is "$ "; an agent prints "exec", and the command on the next line.
abbrev prompt_of : Text → Option Text
prompt_of [] = none
prompt_of (c ∷ cs) = if text_eq (c ∷ []) (units "$") then some cs else none

abbrev expressions : Expressions
expressions = record {
  strip_ansi = λ t. t;
  prompt_line = prompt_of;
  leading_marker = starts_with_unit 36;
}

abbrev after_exec : AuditPattern
after_exec = record { pattern = λ t. some t; after_marker = some (text_eq (units "exec")) }

abbrev chunks : List Text
chunks = units "$ npm te" ∷ units "st\n$ l" ∷ units "s" ∷ []

extract_chunks-eq-extract_executed_commands_example :
    extract_chunks expressions (create_command_extractor (after_exec ∷ [])) chunks
    ≡ extract_executed_commands expressions (flatten chunks) (after_exec ∷ [])
unfolding split_from flatten
extract_chunks-eq-extract_executed_commands_example =
    extract_chunks-eq-extract_executed_commands expressions (after_exec ∷ []) chunks refl refl

-- A chunk that ends between `\r` and `\n` makes an empty line, and the command behind the marker is
-- lost.
whole_output_found :
    extract_executed_commands expressions (units "exec\r\nls") (after_exec ∷ []) ≡ units "ls" ∷ []
unfolding extract_executed_commands create_command_extractor
whole_output_found = refl

cut_output_lost :
    extract_chunks expressions
      (create_command_extractor (after_exec ∷ []))
      (units "exec\r" ∷ units "\nls" ∷ [])
    ≡ []
unfolding extract_chunks create_command_extractor
cut_output_lost = refl

abbrev surroundings : Surroundings
surroundings = record {
  expressions = expressions;
  classify_command = λ command. "low";
  run_by_id = λ id. some run;
  audit_patterns = λ agent. none;
  detected = λ id. "t";
  written = λ id. "t";
}

abbrev audits : Audits
audits = record {
  audited_commands = [];
  extractors = [];
  structured_stream_runs = [];
  rows = [];
  last_id = 0;
  recorded = [];
}

-- Run "r" shows a command twice, another run ends, and the command is shown again.
abbrev history : List AuditStep
history =
    chunk rules "r" (units "$ make\n$ make\n")
    ∷ chunk rules "s" (units "$ make")
    ∷ finish rules "s"
    ∷ chunk rules "r" (units "$ make\n$ ls\n")
    ∷ []

commands_of-history :
    commands_of "r" (steps surroundings audits history) ≡ units "make" ∷ units "ls" ∷ []
unfolding steps list_audit_by_run
commands_of-history = refl

-- The last line of an output is audited where the run ends.
last_line_audited : commands_of "s" (steps surroundings audits history) ≡ units "make" ∷ []
unfolding steps list_audit_by_run
last_line_audited = refl

steps-audit_once_example : distinct (commands_of "r" (steps surroundings audits history)) ≡ true
unfolding list_audit_by_run
steps-audit_once_example = steps-audit_once surroundings "r" audits history refl refl

suppress_command_audit-writes_no_row_example :
    (list_audit_by_run (steps surroundings (suppress_command_audit audits "r") history) "r"
      ≡ list_audit_by_run audits "r")
    × (list_audit_by_run
          (finish_audit surroundings rules
            (steps surroundings (suppress_command_audit audits "r") history)
            "r")
          "r"
        ≡ list_audit_by_run audits "r")
suppress_command_audit-writes_no_row_example =
    suppress_command_audit-writes_no_row surroundings rules "r" audits history refl

abbrev asked : ListPermissionAuditFilter
asked = record { run_id = none; workspace_id = some "w"; risk_level = none; limit = some 2 }

newest_first :
    map
      (λ (e : PermissionAuditEntry). e.id)
      (list_audit (λ id. some run) (steps surroundings audits history) asked)
    ≡ 3 ∷ 2 ∷ []
unfolding steps list_audit
newest_first = refl

deleted_rule_unnamed :
    map
      (λ (e : PermissionAuditEntry). e.matched_rule_id)
      (forget_rule (steps surroundings audits history) "any").rows
    ≡ none ∷ none ∷ none ∷ []
unfolding steps forget_rule
deleted_rule_unnamed = refl
