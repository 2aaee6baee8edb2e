-- ===== src/Permissions/Audit.antt =====
-- permission-manager.ts: the audit of the commands of a run, over
-- the table permission_audit of permission-repository.ts. The classifier, the runs, the patterns of the
-- agents and the clock are arguments; a row is refused where its run does not exist.
pub mod Steps
pub mod Others
pub mod Distinct
pub mod Once
pub mod Suppressed
use mathlib.Core.List.{reverse}
use teskra.Base.{
  map, true, false, take, ◌&&◌, String, ℕ, suc, ◌+◌, ◌==◌, Bool, List, [], ◌∷◌, ◌++◌, Option, none,
  some, Text, text_eq, units, keep, any, includes, is_empty, lookup, insert, remove, add_id,
  delete_id, sort_by, falling, if◌then◌else◌,
}
use teskra.Permissions.{PermissionRule}
use teskra.Permissions.Matched.{AgentRun, find_matched_rule}
use teskra.Permissions.Extraction.{
  AuditPattern, Expressions, CommandExtractor, create_command_extractor, push, flush,
}

pub record PermissionAuditEntry : Type 0 where
  pub id : ℕ
  pub run_id : String
  pub command : Text
  pub risk_level : String
  pub matched_rule_id : Option String
  pub detected_at : String
  pub created_at : String

pub record Audits : Type 0 where
  pub audited_commands : List (String × List Text)
  pub extractors : List (String × CommandExtractor)
  pub structured_stream_runs : List String
  -- The rows of the table by id, and the last id that it gave.
  pub rows : List PermissionAuditEntry
  pub last_id : ℕ
  -- The emitted permission.audit_recorded: run and risk.
  pub recorded : List (String × String)

abbrev pub has_command : List Text → Text → Bool
has_command seen command = any (text_eq command) seen

-- `auditedCommands.get(runId) ?? new Set()`
abbrev pub or_no_commands : Option (List Text) → List Text
or_no_commands none = []
or_no_commands (some seen) = seen

abbrev pub seen_of : Audits → String → List Text
seen_of a run = or_no_commands (lookup run a.audited_commands)

abbrev pub note_seen : Audits → String → List Text → Audits
note_seen a run seen = record a { audited_commands = insert run seen a.audited_commands }

-- What the program around the audit answers.
pub record Surroundings : Type 0 where
  pub expressions : Expressions
  pub classify_command : Text → String
  pub run_by_id : String → Option AgentRun
  -- `registry.get(agentType)?.auditCommandPatterns`
  pub audit_patterns : String → Option (List AuditPattern)
  -- The times at which the row of an id is detected and written.
  pub detected : ℕ → String
  pub written : ℕ → String

module _ (w : Surroundings) where
  abbrev pub patterns_of : String → List AuditPattern
  patterns_of run = elim (w.run_by_id run) [
    | none ↦ []
    | some r ↦ elim (w.audit_patterns r.agent_type) [ none ↦ [] | some patterns ↦ patterns ]
  ]

  abbrev pub extractor_for : Audits → String → CommandExtractor
  extractor_for a run = elim (lookup run a.extractors) [
    | some existing ↦ existing
    | none ↦ create_command_extractor (patterns_of run)
  ]

abbrev pub forget_run : Audits → String → Audits
forget_run a run = record a {
  structured_stream_runs = delete_id run a.structured_stream_runs;
  extractors = remove run a.extractors;
}

module _ (w : Surroundings) (rules : List PermissionRule) where
  abbrev pub new_entry : String → Text → ℕ → PermissionAuditEntry
  new_entry run command id = record {
    id = id;
    run_id = run;
    command = command;
    risk_level = w.classify_command command;
    matched_rule_id = find_matched_rule rules (w.run_by_id run) command;
    detected_at = w.detected id;
    created_at = w.written id;
  }

  -- The row, and the event behind it.
  abbrev pub write_audit : Audits → String → Text → Audits
  write_audit a run command = record a {
    rows = a.rows ++ new_entry run command (suc a.last_id) ∷ [];
    last_id = suc a.last_id;
    recorded = a.recorded ++ (run, w.classify_command command) ∷ [];
  }

  abbrev pub record_audit : Audits → String → Text → Audits
  record_audit a run command = elim (w.run_by_id run) [
    | none ↦ a
    | some _ ↦ write_audit a run command
  ]

  unfoldable pub audit_command : Audits → String → Text → Audits
  unfolding find_matched_rule
  audit_command a run command =
      if has_command (seen_of a run) command
      then a
      else record_audit (note_seen a run (seen_of a run ++ command ∷ [])) run command

  unfoldable pub audit_each : Audits → String → List Text → Audits
  unfolding audit_command
  audit_each a run [] = a
  audit_each a run (command ∷ commands) = audit_each (audit_command a run command) run commands

  unfoldable pub audit_commands : Audits → String → List Text → Audits
  unfolding audit_each
  audit_commands a run commands =
      if is_empty commands then a else audit_each (note_seen a run (seen_of a run)) run commands

  unfoldable pub audit_chunk : Audits → String → Text → Audits
  unfolding create_command_extractor push audit_commands
  audit_chunk a run data_ =
      if includes a.structured_stream_runs run
      then a
      else let (x, commands) = push w.expressions (extractor_for w a run) data_ in
        audit_commands (record a { extractors = insert run x a.extractors }) run commands

  abbrev pub flush_audit : Audits → String → Option CommandExtractor → Audits
  flush_audit a run none = a
  flush_audit a run (some x) = audit_commands a run (flush w.expressions x).1

  unfoldable pub finish_audit : Audits → String → Audits
  unfolding flush audit_commands
  finish_audit a run =
      let a' = flush_audit (forget_run a run) run (lookup run a.extractors) in
      record a' { audited_commands = remove run a'.audited_commands }

unfoldable pub suppress_command_audit : Audits → String → Audits
suppress_command_audit a run = record a {
  structured_stream_runs = add_id run a.structured_stream_runs;
  extractors = remove run a.extractors;
}

unfoldable pub dispose_audit : Audits → Audits
dispose_audit a = record a { audited_commands = []; extractors = []; structured_stream_runs = [] }

-- A rule that is deleted is no longer named in the rows: ON DELETE SET NULL.
abbrev pub unless_rule : String → Option String → Option String
unless_rule id none = none
unless_rule id (some rule) = if rule == id then none else some rule

abbrev pub without_rule : String → PermissionAuditEntry → PermissionAuditEntry
without_rule id row = record row { matched_rule_id = unless_rule id row.matched_rule_id }

unfoldable pub forget_rule : Audits → String → Audits
forget_rule a id = record a { rows = map (without_rule id) a.rows }

-- The rows of a run, in the order of their ids.
abbrev pub is_row_of : String → PermissionAuditEntry → Bool
is_row_of run row = row.run_id == run

unfoldable pub list_audit_by_run : Audits → String → List PermissionAuditEntry
list_audit_by_run a run = keep (is_row_of run) a.rows

pub record ListPermissionAuditFilter : Type 0 where
  pub run_id : Option String
  pub workspace_id : Option String
  pub risk_level : Option String
  pub limit : Option ℕ

abbrev pub is_asked : Option String → String → Bool
is_asked none value = true
is_asked (some asked) value = value == asked

-- The rows are joined with the runs.
abbrev pub passes_filter :
    (String → Option AgentRun) → ListPermissionAuditFilter → PermissionAuditEntry → Bool
passes_filter run_by_id f row = elim (run_by_id row.run_id) [
  | none ↦ false
  | some run ↦
      is_asked f.run_id row.run_id
      && is_asked f.workspace_id run.workspace_id
      && is_asked f.risk_level row.risk_level
]

abbrev pub limit_of : Option ℕ → ℕ
limit_of none = 500
limit_of (some limit) = limit

-- Newest first.
unfoldable pub list_audit :
    (String → Option AgentRun) → Audits → ListPermissionAuditFilter → List PermissionAuditEntry
list_audit run_by_id a f =
    take (limit_of f.limit) (reverse (keep (passes_filter run_by_id f) a.rows))
