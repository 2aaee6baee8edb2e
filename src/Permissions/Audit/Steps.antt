-- ===== src/Permissions/Audit/Steps.antt =====
-- Histories of the audit.
use teskra.Base.{String, Bool, false, ◌==◌, List, [], ◌∷◌, Text}
use teskra.Permissions.{PermissionRule}
use teskra.Permissions.Audit.{
  Audits, Surroundings, audit_chunk, finish_audit, suppress_command_audit,
}

-- What reaches the audit: a chunk of output and the end of a run, each with the rules of that time, and
-- the note that the commands of a run come from a structured stream.
pub data AuditStep : Type 0 where
  chunk : (rules : List PermissionRule) (run : String) (output : Text) → AuditStep
  finish : (rules : List PermissionRule) (run : String) → AuditStep
  suppress : (run : String) → AuditStep

abbrev pub finishes : String → AuditStep → Bool
finishes run (chunk rules r output) = false
finishes run (finish rules r) = r == run
finishes run (suppress r) = false

module _ (w : Surroundings) where
  unfoldable pub step : Audits → AuditStep → Audits
  unfolding audit_chunk finish_audit suppress_command_audit
  step a (chunk rules run output) = audit_chunk w rules a run output
  step a (finish rules run) = finish_audit w rules a run
  step a (suppress run) = suppress_command_audit a run

  unfoldable pub steps : Audits → List AuditStep → Audits
  unfolding step
  steps a [] = a
  steps a (s ∷ ss) = steps (step a s) ss
