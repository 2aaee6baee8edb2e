-- ===== src/Permissions/Audit/Once.antt =====
-- Each command of a run is audited once.
use mathlib.Core.List.{map-append}
use teskra.Base.{
  String, ◌≡◌, refl, sym, ap, ◌∙◌, subst, inl, inr, true, false, ◌==◌, eq_iff, List, [], ◌∷◌, ◌++◌,
  map, Text, keep, suc, any, includes, insert, lookup-insert_self, Bool-cases, Option-cases, arith,
}
use teskra.Permissions.{PermissionRule}
use teskra.Permissions.Extraction.{push}
use teskra.Permissions.Audit.{
  Audits, PermissionAuditEntry, Surroundings, or_no_commands, seen_of, has_command, note_seen,
  new_entry, write_audit, record_audit, audit_command, audit_each, audit_commands, audit_chunk,
  is_row_of, suppress_command_audit, list_audit_by_run, extractor_for,
}
use teskra.Permissions.Audit.Distinct.{distinct, OnceIn, OnceIn-seen, OnceIn-written}
use teskra.Permissions.Audit.Steps.{AuditStep, chunk, finish, suppress, finishes, step, steps}
use teskra.Permissions.Audit.Others.{
  Untouched, keep-append_one, audit_chunk-Untouched, finish_audit-Untouched,
}

abbrev audited_command : PermissionAuditEntry → Text
audited_command row = row.command

abbrev pub commands_of : String → Audits → List Text
commands_of run a = map audited_command (list_audit_by_run a run)

abbrev Once : String → Audits → Type 0
Once run a = OnceIn (commands_of run a) (seen_of a run)

seen_of-note_seen :
    (run : String) (a : Audits) (seen : List Text) → seen_of (note_seen a run seen) run ≡ seen
seen_of-note_seen run a seen = ap or_no_commands (lookup-insert_self run seen a.audited_commands)

Untouched-Once : (run : String) (a a' : Audits) → Untouched run a a' → Once run a → Once run a'
Untouched-Once run a a' u o =
    subst (λ rows. OnceIn (map audited_command rows) (seen_of a' run)) (sym u.rows)
      (subst (OnceIn (commands_of run a)) (sym u.seen) o)

module _ (w : Surroundings) (rules : List PermissionRule) where
  commands_of-write_audit :
      (run : String) (a : Audits) (c : Text)
      → commands_of run (write_audit w rules a run c) ≡ commands_of run a ++ c ∷ []
  unfolding list_audit_by_run
  commands_of-write_audit run a c =
      let row = new_entry w rules run c (suc a.last_id) in
      let own : keep (is_row_of run) (row ∷ []) ≡ row ∷ [] = rw ((eq_iff run run).1 refl) refl in
      ap (map audited_command) (
        keep-append_one (is_row_of run) a.rows row
        ∙ ap (λ rows. list_audit_by_run a run ++ rows) own)
      ∙ map-append audited_command (list_audit_by_run a run) (row ∷ [])

  record_audit-Once :
      (run : String) (a : Audits) (c : Text)
      → has_command (seen_of a run) c ≡ false
      → Once run a
      → Once run (record_audit w rules (note_seen a run (seen_of a run ++ c ∷ [])) run c)
  unfolding list_audit_by_run
  record_audit-Once run a c new o =
      let seen = seen_of a run in
      let b = note_seen a run (seen ++ c ∷ []) in
      let noted = sym (seen_of-note_seen run a (seen ++ c ∷ [])) in
      elim (Option-cases (w.run_by_id run)) [
        | inl missing ↦
            rw (record_audit, missing)
              (subst (OnceIn (commands_of run a)) noted (OnceIn-seen (commands_of run a) seen c o))
        | inr (r, found) ↦
            rw (record_audit, found)
              (subst (OnceIn (commands_of run (write_audit w rules b run c))) noted (
                subst (λ cs. OnceIn cs (seen ++ c ∷ [])) (sym (commands_of-write_audit run b c))
                  (OnceIn-written (commands_of run a) seen c new o)))
      ]

  audit_command-Once :
      (run : String) (a : Audits) (c : Text) → Once run a → Once run (audit_command w rules a run c)
  unfolding audit_command
  audit_command-Once run a c o = elim (Bool-cases (has_command (seen_of a run) c)) [
    | inl seen ↦ rw (audit_command, seen) o
    | inr new ↦ rw (audit_command, new) (record_audit-Once run a c new o)
  ]

  audit_each-Once :
      (run : String) (a : Audits) (commands : List Text)
      → Once run a
      → Once run (audit_each w rules a run commands)
  unfolding audit_each
  audit_each-Once run a [] o = o
  audit_each-Once run a (c ∷ commands) o =
      audit_each-Once run (audit_command w rules a run c) commands (audit_command-Once run a c o)

  audit_commands-Once :
      (run : String) (a : Audits) (commands : List Text)
      → Once run a
      → Once run (audit_commands w rules a run commands)
  unfolding audit_commands list_audit_by_run
  audit_commands-Once run a [] o = o
  audit_commands-Once run a (c ∷ commands) o =
      audit_each-Once run (note_seen a run (seen_of a run)) (c ∷ commands)
        (subst (OnceIn (commands_of run a)) (sym (seen_of-note_seen run a (seen_of a run))) o)

  audit_own_chunk :
      (run : String) (a : Audits) (output : Text)
      → Once run a
      → Once run (audit_chunk w rules a run output)
  unfolding audit_chunk list_audit_by_run
  audit_own_chunk run a output o =
      let pushed = push w.expressions (extractor_for w a run) output in
      elim (Bool-cases (includes a.structured_stream_runs run)) [
        | inl structured ↦ rw (audit_chunk, structured) o
        | inr scanned ↦
            rw (audit_chunk, scanned)
              (audit_commands-Once run (record a { extractors = insert run pushed.0 a.extractors })
                pushed.1 o)
      ]

  audit_chunk-Once :
      (asked run : String) (a : Audits) (output : Text)
      → Once asked a
      → Once asked (audit_chunk w rules a run output)
  unfolding audit_chunk list_audit_by_run
  audit_chunk-Once asked run a output o = elim (Bool-cases (run == asked)) [
    | inr other ↦
        Untouched-Once asked a _ (audit_chunk-Untouched w rules asked run a output other) o
    | inl same ↦
        subst (λ r. Once asked (audit_chunk w rules a r output)) (sym ((eq_iff run asked).0 same))
          (audit_own_chunk asked a output o)
  ]

module _ (w : Surroundings) where
  step-Once :
      (asked : String) (a : Audits) (s : AuditStep)
      → finishes asked s ≡ false
      → Once asked a
      → Once asked (step w a s)
  unfolding step suppress_command_audit list_audit_by_run
  step-Once asked a (chunk rules run output) f o = audit_chunk-Once w rules asked run a output o
  step-Once asked a (finish rules run) f o =
      Untouched-Once asked a _ (finish_audit-Untouched w rules asked run a f) o
  step-Once asked a (suppress run) f o = o

  steps-Once :
      (asked : String) (a : Audits) (ss : List AuditStep)
      → any (finishes asked) ss ≡ false
      → Once asked a
      → Once asked (steps w a ss)
  unfolding steps
  steps-Once asked a [] f o = o
  steps-Once asked a (s ∷ ss) f o =
      steps-Once asked (step w a s) ss (ground arith) (step-Once asked a s (ground arith) o)

  -- From a run without rows: whatever chunks of any runs, ends of other runs and notes follow, the
  -- commands of the rows of the run are all different.
  pub steps-audit_once :
      (run : String) (a : Audits) (ss : List AuditStep)
      → list_audit_by_run a run ≡ []
      → any (finishes run) ss ≡ false
      → distinct (commands_of run (steps w a ss)) ≡ true
  steps-audit_once run a ss none_yet f =
      (steps-Once run a ss f (
        subst (λ rows. OnceIn (map audited_command rows) (seen_of a run)) (sym none_yet)
          (record { once = refl; known = refl }))).once
