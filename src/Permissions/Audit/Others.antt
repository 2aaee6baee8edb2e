-- ===== src/Permissions/Audit/Others.antt =====
-- What a call for one run leaves as it was for another.
use mathlib.Core.List.{append-nil}
use teskra.Permissions.Extraction.{CommandExtractor, push, flush}
use teskra.Base.{
  includes, String, ◌≡◌, refl, ap, ◌∙◌, inl, inr, Bool, false, ◌==◌, List, [], ◌∷◌, ◌++◌, Option,
  none, some, Text, keep, lookup, insert, lookup-insert, lookup-remove, Bool-cases, Option-cases,
  arith,
}
use teskra.Permissions.{PermissionRule}
use teskra.Permissions.Audit.{
  Audits, PermissionAuditEntry, Surroundings, seen_of, or_no_commands, has_command, note_seen,
  write_audit, record_audit, audit_command, audit_each, audit_commands, audit_chunk, flush_audit,
  forget_run, finish_audit, is_row_of, list_audit_by_run, extractor_for,
}

-- The rows of a run and the commands that it has shown.
pub record Untouched (run : String) (a a' : Audits) : Type 0 where
  pub rows : list_audit_by_run a' run ≡ list_audit_by_run a run
  pub seen : seen_of a' run ≡ seen_of a run

-- The extractors and the runs with a structured stream.
pub record KeepsStreams (a a' : Audits) : Type 0 where
  pub extractors : a'.extractors ≡ a.extractors
  pub structured : a'.structured_stream_runs ≡ a.structured_stream_runs

pub Untouched-refl : (run : String) (a : Audits) → Untouched run a a
Untouched-refl run a = record { rows = refl; seen = refl }

Untouched-trans :
    (run : String) (a b c : Audits) → Untouched run a b → Untouched run b c → Untouched run a c
Untouched-trans run a b c p q = record { rows = q.rows ∙ p.rows; seen = q.seen ∙ p.seen }

KeepsStreams-trans : (a b c : Audits) → KeepsStreams a b → KeepsStreams b c → KeepsStreams a c
KeepsStreams-trans a b c p q = record {
  extractors = q.extractors ∙ p.extractors;
  structured = q.structured ∙ p.structured;
}

pub keep-append_one :
    (p : PermissionAuditEntry → Bool) (rows : List PermissionAuditEntry)
    (row : PermissionAuditEntry)
    → keep p (rows ++ row ∷ []) ≡ keep p rows ++ keep p (row ∷ [])
keep-append_one p [] row = refl
keep-append_one p (r ∷ rows) row = let ih = keep-append_one p rows row in ground arith

note_seen-Untouched :
    (asked run : String) (a : Audits) (seen : List Text)
    → (run == asked) ≡ false
    → Untouched asked a (note_seen a run seen)
unfolding list_audit_by_run
note_seen-Untouched asked run a seen other =
    let e : lookup asked (insert run seen a.audited_commands) ≡ lookup asked a.audited_commands =
      lookup-insert run asked seen a.audited_commands ∙ rw other refl in
    record { rows = refl; seen = ap or_no_commands e }

module _ (w : Surroundings) (rules : List PermissionRule) where
  write_audit-Untouched :
      (asked run : String) (a : Audits) (command : Text)
      → (run == asked) ≡ false
      → Untouched asked a (write_audit w rules a run command)
  unfolding list_audit_by_run
  write_audit-Untouched asked run a command other = record {
    rows = keep-append_one (is_row_of asked) a.rows _ ∙ rw other (append-nil _);
    seen = refl;
  }

  record_audit-Untouched :
      (asked run : String) (a : Audits) (command : Text)
      → (run == asked) ≡ false
      → Untouched asked a (record_audit w rules a run command)
  record_audit-Untouched asked run a command other = elim (Option-cases (w.run_by_id run)) [
    | inl missing ↦ rw (record_audit, missing) (Untouched-refl asked a)
    | inr (r, found) ↦ rw (record_audit, found) (write_audit-Untouched asked run a command other)
  ]

  record_audit-KeepsStreams :
      (run : String) (a : Audits) (command : Text)
      → KeepsStreams a (record_audit w rules a run command)
  record_audit-KeepsStreams run a command = elim (Option-cases (w.run_by_id run)) [
    | inl missing ↦ rw (record_audit, missing) (record { extractors = refl; structured = refl })
    | inr (r, found) ↦ rw (record_audit, found) (record { extractors = refl; structured = refl })
  ]

  audit_command-Untouched :
      (asked run : String) (a : Audits) (command : Text)
      → (run == asked) ≡ false
      → Untouched asked a (audit_command w rules a run command)
  unfolding audit_command
  audit_command-Untouched asked run a command other =
      let b = note_seen a run (seen_of a run ++ command ∷ []) in
      elim (Bool-cases (has_command (seen_of a run) command)) [
        | inl seen ↦ rw (audit_command, seen) (Untouched-refl asked a)
        | inr new ↦
            rw (audit_command, new)
              (Untouched-trans asked a b _
                (note_seen-Untouched asked run a (seen_of a run ++ command ∷ []) other)
                (record_audit-Untouched asked run b command other))
      ]

  audit_command-KeepsStreams :
      (run : String) (a : Audits) (command : Text)
      → KeepsStreams a (audit_command w rules a run command)
  unfolding audit_command
  audit_command-KeepsStreams run a command =
      let kept =
        record_audit-KeepsStreams run (note_seen a run (seen_of a run ++ command ∷ [])) command in
      elim (Bool-cases (has_command (seen_of a run) command)) [
        | inl seen ↦ rw (audit_command, seen) (record { extractors = refl; structured = refl })
        | inr new ↦
            rw (audit_command, new)
              (record { extractors = kept.extractors; structured = kept.structured })
      ]

  audit_each-Untouched :
      (asked run : String) (a : Audits) (commands : List Text)
      → (run == asked) ≡ false
      → Untouched asked a (audit_each w rules a run commands)
  unfolding audit_each
  audit_each-Untouched asked run a [] other = Untouched-refl asked a
  audit_each-Untouched asked run a (c ∷ commands) other =
      let b = audit_command w rules a run c in
      Untouched-trans asked a b _ (audit_command-Untouched asked run a c other)
        (audit_each-Untouched asked run b commands other)

  audit_each-KeepsStreams :
      (run : String) (a : Audits) (commands : List Text)
      → KeepsStreams a (audit_each w rules a run commands)
  unfolding audit_each
  audit_each-KeepsStreams run a [] = record { extractors = refl; structured = refl }
  audit_each-KeepsStreams run a (c ∷ commands) =
      let b = audit_command w rules a run c in
      KeepsStreams-trans a b _ (audit_command-KeepsStreams run a c)
        (audit_each-KeepsStreams run b commands)

  pub audit_commands-Untouched :
      (asked run : String) (a : Audits) (commands : List Text)
      → (run == asked) ≡ false
      → Untouched asked a (audit_commands w rules a run commands)
  unfolding audit_commands
  audit_commands-Untouched asked run a [] other = Untouched-refl asked a
  audit_commands-Untouched asked run a (c ∷ commands) other =
      let b = note_seen a run (seen_of a run) in
      Untouched-trans asked a b _ (note_seen-Untouched asked run a (seen_of a run) other)
        (audit_each-Untouched asked run b (c ∷ commands) other)

  pub audit_commands-KeepsStreams :
      (run : String) (a : Audits) (commands : List Text)
      → KeepsStreams a (audit_commands w rules a run commands)
  unfolding audit_commands
  audit_commands-KeepsStreams run a [] = record { extractors = refl; structured = refl }
  audit_commands-KeepsStreams run a (c ∷ commands) =
      let kept = audit_each-KeepsStreams run (note_seen a run (seen_of a run)) (c ∷ commands) in
      record { extractors = kept.extractors; structured = kept.structured }

  pub audit_chunk-Untouched :
      (asked run : String) (a : Audits) (output : Text)
      → (run == asked) ≡ false
      → Untouched asked a (audit_chunk w rules a run output)
  unfolding audit_chunk list_audit_by_run
  audit_chunk-Untouched asked run a output other =
      let pushed = push w.expressions (extractor_for w a run) output in
      let u =
        audit_commands-Untouched asked run
          (record a { extractors = insert run pushed.0 a.extractors }) pushed.1 other in
      elim (Bool-cases (includes a.structured_stream_runs run)) [
        | inl structured ↦ rw (audit_chunk, structured) (Untouched-refl asked a)
        | inr scanned ↦ rw (audit_chunk, scanned) (record { rows = u.rows; seen = u.seen })
      ]

  pub audit_chunk-KeepsStreams :
      (run : String) (a : Audits) (output : Text)
      → includes a.structured_stream_runs run ≡ false
      → KeepsStreams
          (record a {
            extractors =
                insert run (push w.expressions (extractor_for w a run) output).0 a.extractors;
          })
          (audit_chunk w rules a run output)
  unfolding audit_chunk
  audit_chunk-KeepsStreams run a output scanned =
      let pushed = push w.expressions (extractor_for w a run) output in
      rw (audit_chunk, scanned)
        (audit_commands-KeepsStreams run
          (record a { extractors = insert run pushed.0 a.extractors }) pushed.1)

  flush_audit-Untouched :
      (asked run : String) (a : Audits) (x : Option CommandExtractor)
      → (run == asked) ≡ false
      → Untouched asked a (flush_audit w rules a run x)
  flush_audit-Untouched asked run a none other = Untouched-refl asked a
  flush_audit-Untouched asked run a (some x) other =
      audit_commands-Untouched asked run a (flush w.expressions x).1 other

  flush_audit-KeepsStreams :
      (run : String) (a : Audits) (x : Option CommandExtractor)
      → KeepsStreams a (flush_audit w rules a run x)
  flush_audit-KeepsStreams run a none = record { extractors = refl; structured = refl }
  flush_audit-KeepsStreams run a (some x) =
      audit_commands-KeepsStreams run a (flush w.expressions x).1

  pub finish_audit-Untouched :
      (asked run : String) (a : Audits)
      → (run == asked) ≡ false
      → Untouched asked a (finish_audit w rules a run)
  unfolding finish_audit list_audit_by_run
  finish_audit-Untouched asked run a other =
      let b = forget_run a run in
      let x = lookup run a.extractors in
      let u = flush_audit-Untouched asked run b x other in
      let flushed = (flush_audit w rules b run x).audited_commands in
      record {
        rows = u.rows;
        seen = ap or_no_commands (lookup-remove run asked flushed other) ∙ u.seen;
      }

  pub finish_audit-KeepsStreams :
      (run : String) (a : Audits) → KeepsStreams (forget_run a run) (finish_audit w rules a run)
  unfolding finish_audit
  finish_audit-KeepsStreams run a =
      let kept = flush_audit-KeepsStreams run (forget_run a run) (lookup run a.extractors) in
      record { extractors = kept.extractors; structured = kept.structured }
