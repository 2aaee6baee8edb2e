-- ===== src/Permissions/Audit/Suppressed.antt =====
-- A run whose commands come from a structured stream is not audited from its output too.
use teskra.Base.{
  includes-append, String, ◌≡◌, refl, ap, ◌∙◌, subst, inl, inr, true, false, ◌==◌, eq_iff, List, [],
  ◌∷◌, none, Text, any, includes, add_id, delete_id, lookup, lookup-insert, remove, lookup-remove,
  lookup-remove_self, Bool-cases, arith,
}
use teskra.Permissions.{PermissionRule}
use teskra.Permissions.Extraction.{push}
use teskra.Permissions.Audit.{
  Audits, Surroundings, audit_chunk, finish_audit, suppress_command_audit, list_audit_by_run,
  extractor_for,
}
use teskra.Permissions.Audit.Steps.{AuditStep, chunk, finish, suppress, finishes, step, steps}
use teskra.Permissions.Audit.Others.{
  audit_chunk-Untouched, audit_chunk-KeepsStreams, finish_audit-Untouched,
  finish_audit-KeepsStreams,
}

includes-add_id :
    (id asked : String) (xs : List String)
    → includes xs asked ≡ true
    → includes (add_id id xs) asked ≡ true
includes-add_id id asked xs h = let e = includes-append xs (id ∷ []) asked in ground arith

includes-add_id_self : (id : String) (xs : List String) → includes (add_id id xs) id ≡ true
includes-add_id_self id xs = let e = includes-append xs (id ∷ []) id in ground (arith, eq_iff id id)

includes-delete_id :
    (id asked : String) (xs : List String)
    → (id == asked) ≡ false
    → includes (delete_id id xs) asked ≡ includes xs asked
includes-delete_id id asked [] h = refl
includes-delete_id id asked (x ∷ xs) h =
    ground (arith, includes-delete_id id asked xs h, eq_iff x id, eq_iff x asked, eq_iff id asked)

record Silent (run : String) (a : Audits) : Type 0 where
  structured : includes a.structured_stream_runs run ≡ true
  no_extractor : lookup run a.extractors ≡ none

suppress-Silent : (run : String) (a : Audits) → Silent run (suppress_command_audit a run)
unfolding suppress_command_audit
suppress-Silent run a = record {
  structured = includes-add_id_self run a.structured_stream_runs;
  no_extractor = lookup-remove_self run a.extractors;
}

lookup-removed :
    (w : Audits) (run asked : String)
    → lookup asked w.extractors ≡ none
    → lookup asked (remove run w.extractors) ≡ none
lookup-removed w run asked h = elim (Bool-cases (run == asked)) [
  | inl same ↦
      subst (λ k. lookup k (remove run w.extractors) ≡ none) ((eq_iff run asked).0 same)
        (lookup-remove_self run w.extractors)
  | inr other ↦ lookup-remove run asked w.extractors other ∙ h
]

suppress-keeps_Silent :
    (run asked : String) (a : Audits) → Silent asked a → Silent asked (suppress_command_audit a run)
unfolding suppress_command_audit
suppress-keeps_Silent run asked a s = record {
  structured = includes-add_id run asked a.structured_stream_runs s.structured;
  no_extractor = lookup-removed a run asked s.no_extractor;
}

Silent-is_other :
    (run asked : String) (a : Audits)
    → Silent asked a
    → includes a.structured_stream_runs run ≡ false
    → (run == asked) ≡ false
Silent-is_other run asked a s scanned = elim (Bool-cases (run == asked)) [
  | inr other ↦ other
  | inl same ↦
      let e = ap (includes a.structured_stream_runs) ((eq_iff run asked).0 same) in
      let h = s.structured in absurd (cc)
]

-- Silent still, and no row more.
abbrev StaysSilent : String → Audits → Audits → Type 0
StaysSilent run a a' = Silent run a' × (list_audit_by_run a' run ≡ list_audit_by_run a run)

module _ (w : Surroundings) (rules : List PermissionRule) where
  audit_chunk-StaysSilent :
      (run asked : String) (a : Audits) (output : Text)
      → Silent asked a
      → StaysSilent asked a (audit_chunk w rules a run output)
  unfolding audit_chunk
  audit_chunk-StaysSilent run asked a output s =
      elim (Bool-cases (includes a.structured_stream_runs run)) [
        | inl structured ↦ rw (audit_chunk, structured) (s, refl)
        | inr scanned ↦
            let other = Silent-is_other run asked a s scanned in
            let u = audit_chunk-Untouched w rules asked run a output other in
            let k = audit_chunk-KeepsStreams w rules run a output scanned in
            let x = (push w.expressions (extractor_for w a run) output).0 in
            (
              record {
                structured = ap (λ l. includes l asked) k.structured ∙ s.structured;
                no_extractor =
                    ap (lookup asked) k.extractors
                    ∙ lookup-insert run asked x a.extractors
                    ∙ rw other s.no_extractor;
              },
              u.rows,
            )
      ]

  finish_audit-StaysSilent :
      (run asked : String) (a : Audits)
      → (run == asked) ≡ false
      → Silent asked a
      → StaysSilent asked a (finish_audit w rules a run)
  finish_audit-StaysSilent run asked a other s =
      let u = finish_audit-Untouched w rules asked run a other in
      let k = finish_audit-KeepsStreams w rules run a in
      (
        record {
          structured =
              ap (λ l. includes l asked) k.structured
              ∙ includes-delete_id run asked a.structured_stream_runs other
              ∙ s.structured;
          no_extractor = ap (lookup asked) k.extractors ∙ lookup-removed a run asked s.no_extractor;
        },
        u.rows,
      )

  finish_audit-Silent :
      (run : String) (a : Audits)
      → Silent run a
      → list_audit_by_run (finish_audit w rules a run) run ≡ list_audit_by_run a run
  unfolding finish_audit list_audit_by_run
  finish_audit-Silent run a s = rw (s.no_extractor) refl

module _ (w : Surroundings) where
  step-StaysSilent :
      (asked : String) (a : Audits) (s : AuditStep)
      → finishes asked s ≡ false
      → Silent asked a
      → StaysSilent asked a (step w a s)
  unfolding step suppress_command_audit list_audit_by_run
  step-StaysSilent asked a (chunk rules run output) f h =
      audit_chunk-StaysSilent w rules run asked a output h
  step-StaysSilent asked a (finish rules run) f h = finish_audit-StaysSilent w rules run asked a f h
  step-StaysSilent asked a (suppress run) f h = (suppress-keeps_Silent run asked a h, refl)

  steps-StaysSilent :
      (asked : String) (a : Audits) (ss : List AuditStep)
      → any (finishes asked) ss ≡ false
      → Silent asked a
      → StaysSilent asked a (steps w a ss)
  unfolding steps
  steps-StaysSilent asked a [] f h = (h, refl)
  steps-StaysSilent asked a (s ∷ ss) f h =
      let (h', e) = step-StaysSilent asked a s (ground arith) h in
      let (h'', e') = steps-StaysSilent asked (step w a s) ss (ground arith) h' in (h'', e' ∙ e)

  -- Once the commands of a run are to come from its structured stream: whatever chunks, ends of other
  -- runs and further notes follow, and at the end of the run itself too, no row of the run is written
  -- from its output.
  pub suppress_command_audit-writes_no_row :
      (rules : List PermissionRule) (run : String) (a : Audits) (ss : List AuditStep)
      → any (finishes run) ss ≡ false
      → let b = steps w (suppress_command_audit a run) ss in
        (list_audit_by_run b run ≡ list_audit_by_run a run)
        × (list_audit_by_run (finish_audit w rules b run) run ≡ list_audit_by_run a run)
  unfolding suppress_command_audit list_audit_by_run
  suppress_command_audit-writes_no_row rules run a ss f =
      let b = steps w (suppress_command_audit a run) ss in
      let (h, e) =
        steps-StaysSilent run (suppress_command_audit a run) ss f (suppress-Silent run a) in
      (e, finish_audit-Silent w rules run b h ∙ e)
