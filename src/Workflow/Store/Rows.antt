-- ===== src/Workflow/Store/Rows.antt =====
-- Reading a row after a statement that writes rows.
use teskra.Base.{
  String, ◌==◌, eq_iff, ◌≡◌, List, [], ◌∷◌, ◌++◌, Option, none, some, if◌then◌else◌, arith,
}
use teskra.Workflow.Types.{Run, Step}
use teskra.Workflow.Repository.{
  RunPatch, StepPatch, patch_run, patch_step, find_run, find_step, update_runs, update_steps,
  or_old,
}

abbrev pub map_step : StepPatch → Option Step → Option Step
map_step p none = none
map_step p (some s) = some (patch_step p s)

abbrev pub map_run : RunPatch → Option Run → Option Run
map_run p none = none
map_run p (some r) = some (patch_run p r)

pub find-update_steps :
    (id j : String) (p : StepPatch) (ss : List Step)
    → find_step j (update_steps id p ss)
      ≡ (if id == j then map_step p (find_step j ss) else find_step j ss)
unfolding find_step update_steps patch_step
find-update_steps id j p [] = ground arith
find-update_steps id j p (s ∷ ss) =
    ground (arith, eq_iff id j, eq_iff s.id j, eq_iff s.id id, find-update_steps id j p ss)

pub find-update_runs :
    (id j : String) (p : RunPatch) (rs : List Run)
    → find_run j (update_runs id p rs)
      ≡ (if id == j then map_run p (find_run j rs) else find_run j rs)
unfolding find_run update_runs patch_run
find-update_runs id j p [] = ground arith
find-update_runs id j p (r ∷ rs) =
    ground (arith, eq_iff id j, eq_iff r.id j, eq_iff r.id id, find-update_runs id j p rs)

pub find_step-append :
    (j : String) (s : Step) (ss : List Step)
    → find_step j (ss ++ s ∷ []) ≡ or_old (find_step j ss) (if s.id == j then some s else none)
unfolding find_step
find_step-append j s [] = ground arith
find_step-append j s (t ∷ ss) = ground (arith, find_step-append j s ss)

pub find_run-append :
    (j : String) (r : Run) (rs : List Run)
    → find_run j (rs ++ r ∷ []) ≡ or_old (find_run j rs) (if r.id == j then some r else none)
unfolding find_run
find_run-append j r [] = ground arith
find_run-append j r (t ∷ rs) = ground (arith, find_run-append j r rs)
