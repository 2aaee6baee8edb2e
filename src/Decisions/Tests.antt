-- ===== src/Decisions/Tests.antt =====
-- The inbox at a concrete confirmation of a shell step.
use teskra.Base.{String, ◌≡◌, refl, ℕ, ◌≤◌, true, false, List, [], ◌∷◌, none, some, arith}
use teskra.Decisions.{
  PendingDecision, DecisionOption, shell_confirmation, opened, blocking, shell_detail, user,
  timeout, system, SourceRef, expired, get_by_id, is_open,
}
use teskra.Decisions.Service.{Service, OpenInput, new_decision}
use teskra.Decisions.Service.Closings.{expire}
use teskra.Decisions.Rows.{count_open}
use teskra.Decisions.History.{
  Call, opens, resolves, expires, reconciles, cancels, calls, calls-keeps_closed, calls-one_open,
}
use teskra.Decisions.Answers.{accepted_as}

abbrev options : List DecisionOption
options =
    record { id = "approve"; label = "Approve"; danger = none }
    ∷ record { id = "reject"; label = "Reject"; danger = some true }
    ∷ []

abbrev confirmation : OpenInput
confirmation = record {
  workspace_id = "w";
  kind = shell_confirmation;
  severity = blocking;
  dedupe_key = "shell_confirmation:s1";
  title = "Confirm shell step";
  detail = shell_detail "make" "/repo";
  options = options;
  run_id = none;
  workflow_run_id = some "r";
  workflow_step_id = some "s1";
  worktree_id = none;
  timeout_ms = 1000;
}

abbrev later : String → ℕ → String
later now ms = "t9"

abbrev row : PendingDecision
row = new_decision later "t1" "d1" confirmation

abbrev service : Service
service = record { rows = row ∷ []; disposed = false; handlers = []; events = [] }

abbrev approved : PendingDecision
approved = accepted_as service "t2" "d1" "approve" user none row

abbrev after : Service
after = record service { rows = approved ∷ [] }

abbrev history : List Call
history =
    opens "t3" "d2" confirmation
    ∷ expires "t9"
    ∷ resolves "t9" "d1" "reject" user none
    ∷ cancels "t9" (record { run_id = none; workflow_run_id = some "r" })
    ∷ reconciles "t9"
    ∷ []

-- Of the two openings the second finds the row of the first, which then expires as a rejection.
expires_rejected :
    (expire service "t9").1
    ≡ record row {
      status = expired;
      resolution =
          some
            (record { option_id = "reject"; decided_by = timeout; decided_at = "t9"; note = none });
      resolved_at = some "t9";
    }
      ∷ []
unfolding expire teskra.Decisions.close_open
expires_rejected = refl

calls-keeps_closed_example : get_by_id (calls later after history).rows "d1" ≡ some approved
unfolding get_by_id
calls-keeps_closed_example = calls-keeps_closed later after history "d1" approved refl refl

calls-one_open_example : count_open "shell_confirmation:s1" (calls later service history).rows ≤ 1
unfolding count_open
calls-one_open_example = calls-one_open later service history "shell_confirmation:s1" (omega arith)
