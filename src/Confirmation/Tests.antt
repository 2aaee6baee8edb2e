-- ===== src/Confirmation/Tests.antt =====
-- Two requests for one shell step, decided in the inbox, and the end of the service.
use teskra.Base.{String, ℕ, ◌≡◌, refl, true, false, List, [], ◌∷◌, none, inl, ltb}
use teskra.Decisions.{shell_confirmation, user, get_by_id, close_open}
use teskra.Decisions.Service.{Service, open_decision, resolve}
use teskra.Confirmation.{
  ShellConfirmationDetails, Confirmations, Call, requests_step, decides, settle, decision_handled,
  request, resolve_step, dispose, not_awaiting, call, calls,
}
use teskra.Confirmation.Settled.{bit, answered}
use teskra.Base.{here, there, ◌⊎◌}
use teskra.Confirmation.Waiting.{Passed, Waits, Approved, new_events}
use teskra.Confirmation.Approvals.{call-Approved}
use teskra.Confirmation.Answers.{fresh, calls-dispose}

abbrev later : String → ℕ → String
later now ms = now

abbrev inbox : Service
inbox = record {
  rows = [];
  disposed = false;
  handlers = (shell_confirmation, "shell-confirmation") ∷ [];
  events = [];
}

abbrev step : ShellConfirmationDetails
step = record {
  workspace_id = "w";
  run_id = "r";
  step_id = "s";
  node_id = "n";
  command = "make";
  cwd = "/";
}

-- The first promise is refused by the second request, which the user approves in the inbox.
abbrev history : List Call
history =
    requests_step "1" "d" "title" step 0
    ∷ requests_step "2" "e" "title" step 0
    ∷ decides "3" "d" "approve" user none
    ∷ []

twice_requested : (calls later (fresh inbox) history).answers ≡ (0, false) ∷ (1, true) ∷ []
unfolding calls call request open_decision resolve get_by_id close_open settle decision_handled
twice_requested = refl

-- A decision that was taken is not awaited any more.
resolved_late :
    (resolve_step (calls later (fresh inbox) history) "4" "s" false).1 ≡ inl (not_awaiting "s")
unfolding calls call request resolve_step open_decision resolve get_by_id close_open settle
    decision_handled
resolved_late = refl

calls-dispose_example :
    (answered 1 (dispose (calls later (fresh inbox) history)).answers
      ≡ bit (ltb 1 (calls later (fresh inbox) history).requests))
    × ((dispose (calls later (fresh inbox) history)).pending ≡ [])
calls-dispose_example = calls-dispose later inbox history 1

abbrev asked_twice : List Call
asked_twice = requests_step "1" "d" "title" step 0 ∷ requests_step "2" "e" "title" step 0 ∷ []

abbrev approves : Call
approves = decides "3" "d" "approve" user none

second_passes : Passed 1 (call later (calls later (fresh inbox) asked_twice) approves).answers
unfolding calls call request open_decision resolve get_by_id close_open settle decision_handled
second_passes = there (here refl)

abbrev asked : Confirmations
asked = calls later (fresh inbox) asked_twice

call-Approved_example :
    Passed 1 asked.answers
    ⊎ ((step_id : String) × Waits asked step_id 1
        × Approved step_id (new_events asked (call later asked approves)))
call-Approved_example = call-Approved later asked approves 1 second_passes
