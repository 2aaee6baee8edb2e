-- ===== src/Decisions.antt =====
-- apps/desktop/src/main/decisions/decision-service.ts and decision-repository.ts: the inbox of pending
-- decisions. The table is the list of its rows in insertion order, which is that of `created_at`; its
-- two unique indices are what `insert` tests. A statement succeeds unless it breaks one of them.
pub mod Service
pub mod Rows
pub mod History
pub mod Answers
pub mod Tests
use Prim.Native.String.{compare}
use text.Mathlib.Text.{is_le}
use teskra.Base.{
  String, ◌==◌, ℕ, Bool, true, false, not, ◌&&◌, ◌||◌, ◌⊎◌, inl, inr, List, [], ◌∷◌, ◌++◌, map,
  Option, none, some, keep, find, any, is_empty, ltb, if◌then◌else◌,
}
use mathlib.Core.List.{reverse}

pub data DecisionKind : Type 0 where
  shell_confirmation agent_blocker stalled_run merge_blocked rate_limit handoff_degraded :
      DecisionKind

pub data DecisionStatus : Type 0 where
  opened resolved expired cancelled : DecisionStatus

pub data DecisionSeverity : Type 0 where
  info warning blocking : DecisionSeverity

pub data DecidedBy : Type 0 where
  user timeout system : DecidedBy

pub record DecisionOption : Type 0 where
  pub id : String
  pub label : String
  pub danger : Option Bool

pub record Resolution : Type 0 where
  pub option_id : String
  pub decided_by : DecidedBy
  pub decided_at : String
  pub note : Option String

pub record MergeBlocker : Type 0 where
  pub code : String
  pub message : String
  pub overridable : Bool

-- `DecisionDetail`, a union on `kind`.
pub data Detail : Type 0 where
  shell_detail : (command cwd : String) → Detail
  blocker_detail : (text : String) → Detail
  stalled_detail : (silent_for_ms : ℕ) → Detail
  merge_detail : List MergeBlocker → Detail
  rate_detail : (message : String) (limited_until account_profile_id : Option String) → Detail
  handoff_detail : (raw_path : String) (issues : Option (List String)) → Detail

abbrev pub detail_kind : Detail → DecisionKind
detail_kind (shell_detail _ _) = shell_confirmation
detail_kind (blocker_detail _) = agent_blocker
detail_kind (stalled_detail _) = stalled_run
detail_kind (merge_detail _) = merge_blocked
detail_kind (rate_detail _ _ _) = rate_limit
detail_kind (handoff_detail _ _) = handoff_degraded

pub record PendingDecision : Type 0 where
  pub id : String
  pub workspace_id : String
  pub kind : DecisionKind
  pub status : DecisionStatus
  pub severity : DecisionSeverity
  pub run_id : Option String
  pub workflow_run_id : Option String
  pub workflow_step_id : Option String
  pub worktree_id : Option String
  pub dedupe_key : String
  pub title : String
  pub detail : Detail
  pub options : List DecisionOption
  pub resolution : Option Resolution
  pub expires_at : Option String
  pub created_at : String
  pub resolved_at : Option String

abbrev pub kind_name : DecisionKind → String
kind_name shell_confirmation = "shell_confirmation"
kind_name agent_blocker = "agent_blocker"
kind_name stalled_run = "stalled_run"
kind_name merge_blocked = "merge_blocked"
kind_name rate_limit = "rate_limit"
kind_name handoff_degraded = "handoff_degraded"

abbrev pub same_kind : DecisionKind → DecisionKind → Bool
same_kind a b = kind_name a == kind_name b

abbrev pub is_open : PendingDecision → Bool
is_open d = elim d.status [ opened ↦ true | _ ↦ false ]

abbrev pub text_is : String → Option String → Bool
text_is s none = false
text_is s (some t) = t == s

-- The reading statements of the repository.
abbrev pub has_id : String → PendingDecision → Bool
has_id id d = d.id == id

abbrev pub open_with_key : String → PendingDecision → Bool
open_with_key key d = d.dedupe_key == key && is_open d

unfoldable pub get_by_id : List PendingDecision → String → Option PendingDecision
get_by_id rows id = find (has_id id) rows

abbrev pub get_open_by_dedupe_key : List PendingDecision → String → Option PendingDecision
get_open_by_dedupe_key rows key = find (open_with_key key) rows

pub record ListFilter : Type 0 where
  pub workspace_id : Option String
  pub kind : Option DecisionKind
  pub status : Option DecisionStatus

abbrev pub status_name : DecisionStatus → String
status_name opened = "open"
status_name resolved = "resolved"
status_name expired = "expired"
status_name cancelled = "cancelled"

abbrev pub meets_text : Option String → String → Bool
meets_text none s = true
meets_text (some t) s = s == t

abbrev pub meets_filter : ListFilter → PendingDecision → Bool
meets_filter f d =
    meets_text f.workspace_id d.workspace_id
    && meets_text (elim f.kind [ some k ↦ some (kind_name k) | none ↦ none ]) (kind_name d.kind)
    && meets_text (elim f.status [ some s ↦ some (status_name s) | none ↦ none ])
        (status_name d.status)

unfoldable pub list_decisions : List PendingDecision → ListFilter → List PendingDecision
list_decisions rows f = reverse (keep (meets_filter f) rows)

abbrev pub is_expirable : String → PendingDecision → Bool
is_expirable now d =
    is_open d && elim d.expires_at [ some at ↦ is_le (compare at now) | none ↦ false ]

abbrev pub list_expirable : List PendingDecision → String → List PendingDecision
list_expirable rows now = keep (is_expirable now) rows

abbrev pub open_of_kind : DecisionKind → PendingDecision → Bool
open_of_kind k d = is_open d && same_kind d.kind k

abbrev pub list_open_by_kind : List PendingDecision → DecisionKind → List PendingDecision
list_open_by_kind rows k = keep (open_of_kind k) rows

pub record SourceRef : Type 0 where
  pub run_id : Option String
  pub workflow_run_id : Option String

abbrev pub given_is : Option String → Option String → Bool
given_is none field = false
given_is (some s) field = text_is s field

abbrev pub open_of_source : SourceRef → PendingDecision → Bool
open_of_source s d =
    is_open d && (given_is s.run_id d.run_id || given_is s.workflow_run_id d.workflow_run_id)

abbrev pub list_open_by_source : List PendingDecision → SourceRef → List PendingDecision
list_open_by_source rows s = keep (open_of_source s) rows

-- The unique indices: the primary key, and `dedupe_key` of the open rows.
abbrev pub conflicts : PendingDecision → PendingDecision → Bool
conflicts d row = row.id == d.id || open_with_key d.dedupe_key row

abbrev pub insert_decision : List PendingDecision → PendingDecision → Option (List PendingDecision)
insert_decision rows d = if any (conflicts d) rows then none else some (rows ++ d ∷ [])

-- `UPDATE ... WHERE id = ? AND status = 'open'`: the new rows, and the row as it is read back.
abbrev pub close_row :
    DecisionStatus → Option Resolution → String → PendingDecision → PendingDecision
close_row status resolution now d = record d {
  status = status;
  resolution = resolution;
  resolved_at = some now;
}

pub close_rows :
    String
    → DecisionStatus
    → Option Resolution
    → String
    → List PendingDecision
    → List PendingDecision
close_rows id status resolution now [] = []
close_rows id status resolution now (d ∷ ds) =
    if has_id id d
    then (if is_open d then close_row status resolution now d else d) ∷ ds
    else d ∷ close_rows id status resolution now ds

abbrev pub is_open_row : Option PendingDecision → Bool
is_open_row none = false
is_open_row (some d) = is_open d

unfoldable pub close_open :
    List PendingDecision
    → String
    → DecisionStatus
    → Option Resolution
    → String
    → List PendingDecision × Option PendingDecision
unfolding close_rows get_by_id
close_open rows id status resolution now =
    let rows' = close_rows id status resolution now rows in
    if is_open_row (get_by_id rows id) then (rows', get_by_id rows' id) else (rows, none)
