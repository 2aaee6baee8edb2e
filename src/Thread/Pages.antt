-- ===== src/Thread/Pages.antt =====
-- thread-projection.ts: the items of a thread, their order, the cursor and getThread.
use teskra.Base.{
  ℕ, Bool, true, false, not, ◌&&◌, ◌||◌, ◌⊎◌, inl, inr, List, [], ◌∷◌, ◌++◌, map, Option, none,
  some, length, ltb, nat_eq, is_empty, keep, take, if◌then◌else◌, Text, units, text_eq,
}
use mathlib.Core.List.{flat_map}
use teskra.Thread.{
  AgentEvent, observed, progressed, Handoff, AgentRun, WorkflowRun, DecisionRow, review_card,
  workflow_card, status_change, terminal_entry, user_message, agent_progress, decision_item,
  system_item, ThreadItem, or_text, build_reply,
}

abbrev pub text_lt : Text → Text → Bool
text_lt s [] = false
text_lt [] (d ∷ ds) = true
text_lt (c ∷ cs) (d ∷ ds) = ltb c d || nat_eq c d && text_lt cs ds

abbrev pub includes_text : List Text → Text → Bool
includes_text [] t = false
includes_text (s ∷ ss) t = text_eq s t || includes_text ss t

-- `NOTABLE_TERMINAL_STATUSES`
abbrev pub notable : List Text
notable = units "failed" ∷ units "cancelled" ∷ units "interrupted" ∷ []

abbrev pub is_text : Option Text → Text → Bool
is_text none t = false
is_text (some s) t = text_eq s t

abbrev pub events_of : Text → List AgentEvent → List AgentEvent
events_of run_id events = keep (λ e. text_eq e.run_id run_id) events

-- `new Map(handoffs.map(...)).get(run.id)`: a later row replaces an earlier one.
abbrev pub handoff_of : Text → Option Handoff → List Handoff → Option Handoff
handoff_of run_id found [] = found
handoff_of run_id found (h ∷ hs) =
    handoff_of run_id (if text_eq h.run_id run_id then some h else found) hs

abbrev pub progress_item : Text → AgentEvent → List ThreadItem
progress_item run_id e = elim e.payload [
  | observed _ ↦ []
  | progressed p ↦ elim p [
    | none ↦ []
    | some event ↦
        record {
          created_at = e.created_at;
          id = units "progress:" ++ e.id;
          content = agent_progress run_id event;
        }
        ∷ []
  ]
]

abbrev pub prompt_item : AgentRun → List ThreadItem
prompt_item run = elim run.prompt [
  | none ↦ []
  | some prompt ↦
      if is_empty prompt
      then []
      else record {
        created_at = run.created_at;
        id = units "user:" ++ run.id;
        content = user_message run.id prompt;
      }
        ∷ []
]

abbrev pub status_item : AgentRun → List ThreadItem
status_item run =
    if includes_text notable run.status
    then record {
      created_at = or_text run.finished_at run.updated_at;
      id = units "system:status:" ++ run.id;
      content = system_item status_change run.id run.status (units "Run " ++ run.status);
    }
      ∷ []
    else []

unfoldable pub run_items :
    (terminal_log : Text → Option Text)
    → List AgentEvent
    → List Handoff
    → AgentRun
    → List ThreadItem
run_items terminal_log events handoffs run = elim run.workflow_run_id [
  | some _ ↦ []
  | none ↦
      if text_eq run.role (units "reviewer")
      then record {
        created_at = run.created_at;
        id = units "system:review:" ++ run.id;
        content = system_item review_card run.id run.status (units "Review run");
      }
        ∷ []
      else if not (is_text run.mode (units "exec"))
      then record {
        created_at = run.created_at;
        id = units "system:terminal:" ++ run.id;
        content = system_item terminal_entry run.id run.status (units "Running in the terminal");
      }
        ∷ []
      else prompt_item run
        ++ (build_reply run (events_of run.id events) (handoff_of run.id none handoffs)
              (terminal_log run.id)
            ++ (flat_map (progress_item run.id) (events_of run.id events) ++ status_item run))
]

abbrev pub workflow_item : WorkflowRun → ThreadItem
workflow_item w = record {
  created_at = w.created_at;
  id = units "system:workflow:" ++ w.id;
  content = system_item workflow_card w.id w.status (units "Workflow " ++ w.definition_id);
}

abbrev pub decision_thread_item : DecisionRow → ThreadItem
decision_thread_item d = record {
  created_at = d.created_at;
  id = units "decision:" ++ d.id;
  content = decision_item d;
}

-- The items as they are pushed.
abbrev pub merged :
    (terminal_log : Text → Option Text)
    → List AgentEvent
    → List Handoff
    → List AgentRun
    → List WorkflowRun
    → List DecisionRow
    → List ThreadItem
merged terminal_log events handoffs runs workflows decisions =
    flat_map (run_items terminal_log events handoffs) runs
    ++ (map workflow_item workflows ++ map decision_thread_item decisions)

-- `compareItems(left, right) < 0`
abbrev pub item_before : (created_at id : Text) → ThreadItem → Bool
item_before created_at id i =
    text_lt created_at i.created_at || text_eq created_at i.created_at && text_lt id i.id

unfoldable pub insert_item : ThreadItem → List ThreadItem → List ThreadItem
insert_item i [] = i ∷ []
insert_item i (j ∷ js) =
    if item_before j.created_at j.id i then j ∷ insert_item i js else i ∷ j ∷ js

-- `items.sort(compareItems)`
unfoldable pub sort_items : List ThreadItem → List ThreadItem
unfolding insert_item
sort_items [] = []
sort_items (i ∷ is) = insert_item i (sort_items is)

abbrev pub separator : ℕ
separator = b'|'

abbrev pub encode_cursor : ThreadItem → Text
encode_cursor i = i.created_at ++ separator ∷ i.id

-- `indexOf` and the two slices around the place.
unfoldable pub cut_cursor : Text → Option (Text × Text)
cut_cursor [] = none
cut_cursor (c ∷ cs) =
    let rest = cut_cursor cs in
    if nat_eq c separator
    then some ([], cs)
    else elim rest [ none ↦ none | some (before, after) ↦ some (c ∷ before, after) ]

unfoldable pub decode_cursor : Text → Option (Text × Text)
unfolding cut_cursor
decode_cursor raw = elim (cut_cursor raw) [
  | none ↦ none
  | some (before, after) ↦ if is_empty before || is_empty after then none else some (before, after)
]

pub record Page : Type 0 where
  pub items : List ThreadItem
  pub next_cursor : Option Text

abbrev pub last_of : ThreadItem → List ThreadItem → ThreadItem
last_of i [] = i
last_of i (j ∷ js) = last_of j js

abbrev pub next_of : Bool → List ThreadItem → Option Text
next_of more [] = none
next_of more (i ∷ is) = if more then some (encode_cursor (last_of i is)) else none

-- The first `limit` items of the window, and the cursor of the last where more are left.
abbrev pub page_of : ℕ → List ThreadItem → Page
page_of limit window =
    let page = take limit window in
    record { items = page; next_cursor = next_of (ltb limit (length window)) page }

unfoldable pub window_after : Option (Text × Text) → List ThreadItem → List ThreadItem
window_after none items = items
window_after (some (created_at, id)) items = keep (item_before created_at id) items

-- The repositories, which may fail with an error of theirs, and the logs of the terminals.
pub record Sources (E : Type 0) : Type 0 where
  pub runs : Text → E ⊎ List AgentRun
  pub workflow_runs : Text → E ⊎ List WorkflowRun
  pub events : List Text → E ⊎ List AgentEvent
  pub handoffs : List Text → E ⊎ List Handoff
  pub decisions : List Text → E ⊎ List DecisionRow
  pub terminal_log : Text → Option Text

pub data ThreadError (E : Type 0) : Type 0 where
  invalid_cursor : Text → ThreadError E
  source_failed : E → ThreadError E

module _ {E : Type 0} (from : Sources E) where
  abbrev pub read_then {ℓ} :
      {A : Type 0} {B : Type ℓ} → E ⊎ A → (A → ThreadError E ⊎ B) → ThreadError E ⊎ B
  read_then (inl e) f = inl (source_failed e)
  read_then (inr a) f = f a

  -- The items of a task, in order.
  unfoldable pub thread_items : Text → ThreadError E ⊎ List ThreadItem
  unfolding sort_items run_items
  thread_items task_id = read_then (from.runs task_id) λ runs.
      read_then (from.workflow_runs task_id) λ workflows.
        let run_ids = map (λ (r : AgentRun). r.id) runs in
        read_then (from.events run_ids) λ events. read_then (from.handoffs run_ids) λ handoffs.
          read_then (from.decisions (run_ids ++ map (λ (w : WorkflowRun). w.id) workflows))
            λ decisions.
              inr (sort_items (merged from.terminal_log events handoffs runs workflows decisions))

  abbrev pub page_at :
      ℕ → Option (Text × Text) → ThreadError E ⊎ List ThreadItem → ThreadError E ⊎ Page
  page_at limit after (inl e) = inl e
  page_at limit after (inr items) = inr (page_of limit (window_after after items))

  abbrev pub default_limit : Option ℕ → ℕ
  default_limit none = 50
  default_limit (some limit) = limit

  unfoldable pub get_thread :
      Text → (limit : Option ℕ) → (after_cursor : Option Text) → ThreadError E ⊎ Page
  unfolding decode_cursor thread_items window_after
  get_thread task_id limit none = page_at (default_limit limit) none (thread_items task_id)
  get_thread task_id limit (some raw) = elim (decode_cursor raw) [
    | none ↦ inl (invalid_cursor raw)
    | some after ↦ page_at (default_limit limit) (some after) (thread_items task_id)
  ]
