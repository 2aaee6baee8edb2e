-- ===== src/Thread.antt =====
-- apps/desktop/src/main/tasks/thread-projection.ts: the thread of a task, read off its runs, events,
-- handoffs, decisions and workflow runs. What the schemas make of a payload comes with the row, the
-- terminal log of a run is an argument, and texts are lists of UTF-16 units.
pub mod Pages
pub mod Order
pub mod Following
pub mod Tests
use teskra.Base.{
  ℕ, ◌+◌, ◌-◌, Bool, true, false, not, ◌&&◌, ◌||◌, List, [], ◌∷◌, ◌++◌, map, Option, none, some,
  length, leb, is_empty, keep, take, drop, if◌then◌else◌, Text, units, text_eq, trim,
}

pub data Observation : Type 0 where
  assistant_text : Text → Observation
  other_observation : Observation

-- `payload` after `safeParse`, where none is a row that does not parse.
pub data Payload : Type 0 where
  observed : Option Observation → Payload
  progressed : (event : Option Text) → Payload

pub record AgentEvent : Type 0 where
  pub id : Text
  pub run_id : Text
  pub created_at : Text
  pub payload : Payload

-- `summary` where it is a string; `from_terminal`: the source is 'terminal.log'.
pub record Handoff : Type 0 where
  pub run_id : Text
  pub created_at : Text
  pub summary : Option Text
  pub from_terminal : Bool

pub record AgentRun : Type 0 where
  pub id : Text
  pub agent_type : Text
  pub workflow_run_id : Option Text
  pub role : Text
  pub mode : Option Text
  pub prompt : Option Text
  pub status : Text
  pub created_at : Text
  pub finished_at : Option Text
  pub updated_at : Text

pub record WorkflowRun : Type 0 where
  pub id : Text
  pub definition_id : Text
  pub status : Text
  pub created_at : Text

pub record DecisionRow : Type 0 where
  pub id : Text
  pub created_at : Text
  pub run_id : Option Text
  pub workflow_run_id : Option Text
  pub status : Text
  pub title : Text

pub data ReplySource : Type 0 where
  from_observation from_handoff from_terminal_log : ReplySource

pub data SystemKind : Type 0 where
  review_card workflow_card status_change terminal_entry : SystemKind

pub data Content : Type 0 where
  user_message : (run_id text : Text) → Content
  agent_reply : (run_id agent_type text : Text) → ReplySource → (truncated : Bool) → Content
  agent_progress : (run_id event : Text) → Content
  decision_item : DecisionRow → Content
  system_item : SystemKind → (owner_id status text : Text) → Content

pub record ThreadItem : Type 0 where
  pub created_at : Text
  pub id : Text
  pub content : Content

abbrev pub or_text : Option Text → Text → Text
or_text none t = t
or_text (some s) t = s

abbrev pub agent_reply_text_max : ℕ
agent_reply_text_max = 32768

abbrev pub terminal_reply_tail_max : ℕ
terminal_reply_tail_max = 2000

-- The texts of the assistant in the order of the events, and the time of the last of them.
pub join_texts : List AgentEvent → Text → Text → Text × Text
join_texts [] joined last = (joined, last)
join_texts (e ∷ es) joined last = elim e.payload [
  | observed o ↦ elim o [
    | some seen ↦ elim seen [
      | assistant_text t ↦ join_texts es (joined ++ t) e.created_at
      | other_observation ↦ join_texts es joined last
    ]
    | none ↦ join_texts es joined last
  ]
  | progressed _ ↦ join_texts es joined last
]

abbrev pub last_created : List AgentEvent → Text
last_created [] = []
last_created (e ∷ []) = e.created_at
last_created (e ∷ f ∷ es) = last_created (f ∷ es)

-- `joinAssistantTexts`: the text, whether it was cut, and its time.
unfoldable pub join_assistant_texts : List AgentEvent → Text × Bool × Text
unfolding join_texts
join_assistant_texts events =
    let (joined, last) = join_texts events [] (last_created events) in
    if leb (length joined) agent_reply_text_max
    then (joined, false, last)
    else (take agent_reply_text_max joined, true, last)

abbrev pub handoff_reply_body : Option Handoff → Option (Handoff × Text × ReplySource)
handoff_reply_body none = none
handoff_reply_body (some h) = elim h.summary [
  | none ↦ none
  | some summary ↦
      if is_empty (trim summary)
      then none
      else some (h, summary, if h.from_terminal then from_terminal_log else from_handoff)
]

abbrev pub read_terminal_tail : Option Text → Option Text
read_terminal_tail none = none
read_terminal_tail (some log) =
    let tail = trim (drop (length log - terminal_reply_tail_max) log) in
    if is_empty tail then none else some tail

abbrev pub is_observation : AgentEvent → Bool
is_observation e = elim e.payload [ observed _ ↦ true | progressed _ ↦ false ]

abbrev pub reply_item : AgentRun → Text → Text → ReplySource → Bool → ThreadItem
reply_item run created_at text source truncated = record {
  created_at = created_at;
  id = units "reply:" ++ run.id;
  content = agent_reply run.id run.agent_type text source truncated;
}

abbrev pub terminal_reply : AgentRun → Option Text → List ThreadItem
terminal_reply run log = elim (read_terminal_tail log) [
  | none ↦ []
  | some tail ↦
      reply_item run (or_text run.finished_at run.updated_at) tail from_terminal_log false ∷ []
]

abbrev pub handoff_reply : AgentRun → Option Handoff → Option Text → List ThreadItem
handoff_reply run handoff log = elim (handoff_reply_body handoff) [
  | some (h, text, source) ↦ reply_item run h.created_at text source false ∷ []
  | none ↦ terminal_reply run log
]

-- `buildReply`, pushed where there is one.
unfoldable pub build_reply :
    AgentRun → List AgentEvent → Option Handoff → Option Text → List ThreadItem
unfolding join_assistant_texts
build_reply run events handoff log =
    let (text, truncated, created_at) = join_assistant_texts (keep is_observation events) in
    if is_empty text
    then handoff_reply run handoff log
    else reply_item run created_at text from_observation truncated ∷ []
