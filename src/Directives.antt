-- ===== src/Directives.antt =====
-- packages/shared/src/message-directives.ts: the parser of the directives that a message begins with.
-- A text is a list of UTF-16 code units. The sentence of an error is not kept: it is made of the
-- line, the reason, the directive and the value, which are.
pub mod Parse
pub mod Seen
pub mod Answers
pub mod Printed
pub mod Tests
use teskra.Base.{
  ℕ, suc, ◌+◌, max, Bool, true, false, not, ◌&&◌, ◌||◌, ◌⊎◌, inl, inr, List, [], ◌∷◌, ◌++◌, Option,
  none, some, length, is_empty, ltb, nat_eq, if◌then◌else◌, Text, units, text_eq, trim,
  starts_with_unit, break_space, split_lines, join_lines, newline, any,
}

pub data Directive : Type 0 where
  agent account mode approval model workflow : Directive

abbrev pub directive_name : Directive → Text
directive_name agent = units "agent"
directive_name account = units "account"
directive_name mode = units "mode"
directive_name approval = units "approval"
directive_name model = units "model"
directive_name workflow = units "workflow"

abbrev pub all_directives : List Directive
all_directives = agent ∷ account ∷ mode ∷ approval ∷ model ∷ workflow ∷ []

abbrev pub named : Text → List Directive → Option Directive
named name [] = none
named name (d ∷ ds) = if text_eq (directive_name d) name then some d else named name ds

-- `DIRECTIVE_NAME_SET.has(name)`, with the directive found.
unfoldable pub directive_of : Text → Option Directive
directive_of name = named name all_directives

abbrev pub same_directive : Directive → Directive → Bool
same_directive c d = text_eq (directive_name c) (directive_name d)

pub data ApprovalMode : Type 0 where
  read_only manual safe_auto full_auto : ApprovalMode

unfoldable pub approval_of : Text → Option ApprovalMode
approval_of v =
    if text_eq (units "read-only") v
    then some read_only
    else if text_eq (units "manual") v
    then some manual
    else if text_eq (units "safe-auto") v
    then some safe_auto
    else if text_eq (units "full-auto") v
    then some full_auto
    else none

-- `MODE_VALUES[value]`. The table is an object, so a name of `Object.prototype` is found too.
pub data ExecutionMode : Type 0 where
  attended orchestrated : ExecutionMode
  inherited : Text → ExecutionMode

abbrev pub prototype_names : List Text
prototype_names =
    units "constructor"
    ∷ units "__defineGetter__"
    ∷ units "__defineSetter__"
    ∷ units "hasOwnProperty"
    ∷ units "__lookupGetter__"
    ∷ units "__lookupSetter__"
    ∷ units "isPrototypeOf"
    ∷ units "propertyIsEnumerable"
    ∷ units "toString"
    ∷ units "valueOf"
    ∷ units "__proto__"
    ∷ units "toLocaleString"
    ∷ []

unfoldable pub mode_of : Text → Option ExecutionMode
mode_of v =
    if text_eq (units "attended") v
    then some attended
    else if text_eq (units "isolated") v
    then some orchestrated
    else if any (λ n. text_eq n v) prototype_names
    then some (inherited v)
    else none

pub data Reason : Type 0 where
  directive_line_too_long unknown_directive invalid_value duplicate_directive : Reason
  mixed_mention incompatible_directive missing_body : Reason

pub record MessageDirectiveError : Type 0 where
  pub line : ℕ
  pub reason : Reason
  pub directive : Option Text
  pub value : Option Text

pub data MessageDirectives : Type 0 where
  run :
      (prompt : Text) (agent_type account : Option Text) (execution_mode : Option ExecutionMode)
      (approval_mode : Option ApprovalMode) (model : Option Text)
      → MessageDirectives
  review : (prompt reviewer_agent_id : Text) → MessageDirectives
  to_workflow : (prompt : Text) (agent_type model test_command : Option Text) → MessageDirectives

abbrev pub fail : ℕ → Reason → Option Text → Option Text → MessageDirectiveError
fail line reason directive value = record {
  line = line;
  reason = reason;
  directive = directive;
  value = value;
}

-- `tokenizeDirectiveLine`
pub record Scan : Type 0 where
  pub tokens : List Text
  pub current : Text
  pub in_quotes : Bool
  pub token_started : Bool

abbrev pub flush : Scan → Scan
flush s = record s {
  tokens =
      if s.token_started || not (is_empty s.current) then s.tokens ++ s.current ∷ [] else s.tokens;
  current = [];
  token_started = false;
}

abbrev pub scan_unit : Scan → ℕ → Scan
scan_unit s c =
    if s.in_quotes
    then if nat_eq c b'"'
      then record s { in_quotes = false }
      else record s { current = s.current ++ c ∷ [] }
    else if nat_eq c b'"'
    then record s { in_quotes = true; token_started = true }
    else if nat_eq c 32 || nat_eq c 9
    then flush s
    else record s { current = s.current ++ c ∷ [] }

unfoldable pub scan : Scan → Text → Scan
scan s [] = s
scan s (c ∷ cs) = scan (scan_unit s c) cs

abbrev pub no_scan : Scan
no_scan = record { tokens = []; current = []; in_quotes = false; token_started = false }

unfoldable pub tokenize_directive_line : Text → Option (List Text)
unfolding scan
tokenize_directive_line line =
    let s = scan no_scan line in if s.in_quotes then none else some (flush s).tokens

abbrev pub ipc_name_max : ℕ
ipc_name_max = 1024
