-- ===== src/Directives/Parse.antt =====
-- message-directives.ts: parseMention, parseSlashDirective and parseMessageDirectives.
use teskra.Base.{
  ℕ, ◌+◌, max, Bool, true, false, not, ◌||◌, ◌⊎◌, inl, inr, List, [], ◌∷◌, Option, none, some,
  length, is_empty, ltb, if◌then◌else◌, Text, units, text_eq, trim, starts_with_unit, break_space,
  split_lines, join_lines,
}
use teskra.Directives.{
  Directive, agent, account, mode, approval, model, workflow, directive_name, directive_of,
  same_directive, ApprovalMode, approval_of, ExecutionMode, mode_of, directive_line_too_long,
  unknown_directive, invalid_value, duplicate_directive, mixed_mention, incompatible_directive,
  missing_body, MessageDirectiveError, MessageDirectives, run, review, to_workflow, fail,
  tokenize_directive_line, ipc_name_max,
}

abbrev pub Parsed {ℓ} : Type ℓ → Type ℓ
Parsed A = MessageDirectiveError ⊎ A

-- `slice(1)`
abbrev pub rest_of : Text → Text
rest_of [] = []
rest_of (c ∷ cs) = cs

abbrev pub mention_of : Text → Text → List Text → Parsed MessageDirectives
mention_of agent_id first_line_text later =
    if is_empty agent_id
    then inl (fail 1 invalid_value none none)
    else if ltb ipc_name_max (length agent_id)
    then inl (fail 1 directive_line_too_long none none)
    else let prompt = trim (join_lines (first_line_text ∷ later)) in
      if is_empty prompt then inl (fail 1 missing_body none none) else inr (review prompt agent_id)

unfoldable pub parse_mention : Text → List Text → Parsed MessageDirectives
parse_mention first later =
    let rest = rest_of (trim first) in
    elim (break_space rest) [
      | none ↦ mention_of rest [] later
      | some (agent_id, first_line_text) ↦ mention_of agent_id first_line_text later
    ]

pub record SlashState : Type 0 where
  pub agent_type : Option Text
  pub account_name : Option Text
  pub execution_mode : Option ExecutionMode
  pub approval_mode : Option ApprovalMode
  pub model_name : Option Text
  pub test_command : Option Text
  pub is_workflow : Bool
  pub seen : List (Directive × ℕ)

abbrev pub seen_line : Directive → List (Directive × ℕ) → Option ℕ
seen_line d [] = none
seen_line d ((c, line) ∷ seen) = if same_directive c d then some line else seen_line d seen

abbrev pub invalid {ℓ} : {A : Type ℓ} → ℕ → Directive → Option Text → Parsed A
invalid line d value = inl (fail line invalid_value (some (directive_name d)) value)

-- `args.length === 1 ? args[0] : undefined`
abbrev pub only : List Text → Option Text
only (a ∷ []) = some a
only _ = none

abbrev pub one_value : ℕ → Directive → List Text → (Text → SlashState) → Parsed SlashState
one_value line d args use_value = elim (only args) [
  | none ↦ invalid line d none
  | some a ↦ if is_empty a then invalid line d none else inr (use_value a)
]

-- The flags behind `full`: the last command, or the flag at fault.
unfoldable pub test_flags : Option Text → List Text → Text ⊎ Option Text
test_flags command [] = inr command
test_flags command (flag ∷ []) = inl flag
test_flags command (flag ∷ c ∷ rest) =
    let later = test_flags (some c) rest in
    if not (text_eq flag (units "--test")) || is_empty c then inl flag else later

abbrev pub workflow_args : SlashState → ℕ → List Text → Parsed SlashState
workflow_args s line [] = invalid line workflow none
workflow_args s line (a ∷ args) =
    if text_eq a (units "full")
    then elim (test_flags s.test_command args) [
      | inl flag ↦ invalid line workflow (some flag)
      | inr command ↦ inr (record s { test_command = command; is_workflow = true })
    ]
    else invalid line workflow (some a)

abbrev pub directive_args : SlashState → ℕ → Directive → List Text → Parsed SlashState
directive_args s line agent args = one_value line agent args (λ a. record s { agent_type = some a })
directive_args s line account args =
    one_value line account args (λ a. record s { account_name = some a })
directive_args s line model args = one_value line model args (λ a. record s { model_name = some a })
directive_args s line mode args = elim (only args) [
  | none ↦ invalid line mode none
  | some a ↦ elim (mode_of a) [
    | none ↦ invalid line mode (some a)
    | some m ↦ inr (record s { execution_mode = some m })
  ]
]
directive_args s line approval args = elim (only args) [
  | none ↦ invalid line approval none
  | some a ↦ elim (approval_of a) [
    | none ↦ invalid line approval (some a)
    | some m ↦ inr (record s { approval_mode = some m })
  ]
]
directive_args s line workflow args = workflow_args s line args

abbrev pub known_directive : SlashState → ℕ → Directive → List Text → Parsed SlashState
known_directive s line d args = elim (seen_line d s.seen) [
  | some _ ↦ inl (fail line duplicate_directive (some (directive_name d)) none)
  | none ↦ directive_args (record s { seen = (d, line) ∷ s.seen }) line d args
]

abbrev pub name_token : List Text → Text
name_token [] = []
name_token (t ∷ ts) = rest_of t

abbrev pub arg_tokens : List Text → List Text
arg_tokens [] = []
arg_tokens (t ∷ ts) = ts

unfoldable pub parse_slash_directive : SlashState → List Text → ℕ → Parsed SlashState
unfolding directive_of mode_of approval_of test_flags
parse_slash_directive s tokens line = elim (directive_of (name_token tokens)) [
  | none ↦ inl (fail line unknown_directive (some (name_token tokens)) none)
  | some d ↦ known_directive s line d (arg_tokens tokens)
]

-- The tokens of a directive line, with the two faults that a line may have as a whole.
unfoldable pub directive_line : SlashState → Text → ℕ → Parsed SlashState
unfolding tokenize_directive_line
directive_line s trimmed line =
    if ltb ipc_name_max (length trimmed)
    then inl (fail line directive_line_too_long none none)
    else elim (tokenize_directive_line trimmed) [
      | none ↦ inl (fail line invalid_value none none)
      | some tokens ↦
          if is_empty tokens
          then inl (fail line invalid_value none none)
          else parse_slash_directive s tokens line
    ]

-- The loop over the leading lines: the state, the index it stopped at and the lines that are left.
unfoldable pub slash_block : SlashState → ℕ → List Text → Parsed (SlashState × ℕ × List Text)
slash_block s index [] = inr (s, index, [])
slash_block s index (l ∷ ls) = elim (starts_with_unit b'/' (trim l)) [
  | false ↦ inr (s, index, l ∷ ls)
  | true ↦ elim (directive_line s (trim l) (index + 1)) [
    | inl e ↦ inl e
    | inr s' ↦ slash_block s' (index + 1) ls
  ]
]

-- `findIndex` of the first line that is not blank, when a mention begins it.
unfoldable pub stray_mention : ℕ → List Text → Option ℕ
stray_mention index [] = none
stray_mention index (l ∷ ls) =
    let later = stray_mention (index + 1) ls in
    if is_empty (trim l)
    then later
    else if starts_with_unit b'@' (trim l)
    then some (index + 1)
    else none

-- `WORKFLOW_INCOMPATIBLE`
abbrev pub incompatible : List Directive → List (Directive × ℕ) → Option MessageDirectiveError
incompatible [] seen = none
incompatible (d ∷ ds) seen = elim (seen_line d seen) [
  | some line ↦ some (fail line incompatible_directive (some (directive_name d)) none)
  | none ↦ incompatible ds seen
]

abbrev pub workflow_incompatible : List Directive
workflow_incompatible = mode ∷ approval ∷ account ∷ []

abbrev pub assemble : SlashState → ℕ → Text → Parsed MessageDirectives
assemble s index prompt =
    if s.is_workflow
    then elim (incompatible workflow_incompatible s.seen) [
      | some e ↦ inl e
      | none ↦ inr (to_workflow prompt s.agent_type s.model_name s.test_command)
    ]
    else if is_empty prompt
    then inl (fail (max index 1) missing_body none none)
    else inr (run prompt s.agent_type s.account_name s.execution_mode s.approval_mode s.model_name)

abbrev pub body : SlashState → ℕ → List Text → Parsed MessageDirectives
body s index lines = elim (stray_mention index lines) [
  | some line ↦ inl (fail line mixed_mention none none)
  | none ↦ assemble s index (trim (join_lines lines))
]

abbrev pub slash_start : SlashState
slash_start = record {
  agent_type = none;
  account_name = none;
  execution_mode = none;
  approval_mode = none;
  model_name = none;
  test_command = none;
  is_workflow = false;
  seen = [];
}

abbrev pub parse_block : Parsed (SlashState × ℕ × List Text) → Parsed MessageDirectives
parse_block (inl e) = inl e
parse_block (inr (s, index, lines)) = body s index lines

abbrev pub parse_lines : List Text → Parsed MessageDirectives
parse_lines [] = body slash_start 0 []
parse_lines (l ∷ ls) =
    if starts_with_unit b'@' (trim l)
    then parse_mention l ls
    else parse_block (slash_block slash_start 0 (l ∷ ls))

unfoldable pub parse_message_directives : Text → Parsed MessageDirectives
unfolding parse_mention slash_block directive_line parse_slash_directive stray_mention
parse_message_directives text = parse_lines (split_lines text)
