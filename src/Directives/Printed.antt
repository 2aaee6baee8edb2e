-- ===== src/Directives/Printed.antt =====
-- A message written out: directives with quoted values, one to a line, above the prompt; and what
-- the parser reads from such a line.
mod Texts
pub mod RoundTrip
use mathlib.Core.List.{append-nil, append_assoc}
use teskra.Base.{
  ℕ, suc, ◌+◌, ◌≤◌, Bool, true, false, not, ◌⊎◌, inl, inr, List, [], ◌∷◌, ◌++◌, map, Option, none,
  some, length, all, is_empty, ltb, nat_eq, Text, units, text_eq, trim, newline, ◌≡◌, ◌≢◌, refl,
  sym, ap, ◌∙◌, arith, Bool-cases, Option-cases, if◌then◌else◌,
}
use teskra.Directives.{
  Directive, agent, account, mode, approval, model, workflow, directive_name, directive_of,
  same_directive, ApprovalMode, ExecutionMode, mode_of, approval_of, Scan, scan, flush, no_scan,
  tokenize_directive_line, ipc_name_max,
}
use teskra.Directives.Parse.{
  Parsed, SlashState, seen_line, one_value, directive_args, known_directive, parse_slash_directive,
  directive_line,
}

abbrev pub Setting : Type 0
Setting = Directive × Text

-- `/name "value"`
abbrev pub setting_line : Setting → Text
setting_line (d, v) = b'/' ∷ (directive_name d ++ 32 ∷ b'"' ∷ (v ++ b'"' ∷ []))

abbrev pub print_message : List Setting → Text → Text
print_message [] prompt = prompt
print_message (s ∷ ss) prompt = setting_line s ++ newline ∷ print_message ss prompt

abbrev pub Lacks : ℕ → Text → Type 0
Lacks c [] = Unit {0}
Lacks c (d ∷ ds) = (nat_eq d c ≡ false) × Lacks c ds

-- The values that a directive takes; `/workflow` is not written in this form.
abbrev pub Takes : Directive → Text → Type 0
Takes agent v = Unit {0}
Takes account v = Unit {0}
Takes model v = Unit {0}
Takes mode v = (m : ExecutionMode) × (mode_of v ≡ some m)
Takes approval v = (m : ApprovalMode) × (approval_of v ≡ some m)
Takes workflow v = ⊥

pub record IsSetting (s : Setting) : Type 0 where
  pub takes : Takes s.0 s.1
  pub value_nonempty : is_empty s.1 ≡ false
  pub no_quote : Lacks b'"' s.1
  pub no_newline : Lacks newline s.1
  pub fits : ltb ipc_name_max (length (setting_line s)) ≡ false

abbrev pub with_setting : Setting → ℕ → SlashState → SlashState
with_setting (agent, v) line s = record s { agent_type = some v; seen = (agent, line) ∷ s.seen }
with_setting (account, v) line s = record s {
  account_name = some v;
  seen = (account, line) ∷ s.seen;
}
with_setting (model, v) line s = record s { model_name = some v; seen = (model, line) ∷ s.seen }
with_setting (mode, v) line s = record s {
  execution_mode = mode_of v;
  seen = (mode, line) ∷ s.seen;
}
with_setting (approval, v) line s = record s {
  approval_mode = approval_of v;
  seen = (approval, line) ∷ s.seen;
}
with_setting (workflow, v) line s = s

abbrev quoting : List Text → Text → Scan
quoting tokens current = record {
  tokens = tokens;
  current = current;
  in_quotes = true;
  token_started = true;
}

-- Between its quotes a value is read as it stands.
scan_quoted :
    (v : Text) (tokens : List Text) (current : Text)
    → Lacks b'"' v
    → scan (quoting tokens current) (v ++ b'"' ∷ [])
      ≡ record (quoting tokens current) { current = current ++ v; in_quotes = false }
unfolding scan
scan_quoted [] tokens current h = rw append-nil
scan_quoted (c ∷ cs) tokens current (h, hs) =
    rw (scan, h) (scan_quoted cs tokens (current ++ c ∷ []) hs ∙ rw append_assoc)

scan_name :
    (d : Directive) (v : Text)
    → scan no_scan (setting_line (d, v))
      ≡ scan (quoting ((b'/' ∷ directive_name d) ∷ []) []) (v ++ b'"' ∷ [])
unfolding scan
scan_name agent v = refl
scan_name account v = refl
scan_name mode v = refl
scan_name approval v = refl
scan_name model v = refl
scan_name workflow v = refl

tokenize-setting_line :
    (d : Directive) (v : Text)
    → Lacks b'"' v
    → tokenize_directive_line (setting_line (d, v)) ≡ some ((b'/' ∷ directive_name d) ∷ v ∷ [])
unfolding tokenize_directive_line
tokenize-setting_line d v h =
    let read = scan_name d v ∙ scan_quoted v ((b'/' ∷ directive_name d) ∷ []) [] h in
    rw (tokenize_directive_line, read) refl

one_value_lem :
    (line : ℕ) (d : Directive) (v : Text) (f : Text → SlashState)
    → is_empty v ≡ false
    → one_value line d (v ∷ []) f ≡ inr (f v)
one_value_lem line d v f h = rw (one_value, h) refl

directive_of-directive_name : (d : Directive) → directive_of (directive_name d) ≡ some d
unfolding directive_of
directive_of-directive_name agent = refl
directive_of-directive_name account = refl
directive_of-directive_name mode = refl
directive_of-directive_name approval = refl
directive_of-directive_name model = refl
directive_of-directive_name workflow = refl

directive_args-setting :
    (d : Directive) (v : Text) (line : ℕ) (s : SlashState)
    → Takes d v
    → is_empty v ≡ false
    → directive_args (record s { seen = (d, line) ∷ s.seen }) line d (v ∷ [])
      ≡ inr (with_setting (d, v) line s)
directive_args-setting agent v line s t h = rw (directive_args, one_value, h) refl
directive_args-setting account v line s t h = rw (directive_args, one_value, h) refl
directive_args-setting model v line s t h = rw (directive_args, one_value, h) refl
directive_args-setting mode v line s (m, e) h = rw (directive_args, e) refl
directive_args-setting approval v line s (m, e) h = rw (directive_args, e) refl
directive_args-setting workflow v line s t h = absurd t

-- A written directive that was not seen before sets its field, and nothing else.
pub directive_line-setting_line :
    (x : Setting) (line : ℕ) (s : SlashState)
    → IsSetting x
    → seen_line x.0 s.seen ≡ none
    → directive_line s (setting_line x) line ≡ inr (with_setting x line s)
unfolding directive_line parse_slash_directive
directive_line-setting_line (d, v) line s is free =
    rw
      (
        directive_line,
        is.fits,
        tokenize-setting_line d v is.no_quote,
        parse_slash_directive,
        directive_of-directive_name d,
        known_directive,
        free,
      )
      (directive_args-setting d v line s is.takes is.value_nonempty)
