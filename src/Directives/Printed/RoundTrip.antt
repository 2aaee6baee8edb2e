-- ===== src/Directives/Printed/RoundTrip.antt =====
-- What was printed parses back.
use teskra.Base.{
  ℕ, ◌+◌, Bool, true, false, not, inr, List, [], ◌∷◌, ◌++◌, map, Option, none, some, all, nat_eq,
  Text, is_space, trim, starts_with_unit, split_lines, ◌≡◌, refl, sym, ap, ◌∙◌, subst, arith,
  if◌then◌else◌,
}
use teskra.Directives.{
  Directive, agent, account, mode, approval, model, workflow, same_directive, mode_of, approval_of,
  run, MessageDirectives,
}
use teskra.Directives.Parse.{
  SlashState, seen_line, directive_line, slash_block, stray_mention, assemble, body, slash_start,
  parse_block, parse_lines, parse_message_directives,
}
use teskra.Directives.Printed.{
  Setting, setting_line, print_message, IsSetting, with_setting, directive_line-setting_line,
}
use teskra.Directives.Printed.Texts.{
  split_lines-append, join_lines-split_lines, trim-cons, trim-setting_line, setting_line-Lacks,
  split_lines-visible,
}

-- No two settings are for one directive.
abbrev is_other : Directive → Setting → Bool
is_other d x = not (same_directive d x.0)

abbrev pub AreSettings : List Setting → Type 0
AreSettings [] = Unit {0}
AreSettings (x ∷ xs) = IsSetting x × (all (is_other x.0) xs ≡ true) × AreSettings xs

-- The value set for a directive: `old`, where none is.
abbrev pub value_from : Directive → List Setting → Option Text → Option Text
value_from d [] old = old
value_from d ((c, v) ∷ xs) old = value_from d xs (if same_directive c d then some v else old)

abbrev pub value_of : Directive → List Setting → Option Text
value_of d xs = value_from d xs none

abbrev pub decode {ℓ} : {A : Type ℓ} → (Text → Option A) → Option Text → Option A
decode f none = none
decode f (some v) = f v

-- A prompt that begins with a visible unit other than `/` and `@` and is trimmed.
pub record IsPrompt (c : ℕ) (s : Text) : Type 0 where
  pub visible : is_space c ≡ false
  pub no_slash : nat_eq c b'/' ≡ false
  pub no_mention : nat_eq c b'@' ≡ false
  pub trimmed : trim (c ∷ s) ≡ c ∷ s

abbrev Fresh : List (Directive × ℕ) → List Setting → Type 0
Fresh seen [] = Unit {0}
Fresh seen (x ∷ xs) = (seen_line x.0 seen ≡ none) × Fresh seen xs

Fresh-cons :
    (d : Directive) (line : ℕ) (seen : List (Directive × ℕ)) (xs : List Setting)
    → Fresh seen xs
    → all (is_other d) xs ≡ true
    → Fresh ((d, line) ∷ seen) xs
Fresh-cons d line seen [] f h = tt
Fresh-cons d line seen (x ∷ xs) (f, fs) h =
    (ground arith, Fresh-cons d line seen xs fs (ground arith))

abbrev with_settings : List Setting → ℕ → SlashState → SlashState
with_settings [] index s = s
with_settings (x ∷ xs) index s = with_settings xs (index + 1) (with_setting x (index + 1) s)

with_setting-seen :
    (x : Setting) (line : ℕ) (s : SlashState)
    → IsSetting x
    → (with_setting x line s).seen ≡ (x.0, line) ∷ s.seen
with_setting-seen (agent, v) line s is = refl
with_setting-seen (account, v) line s is = refl
with_setting-seen (mode, v) line s is = refl
with_setting-seen (approval, v) line s is = refl
with_setting-seen (model, v) line s is = refl
with_setting-seen (workflow, v) line s is = absurd is.takes

with_settings-is_workflow :
    (xs : List Setting) (index : ℕ) (s : SlashState)
    → (with_settings xs index s).is_workflow ≡ s.is_workflow
with_settings-is_workflow [] index s = refl
with_settings-is_workflow ((d, v) ∷ xs) index s =
    with_settings-is_workflow xs (index + 1) (with_setting (d, v) (index + 1) s)
    ∙ with_setting-is_workflow d
  where
    with_setting-is_workflow :
        (d : Directive) → (with_setting (d, v) (index + 1) s).is_workflow ≡ s.is_workflow
    with_setting-is_workflow agent = refl
    with_setting-is_workflow account = refl
    with_setting-is_workflow mode = refl
    with_setting-is_workflow approval = refl
    with_setting-is_workflow model = refl
    with_setting-is_workflow workflow = refl

abbrev run_of : Text → SlashState → MessageDirectives
run_of prompt t =
    run prompt t.agent_type t.account_name t.execution_mode t.approval_mode t.model_name

-- The run that is assembled after the settings has their values.
run_of-with_settings :
    (prompt : Text) (xs : List Setting) (index : ℕ) (s : SlashState) (m a : Option Text)
    → AreSettings xs
    → s.execution_mode ≡ decode mode_of m
    → s.approval_mode ≡ decode approval_of a
    → run_of prompt (with_settings xs index s)
      ≡ run prompt
          (value_from agent xs s.agent_type)
          (value_from account xs s.account_name)
          (decode mode_of (value_from mode xs m))
          (decode approval_of (value_from approval xs a))
          (value_from model xs s.model_name)
run_of-with_settings prompt [] index s m a are em ea = rw (em, ea) refl
run_of-with_settings prompt ((agent, v) ∷ xs) index s m a (is, new, are) em ea =
    run_of-with_settings prompt xs (index + 1) (with_setting (agent, v) (index + 1) s) m a are em ea
run_of-with_settings prompt ((account, v) ∷ xs) index s m a (is, new, are) em ea =
    run_of-with_settings prompt xs (index + 1) (with_setting (account, v) (index + 1) s) m a are em
      ea
run_of-with_settings prompt ((mode, v) ∷ xs) index s m a (is, new, are) em ea =
    run_of-with_settings prompt xs (index + 1) (with_setting (mode, v) (index + 1) s) (some v) a are
      refl ea
run_of-with_settings prompt ((approval, v) ∷ xs) index s m a (is, new, are) em ea =
    run_of-with_settings prompt xs (index + 1) (with_setting (approval, v) (index + 1) s) m (some v)
      are em refl
run_of-with_settings prompt ((model, v) ∷ xs) index s m a (is, new, are) em ea =
    run_of-with_settings prompt xs (index + 1) (with_setting (model, v) (index + 1) s) m a are em ea
run_of-with_settings prompt ((workflow, v) ∷ xs) index s m a (is, new, are) em ea = absurd is.takes

split_lines-print_message :
    (xs : List Setting) (prompt : Text)
    → AreSettings xs
    → split_lines (print_message xs prompt) ≡ map setting_line xs ++ split_lines prompt
split_lines-print_message [] prompt are = refl
split_lines-print_message (x ∷ xs) prompt (is, new, are) =
    split_lines-append (setting_line x) (print_message xs prompt)
      (setting_line-Lacks x is.no_newline)
    ∙ ap (◌∷◌ (setting_line x)) (split_lines-print_message xs prompt are)

slash_block-settings :
    (xs : List Setting) (index : ℕ) (s : SlashState) (l : Text) (ls : List Text)
    → AreSettings xs
    → Fresh s.seen xs
    → starts_with_unit b'/' (trim l) ≡ false
    → (j : ℕ) × (slash_block s index (map setting_line xs ++ l ∷ ls)
        ≡ inr (with_settings xs index s, j, l ∷ ls))
unfolding slash_block
slash_block-settings [] index s l ls are fresh stops = (index, rw (slash_block, stops) refl)
slash_block-settings ((d, v) ∷ xs) index s l ls (is, new, are) (f, fs) stops =
    let s' = with_setting (d, v) (index + 1) s in
    let seen = with_setting-seen (d, v) (index + 1) s is in
    let fresh : Fresh s'.seen xs =
      subst (λ z. Fresh z xs) (sym seen) (Fresh-cons d (index + 1) s.seen xs fs new) in
    let (j, e) = slash_block-settings xs (index + 1) s' l ls are fresh stops in
    let trimmed = trim-setting_line (d, v) in
    let read : directive_line s (trim (setting_line (d, v))) (index + 1) ≡ inr s' =
      ap (λ t. directive_line s t (index + 1)) trimmed
      ∙ directive_line-setting_line (d, v) (index + 1) s is f in
    let slash : starts_with_unit b'/' (trim (setting_line (d, v))) ≡ true = rw trimmed refl in
    (j, rw (slash_block, slash, read) e)

body-prompt :
    (c : ℕ) (p : Text) (t : SlashState) (j : ℕ)
    → IsPrompt c p
    → t.is_workflow ≡ false
    → body t j (split_lines (c ∷ p)) ≡ inr (run_of (c ∷ p) t)
unfolding stray_mention
body-prompt c p t j is plain =
    let (l, ls, e) = split_lines-visible c p is.visible in
    let free : stray_mention j (split_lines (c ∷ p)) ≡ none =
      rw (e, stray_mention, trim-cons c l is.visible, is.no_mention) refl in
    rw (body, free, join_lines-split_lines (c ∷ p), is.trimmed, assemble, plain) refl

parse_lines-settings :
    (xs : List Setting) (l : Text) (ls : List Text)
    → starts_with_unit b'@' (trim l) ≡ false
    → parse_lines (map setting_line xs ++ l ∷ ls)
      ≡ parse_block (slash_block slash_start 0 (map setting_line xs ++ l ∷ ls))
parse_lines-settings [] l ls h = rw (parse_lines, h) refl
parse_lines-settings (x ∷ xs) l ls h = rw (parse_lines, trim-setting_line x) refl

Fresh-nil : (xs : List Setting) → Fresh [] xs
Fresh-nil [] = tt
Fresh-nil (x ∷ xs) = (refl, Fresh-nil xs)

-- Directives written one to a line with quoted values, in any order and each at most once, above a
-- trimmed prompt that begins with neither `/` nor `@`, are read back as the run with these values.
pub parse_message_directives-print_message :
    (xs : List Setting) (c : ℕ) (p : Text)
    → AreSettings xs
    → IsPrompt c p
    → parse_message_directives (print_message xs (c ∷ p))
      ≡ inr (
          run
            (c ∷ p)
            (value_of agent xs)
            (value_of account xs)
            (decode mode_of (value_of mode xs))
            (decode approval_of (value_of approval xs))
            (value_of model xs))
unfolding parse_message_directives
parse_message_directives-print_message xs c p are is =
    let (l, ls, e) = split_lines-visible c p is.visible in
    let cut : split_lines (print_message xs (c ∷ p)) ≡ map setting_line xs ++ (c ∷ l) ∷ ls =
      split_lines-print_message xs (c ∷ p) are ∙ ap (λ z. map setting_line xs ++ z) e in
    let no_slash : starts_with_unit b'/' (trim (c ∷ l)) ≡ false =
      rw (trim-cons c l is.visible) is.no_slash in
    let no_mention : starts_with_unit b'@' (trim (c ∷ l)) ≡ false =
      rw (trim-cons c l is.visible) is.no_mention in
    let (j, read) = slash_block-settings xs 0 slash_start (c ∷ l) ls are (Fresh-nil xs) no_slash in
    let t = with_settings xs 0 slash_start in
    ap parse_lines cut
    ∙ parse_lines-settings xs (c ∷ l) ls no_mention
    ∙ ap parse_block read
    ∙ ap (body t j) (sym e)
    ∙ body-prompt c p t j is (with_settings-is_workflow xs 0 slash_start)
    ∙ ap inr (run_of-with_settings (c ∷ p) xs 0 slash_start none none are refl refl)
