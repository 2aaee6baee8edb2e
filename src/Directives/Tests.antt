-- ===== src/Directives/Tests.antt =====
-- Runs of the parser of message directives.
use teskra.Base.{
  arith, ◌≡◌, refl, inl, inr, List, [], ◌∷◌, ◌++◌, none, some, Text, units, newline, is_space, trim,
  split_lines, join_lines, break_space,
}
use teskra.Directives.Answers.{Sound, parse_message_directives-Sound}
use teskra.Directives.Printed.{Setting, print_message}
use teskra.Directives.Printed.RoundTrip.{
  AreSettings, IsPrompt, parse_message_directives-print_message,
}
use teskra.Directives.{
  agent, mode, mode_of, orchestrated, inherited, run, review, to_workflow, fail, mixed_mention,
  incompatible_directive,
}
use teskra.Directives.Parse.{parse_message_directives}

-- Lines with a line feed between them.
abbrev lines : List Text → Text
lines [] = []
lines (l ∷ []) = l
lines (l ∷ m ∷ ls) = l ++ newline ∷ lines (m ∷ ls)

plain_run :
    parse_message_directives
      (lines (units "/agent codex" ∷ units "/mode isolated" ∷ units " fix it " ∷ []))
    ≡ inr (run (units "fix it") (some (units "codex")) none (some orchestrated) none none)
unfolding parse_message_directives split_lines join_lines trim
plain_run = refl

full_workflow :
    parse_message_directives (units "/workflow full --test \"npm test\"")
    ≡ inr (to_workflow [] none none (some (units "npm test")))
unfolding parse_message_directives split_lines join_lines trim
full_workflow = refl

workflow_mode :
    parse_message_directives (lines (units "/mode attended" ∷ units "/workflow full" ∷ []))
    ≡ inl (fail 1 incompatible_directive (some (units "mode")) none)
unfolding parse_message_directives split_lines join_lines trim
workflow_mode = refl

mention :
    parse_message_directives (units "@codex look") ≡ inr (review (units "look") (units "codex"))
unfolding parse_message_directives split_lines join_lines trim break_space is_space
mention = refl

late_mention :
    parse_message_directives (lines (units "/model x" ∷ [] ∷ units "@codex look" ∷ []))
    ≡ inl (fail 3 mixed_mention none none)
unfolding parse_message_directives split_lines join_lines trim
late_mention = refl

-- A name that every object has passes for a mode.
mode_of_prototype :
    parse_message_directives (lines (units "/mode toString" ∷ units "fix" ∷ []))
    ≡ inr (run (units "fix") none none (some (inherited (units "toString"))) none none)
unfolding parse_message_directives split_lines join_lines trim
mode_of_prototype = refl

abbrev settings : List Setting
settings = (mode, units "isolated") ∷ (agent, units "codex 5") ∷ []

settings-AreSettings : AreSettings settings
unfolding mode_of
settings-AreSettings = (
  record {
    takes = (orchestrated, refl);
    value_nonempty = refl;
    no_quote = ground arith;
    no_newline = ground arith;
    fits = refl;
  },
  refl,
  (
    record {
      takes = tt;
      value_nonempty = refl;
      no_quote = ground arith;
      no_newline = ground arith;
      fits = refl;
    },
    refl,
    tt,
  ),
)

fix_it-IsPrompt : IsPrompt b'f' (units "ix it")
unfolding is_space trim
fix_it-IsPrompt = record { visible = refl; no_slash = refl; no_mention = refl; trimmed = refl }

parse_message_directives-print_message_example :
    parse_message_directives (print_message settings (units "fix it"))
    ≡ inr (run (units "fix it") (some (units "codex 5")) none (some orchestrated) none none)
unfolding mode_of
parse_message_directives-print_message_example =
    parse_message_directives-print_message settings b'f' (units "ix it") settings-AreSettings
      fix_it-IsPrompt

parse_message_directives-Sound_example :
    Sound 2
      (parse_message_directives (lines (units "/mode attended" ∷ units "/workflow full" ∷ [])))
unfolding split_lines
parse_message_directives-Sound_example =
    parse_message_directives-Sound (lines (units "/mode attended" ∷ units "/workflow full" ∷ []))
