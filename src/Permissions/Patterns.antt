-- ===== src/Permissions/Patterns.antt =====
-- permission-manager.ts, matchCommandPattern: when a rule's pattern is that of a command.
pub mod Covers
use mathlib.Core.List.{append_assoc}
use teskra.Base.{
  ℕ, ◌≡◌, ◌↔◌, inl, inr, refl, sym, ap, ◌∙◌, subst, Bool, true, false, ◌&&◌, ◌||◌, [], ◌∷◌, ◌++◌,
  Text, trim, is_empty, nat_eq, text_eq, text_eq_iff, if◌then◌else◌, Bool-cases, arith,
}

abbrev pub space : ℕ
space = 32

abbrev pub star : ℕ
star = 42

unfoldable pub starts_with : (text prefix : Text) → Bool
starts_with text [] = true
starts_with [] (d ∷ ds) = false
starts_with (c ∷ cs) (d ∷ ds) = nat_eq c d && starts_with cs ds

unfoldable pub ends_with_unit : Text → ℕ → Bool
ends_with_unit [] u = false
ends_with_unit (c ∷ []) u = nat_eq c u
ends_with_unit (c ∷ d ∷ ds) u = ends_with_unit (d ∷ ds) u

-- `slice(0, -1)`
unfoldable pub without_last : Text → Text
without_last [] = []
without_last (c ∷ []) = []
without_last (c ∷ d ∷ ds) = c ∷ without_last (d ∷ ds)

abbrev pub is_at_word : (prefix command : Text) → Bool
is_at_word prefix command = text_eq command prefix || starts_with command (prefix ++ space ∷ [])

abbrev pub match_prefix : (prefix command : Text) → Bool
match_prefix prefix command =
    if ends_with_unit prefix space then starts_with command prefix else is_at_word prefix command

abbrev pub match_trimmed : (trimmed command : Text) → Bool
match_trimmed trimmed command =
    if is_empty trimmed
    then false
    else if text_eq trimmed (star ∷ [])
    then true
    else if ends_with_unit trimmed star
    then match_prefix (without_last trimmed) command
    else is_at_word trimmed command

unfoldable pub match_command_pattern : (pattern command : Text) → Bool
unfolding starts_with ends_with_unit without_last trim
match_command_pattern pattern command = match_trimmed (trim pattern) command
