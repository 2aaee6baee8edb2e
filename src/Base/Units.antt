-- ===== src/Base/Units.antt =====
-- Texts that the program walks: a list of UTF-16 code units, with the methods of strings.
use Prim.Native.Nat.{ℕ}
use Prim.Native.Char.{code}
use Prim.Native.String.{String}
use mathlib.Core.Bool.{Bool, true, false, ◌&&◌, ◌||◌}
use mathlib.Core.Option.{Option, none, some}
use mathlib.Core.List.{List, [], ◌∷◌, ◌++◌}
use mathlib.Core.Logic.{◌≢◌, ◌↔◌, inl, inr}
use mathlib.Core.Path.{◌≡◌}
use native.Mathlib.Omega.{arith}
use teskra.Base.Tests.{if◌then◌else◌, nat_eq, leb, Bool-cases}
use teskra.Base.Lists.{is_empty}

abbrev pub Text : Type 0
Text = List ℕ

-- The units of a literal in ASCII. `String` has its own `[]` and `∷`.
abbrev pub units : String → Text
units String.[] = []
units (String.◌∷◌ c s) = code c ∷ units s

abbrev pub text_eq : Text → Text → Bool
text_eq [] [] = true
text_eq [] (d ∷ ds) = false
text_eq (c ∷ cs) [] = false
text_eq (c ∷ cs) (d ∷ ds) = nat_eq c d && text_eq cs ds

pub text_eq_iff : (s t : Text) → (text_eq s t ≡ true) ↔ (s ≡ t)
text_eq_iff [] [] = ground arith
text_eq_iff [] (d ∷ ds) = ground arith
text_eq_iff (c ∷ cs) [] = ground arith
text_eq_iff (c ∷ cs) (d ∷ ds) = ground (arith, text_eq_iff cs ds)

-- The white space of `trim` and of `\s`.
unfoldable pub is_space : ℕ → Bool
is_space c =
    nat_eq c 32
    || leb 9 c && leb c 13
    || nat_eq c 0xa0
    || nat_eq c 0x1680
    || leb 0x2000 c && leb c 0x200a
    || nat_eq c 0x2028
    || nat_eq c 0x2029
    || nat_eq c 0x202f
    || nat_eq c 0x205f
    || nat_eq c 0x3000
    || nat_eq c 0xfeff

unfoldable pub trim_start : Text → Text
trim_start [] = []
trim_start (c ∷ cs) = if is_space c then trim_start cs else c ∷ cs

abbrev pub unless_blank : ℕ → Text → Text
unless_blank c rest = if is_space c && is_empty rest then [] else c ∷ rest

unfoldable pub trim_end : Text → Text
trim_end [] = []
trim_end (c ∷ cs) = unless_blank c (trim_end cs)

unfoldable pub trim : Text → Text
unfolding trim_start trim_end is_space
trim s = trim_end (trim_start s)

abbrev pub starts_with_unit : ℕ → Text → Bool
starts_with_unit c [] = false
starts_with_unit c (d ∷ ds) = nat_eq d c

-- `search(/\s/)` and the two slices around the place that it finds.
unfoldable pub break_space : Text → Option (Text × Text)
unfolding is_space
break_space [] = none
break_space (c ∷ cs) =
    let rest = break_space cs in
    if is_space c
    then some ([], cs)
    else elim rest [ none ↦ none | some (before, after) ↦ some (c ∷ before, after) ]

abbrev pub newline : ℕ
newline = 10

abbrev pub onto_first : ℕ → List Text → List Text
onto_first c [] = (c ∷ []) ∷ []
onto_first c (l ∷ ls) = (c ∷ l) ∷ ls

-- `split('\n')` and `join('\n')`.
unfoldable pub split_lines : Text → List Text
split_lines [] = [] ∷ []
split_lines (c ∷ cs) =
    let rest = split_lines cs in if nat_eq c newline then [] ∷ rest else onto_first c rest

unfoldable pub join_lines : List Text → Text
join_lines [] = []
join_lines (l ∷ []) = l
join_lines (l ∷ m ∷ ls) = l ++ newline ∷ join_lines (m ∷ ls)

onto_first-ne-nil : (c : ℕ) (ls : List Text) → onto_first c ls ≢ []
onto_first-ne-nil c [] e = cc
onto_first-ne-nil c (l ∷ ls) e = cc

pub split_lines-ne-nil : (text : Text) → split_lines text ≢ []
unfolding split_lines
split_lines-ne-nil [] e = cc
split_lines-ne-nil (c ∷ cs) e = elim (Bool-cases (nat_eq c newline)) [
  | inl ends ↦ let h = rw (ends, split_lines) at e in cc
  | inr more ↦ onto_first-ne-nil c (split_lines cs) (rw (more, split_lines) at e)
]
