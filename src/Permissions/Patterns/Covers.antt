-- ===== src/Permissions/Patterns/Covers.antt =====
-- What a pattern covers, said by a relation without the tests of matchCommandPattern.
use mathlib.Core.List.{append_assoc}
use teskra.Base.{
  ℕ, ◌≡◌, ◌↔◌, inl, inr, refl, sym, ap, ◌∙◌, subst, true, false, [], ◌∷◌, ◌++◌, Text, trim,
  is_empty, nat_eq, text_eq, text_eq_iff, Bool-cases, arith,
}
use teskra.Permissions.Patterns.{
  space, star, starts_with, ends_with_unit, without_last, is_at_word, match_prefix, match_trimmed,
  match_command_pattern,
}

-- What is asked of a command by the words of a pattern: they are the whole command, or come first in
-- it, before a space.
pub data Leads (words : Text) : Text → Type 0 where
  whole : Leads words words
  first_words : (rest : Text) → Leads words (words ++ space ∷ rest)

-- The trimmed pattern: a star alone, words, words with a star at their end, or words before a space and
-- a star, which are not the whole command.
pub data Covers : (trimmed command : Text) → Type 0 where
  all_commands : (command : Text) → Covers (star ∷ []) command
  by_words :
      (words command : Text)
      → ends_with_unit words star ≡ false
      → is_empty words ≡ false
      → Leads words command
      → Covers words command
  by_starred :
      (words command : Text)
      → ends_with_unit words space ≡ false
      → is_empty words ≡ false
      → Leads words command
      → Covers (words ++ star ∷ []) command
  by_more : (words rest : Text) → Covers (words ++ space ∷ star ∷ []) (words ++ space ∷ rest)

starts_with-append : (prefix rest : Text) → starts_with (prefix ++ rest) prefix ≡ true
unfolding starts_with
starts_with-append [] rest = refl
starts_with-append (c ∷ cs) rest = let ih = starts_with-append cs rest in ground arith

starts_with_rest :
    (text prefix : Text) → starts_with text prefix ≡ true → (rest : Text) × (text ≡ prefix ++ rest)
unfolding starts_with
starts_with_rest text [] h = (text, refl)
starts_with_rest [] (d ∷ ds) h = absurd (cc)
starts_with_rest (c ∷ cs) (d ∷ ds) h =
    let (rest, e) = starts_with_rest cs ds (ground arith) in
    let same : c ≡ d = ground arith in (rest, cc)

-- A text with a last unit.
without_last-append : (text : Text) (u : ℕ) → without_last (text ++ u ∷ []) ≡ text
unfolding without_last
without_last-append [] u = refl
without_last-append (c ∷ []) u = refl
without_last-append (c ∷ d ∷ ds) u = ap (λ t. c ∷ t) (without_last-append (d ∷ ds) u)

ends_with_unit-append : (text : Text) (u v : ℕ) → ends_with_unit (text ++ u ∷ []) v ≡ nat_eq u v
unfolding ends_with_unit
ends_with_unit-append [] u v = refl
ends_with_unit-append (c ∷ []) u v = refl
ends_with_unit-append (c ∷ d ∷ ds) u v = ends_with_unit-append (d ∷ ds) u v

append-without_last :
    (text : Text) (u : ℕ) → ends_with_unit text u ≡ true → without_last text ++ u ∷ [] ≡ text
unfolding without_last ends_with_unit
append-without_last [] u h = absurd (cc)
append-without_last (c ∷ []) u h = let same : c ≡ u = ground arith in cc
append-without_last (c ∷ d ∷ ds) u h = ap (λ t. c ∷ t) (append-without_last (d ∷ ds) u h)

is_at_word-Leads : (words command : Text) → is_at_word words command ≡ true → Leads words command
is_at_word-Leads words command h = elim (Bool-cases (text_eq command words)) [
  | inl same ↦ subst (Leads words) (sym ((text_eq_iff command words).0 same)) whole
  | inr longer ↦
      let (rest, e) = starts_with_rest command (words ++ space ∷ []) (ground arith) in
      subst (Leads words) (sym (e ∙ append_assoc words (space ∷ []) rest)) (first_words rest)
]

Leads-is_at_word : (words command : Text) → Leads words command → is_at_word words command ≡ true
Leads-is_at_word words command whole = let e = (text_eq_iff words words).1 refl in ground arith
Leads-is_at_word words command (first_words rest) =
    let e = append_assoc words (space ∷ []) rest in
    let s =
      subst (λ t. starts_with t (words ++ space ∷ []) ≡ true) e
        (starts_with-append (words ++ space ∷ []) rest) in
    ground arith

match_prefix-Covers :
    (prefix command : Text)
    → is_empty prefix ≡ false
    → match_prefix prefix command ≡ true
    → Covers (prefix ++ star ∷ []) command
match_prefix-Covers prefix command n h = elim (Bool-cases (ends_with_unit prefix space)) [
  | inl open_end ↦
      let w = without_last prefix in
      let spaced = append-without_last prefix space open_end in
      let (rest, e) = starts_with_rest command prefix (ground arith) in
      let pattern : prefix ++ star ∷ [] ≡ w ++ space ∷ star ∷ [] =
        ap (λ t. t ++ star ∷ []) (sym spaced) ∙ append_assoc w (space ∷ []) (star ∷ []) in
      let given : command ≡ w ++ space ∷ rest =
        e ∙ ap (λ t. t ++ rest) (sym spaced) ∙ append_assoc w (space ∷ []) rest in
      subst (λ t. Covers t command) (sym pattern)
        (subst (Covers (w ++ space ∷ star ∷ [])) (sym given) (by_more w rest))
  | inr word ↦ by_starred prefix command word n (is_at_word-Leads prefix command (ground arith))
]

is_empty-append : (text : Text) (u : ℕ) → is_empty (text ++ u ∷ []) ≡ false
is_empty-append [] u = refl
is_empty-append (c ∷ cs) u = refl

longer_than_star :
    (prefix : Text) → is_empty prefix ≡ false → text_eq (prefix ++ star ∷ []) (star ∷ []) ≡ false
longer_than_star [] n = absurd (cc)
longer_than_star (c ∷ []) n = ground arith
longer_than_star (c ∷ d ∷ ds) n = ground arith

match_trimmed-append_star :
    (prefix command : Text)
    → is_empty prefix ≡ false
    → match_trimmed (prefix ++ star ∷ []) command ≡ match_prefix prefix command
match_trimmed-append_star prefix command n =
    rw
      (
        is_empty-append prefix star,
        longer_than_star prefix n,
        ends_with_unit-append prefix star star,
        without_last-append prefix star,
      )
      refl

before_star :
    (trimmed : Text)
    → text_eq trimmed (star ∷ []) ≡ false
    → ends_with_unit trimmed star ≡ true
    → is_empty (without_last trimmed) ≡ false
unfolding without_last ends_with_unit
before_star [] w h = absurd (cc)
before_star (c ∷ []) w h = absurd (ground arith)
before_star (c ∷ d ∷ ds) w h = refl

match_trimmed-Covers :
    (trimmed command : Text) → match_trimmed trimmed command ≡ true → Covers trimmed command
match_trimmed-Covers trimmed command h = elim (Bool-cases (is_empty trimmed)) [
  | inl nothing ↦ absurd (ground arith)
  | inr some_words ↦ elim (Bool-cases (text_eq trimmed (star ∷ []))) [
    | inl alone ↦
        subst (λ t. Covers t command) (sym ((text_eq_iff trimmed (star ∷ [])).0 alone))
          (all_commands command)
    | inr words ↦ elim (Bool-cases (ends_with_unit trimmed star)) [
      | inr plain ↦
          by_words trimmed command plain some_words
            (is_at_word-Leads trimmed command (ground arith))
      | inl starred ↦
          let e = append-without_last trimmed star starred in
          let n = before_star trimmed words starred in
          subst (λ t. Covers t command) e
            (match_prefix-Covers (without_last trimmed) command n (ground arith))
    ]
  ]
]

Covers-match_trimmed :
    (trimmed command : Text) → Covers trimmed command → match_trimmed trimmed command ≡ true
Covers-match_trimmed trimmed command (all_commands c) = refl
Covers-match_trimmed trimmed command (by_words words c s n l) =
    let e = Leads-is_at_word words c l in ground arith
Covers-match_trimmed trimmed command (by_starred words c s n l) =
    let e = Leads-is_at_word words c l in match_trimmed-append_star words c n ∙ ground arith
Covers-match_trimmed trimmed command (by_more words rest) =
    let spaced = words ++ space ∷ [] in
    let ends = ends_with_unit-append words space space in
    let starts =
      subst (λ t. starts_with t spaced ≡ true) (append_assoc words (space ∷ []) rest)
        (starts_with-append spaced rest) in
    ap (λ t. match_trimmed t (words ++ space ∷ rest))
      (sym (append_assoc words (space ∷ []) (star ∷ [])))
    ∙ match_trimmed-append_star spaced (words ++ space ∷ rest) (is_empty-append words space)
    ∙ ground arith

-- A pattern matches a command exactly where its trimmed text covers it: a star alone covers every
-- command; words, and words with a star at their end, cover the command that they are and those that go
-- on behind them after a space; words before a space and a star cover only the latter.
pub match_command_pattern-true_iff :
    (pattern command : Text)
    → (match_command_pattern pattern command ≡ true) ↔ Covers (trim pattern) command
unfolding match_command_pattern
match_command_pattern-true_iff pattern command =
    (match_trimmed-Covers (trim pattern) command, Covers-match_trimmed (trim pattern) command)
