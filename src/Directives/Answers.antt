-- ===== src/Directives/Answers.antt =====
-- What an answer of parseMessageDirectives holds: the line of an error lies in the message, and the
-- prompt of a run or a review is not empty.
use teskra.Base.{
  ℕ, ◌+◌, ◌≤◌, inl, inr, List, [], ◌∷◌, some, length, is_empty, ltb, Text, trim, starts_with_unit,
  break_space, split_lines, join_lines, ◌≡◌, ◌≢◌, refl, ap, arith, Bool-cases, Option-cases,
  sum_cases, split_lines-ne-nil,
}
use teskra.Directives.{
  Directive, same_directive, MessageDirectiveError, MessageDirectives, run, review, to_workflow,
  ipc_name_max,
}
use teskra.Directives.Parse.{
  Parsed, SlashState, seen_line, directive_line, slash_block, stray_mention, incompatible,
  workflow_incompatible, assemble, body, slash_start, parse_block, parse_lines,
  parse_message_directives, parse_mention, mention_of, rest_of,
}
use teskra.Directives.Seen.{Sees, directive_line-Sees}

-- Where a line number may point in a message of `n` lines.
abbrev pub Within : ℕ → ℕ → Type 0
Within n line = (1 ≤ line) × (line ≤ n)

abbrev pub Sound : ℕ → Parsed MessageDirectives → Type 0
Sound n (inl e) = Within n e.line
Sound n (inr (run prompt _ _ _ _ _)) = prompt ≢ []
Sound n (inr (review prompt id)) = (prompt ≢ []) × (id ≢ []) × (length id ≤ 1024)
Sound n (inr (to_workflow _ _ _ _)) = Unit {0}

abbrev SeenWithin : ℕ → List (Directive × ℕ) → Type 0
SeenWithin n [] = Unit {0}
SeenWithin n ((d, line) ∷ seen) = Within n line × SeenWithin n seen

module _ (n : ℕ) where
  Sees-SeenWithin :
      (line : ℕ) (seen : List (Directive × ℕ)) (s' : SlashState)
      → Within n line
      → SeenWithin n seen
      → Sees line seen (inr s')
      → SeenWithin n s'.seen
  Sees-SeenWithin line seen s' w ws (d, e) = rw e (w, ws)

  seen_line-Within :
      (d : Directive) (seen : List (Directive × ℕ)) {line : ℕ}
      → SeenWithin n seen
      → seen_line d seen ≡ some line
      → Within n line
  seen_line-Within d [] w h = absurd (cc)
  seen_line-Within d ((c, k) ∷ seen) (w, ws) h = elim (Bool-cases (same_directive c d)) [
    | inl same ↦ let e : some k ≡ some _ = rw (same, seen_line) at h in ground arith
    | inr other ↦ seen_line-Within d seen ws (rw (other, seen_line) at h)
  ]

  incompatible-Within :
      (ds : List Directive) (seen : List (Directive × ℕ)) (e : MessageDirectiveError)
      → SeenWithin n seen
      → incompatible ds seen ≡ some e
      → Within n e.line
  incompatible-Within [] seen e w h = absurd (cc)
  incompatible-Within (d ∷ ds) seen e w h = elim (Option-cases (seen_line d seen)) [
    | inr (line, at_line) ↦
        let (l, u) = seen_line-Within d seen w at_line in
        let r = rw (at_line, incompatible) at h in ground arith
    | inl free ↦ incompatible-Within ds seen e w (rw (free, incompatible) at h)
  ]

  -- What the loop over the leading lines leaves.
  abbrev BlockSound : Parsed (SlashState × ℕ × List Text) → Type 0
  BlockSound (inl e) = Within n e.line
  BlockSound (inr (s, index, lines)) = SeenWithin n s.seen × (index + length lines ≡ n)

  slash_block-BlockSound :
      (s : SlashState) (index : ℕ) (lines : List Text)
      → SeenWithin n s.seen
      → index + length lines ≡ n
      → BlockSound (slash_block s index lines)
  unfolding slash_block
  slash_block-BlockSound s index [] w h = (w, h)
  slash_block-BlockSound s index (l ∷ ls) w h = elim (Bool-cases (starts_with_unit b'/' (trim l))) [
    | inr no_slash ↦ rw (slash_block, no_slash) (w, h)
    | inl slash ↦
        let sees = directive_line-Sees s (trim l) (index + 1) in
        elim (sum_cases (directive_line s (trim l) (index + 1))) [
          | inl (e, bad) ↦
              let at_line : e.line ≡ index + 1 = rw bad at sees in
              rw (slash_block, slash, bad) (omega arith, omega arith)
          | inr (s', good) ↦
              let one : Sees (index + 1) s.seen (inr s') = rw good at sees in
              rw (slash_block, slash, good)
                (slash_block-BlockSound s' (index + 1) ls
                  (Sees-SeenWithin (index + 1) s.seen s' (omega arith, omega arith) w one)
                  (omega arith))
        ]
  ]

  stray_mention-Within :
      (index : ℕ) (lines : List Text) (line : ℕ)
      → index + length lines ≡ n
      → stray_mention index lines ≡ some line
      → Within n line
  unfolding stray_mention
  stray_mention-Within index [] line e h = absurd (cc)
  stray_mention-Within index (l ∷ ls) line e h =
      ground (arith, stray_mention-Within (index + 1) ls line)

  assemble-Sound :
      (s : SlashState) (index : ℕ) (prompt : Text)
      → SeenWithin n s.seen
      → index ≤ n
      → 1 ≤ n
      → Sound n (assemble s index prompt)
  assemble-Sound s index prompt w i h = elim (Bool-cases s.is_workflow) [
    | inl flow ↦ elim (Option-cases (incompatible workflow_incompatible s.seen)) [
      | inr (e, clash) ↦
          rw (assemble, flow, clash) (incompatible-Within workflow_incompatible s.seen e w clash)
      | inl free ↦ rw (assemble, flow, free) tt
    ]
    | inr plain ↦ elim (Bool-cases (is_empty prompt)) [
      | inl nil ↦ rw (assemble, plain, nil) (omega arith, omega arith)
      | inr full ↦ rw (assemble, plain, full) (λ e. let x = ap is_empty e in cc)
    ]
  ]

  body-Sound :
      (s : SlashState) (index : ℕ) (lines : List Text)
      → SeenWithin n s.seen
      → index + length lines ≡ n
      → 1 ≤ n
      → Sound n (body s index lines)
  body-Sound s index lines w e h = elim (Option-cases (stray_mention index lines)) [
    | inr (line, stray) ↦ rw (body, stray) (stray_mention-Within index lines line e stray)
    | inl free ↦
        rw (body, free) (assemble-Sound s index (trim (join_lines lines)) w (omega arith) h)
  ]

  parse_block-Sound :
      (r : Parsed (SlashState × ℕ × List Text)) → 1 ≤ n → BlockSound r → Sound n (parse_block r)
  parse_block-Sound (inl e) h b = b
  parse_block-Sound (inr (s, index, lines)) h (w, e) = body-Sound s index lines w e h

mention_of-Sound :
    (n : ℕ) (id first : Text) (later : List Text) → 1 ≤ n → Sound n (mention_of id first later)
mention_of-Sound n id first later h = elim (Bool-cases (is_empty id)) [
  | inl nil ↦ rw (mention_of, nil) (omega arith, omega arith)
  | inr named ↦ elim (Bool-cases (ltb ipc_name_max (length id))) [
    | inl long ↦ rw (mention_of, named, long) (omega arith, omega arith)
    | inr fits ↦ elim (Bool-cases (is_empty (trim (join_lines (first ∷ later))))) [
      | inl blank ↦ rw (mention_of, named, fits, blank) (omega arith, omega arith)
      | inr text ↦
          rw (mention_of, named, fits, text)
            (λ e. let x = ap is_empty e in cc, λ e. let x = ap is_empty e in cc, ground arith)
    ]
  ]
]

parse_lines-Sound : (lines : List Text) → lines ≢ [] → Sound (length lines) (parse_lines lines)
unfolding parse_mention
parse_lines-Sound [] h = absurd (h refl)
parse_lines-Sound (l ∷ ls) h = elim (Bool-cases (starts_with_unit b'@' (trim l))) [
  | inr slash ↦
      rw (parse_lines, slash)
        (parse_block-Sound (length (l ∷ ls)) (slash_block slash_start 0 (l ∷ ls)) (omega arith)
          (slash_block-BlockSound (length (l ∷ ls)) slash_start 0 (l ∷ ls) tt (omega arith)))
  | inl mention ↦ elim (Option-cases (break_space (rest_of (trim l)))) [
    | inl whole ↦
        rw (parse_lines, mention, parse_mention, whole)
          (mention_of-Sound (length (l ∷ ls)) (rest_of (trim l)) [] ls (omega arith))
    | inr ((id, first), cut) ↦
        rw (parse_lines, mention, parse_mention, cut)
          (mention_of-Sound (length (l ∷ ls)) id first ls (omega arith))
  ]
]

-- For every message: an error names a line of the message, a run or a review has a prompt that is
-- not empty, and a reviewer's id is not empty and has at most 1024 units.
pub parse_message_directives-Sound :
    (text : Text) → Sound (length (split_lines text)) (parse_message_directives text)
unfolding parse_message_directives
parse_message_directives-Sound text = parse_lines-Sound (split_lines text) (split_lines-ne-nil text)
