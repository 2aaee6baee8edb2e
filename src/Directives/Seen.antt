-- ===== src/Directives/Seen.antt =====
-- What one line of directives adds to the lines seen.
use teskra.Base.{
  ℕ, inl, inr, List, [], ◌∷◌, length, is_empty, ltb, Text, units, text_eq, ◌≡◌, refl, Bool-cases,
  Option-cases, sum_cases,
}
use teskra.Directives.{
  Directive, agent, account, mode, approval, model, workflow, directive_of, mode_of, approval_of,
  tokenize_directive_line, ipc_name_max,
}
use teskra.Directives.Parse.{
  Parsed, SlashState, seen_line, one_value, directive_args, known_directive, name_token, arg_tokens,
  test_flags, parse_slash_directive, directive_line,
}

-- One directive: an error is on its line, and the lines seen are the old ones and its own.
abbrev SeenStays : ℕ → List (Directive × ℕ) → Parsed SlashState → Type 0
SeenStays line seen (inl e) = e.line ≡ line
SeenStays line seen (inr s) = s.seen ≡ seen

abbrev pub Sees : ℕ → List (Directive × ℕ) → Parsed SlashState → Type 0
Sees line seen (inl e) = e.line ≡ line
Sees line seen (inr s) = (d : Directive) × (s.seen ≡ (d, line) ∷ seen)

Sees-of_SeenStays :
    (line : ℕ) (d : Directive) (seen : List (Directive × ℕ)) (r : Parsed SlashState)
    → SeenStays line ((d, line) ∷ seen) r
    → Sees line seen r
Sees-of_SeenStays line d seen (inl e) h = h
Sees-of_SeenStays line d seen (inr s) h = (d, h)

one_value-SeenStays :
    (s : SlashState) (line : ℕ) (d : Directive) (args : List Text) (f : Text → SlashState)
    → ((a : Text) → (f a).seen ≡ s.seen)
    → SeenStays line s.seen (one_value line d args f)
one_value-SeenStays s line d [] f h = refl
one_value-SeenStays s line d ([] ∷ []) f h = refl
one_value-SeenStays s line d ((c ∷ cs) ∷ []) f h = h (c ∷ cs)
one_value-SeenStays s line d (a ∷ b ∷ rest) f h = refl

directive_args-SeenStays :
    (s : SlashState) (line : ℕ) (d : Directive) (args : List Text)
    → SeenStays line s.seen (directive_args s line d args)
directive_args-SeenStays s line agent args = one_value-SeenStays s line agent args _ (λ a. refl)
directive_args-SeenStays s line account args = one_value-SeenStays s line account args _ (λ a. refl)
directive_args-SeenStays s line model args = one_value-SeenStays s line model args _ (λ a. refl)
directive_args-SeenStays s line mode [] = refl
directive_args-SeenStays s line mode (a ∷ []) = elim (Option-cases (mode_of a)) [
  | inl e ↦ rw (e, directive_args) refl
  | inr (m, e) ↦ rw (e, directive_args) refl
]
directive_args-SeenStays s line mode (a ∷ b ∷ rest) = refl
directive_args-SeenStays s line approval [] = refl
directive_args-SeenStays s line approval (a ∷ []) = elim (Option-cases (approval_of a)) [
  | inl e ↦ rw (e, directive_args) refl
  | inr (m, e) ↦ rw (e, directive_args) refl
]
directive_args-SeenStays s line approval (a ∷ b ∷ rest) = refl
directive_args-SeenStays s line workflow [] = refl
directive_args-SeenStays s line workflow (a ∷ args) = elim (Bool-cases (text_eq a (units "full"))) [
  | inr e ↦ rw (e, directive_args) refl
  | inl e ↦ elim (sum_cases (test_flags s.test_command args)) [
    | inl (flag, bad) ↦ rw (e, bad, directive_args) refl
    | inr (command, good) ↦ rw (e, good, directive_args) refl
  ]
]

known_directive-Sees :
    (s : SlashState) (line : ℕ) (d : Directive) (args : List Text)
    → Sees line s.seen (known_directive s line d args)
known_directive-Sees s line d args = elim (Option-cases (seen_line d s.seen)) [
  | inr (k, e) ↦ rw (e, known_directive) refl
  | inl e ↦
      rw (e, known_directive)
        (Sees-of_SeenStays line d s.seen _
          (directive_args-SeenStays (record s { seen = (d, line) ∷ s.seen }) line d args))
]

pub directive_line-Sees :
    (s : SlashState) (t : Text) (line : ℕ) → Sees line s.seen (directive_line s t line)
unfolding directive_line parse_slash_directive
directive_line-Sees s t line = elim (Bool-cases (ltb ipc_name_max (length t))) [
  | inl long ↦ rw (directive_line, long) refl
  | inr fits ↦ elim (Option-cases (tokenize_directive_line t)) [
    | inl e ↦ rw (directive_line, fits, e) refl
    | inr (tokens, e) ↦ elim (Bool-cases (is_empty tokens)) [
      | inl nil ↦ rw (directive_line, fits, e, nil) refl
      | inr cons ↦ elim (Option-cases (directive_of (name_token tokens))) [
        | inl unknown ↦ rw (directive_line, fits, e, cons, parse_slash_directive, unknown) refl
        | inr (d, known) ↦
            rw (directive_line, fits, e, cons, parse_slash_directive, known)
              (known_directive-Sees s line d (arg_tokens tokens))
      ]
    ]
  ]
]
