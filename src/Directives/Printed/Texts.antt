-- ===== src/Directives/Printed/Texts.antt =====
-- Lines and white space of a printed message.
use mathlib.Core.List.{append_assoc}
use teskra.Base.{
  ℕ, true, false, inl, inr, List, [], ◌∷◌, ◌++◌, is_empty, nat_eq, Text, is_space, trim_start,
  trim_end, trim, newline, onto_first, split_lines, split_lines-ne-nil, join_lines, ◌≡◌, ◌≢◌, refl,
  sym, ap, ◌∙◌, arith, Bool-cases, nat_eq_iff,
}
use teskra.Directives.{Directive, agent, account, mode, approval, model, workflow, directive_name}
use teskra.Directives.Printed.{Setting, setting_line, Lacks}

pub split_lines-append :
    (l rest : Text) → Lacks newline l → split_lines (l ++ newline ∷ rest) ≡ l ∷ split_lines rest
unfolding split_lines
split_lines-append [] rest h = refl
split_lines-append (c ∷ cs) rest (h, hs) = rw (split_lines, h, split_lines-append cs rest hs) refl

join_lines-cons :
    (c : ℕ) (ls : List Text) → ls ≢ [] → join_lines (onto_first c ls) ≡ c ∷ join_lines ls
unfolding join_lines
join_lines-cons c [] h = absurd (h refl)
join_lines-cons c (l ∷ []) h = refl
join_lines-cons c (l ∷ m ∷ ls) h = refl

join_lines-nil : (ls : List Text) → ls ≢ [] → join_lines ([] ∷ ls) ≡ newline ∷ join_lines ls
unfolding join_lines
join_lines-nil [] h = absurd (h refl)
join_lines-nil (l ∷ ls) h = refl

-- Joining the lines of a text gives the text back.
pub join_lines-split_lines : (t : Text) → join_lines (split_lines t) ≡ t
unfolding split_lines join_lines
join_lines-split_lines [] = refl
join_lines-split_lines (c ∷ cs) = elim (Bool-cases (nat_eq c newline)) [
  | inl ends ↦
      rw (split_lines, ends)
        (join_lines-nil (split_lines cs) (split_lines-ne-nil cs)
          ∙ ap (◌∷◌ newline) (join_lines-split_lines cs)
          ∙ ap (λ d. d ∷ cs) (sym ((nat_eq_iff c newline).0 ends)))
  | inr more ↦
      rw (split_lines, more)
        (join_lines-cons c (split_lines cs) (split_lines-ne-nil cs)
          ∙ ap (◌∷◌ c) (join_lines-split_lines cs))
]

is_empty-append_unit : (s : Text) (c : ℕ) → is_empty (s ++ c ∷ []) ≡ false
is_empty-append_unit [] c = refl
is_empty-append_unit (d ∷ ds) c = refl

trim_end-append : (s : Text) (c : ℕ) → is_space c ≡ false → trim_end (s ++ c ∷ []) ≡ s ++ c ∷ []
unfolding trim_end
trim_end-append [] c h = rw (trim_end, h) refl
trim_end-append (d ∷ ds) c h = elim (Bool-cases (is_space d)) [
  | inl t ↦ rw (trim_end, trim_end-append ds c h, t, is_empty-append_unit ds c) refl
  | inr f ↦ rw (trim_end, trim_end-append ds c h, f) refl
]

pub trim-ends :
    (c d : ℕ) (s : Text)
    → is_space c ≡ false
    → is_space d ≡ false
    → trim (c ∷ (s ++ d ∷ [])) ≡ c ∷ (s ++ d ∷ [])
unfolding trim trim_start
trim-ends c d s h k = rw (trim, trim_start, h) (trim_end-append (c ∷ s) d k)

-- What stays of a text that begins with a visible unit.
pub trim-cons : (c : ℕ) (s : Text) → is_space c ≡ false → trim (c ∷ s) ≡ c ∷ trim_end s
unfolding trim trim_start trim_end
trim-cons c s h = rw (trim, trim_start, h, trim_end, h) refl

pub trim-setting_line : (x : Setting) → trim (setting_line x) ≡ setting_line x
unfolding is_space
trim-setting_line (d, v) =
    let e = append_assoc (directive_name d) (32 ∷ b'"' ∷ v) (b'"' ∷ []) in
    ap trim (ap (◌∷◌ b'/') (sym e))
    ∙ trim-ends b'/' b'"' (directive_name d ++ 32 ∷ b'"' ∷ v) refl refl
    ∙ ap (◌∷◌ b'/') e

Lacks-append : (c : ℕ) (s t : Text) → Lacks c s → Lacks c t → Lacks c (s ++ t)
Lacks-append c [] t h k = k
Lacks-append c (d ∷ ds) t (h, hs) k = (h, Lacks-append c ds t hs k)

directive_name-Lacks : (d : Directive) → Lacks newline (directive_name d)
directive_name-Lacks agent = ground arith
directive_name-Lacks account = ground arith
directive_name-Lacks mode = ground arith
directive_name-Lacks approval = ground arith
directive_name-Lacks model = ground arith
directive_name-Lacks workflow = ground arith

pub setting_line-Lacks : (x : Setting) → Lacks newline x.1 → Lacks newline (setting_line x)
setting_line-Lacks (d, v) h = (
  refl,
  Lacks-append newline (directive_name d) _ (directive_name-Lacks d)
      (refl, (refl, Lacks-append newline v (b'"' ∷ []) h (refl, tt))),
)

newline_visible : (c : ℕ) → is_space c ≡ false → nat_eq c newline ≡ true → ⊥
unfolding is_space
newline_visible c h e = ground arith

onto_first_visible :
    (c : ℕ) (rest : List Text) → (l : Text) × (ls : List Text) × (onto_first c rest ≡ (c ∷ l) ∷ ls)
onto_first_visible c [] = ([], [], refl)
onto_first_visible c (l ∷ ls) = (l, ls, refl)

-- The first line of a prompt that begins with a visible unit begins with it, too.
pub split_lines-visible :
    (c : ℕ) (s : Text)
    → is_space c ≡ false
    → (l : Text) × (ls : List Text) × (split_lines (c ∷ s) ≡ (c ∷ l) ∷ ls)
unfolding split_lines
split_lines-visible c s h = elim (Bool-cases (nat_eq c newline)) [
  | inl ends ↦ absurd (newline_visible c h ends)
  | inr more ↦ rw (split_lines, more) (onto_first_visible c (split_lines s))
]
