-- ===== src/Permissions/Audit/Distinct.antt =====
-- Lists of commands without a repetition, within those that a run has shown.
use teskra.Base.{
  ◌≡◌, refl, sym, ap, inl, inr, Bool, true, false, not, ◌&&◌, List, [], ◌∷◌, ◌++◌, Text, text_eq,
  text_eq_iff, all, all_elim, any_elim, Bool-cases, arith,
}
use teskra.Permissions.Audit.{has_command}

abbrev pub distinct : List Text → Bool
distinct [] = true
distinct (c ∷ cs) = not (has_command cs c) && distinct cs

has_command-append :
    (seen : List Text) (c x : Text)
    → has_command seen x ≡ true
    → has_command (seen ++ c ∷ []) x ≡ true
has_command-append [] c x h = absurd (cc)
has_command-append (s ∷ seen) c x h = elim (Bool-cases (text_eq x s)) [
  | inl same ↦ ground arith
  | inr other ↦ let ih = has_command-append seen c x (ground arith) in ground arith
]

has_command-append_self : (seen : List Text) (c : Text) → has_command (seen ++ c ∷ []) c ≡ true
has_command-append_self [] c = ground (arith, text_eq_iff c c)
has_command-append_self (s ∷ seen) c = let ih = has_command-append_self seen c in ground arith

has_command-append_other :
    (xs : List Text) (c x : Text)
    → has_command xs x ≡ false
    → text_eq x c ≡ false
    → has_command (xs ++ c ∷ []) x ≡ false
has_command-append_other [] c x h o = ground arith
has_command-append_other (y ∷ xs) c x h o =
    let ih = has_command-append_other xs c x (ground arith) o in ground arith

seen-append :
    (seen : List Text) (c : Text) (cs : List Text)
    → all (has_command seen) cs ≡ true
    → all (has_command (seen ++ c ∷ [])) cs ≡ true
seen-append seen c [] h = refl
seen-append seen c (x ∷ cs) h =
    let first = has_command-append seen c x (ground arith) in
    let ih = seen-append seen c cs (ground arith) in ground arith

all-append_one :
    (p : Text → Bool) (cs : List Text) (c : Text)
    → all p cs ≡ true
    → p c ≡ true
    → all p (cs ++ c ∷ []) ≡ true
all-append_one p [] c h t = rw t refl
all-append_one p (x ∷ cs) c h t = let ih = all-append_one p cs c (ground arith) t in ground arith

text_eq-other : (c x : Text) → text_eq c x ≡ false → text_eq x c ≡ false
text_eq-other c x h = elim (Bool-cases (text_eq x c)) [
  | inr other ↦ other
  | inl same ↦ let e = (text_eq_iff c x).1 (sym ((text_eq_iff x c).0 same)) in absurd (cc)
]

distinct-append :
    (cs : List Text) (c : Text)
    → distinct cs ≡ true
    → has_command cs c ≡ false
    → distinct (cs ++ c ∷ []) ≡ true
distinct-append [] c d h = refl
distinct-append (x ∷ cs) c d h =
    let other = text_eq-other c x (ground arith) in
    let first = has_command-append_other cs c x (ground arith) other in
    let ih = distinct-append cs c (ground arith) (ground arith) in ground arith

unseen_is_new :
    (seen : List Text) (c : Text) (cs : List Text)
    → all (has_command seen) cs ≡ true
    → has_command seen c ≡ false
    → has_command cs c ≡ false
unseen_is_new seen c cs h new = elim (Bool-cases (has_command cs c)) [
  | inr other ↦ other
  | inl old ↦
      let (x, m, e) = any_elim (text_eq c) cs old in
      let known = all_elim (has_command seen) h m in
      let same = ap (has_command seen) ((text_eq_iff c x).0 e) in absurd (cc)
]

-- The commands of the run's rows are all different, and it has shown each of them.
pub record OnceIn (commands seen : List Text) : Type 0 where
  pub once : distinct commands ≡ true
  pub known : all (has_command seen) commands ≡ true

pub OnceIn-seen :
    (commands seen : List Text) (c : Text) → OnceIn commands seen → OnceIn commands (seen ++ c ∷ [])
OnceIn-seen commands seen c o = record {
  once = o.once;
  known = seen-append seen c commands o.known;
}

pub OnceIn-written :
    (commands seen : List Text) (c : Text)
    → has_command seen c ≡ false
    → OnceIn commands seen
    → OnceIn (commands ++ c ∷ []) (seen ++ c ∷ [])
OnceIn-written commands seen c new o = record {
  once = distinct-append commands c o.once (unseen_is_new seen c commands o.known new);
  known =
      all-append_one (has_command (seen ++ c ∷ [])) commands c (seen-append seen c commands o.known)
        (has_command-append_self seen c);
}
