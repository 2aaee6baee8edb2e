-- ===== src/Permissions/Extraction/Chunks.antt =====
-- The extractor finds the same commands wherever its chunks are cut.
use mathlib.Core.List.{append-nil, append_assoc, flatten}
use teskra.Base.{
  ◌≡◌, ◌≢◌, refl, sym, ap, ◌∙◌, subst, inl, inr, Bool, true, false, not, List, [], ◌∷◌, ◌++◌, Text,
  all, length, leb, is_empty, if◌then◌else◌, Bool-cases, arith, length-append,
}
use teskra.Permissions.Extraction.{
  AuditPattern, Expressions, CommandExtractor, max_pending_line_length, split_from, pop,
  create_command_extractor, recognize, recognized, extract_from_line, push, flush,
  extract_executed_commands,
}
use teskra.Permissions.Extraction.Lines.{
  after, glue, split_from-append, split_from-ne-nil, after-append, unbroken, split_from-unbroken,
  after-unbroken, all-split_from,
}

abbrev pub ends_whole : Text → Bool
ends_whole chunk = not (after false chunk)

abbrev pub fits : Text → Bool
fits line = leb (length line) max_pending_line_length

glue-ne-nil : (x : Text) (xs ys : List Text) → glue (x ∷ xs) ys ≢ []
unfolding glue
glue-ne-nil x [] [] e = cc
glue-ne-nil x [] (y ∷ ys) e = cc
glue-ne-nil x (z ∷ xs) ys e = cc

pop-cons : (x : Text) (xs : List Text) → xs ≢ [] → pop (x ∷ xs) ≡ (x ∷ (pop xs).0, (pop xs).1)
unfolding pop
pop-cons x [] h = absurd (h refl)
pop-cons x (z ∷ xs) h = refl

pop-glue :
    (xs ys : List Text)
    → xs ≢ []
    → pop (glue xs ys)
      ≡ ((pop xs).0 ++ (pop (glue ((pop xs).1 ∷ []) ys)).0, (pop (glue ((pop xs).1 ∷ []) ys)).1)
unfolding pop glue
pop-glue [] ys h = absurd (h refl)
pop-glue (x ∷ []) ys h = refl
pop-glue (x ∷ z ∷ xs) ys h =
    pop-cons x (glue (z ∷ xs) ys) (glue-ne-nil z xs ys)
    ∙ ap (λ (r : List Text × Text). (x ∷ r.0, r.1)) (pop-glue (z ∷ xs) ys (λ e. cc))

all-glue_last :
    (xs ys : List Text)
    → xs ≢ []
    → all fits (glue xs ys) ≡ true
    → (fits (pop xs).1 ≡ true) × (all fits (glue ((pop xs).1 ∷ []) ys) ≡ true)
unfolding pop glue
all-glue_last [] ys h f = absurd (h refl)
all-glue_last (x ∷ []) [] h f = ground arith
all-glue_last (x ∷ []) (y ∷ ys) h f = let e = length-append x y in ground arith
all-glue_last (x ∷ z ∷ xs) ys h f = all-glue_last (z ∷ xs) ys (λ e. cc) (ground arith)

pop-unbroken : (xs : List Text) → xs ≢ [] → all unbroken xs ≡ true → unbroken (pop xs).1 ≡ true
unfolding pop
pop-unbroken [] h e = absurd (h refl)
pop-unbroken (x ∷ []) h e = ground arith
pop-unbroken (x ∷ z ∷ xs) h e = pop-unbroken (z ∷ xs) (λ n. cc) (ground arith)

-- The lines that are recognized in the end: all but an empty last one.
complete_of : List Text × Text → List Text
complete_of (before, last) = before ++ (if is_empty last then [] else last ∷ [])

abbrev complete : List Text → List Text
complete ls = complete_of (pop ls)

complete-glue :
    (xs ys : List Text)
    → xs ≢ []
    → complete (glue xs ys) ≡ (pop xs).0 ++ complete (glue ((pop xs).1 ∷ []) ys)
unfolding complete_of
complete-glue xs ys h = ap complete_of (pop-glue xs ys h) ∙ append_assoc (pop xs).0 _ _

split_from-chunk :
    (pending chunk rest : Text)
    → unbroken pending ≡ true
    → ends_whole chunk ≡ true
    → split_from false (pending ++ (chunk ++ rest))
      ≡ glue (split_from false (pending ++ chunk)) (split_from false rest)
split_from-chunk pending chunk rest u w =
    let whole : after false (pending ++ chunk) ≡ false =
      after-append false pending chunk
      ∙ ap (λ b. after b chunk) (after-unbroken pending u)
      ∙ ground arith in
    ap (split_from false) (sym (append_assoc pending chunk rest))
    ∙ split_from-append false (pending ++ chunk) rest
    ∙ ap (λ b. glue (split_from false (pending ++ chunk)) (split_from b rest)) whole

split_from-pending :
    (pending rest : Text)
    → unbroken pending ≡ true
    → split_from false (pending ++ rest) ≡ glue (pending ∷ []) (split_from false rest)
split_from-pending pending rest u =
    split_from-append false pending rest
    ∙ ap (λ ls. glue ls (split_from (after false pending) rest)) (split_from-unbroken pending u)
    ∙ ap (λ b. glue (pending ∷ []) (split_from b rest)) (after-unbroken pending u)

module _ (e : Expressions) where
  recognize-append :
      (ps : List AuditPattern) (m : Bool) (xs ys : List Text)
      → (recognize e ps m (xs ++ ys)).0
        ≡ (recognize e ps m xs).0 ++ (recognize e ps (recognize e ps m xs).1 ys).0
  unfolding recognize
  recognize-append ps m [] ys = refl
  recognize-append ps m (x ∷ xs) ys =
      let (found, marker) = extract_from_line e x ps m in
      ap (λ r. found ++ r) (recognize-append ps marker xs ys) ∙ sym (append_assoc found _ _)

  -- All the commands of an output that comes in chunks and ends.
  unfoldable pub extract_chunks : CommandExtractor → List Text → List Text
  unfolding push flush create_command_extractor
  extract_chunks x [] = (flush e x).1
  extract_chunks x (chunk ∷ chunks) =
      let (x', commands) = push e x chunk in commands ++ extract_chunks x' chunks

  push-fits :
      (x : CommandExtractor) (chunk : Text)
      → fits (pop (split_from false (x.pending ++ chunk))).1 ≡ true
      → push e x chunk ≡ (
          let (lines, pending) = pop (split_from false (x.pending ++ chunk)) in
          recognized e x pending lines)
  unfolding push
  push-fits x chunk h = ground arith

  flush-complete :
      (x : CommandExtractor)
      → (flush e x).1 ≡ (recognize e x.patterns x.marker_matched (complete (x.pending ∷ []))).0
  unfolding flush pop complete_of recognize
  flush-complete x = elim (Bool-cases (is_empty x.pending)) [
    | inl nothing ↦ rw (nothing, flush, complete_of) refl
    | inr some_line ↦ rw (some_line, flush, complete_of) refl
  ]

  extract_chunks-complete :
      (x : CommandExtractor) (chunks : List Text)
      → unbroken x.pending ≡ true
      → all ends_whole chunks ≡ true
      → all fits (split_from false (x.pending ++ flatten chunks)) ≡ true
      → extract_chunks x chunks
        ≡ (recognize e x.patterns x.marker_matched
            (complete (split_from false (x.pending ++ flatten chunks)))).0
  unfolding extract_chunks flatten
  extract_chunks-complete x [] u w f =
      flush-complete x
      ∙ ap (λ ls. (recognize e x.patterns x.marker_matched (complete ls)).0)
          (sym (ap (split_from false) (append-nil x.pending) ∙ split_from-unbroken x.pending u))
  extract_chunks-complete x (chunk ∷ chunks) u w f =
      let xs = split_from false (x.pending ++ chunk) in
      let rest = flatten chunks in
      let ys = split_from false rest in
      let full = split_from-chunk x.pending chunk rest u (ground arith) in
      let (last_fits, later_fit) =
        all-glue_last xs ys (split_from-ne-nil false (x.pending ++ chunk))
          (subst (λ ls. all fits ls ≡ true) full f) in
      let v =
        pop-unbroken xs (split_from-ne-nil false (x.pending ++ chunk))
          (all-split_from false (x.pending ++ chunk)) in
      let later = split_from-pending (pop xs).1 rest v in
      let x' = (recognized e x (pop xs).1 (pop xs).0).0 in
      let ih =
        extract_chunks-complete x' chunks v (ground arith)
          (subst (λ ls. all fits ls ≡ true) (sym later) later_fit) in
      ap (λ (r : CommandExtractor × List Text). r.1 ++ extract_chunks r.0 chunks)
        (push-fits x chunk last_fits)
      ∙ ap (λ r. (recognize e x.patterns x.marker_matched (pop xs).0).0 ++ r)
          (ih ∙ ap (λ ls. (recognize e x'.patterns x'.marker_matched (complete ls)).0) later)
      ∙ sym (recognize-append x.patterns x.marker_matched (pop xs).0 _)
      ∙ ap (λ ls. (recognize e x.patterns x.marker_matched ls).0)
          (sym (complete-glue xs ys (split_from-ne-nil false (x.pending ++ chunk)))
            ∙ ap complete (sym full))

  ends_whole-flatten :
      (chunks : List Text) → all ends_whole chunks ≡ true → ends_whole (flatten chunks) ≡ true
  unfolding flatten
  ends_whole-flatten [] h = refl
  ends_whole-flatten (chunk ∷ chunks) h =
      let whole : after false chunk ≡ false = ground arith in
      let e =
        after-append false chunk (flatten chunks) ∙ ap (λ b. after b (flatten chunks)) whole in
      let ih = ends_whole-flatten chunks (ground arith) in ground arith

  -- Where no chunk ends behind a carriage return and no line is longer than the bound of the buffer:
  -- the commands that the pushes and the last flush find are those that are found in the whole output
  -- at once, however it was cut.
  pub extract_chunks-eq-extract_executed_commands :
      (patterns : List AuditPattern) (chunks : List Text)
      → all ends_whole chunks ≡ true
      → all fits (split_from false (flatten chunks)) ≡ true
      → extract_chunks (create_command_extractor patterns) chunks
        ≡ extract_executed_commands e (flatten chunks) patterns
  unfolding extract_chunks extract_executed_commands create_command_extractor flatten
  extract_chunks-eq-extract_executed_commands patterns chunks w f =
      let x = create_command_extractor patterns in
      let output = flatten chunks in
      let alone = append-nil output in
      extract_chunks-complete x chunks refl w f
      ∙ ap (λ t. (recognize e patterns false (complete (split_from false t))).0) (sym alone)
      ∙ sym (
          extract_chunks-complete x (output ∷ []) refl
            (let h = ends_whole-flatten chunks w in ground arith)
            (subst (λ t. all fits (split_from false t) ≡ true) (sym alone) f))
