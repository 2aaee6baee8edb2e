-- ===== src/Thread/Following.antt =====
-- A reader who follows the cursors of a thread gets each of its items once, in order.
use mathlib.Core.List.{append_assoc}
use teskra.Base.{
  ℕ, zero, suc, ◌≤◌, ◌<◌, Bool, true, false, not, ◌&&◌, ◌||◌, ◌⊎◌, inl, inr, List, [], ◌∷◌, ◌++◌,
  Option, none, some, all, keep, take, drop, length, is_empty, ltb, nat_eq, Text, ◌≡◌, refl, sym,
  ap, ◌∙◌, subst, arith, Bool-cases,
}
use mathlib.Core.Option
use mathlib.Core.Sum.{inr-injective}
use teskra.Thread.{ThreadItem}
use teskra.Thread.Pages.{
  sort_items, separator, encode_cursor, cut_cursor, decode_cursor, last_of, page_of, window_after,
  Sources, ThreadError, read_then, thread_items, merged, page_at, get_thread,
}
use teskra.Thread.Order.{
  before, before_irrefl, before_asym, IsSorted, sort_items-IsSorted, AllDiffer, Ascends,
  Ascends-of_IsSorted,
}

-- A time stamp without the separator, and an id: what a cursor can carry.
abbrev pub lacks_separator : Text → Bool
lacks_separator [] = true
lacks_separator (c ∷ cs) = not (nat_eq c separator) && lacks_separator cs

abbrev pub has_key : ThreadItem → Bool
has_key i = not (is_empty i.created_at) && lacks_separator i.created_at && not (is_empty i.id)

cut_cursor-separator :
    (s id : Text) → lacks_separator s ≡ true → cut_cursor (s ++ separator ∷ id) ≡ some (s, id)
unfolding cut_cursor
cut_cursor-separator [] id h = refl
cut_cursor-separator (c ∷ cs) id h =
    let other : nat_eq c separator ≡ false = ground arith in
    rw (cut_cursor, other, cut_cursor-separator cs id (ground arith)) refl

-- A cursor is read back as the time and the id of its item.
decode_cursor-encode_cursor :
    (i : ThreadItem)
    → has_key i ≡ true
    → decode_cursor (encode_cursor i) ≡ some (i.created_at, i.id)
unfolding decode_cursor
decode_cursor-encode_cursor i h =
    let cut = cut_cursor-separator i.created_at i.id (ground arith) in
    let full : (is_empty i.created_at || is_empty i.id) ≡ false = ground arith in
    rw (decode_cursor, cut, full) refl

-- In an ascending list the items after one of them are those behind it.
keep_before_all :
    (i : ThreadItem) (js : List ThreadItem) → all (before i) js ≡ true → keep (before i) js ≡ js
keep_before_all i [] h = refl
keep_before_all i (j ∷ js) h =
    let first : before i j ≡ true = ground arith in
    rw (keep, first) (ap (◌∷◌ j) (keep_before_all i js (ground arith)))

all-append :
    (p : ThreadItem → Bool) (is js : List ThreadItem) → all p (is ++ js) ≡ (all p is && all p js)
all-append p [] js = refl
all-append p (i ∷ is) js = ground (arith, all-append p is js)

keep_after :
    (ys : List ThreadItem) (l : ThreadItem) (zs : List ThreadItem)
    → Ascends (ys ++ l ∷ zs)
    → keep (before l) (ys ++ l ∷ zs) ≡ zs
keep_after [] l zs (a, s) = rw (keep, before_irrefl l) (keep_before_all l zs a)
keep_after (y ∷ ys) l zs (a, s) =
    let up : before y l ≡ true = ground (arith, all-append (before y) ys (l ∷ zs)) in
    rw (keep, before_asym y l up) (keep_after ys l zs s)

-- A page that is not the last: its items, of which `last_of` is the last, and the rest.
page_splits :
    (n : ℕ) (i : ThreadItem) (is : List ThreadItem)
    → suc n < length (i ∷ is)
    → (ys : List ThreadItem) × (i ∷ take n is ≡ ys ++ last_of i (take n is) ∷ [])
page_splits zero i is h = ([], refl)
page_splits (suc n) i [] h = absurd (omega arith)
page_splits (suc n) i (j ∷ js) h =
    let (ys, e) = page_splits n j js (omega arith) in (i ∷ ys, ap (◌∷◌ i) e)

take-append-drop : (n : ℕ) (is : List ThreadItem) → take n is ++ drop n is ≡ is
take-append-drop zero is = refl
take-append-drop (suc n) [] = refl
take-append-drop (suc n) (i ∷ is) = ap (◌∷◌ i) (take-append-drop n is)

take_all : (n : ℕ) (is : List ThreadItem) → length is ≤ n → take n is ≡ is
take_all zero [] h = refl
take_all zero (i ∷ is) h = absurd (omega arith)
take_all (suc n) [] h = refl
take_all (suc n) (i ∷ is) h = ap (◌∷◌ i) (take_all n is (omega arith))

length-drop : (n : ℕ) (is : List ThreadItem) → length (drop n is) ≤ length is
length-drop zero is = omega arith
length-drop (suc n) [] = omega arith
length-drop (suc n) (i ∷ is) = let h = length-drop n is in omega arith

all-last_of :
    (p : ThreadItem → Bool) (n : ℕ) (i : ThreadItem) (is : List ThreadItem)
    → all p (i ∷ is) ≡ true
    → p (last_of i (take n is)) ≡ true
all-last_of p zero i is h = ground arith
all-last_of p (suc n) i [] h = ground arith
all-last_of p (suc n) i (j ∷ js) h = all-last_of p n j js (ground arith)

read_then-ok :
    {E A B : Type 0} (from : Sources E) (r : E ⊎ A) (f : A → ThreadError E ⊎ B) (b : B)
    → read_then from r f ≡ inr b
    → (a : A) × (f a ≡ inr b)
read_then-ok from (inl e) f b h = absurd (cc)
read_then-ok from (inr a) f b h = (a, h)

thread_items-sorted :
    {E : Type 0} (from : Sources E) (task : Text) (items : List ThreadItem)
    → thread_items from task ≡ inr items
    → (raw : List ThreadItem) × (items ≡ sort_items raw)
unfolding thread_items
thread_items-sorted from task items h =
    let (runs, h1) = read_then-ok from (from.runs task) _ items h in
    let (workflows, h2) = read_then-ok from (from.workflow_runs task) _ items h1 in
    let (events, h3) = read_then-ok from (from.events _) _ items h2 in
    let (handoffs, h4) = read_then-ok from (from.handoffs _) _ items h3 in
    let (decisions, h5) = read_then-ok from (from.decisions _) _ items h4 in
    (merged from.terminal_log events handoffs runs workflows decisions, sym (inr-injective _ _ h5))

module _ {E : Type 0} (from : Sources E) (task : Text) where
  -- Page after page, each by the cursor of the one before; none: a request fails, or out of fuel.
  unfoldable pub follow : ℕ → (limit : ℕ) → Option Text → Option (List ThreadItem)
  follow zero limit cursor = none
  follow (suc fuel) limit cursor = elim (get_thread from task (some limit) cursor) [
    | inl e ↦ none
    | inr page ↦ elim page.next_cursor [
      | none ↦ some page.items
      | some next ↦ Option.map (λ rest. page.items ++ rest) (follow fuel limit (some next))
    ]
  ]

  -- The cursor before a part of the thread, with the items before it.
  abbrev StandsAt : List ThreadItem → Option Text → List ThreadItem → Type 0
  StandsAt items cursor window =
      (after : Option (Text × Text)) × ((limit : ℕ)
        → get_thread from task (some limit) cursor
          ≡ page_at from limit after (thread_items from task))
      × (window_after after items ≡ window)

  asked_page :
      (n : ℕ) (items window : List ThreadItem) (cursor : Option Text) (after : Option (Text × Text))
      → thread_items from task ≡ inr items
      → ((limit : ℕ)
          → get_thread from task (some limit) cursor
            ≡ page_at from limit after (thread_items from task))
      → window_after after items ≡ window
      → get_thread from task (some (suc n)) cursor ≡ inr (page_of (suc n) window)
  asked_page n items window cursor after read asks shows =
      asks (suc n) ∙ ap (page_at from (suc n) after) read ∙ ap (λ w. inr (page_of (suc n) w)) shows

  next_stands :
      (n : ℕ) (items pre : List ThreadItem) (i : ThreadItem) (is : List ThreadItem)
      → Ascends items
      → all has_key items ≡ true
      → items ≡ pre ++ i ∷ is
      → suc n < length (i ∷ is)
      → StandsAt items (some (encode_cursor (last_of i (take n is)))) (drop n is)
  unfolding get_thread window_after
  next_stands n items pre i is asc keys at more =
      let l = last_of i (take n is) in
      let (ys, e) = page_splits n i is more in
      let keys' = subst (λ z. all has_key z ≡ true) at keys in
      let keyed : has_key l ≡ true =
        all-last_of has_key n i is (ground (arith, all-append has_key pre (i ∷ is))) in
      let decoded = decode_cursor-encode_cursor l keyed in
      let parts : items ≡ (pre ++ ys) ++ l ∷ drop n is =
        at
        ∙ ap (λ t. pre ++ i ∷ t) (sym (take-append-drop n is))
        ∙ ap (λ t. pre ++ (t ++ drop n is)) e
        ∙ ap (λ t. pre ++ t) (append_assoc ys (l ∷ []) (drop n is))
        ∙ sym (append_assoc pre ys (l ∷ drop n is)) in
      (
        some (l.created_at, l.id),
        λ limit. rw (get_thread, decoded) refl,
        ap (keep (before l)) parts ∙ keep_after (pre ++ ys) l (drop n is) (subst Ascends parts asc),
      )

  follow_from :
      (fuel n : ℕ) (items pre window : List ThreadItem) (cursor : Option Text)
      → thread_items from task ≡ inr items
      → Ascends items
      → all has_key items ≡ true
      → items ≡ pre ++ window
      → StandsAt items cursor window
      → length window < fuel
      → follow fuel (suc n) cursor ≡ some window
  unfolding follow
  follow_from zero n items pre window cursor read asc keys at stands h = absurd (omega arith)
  follow_from (suc fuel) n items pre [] cursor read asc keys at (after, asks, shows) h =
      let asked = asked_page n items [] cursor after read asks shows in rw (follow, asked) refl
  follow_from (suc fuel) n items pre (i ∷ is) cursor read asc keys at (after, asks, shows) h =
      let asked = asked_page n items (i ∷ is) cursor after read asks shows in
      elim (Bool-cases (ltb (suc n) (length (i ∷ is)))) [
        | inr ends ↦
            rw (follow, asked, ends) (ap (λ t. some (i ∷ t)) (take_all n is (ground arith)))
        | inl more ↦
            let rest : items ≡ (pre ++ i ∷ take n is) ++ drop n is =
              at
              ∙ ap (λ t. pre ++ i ∷ t) (sym (take-append-drop n is))
              ∙ sym (append_assoc pre (i ∷ take n is) (drop n is)) in
            let stands = next_stands n items pre i is asc keys at (ground arith) in
            let later =
              follow_from fuel n items (pre ++ i ∷ take n is) (drop n is) _ read asc keys rest
                stands (omega (arith, length-drop n is)) in
            rw (follow, asked, more, later) (ap (λ t. some (i ∷ t)) (take-append-drop n is))
      ]

  -- With time stamps that a cursor can carry and ids that differ, following the cursors from the
  -- first page, at any limit from 1, gives the whole thread: each item once, in order. Fuel for one
  -- page more than there are items is enough.
  pub follow-thread_items :
      (n : ℕ) (items : List ThreadItem)
      → thread_items from task ≡ inr items
      → AllDiffer items
      → all has_key items ≡ true
      → follow (suc (length items)) (suc n) none ≡ some items
  unfolding get_thread window_after
  follow-thread_items n items read differ keys =
      let (raw, e) = thread_items-sorted from task items read in
      let sorted = subst IsSorted (sym e) (sort_items-IsSorted raw) in
      follow_from (suc (length items)) n items [] items none read
        (Ascends-of_IsSorted items sorted differ) keys refl (none, λ limit. refl, refl)
        (omega arith)
