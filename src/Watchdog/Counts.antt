-- ===== src/Watchdog/Counts.antt =====
-- What the watchdog tells of one run, counted.
use teskra.Base.{
  String, ◌==◌, eq_iff, ℕ, ◌+◌, Bool, true, false, if◌then◌else◌, List, [], ◌∷◌, ◌++◌, includes,
  leb, ◌≡◌, refl, arith, inl, inr, Bool-cases,
}
use teskra.Watchdog.{Event, stop_requested, decision_opened, stalled, add_id}

abbrev pub bit : Bool → ℕ
bit true = 1
bit false = 0

-- The stop requests and the reported stalls of one run.
abbrev pub is_stop : String → Event → ℕ
is_stop id (stop_requested x) = bit (x == id)
is_stop id _ = 0

abbrev pub is_stall : String → Event → ℕ
is_stall id (stalled x silent action) = bit (x == id)
is_stall id _ = 0

abbrev pub count_events : (Event → ℕ) → List Event → ℕ
count_events f [] = 0
count_events f (e ∷ es) = f e + count_events f es

abbrev pub least : ℕ → ℕ → ℕ
least a b = if leb a b then a else b

pub count_events-append :
    (f : Event → ℕ) (es : List Event) (e : Event)
    → count_events f (es ++ e ∷ []) ≡ count_events f es + f e
count_events-append f [] e = omega arith
count_events-append f (x ∷ es) e = let h = count_events-append f es e in omega arith

pub eq_self : (id : String) → (id == id) ≡ true
eq_self id = (eq_iff id id).1 refl

pub includes-append_self : (id : String) (ids : List String) → includes (ids ++ id ∷ []) id ≡ true
includes-append_self id [] = rw (eq_self id) refl
includes-append_self id (x ∷ ids) = let h = includes-append_self id ids in ground (arith)

pub includes-add_id : (id : String) (ids : List String) → includes (add_id id ids) id ≡ true
includes-add_id id ids = elim (Bool-cases (includes ids id)) [
  | inl h ↦ ground (arith)
  | inr h ↦ let last = includes-append_self id ids in ground (arith)
]

abbrev pub is_decision : String → Event → ℕ
is_decision id (decision_opened x silent) = bit (x == id)
is_decision id _ = 0
