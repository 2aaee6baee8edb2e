-- ===== src/Base/Keys.antt =====
-- Maps from texts, as association lists.
use Prim.Native.String.{String}
use mathlib.Core.Path.{◌≡◌, refl, sym}
use mathlib.Core.Logic.{inl, inr}
use mathlib.Core.Option.{Option, none, some}
use mathlib.Core.List.{List, [], ◌∷◌, ◌++◌}
use mathlib.Core.Bool.{Bool, true, false, not, ◌||◌}
use native.Mathlib.Omega.{arith}
use text.Mathlib.Text.{◌==◌}
use text.Mathlib.TextEquality.{eq_iff}
use teskra.Base.Tests.{if◌then◌else◌, Bool-cases}
use teskra.Base.Lists.{In, here, there, keep}

-- `Array.prototype.includes` and `Set.prototype.has` on texts.
abbrev pub includes : List String → String → Bool
includes [] s = false
includes (x ∷ xs) s = x == s || includes xs s

pub includes-In : (xs : List String) (s : String) → includes xs s ≡ true → In s xs
includes-In [] s h = absurd (cc)
includes-In (x ∷ xs) s h = elim (Bool-cases (x == s)) [
  | inl same ↦ here (sym ((eq_iff x s).0 same))
  | inr other ↦ there (includes-In xs s (ground arith))
]

pub In-includes : {s : String} {xs : List String} → In s xs → includes xs s ≡ true
In-includes {s} (here {x} e) = ground (arith, eq_iff x s)
In-includes {s} (there m) = ground (arith, In-includes m)

-- `Set.prototype.add` and `delete` on texts.
abbrev pub add_id : String → List String → List String
add_id id ids = if includes ids id then ids else ids ++ id ∷ []

abbrev pub is_other : String → String → Bool
is_other id x = not (x == id)

abbrev pub delete_id : String → List String → List String
delete_id id ids = keep (is_other id) ids

pub includes-append :
    (xs ys : List String) (s : String) → includes (xs ++ ys) s ≡ (includes xs s || includes ys s)
includes-append [] ys s = refl
includes-append (x ∷ xs) ys s = let ih = includes-append xs ys s in ground arith

pub not_included : {s : String} {xs : List String} → includes xs s ≡ false → ¬ In s xs
not_included h m = let e = In-includes m in cc

module _ {ℓ} {V : Type ℓ} where
  -- `Map.prototype.get`.
  abbrev pub lookup : String → List (String × V) → Option V
  lookup key [] = none
  lookup key ((k, value) ∷ rest) = if k == key then some value else lookup key rest

  -- `Map.prototype.set`: an old entry keeps its place, a new one goes to the end.
  abbrev pub insert : String → V → List (String × V) → List (String × V)
  insert key value [] = (key, value) ∷ []
  insert key value ((k, old) ∷ rest) =
      if k == key then (key, value) ∷ rest else (k, old) ∷ insert key value rest

  pub lookup-insert :
      (key asked : String) (value : V) (entries : List (String × V))
      → lookup asked (insert key value entries)
        ≡ (if key == asked then some value else lookup asked entries)
  lookup-insert key asked value [] = refl
  lookup-insert key asked value ((k, old) ∷ rest) =
      ground
        (arith, lookup-insert key asked value rest, eq_iff k asked, eq_iff k key, eq_iff key asked)

  pub lookup-insert_self :
      (key : String) (value : V) (entries : List (String × V))
      → lookup key (insert key value entries) ≡ some value
  lookup-insert_self key value entries =
      ground (arith, lookup-insert key key value entries, eq_iff key key)

  -- `Map.prototype.delete`.
  abbrev pub remove : String → List (String × V) → List (String × V)
  remove key [] = []
  remove key ((k, value) ∷ rest) =
      if k == key then remove key rest else (k, value) ∷ remove key rest

  pub lookup-remove_self :
      (key : String) (entries : List (String × V)) → lookup key (remove key entries) ≡ none
  lookup-remove_self key [] = refl
  lookup-remove_self key ((k, value) ∷ rest) =
      ground (arith, lookup-remove_self key rest, eq_iff k key)

  pub lookup-remove :
      (key asked : String) (entries : List (String × V))
      → (key == asked) ≡ false
      → lookup asked (remove key entries) ≡ lookup asked entries
  lookup-remove key asked [] h = refl
  lookup-remove key asked ((k, value) ∷ rest) h =
      ground (arith, lookup-remove key asked rest h, eq_iff k asked, eq_iff k key, eq_iff key asked)
