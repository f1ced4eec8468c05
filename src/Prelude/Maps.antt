-- ===== src/Prelude/Maps.antt =====
-- `std::collections::HashMap` with 32-bit keys, as an association list. The program never iterates
-- over a map but to drop all its values, so the order of the entries does not matter.
use Prim.Native.Nat.{ℕ, suc, ◌+◌}
use mathlib.Core.Path.{◌≡◌, refl, ◌∙◌}
use mathlib.Core.List.{List, [], ◌∷◌, ◌++◌}
use mathlib.Core.Option.{Option, none, some}
use native.Mathlib.Omega.{arith}
use nautilus_futu.Prelude.Tests.{◌==◌, if◌then◌else◌}

abbrev pub Map {ℓ} : Type ℓ → Type ℓ
Map V = List (ℕ × V)

module _ {ℓ} {V : Type ℓ} where
  -- `get`, `get_mut`
  unfoldable pub lookup : ℕ → Map V → Option V
  lookup k [] = none
  lookup k ((j, v) ∷ m) = if j == k then some v else lookup k m

  -- `remove`
  unfoldable pub remove : ℕ → Map V → Map V
  remove k [] = []
  remove k ((j, v) ∷ m) = let rest = remove k m in if j == k then rest else (j, v) ∷ rest

  -- `insert`
  unfoldable pub insert : ℕ → V → Map V → Map V
  insert k v m = (k, v) ∷ remove k m

  abbrev pub values : Map V → List V
  values [] = []
  values ((k, v) ∷ m) = v ∷ values m

  -- Every key has one entry.
  abbrev pub UniqueKeys : Map V → Type ℓ
  UniqueKeys [] = Unit
  UniqueKeys ((k, v) ∷ m) = (lookup k m ≡ none) × UniqueKeys m

  pub lookup-remove :
      (k j : ℕ) (m : Map V) → lookup j (remove k m) ≡ (if k == j then none else lookup j m)
  unfolding lookup remove
  lookup-remove k j [] = ground arith
  lookup-remove k j ((i, v) ∷ m) = ground (arith, lookup-remove k j m)

  pub lookup-insert :
      (k j : ℕ) (v : V) (m : Map V)
      → lookup j (insert k v m) ≡ (if k == j then some v else lookup j m)
  unfolding lookup insert
  lookup-insert k j v m = ground (arith, lookup-remove k j m)

  pub remove-UniqueKeys : (k : ℕ) (m : Map V) → UniqueKeys m → UniqueKeys (remove k m)
  unfolding remove
  remove-UniqueKeys k [] u = tt
  remove-UniqueKeys k ((j, v) ∷ m) u =
      ground (arith, lookup-remove k j m, remove-UniqueKeys k m u.1)

  pub insert-UniqueKeys : (k : ℕ) (v : V) (m : Map V) → UniqueKeys m → UniqueKeys (insert k v m)
  unfolding insert
  insert-UniqueKeys k v m u = (lookup-remove k k m ∙ self, remove-UniqueKeys k m u)
    where
      self : (if k == k then none else lookup k m) ≡ none
      self = ground arith

-- How often a value stands in a list.
abbrev pub count : ℕ → List ℕ → ℕ
count a [] = 0
count a (x ∷ xs) = if x == a then suc (count a xs) else count a xs

pub count-append : (a : ℕ) (xs ys : List ℕ) → count a (xs ++ ys) ≡ count a xs + count a ys
count-append a [] ys = omega arith
count-append a (x ∷ xs) ys = ground (arith, count-append a xs ys)

abbrev pub values_of : Option ℕ → List ℕ
values_of none = []
values_of (some v) = v ∷ []

remove_missing : (k : ℕ) (m : Map ℕ) → lookup k m ≡ none → remove k m ≡ m
unfolding lookup remove
remove_missing k [] h = refl
remove_missing k ((j, v) ∷ m) h = ground (arith, remove_missing k m)

-- Removing a key takes out the one value that it had.
pub count-remove :
    (a k : ℕ) (m : Map ℕ)
    → UniqueKeys m
    → count a (values m) ≡ count a (values_of (lookup k m)) + count a (values (remove k m))
unfolding lookup remove
count-remove a k [] u = omega arith
count-remove a k ((j, v) ∷ m) u = ground (arith, count-remove a k m u.1, remove_missing k m)
