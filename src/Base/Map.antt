-- ===== src/Base/Map.antt =====
-- std::map with keys that are numbers: an association list in key order, as an iteration meets it.
use Prim.Native.Nat.{ℕ, ◌+◌, ◌<◌, ◌≤◌}
use mathlib.Core.Path.{◌≡◌, refl}
use mathlib.Core.Logic.{◌≢◌}
use mathlib.Core.Bool.{Bool, true, false}
use mathlib.Core.Option.{Option, none, some}
use mathlib.Core.List.{List, [], ◌∷◌}
use native.Mathlib.Omega.{arith}
use sarafu_core.Base.Tests.{ltb, ◌==◌, if◌then◌else◌}

abbrev pub Map {ℓ} : Type ℓ → Type ℓ
Map V = List (ℕ × V)

module _ {ℓ} {V : Type ℓ} where
  abbrev pub lookup : ℕ → Map V → Option V
  lookup k [] = none
  lookup k ((j, v) ∷ m) = if k == j then some v else lookup k m

  abbrev pub contains : ℕ → Map V → Bool
  contains k m = elim (lookup k m) [ none ↦ false | some _ ↦ true ]

  -- `m[k] = v`
  abbrev pub insert : ℕ → V → Map V → Map V
  insert k v [] = (k, v) ∷ []
  insert k v ((j, w) ∷ m) =
      if ltb k j then (k, v) ∷ (j, w) ∷ m else if k == j then (k, v) ∷ m else (j, w) ∷ insert k v m

  -- `m.erase(k)`
  abbrev pub erase : ℕ → Map V → Map V
  erase k [] = []
  erase k ((j, w) ∷ m) = if k == j then erase k m else (j, w) ∷ erase k m

  -- The keys rise along the list, from `lo` on.
  abbrev pub From : ℕ → Map V → Type 0
  From lo [] = Unit
  From lo ((k, v) ∷ m) = (lo ≤ k) × From (k + 1) m

  pub lookup-insert :
      (j k : ℕ) (v : V) (m : Map V)
      → lookup j (insert k v m) ≡ (if j == k then some v else lookup j m)
  lookup-insert j k v [] = refl
  lookup-insert j k v ((i, w) ∷ m) = ground (arith, lookup-insert j k v m)

  pub lookup-insert_self : (k : ℕ) (v : V) (m : Map V) → lookup k (insert k v m) ≡ some v
  lookup-insert_self k v m = ground (arith, lookup-insert k k v m)

  pub lookup-insert_ne :
      (j k : ℕ) (v : V) (m : Map V) → j ≢ k → lookup j (insert k v m) ≡ lookup j m
  lookup-insert_ne j k v m h = ground (arith, lookup-insert j k v m)

  pub lookup-erase :
      (j k : ℕ) (m : Map V) → lookup j (erase k m) ≡ (if j == k then none else lookup j m)
  lookup-erase j k [] = ground arith
  lookup-erase j k ((i, w) ∷ m) = ground (arith, lookup-erase j k m)

  pub From-mono : (a b : ℕ) (m : Map V) → a ≤ b → From b m → From a m
  From-mono a b [] h f = tt
  From-mono a b ((k, v) ∷ m) h f = (omega arith, f.1)

  pub insert-From : (lo k : ℕ) (v : V) (m : Map V) → lo ≤ k → From lo m → From lo (insert k v m)
  insert-From lo k v [] h f = (h, tt)
  insert-From lo k v ((j, w) ∷ m) h f =
      ground (arith, insert-From (j + 1) k v m, From-mono (j + 1) (k + 1) m)

  pub erase-From : (lo k : ℕ) (m : Map V) → From lo m → From lo (erase k m)
  erase-From lo k [] f = tt
  erase-From lo k ((j, w) ∷ m) f =
      ground (arith, erase-From (j + 1) k m, From-mono lo (j + 1) (erase k m))

  pub lookup_below : (lo k : ℕ) (m : Map V) → From lo m → k < lo → lookup k m ≡ none
  lookup_below lo k [] f h = refl
  lookup_below lo k ((j, w) ∷ m) f h = ground (arith, lookup_below (j + 1) k m f.1)

module _ {ℓ} {V : Type ℓ} (weight : V → ℕ) where
  -- The sum of a number over the values of a map.
  abbrev pub sum_over : Map V → ℕ
  sum_over [] = 0
  sum_over ((k, v) ∷ m) = weight v + sum_over m

  abbrev pub weight_of : Option V → ℕ
  weight_of none = 0
  weight_of (some v) = weight v

  -- Writing a key replaces what it held.
  pub sum_over-insert :
      (lo k : ℕ) (v : V) (m : Map V)
      → From lo m
      → sum_over (insert k v m) + weight_of (lookup k m) ≡ sum_over m + weight v
  sum_over-insert lo k v [] f = omega arith
  sum_over-insert lo k v ((j, w) ∷ m) f =
      ground (arith, sum_over-insert (j + 1) k v m f.1, lookup_below (j + 1) k m f.1)

  pub sum_over-lookup-le : (k : ℕ) (m : Map V) → weight_of (lookup k m) ≤ sum_over m
  sum_over-lookup-le k [] = omega arith
  sum_over-lookup-le k ((j, w) ∷ m) = ground (arith, sum_over-lookup-le k m)
