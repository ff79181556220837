-- ===== src/Base/Maps.antt =====
-- A hash map from stream identifiers, as an association list. Its order stands for the order in
-- which the hash map happens to be iterated.
use Prim.Native.Nat.{ℕ}
use mathlib.Core.Path.{◌≡◌, refl}
use mathlib.Core.Option.{Option, none, some}
use mathlib.Core.List.{List, [], ◌∷◌}
use native.Mathlib.Omega.{arith}
use muxtls.Base.Tests.{◌==◌, if◌then◌else◌}

module _ {ℓ} {V : Type ℓ} where
  unfoldable pub lookup : ℕ → List (ℕ × V) → Option V
  lookup key [] = none
  lookup key ((first, value) ∷ rest) = if first == key then some value else lookup key rest

  -- All entries of the key go: a map built by `insert` has at most one.
  unfoldable pub remove : ℕ → List (ℕ × V) → List (ℕ × V)
  remove key [] = []
  remove key ((first, value) ∷ rest) =
      let kept = remove key rest in if first == key then kept else (first, value) ∷ kept

  pub lookup-remove :
      (key other : ℕ) (m : List (ℕ × V))
      → lookup other (remove key m) ≡ (if key == other then none else lookup other m)
  unfolding lookup remove
  lookup-remove key other [] = ground arith
  lookup-remove key other ((first, value) ∷ rest) = ground (arith, lookup-remove key other rest)

  unfoldable pub insert : ℕ → V → List (ℕ × V) → List (ℕ × V)
  insert key new [] = (key, new) ∷ []
  insert key new ((first, old) ∷ rest) =
      if first == key then (key, new) ∷ rest else (first, old) ∷ insert key new rest

  pub lookup-insert :
      (key other : ℕ) (new : V) (m : List (ℕ × V))
      → lookup other (insert key new m) ≡ (if key == other then some new else lookup other m)
  unfolding lookup insert
  lookup-insert key other new [] = refl
  lookup-insert key other new ((first, old) ∷ rest) =
      ground (arith, lookup-insert key other new rest)
