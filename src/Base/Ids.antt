-- ===== src/Base/Ids.antt =====
-- Lists of stream identifiers without repetition: the queue of ready streams.
use Prim.Native.Nat.{ℕ}
use mathlib.Core.Path.{◌≡◌, refl}
use mathlib.Core.Bool.{Bool, false, ◌||◌}
use mathlib.Core.List.{List, [], ◌∷◌, ◌++◌}
use native.Mathlib.Omega.{arith}
use muxtls.Base.Tests.{◌==◌, if◌then◌else◌}

unfoldable pub mem : ℕ → List ℕ → Bool
mem id [] = false
mem id (x ∷ xs) = x == id || mem id xs

-- `retain(|id| *id != stream_id)`
unfoldable pub erase : ℕ → List ℕ → List ℕ
erase id [] = []
erase id (x ∷ xs) = let rest = erase id xs in if x == id then rest else x ∷ rest

abbrev pub IsDistinct : List ℕ → Type 0
IsDistinct [] = Unit
IsDistinct (x ∷ xs) = (mem x xs ≡ false) × IsDistinct xs

pub mem-append : (id : ℕ) (xs ys : List ℕ) → mem id (xs ++ ys) ≡ (mem id xs || mem id ys)
unfolding mem
mem-append id [] ys = refl
mem-append id (x ∷ xs) ys = ground (arith, mem-append id xs ys)

pub mem-erase :
    (id j : ℕ) (xs : List ℕ) → mem j (erase id xs) ≡ (if id == j then false else mem j xs)
unfolding mem erase
mem-erase id j [] = ground arith
mem-erase id j (x ∷ xs) = ground (arith, mem-erase id j xs)

pub IsDistinct-snoc :
    (x : ℕ) (xs : List ℕ) → mem x xs ≡ false → IsDistinct xs → IsDistinct (xs ++ (x ∷ []))
unfolding mem
IsDistinct-snoc x [] h d = (refl, tt)
IsDistinct-snoc x (y ∷ ys) h d =
    (ground (arith, mem-append y ys (x ∷ [])), IsDistinct-snoc x ys (ground arith) d.1)

pub IsDistinct-erase : (x : ℕ) (xs : List ℕ) → IsDistinct xs → IsDistinct (erase x xs)
unfolding erase
IsDistinct-erase x [] d = tt
IsDistinct-erase x (y ∷ ys) d = ground (arith, mem-erase x y ys, IsDistinct-erase x ys d.1)
