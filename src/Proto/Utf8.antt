-- ===== src/Proto/Utf8.antt =====
-- UTF-8, as `std::str::from_utf8` checks it. A Rust `String` is a list of bytes that passes.
pub mod Truncate
use muxtls.Base.{ℕ, zero, suc, ◌≡◌, Bool, true, false, ◌&&◌, ◌||◌, Option, none, some}
use muxtls.Base.{List, [], ◌∷◌, ltb, leb, ◌==◌, if◌then◌else◌}

-- Between characters, or inside one: how many bytes follow after the next, and the range of the next.
pub data Utf8 : Type 0 where
  start : Utf8
  inside : ℕ → ℕ → ℕ → Utf8

abbrev between : ℕ → ℕ → ℕ → Bool
between lo hi b = leb lo b && leb b hi

unfoldable pub lead : ℕ → Option Utf8
lead b =
    if ltb b 0x80
    then some start
    else if between 0xc2 0xdf b
    then some (inside 0 0x80 0xbf)
    else if b == 0xe0
    then some (inside 1 0xa0 0xbf)
    else if between 0xe1 0xec b || between 0xee 0xef b
    then some (inside 1 0x80 0xbf)
    else if b == 0xed
    then some (inside 1 0x80 0x9f)
    else if b == 0xf0
    then some (inside 2 0x90 0xbf)
    else if between 0xf1 0xf3 b
    then some (inside 2 0x80 0xbf)
    else if b == 0xf4
    then some (inside 2 0x80 0x8f)
    else none

unfoldable pub step : Utf8 → ℕ → Option Utf8
unfolding lead
step start b = lead b
step (inside zero lo hi) b = if between lo hi b then some start else none
step (inside (suc n) lo hi) b = if between lo hi b then some (inside n 0x80 0xbf) else none

unfoldable pub scan : Option Utf8 → List ℕ → Option Utf8
unfolding step
scan none bs = none
scan (some s) [] = some s
scan (some s) (b ∷ bs) = scan (step s b) bs

is_start : Option Utf8 → Bool
is_start (some start) = true
is_start _ = false

unfoldable pub is_utf8 : List ℕ → Bool
unfolding scan is_start
is_utf8 bs = is_start (scan (some start) bs)

abbrev pub IsUtf8 : List ℕ → Type 0
IsUtf8 bs = is_utf8 bs ≡ true

-- `str::is_char_boundary`: index 0, the end, or a byte that does not continue a character.
boundary_from : ℕ → List ℕ → Bool
boundary_from zero [] = true
boundary_from zero (b ∷ bs) = ltb b 0x80 || leb 0xc0 b
boundary_from (suc n) [] = false
boundary_from (suc n) (b ∷ bs) = boundary_from n bs

unfoldable pub is_char_boundary : List ℕ → ℕ → Bool
unfolding boundary_from
is_char_boundary bs n = n == 0 || boundary_from n bs
