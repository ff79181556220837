-- ===== src/Proto/Utf8/Truncate.antt =====
-- Cutting a UTF-8 string at a character boundary, and finding one at or below an index: the loop of
-- `take_close_frame` in muxtls/src/connection.rs, over `str::is_char_boundary` and `truncate`.
use muxtls.Base.{ℕ, zero, suc, ◌≤◌, ◌≡◌, refl, arith, true, Option, none, some}
use muxtls.Base.{List, [], ◌∷◌, ltb, leb, if◌then◌else◌, take, inl, inr}
use mathlib.Core.Path.{subst}
use muxtls.Base.{Option-cases, ◌||◌, ap}
use muxtls.Proto.Utf8.{
  Utf8, start, inside, lead, step, scan, is_start, is_utf8, IsUtf8, boundary_from, is_char_boundary,
}

-- `while !reason.is_char_boundary(end) { end -= 1; }`. Index 0 is a boundary, so it stops there.
unfoldable pub floor_boundary : List ℕ → ℕ → ℕ
floor_boundary bs zero = zero
floor_boundary bs (suc end) =
    let lower = floor_boundary bs end in if is_char_boundary bs (suc end) then suc end else lower

-- Inside a character only continuation bytes are expected.
abbrev Expects : Utf8 → Type 0
Expects start = Unit
Expects (inside n lo hi) = (0x80 ≤ lo) × (hi ≤ 0xbf)

lead-Expects : (b : ℕ) (t : Utf8) → lead b ≡ some t → Expects t
unfolding lead
lead-Expects b start e = tt
lead-Expects b (inside n lo hi) e = ground arith

step-Expects : (s : Utf8) (b : ℕ) (t : Utf8) → Expects s → step s b ≡ some t → Expects t
unfolding step
step-Expects start b t h e = lead-Expects b t e
step-Expects (inside zero lo hi) b start h e = tt
step-Expects (inside zero lo hi) b (inside n l r) h e = ground arith
step-Expects (inside (suc m) lo hi) b start h e = tt
step-Expects (inside (suc m) lo hi) b (inside n l r) h e = ground arith

no_continuation :
    (s : Utf8) (b : ℕ) (t : Utf8)
    → Expects s
    → (ltb b 0x80 || leb 0xc0 b) ≡ true
    → step s b ≡ some t
    → s ≡ start
unfolding step
no_continuation start b t h c e = refl
no_continuation (inside zero lo hi) b t h c e = absurd (ground arith)
no_continuation (inside (suc m) lo hi) b t h c e = absurd (ground arith)

scan-step :
    (s : Utf8) (b : ℕ) (bs : List ℕ) {o r : Option Utf8}
    → step s b ≡ o
    → scan (some s) (b ∷ bs) ≡ r
    → scan o bs ≡ r
unfolding scan
scan-step s b bs {r} e h = subst (λ o'. scan o' bs ≡ r) e h

ends_in_none : (bs : List ℕ) → scan none bs ≡ some start → ⊥
unfolding scan
ends_in_none [] e = cc
ends_in_none (b ∷ bs) e = cc

-- A scan that ends between characters was between characters at every boundary before.
scan-take :
    (s : Utf8) (n : ℕ) (bs : List ℕ)
    → Expects s
    → scan (some s) bs ≡ some start
    → boundary_from n bs ≡ true
    → scan (some s) (take n bs) ≡ some start
unfolding scan boundary_from
scan-take s zero [] h e c = e
scan-take s zero (b ∷ bs) h e c = elim (Option-cases (step s b)) [
  | inl x ↦ absurd (ends_in_none bs (scan-step s b bs x e))
  | inr (t, x) ↦ ap some (no_continuation s b t h c x)
]
scan-take s (suc n) [] h e c = e
scan-take s (suc n) (b ∷ bs) h e c = elim (Option-cases (step s b)) [
  | inl x ↦ absurd (ends_in_none bs (scan-step s b bs x e))
  | inr (t, x) ↦ rw (x, scan) (scan-take t n bs (step-Expects s b t h x) (scan-step s b bs x e) c)
]

is_start_eq : (o : Option Utf8) → is_start o ≡ true → o ≡ some start
unfolding is_start
is_start_eq none e = cc
is_start_eq (some start) e = refl
is_start_eq (some (inside n lo hi)) e = cc

-- A string that is cut at a character boundary is still UTF-8.
pub take-IsUtf8 :
    (bs : List ℕ) (n : ℕ) → IsUtf8 bs → is_char_boundary bs n ≡ true → IsUtf8 (take n bs)
unfolding is_utf8 is_char_boundary
take-IsUtf8 bs zero h c = refl
take-IsUtf8 bs (suc n) h c = rw (scan-take start (suc n) bs tt (is_start_eq _ h) (ground arith))

pub floor_boundary_lem :
    (bs : List ℕ) (n : ℕ)
    → (is_char_boundary bs (floor_boundary bs n) ≡ true) × (floor_boundary bs n ≤ n)
unfolding floor_boundary
floor_boundary_lem bs zero = (unfold is_char_boundary in refl, omega arith)
floor_boundary_lem bs (suc n) = ground (arith, floor_boundary_lem bs n)
