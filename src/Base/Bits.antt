-- ===== src/Base/Bits.antt =====
-- `|` and `&` of the wire code, as arithmetic: numbers that do not overlap, and masks of ones.
use Prim.Native.Nat.{ℕ, zero, suc, ◌+◌, ◌*◌, ◌/◌, ◌%◌, ◌^◌, ◌≤◌, ◌<◌, max, min, bit_and, bit_or}
use Prim.Native.Nat.{digits, bit_and-bitwise, bit_or-bitwise}
use mathlib.Core.Path.{◌≡◌, ap}
use mathlib.Core.Bool.{true}
use native.Mathlib.Nat.{pow-suc}
use native.Mathlib.Omega.{arith}
use muxtls.Base.Tests.{◌==◌}

pub ==→eq : (a b : ℕ) → (a == b) ≡ true → a ≡ b
==→eq a b h = ground arith

double_high : (k q : ℕ) → q * 2 ^ suc k ≡ 2 * (q * 2 ^ k)
double_high k q = omega (arith, ap (λ (t : ℕ). q * t) (pow-suc 2 k))

-- The digits of a multiple of 2 ^ k and of a number below 2 ^ k are nowhere both ones.
apart : (n a k q r : ℕ) → a ≡ q * 2 ^ k → a ≤ n → r < 2 ^ k → digits (λ b. b) max n a r ≡ a + r
apart zero a k q r e h l = omega arith
apart (suc n) zero k q r e h l = omega arith
apart (suc n) (suc a) zero q r e h l =
    omega
      (arith, apart n (suc a / 2) 0 (suc a / 2) (r / 2) (omega arith) (omega arith) (omega arith))
apart (suc n) (suc a) (suc k) q r e h l = omega (
  arith,
  double_high k q,
  apart n (suc a / 2) k q (r / 2) (omega (arith, double_high k q)) (omega arith)
      (omega (arith, pow-suc 2 k)),
)

pub bit_or_disjoint : (k q r : ℕ) → r < 2 ^ k → bit_or (q * 2 ^ k) r ≡ q * 2 ^ k + r
bit_or_disjoint k q r h = omega (
  arith,
  bit_or-bitwise (q * 2 ^ k) r,
  apart (q * 2 ^ k) (q * 2 ^ k) k q r (omega arith) (omega arith) h,
)

-- A mask of k ones leaves the remainder by 2 ^ k, whatever fuel covers the number.
ones :
    (n b k q r m : ℕ)
    → b ≡ q * 2 ^ k + r
    → r < 2 ^ k
    → m + 1 ≡ 2 ^ k
    → b ≤ n
    → digits (λ d. zero) min n b m ≡ r
ones zero b k q r m e l p h = omega arith
ones (suc n) zero k q r m e l p h = omega arith
ones (suc n) (suc b) zero q r m e l p h = omega (
  arith,
  ones n (suc b / 2) 0 (suc b / 2) 0 (m / 2) (omega arith) (omega arith) (omega arith)
      (omega arith),
)
ones (suc n) (suc b) (suc k) q r m e l p h = omega (
  arith,
  pow-suc 2 k,
  double_high k q,
  ones n (suc b / 2) k q (r / 2) (m / 2) (omega (arith, double_high k q))
      (omega (arith, pow-suc 2 k)) (omega (arith, pow-suc 2 k)) (omega arith),
)

-- The six value bits of the first byte of a variable-length integer.
pub low_six : (b : ℕ) → bit_and b 0x3f ≡ b % 64
low_six b = omega (
  arith,
  bit_and-bitwise b 0x3f,
  ones b b 6 (b / 64) (b % 64) 0x3f (omega arith) (omega arith) (omega arith) (omega arith),
)
