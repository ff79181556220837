-- ===== src/Proto/Bytes.antt =====
-- The buffers of muxtls-proto: what `BufMut` appends and what `Buf` takes off, as lists of bytes.
-- `put_*` returns the bytes that are appended, most significant first.
use muxtls.Base.{ℕ, ◌*◌, ◌/◌, ◌%◌, ◌^◌, ◌<◌, List, [], ◌∷◌, All}

abbrev pub IsByte : ℕ → Type 0
IsByte b = b < 256

abbrev pub IsBytes : List ℕ → Type 0
IsBytes bs = All IsByte bs

-- Casts to a narrower width, and `<<` at 64 bits.
abbrev pub as_u8 : ℕ → ℕ
as_u8 v = v % 2 ^ 8

abbrev pub as_u16 : ℕ → ℕ
as_u16 v = v % 2 ^ 16

abbrev pub as_u32 : ℕ → ℕ
as_u32 v = v % 2 ^ 32

infixl 60 ◌<<◌
abbrev pub ◌<<◌ : ℕ → ℕ → ℕ
v << k = v * 2 ^ k % 2 ^ 64

abbrev pub put_u8 : ℕ → List ℕ
put_u8 v = v ∷ []

abbrev pub put_u16 : ℕ → List ℕ
put_u16 v = as_u8 (v / 2 ^ 8) ∷ as_u8 v ∷ []

abbrev pub put_u32 : ℕ → List ℕ
put_u32 v = as_u8 (v / 2 ^ 24) ∷ as_u8 (v / 2 ^ 16) ∷ put_u16 v

abbrev pub put_u64 : ℕ → List ℕ
put_u64 v =
    as_u8 (v / 2 ^ 56) ∷ as_u8 (v / 2 ^ 48) ∷ as_u8 (v / 2 ^ 40) ∷ as_u8 (v / 2 ^ 32) ∷ put_u32 v
