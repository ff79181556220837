-- ===== src/Proto/VarInt.antt =====
-- muxtls-proto/src/varint.rs: integers of up to 62 bits in one, two, four or eight bytes. The two
-- top bits of the first byte give the length.
pub mod Decode
pub mod RoundTrip
use muxtls.Base.{ℕ, ◌-◌, ◌/◌, ◌^◌, ◌≤◌, List, [], ◌∷◌}
use muxtls.Base.{Result, ok, err, ltb, leb, ◌==◌, if◌then◌else◌, bit_and, bit_or, ◌>>=◌}
use muxtls.Proto.Bytes.{as_u8, as_u16, as_u32, ◌<<◌, put_u8, put_u16, put_u32, put_u64}

pub data VarIntError : Type 0 where
  value_too_large : ℕ → VarIntError
  unexpected_eof : VarIntError

-- `VarInt::MAX`.
abbrev pub max_value : ℕ
max_value = 2 ^ 62 - 1

-- What the private field of `VarInt` holds.
abbrev pub IsVarInt : ℕ → Type 0
IsVarInt v = v ≤ max_value

unfoldable pub from_u64 : ℕ → Result VarIntError ℕ
from_u64 v = if ltb max_value v then err (value_too_large v) else ok v

unfoldable pub encoded_len : ℕ → ℕ
encoded_len v =
    if leb v 0x3f then 1 else if leb v 0x3fff then 2 else if leb v 0x3fff_ffff then 4 else 8

-- The bytes that `encode` appends.
unfoldable pub encode : ℕ → List ℕ
encode v =
    if leb v 0x3f
    then put_u8 (as_u8 v)
    else if leb v 0x3fff
    then put_u16 (bit_or 0x4000 (as_u16 v))
    else if leb v 0x3fff_ffff
    then put_u32 (bit_or 0x8000_0000 (as_u32 v))
    else put_u64 (bit_or 0xc000_0000_0000_0000 v)

-- The arms of `decode`, on the first byte and what follows it. The length tests of the source are
-- the patterns that do not match.
unfoldable pub tail_1 : ℕ → List ℕ → Result VarIntError (ℕ × List ℕ)
tail_1 first (b ∷ rest) = ok (bit_or (bit_and first 0x3f << 8) b, rest)
tail_1 first _ = err unexpected_eof

unfoldable pub tail_3 : ℕ → List ℕ → Result VarIntError (ℕ × List ℕ)
tail_3 first (b ∷ c ∷ d ∷ rest) =
    ok (bit_or (bit_or (bit_or (bit_and first 0x3f << 24) (b << 16)) (c << 8)) d, rest)
tail_3 first _ = err unexpected_eof

unfoldable pub tail_7 : ℕ → List ℕ → Result VarIntError (ℕ × List ℕ)
tail_7 first (b ∷ c ∷ d ∷ e ∷ f ∷ g ∷ h ∷ rest) =
    let high = bit_or (bit_or (bit_and first 0x3f << 56) (b << 48)) (c << 40) in
    let middle = bit_or (bit_or high (d << 32)) (e << 24) in
    ok (bit_or (bit_or (bit_or middle (f << 16)) (g << 8)) h, rest)
tail_7 first _ = err unexpected_eof

unfoldable pub by_tag : ℕ → List ℕ → Result VarIntError (ℕ × List ℕ)
unfolding tail_1 tail_3 tail_7
by_tag first rest =
    let tag = first / 2 ^ 6 in
    if tag == 0
    then ok (bit_and first 0x3f, rest)
    else if tag == 1
    then tail_1 first rest
    else if tag == 2
    then tail_3 first rest
    else tail_7 first rest

-- The value and the bytes that are left in `src`.
unfoldable pub decode : List ℕ → Result VarIntError (ℕ × List ℕ)
unfolding by_tag from_u64
decode [] = err unexpected_eof
decode (first ∷ rest) = do (value, left) ← by_tag first rest; v ← from_u64 value; ok (v, left)
