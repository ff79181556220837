-- ===== src/Proto/VarInt/RoundTrip.antt =====
-- `decode` after `encode`, with whatever bytes follow, and the length of an encoding.
use muxtls.Base.{ℕ, ◌+◌, ◌*◌, ◌/◌, ◌%◌, ◌^◌, ◌<◌, ◌≤◌, ◌≡◌, ap, ◌∙◌, arith}
use muxtls.Base.{List, [], ◌∷◌, ◌++◌, Result, ok, length, ◌⊎◌, inl, inr}
use muxtls.Base.Bits.{bit_or_disjoint, low_six}
use muxtls.Proto.Bytes.{IsByte, IsBytes, put_u8, put_u16, put_u32, put_u64}
use muxtls.Proto.VarInt.{VarIntError, IsVarInt, encoded_len, encode, decode}
use muxtls.Proto.VarInt.Decode.{tail_1_value, tail_3_value, tail_7_value}

-- The tag is added to a value that leaves the top two bits free.
encode_1 : (v : ℕ) → v ≤ 0x3f → encode v ≡ put_u8 v
unfolding encode
encode_1 v h = ground arith

encode_2 : (v : ℕ) → 0x3f < v → v ≤ 0x3fff → encode v ≡ put_u16 (0x4000 + v)
unfolding encode
encode_2 v lo hi = ground (arith, bit_or_disjoint 14 1 v)

encode_4 : (v : ℕ) → 0x3fff < v → v ≤ 0x3fff_ffff → encode v ≡ put_u32 (0x8000_0000 + v)
unfolding encode
encode_4 v lo hi = ground (arith, bit_or_disjoint 30 2 v)

encode_8 : (v : ℕ) → 0x3fff_ffff < v → IsVarInt v → encode v ≡ put_u64 (0xc000_0000_0000_0000 + v)
unfolding encode
encode_8 v lo hi = ground (arith, bit_or_disjoint 62 3 v)

decode_1 : (v : ℕ) (rest : List ℕ) → v ≤ 0x3f → decode (v ∷ rest) ≡ ok (v, rest)
unfolding decode
decode_1 v rest h = ground (arith, low_six v)

decode_2 :
    (a b : ℕ) (rest : List ℕ)
    → IsByte a
    → IsByte b
    → a / 64 ≡ 1
    → decode (a ∷ b ∷ rest) ≡ ok (a % 64 * 2 ^ 8 + b, rest)
unfolding decode
decode_2 a b rest ha hb t = ground (arith, tail_1_value a b rest)

decode_4 :
    (a b c d : ℕ) (rest : List ℕ)
    → IsByte a
    → IsBytes (b ∷ c ∷ d ∷ [])
    → a / 64 ≡ 2
    → decode (a ∷ b ∷ c ∷ d ∷ rest) ≡ ok (a % 64 * 2 ^ 24 + b * 2 ^ 16 + c * 2 ^ 8 + d, rest)
unfolding decode
decode_4 a b c d rest ha h t = ground (arith, tail_3_value a b c d rest ha h)

decode_8 :
    (a b c d e f g h : ℕ) (rest : List ℕ)
    → IsByte a
    → IsBytes (b ∷ c ∷ d ∷ e ∷ f ∷ g ∷ h ∷ [])
    → a / 64 ≡ 3
    → decode (a ∷ b ∷ c ∷ d ∷ e ∷ f ∷ g ∷ h ∷ rest)
      ≡ ok (
        a % 64 * 2 ^ 56
            + b * 2 ^ 48
            + c * 2 ^ 40
            + d * 2 ^ 32
            + e * 2 ^ 24
            + f * 2 ^ 16
            + g * 2 ^ 8
            + h,
        rest,
      )
unfolding decode
decode_8 a b c d e f g h rest ha hs t = ground (arith, tail_7_value a b c d e f g h rest ha hs)

-- The four ranges of the match in `encode`.
range_cases :
    (v : ℕ)
    → ((v ≤ 0x3f) ⊎ ((0x3f < v) × (v ≤ 0x3fff)))
      ⊎ (((0x3fff < v) × (v ≤ 0x3fff_ffff)) ⊎ (0x3fff_ffff < v))
range_cases v = omega arith

-- What `encode` writes for a value of at most 62 bits, followed by any bytes, `decode` reads back as
-- that value, and it leaves exactly those bytes.
pub decode-encode_append :
    (v : ℕ) (rest : List ℕ) → IsVarInt v → decode (encode v ++ rest) ≡ ok (v, rest)
decode-encode_append v rest h = elim (range_cases v) [
  | inl (inl hi) ↦ rw (encode_1 v hi) (decode_1 v rest hi)
  | inl (inr (lo, hi)) ↦
      rw (encode_2 v lo hi)
        (decode_2 _ _ rest (omega arith) (omega arith) (omega arith) ∙ same (omega arith))
  | inr (inl (lo, hi)) ↦
      rw (encode_4 v lo hi)
        (decode_4 _ _ _ _ rest (omega arith) (omega arith) (omega arith) ∙ same (omega arith))
  | inr (inr lo) ↦
      rw (encode_8 v lo h) (
        decode_8 _ _ _ _ _ _ _ _ rest (omega arith) (omega arith) (omega arith)
        ∙ same (omega arith))
]
  where
    same : {a : ℕ} → a ≡ v → ◌≡◌ {A = Result VarIntError (ℕ × List ℕ)} (ok (a, rest)) (ok (v, rest))
    same e = ap (λ (t : ℕ). ok (t, rest)) e

pub length-encode : (v : ℕ) → length (encode v) ≡ encoded_len v
unfolding encode encoded_len
length-encode v = ground arith

encode-IsBytes : (v : ℕ) → IsBytes (encode v)
unfolding encode
encode-IsBytes v = ground arith
