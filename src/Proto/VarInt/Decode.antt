-- ===== src/Proto/VarInt/Decode.antt =====
-- What `decode` computes, in plain arithmetic, and what it accepts.
use muxtls.Base.{ℕ, ◌+◌, ◌*◌, ◌/◌, ◌%◌, ◌^◌, ◌<◌, ◌≤◌, ◌≡◌, refl, arith, List, [], ◌∷◌, ◌++◌}
use muxtls.Base.{
  ap, length-append, ◌>>=◌, Result, ok, err, bit_or, length, ◌⊎◌, inl, inr, Bool-cases, ◌==◌,
}
use muxtls.Base.Bits.{bit_or_disjoint, low_six, ==→eq}
use muxtls.Proto.Bytes.{IsByte, IsBytes}
use muxtls.Proto.VarInt.{
  VarIntError, encoded_len, IsVarInt, unexpected_eof, tail_1, tail_3, tail_7, by_tag, decode,
  from_u64,
}

-- A field below those that are already there.
join : (k x q b : ℕ) → x ≡ q * 2 ^ k → b < 2 ^ k → bit_or x b ≡ x + b
join k x q b e h = rw e (bit_or_disjoint k q b h)

pub tail_1_value :
    (first b : ℕ) (rest : List ℕ)
    → IsByte first
    → IsByte b
    → tail_1 first (b ∷ rest) ≡ ok (first % 64 * 2 ^ 8 + b, rest)
unfolding tail_1
tail_1_value first b rest hf hb =
    ground (arith, low_six first, join 8 (first % 64 * 2 ^ 8) (first % 64) b refl hb)

pub tail_3_value :
    (first b c d : ℕ) (rest : List ℕ)
    → IsByte first
    → IsBytes (b ∷ c ∷ d ∷ [])
    → tail_3 first (b ∷ c ∷ d ∷ rest) ≡ ok (first % 64 * 2 ^ 24 + b * 2 ^ 16 + c * 2 ^ 8 + d, rest)
unfolding tail_3
tail_3_value first b c d rest hf h =
    let f = first % 64 in
    let x = f * 2 ^ 24 in
    let y = x + b * 2 ^ 16 in
    let z = y + c * 2 ^ 8 in
    ground (
      arith,
      low_six first,
      join 24 x f (b * 2 ^ 16) refl (omega arith),
      join 16 y (f * 2 ^ 8 + b) (c * 2 ^ 8) (omega arith) (omega arith),
      join 8 z (f * 2 ^ 16 + b * 2 ^ 8 + c) d (omega arith) (omega arith),
    )

pub tail_7_value :
    (first b c d e f g h : ℕ) (rest : List ℕ)
    → IsByte first
    → IsBytes (b ∷ c ∷ d ∷ e ∷ f ∷ g ∷ h ∷ [])
    → tail_7 first (b ∷ c ∷ d ∷ e ∷ f ∷ g ∷ h ∷ rest)
      ≡ ok (
        first % 64 * 2 ^ 56
            + b * 2 ^ 48
            + c * 2 ^ 40
            + d * 2 ^ 32
            + e * 2 ^ 24
            + f * 2 ^ 16
            + g * 2 ^ 8
            + h,
        rest,
      )
unfolding tail_7
tail_7_value first b c d e f g h rest hf hs =
    let a = first % 64 in
    let x1 = a * 2 ^ 56 in
    let x2 = x1 + b * 2 ^ 48 in
    let x3 = x2 + c * 2 ^ 40 in
    let x4 = x3 + d * 2 ^ 32 in
    let x5 = x4 + e * 2 ^ 24 in
    let x6 = x5 + f * 2 ^ 16 in
    let x7 = x6 + g * 2 ^ 8 in
    ground (
      arith,
      low_six first,
      join 56 x1 a (b * 2 ^ 48) refl (omega arith),
      join 48 x2 (a * 2 ^ 8 + b) (c * 2 ^ 40) (omega arith) (omega arith),
      join 40 x3 (a * 2 ^ 16 + b * 2 ^ 8 + c) (d * 2 ^ 32) (omega arith) (omega arith),
      join 32 x4 (a * 2 ^ 24 + b * 2 ^ 16 + c * 2 ^ 8 + d) (e * 2 ^ 24) (omega arith) (omega arith),
      join 24 x5 (x5 / 2 ^ 24) (f * 2 ^ 16) (omega arith) (omega arith),
      join 16 x6 (x6 / 2 ^ 16) (g * 2 ^ 8) (omega arith) (omega arith),
      join 8 x7 (x7 / 2 ^ 8) h (omega arith) (omega arith),
    )

pub encoded_len-le : (v : ℕ) → encoded_len v ≤ 8
unfolding encoded_len
encoded_len-le v = ground arith

pub encoded_len_mono : (a b : ℕ) → a ≤ b → encoded_len a ≤ encoded_len b
unfolding encoded_len
encoded_len_mono a b h = ground arith

-- The number that follows `x` when the bytes come behind it, the highest first.
abbrev pub big_endian : ℕ → List ℕ → ℕ
big_endian x [] = x
big_endian x (b ∷ bs) = big_endian (x * 2 ^ 8 + b) bs

-- The first byte tells the width. Where fewer bytes are there the reading fails; otherwise it takes exactly
-- that many, and their number without the tag, which has at most 62 bits.
abbrev pub Reads : ℕ → ℕ → List ℕ → Result VarIntError (ℕ × List ℕ) → Type 0
Reads first width bs r =
    ((length bs + 1 < width) × (r ≡ err unexpected_eof))
    ⊎ ((field : List ℕ) × (rest : List ℕ) × (bs ≡ field ++ rest)
        × (length field + 1 ≡ width)
        × (r ≡ ok (big_endian (first % 64) field, rest))
        × IsVarInt (big_endian (first % 64) field)
        × (encoded_len (big_endian (first % 64) field) ≤ width)
        × IsBytes rest)

-- What a reading of any bytes comes to: the width is one, two, four or eight by the two top bits.
abbrev pub Decodes : List ℕ → Result VarIntError (ℕ × List ℕ) → Type 0
Decodes [] r = r ≡ err unexpected_eof
Decodes (first ∷ bs) r = Reads first (2 ^ (first / 64)) bs r

-- The arms agree with the number in big-endian order.
arm :
    (r : Result VarIntError (ℕ × List ℕ)) (v n : ℕ) (rest : List ℕ)
    → r ≡ ok (v, rest)
    → v ≡ n
    → r ≡ ok (n, rest)
arm r v n rest e same = rw (← same) e

module _ (first : ℕ) (hf : IsByte first) where
  tail_1-Reads : (bs : List ℕ) → IsBytes bs → Reads first 2 bs (tail_1 first bs)
  tail_1-Reads [] h = inl (omega arith, unfold tail_1 in refl)
  tail_1-Reads (b ∷ rest) h =
      inr (b ∷ [], rest, refl, refl, tail_1_value first b rest hf h.0, omega arith, size, h.1)
    where
      size : encoded_len (first % 64 * 2 ^ 8 + b) ≤ 2
      size = unfold encoded_len in ground arith

  tail_3-Reads : (bs : List ℕ) → IsBytes bs → Reads first 4 bs (tail_3 first bs)
  tail_3-Reads [] h = inl (omega arith, unfold tail_3 in refl)
  tail_3-Reads (b ∷ []) h = inl (omega arith, unfold tail_3 in refl)
  tail_3-Reads (b ∷ c ∷ []) h = inl (omega arith, unfold tail_3 in refl)
  tail_3-Reads (b ∷ c ∷ d ∷ rest) h =
      inr (b ∷ c ∷ d ∷ [], rest, refl, refl, value, omega arith, size, h.1.1.1)
    where
      v : ℕ
      v = big_endian (first % 64) (b ∷ c ∷ d ∷ [])

      value : tail_3 first (b ∷ c ∷ d ∷ rest) ≡ ok (v, rest)
      value =
          arm _ (first % 64 * 2 ^ 24 + b * 2 ^ 16 + c * 2 ^ 8 + d) v rest
            (tail_3_value first b c d rest hf (omega arith)) (omega arith)

      size : encoded_len v ≤ 4
      size = unfold encoded_len in ground arith

  tail_7-Reads : (bs : List ℕ) → IsBytes bs → Reads first 8 bs (tail_7 first bs)
  tail_7-Reads [] h = inl (omega arith, unfold tail_7 in refl)
  tail_7-Reads (b ∷ []) h = inl (omega arith, unfold tail_7 in refl)
  tail_7-Reads (b ∷ c ∷ []) h = inl (omega arith, unfold tail_7 in refl)
  tail_7-Reads (b ∷ c ∷ d ∷ []) h = inl (omega arith, unfold tail_7 in refl)
  tail_7-Reads (b ∷ c ∷ d ∷ e ∷ []) h = inl (omega arith, unfold tail_7 in refl)
  tail_7-Reads (b ∷ c ∷ d ∷ e ∷ f ∷ []) h = inl (omega arith, unfold tail_7 in refl)
  tail_7-Reads (b ∷ c ∷ d ∷ e ∷ f ∷ g ∷ []) h = inl (omega arith, unfold tail_7 in refl)
  tail_7-Reads (b ∷ c ∷ d ∷ e ∷ f ∷ g ∷ i ∷ rest) h = inr (
    b ∷ c ∷ d ∷ e ∷ f ∷ g ∷ i ∷ [],
    rest,
    refl,
    refl,
    arm _ _ (big_endian (first % 64) (b ∷ c ∷ d ∷ e ∷ f ∷ g ∷ i ∷ [])) rest
        (tail_7_value first b c d e f g i rest hf (omega arith)) (omega arith),
    omega arith,
    encoded_len-le _,
    h.1.1.1.1.1.1.1,
  )

  by_tag-Reads : (bs : List ℕ) → IsBytes bs → Reads first (2 ^ (first / 64)) bs (by_tag first bs)
  unfolding by_tag
  by_tag-Reads bs h = elim (Bool-cases (first / 64 == 0)) [
    | inl e ↦
        rw (==→eq _ _ e) (inr ([], bs, refl, refl, rw (low_six first) refl, omega arith, size, h))
    | inr e ↦ elim (Bool-cases (first / 64 == 1)) [
      | inl e1 ↦ rw (==→eq _ _ e1) (tail_1-Reads bs h)
      | inr e1 ↦ elim (Bool-cases (first / 64 == 2)) [
        | inl e2 ↦ rw (==→eq _ _ e2) (tail_3-Reads bs h)
        | inr e2 ↦ let e3 : first / 64 ≡ 3 = ground arith in rw e3 (tail_7-Reads bs h)
      ]
    ]
  ]
    where
      size : encoded_len (first % 64) ≤ 1
      size = unfold encoded_len in ground arith

in_range :
    (first width : ℕ) (bs : List ℕ) (r : Result VarIntError (ℕ × List ℕ))
    → Reads first width bs r
    → Reads first width bs (r >>= λ p. from_u64 p.0 >>= λ v. ok (v, p.1))
unfolding from_u64
in_range first width bs r (inl (few, e)) = inl (few, rw e refl)
in_range first width bs r (inr (field, rest, split, len, e, small, size, hs)) =
    inr (field, rest, split, len, ground (arith, e, small), small, size, hs)

-- On any bytes `decode` fails exactly where there are fewer than the first byte tells, one, two, four or
-- eight, or none at all. Otherwise it reads the number that these bytes are in big-endian order without
-- the two bits of the tag, and leaves the bytes behind them; the number has at most 62 bits, and its
-- shortest encoding is no longer than what was read.
pub decode_reads : (bs : List ℕ) → IsBytes bs → Decodes bs (decode bs)
unfolding decode
decode_reads [] h = refl
decode_reads (first ∷ bs) h =
    in_range first (2 ^ (first / 64)) bs (by_tag first bs) (by_tag-Reads first h.0 bs h.1)

-- What is read lies within the bytes.
pub decode_within :
    (bs : List ℕ)
    → IsBytes bs
    → (decode bs ≡ err unexpected_eof)
      ⊎ ((v : ℕ) × (rest : List ℕ) × (decode bs ≡ ok (v, rest))
          × IsVarInt v
          × (encoded_len v + length rest ≤ length bs)
          × IsBytes rest)
decode_within [] h = inl (decode_reads [] h)
decode_within (first ∷ bs) h = elim (decode_reads (first ∷ bs) h) [
  | inl (few, e) ↦ inl e
  | inr (field, rest, split, len, e, small, size, hs) ↦
      inr
        (_, rest, e, small, omega (arith, ap length split, length-append field rest, len, size), hs)
]
