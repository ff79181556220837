-- ===== src/Connection/Payload/Greatest.antt =====
-- The search ends within its fuel at the greatest payload that fits.
use muxtls.Base.{
  ℕ, zero, suc, ◌+◌, ◌-◌, ◌^◌, ◌≤◌, ◌<◌, ◌≡◌, arith, min, Bool, true, false, ltb, leb, Bool-cases,
  inl, inr, ◌↔◌, List, length, ok,
}
use native.Mathlib.Nat.{pow-suc}
use muxtls.Proto.VarInt.{IsVarInt, encoded_len, from_u64}
use muxtls.Proto.VarInt.Decode.{encoded_len-le, encoded_len_mono}
use muxtls.Proto.Frame
use muxtls.Proto.Frame.{stream}
use muxtls.Limits.{Limits, min_frame_size, u32_max}
use muxtls.Connection.Payload.{fits, middle, search, max_stream_payload}

fits_mono :
    (max_frame_size id a b : ℕ)
    → a ≤ b
    → fits max_frame_size id b ≡ true
    → fits max_frame_size id a ≡ true
unfolding fits
fits_mono max_frame_size id a b le e = ground (arith, encoded_len_mono a b le)

beyond :
    (max_frame_size id a b : ℕ)
    → a ≤ b
    → fits max_frame_size id a ≡ false
    → fits max_frame_size id b ≡ false
beyond m id a b le e = elim (Bool-cases (fits m id b)) [
  | inl f ↦ absurd (cc (fits_mono m id a b le f, e))
  | inr f ↦ f
]

-- Between a payload that fits and one beyond which none does.
record IsBracket (max_frame_size id low high top : ℕ) : Type 0 where
  below : fits max_frame_size id low ≡ true
  ordered : low ≤ high
  above : (n : ℕ) → high < n → n ≤ top → fits max_frame_size id n ≡ false

IsGreatest : (max_frame_size id top r : ℕ) → Type 0
IsGreatest max_frame_size id top r =
    (fits max_frame_size id r ≡ true)
    × ((n : ℕ) → r < n → n ≤ top → fits max_frame_size id n ≡ false)

search-IsGreatest :
    (fuel max_frame_size id low high top : ℕ)
    → high - low < 2 ^ fuel
    → IsBracket max_frame_size id low high top
    → IsGreatest max_frame_size id top (search fuel max_frame_size id low high)
unfolding search IsGreatest
search-IsGreatest zero m id low high top gap h =
    (h.below, λ n lt le. h.above n (omega (arith, h.ordered)) le)
search-IsGreatest (suc fuel) m id low high top gap h = elim (Bool-cases (ltb low high)) [
  | inr e ↦ rw e (h.below, λ n lt le. h.above n (ground (arith, h.ordered)) le)
  | inl e ↦ elim (Bool-cases (fits m id (middle low high))) [
    | inl f ↦
        rw (e, f)
          (search-IsGreatest fuel m id (middle low high) high top (ground (arith, pow-suc 2 fuel))
            record { below = f; ordered = ground (arith, h.ordered); above = h.above })
    | inr f ↦
        rw (e, f)
          (search-IsGreatest fuel m id low (middle low high - 1) top
            (ground (arith, pow-suc 2 fuel))
            record {
              below = h.below;
              ordered = ground (arith, h.ordered);
              above = λ n lt le. beyond m id (middle low high) n (ground arith) f;
            })
  ]
]

-- The size that `fits` compares, of a payload that the wire can carry.
fits_size :
    (max_frame_size id n : ℕ)
    → IsVarInt id
    → IsVarInt n
    → (fits max_frame_size id n ≡ true)
      ↔ (1 + encoded_len id + 1 + encoded_len n + n ≤ max_frame_size)
unfolding fits
fits_size m id n h k = (λ e. ground arith, λ le. ground arith)

zero_fits :
    (max_frame_size id : ℕ)
    → IsVarInt id
    → min_frame_size ≤ max_frame_size
    → fits max_frame_size id 0 ≡ true
unfolding fits
zero_fits m id h le = ground (arith, encoded_len-le id, encoded_len-le 0)

found-IsGreatest :
    (limits : Limits) (id : ℕ)
    → IsVarInt id
    → min_frame_size ≤ limits.max_frame_size
    → IsGreatest limits.max_frame_size id
        (min limits.max_frame_size u32_max)
        (search 32 limits.max_frame_size id 0 (min limits.max_frame_size u32_max))
found-IsGreatest limits id h le =
    let top = min limits.max_frame_size u32_max in
    search-IsGreatest 32 limits.max_frame_size id 0 top top (omega arith) record {
      below = zero_fits limits.max_frame_size id h le;
      ordered = omega arith;
      above = λ n lt le. absurd (omega arith);
    }

pub frame_size :
    (id : ℕ) (fin : Bool) (payload : List ℕ)
    → IsVarInt (length payload)
    → Frame.encoded_len (stream id fin payload)
      ≡ ok (1 + encoded_len id + 1 + encoded_len (length payload) + length payload)
unfolding Frame.encoded_len Frame.fit_u64 Frame.checked_var_int from_u64
frame_size id fin payload h = ground arith

within_greatest :
    (max_frame_size id top r n : ℕ)
    → IsGreatest max_frame_size id top r
    → n ≤ top
    → fits max_frame_size id n ≡ true
    → n ≤ r
unfolding IsGreatest
within_greatest m id top r n h le e = elim (Bool-cases (leb n r)) [
  | inl f ↦ ground arith
  | inr f ↦ absurd (cc (h.1 n (ground arith) le, e))
]

-- Under validated limits and for an identifier that the wire carries, a payload within the byte limit
-- of the stream is at most `max_stream_payload` exactly when its encoded STREAM frame is within the frame size.
pub max_stream_payload_iff :
    (limits : Limits) (id : ℕ) (fin : Bool) (payload : List ℕ)
    → IsVarInt id
    → min_frame_size ≤ limits.max_frame_size
    → limits.max_frame_size ≤ u32_max
    → limits.max_outbound_stream_bytes ≤ u32_max
    → length payload ≤ limits.max_outbound_stream_bytes
    → (size : ℕ) × (Frame.encoded_len (stream id fin payload) ≡ ok size)
      × ((size ≤ limits.max_frame_size) ↔ (length payload ≤ max_stream_payload limits id))
unfolding max_stream_payload IsGreatest
max_stream_payload_iff limits id fin payload h small large outbound within =
    let n = length payload in
    let m = limits.max_frame_size in
    let r = search 32 m id 0 (min m u32_max) in
    let found = found-IsGreatest limits id h small in
    let sized = fits_size m id n h (omega arith) in
    (
      _,
      frame_size id fin payload (omega arith),
      (
        λ le.
            omega (
              arith,
              within_greatest m id (min m u32_max) r n found (omega arith) (sized.1 le),
              le,
            ),
        λ le. sized.0 (fits_mono m id n r (omega (arith, le)) found.0),
      ),
    )
