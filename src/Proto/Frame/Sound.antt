-- ===== src/Proto/Frame/Sound.antt =====
-- What `Frame::decode` accepts: only frames that the types allow, and no more payload than input.
use muxtls.Base.{Yields, Yields->>=}
use muxtls.Base.{ℕ, ◌≤◌, ◌≡◌, arith, List, [], ◌∷◌, inl, inr}
use muxtls.Base.{Result, ok, err, ◌>>=◌, length, take, drop, ltb}
use muxtls.Base.{length-take, length-drop, All-take, All-drop, Bool-cases}
use mathlib.Core.Path.{subst}
use muxtls.Proto.Bytes.{IsByte, IsBytes}
use muxtls.Proto.Utf8.{is_utf8}
use muxtls.Proto.VarInt.{IsVarInt}
use muxtls.Proto.VarInt.Decode.{decode_within}
use muxtls.Proto.Frame.{
  Frame, reset_stream, open_stream, settings, max_data, max_stream_data, stop_sending, ProtoError,
  IsFrame, fit_u64, take_var_int, take_flags, take_sized, decode_stream, decode_close, decode_1,
  decode_2, decode_3, decode_body, decode, decode_front, whole,
}

-- A value that satisfies `P`, with bytes that were not read, no more of them than `n`.
abbrev ReadWithin : {A : Type 0} → ℕ → (A → Type 0) → A × List ℕ → Type 0
ReadWithin n P r = P r.0 × IsBytes r.1 × (length r.1 ≤ n)

-- Bytes that a `VarInt` counts.
abbrev IsField : List ℕ → Type 0
IsField bs = IsBytes bs × IsVarInt (length bs)

take_var_int_sound :
    (src : List ℕ) → IsBytes src → Yields (ReadWithin (length src) IsVarInt) (take_var_int src)
unfolding take_var_int
take_var_int_sound src h = elim (decode_within src h) [
  | inl e ↦ rw e tt
  | inr (v, rest, e, small, size, hs) ↦ rw e (small, hs, omega (arith, size))
]

cut_sound :
    (len : ℕ) (src : List ℕ)
    → IsVarInt len
    → IsBytes src
    → ReadWithin (length src) IsField (take len src, drop len src)
cut_sound len src small h = (
  (All-take IsByte len src h, omega (arith, length-take len src)),
  All-drop IsByte len src h,
  omega (arith, length-drop len src),
)

take_sized_sound :
    (src : List ℕ) → IsBytes src → Yields (ReadWithin (length src) IsField) (take_sized src)
unfolding take_sized fit_u64
take_sized_sound src h =
    Yields->>= (ReadWithin (length src) IsVarInt) (ReadWithin (length src) IsField) _ _
      (take_var_int_sound src h)
      λ a read. elim (Bool-cases (ltb (length a.1) a.0)) [
        | inl short ↦ ground arith
        | inr enough ↦ ground (arith, cut_sound a.0 a.1 read.0 read.1)
      ]

take_flags_sound :
    (src : List ℕ) → IsBytes src → Yields (ReadWithin (length src) IsByte) (take_flags src)
unfolding take_flags
take_flags_sound [] h = tt
take_flags_sound (flags ∷ src) h = ground arith

-- The parsers of a frame type: whatever they return is a frame that the types allow.
abbrev Parses : (List ℕ → Result ProtoError (Frame × List ℕ)) → Type 0
Parses p = (src : List ℕ) → IsBytes src → Yields (ReadWithin (length src) IsFrame) (p src)

decode_1-Parses :
    (frame : ℕ → Frame) → ((a : ℕ) → IsVarInt a → IsFrame (frame a)) → Parses (decode_1 frame)
unfolding decode_1
decode_1-Parses frame valid src h =
    Yields->>= (ReadWithin (length src) IsVarInt) (ReadWithin (length src) IsFrame) _ _
      (take_var_int_sound src h) λ a read. (valid a.0 read.0, read.1, read.2)

shorter :
    {A : Type 0} (P : A → Type 0) (m n : ℕ) (r : Result ProtoError (A × List ℕ))
    → m ≤ n
    → Yields (ReadWithin m P) r
    → Yields (ReadWithin n P) r
shorter P m n (ok a) le h = (h.0, h.1, omega arith)
shorter P m n (err e) le h = tt

decode_2-Parses :
    (frame : ℕ → ℕ → Frame)
    → ((a b : ℕ) → IsVarInt a → IsVarInt b → IsFrame (frame a b))
    → Parses (decode_2 frame)
unfolding decode_2
decode_2-Parses frame valid src h =
    Yields->>= (ReadWithin (length src) IsVarInt) (ReadWithin (length src) IsFrame) _ _
      (take_var_int_sound src h)
      λ a read.
        shorter IsFrame _ _ _ read.2
          (decode_1-Parses (frame a.0) (λ b hb. valid a.0 b read.0 hb) a.1 read.1)

decode_3-Parses :
    (frame : ℕ → ℕ → ℕ → Frame)
    → ((a b c : ℕ) → IsVarInt a → IsVarInt b → IsVarInt c → IsFrame (frame a b c))
    → Parses (decode_3 frame)
unfolding decode_3
decode_3-Parses frame valid src h =
    Yields->>= (ReadWithin (length src) IsVarInt) (ReadWithin (length src) IsFrame) _ _
      (take_var_int_sound src h)
      λ a read.
        shorter IsFrame _ _ _ read.2
          (decode_2-Parses (frame a.0) (λ b c hb hc. valid a.0 b c read.0 hb hc) a.1 read.1)

decode_stream-Parses : Parses decode_stream
unfolding decode_stream
decode_stream-Parses src h =
    Yields->>= (ReadWithin (length src) IsVarInt) (ReadWithin (length src) IsFrame) _ _
      (take_var_int_sound src h)
      λ a id. shorter IsFrame _ _ _ id.2 (
        Yields->>= (ReadWithin (length a.1) IsByte) (ReadWithin (length a.1) IsFrame) _ _
          (take_flags_sound a.1 id.1)
          λ b flags. shorter IsFrame _ _ _ flags.2 (
            Yields->>= (ReadWithin (length b.1) IsField) (ReadWithin (length b.1) IsFrame) _ _
              (take_sized_sound b.1 flags.1)
              λ c payload. ((id.0, payload.0.0, payload.0.1), payload.1, payload.2)))

decode_close-Parses : Parses decode_close
unfolding decode_close
decode_close-Parses src h =
    Yields->>= (ReadWithin (length src) IsVarInt) (ReadWithin (length src) IsFrame) _ _
      (take_var_int_sound src h)
      λ a code. shorter IsFrame _ _ _ code.2 (
        Yields->>= (ReadWithin (length a.1) IsField) (ReadWithin (length a.1) IsFrame) _ _
          (take_sized_sound a.1 code.1)
          λ b reason. elim (Bool-cases (is_utf8 b.0)) [
            | inl good ↦ rw good ((code.0, reason.0.0, reason.0.1, good), reason.1, reason.2)
            | inr bad ↦ rw bad tt
          ])

decode_body-Parses : (frame_type : ℕ) → Parses (decode_body frame_type)
unfolding decode_body
decode_body-Parses t src h = ground (
  arith,
  decode_stream-Parses src h,
  decode_2-Parses reset_stream (λ a b ha hb. (ha, hb)) src h,
  decode_close-Parses src h,
  decode_1-Parses open_stream (λ a ha. ha) src h,
  decode_3-Parses settings (λ a b c ha hb hc. (ha, hb, hc)) src h,
  decode_1-Parses max_data (λ a ha. ha) src h,
  decode_2-Parses max_stream_data (λ a b ha hb. (ha, hb)) src h,
  decode_1-Parses stop_sending (λ a ha. ha) src h,
)

decode_front-Parses : Parses decode_front
unfolding decode_front
decode_front-Parses [] h = tt
decode_front-Parses (t ∷ src) h = shorter IsFrame _ _ _ (omega arith) (decode_body-Parses t src h.1)

whole_sound :
    (n : ℕ) (r : Result ProtoError (Frame × List ℕ)) (f : Frame)
    → Yields (ReadWithin n IsFrame) r
    → (r >>= whole) ≡ ok f
    → IsFrame f
whole_sound n (ok (g, [])) f h e = let same : g ≡ f = cc in subst IsFrame same h.0
whole_sound n (ok (g, b ∷ bs)) f h e = absurd (cc)
whole_sound n (err x) f h e = absurd (cc)

-- Whatever bytes `decode` accepts stand for a frame that the types allow: every number fits in 62
-- bits, and a close reason is UTF-8.
pub decode-IsFrame : (bs : List ℕ) (f : Frame) → IsBytes bs → decode bs ≡ ok f → IsFrame f
unfolding decode
decode-IsFrame bs f h e = whole_sound (length bs) (decode_front bs) f (decode_front-Parses bs h) e
