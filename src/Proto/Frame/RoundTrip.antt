-- ===== src/Proto/Frame/RoundTrip.antt =====
-- `Frame::decode` after `Frame::encode`, alone and with bytes left over; the length of an encoding.
use mathlib.Core.List.{append_assoc, append-nil}
use muxtls.Proto.Utf8.{IsUtf8}
use muxtls.Base.{ℕ, ◌+◌, ◌^◌, ◌<◌, ◌≡◌, refl, ap, arith, Bool, true, false}
use muxtls.Base.{List, [], ◌∷◌, ◌++◌, Result, ok, err, ◌>>=◌, length}
use muxtls.Base.{not, bit_and, ◌==◌, take-append, drop-append, length-append, if◌then◌else◌}
use muxtls.Proto.VarInt
use muxtls.Proto.VarInt.{IsVarInt}
use muxtls.Proto.VarInt.RoundTrip.{decode-encode_append, length-encode as value_length}
use muxtls.Proto.Frame.{
  Frame, stream, reset_stream, open_stream, settings, max_data, max_stream_data, stop_sending, ping,
  connection_close, ProtoError, trailing_bytes, IsFrame, checked_var_int, fit_u64, encoded_len,
  encode, take_var_int, take_flags, take_sized, decode_stream, decode_close, decode_1, decode_2,
  decode_3, decode_body, decode, decode_front, whole,
}

-- The payload or the reason has a length in 64 bits, as in any Rust program.
abbrev pub IsSized : Frame → Type 0
IsSized (stream id fin payload) = length payload < 2 ^ 64
IsSized (connection_close code reason) = length reason < 2 ^ 64
IsSized _ = Unit

checked_value : (v : ℕ) → IsVarInt v → checked_var_int v ≡ ok v
checked_value v h = unfold checked_var_int VarInt.from_u64 in ground arith

fit_value : (v x : ℕ) → IsVarInt v → fit_u64 v x ≡ ok v
fit_value v x h = unfold fit_u64 in ground arith

take_value :
    (v : ℕ) (rest : List ℕ) → IsVarInt v → take_var_int (VarInt.encode v ++ rest) ≡ ok (v, rest)
take_value v rest h = unfold take_var_int in rw (decode-encode_append v rest h)

take_sized_value :
    (bs rest : List ℕ)
    → IsVarInt (length bs)
    → take_sized (VarInt.encode (length bs) ++ (bs ++ rest)) ≡ ok (bs, rest)
unfolding take_sized
take_sized_value bs rest h = ground (
  arith,
  take_value (length bs) (bs ++ rest) h,
  fit_value (length bs) (length bs) h,
  length-append bs rest,
  take-append bs rest,
  drop-append bs rest,
)

take_flags_value :
    (fin : Bool) (rest : List ℕ)
    → take_flags ((if fin then 1 else 0) ∷ rest) ≡ ok ((if fin then 1 else 0), rest)
unfolding take_flags
take_flags_value true rest = refl
take_flags_value false rest = refl

decode_1_value :
    (frame : ℕ → Frame) (a : ℕ) (rest : List ℕ)
    → IsVarInt a
    → decode_1 frame (VarInt.encode a ++ rest) ≡ ok (frame a, rest)
unfolding decode_1
decode_1_value frame a rest h = rw (take_value a rest h)

decode_2_value :
    (frame : ℕ → ℕ → Frame) (a b : ℕ) (rest : List ℕ)
    → IsVarInt a
    → IsVarInt b
    → decode_2 frame (VarInt.encode a ++ (VarInt.encode b ++ rest)) ≡ ok (frame a b, rest)
unfolding decode_2
decode_2_value frame a b rest ha hb =
    rw (take_value a (VarInt.encode b ++ rest) ha) (decode_1_value (frame a) b rest hb)

decode_3_value :
    (frame : ℕ → ℕ → ℕ → Frame) (a b c : ℕ) (rest : List ℕ)
    → IsVarInt a
    → IsVarInt b
    → IsVarInt c
    → decode_3 frame (VarInt.encode a ++ (VarInt.encode b ++ (VarInt.encode c ++ rest)))
      ≡ ok (frame a b c, rest)
unfolding decode_3
decode_3_value frame a b c rest ha hb hc =
    rw (take_value a (VarInt.encode b ++ (VarInt.encode c ++ rest)) ha)
      (decode_2_value (frame a) b c rest hb hc)

decode_stream_value :
    (id : ℕ) (fin : Bool) (payload rest : List ℕ)
    → IsVarInt id
    → IsVarInt (length payload)
    → decode_stream (
        VarInt.encode id
        ++ ((if fin then 1 else 0) ∷ VarInt.encode (length payload) ++ (payload ++ rest)))
      ≡ ok (stream id fin payload, rest)
unfolding decode_stream
decode_stream_value id fin payload rest hi hp =
    rw (take_value id _ hi)
      (rw (take_flags_value fin _) (rw (take_sized_value payload rest hp) (flag fin)))
  where
    flag :
        (fin : Bool)
        → ◌≡◌ {A = Result ProtoError (Frame × List ℕ)}
            (ok (stream id (not (bit_and (if fin then 1 else 0) 1 == 0)) payload, rest))
            (ok (stream id fin payload, rest))
    flag true = refl
    flag false = refl

decode_close_value :
    (code : ℕ) (reason rest : List ℕ)
    → IsVarInt code
    → IsVarInt (length reason)
    → IsUtf8 reason
    → decode_close (VarInt.encode code ++ (VarInt.encode (length reason) ++ (reason ++ rest)))
      ≡ ok (connection_close code reason, rest)
unfolding decode_close
decode_close_value code reason rest hc hr hu =
    rw (take_value code _ hc) (rw (take_sized_value reason rest hr) (rw hu))

-- The frame is read back from the front of any buffer that its encoding begins.
pub front-encode :
    (f : Frame) (rest : List ℕ)
    → IsFrame f
    → (encode f >>= λ bs. decode_front (bs ++ rest)) ≡ ok (f, rest)
unfolding encode decode_front decode_body
front-encode (stream id fin payload) rest h =
    rw (checked_value _ h.2) (simp append_assoc (decode_stream_value id fin payload rest h.0 h.2))
front-encode (reset_stream id code) rest h =
    simp append_assoc (decode_2_value reset_stream id code rest h.0 h.1)
front-encode (open_stream id) rest h = decode_1_value open_stream id rest h
front-encode (settings a b c) rest h =
    simp append_assoc (decode_3_value settings a b c rest h.0 h.1 h.2)
front-encode (max_data maximum) rest h = decode_1_value max_data maximum rest h
front-encode (max_stream_data id maximum) rest h =
    simp append_assoc (decode_2_value max_stream_data id maximum rest h.0 h.1)
front-encode (stop_sending id) rest h = decode_1_value stop_sending id rest h
front-encode ping rest h = refl
front-encode (connection_close code reason) rest h =
    rw (checked_value _ h.2) (simp append_assoc (decode_close_value code reason rest h.0 h.2 h.3))

front_whole :
    (encoded : Result ProtoError (List ℕ)) (rest : List ℕ) {p : Frame × List ℕ}
    → (encoded >>= λ bs. decode_front (bs ++ rest)) ≡ ok p
    → (encoded >>= λ bs. decode_front (bs ++ rest) >>= whole) ≡ whole p
front_whole (ok bs) rest h = rw h
front_whole (err e) rest h = cc

-- Every frame that the types allow encodes, and `decode` reads its encoding as that frame.
pub decode-encode : (f : Frame) → IsFrame f → (encode f >>= decode) ≡ ok f
unfolding decode
decode-encode f h = simp append-nil at (front_whole (encode f) [] (front-encode f [] h))

-- Where a frame's encoding is followed by one more byte at least, `decode` fails and reports how many
-- bytes are left.
pub decode-trailing :
    (f : Frame) (b : ℕ) (bs : List ℕ)
    → IsFrame f
    → (encode f >>= λ front. decode (front ++ (b ∷ bs))) ≡ err (trailing_bytes (length (b ∷ bs)))
unfolding decode
decode-trailing f b bs h = front_whole (encode f) (b ∷ bs) (front-encode f (b ∷ bs) h)

length_value :
    (v : ℕ) (bs : List ℕ) → length (VarInt.encode v ++ bs) ≡ VarInt.encoded_len v + length bs
length_value v bs = omega (arith, length-append (VarInt.encode v) bs, value_length v)

ruleset value_lengths = (arith, value_length, length_value)

-- `encoded_len` is the number of bytes that `encode` writes, for every frame whose payload or reason
-- has a length that a 64-bit machine can hold; where the one fails the other fails the same way.
pub length-encode : (f : Frame) → IsSized f → (encode f >>= λ bs. ok (length bs)) ≡ encoded_len f
unfolding encode encoded_len VarInt.from_u64
length-encode (stream id fin payload) h = ground (
  arith,
  length_value id ((if fin then 1 else 0) ∷ VarInt.encode (length payload) ++ payload),
  length_value (length payload) payload,
)
length-encode (reset_stream id code) h = ap ok (omega value_lengths)
length-encode (open_stream id) h = ap ok (omega value_lengths)
length-encode (settings a b c) h = ap ok (omega value_lengths)
length-encode (max_data maximum) h = ap ok (omega value_lengths)
length-encode (max_stream_data id maximum) h = ap ok (omega value_lengths)
length-encode (stop_sending id) h = ap ok (omega value_lengths)
length-encode ping h = refl
length-encode (connection_close code reason) h = ground (
  arith,
  length_value code (VarInt.encode (length reason) ++ reason),
  length_value (length reason) reason,
)
