-- ===== src/Proto/Frame.antt =====
-- muxtls-proto/src/frame.rs and error.rs: the frames, their length, `encode` and `decode`.
-- `usize` has 64 bits.
pub mod RoundTrip
pub mod Sound
use muxtls.Base.{ℕ, ◌+◌, ◌-◌, ◌^◌, Bool, List, [], ◌∷◌, ◌++◌}
use muxtls.Base.{Result, ok, err, ◌>>=◌, map_err, bit_and, not}
use muxtls.Base.{ltb, ◌==◌, if◌then◌else◌, length, take, drop}
use muxtls.Proto.Bytes.{IsBytes}
use muxtls.Proto.Utf8.{IsUtf8, is_utf8}
use muxtls.Proto.VarInt.{VarIntError, IsVarInt}
use muxtls.Proto.VarInt

pub data ProtoError : Type 0 where
  var_int : VarIntError → ProtoError
  unexpected_eof : ProtoError
  unknown_frame_type : ℕ → ProtoError
  unsupported_flags : ℕ → ℕ → ProtoError
  invalid_utf8 : ProtoError
  trailing_bytes : ℕ → ProtoError
  length_overflow : ℕ → ProtoError

-- Fields in the source's order. Identifiers, codes and limits are the values of a `VarInt`; a close
-- reason is the bytes of a string.
pub data Frame : Type 0 where
  stream : ℕ → Bool → List ℕ → Frame
  reset_stream : ℕ → ℕ → Frame
  open_stream : ℕ → Frame
  settings : ℕ → ℕ → ℕ → Frame
  max_data : ℕ → Frame
  max_stream_data : ℕ → ℕ → Frame
  stop_sending : ℕ → Frame
  ping : Frame
  connection_close : ℕ → List ℕ → Frame

-- What the types of the fields guarantee: each number fits a `VarInt`, a payload is bytes, and a
-- reason is UTF-8.
abbrev pub IsFrame : Frame → Type 0
IsFrame (stream id fin payload) = IsVarInt id × IsBytes payload × IsVarInt (length payload)
IsFrame (reset_stream id code) = IsVarInt id × IsVarInt code
IsFrame (open_stream id) = IsVarInt id
IsFrame (settings data_max stream_max frame_max) =
    IsVarInt data_max × IsVarInt stream_max × IsVarInt frame_max
IsFrame (max_data maximum) = IsVarInt maximum
IsFrame (max_stream_data id maximum) = IsVarInt id × IsVarInt maximum
IsFrame (stop_sending id) = IsVarInt id
IsFrame ping = Unit
IsFrame (connection_close code reason) =
    IsVarInt code × IsBytes reason × IsVarInt (length reason) × IsUtf8 reason

abbrev pub stream_fin_flag : ℕ
stream_fin_flag = 0x01

abbrev pub u64_max : ℕ
u64_max = 2 ^ 64 - 1

-- `ErrorCode::from_u64`, and `VarInt::from_u64` followed by `?`.
unfoldable pub checked_var_int : ℕ → Result ProtoError ℕ
checked_var_int v = map_err var_int (VarInt.from_u64 v)

-- `len.try_into().map_err(…)`, from `usize` to `u64` and back.
unfoldable pub fit_u64 : ℕ → ℕ → Result ProtoError ℕ
fit_u64 n shown = if ltb u64_max n then err (length_overflow shown) else ok n

abbrev bytes_len : List ℕ → Result ProtoError ℕ
bytes_len bs = do n ← fit_u64 (length bs) u64_max; checked_var_int n

unfoldable pub encoded_len : Frame → Result ProtoError ℕ
unfolding checked_var_int fit_u64
encoded_len (stream id fin payload) = do
  payload_len ← bytes_len payload
  ok (1 + VarInt.encoded_len id + 1 + VarInt.encoded_len payload_len + length payload)
encoded_len (reset_stream id code) = ok (1 + VarInt.encoded_len id + VarInt.encoded_len code)
encoded_len (open_stream id) = ok (1 + VarInt.encoded_len id)
encoded_len (settings data_max stream_max frame_max) =
    ok (
      1
      + VarInt.encoded_len data_max
      + VarInt.encoded_len stream_max
      + VarInt.encoded_len frame_max)
encoded_len (max_data maximum) = ok (1 + VarInt.encoded_len maximum)
encoded_len (max_stream_data id maximum) =
    ok (1 + VarInt.encoded_len id + VarInt.encoded_len maximum)
encoded_len (stop_sending id) = ok (1 + VarInt.encoded_len id)
encoded_len ping = ok 1
encoded_len (connection_close code reason) = do
  reason_len ← bytes_len reason
  ok (1 + VarInt.encoded_len code + VarInt.encoded_len reason_len + length reason)

-- The bytes that `encode` appends when it succeeds.
unfoldable pub encode : Frame → Result ProtoError (List ℕ)
unfolding checked_var_int
encode (stream id fin payload) = do
  payload_len ← checked_var_int (length payload)
  let flags = if fin then stream_fin_flag else 0
  ok (0x00 ∷ VarInt.encode id ++ (flags ∷ VarInt.encode payload_len ++ payload))
encode (reset_stream id code) = ok (0x01 ∷ VarInt.encode id ++ VarInt.encode code)
encode (open_stream id) = ok (0x04 ∷ VarInt.encode id)
encode (settings data_max stream_max frame_max) =
    ok (0x05 ∷ VarInt.encode data_max ++ (VarInt.encode stream_max ++ VarInt.encode frame_max))
encode (max_data maximum) = ok (0x06 ∷ VarInt.encode maximum)
encode (max_stream_data id maximum) = ok (0x07 ∷ VarInt.encode id ++ VarInt.encode maximum)
encode (stop_sending id) = ok (0x08 ∷ VarInt.encode id)
encode ping = ok (0x02 ∷ [])
encode (connection_close code reason) = do
  reason_len ← checked_var_int (length reason)
  ok (0x03 ∷ VarInt.encode code ++ (VarInt.encode reason_len ++ reason))

-- `VarInt::decode(src)?`
unfoldable pub take_var_int : List ℕ → Result ProtoError (ℕ × List ℕ)
take_var_int src = map_err var_int (VarInt.decode src)

unfoldable pub take_flags : List ℕ → Result ProtoError (ℕ × List ℕ)
take_flags [] = err unexpected_eof
take_flags (flags ∷ src) =
    if not (bit_and flags 0xfe == 0) then err (unsupported_flags 0x00 flags) else ok (flags, src)

-- A length and as many bytes.
unfoldable pub take_sized : List ℕ → Result ProtoError (List ℕ × List ℕ)
take_sized src = do
  (len_u64, src1) ← take_var_int src
  len ← fit_u64 len_u64 len_u64
  if ltb (length src1) len then err unexpected_eof else ok (take len src1, drop len src1)

unfoldable pub decode_stream : List ℕ → Result ProtoError (Frame × List ℕ)
decode_stream src = do
  (stream_id, src1) ← take_var_int src
  (flags, src2) ← take_flags src1
  (payload, src3) ← take_sized src2
  ok (stream stream_id (not (bit_and flags stream_fin_flag == 0)) payload, src3)

unfoldable pub decode_close : List ℕ → Result ProtoError (Frame × List ℕ)
decode_close src = do
  (error_code, src1) ← take_var_int src
  (reason, src2) ← take_sized src1
  if is_utf8 reason then ok (connection_close error_code reason, src2) else err invalid_utf8

unfoldable pub decode_1 : (ℕ → Frame) → List ℕ → Result ProtoError (Frame × List ℕ)
decode_1 frame src = do (a, src1) ← take_var_int src; ok (frame a, src1)

unfoldable pub decode_2 : (ℕ → ℕ → Frame) → List ℕ → Result ProtoError (Frame × List ℕ)
decode_2 frame src = do (a, src1) ← take_var_int src; decode_1 (frame a) src1

unfoldable pub decode_3 : (ℕ → ℕ → ℕ → Frame) → List ℕ → Result ProtoError (Frame × List ℕ)
decode_3 frame src = do (a, src1) ← take_var_int src; decode_2 (frame a) src1

-- The `match` on the type byte.
unfoldable pub decode_body : ℕ → List ℕ → Result ProtoError (Frame × List ℕ)
decode_body frame_type src =
    if frame_type == 0x00
    then decode_stream src
    else if frame_type == 0x01
    then decode_2 reset_stream src
    else if frame_type == 0x02
    then ok (ping, src)
    else if frame_type == 0x03
    then decode_close src
    else if frame_type == 0x04
    then decode_1 open_stream src
    else if frame_type == 0x05
    then decode_3 settings src
    else if frame_type == 0x06
    then decode_1 max_data src
    else if frame_type == 0x07
    then decode_2 max_stream_data src
    else if frame_type == 0x08
    then decode_1 stop_sending src
    else err (unknown_frame_type frame_type)

-- `decode` up to its last test: a frame and the bytes that are left.
unfoldable pub decode_front : List ℕ → Result ProtoError (Frame × List ℕ)
decode_front [] = err unexpected_eof
decode_front (frame_type ∷ src) = decode_body frame_type src

-- `if src.has_remaining()`
abbrev pub whole : Frame × List ℕ → Result ProtoError Frame
whole (frame, []) = ok frame
whole (frame, b ∷ bs) = err (trailing_bytes (length (b ∷ bs)))

unfoldable pub decode : List ℕ → Result ProtoError Frame
decode src = decode_front src >>= whole
