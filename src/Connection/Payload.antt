-- ===== src/Connection/Payload.antt =====
-- `max_stream_payload` of muxtls/src/connection.rs: how much of a write fits into one frame. The loop
-- halves its interval, which is below 2 ^ 32 at the start.
pub mod Greatest
use muxtls.Base.{ℕ, zero, suc, ◌+◌, ◌-◌, ◌/◌, min, Bool, false, ◌&&◌, ltb, leb, if◌then◌else◌}
use muxtls.Proto.VarInt
use muxtls.Limits.{Limits, u32_max}

-- Whether a frame of the stream with `size` bytes is within the frame size.
unfoldable pub fits : (max_frame_size id size : ℕ) → Bool
fits max_frame_size id size =
    leb id VarInt.max_value
    && (leb size VarInt.max_value
        && leb (1 + VarInt.encoded_len id + 1 + VarInt.encoded_len size + size) max_frame_size)

-- `low + (high - low).div_ceil(2)`
abbrev pub middle : ℕ → ℕ → ℕ
middle low high = low + (high - low + 1) / 2

-- `fuel` bounds the number of rounds.
unfoldable pub search : (fuel max_frame_size id low high : ℕ) → ℕ
search zero max_frame_size id low high = low
search (suc fuel) max_frame_size id low high =
    let fitting = fits max_frame_size id (middle low high) in
    let rest =
      search fuel max_frame_size id (if fitting then middle low high else low)
        (if fitting then high else middle low high - 1) in
    if ltb low high then rest else low

unfoldable pub max_stream_payload : Limits → ℕ → ℕ
max_stream_payload limits id =
    min (search 32 limits.max_frame_size id 0 (min limits.max_frame_size u32_max))
      limits.max_outbound_stream_bytes
