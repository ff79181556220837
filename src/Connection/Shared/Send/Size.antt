-- ===== src/Connection/Shared/Send/Size.antt =====
-- The chunks that `queue_stream_chunk` takes for their size.
use muxtls.Base.{ℕ, ◌≤◌, ◌≡◌, refl, arith, Bool, List, inl, inr, Bool-cases, ◌↔◌}
use muxtls.Base.{ok, length, leb, ltb, fail_if, ◌>>◌, ◌<◌, ◌^◌, ◌+◌}
use muxtls.Error.{Error, limit_exceeded, frame_size, outbound_stream_budget}
use muxtls.Proto.VarInt.{IsVarInt, from_u64, encoded_len}
use muxtls.Proto.Frame.{stream, checked_var_int}
use muxtls.Proto.Frame
use muxtls.Limits.{Limits, min_frame_size, u32_max}
use muxtls.Connection.Payload.{max_stream_payload}
use muxtls.Connection.Payload.Greatest
use muxtls.Connection.Payload.Greatest.{max_stream_payload_iff}
use muxtls.Connection.Shared.Send.{new_sending, check_chunk}

max_stream_payload-le :
    (limits : Limits) (id : ℕ) → max_stream_payload limits id ≤ limits.max_outbound_stream_bytes
unfolding max_stream_payload
max_stream_payload-le limits id = omega arith

fits_wire : (id : ℕ) → IsVarInt id → checked_var_int id ≡ ok id
unfolding checked_var_int from_u64
fits_wire id h = ground arith

checks :
    (limits : Limits) (id : ℕ) (fin : Bool) (payload : List ℕ) (size : ℕ)
    → IsVarInt id
    → Frame.encoded_len (stream id fin payload) ≡ ok size
    → check_chunk limits (new_sending id payload fin) ≡ (
        fail_if
          (ltb limits.max_frame_size size)
          (limit_exceeded (frame_size size limits.max_frame_size))
        >> fail_if
            (ltb limits.max_outbound_stream_bytes (length payload))
            (limit_exceeded outbound_stream_budget))
unfolding check_chunk
checks limits id fin payload size h e = rw (fits_wire id h) (rw e refl)

both_pass :
    (a b : Error) (m n x y : ℕ)
    → ((fail_if (ltb m x) a >> fail_if (ltb n y) b) ≡ ok tt) ↔ ((x ≤ m) × (y ≤ n))
both_pass a b m n x y = (λ c. ground arith, λ c. ground arith)

-- Under validated limits, for an identifier that the wire carries and a payload of a length below 2^62,
-- the checks of `queue_stream_chunk` pass exactly when the payload has at most `max_stream_payload` bytes.
pub check_chunk_iff :
    (limits : Limits) (id : ℕ) (fin : Bool) (payload : List ℕ)
    → IsVarInt id
    → min_frame_size ≤ limits.max_frame_size
    → limits.max_frame_size ≤ u32_max
    → limits.max_outbound_stream_bytes ≤ u32_max
    → length payload < 2 ^ 62
    → (check_chunk limits (new_sending id payload fin) ≡ ok tt)
      ↔ (length payload ≤ max_stream_payload limits id)
check_chunk_iff limits id fin payload h small large outbound short =
    let le = max_stream_payload-le limits id in
    elim (Bool-cases (leb (length payload) limits.max_outbound_stream_bytes)) [
      | inl within ↦
          let (size, e, iff) =
            max_stream_payload_iff limits id fin payload h small large outbound (ground arith) in
          let (to, from) =
            both_pass _ _ limits.max_frame_size limits.max_outbound_stream_bytes size
              (length payload) in
          (
            λ c. iff.0 (to (rw (checks limits id fin payload size h e) at c)).0,
            λ c. rw (checks limits id fin payload size h e) (from (iff.1 c, ground arith)),
          )
      | inr over ↦
          let n = length payload in
          let size = 1 + encoded_len id + 1 + encoded_len n + n in
          let e = Greatest.frame_size id fin payload (ground arith) in
          let (to, from) =
            both_pass (limit_exceeded (frame_size size limits.max_frame_size))
              (limit_exceeded outbound_stream_budget) limits.max_frame_size
              limits.max_outbound_stream_bytes size n in
          (
            λ c. absurd (ground (arith, (to (rw (checks limits id fin payload size h e) at c)).1)),
            λ c. absurd (ground (arith, le)),
          )
    ]
