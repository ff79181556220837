-- ===== src/Tests/Payload.antt =====
-- What fits into one frame: of a write, and of the reason of a close.
use muxtls.Base.{ℕ, ◌≤◌, ◌≡◌, refl, arith, false, ok, List, [], ◌∷◌, ◌↔◌}
use muxtls.Proto.VarInt
use muxtls.Proto.Frame
use muxtls.Proto.Frame.{stream}
use muxtls.Limits.{Limits, default}
use muxtls.Connection.Payload.{max_stream_payload, search, fits}
use muxtls.Connection.Shared.{fit_close_reason, validate_close_reason}
use muxtls.Connection.Shared.Close.{fit_close_reason-valid}
use muxtls.Connection.Payload.Greatest.{max_stream_payload_iff}

abbrev small_frames : Limits
small_frames = record default { max_frame_size = 70 }

-- 70 bytes hold a type, an identifier, flags, a length of two bytes and 65 bytes.
sixty_five : max_stream_payload small_frames 4 ≡ 65
unfolding max_stream_payload search fits VarInt.encoded_len
sixty_five = refl

max_stream_payload_iff_example :
    (size : ℕ) × (Frame.encoded_len (stream 4 false (1 ∷ 2 ∷ [])) ≡ ok size)
    × ((size ≤ 70) ↔ (2 ≤ max_stream_payload small_frames 4))
max_stream_payload_iff_example =
    max_stream_payload_iff small_frames 4 false (1 ∷ 2 ∷ []) (omega arith) (omega arith)
      (omega arith) (omega arith) (omega arith)

fit_close_reason-valid_example :
    (fitted : List ℕ) × (fit_close_reason 25 0 (33 ∷ []) ≡ ok fitted)
    × (validate_close_reason 25 0 fitted ≡ ok tt)
    × (validate_close_reason 25 0 (33 ∷ []) ≡ ok tt → fitted ≡ 33 ∷ [])
fit_close_reason-valid_example = fit_close_reason-valid 25 0 (33 ∷ []) (omega arith) (omega arith)
