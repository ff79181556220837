-- ===== src/Limits.antt =====
-- muxtls/src/limits.rs: the limits of a connection and their validation. A duration is its number of
-- nanoseconds, and `usize` has 64 bits; `max_permits` stands for tokio's `Semaphore::MAX_PERMITS`.
pub mod Valid
use muxtls.Base.{ℕ, ◌+◌, ◌-◌, ◌*◌, ◌/◌, ◌^◌, Bool, ◌||◌, Option, none, some}
use muxtls.Base.{Result, ok, err, ◌>>=◌, ◌>>◌, fail_if, ok_or, ltb, leb, ◌==◌, if◌then◌else◌}
use muxtls.Error.{
  Error, invalid_limit, Field, Reason, drain_range, one_frame_per_stream, control_overflow,
  control_minimum, must_be_positive, must_be_at_least, must_be_at_most, must_not_exceed,
}
use muxtls.Error

pub record Limits : Type 0 where
  pub drain_timeout : ℕ
  pub max_queued_outbound_frames : ℕ
  pub max_control_frames : ℕ
  pub max_frame_size : ℕ
  pub max_open_streams : ℕ
  pub max_inbound_connection_bytes : ℕ
  pub max_outbound_connection_bytes : ℕ
  pub max_inbound_stream_bytes : ℕ
  pub max_outbound_stream_bytes : ℕ

abbrev pub from_secs : ℕ → ℕ
from_secs s = s * 1_000_000_000

abbrev pub u32_max : ℕ
u32_max = 2 ^ 32 - 1

abbrev pub usize_max : ℕ
usize_max = 2 ^ 64 - 1

abbrev pub min_frame_size : ℕ
min_frame_size = 25

-- `Limits::default`.
abbrev pub default : Limits
default = record {
  drain_timeout = from_secs 5;
  max_queued_outbound_frames = 1024;
  max_control_frames = 512;
  max_frame_size = 64 * 1024;
  max_open_streams = 128;
  max_inbound_connection_bytes = 4 * 1024 * 1024;
  max_outbound_connection_bytes = 4 * 1024 * 1024;
  max_inbound_stream_bytes = 256 * 1024;
  max_outbound_stream_bytes = 256 * 1024;
}

unfoldable pub validate_nonzero : Field → ℕ → Result Error (Unit {0})
validate_nonzero field value = fail_if (value == 0) (invalid_limit field must_be_positive)

abbrev pub checked_mul : ℕ → ℕ → Option ℕ
checked_mul a b = if leb (a * b) usize_max then some (a * b) else none

abbrev pub checked_add : ℕ → ℕ → Option ℕ
checked_add a b = if leb (a + b) usize_max then some (a + b) else none

-- `max_open_streams.checked_mul(3).and_then(|n| n.checked_add(2))`
unfoldable pub minimum_controls : ℕ → Option ℕ
minimum_controls streams = elim (checked_mul streams 3) [ none ↦ none | some n ↦ checked_add n 2 ]

module _ (max_permits : ℕ) where
  unfoldable pub validate_semaphore : Field → ℕ → Result Error (Unit {0})
  validate_semaphore field value = do
    validate_nonzero field value
    fail_if (ltb max_permits value) (invalid_limit field (must_be_at_most max_permits))

  unfoldable pub validate_byte_limit : Field → ℕ → Result Error (Unit {0})
  validate_byte_limit field value = do
    validate_semaphore field value
    fail_if (ltb u32_max value) (invalid_limit field (must_be_at_most u32_max))

  unfoldable pub validate : Limits → Result Error (Unit {0})
  validate l = do
    fail_if (l.drain_timeout == 0 || ltb (from_secs 3600) l.drain_timeout)
        (invalid_limit Field.drain_timeout drain_range)
    fail_if (ltb l.max_frame_size min_frame_size)
        (invalid_limit Field.max_frame_size (must_be_at_least min_frame_size))
    fail_if (ltb u32_max l.max_frame_size)
        (invalid_limit Field.max_frame_size (must_be_at_most u32_max))
    validate_semaphore Field.max_open_streams l.max_open_streams
    validate_semaphore Field.max_queued_outbound_frames l.max_queued_outbound_frames
    validate_semaphore Field.max_control_frames l.max_control_frames
    fail_if (ltb l.max_queued_outbound_frames l.max_open_streams)
        (invalid_limit Field.max_queued_outbound_frames one_frame_per_stream)
    minimum ←
        ok_or (minimum_controls l.max_open_streams)
          (invalid_limit Field.max_open_streams control_overflow)
    fail_if (ltb l.max_control_frames minimum)
        (invalid_limit Field.max_control_frames control_minimum)
    validate_byte_limit Field.max_inbound_connection_bytes l.max_inbound_connection_bytes
    validate_byte_limit Field.max_outbound_connection_bytes l.max_outbound_connection_bytes
    validate_byte_limit Field.max_inbound_stream_bytes l.max_inbound_stream_bytes
    validate_byte_limit Field.max_outbound_stream_bytes l.max_outbound_stream_bytes
    fail_if (ltb l.max_inbound_connection_bytes l.max_inbound_stream_bytes) (
        invalid_limit Field.max_inbound_stream_bytes
          (must_not_exceed Field.max_inbound_connection_bytes))
    fail_if (ltb l.max_outbound_connection_bytes l.max_outbound_stream_bytes) (
        invalid_limit Field.max_outbound_stream_bytes
          (must_not_exceed Field.max_outbound_connection_bytes))
