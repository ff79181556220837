-- ===== src/Limits/Valid.antt =====
-- Exactly which limits pass validation.
use muxtls.Base.{ℕ, ◌+◌, ◌*◌, ◌≤◌, ◌<◌, ◌≡◌, arith, ◌⊎◌, ◌↔◌, some, none, ok}
use muxtls.Limits.{
  Limits, from_secs, u32_max, min_frame_size, validate_nonzero, validate_semaphore,
  validate_byte_limit, minimum_controls, validate, usize_max,
}
use muxtls.Error.{Field}

-- A permit count and a byte count that tokio and the wire can carry.
abbrev pub IsCount : ℕ → ℕ → Type 0
IsCount max_permits n = (0 < n) × (n ≤ max_permits)

abbrev pub IsByteLimit : ℕ → ℕ → Type 0
IsByteLimit max_permits n = (0 < n) × (n ≤ max_permits) × (n ≤ u32_max)

pub record IsValid (max_permits : ℕ) (l : Limits) : Type 0 where
  pub drain : (0 < l.drain_timeout) × (l.drain_timeout ≤ from_secs 3600)
  pub frame : (min_frame_size ≤ l.max_frame_size) × (l.max_frame_size ≤ u32_max)
  pub streams : IsCount max_permits l.max_open_streams
  pub queued : IsCount max_permits l.max_queued_outbound_frames
  pub controls : IsCount max_permits l.max_control_frames
  pub one_each : l.max_open_streams ≤ l.max_queued_outbound_frames
  pub control_room : 3 * l.max_open_streams + 2 ≤ l.max_control_frames
  pub inbound : IsByteLimit max_permits l.max_inbound_connection_bytes
  pub outbound : IsByteLimit max_permits l.max_outbound_connection_bytes
  pub inbound_stream : IsByteLimit max_permits l.max_inbound_stream_bytes
  pub outbound_stream : IsByteLimit max_permits l.max_outbound_stream_bytes
  pub inbound_shared : l.max_inbound_stream_bytes ≤ l.max_inbound_connection_bytes
  pub outbound_shared : l.max_outbound_stream_bytes ≤ l.max_outbound_connection_bytes

IsByteLimit-ok : (p : ℕ) (f : Field) (n : ℕ) → validate_byte_limit p f n ≡ ok tt → IsByteLimit p n
unfolding validate_byte_limit validate_semaphore validate_nonzero
IsByteLimit-ok p f n e = ground arith

byte_limit_pass : (p : ℕ) (f : Field) (n : ℕ) → IsByteLimit p n → validate_byte_limit p f n ≡ ok tt
unfolding validate_byte_limit validate_semaphore validate_nonzero
byte_limit_pass p f n h = ground arith

semaphore_ok : (p : ℕ) (f : Field) (n : ℕ) → validate_semaphore p f n ≡ ok tt → IsCount p n
unfolding validate_semaphore validate_nonzero
semaphore_ok p f n e = ground arith

semaphore_pass : (p : ℕ) (f : Field) (n : ℕ) → IsCount p n → validate_semaphore p f n ≡ ok tt
unfolding validate_semaphore validate_nonzero
semaphore_pass p f n h = ground arith

controls_value : (n : ℕ) → 3 * n + 2 ≤ usize_max → minimum_controls n ≡ some (3 * n + 2)
unfolding minimum_controls
controls_value n h = ground arith

-- Limits with every bound and relation satisfied pass; `usize` holds any number of permits.
validate_complete : (p : ℕ) (l : Limits) → p ≤ usize_max → IsValid p l → validate p l ≡ ok tt
unfolding validate
validate_complete p l wide v = ground (
  arith,
  semaphore_pass p Field.max_open_streams l.max_open_streams v.streams,
  semaphore_pass p Field.max_queued_outbound_frames l.max_queued_outbound_frames v.queued,
  semaphore_pass p Field.max_control_frames l.max_control_frames v.controls,
  controls_value l.max_open_streams (omega arith),
  byte_limit_pass p Field.max_inbound_connection_bytes _ v.inbound,
  byte_limit_pass p Field.max_outbound_connection_bytes _ v.outbound,
  byte_limit_pass p Field.max_inbound_stream_bytes _ v.inbound_stream,
  byte_limit_pass p Field.max_outbound_stream_bytes _ v.outbound_stream,
)

controls_shape : (n : ℕ) → (minimum_controls n ≡ none) ⊎ (minimum_controls n ≡ some (3 * n + 2))
unfolding minimum_controls
controls_shape n = ground arith

-- Limits that pass have every bound and relation.
validate_sound : (p : ℕ) (l : Limits) → validate p l ≡ ok tt → IsValid p l
unfolding validate
validate_sound p l e = ground (
  arith,
  semaphore_ok p Field.max_open_streams l.max_open_streams,
  semaphore_ok p Field.max_queued_outbound_frames l.max_queued_outbound_frames,
  semaphore_ok p Field.max_control_frames l.max_control_frames,
  controls_shape l.max_open_streams,
  IsByteLimit-ok p Field.max_inbound_connection_bytes l.max_inbound_connection_bytes,
  IsByteLimit-ok p Field.max_outbound_connection_bytes l.max_outbound_connection_bytes,
  IsByteLimit-ok p Field.max_inbound_stream_bytes l.max_inbound_stream_bytes,
  IsByteLimit-ok p Field.max_outbound_stream_bytes l.max_outbound_stream_bytes,
)

-- Validation accepts exactly the limits with every bound and relation, for every number of permits
-- that `usize` can hold.
pub validate_iff : (p : ℕ) (l : Limits) → p ≤ usize_max → (validate p l ≡ ok tt) ↔ IsValid p l
validate_iff p l wide = (validate_sound p l, validate_complete p l wide)
