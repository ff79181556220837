-- ===== src/Connection/Shared.antt =====
-- `ConnectionShared` of muxtls/src/connection.rs: the table of the streams, the flags of the connection,
-- and the operations that open, reset, retire and close. Each takes the locks that it needs at once,
-- so it is one step. A state that no reference holds any more stays in the heap, where nothing reads it.
pub mod Streams
pub mod Send
pub mod Close
pub mod Ended
pub mod Handles
pub mod Frames
pub mod Table
use muxtls.Base.{ℕ, ◌+◌, ◌-◌, ◌/◌, ◌%◌, ◌^◌, Bool, true, false, not, ◌&&◌, ◌||◌, Option, none, some}
use muxtls.Base.{List, [], ◌∷◌, ◌++◌, length, ltb, leb, ◌==◌, if◌then◌else◌}
use muxtls.Base.{Result, ok, err, ◌>>=◌, ◌>>◌, fail_if, ok_or, map_err}
use muxtls.Base.Maps.{remove}
use muxtls.Base.Ids.{mem, erase}
use muxtls.Proto.VarInt
use muxtls.Proto.Frame.{
  Frame, reset_stream, connection_close, open_stream, settings, checked_var_int,
}
use muxtls.Limits.{Limits}
use muxtls.Connection.Permits.{Semaphores}
use muxtls.Connection.State.{StreamState, OutboundChunk, WriterQueues, Writer, update, new_stream}
use muxtls.Flow
use muxtls.Connection.Writer.{entry, shutdown, new_queues}
use muxtls.Connection.Receive.{Receiving, set_inbound}
use muxtls.Error.{
  Error, protocol, wire, limit_exceeded, connection_closed, stream_id_exhausted, value_too_large,
  close_size, close_reason_too_large,
}

-- `take_stream_id`: the identifier and the next one.
unfoldable pub take_stream_id : ℕ → Result Error (ℕ × ℕ)
take_stream_id next =
    if leb next VarInt.max_value then ok (next, (next + 2) % 2 ^ 64) else err stream_id_exhausted

-- The encoded size that `validate_close_reason` computes.
unfoldable pub validate_close_reason : ℕ → ℕ → List ℕ → Result Error (Unit {0})
unfolding checked_var_int
validate_close_reason max_frame_size error_code reason = do
  code ← map_err wire (checked_var_int error_code)
  reason_len ←
      map_err (λ _. limit_exceeded close_reason_too_large) (checked_var_int (length reason))
  let encoded_len = 1 + VarInt.encoded_len code + VarInt.encoded_len reason_len + length reason
  fail_if (ltb max_frame_size encoded_len) (limit_exceeded (close_size encoded_len max_frame_size))

-- "connection error"
abbrev pub fallback_reason : List ℕ
fallback_reason =
    99 ∷ 111 ∷ 110 ∷ 110 ∷ 101 ∷ 99 ∷ 116 ∷ 105 ∷ 111 ∷ 110 ∷ 32 ∷ 101 ∷ 114 ∷ 114 ∷ 111 ∷ 114 ∷ []

abbrev pub is_ok : {A : Type 0} → Result Error A → Bool
is_ok (ok a) = true
is_ok (err e) = false

unfoldable pub fit_close_reason : ℕ → ℕ → List ℕ → Result Error (List ℕ)
fit_close_reason max_frame_size error_code reason =
    if is_ok (validate_close_reason max_frame_size error_code reason)
    then ok reason
    else if is_ok (validate_close_reason max_frame_size error_code fallback_reason)
    then ok fallback_reason
    else (validate_close_reason max_frame_size error_code [] >> ok [])

-- `release_handle`: the number of handles that is left, and whether that was the last.
unfoldable pub release_handle : ℕ → ℕ × Bool
release_handle current = if current == 0 then (0, false) else (current - 1, current == 1)

module _ (S : Semaphores) where
  pub record StreamPermits : Type 0 where
    pub inbound_stream_bytes : S.Semaphore
    pub outbound_stream_bytes : S.Semaphore
    pub outbound_stream_frames : S.Semaphore

  pub record Shared : Type 0 where
    pub limits : Limits
    pub local_parity : ℕ
    pub next_local_stream_id : ℕ
    pub next_remote_stream_id : ℕ
    -- The keys of the map; the states stand in the writer's heap.
    pub streams : List ℕ
    pub incoming_streams : List ℕ
    pub writer : Writer
    pub stream_permits : ℕ → StreamPermits
    pub closed : Bool
    pub terminated : Bool
    pub cleanup_started : Bool
    pub open_streams : S.Semaphore
    pub inbound_conn_bytes : S.Semaphore
    pub outbound_conn_bytes : S.Semaphore
    pub outbound_frames : S.Semaphore
    pub stats_opened_streams : ℕ
    pub stats_frames_sent : ℕ
    pub stats_frames_received : ℕ
    pub stats_bytes_sent : ℕ
    pub stats_bytes_received : ℕ
    pub connection_handles : ℕ
    -- The tasks have ended.
    pub joined : Bool

  -- The state of `Connection::new`. The client has the even identifiers.
  unfoldable pub new_shared : Limits → Bool → Shared
  new_shared limits is_client =
      let parity = if is_client then 0 else 1 in
      record {
        limits = limits;
        local_parity = parity;
        next_local_stream_id = parity;
        next_remote_stream_id = 1 - parity;
        streams = [];
        incoming_streams = [];
        writer = record {
          max_control_frames = limits.max_control_frames;
          queues = record new_queues {
            control =
                settings limits.max_inbound_connection_bytes limits.max_inbound_stream_bytes
                  limits.max_frame_size
                ∷ [];
          };
          receive_window = Flow.new limits.max_inbound_connection_bytes;
          states = λ _. new_stream limits.max_inbound_stream_bytes;
        };
        stream_permits = λ _. record {
          inbound_stream_bytes = S.new 0;
          outbound_stream_bytes = S.new 0;
          outbound_stream_frames = S.new 0;
        };
        closed = false;
        terminated = false;
        cleanup_started = false;
        open_streams = S.new limits.max_open_streams;
        inbound_conn_bytes = S.new limits.max_inbound_connection_bytes;
        outbound_conn_bytes = S.new limits.max_outbound_connection_bytes;
        outbound_frames = S.new limits.max_queued_outbound_frames;
        stats_opened_streams = 0;
        stats_frames_sent = 0;
        stats_frames_received = 0;
        stats_bytes_sent = 0;
        stats_bytes_received = 0;
        connection_handles = 1;
        joined = false;
      }

  unfoldable pub ensure_open : Shared → Result Error (Unit {0})
  ensure_open sh = fail_if sh.closed connection_closed

  abbrev pub set_queues : WriterQueues → Shared → Shared
  set_queues queues sh = record sh { writer = record sh.writer { queues = queues } }

  abbrev pub set_state : ℕ → StreamState → Shared → Shared
  set_state id s sh = record sh {
    writer = record sh.writer { states = update sh.writer.states id s };
  }

  abbrev pub set_permits : ℕ → StreamPermits → Shared → Shared
  set_permits id p sh = record sh {
    stream_permits = λ j. if id == j then p else sh.stream_permits j;
  }

  -- The receive half of a stream, and its return.
  abbrev pub receiving : ℕ → Shared → Receiving S
  receiving id sh = record {
    max_inbound_stream_bytes = sh.limits.max_inbound_stream_bytes;
    connection_window = sh.writer.receive_window;
    inbound_conn_bytes = sh.inbound_conn_bytes;
    inbound_stream_bytes = (sh.stream_permits id).inbound_stream_bytes;
    state = sh.writer.states id;
  }

  abbrev pub restore : ℕ → Receiving S → Shared → Shared
  restore id r sh =
      record (set_permits id
        (record (sh.stream_permits id) { inbound_stream_bytes = r.inbound_stream_bytes }) sh) {
          inbound_conn_bytes = r.inbound_conn_bytes;
          writer = record sh.writer {
            receive_window = r.connection_window;
            states = update sh.writer.states id r.state;
          };
        }

  -- A chunk that is dropped gives back its permits.
  unfoldable pub drop_outbound : List OutboundChunk → Shared → Shared
  drop_outbound [] sh = sh
  drop_outbound (c ∷ cs) sh =
      let p = sh.stream_permits c.stream_id in
      drop_outbound cs
        (record (set_permits c.stream_id
          (record p {
            outbound_stream_frames = S.add_permits p.outbound_stream_frames 1;
            outbound_stream_bytes = S.add_permits p.outbound_stream_bytes c.permits;
          })
          sh) {
            outbound_frames = S.add_permits sh.outbound_frames 1;
            outbound_conn_bytes = S.add_permits sh.outbound_conn_bytes c.permits;
          })

  unfoldable pub drop_queues : List (ℕ × List OutboundChunk) → Shared → Shared
  unfolding drop_outbound
  drop_queues [] sh = sh
  drop_queues ((id, cs) ∷ qs) sh = drop_queues qs (drop_outbound cs sh)
