-- ===== src/Connection/Writer.antt =====
-- `WriterState` of muxtls/src/connection.rs: the queues of outgoing frames and the choice of the next.
pub mod Next
pub mod Control
pub mod Waits
pub mod Schedule
pub mod Credit
pub mod Delivery
pub mod Permits
use muxtls.Base.{
  ℕ, zero, suc, ◌+◌, ◌-◌, ◌≤◌, min, max, Bool, true, false, not, ◌&&◌, ◌||◌, Option, none, some,
}
use muxtls.Base.{List, [], ◌∷◌, ◌++◌, length, take, drop, ltb, leb, ◌==◌, if◌then◌else◌}
use muxtls.Base.Maps.{lookup, insert, remove}
use muxtls.Proto.Frame.{
  Frame, stream, settings, open_stream, max_data, max_stream_data, ping, connection_close,
}
use muxtls.Proto.VarInt
use muxtls.Proto.Utf8.Truncate.{floor_boundary}
use muxtls.Flow
use muxtls.Flow.{ReceiveWindow, fetch_add}
use muxtls.Limits.{min_frame_size}
use muxtls.Connection.State.{StreamState, OutboundChunk, WriterQueues, Writer, Heap, update}

-- `WriterState::new`.
unfoldable pub new_queues : WriterQueues
new_queues = record {
  by_stream = [];
  ready = [];
  control = [];
  close_frame = none;
  graceful_close = false;
  closing = false;
  peer_settings = false;
  peer_max_frame = min_frame_size;
  peer_initial_stream_limit = 0;
  peer_limit = 0;
  sent = 0;
  control_turn = true;
  receive_windows = [];
}

abbrev pub is_empty {ℓ} : {A : Type ℓ} → List A → Bool
is_empty [] = true
is_empty (x ∷ xs) = false

abbrev pub or_default {ℓ} : {A : Type ℓ} → Option (List A) → List A
or_default none = []
or_default (some q) = q

-- `entry(stream_id).or_default()`, read.
abbrev pub entry : ℕ → List (ℕ × List OutboundChunk) → List OutboundChunk
entry id m = or_default (lookup id m)

-- The flag is false when the chunk is refused, and then dropped.
unfoldable pub enqueue_data : Writer → ℕ → OutboundChunk → Writer × Bool
enqueue_data w id chunk =
    let queues = w.queues in
    let q = entry id queues.by_stream in
    if queues.closing || (w.states chunk.stream_id).send_terminal then (w, false) else (
      record w {
        queues = record queues {
          by_stream = insert id (q ++ (chunk ∷ [])) queues.by_stream;
          ready = if is_empty q then queues.ready ++ (id ∷ []) else queues.ready;
        };
      },
      true,
    )

abbrev pub is_ping : Frame → Bool
is_ping ping = true
is_ping _ = false

unfoldable pub any_ping : List Frame → Bool
any_ping [] = false
any_ping (f ∷ fs) = is_ping f || any_ping fs

unfoldable pub enqueue_control : Writer → Frame → Writer × Bool
unfolding any_ping
enqueue_control w frame =
    let queues = w.queues in
    if queues.closing
    then (w, false)
    else if is_ping frame && any_ping queues.control
    then (w, true)
    else if leb w.max_control_frames (length queues.control)
    then (w, false)
    else (record w { queues = record queues { control = queues.control ++ (frame ∷ []) } }, true)

unfoldable pub shutdown : Writer → Writer
shutdown w = record w {
  queues = record (w.queues) {
    by_stream = [];
    ready = [];
    control = [];
    receive_windows = [];
    close_frame = none;
    graceful_close = false;
    closing = true;
  };
}

-- The reason of a close frame, cut to the peer's frame size at a character boundary.
unfoldable pub fit_reason : ℕ → Frame → Frame
fit_reason peer_max_frame (connection_close code reason) =
    let maximum = peer_max_frame - (1 + VarInt.encoded_len code + 8) in
    if ltb maximum (length reason)
    then connection_close code (take (floor_boundary reason maximum) reason)
    else connection_close code reason
fit_reason peer_max_frame frame = frame

-- `close_frame.take()`, on the field's value.
unfoldable pub taken_frame : WriterQueues → Option Frame → WriterQueues × Option Frame
taken_frame queues none = (queues, none)
taken_frame queues (some frame) =
    (record queues { close_frame = none }, some (fit_reason queues.peer_max_frame frame))

unfoldable pub take_close_frame : WriterQueues → WriterQueues × Option Frame
unfolding fit_reason taken_frame
take_close_frame queues = taken_frame queues queues.close_frame
