-- ===== src/Connection/State.antt =====
-- The state that muxtls/src/connection.rs shares between its tasks. An `Arc<StreamState>` is the
-- identifier of its stream, and the states stand in a heap by identifier: identifiers are never used
-- twice, so two references with one identifier are one state. Locks make each operation one step.
use muxtls.Base.{ℕ, Bool, true, false, Option, none, List, [], ◌==◌, if◌then◌else◌}
use muxtls.Proto.Frame.{Frame}
use muxtls.Flow.{ReceiveWindow}
use muxtls.Flow

-- A frame's payload that waits for the application. Both permits cover `permits` bytes.
pub record InboundChunk : Type 0 where
  pub bytes : List ℕ
  -- `ReceiveBuffer::Page`, to which small frames are added, or `ReceiveBuffer::Shared`.
  pub is_page : Bool
  pub permits : ℕ

pub record InboundState : Type 0 where
  pub chunks : List InboundChunk
  pub reset_error : Option ℕ
  pub fin_received : Bool
  pub connection_closed : Bool

-- Without the semaphores.
pub record StreamState : Type 0 where
  pub inbound : InboundState
  pub receive_window : ReceiveWindow
  pub peer_limit : ℕ
  pub sent : ℕ
  -- `send_lock` is taken.
  pub send_locked : Bool
  pub send_terminal : Bool
  pub send_dropped : Bool
  pub recv_dropped : Bool
  pub send_complete : Bool
  pub send_dispatched : Bool
  pub reset_queued : Bool
  pub recv_terminal : Bool
  pub recv_discarded : Bool
  pub send_handles : ℕ
  pub send_mode : ℕ
  pub recv_mode : ℕ
  pub recv_handles : ℕ
  pub open_permit : Bool

-- `StreamState::new`.
unfoldable pub new_stream : ℕ → StreamState
new_stream max_inbound_stream_bytes = record {
  inbound = record {
    chunks = [];
    reset_error = none;
    fin_received = false;
    connection_closed = false;
  };
  receive_window = Flow.new max_inbound_stream_bytes;
  peer_limit = 0;
  sent = 0;
  send_locked = false;
  send_terminal = false;
  send_dropped = false;
  recv_dropped = false;
  send_complete = false;
  send_dispatched = false;
  reset_queued = false;
  recv_terminal = false;
  recv_discarded = false;
  send_handles = 0;
  send_mode = 0;
  recv_mode = 0;
  recv_handles = 0;
  open_permit = true;
}

-- Bytes that wait to be sent. It holds one permit for a frame of the connection and one for a frame
-- of the stream, and `permits` for bytes of each; dropping it gives them back.
pub record OutboundChunk : Type 0 where
  pub stream_id : ℕ
  pub payload : List ℕ
  pub fin : Bool
  pub permits : ℕ

pub record WriterQueues : Type 0 where
  pub by_stream : List (ℕ × List OutboundChunk)
  pub ready : List ℕ
  pub control : List Frame
  pub close_frame : Option Frame
  pub graceful_close : Bool
  pub closing : Bool
  pub peer_settings : Bool
  pub peer_max_frame : ℕ
  pub peer_initial_stream_limit : ℕ
  pub peer_limit : ℕ
  pub sent : ℕ
  pub control_turn : Bool
  -- The keys of the map, in the order in which it is iterated; the values are weak references.
  pub receive_windows : List ℕ

abbrev pub Heap : Type 0
Heap = ℕ → StreamState

-- A write to the state of one stream.
abbrev pub update : Heap → ℕ → StreamState → Heap
update heap id s j = if id == j then s else heap j

-- What the writer task works on: `WriterState` and the states that its queues refer to.
pub record Writer : Type 0 where
  pub max_control_frames : ℕ
  pub queues : WriterQueues
  pub receive_window : ReceiveWindow
  pub states : Heap
