-- ===== src/Connection/Tasks.antt =====
-- The tasks of a connection in muxtls/src/connection.rs, `spawn_connection_tasks`: what each does in one
-- round of its loop, and when the loop is left. What a round waits for, the transport, a timer or a
-- notification, comes in as an argument.

pub mod Retire
pub mod Balance
use muxtls.Base.{
  ℕ, ◌+◌, ◌%◌, ◌^◌, Bool, true, false, not, ◌&&◌, ◌||◌, Option, none, some, List, [], ◌∷◌,
}
use muxtls.Base.{◌++◌, Result, ok, err, length, ◌==◌, if◌then◌else◌}
use muxtls.Base.Ids.{mem}
use muxtls.Proto.Frame.{Frame, stream, reset_stream, ping, connection_close, encode}
use muxtls.Connection.Permits.{Semaphores}
use muxtls.Connection.State.{OutboundChunk, StreamState, Writer}
use muxtls.Connection.Writer.{enqueue_control}
use muxtls.Connection.Writer.Next.{Turn, sends, finished, again, waits, panics, next_frame}
use muxtls.Connection.Shared.{Shared, set_state, drop_outbound}
use muxtls.Connection.Shared.Streams.{try_retire_stream, mark_closed, initiate_close}
use muxtls.Connection.Shared.Handles.{handle_last_send_drop, handle_last_recv_drop, or_unchanged}
use muxtls.Connection.Shared.Frames.{handle_incoming_frame}
use muxtls.Error.{Error}

-- "connection idle timeout elapsed"
abbrev pub idle_reason : List ℕ
idle_reason =
    99 ∷ 111 ∷ 110 ∷ 110 ∷ 101 ∷ 99 ∷ 116 ∷ 105 ∷ 111 ∷ 110 ∷ 32 ∷ 105 ∷ 100 ∷ 108 ∷ 101 ∷ 32 ∷ 116
    ∷ 105 ∷ 109 ∷ 101 ∷ 111 ∷ 117 ∷ 116 ∷ 32 ∷ 101 ∷ 108 ∷ 97 ∷ 112 ∷ 115 ∷ 101 ∷ 100 ∷ []

-- "last connection handle dropped"
abbrev pub dropped_reason : List ℕ
dropped_reason =
    108 ∷ 97 ∷ 115 ∷ 116 ∷ 32 ∷ 99 ∷ 111 ∷ 110 ∷ 110 ∷ 101 ∷ 99 ∷ 116 ∷ 105 ∷ 111 ∷ 110 ∷ 32 ∷ 104
    ∷ 97 ∷ 110 ∷ 100 ∷ 108 ∷ 101 ∷ 32 ∷ 100 ∷ 114 ∷ 111 ∷ 112 ∷ 112 ∷ 101 ∷ 100 ∷ []

-- "protocol/runtime error: "
abbrev pub error_prefix : List ℕ
error_prefix =
    112 ∷ 114 ∷ 111 ∷ 116 ∷ 111 ∷ 99 ∷ 111 ∷ 108 ∷ 47 ∷ 114 ∷ 117 ∷ 110 ∷ 116 ∷ 105 ∷ 109 ∷ 101 ∷ 32
    ∷ 101 ∷ 114 ∷ 114 ∷ 111 ∷ 114 ∷ 58 ∷ 32 ∷ []

-- What the reader's `select!` gives, apart from the end of the connection.
pub data Item : Type 0 where
  received : List ℕ → Item
  decode_failure idle_timeout stream_ended : Item

-- What `sink.send` gives, or that the connection ended first.
pub data Delivery : Type 0 where
  delivered send_failure terminated_first : Delivery

-- The stream that a frame is the last of.
unfoldable pub terminal_id : Frame → Option ℕ
terminal_id (stream id true payload) = some id
terminal_id (reset_stream id code) = some id
terminal_id _ = none

abbrev pub is_close : Frame → Bool
is_close (connection_close code reason) = true
is_close _ = false

abbrev pub used_up : Option OutboundChunk → List OutboundChunk
used_up none = []
used_up (some c) = c ∷ []

module _ (S : Semaphores) where
  -- A round of a task: it starts another, waits, or leaves its loop.
  pub data Round : Type 0 where
    goes_on : Shared S → Round
    rests : Shared S → Round
    leaves : Shared S → Round

  unfoldable pub record_sent : ℕ → Shared S → Shared S
  record_sent size sh = record sh {
    stats_frames_sent = (sh.stats_frames_sent + 1) % 2 ^ 64;
    stats_bytes_sent = (sh.stats_bytes_sent + size) % 2 ^ 64;
  }

  unfoldable pub record_received : ℕ → Shared S → Shared S
  record_received size sh = record sh {
    stats_frames_received = (sh.stats_frames_received + 1) % 2 ^ 64;
    stats_bytes_received = (sh.stats_bytes_received + size) % 2 ^ 64;
  }

  -- The flags that the last handles have set are taken, for each stream of the table at the start.
  unfoldable pub clean_send : ℕ → Shared S → Shared S
  clean_send id sh =
      let s = sh.writer.states id in
      if s.send_dropped
      then handle_last_send_drop S id (set_state S id (record s { send_dropped = false }) sh)
      else sh

  unfoldable pub clean_recv : ℕ → Shared S → Shared S
  clean_recv id sh =
      let s = sh.writer.states id in
      if s.recv_dropped
      then handle_last_recv_drop S id (set_state S id (record s { recv_dropped = false }) sh)
      else sh

  unfoldable pub clean_streams : List ℕ → Shared S → Shared S
  unfolding clean_send clean_recv
  clean_streams [] sh = sh
  clean_streams (id ∷ ids) sh = clean_streams ids (clean_recv id (clean_send id sh))

  unfoldable pub cleanup_round : Shared S → Round
  unfolding clean_streams
  cleanup_round sh = if sh.terminated then leaves sh else rests (clean_streams sh.streams sh)

  -- `display` is the text of an error. What a frame has done before its error is left out.
  unfoldable pub reader_handles :
      (Error → List ℕ) → Result Error (Shared S × Bool) → Shared S → Round
  reader_handles display (ok (t, true)) sh = goes_on t
  reader_handles display (ok (t, false)) sh = leaves t
  reader_handles display (err e) sh =
      leaves (or_unchanged S sh (initiate_close S 1 (error_prefix ++ display e) sh))

  unfoldable pub reader_round : (Error → List ℕ) → Bool → Item → Shared S → Round
  unfolding reader_handles record_received
  reader_round display discarded item sh = if sh.terminated then leaves sh else elim item [
    | received bytes ↦
        let counted = record_received (length bytes) sh in
        reader_handles display (handle_incoming_frame S discarded bytes counted) counted
    | decode_failure ↦ leaves sh
    | idle_timeout ↦ leaves (or_unchanged S sh (initiate_close S 1 idle_reason sh))
    | stream_ended ↦ leaves sh
  ]

  -- A tick of the keepalive timer. A graceful close may come in while the tick waits for the queues, and
  -- its drain then goes on.
  unfoldable pub keepalive_tick : Shared S → Round
  keepalive_tick sh =
      let (w, queued) = enqueue_control sh.writer ping in
      if queued
      then goes_on (record sh { writer = w })
      else leaves (if sh.closed then sh else mark_closed S sh)

  unfoldable pub keepalive_round : Shared S → Round
  unfolding keepalive_tick
  keepalive_round sh = if sh.closed then leaves sh else keepalive_tick sh

  unfoldable pub complete : ℕ → Shared S → Shared S
  complete id sh = try_retire_stream S id (
      if mem id sh.streams
      then set_state S id (record (sh.writer.states id) { send_complete = true }) sh
      else sh)

  unfoldable pub complete_option : Option ℕ → Shared S → Shared S
  unfolding complete
  complete_option none sh = sh
  complete_option (some id) sh = complete id sh

  -- What follows the sending of a frame.
  unfoldable pub after_send : Frame → ℕ → Shared S → Round
  unfolding record_sent complete_option
  after_send frame size sh =
      let recorded = record_sent size sh in
      let done = complete_option (terminal_id frame) recorded in
      if is_close frame then leaves done else goes_on done

  unfoldable pub delivers : Delivery → Frame → Shared S → Round
  unfolding after_send
  delivers outcome frame sh = elim (encode frame) [
    | err e ↦ leaves sh
    | ok bytes ↦ elim outcome [
      | delivered ↦ after_send frame (length bytes) sh
      | send_failure ↦ leaves sh
      | terminated_first ↦ leaves sh
    ]
  ]

  -- A chunk that is used up gives back its permits. A failed `expect` ends the task, and the supervisor
  -- then ends the connection.
  unfoldable pub writer_turn : Delivery → Turn → Shared S → Round
  unfolding delivers
  writer_turn outcome (sends w frame dropped) sh =
      delivers outcome frame (drop_outbound S (used_up dropped) (record sh { writer = w }))
  writer_turn outcome (finished w) sh = leaves (record sh { writer = w })
  writer_turn outcome (again w) sh = rests (record sh { writer = w })
  writer_turn outcome (waits w) sh = rests (record sh { writer = w })
  writer_turn outcome panics sh = leaves sh

  unfoldable pub writer_round : Delivery → Shared S → Round
  unfolding writer_turn
  writer_round outcome sh = writer_turn outcome (next_frame sh.writer) sh

  -- The supervisor until its drain timer starts: none before the connection closes or has no handle.
  unfoldable pub deadline_round : Shared S → Round
  deadline_round sh =
      if sh.closed
      then leaves sh
      else if sh.connection_handles == 0
      then leaves (or_unchanged S sh (initiate_close S 0 dropped_reason sh))
      else rests sh

  -- What the reader and the writer do once they have left their loops.
  unfoldable pub io_end : Shared S → Shared S
  io_end sh = mark_closed S sh

  -- The end of the tasks.
  unfoldable pub join_tasks : Shared S → Shared S
  join_tasks sh = record (mark_closed S sh) { incoming_streams = []; joined = true }
