-- ===== src/Connection/Shared/Frames.antt =====
-- What the reader task does with each frame of the peer: `handle_incoming_frame` and its handlers. An error
-- ends the connection, so no state is returned with it.
pub mod Settings
use muxtls.Base.{ℕ, ◌+◌, ◌%◌, ◌^◌, max, Bool, true, false, not, ◌&&◌, ◌||◌}
use muxtls.Base.{List, [], ◌∷◌, ◌++◌, length, ltb, leb, ◌==◌, if◌then◌else◌}
use muxtls.Base.{Result, ok, err, ◌>>=◌, ◌>>◌, fail_if, ok_or, map_err}
use muxtls.Base.Ids.{mem}
use muxtls.Proto.Frame.{
  Frame, stream, reset_stream, open_stream, settings, max_data, max_stream_data, stop_sending, ping,
  connection_close, decode,
}
use muxtls.Limits.{min_frame_size, u32_max}
use muxtls.Connection.Permits.{Semaphores}
use muxtls.Connection.Receive.{stream_frame, reset_frame}
use muxtls.Connection.Shared.{Shared, set_queues, set_state, receiving, restore}
use muxtls.Connection.Shared.Streams.{insert_stream, reset, try_retire_stream, mark_closed}
use muxtls.Error
use muxtls.Error.{
  Error, protocol, wire, limit_exceeded, data_for_unknown, reset_for_unknown, invalid_parity,
  unexpected_stream_id, reused_stream_id, incoming_queue, settings_must_be_first, invalid_settings,
  credit_for_unopened, stop_for_unopened,
}

abbrev pub is_settings : Frame → Bool
is_settings (settings data_max stream_max frame_max) = true
is_settings _ = false

module _ (S : Semaphores) where
  -- `discarded`: the receive handle is dropped while the payload is stored.
  unfoldable pub on_remote_stream_frame :
      ℕ → Bool → List ℕ → Bool → Shared S → Result Error (Shared S)
  on_remote_stream_frame id discarded payload fin sh =
      fail_if (not (mem id sh.streams)) (protocol (data_for_unknown id))
      >> (stream_frame S id discarded payload fin (receiving S id sh) >>= λ r.
          ok (if fin then try_retire_stream S id (restore S id r sh) else restore S id r sh))

  unfoldable pub on_remote_reset : ℕ → ℕ → Shared S → Result Error (Shared S)
  on_remote_reset id code sh =
      fail_if (not (mem id sh.streams)) (protocol (reset_for_unknown id))
      >> (reset_frame S id code (receiving S id sh) >>= λ r.
          ok (try_retire_stream S id (restore S id r sh)))

  -- A new stream of the peer waits to be accepted.
  unfoldable pub on_remote_open : ℕ → Shared S → Result Error (Shared S)
  on_remote_open id sh = do
    fail_if (id % 2 == sh.local_parity) (protocol (invalid_parity id))
    fail_if (not (id == sh.next_remote_stream_id))
        (protocol (unexpected_stream_id sh.next_remote_stream_id id))
    left ← ok_or (S.try_acquire_many sh.open_streams 1) (limit_exceeded Error.open_streams)
    fail_if (mem id sh.streams) (protocol (reused_stream_id id))
    fail_if (leb sh.limits.max_open_streams (length sh.incoming_streams))
        (limit_exceeded incoming_queue)
    ok (record (insert_stream S id sh) {
      open_streams = left;
      next_remote_stream_id = id + 2;
      stats_opened_streams = (sh.stats_opened_streams + 1) % 2 ^ 64;
      incoming_streams = sh.incoming_streams ++ (id ∷ []);
    })

  unfoldable pub on_settings : ℕ → ℕ → ℕ → Shared S → Result Error (Shared S)
  on_settings data_max stream_max frame_max sh =
      fail_if
        (sh.writer.queues.peer_settings || (ltb frame_max min_frame_size || ltb u32_max frame_max))
        (protocol invalid_settings)
      >> ok (
          set_queues S
            (record sh.writer.queues {
              peer_settings = true;
              peer_limit = data_max;
              peer_initial_stream_limit = stream_max;
              peer_max_frame = frame_max;
            })
            sh)

  -- An identifier that was opened before, by either side.
  unfoldable pub was_opened : ℕ → Shared S → Bool
  was_opened id sh =
      ltb id
        (if id % 2 == sh.local_parity then sh.next_local_stream_id else sh.next_remote_stream_id)

  unfoldable pub on_max_stream_data : ℕ → ℕ → Shared S → Result Error (Shared S)
  on_max_stream_data id maximum sh =
      if mem id sh.streams
      then ok (
          let s = sh.writer.states id in
          set_state S id (record s { peer_limit = max s.peer_limit maximum }) sh)
      else (fail_if (not (was_opened id sh)) (protocol credit_for_unopened) >> ok sh)

  unfoldable pub on_stop_sending : ℕ → Shared S → Result Error (Shared S)
  on_stop_sending id sh =
      if mem id sh.streams
      then reset S id 0 sh
      else (fail_if (not (was_opened id sh)) (protocol stop_for_unopened) >> ok sh)

  -- The flag says whether the reader goes on.
  unfoldable pub on_frame : Bool → Frame → Shared S → Result Error (Shared S × Bool)
  on_frame discarded (settings data_max stream_max frame_max) sh =
      on_settings data_max stream_max frame_max sh >>= λ t. ok (t, true)
  on_frame discarded (max_data maximum) sh =
      let queues = sh.writer.queues in
      ok (set_queues S (record queues { peer_limit = max queues.peer_limit maximum }) sh, true)
  on_frame discarded (max_stream_data id maximum) sh =
      on_max_stream_data id maximum sh >>= λ t. ok (t, true)
  on_frame discarded (stream id fin payload) sh =
      on_remote_stream_frame id discarded payload fin sh >>= λ t. ok (t, true)
  on_frame discarded (reset_stream id code) sh = on_remote_reset id code sh >>= λ t. ok (t, true)
  on_frame discarded (open_stream id) sh = on_remote_open id sh >>= λ t. ok (t, true)
  on_frame discarded (stop_sending id) sh = on_stop_sending id sh >>= λ t. ok (t, true)
  on_frame discarded ping sh = ok (sh, true)
  on_frame discarded (connection_close code reason) sh = ok (mark_closed S sh, false)

  unfoldable pub handle_incoming_frame : Bool → List ℕ → Shared S → Result Error (Shared S × Bool)
  unfolding on_frame
  handle_incoming_frame discarded bytes sh = do
    frame ← map_err wire (decode bytes)
    fail_if (not (is_settings frame) && not sh.writer.queues.peer_settings)
        (protocol settings_must_be_first)
    on_frame discarded frame sh
