-- ===== src/Connection/Shared/Streams.antt =====
-- The operations of `ConnectionShared` on its table of streams: open, reset, retire and close.
use muxtls.Base.{ℕ, ◌+◌, ◌/◌, ◌%◌, ◌^◌, true, false, not, ◌&&◌, ◌||◌, none, some}
use muxtls.Base.{List, [], ◌∷◌, ◌++◌, length, leb, ◌==◌, if◌then◌else◌}
use muxtls.Base.{Result, ok, err, ◌>>=◌, ◌>>◌, map_err}
use muxtls.Base.Maps.{remove}
use muxtls.Base.Ids.{mem, erase}
use muxtls.Proto.Frame.{reset_stream, connection_close, open_stream, checked_var_int}
use muxtls.Connection.Permits.{Semaphores}
use muxtls.Connection.State.{new_stream}
use muxtls.Connection.Writer.{entry, shutdown}
use muxtls.Connection.Shared.{
  Shared, set_queues, set_state, set_permits, ensure_open, drop_outbound, drop_queues,
  take_stream_id, fit_close_reason,
}
use muxtls.Error.{Error, protocol, wire, connection_closed, value_too_large}

-- What one poll of `open_bi` or `accept_bi` gives.
pub data OpenResult : Type 0 where
  opened : ℕ → OpenResult
  refused : Error → OpenResult
  waiting : OpenResult

module _ (S : Semaphores) where
  -- The table and the writer's map of windows take a new stream, whose open permit was acquired.
  unfoldable pub insert_stream : ℕ → Shared S → Shared S
  insert_stream id sh =
      let queues = sh.writer.queues in
      record (set_permits S id
        (record {
          inbound_stream_bytes = S.new sh.limits.max_inbound_stream_bytes;
          outbound_stream_bytes = S.new sh.limits.max_outbound_stream_bytes;
          outbound_stream_frames =
              S.new (sh.limits.max_queued_outbound_frames / sh.limits.max_open_streams);
        })
        sh) {
          streams = id ∷ erase id sh.streams;
          writer = record sh.writer {
            queues = record queues { receive_windows = id ∷ erase id queues.receive_windows };
            states = λ j.
                if id == j
                then new_stream sh.limits.max_inbound_stream_bytes
                else sh.writer.states j;
          };
        }

  -- `mark_connection_closed`, of each stream that was in the table.
  unfoldable pub mark_connections_closed : List ℕ → Shared S → Shared S
  mark_connections_closed [] sh = sh
  mark_connections_closed (id ∷ ids) sh =
      let s = sh.writer.states id in
      let p = sh.stream_permits id in
      mark_connections_closed ids (
        set_permits S id
          (record {
            inbound_stream_bytes = S.close p.inbound_stream_bytes;
            outbound_stream_bytes = S.close p.outbound_stream_bytes;
            outbound_stream_frames = S.close p.outbound_stream_frames;
          })
          (set_state S id (record s { inbound = record s.inbound { connection_closed = true } })
            sh))

  -- The first time, what waits is dropped and every stream is told.
  unfoldable pub cleanup : Shared S → Shared S
  unfolding mark_connections_closed
  cleanup sh =
      let shut = record sh {
        cleanup_started = true;
        open_streams = S.close sh.open_streams;
        inbound_conn_bytes = S.close sh.inbound_conn_bytes;
        outbound_conn_bytes = S.close sh.outbound_conn_bytes;
        outbound_frames = S.close sh.outbound_frames;
      } in
      let dropped = drop_queues S sh.writer.queues.by_stream shut in
      mark_connections_closed sh.streams
        (record dropped { writer = shutdown sh.writer; streams = [] })

  unfoldable pub mark_closed : Shared S → Shared S
  unfolding cleanup
  mark_closed sh =
      let ended = record sh { closed = true; terminated = true } in
      if sh.cleanup_started then ended else cleanup ended

  -- Once the permit is acquired. It is dropped again where the stream is not opened.
  unfoldable pub open_acquired : Shared S → OpenResult × Shared S
  unfolding insert_stream
  open_acquired sh =
      let queues = sh.writer.queues in
      let give_back =
        λ (s : Shared S). record s { open_streams = S.add_permits s.open_streams 1 } in
      if queues.closing || leb sh.writer.max_control_frames (length queues.control)
      then (refused connection_closed, give_back (mark_closed sh))
      else elim (take_stream_id sh.next_local_stream_id) [
        | err e ↦ (refused e, give_back sh)
        | ok taken ↦ elim (checked_var_int taken.0) [
          | err e ↦ (
            refused (protocol value_too_large),
            give_back (record sh { next_local_stream_id = taken.1 }),
          )
          | ok id ↦ (
            opened id,
            insert_stream id
                (record (set_queues S
                  (record queues { control = queues.control ++ (open_stream id ∷ []) }) sh) {
                    next_local_stream_id = taken.1;
                    stats_opened_streams = (sh.stats_opened_streams + 1) % 2 ^ 64;
                  }),
          )
        ]
      ]

  unfoldable pub open_bi : Shared S → OpenResult × Shared S
  unfolding open_acquired
  open_bi sh =
      if sh.closed
      then (refused connection_closed, sh)
      else elim (S.try_acquire_many sh.open_streams 1) [
        | some left ↦ open_acquired (record sh { open_streams = left })
        | none ↦
            if S.is_closed sh.open_streams then (refused connection_closed, sh) else (waiting, sh)
      ]

  -- `accept_bi`: the oldest stream of the peer, or a wait.
  unfoldable pub accept_bi : Shared S → OpenResult × Shared S
  accept_bi sh = if sh.closed then (refused connection_closed, sh) else elim sh.incoming_streams [
    | [] ↦ (waiting, sh)
    | id ∷ ids ↦ (opened id, record sh { incoming_streams = ids })
  ]

  -- The reset goes to the control queue in place of the stream's chunks.
  unfoldable pub queue_reset : ℕ → ℕ → Shared S → Result Error (Shared S)
  queue_reset id code sh =
      let queues = sh.writer.queues in
      let s = sh.writer.states id in
      if s.send_dispatched || s.reset_queued
      then ok sh
      else if queues.closing || leb sh.writer.max_control_frames (length queues.control)
      then err connection_closed
      else (let dropped = drop_outbound S (entry id queues.by_stream) sh in
          let p = dropped.stream_permits id in
          ok (
            set_permits S id (record p { outbound_stream_bytes = S.close p.outbound_stream_bytes })
              (record dropped {
                writer = record dropped.writer {
                  queues = record dropped.writer.queues {
                    by_stream = remove id queues.by_stream;
                    ready = erase id queues.ready;
                    control = queues.control ++ (reset_stream id code ∷ []);
                  };
                  states = λ j.
                      if id == j
                      then record s { reset_queued = true; send_terminal = true }
                      else sh.writer.states j;
                };
              })))

  unfoldable pub reset : ℕ → ℕ → Shared S → Result Error (Shared S)
  reset id error_code sh = do
    ensure_open S sh
    stream_id ← map_err (λ _. protocol value_too_large) (checked_var_int id)
    code ← map_err wire (checked_var_int error_code)
    queue_reset stream_id code sh

  -- `release_open_permit`.
  unfoldable pub release_open_permit : ℕ → Shared S → Shared S
  release_open_permit id sh =
      let s = sh.writer.states id in
      if s.open_permit
      then record (set_state S id (record s { open_permit = false }) sh) {
        open_streams = S.add_permits sh.open_streams 1;
      }
      else sh

  unfoldable pub remove_stream : ℕ → Shared S → Shared S
  remove_stream id sh =
      let queues = sh.writer.queues in
      record (set_queues S (record queues { receive_windows = erase id queues.receive_windows })
        sh) { streams = erase id sh.streams }

  unfoldable pub try_retire_stream : ℕ → Shared S → Shared S
  unfolding release_open_permit remove_stream
  try_retire_stream id sh =
      let s = sh.writer.states id in
      if not (mem id sh.streams) || (not s.send_complete || not s.recv_terminal)
      then sh
      else (let released = release_open_permit id sh in
          if s.send_terminal && s.recv_terminal then remove_stream id released else released)

  -- Only the first close counts. An error drops what waits; a graceful close lets it drain.
  unfoldable pub queue_close : ℕ → List ℕ → Shared S → Shared S
  queue_close code reason sh =
      let queues = sh.writer.queues in
      let emptied = if code == 0 then sh else drop_queues S queues.by_stream sh in
      if sh.closed
      then sh
      else record (set_queues S
          (record emptied.writer.queues {
            by_stream = if code == 0 then queues.by_stream else [];
            ready = if code == 0 then queues.ready else [];
            control = if code == 0 then queues.control else [];
            close_frame = some (connection_close code reason);
            graceful_close = code == 0;
            closing = true;
          })
          emptied) {
            closed = true;
            open_streams = S.close sh.open_streams;
            outbound_conn_bytes = S.close emptied.outbound_conn_bytes;
            outbound_frames = S.close emptied.outbound_frames;
          }

  unfoldable pub initiate_close : ℕ → List ℕ → Shared S → Result Error (Shared S)
  unfolding queue_close
  initiate_close error_code reason sh = do
    fitted ← fit_close_reason sh.limits.max_frame_size error_code reason
    code ← map_err wire (checked_var_int error_code)
    ok (queue_close code fitted sh)
