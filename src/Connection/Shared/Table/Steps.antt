-- ===== src/Connection/Shared/Table/Steps.antt =====
-- Every step of a connection keeps its table of streams.
use muxtls.Base.{ℕ, ◌+◌, ◌%◌, ◌≡◌, refl, arith, Bool, true, false, not, ◌&&◌, ◌||◌, List, [], ◌∷◌}
use muxtls.Base.{
  Result, ok, err, ◌>>=◌, ◌>>◌, fail_if, ok_or, map_err, Yields, if_either, leb, length, ◌==◌,
}
use muxtls.Base.Ids.{mem}
use muxtls.Proto.Frame.{checked_var_int}
use muxtls.Connection.Permits.{Semaphores}
use muxtls.Connection.State.{OutboundChunk}
use muxtls.Connection.Writer.{shutdown, entry}
use muxtls.Connection.Receive.{stream_frame, reset_frame}
use muxtls.Connection.Shared.{Shared, drop_outbound, drop_queues, ensure_open, receiving, restore}
use muxtls.Connection.Shared.Streams.{
  insert_stream, queue_reset, reset, try_retire_stream, release_open_permit, remove_stream,
  mark_closed, cleanup, mark_connections_closed,
}
use muxtls.Connection.Shared.Frames.{on_remote_stream_frame, on_remote_reset, on_remote_open}
use muxtls.Connection.Shared.Table.{IsTable, erase-IsTable, nil-IsTable, remote-IsTable}
use muxtls.Error
use muxtls.Error.{
  Error, protocol, wire, connection_closed, value_too_large, settings_must_be_first,
  data_for_unknown, reset_for_unknown, limit_exceeded, incoming_queue, invalid_parity,
  unexpected_stream_id, reused_stream_id,
}

module _ (S : Semaphores) where
  abbrev pub IsRegular : Shared S → Type 0
  IsRegular sh =
      IsTable sh.streams sh.writer.queues.receive_windows sh.next_local_stream_id
        sh.next_remote_stream_id sh.local_parity

  drop_outbound-IsRegular :
      (cs : List OutboundChunk) (sh : Shared S) → IsRegular sh → IsRegular (drop_outbound S cs sh)
  unfolding drop_outbound
  drop_outbound-IsRegular [] sh h = h
  drop_outbound-IsRegular (c ∷ cs) sh h = drop_outbound-IsRegular cs _ h

  pub drop_queues-IsRegular :
      (qs : List (ℕ × List OutboundChunk)) (sh : Shared S)
      → IsRegular sh
      → IsRegular (drop_queues S qs sh)
  unfolding drop_queues
  drop_queues-IsRegular [] sh h = h
  drop_queues-IsRegular ((id, cs) ∷ qs) sh h =
      drop_queues-IsRegular qs _ (drop_outbound-IsRegular cs sh h)

  mark_connections_closed-IsRegular :
      (ids : List ℕ) (sh : Shared S) → IsRegular sh → IsRegular (mark_connections_closed S ids sh)
  unfolding mark_connections_closed
  mark_connections_closed-IsRegular [] sh h = h
  mark_connections_closed-IsRegular (id ∷ ids) sh h = mark_connections_closed-IsRegular ids _ h

  cleanup-IsRegular : (sh : Shared S) → IsRegular sh → IsRegular (cleanup S sh)
  unfolding cleanup shutdown
  cleanup-IsRegular sh h =
      mark_connections_closed-IsRegular sh.streams _
        (nil-IsTable (drop_queues-IsRegular sh.writer.queues.by_stream _ h))

  pub mark_closed-IsRegular : (sh : Shared S) → IsRegular sh → IsRegular (mark_closed S sh)
  unfolding mark_closed
  mark_closed-IsRegular sh h =
      if_either IsRegular sh.cleanup_started _ _ (λ e. h)
        (λ e. cleanup-IsRegular (record sh { closed = true; terminated = true }) h)

  release_open_permit-IsRegular :
      (id : ℕ) (sh : Shared S) → IsRegular sh → IsRegular (release_open_permit S id sh)
  unfolding release_open_permit
  release_open_permit-IsRegular id sh h =
      if_either IsRegular (sh.writer.states id).open_permit _ _ (λ e. h) (λ e. h)

  remove_stream-IsRegular :
      (id : ℕ) (sh : Shared S) → IsRegular sh → IsRegular (remove_stream S id sh)
  unfolding remove_stream
  remove_stream-IsRegular id sh h = erase-IsTable id h

  pub retire-IsRegular :
      (id : ℕ) (sh : Shared S) → IsRegular sh → IsRegular (try_retire_stream S id sh)
  unfolding try_retire_stream
  retire-IsRegular id sh h =
      let s = sh.writer.states id in
      let released = release_open_permit-IsRegular id sh h in
      if_either IsRegular (not (mem id sh.streams) || (not s.send_complete || not s.recv_terminal))
        _ _ (λ e. h)
        (λ e.
          if_either IsRegular (s.send_terminal && s.recv_terminal) _ _
            (λ f. remove_stream-IsRegular id (release_open_permit S id sh) released)
            (λ f. released))

  pub then-IsRegular :
      {A : Type 0} (m : Result Error A) (f : A → Result Error (Shared S))
      → ((a : A) → Yields IsRegular (f a))
      → Yields IsRegular (m >>= f)
  then-IsRegular (ok a) f h = h a
  then-IsRegular (err e) f h = tt

  pub check-IsRegular :
      (b : Bool) (e : Error) (m : Result Error (Shared S))
      → (b ≡ false → Yields IsRegular m)
      → Yields IsRegular (fail_if b e >> m)
  check-IsRegular true e m h = tt
  check-IsRegular false e m h = h refl

  queue_reset-IsRegular :
      (id code : ℕ) (sh : Shared S) → IsRegular sh → Yields IsRegular (queue_reset S id code sh)
  unfolding queue_reset
  queue_reset-IsRegular id code sh h =
      let s = sh.writer.states id in
      if_either (Yields IsRegular) (s.send_dispatched || s.reset_queued) _ _ (λ e. h)
        (λ e.
          if_either (Yields IsRegular)
            (sh.writer.queues.closing
              || leb sh.writer.max_control_frames (length sh.writer.queues.control))
            _ _ (λ f. tt) (λ f. drop_outbound-IsRegular (entry id sh.writer.queues.by_stream) sh h))

  pub reset-IsRegular :
      (id code : ℕ) (sh : Shared S) → IsRegular sh → Yields IsRegular (reset S id code sh)
  unfolding reset ensure_open
  reset-IsRegular id code sh h = check-IsRegular sh.closed connection_closed _ (λ e.
      then-IsRegular (map_err (λ _. protocol value_too_large) (checked_var_int id)) _ (λ a.
        then-IsRegular (map_err wire (checked_var_int code)) _
          (λ b. queue_reset-IsRegular a b sh h)))

  pub on_remote_stream_frame-IsRegular :
      (id : ℕ) (discarded : Bool) (payload : List ℕ) (fin : Bool) (sh : Shared S)
      → IsRegular sh
      → Yields IsRegular (on_remote_stream_frame S id discarded payload fin sh)
  unfolding on_remote_stream_frame
  on_remote_stream_frame-IsRegular id discarded payload fin sh h =
      check-IsRegular (not (mem id sh.streams)) (protocol (data_for_unknown id)) _ (λ e.
        then-IsRegular (stream_frame S id discarded payload fin (receiving S id sh)) _ (λ r.
          if_either IsRegular fin _ _ (λ f. retire-IsRegular id (restore S id r sh) h) (λ f. h)))

  pub on_remote_reset-IsRegular :
      (id code : ℕ) (sh : Shared S) → IsRegular sh → Yields IsRegular (on_remote_reset S id code sh)
  unfolding on_remote_reset
  on_remote_reset-IsRegular id code sh h =
      check-IsRegular (not (mem id sh.streams)) (protocol (reset_for_unknown id)) _ (λ e.
        then-IsRegular (reset_frame S id code (receiving S id sh)) _
          (λ r. retire-IsRegular id (restore S id r sh) h))

  insert_remote-IsRegular :
      (id : ℕ) (sh : Shared S)
      → IsRegular sh
      → id ≡ sh.next_remote_stream_id
      → IsTable
          (insert_stream S id sh).streams
          (insert_stream S id sh).writer.queues.receive_windows
          (insert_stream S id sh).next_local_stream_id
          (id + 2)
          (insert_stream S id sh).local_parity
  unfolding insert_stream
  insert_remote-IsRegular id sh h e = rw e (remote-IsTable h)

  same_id : (a b : ℕ) → not (a == b) ≡ false → a ≡ b
  same_id a b h = ground arith

  pub on_remote_open-IsRegular :
      (id : ℕ) (sh : Shared S) → IsRegular sh → Yields IsRegular (on_remote_open S id sh)
  unfolding on_remote_open
  on_remote_open-IsRegular id sh h =
      check-IsRegular (id % 2 == sh.local_parity) (protocol (invalid_parity id)) _ (λ e.
        check-IsRegular (not (id == sh.next_remote_stream_id))
          (protocol (unexpected_stream_id sh.next_remote_stream_id id)) _
          (λ f.
            then-IsRegular
              (ok_or (S.try_acquire_many sh.open_streams 1) (limit_exceeded Error.open_streams)) _
              (λ left. check-IsRegular (mem id sh.streams) (protocol (reused_stream_id id)) _ (λ g.
                check-IsRegular (leb sh.limits.max_open_streams (length sh.incoming_streams))
                  (limit_exceeded incoming_queue) _
                  (λ k. insert_remote-IsRegular id sh h (same_id _ _ f))))))
