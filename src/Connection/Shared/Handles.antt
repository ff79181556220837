-- ===== src/Connection/Shared/Handles.antt =====
-- What the last handle of a stream's half does when it is dropped. The identifier of a stream is always
-- one that the wire carries.
use muxtls.Base.{ℕ, ◌||◌, Result, ok, err, if◌then◌else◌}
use muxtls.Proto.Frame.{stop_sending}
use muxtls.Connection.Permits.{Semaphores}
use muxtls.Connection.Writer.{enqueue_control}
use muxtls.Connection.Receive.{discard_inbound}
use muxtls.Connection.Shared.{Shared, receiving, restore}
use muxtls.Connection.Shared.Streams.{reset, try_retire_stream, mark_closed}
use muxtls.Error.{Error}

module _ (S : Semaphores) where
  -- `let _ = …`: an error of the reset is ignored.
  abbrev pub or_unchanged : Shared S → Result Error (Shared S) → Shared S
  or_unchanged sh (ok t) = t
  or_unchanged sh (err e) = sh

  unfoldable pub handle_last_send_drop : ℕ → Shared S → Shared S
  handle_last_send_drop id sh =
      try_retire_stream S id
        (if (sh.writer.states id).send_terminal then sh else or_unchanged sh (reset S id 0 sh))

  -- STOP_SENDING, or the end of the connection if the control queue has no room for it.
  unfoldable pub stop_peer : ℕ → Shared S → Shared S
  stop_peer id sh =
      let (w, queued) = enqueue_control sh.writer (stop_sending id) in
      if queued then (record sh { writer = w }) else mark_closed S sh

  unfoldable pub handle_last_recv_drop : ℕ → Shared S → Shared S
  unfolding stop_peer
  handle_last_recv_drop id sh =
      let dropped = restore S id (discard_inbound S (receiving S id sh)) sh in
      try_retire_stream S id
        (if (sh.writer.states id).recv_terminal || sh.closed then dropped else stop_peer id dropped)
