-- ===== src/Connection/Shared/Table/Handles.antt =====
-- Dropped handles keep the table of streams.
use muxtls.Base.{ℕ, ◌≡◌, arith, ◌||◌, Result, ok, err, if_either, Yields}
use muxtls.Proto.Frame.{Frame, stop_sending}
use muxtls.Connection.Permits.{Semaphores}
use muxtls.Connection.State.{Writer}
use muxtls.Connection.Writer.{enqueue_control}
use muxtls.Connection.Receive.{discard_inbound}
use muxtls.Connection.Shared.{Shared, receiving, restore}
use muxtls.Connection.Shared.Streams.{reset, mark_closed}
use muxtls.Connection.Shared.Handles.{
  handle_last_send_drop, handle_last_recv_drop, stop_peer, or_unchanged,
}
use muxtls.Connection.Shared.Table.{IsTable}
use muxtls.Connection.Shared.Table.Steps.{
  IsRegular, mark_closed-IsRegular, retire-IsRegular, reset-IsRegular,
}
use mathlib.Core.Path.{subst}
use muxtls.Error.{Error}

enqueue_control-receive_windows :
    (w : Writer) (f : Frame)
    → w.queues.receive_windows ≡ (enqueue_control w f).0.queues.receive_windows
unfolding enqueue_control
enqueue_control-receive_windows w f = ground arith

module _ (S : Semaphores) where
  or_unchanged-IsRegular :
      (sh : Shared S) (m : Result Error (Shared S))
      → IsRegular S sh
      → Yields (IsRegular S) m
      → IsRegular S (or_unchanged S sh m)
  or_unchanged-IsRegular sh (ok t) h k = k
  or_unchanged-IsRegular sh (err e) h k = h

  pub send_drop-IsRegular :
      (id : ℕ) (sh : Shared S) → IsRegular S sh → IsRegular S (handle_last_send_drop S id sh)
  unfolding handle_last_send_drop
  send_drop-IsRegular id sh h = retire-IsRegular S id _ (
      if_either (IsRegular S) (sh.writer.states id).send_terminal sh
        (or_unchanged S sh (reset S id 0 sh)) (λ e. h)
        (λ e. or_unchanged-IsRegular sh (reset S id 0 sh) h (reset-IsRegular S id 0 sh h)))

  stop_peer-IsRegular : (id : ℕ) (sh : Shared S) → IsRegular S sh → IsRegular S (stop_peer S id sh)
  unfolding stop_peer
  stop_peer-IsRegular id sh h =
      if_either (IsRegular S) (enqueue_control sh.writer (stop_sending id)).1
        (record sh { writer = (enqueue_control sh.writer (stop_sending id)).0 }) (mark_closed S sh)
        (λ e.
          subst
            (λ ws.
              IsTable sh.streams ws sh.next_local_stream_id sh.next_remote_stream_id
                sh.local_parity)
            (enqueue_control-receive_windows sh.writer (stop_sending id)) h)
        (λ e. mark_closed-IsRegular S sh h)

  pub recv_drop-IsRegular :
      (id : ℕ) (sh : Shared S) → IsRegular S sh → IsRegular S (handle_last_recv_drop S id sh)
  unfolding handle_last_recv_drop
  recv_drop-IsRegular id sh h =
      let dropped = restore S id (discard_inbound S (receiving S id sh)) sh in
      retire-IsRegular S id _ (
        if_either (IsRegular S) ((sh.writer.states id).recv_terminal || sh.closed) dropped
          (stop_peer S id dropped) (λ e. h) (λ e. stop_peer-IsRegular id dropped h))
