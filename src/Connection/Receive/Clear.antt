-- ===== src/Connection/Receive/Clear.antt =====
-- A reset from the peer and a dropped receive handle empty the buffer: all permits and credit come back.
use muxtls.Base.{ℕ, ◌+◌, ◌-◌, ◌≡◌, ◌∙◌, sym, refl, arith, false, some}
use muxtls.Base.{List, [], ◌∷◌, ok, err, length, length-append, All}
use mathlib.Core.Path.{subst}
use muxtls.Flow.{ReceiveWindow, consume}
use muxtls.Connection.Permits.{Semaphores}
use muxtls.Connection.State.{InboundChunk}
use muxtls.Connection.Receive.{
  Receiving, failed, read_chunk, drop_chunk, drop_chunks, clear_chunks, mark_reset,
  mark_recv_terminal, reset_frame, ensure_peer_send_open, set_inbound,
}
use muxtls.Connection.Receive.Store.{content, IsWhole}
use muxtls.Connection.Receive.Balance.{IsCharged, consume-IsCharged}
use muxtls.Connection.Receive.Accept.{buffered, Balanced, still_open}
use muxtls.Connection.Receive.Read.{le→leb}
use muxtls.Error.{protocol, stream_reset, reset_after_close}

zero_add : (n : ℕ) → n ≡ 0 + n
zero_add n = omega arith

module _ (S : Semaphores) where
  abbrev pub AreCharged : (held other : ℕ) → Receiving S → Type 0
  AreCharged held other r =
      IsCharged S r.connection_window r.inbound_conn_bytes 0 (held + other)
      × IsCharged S r.state.receive_window r.inbound_stream_bytes 0 held

  drop-IsCharged :
      (w : ReceiveWindow) (s : S.Semaphore) (size held : ℕ)
      → IsCharged S w s 0 (size + held)
      → IsCharged S (consume w size).0 (S.add_permits (S.add_permits s size) (size - size)) 0 held
  drop-IsCharged w s size held h =
      let c = consume-IsCharged S size h (omega arith) in
      record {
        window = c.window;
        counted = omega (arith, c.counted);
        permits = omega (arith, c.permits, S.added (S.add_permits s size) (size - size));
        opened = S.added_closed (S.add_permits s size) (size - size) ∙ c.opened;
      }

  pub drop_chunk-AreCharged :
      (held other : ℕ) (c : InboundChunk) (r : Receiving S)
      → IsWhole c
      → AreCharged (length c.bytes + held) other r
      → AreCharged held other (drop_chunk S c r)
  unfolding drop_chunk
  drop_chunk-AreCharged held other c r w h =
      rw (w, le→leb (length c.bytes) (length c.bytes) (omega arith))
        (
          drop-IsCharged r.connection_window r.inbound_conn_bytes (length c.bytes) (held + other)
              (subst (IsCharged S r.connection_window r.inbound_conn_bytes 0) (omega arith) h.0),
          drop-IsCharged r.state.receive_window r.inbound_stream_bytes (length c.bytes) held h.1,
        )

  drop_chunks-AreCharged :
      (out other : ℕ) (cs : List InboundChunk) (r : Receiving S)
      → All IsWhole cs
      → AreCharged (length (content cs) + out) other r
      → AreCharged out other (drop_chunks S cs r)
  unfolding drop_chunks
  drop_chunks-AreCharged out other [] r w h = subst (λ n. AreCharged n other r) (omega arith) h
  drop_chunks-AreCharged out other (c ∷ cs) r w h =
      drop_chunks-AreCharged out other cs (drop_chunk S c r) w.1 (
        drop_chunk-AreCharged (length (content cs) + out) other c r w.0
          (subst (λ n. AreCharged n other r) (omega (arith, length-append c.bytes (content cs))) h))

  drop_chunks-recv_terminal :
      (cs : List InboundChunk) (r : Receiving S)
      → (drop_chunks S cs r).state.recv_terminal ≡ r.state.recv_terminal
  unfolding drop_chunks
  drop_chunks-recv_terminal [] r = refl
  drop_chunks-recv_terminal (c ∷ cs) r =
      drop_chunks-recv_terminal cs (drop_chunk S c r) ∙ (unfold drop_chunk in refl)

  -- Clearing gives every permit and all credit back, except for what the application holds.
  pub clear_chunks-Balanced :
      (out other : ℕ) (r : Receiving S)
      → Balanced S 0 out other r
      → Balanced S 0 out other (clear_chunks S r) × (buffered S (clear_chunks S r) ≡ [])
  unfolding clear_chunks
  clear_chunks-Balanced out other r h =
      let held =
        drop_chunks-AreCharged out other r.state.inbound.chunks r h.whole (h.conn, h.stream) in
      let (conn, stream) =
        subst (λ n. AreCharged n other (drop_chunks S r.state.inbound.chunks r)) (zero_add out)
          held in
      (
        record {
          conn = conn;
          stream = stream;
          whole = tt;
          ends = h.ends ∙ sym (drop_chunks-recv_terminal r.state.inbound.chunks r);
        },
        refl,
      )

  -- A RESET_STREAM on a stream in balance that its peer has not ended empties the buffer and returns the
  -- permits and credit of its bytes; reads then give the error code, and further resets are refused.
  pub reset_frame-clears :
      (id code out other : ℕ) (r : Receiving S)
      → Balanced S 0 out other r
      → r.state.recv_terminal ≡ false
      → (q : Receiving S) × (reset_frame S id code r ≡ ok q)
        × Balanced S 0 out other q
        × (buffered S q ≡ [])
        × (read_chunk S q ≡ (failed (stream_reset code), q))
        × (ensure_peer_send_open q.state (reset_after_close id)
            ≡ err (protocol (reset_after_close id)))
  unfolding reset_frame mark_reset mark_recv_terminal read_chunk
  reset_frame-clears id code out other r h open_end =
      let (b, e) =
        clear_chunks-Balanced out other
          (set_inbound S (record r.state.inbound { reset_error = some code }) r)
          record { conn = h.conn; stream = h.stream; whole = h.whole; ends = h.ends } in
      rw (still_open S (reset_after_close id) r open_end) (
        _,
        refl,
        record { conn = b.conn; stream = b.stream; whole = b.whole; ends = refl },
        e,
        refl,
        unfold ensure_peer_send_open in refl,
      )
