-- ===== src/Stream/Reading/Order/Loop.antt =====
-- The loop of `poll_read`, and the whole call.
use muxtls.Base.{
  ℕ, zero, suc, ◌+◌, ◌*◌, ◌≤◌, ◌≡◌, ◌∙◌, sym, refl, ap, arith, min, Bool, true, false, Option, none,
  some, [], ◌∷◌, ◌++◌,
}
use muxtls.Base.{Result, ok, err, length, if_either, >>=-eq-ok, ◌==◌, All, List-cases, inl, inr}
use mathlib.Core.Path.{subst}
use muxtls.Connection.Permits.{Semaphores}
use muxtls.Connection.State.{InboundChunk}
use muxtls.Connection.Receive.{
  Receiving, ReadResult, chunk, finished, failed, consume_chunk, drop_chunk,
}
use muxtls.Connection.Receive
use muxtls.Connection.Receive.Store.{content, IsWhole}
use muxtls.Connection.Receive.Accept.{buffered, Balanced}
use muxtls.Connection.Receive.Read.{Reads, read_chunk-Reads}
use muxtls.Error.{Error}
use muxtls.Stream.{select_mode, async_mode}
use muxtls.Stream.Reading.{
  RecvStream, put_state, select_recv_mode, ReadPoll, after_read, read_loop, rounds_for, poll_read,
  read_selected,
}
use muxtls.Stream.Reading.Order.{
  IsReading, unread, Gives, Pops, read_chunk-Pops, put_slice-Gives, Gives-before, measure,
  drop_chunk-Balanced,
}

module _ (S : Semaphores) (others room : ℕ) (eof : Bool) where
  -- The handle before the read future is polled, and with the chunk that it gives.
  abbrev idle : Bool → ℕ → RecvStream
  idle fut pos = record { read_fut = fut; read_buf = none; read_pos = pos; eof = eof }

  abbrev filled : InboundChunk → RecvStream
  filled c = record { read_fut = false; read_buf = some c; read_pos = 0; eof = eof }

  plus_zero : (n : ℕ) → 0 + n ≡ n
  plus_zero n = omega arith

  -- What follows that poll, when `again` is right for the chunk.
  after-Gives :
      (fut : Bool) (pos : ℕ) (again : RecvStream → Receiving S → Option (ReadPoll S))
      (r : Receiving S) (x : ReadResult × Receiving S)
      → Reads S 0 others r x
      → Pops S r x
      → All IsWhole r.state.inbound.chunks
      → ((c : InboundChunk) (q : Receiving S)
          → IsReading S others (filled c) q
          → measure S (some c) q ≤ 2 * length r.state.inbound.chunks
          → Gives S others room (filled c) q (again (filled c) q))
      → Gives S others room (idle fut pos) r (after_read S again (idle fut pos) x)
  unfolding after_read
  after-Gives fut pos again r (chunk c, q) h p w ih =
      let w' : All IsWhole (c ∷ q.state.inbound.chunks) = subst (All IsWhole) p.0 w in
      Gives-before S others room (idle fut pos) (filled c) r q _ (sym h.0) refl p.1 (
        ih c q
          (record {
            whole = w'.0;
            balanced = subst (λ n. Balanced S 0 n others q) (plus_zero (length c.bytes)) h.1;
          })
          (omega (arith, ap length p.0)))
  after-Gives fut pos again r (finished, q) h p w ih = (
    record { whole = tt; balanced = h.0 },
    ap content p,
    omega arith,
    λ k. inr refl,
    λ k. inr (h.1, h.2),
  )
  after-Gives fut pos again r (failed e, q) h p w ih = (record { whole = tt; balanced = h.0 }, h.1)
  after-Gives fut pos again r (Receive.pending, q) h p w ih =
      (record { whole = tt; balanced = h.0 }, h.1)

  abbrev holding : Bool → InboundChunk → ℕ → RecvStream
  holding fut c pos = record { read_fut = fut; read_buf = some c; read_pos = pos; eof = eof }

  -- Only an empty chunk leaves nothing to copy where there is room.
  no_bytes :
      (c : InboundChunk) → min (length c.bytes) room == 0 ≡ true → room == 0 ≡ false → c.bytes ≡ []
  no_bytes c e z = elim (List-cases c.bytes) [
    | inl n ↦ n
    | inr (x, xs, n) ↦ absurd (ground (arith, ap length n))
  ]

  read_loop-Gives :
      (rounds : ℕ) (fut : Bool) (held : Option InboundChunk) (pos : ℕ) (r : Receiving S)
      → IsReading S others (record { read_fut = fut; read_buf = held; read_pos = pos; eof = eof }) r
      → room == 0 ≡ false
      → measure S held r ≤ rounds
      → Gives S others room
          (record { read_fut = fut; read_buf = held; read_pos = pos; eof = eof })
          r
          (read_loop S rounds room
            (record { read_fut = fut; read_buf = held; read_pos = pos; eof = eof })
            r)
  unfolding read_loop
  read_loop-Gives zero fut none pos r h z le = absurd (omega (arith, le))
  read_loop-Gives zero fut (some c) pos r h z le = absurd (omega (arith, le))
  read_loop-Gives (suc rounds) fut none pos r h z le =
      if_either (Gives S others room (idle fut pos) r) eof _ _
        (λ e. (h, refl, omega arith, λ k. inr e, λ k. inl k))
        (λ e.
          after-Gives fut pos (read_loop S rounds room) r (Receive.read_chunk S r)
            (read_chunk-Reads S 0 others r h.balanced) (read_chunk-Pops S r) h.balanced.whole
            (λ c q hq m. read_loop-Gives rounds false (some c) 0 q hq z (omega (arith, le, m))))
  read_loop-Gives (suc rounds) fut (some c) pos r h z le =
      if_either (Gives S others room (holding fut c pos) r) (min (length c.bytes) room == 0) _ _
        (λ e.
          let nil = no_bytes c e z in
          let (b, k) =
            drop_chunk-Balanced S c 0 others r h.whole
              (subst (λ n. Balanced S 0 n others r) (omega arith) h.balanced) in
          Gives-before S others room (holding fut c pos) (idle fut pos) r (drop_chunk S c r) _
            (k ∙ ap (λ xs. xs ++ buffered S r) (sym nil)) refl (unfold drop_chunk in refl)
            (read_loop-Gives rounds fut none pos (drop_chunk S c r)
              (record { whole = tt; balanced = b }) z (unfold drop_chunk in omega (arith, le))))
        (λ e. put_slice-Gives S others room c (holding fut c pos) r h.whole h.balanced e)

module _ (S : Semaphores) where
  abbrev Same : RecvStream → Receiving S → ℕ → Receiving S → Type 0
  Same s r others q =
      IsReading S others s q
      × (unread S s q ≡ unread S s r)
      × (q.state.recv_terminal ≡ r.state.recv_terminal)

  -- Selecting the mode changes nothing of what is read.
  select-Same :
      (others : ℕ) (s : RecvStream) (r q : Receiving S)
      → select_recv_mode S async_mode r ≡ ok q
      → IsReading S others s r
      → Same s r others q
  unfolding select_recv_mode
  select-Same others s r q e h =
      let (mode, x, y) =
        >>=-eq-ok (select_mode r.state.recv_mode async_mode)
          (λ mode. ok (put_state S (record r.state { recv_mode = mode }) r)) e in
      subst (Same s r others) (put mode y) (
        record {
          whole = h.whole;
          balanced = record {
            conn = h.balanced.conn;
            stream = h.balanced.stream;
            whole = h.balanced.whole;
            ends = h.balanced.ends;
          };
        },
        refl,
        refl,
      )
    where
      put :
          (mode : ℕ)
          → ◌≡◌ {A = Result Error (Receiving S)}
              (ok (put_state S (record r.state { recv_mode = mode }) r))
              (ok q)
          → put_state S (record r.state { recv_mode = mode }) r ≡ q
      put mode y = cc y

  measure_le : (held : Option InboundChunk) (r : Receiving S) → measure S held r ≤ rounds_for S r
  measure_le none r = omega arith
  measure_le (some c) r = omega arith

  selected-Gives :
      (others room : ℕ) (s : RecvStream) (r : Receiving S) (o : Result Error (Receiving S))
      → select_recv_mode S async_mode r ≡ o
      → IsReading S others s r
      → Gives S others room s r (read_selected S room s r o)
  unfolding read_selected
  selected-Gives others room s r (err e) x h = (h, refl)
  selected-Gives others room s r (ok q) x h =
      let (k, u, t) = select-Same others s r q x h in
      Gives-before S others room s s r q _ u refl t (
        if_either (Gives S others room s q) (room == 0) _ _
          (λ z. (k, refl, omega arith, λ _. inl (ground arith), λ y. inl y))
          (λ z.
            read_loop-Gives S others room s.eof (rounds_for S q) s.read_fut s.read_buf s.read_pos q
              k z (measure_le s.read_buf q)))

  -- On a handle whose bytes are charged to the windows with those of the buffer, the loop of `poll_read`
  -- comes to an end within its rounds. A call that is ready with bytes has taken them from the front of
  -- what was not read yet, at most as many as there is room for; it has none only where there is no room
  -- or at the end, and the end is met only when all is read and the peer has ended the stream, or was
  -- met before. A call that is pending or fails loses nothing. Windows and permits stay in balance with
  -- the bytes that the handle and the buffer hold, so credit comes back for just those handed out.
  pub poll_read-Gives :
      (others room : ℕ) (s : RecvStream) (r : Receiving S)
      → IsReading S others s r
      → Gives S others room s r (poll_read S room s r)
  unfolding poll_read
  poll_read-Gives others room s r h =
      selected-Gives others room s r (select_recv_mode S async_mode r) refl h
