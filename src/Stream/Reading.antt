-- ===== src/Stream/Reading.antt =====
-- `RecvStream`: the chunk interface, AsyncRead, and the drop of the handle.
pub mod Order
use muxtls.Base.{
  ℕ, zero, suc, ◌+◌, ◌*◌, ◌%◌, ◌^◌, min, Bool, true, false, not, ◌||◌, Option, none, some, List, [],
}
use muxtls.Base.{
  Result, ok, err, ◌>>=◌, length, take, drop, ◌==◌, if◌then◌else◌, Poll, ready, pending,
}
use muxtls.Connection.Permits.{Semaphores}
use muxtls.Connection.State.{InboundChunk, StreamState}
use muxtls.Connection.Writer.{is_empty}
use muxtls.Connection.Receive.{
  Receiving, ReadResult, chunk, finished, failed, consume_chunk, drop_chunk,
}
use muxtls.Connection.Receive
use muxtls.Connection.Shared.{release_handle}
use muxtls.Error.{Error}
use muxtls.Stream.{IoError, other, select_mode, chunks_mode, async_mode}

-- `read_fut`, the future of `StreamState::read_chunk`, keeps nothing between its polls but that it is
-- there.
pub record RecvStream : Type 0 where
  pub read_fut : Bool
  pub read_buf : Option InboundChunk
  pub read_pos : ℕ
  pub eof : Bool

module _ (S : Semaphores) where
  abbrev pub put_state : StreamState → Receiving S → Receiving S
  put_state state r = record r { state = state }

  -- `RecvStream::new`, with `add_recv_handle`.
  unfoldable pub new_recv_stream : Receiving S → RecvStream × Receiving S
  new_recv_stream r = (
    record { read_fut = false; read_buf = none; read_pos = 0; eof = false },
    put_state (record r.state { recv_handles = (r.state.recv_handles + 1) % 2 ^ 64 }) r,
  )

  unfoldable pub select_recv_mode : ℕ → Receiving S → Result Error (Receiving S)
  select_recv_mode requested r = do
    mode ← select_mode r.state.recv_mode requested
    ok (put_state (record r.state { recv_mode = mode }) r)

  -- `InboundChunk::into_bytes`: all is consumed, and the rest of the chunk is dropped without bytes.
  unfoldable pub into_bytes : InboundChunk → Receiving S → List ℕ × Receiving S
  into_bytes c r =
      let (d, q) = consume_chunk S (length c.bytes) c r in
      (c.bytes, drop_chunk S (record d { bytes = [] }) q)

  abbrev pub chunk_bytes :
      ReadResult × Receiving S → Poll (Result Error (Option (List ℕ))) × Receiving S
  chunk_bytes (chunk c, q) = let (bytes, t) = into_bytes c q in (ready (ok (some bytes)), t)
  chunk_bytes (finished, q) = (ready (ok none), q)
  chunk_bytes (failed e, q) = (ready (err e), q)
  chunk_bytes (Receive.pending, q) = (pending, q)

  -- A poll of `read_chunk`.
  unfoldable pub read_chunk : Receiving S → Poll (Result Error (Option (List ℕ))) × Receiving S
  unfolding into_bytes
  read_chunk r = elim (select_recv_mode chunks_mode r) [
    | err e ↦ (ready (err e), r)
    | ok q ↦ chunk_bytes (Receive.read_chunk S q)
  ]

  -- What a poll of the loop gives: the bytes that it has put into the buffer.
  abbrev pub ReadPoll : Type 0
  ReadPoll = Poll (Result IoError (List ℕ)) × RecvStream × Receiving S

  -- From a chunk with bytes: as many as there is room for.
  unfoldable pub put_slice : ℕ → InboundChunk → RecvStream → Receiving S → ReadPoll
  put_slice room c s r =
      let count = min (length c.bytes) room in
      let (d, q) = consume_chunk S count (record c { bytes = drop count c.bytes }) r in
      (
        ready (ok (take count c.bytes)),
        record s { read_buf = if is_empty d.bytes then none else some d },
        if is_empty d.bytes then drop_chunk S d q else q,
      )

  -- What the poll of the read future gives; `again` is the next round, with a chunk.
  unfoldable pub after_read :
      (RecvStream → Receiving S → Option ReadPoll)
      → RecvStream
      → ReadResult × Receiving S
      → Option ReadPoll
  after_read again s (chunk c, q) =
      again (record s { read_fut = false; read_buf = some c; read_pos = 0 }) q
  after_read again s (finished, q) =
      some (ready (ok []), record s { read_fut = false; eof = true }, q)
  after_read again s (failed e, q) = some (ready (err (other e)), record s { read_fut = false }, q)
  after_read again s (Receive.pending, q) = some (pending, record s { read_fut = true }, q)

  -- The loop; `rounds` bounds its rounds, and none are left only where that is too few.
  unfoldable pub read_loop : ℕ → ℕ → RecvStream → Receiving S → Option ReadPoll
  unfolding after_read put_slice
  read_loop zero room s r = none
  read_loop (suc rounds) room s r = elim s.read_buf [
    | some c ↦
        let dropped = read_loop rounds room (record s { read_buf = none }) (drop_chunk S c r) in
        if min (length c.bytes) room == 0 then dropped else some (put_slice room c s r)
    | none ↦
        if s.eof
        then some (ready (ok []), s, r)
        else after_read (read_loop rounds room) s (Receive.read_chunk S r)
  ]

  -- At most two rounds for each chunk that waits, and two more.
  abbrev pub rounds_for : Receiving S → ℕ
  rounds_for r = 2 * length r.state.inbound.chunks + 2

  -- `poll_read` once the mode is selected.
  unfoldable pub read_selected :
      ℕ → RecvStream → Receiving S → Result Error (Receiving S) → Option ReadPoll
  unfolding read_loop
  read_selected room s r (err e) = some (ready (err (other e)), s, r)
  read_selected room s r (ok q) =
      if room == 0 then some (ready (ok []), s, q) else read_loop (rounds_for q) room s q

  unfoldable pub poll_read : ℕ → RecvStream → Receiving S → Option ReadPoll
  unfolding read_selected
  poll_read room s r = read_selected room s r (select_recv_mode async_mode r)

  abbrev pub drop_read_buf : Option InboundChunk → Receiving S → Receiving S
  drop_read_buf none r = r
  drop_read_buf (some c) r = drop_chunk S c r

  -- The drop of the handle, with that of its chunk.
  unfoldable pub drop_recv_stream : RecvStream → Receiving S → Receiving S
  drop_recv_stream s r =
      let (left, last) = release_handle r.state.recv_handles in
      drop_read_buf s.read_buf (
        put_state
          (record r.state { recv_handles = left; recv_dropped = last || r.state.recv_dropped }) r)
