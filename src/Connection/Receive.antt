-- ===== src/Connection/Receive.antt =====
-- The receive half of a stream in muxtls/src/connection.rs: its inbound chunks with their permits, the
-- windows that they are charged to, and the operations of the reader and of the receive handle. Wake-ups
-- have no effect here. An error of the reader ends the connection, so no state is returned with it.
pub mod Store
pub mod Balance
pub mod Accept
pub mod Clear
pub mod Order
pub mod Read
use muxtls.Base.{
  ℕ, ◌+◌, ◌-◌, ◌*◌, ◌/◌, ◌%◌, ◌^◌, min, Bool, true, false, ◌&&◌, ◌||◌, Option, none, some, List, [],
  ◌∷◌, ◌++◌,
}
use muxtls.Base.{
  Result, ok, err, ◌>>=◌, ◌>>◌, fail_if, ok_or, length, leb, ltb, ◌==◌, if◌then◌else◌,
}
use muxtls.Connection.State.{InboundChunk, InboundState, StreamState}
use muxtls.Connection.Permits.{Semaphores}
use muxtls.Flow.{ReceiveWindow, receive, consume, div_ceil_2}
use muxtls.Error.{
  Error, protocol, limit_exceeded, stream_frame_after_close, reset_after_close, data_after_fin,
  inbound_connection_bytes, inbound_stream_bytes, connection_closed, stream_reset, Message,
}
use muxtls.Error

-- What one poll of `read_chunk` finds.
pub data ReadResult : Type 0 where
  chunk : InboundChunk → ReadResult
  finished : ReadResult
  failed : Error → ReadResult
  pending : ReadResult

abbrev pub inbound_page : ℕ → ℕ
inbound_page max_inbound_stream_bytes = min max_inbound_stream_bytes (16 * 1024)

-- A small payload joins the last chunk if that is a page with room. A payload here is never empty.
unfoldable pub extend_tail : ℕ → List ℕ → List InboundChunk → Option (List InboundChunk)
extend_tail page_size payload [] = none
extend_tail page_size payload (c ∷ []) =
    if c.is_page && leb (length c.bytes + length payload) page_size
    then some (record c { bytes = c.bytes ++ payload; permits = c.permits + length payload } ∷ [])
    else none
extend_tail page_size payload (c ∷ d ∷ cs) = elim (extend_tail page_size payload (d ∷ cs)) [
  | none ↦ none
  | some rest ↦ some (c ∷ rest)
]

unfoldable pub store : ℕ → List ℕ → List InboundChunk → List InboundChunk
unfolding extend_tail
store page_size payload chunks = elim (extend_tail page_size payload chunks) [
  | some extended ↦ extended
  | none ↦
      chunks
      ++ (record {
        bytes = payload;
        is_page = ltb (length payload) (div_ceil_2 page_size);
        permits = length payload;
      }
          ∷ [])
]

-- `ensure_peer_send_open`.
unfoldable pub ensure_peer_send_open : StreamState → Message → Result Error (Unit {0})
ensure_peer_send_open state message = fail_if state.recv_terminal (protocol message)

module _ (S : Semaphores) where
  -- One stream with the connection's window and permits.
  pub record Receiving : Type 0 where
    pub max_inbound_stream_bytes : ℕ
    pub connection_window : ReceiveWindow
    pub inbound_conn_bytes : S.Semaphore
    pub inbound_stream_bytes : S.Semaphore
    pub state : StreamState

  -- `InboundChunk::consume`: `split` gives up the permits only where there are as many.
  unfoldable pub consume_chunk : ℕ → InboundChunk → Receiving → InboundChunk × Receiving
  consume_chunk count c r =
      let freed = if leb count c.permits then count else 0 in
      (
        record c { permits = c.permits - freed },
        record r {
          inbound_conn_bytes = S.add_permits r.inbound_conn_bytes freed;
          inbound_stream_bytes = S.add_permits r.inbound_stream_bytes freed;
          connection_window = (consume r.connection_window count).0;
          state = record r.state { receive_window = (consume r.state.receive_window count).0 };
        },
      )

  -- Drop of an InboundChunk, and of the permits that it has left.
  unfoldable pub drop_chunk : InboundChunk → Receiving → Receiving
  unfolding consume_chunk
  drop_chunk c r =
      let (d, q) = consume_chunk (length c.bytes) c r in
      record q {
        inbound_conn_bytes = S.add_permits q.inbound_conn_bytes d.permits;
        inbound_stream_bytes = S.add_permits q.inbound_stream_bytes d.permits;
      }

  unfoldable pub drop_chunks : List InboundChunk → Receiving → Receiving
  unfolding drop_chunk
  drop_chunks [] r = r
  drop_chunks (c ∷ cs) r = drop_chunks cs (drop_chunk c r)

  abbrev pub set_inbound : InboundState → Receiving → Receiving
  set_inbound inbound r = record r { state = record r.state { inbound = inbound } }

  -- `chunks.clear()`.
  unfoldable pub clear_chunks : Receiving → Receiving
  unfolding drop_chunks
  clear_chunks r =
      set_inbound (record r.state.inbound { chunks = [] }) (drop_chunks r.state.inbound.chunks r)

  unfoldable pub mark_reset : ℕ → Receiving → Receiving
  unfolding clear_chunks
  mark_reset code r =
      clear_chunks (set_inbound (record r.state.inbound { reset_error = some code }) r)

  unfoldable pub mark_recv_terminal : Receiving → Receiving
  mark_recv_terminal r = record r {
    state = record r.state {
      inbound = record r.state.inbound { fin_received = true };
      recv_terminal = true;
    };
  }

  unfoldable pub discard_inbound : Receiving → Receiving
  unfolding clear_chunks
  discard_inbound r = clear_chunks (record r { state = record r.state { recv_discarded = true } })

  -- Data for a receive half that was dropped goes back to the connection's window only.
  abbrev consume_connection : ℕ → Receiving → Receiving
  consume_connection size r = record r { connection_window = (consume r.connection_window size).0 }

  -- `try_acquire_many_owned` with the count cast to u32; an empty payload needs no permit.
  abbrev pub acquire : S.Semaphore → ℕ → Error → Result Error S.Semaphore
  acquire s size error =
      if size == 0 then ok s else ok_or (S.try_acquire_many s (size % 2 ^ 32)) error

  -- Under the lock, with the permits in hand. `discarded` is what the second load of `recv_discarded`
  -- reads: the receive half may be dropped between the two. The permits are then dropped.
  unfoldable pub push_acquired :
      Bool → List ℕ → S.Semaphore → S.Semaphore → Receiving → Result Error Receiving
  unfolding store
  push_acquired true payload conn stream r = ok (
      consume_connection (length payload) (record r {
        inbound_conn_bytes = S.add_permits conn (length payload);
        inbound_stream_bytes = S.add_permits stream (length payload);
      }))
  push_acquired false payload conn stream r =
      fail_if r.state.inbound.fin_received (protocol data_after_fin)
      >> ok (
          set_inbound
            (record r.state.inbound {
              chunks =
                  store (inbound_page r.max_inbound_stream_bytes) payload r.state.inbound.chunks;
            })
            (record r { inbound_conn_bytes = conn; inbound_stream_bytes = stream }))

  unfoldable pub push_inbound : Bool → List ℕ → Receiving → Result Error Receiving
  unfolding push_acquired
  push_inbound discarded payload r =
      if r.state.recv_discarded then ok (consume_connection (length payload) r) else do
        conn ←
            acquire r.inbound_conn_bytes (length payload) (limit_exceeded inbound_connection_bytes)
        stream ←
            acquire r.inbound_stream_bytes (length payload) (limit_exceeded inbound_stream_bytes)
        push_acquired discarded payload conn stream r

  -- `on_remote_stream_frame` once the stream is found.
  unfoldable pub stream_frame : ℕ → Bool → List ℕ → Bool → Receiving → Result Error Receiving
  stream_frame id discarded payload fin r = do
    ensure_peer_send_open r.state (stream_frame_after_close id)
    conn ← receive r.connection_window (length payload)
    stream ← receive r.state.receive_window (length payload)
    let charged = record r {
      connection_window = conn;
      state = record r.state { receive_window = stream };
    }
    pushed ← (if length payload == 0 then ok charged else push_inbound discarded payload charged)
    ok (if fin then mark_recv_terminal pushed else pushed)

  -- `on_remote_reset` once the stream is found.
  unfoldable pub reset_frame : ℕ → ℕ → Receiving → Result Error Receiving
  unfolding ensure_peer_send_open mark_reset mark_recv_terminal
  reset_frame id code r =
      ensure_peer_send_open r.state (reset_after_close id)
      >> ok (mark_recv_terminal (mark_reset code r))

  -- One round of `read_chunk`.
  unfoldable pub read_chunk : Receiving → ReadResult × Receiving
  read_chunk r = elim r.state.inbound.reset_error [
    | some code ↦ (failed (stream_reset code), r)
    | none ↦ elim r.state.inbound.chunks [
      | c ∷ cs ↦ (chunk c, set_inbound (record r.state.inbound { chunks = cs }) r)
      | [] ↦
          if r.state.inbound.fin_received || r.state.recv_terminal
          then (finished, set_inbound (record r.state.inbound { fin_received = true }) r)
          else if r.state.inbound.connection_closed
          then (failed connection_closed, r)
          else (pending, r)
    ]
  ]
