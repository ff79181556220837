-- ===== src/Connection/Receive/Accept.antt =====
-- What the reader does with a STREAM frame of an open stream.
use muxtls.Base.{ℕ, ◌+◌, ◌≤◌, ◌≡◌, ◌∙◌, sym, refl, ap, arith, Bool, true, false}
use muxtls.Base.{
  List, [], ◌∷◌, ◌++◌, ok, err, length, length-append, All, inl, inr, ◌⊎◌, ◌==◌, Bool-cases,
}
use muxtls.Base.{if◌then◌else◌}
use mathlib.Core.Path.{subst}
use mathlib.Core.List.{append-nil}
use muxtls.Base.Bits.{==→eq}
use muxtls.Flow.{receive}
use muxtls.Flow.Credit.{receive_iff}
use muxtls.Connection.Permits.{Semaphores}
use muxtls.Connection.State.{InboundChunk}
use muxtls.Connection.Receive.{
  Receiving, push_inbound, push_acquired, inbound_page, store, stream_frame, mark_recv_terminal,
  ensure_peer_send_open,
}
use muxtls.Connection.Receive.Store.{content, IsWhole, store-Extends}
use muxtls.Connection.Receive.Balance.{IsCharged, receive-IsCharged, acquire-IsCharged}
use muxtls.Error.{
  Message, protocol, exceeded_receive_credit, limit_exceeded, inbound_connection_bytes,
  inbound_stream_bytes, stream_frame_after_close,
}

module _ (S : Semaphores) where
  -- The bytes that wait to be read.
  abbrev pub buffered : Receiving S → List ℕ
  buffered r = content r.state.inbound.chunks

  -- `out` bytes of the stream are with the application, `other` bytes belong to other streams.
  pub record Balanced (arriving out other : ℕ) (r : Receiving S) : Type 0 where
    pub conn :
        IsCharged S r.connection_window r.inbound_conn_bytes arriving
          (length (buffered r) + out + other)
    pub stream :
        IsCharged S r.state.receive_window r.inbound_stream_bytes arriving
          (length (buffered r) + out)
    pub whole : All IsWhole r.state.inbound.chunks
    pub ends : r.state.inbound.fin_received ≡ r.state.recv_terminal

  -- The frame's bytes follow what was there.
  pub record Accepted (out other : ℕ) (p : List ℕ) (fin : Bool) (old : List ℕ) (q : Receiving S)
      : Type 0 where
    pub balanced : Balanced 0 out other q
    pub bytes : buffered q ≡ old ++ p
    pub ended : q.state.recv_terminal ≡ fin
    pub kept : q.state.recv_discarded ≡ false

  length_stored :
      (p : List ℕ) (r : Receiving S) (chunks : List InboundChunk)
      → content chunks ≡ buffered r ++ p
      → length (content chunks) ≡ length (buffered r) + length p
  length_stored p r chunks e = omega (arith, ap length e, length-append (buffered r) p)

  push_inbound-Accepted :
      (out other : ℕ) (p : List ℕ) (r : Receiving S)
      → Balanced (length p) out other r
      → r.state.recv_terminal ≡ false
      → r.state.recv_discarded ≡ false
      → (q : Receiving S) × (push_inbound S false p r ≡ ok q)
        × Accepted out other p false (buffered r) q
  unfolding push_inbound push_acquired
  push_inbound-Accepted out other p r h open_end kept =
      let (conn, got, c) =
        acquire-IsCharged S (length p) (limit_exceeded inbound_connection_bytes) h.conn in
      let (stream, got', s) =
        acquire-IsCharged S (length p) (limit_exceeded inbound_stream_bytes) h.stream in
      let stored =
        store-Extends (inbound_page r.max_inbound_stream_bytes) p r.state.inbound.chunks in
      let longer =
        length_stored p r (store (inbound_page r.max_inbound_stream_bytes) p r.state.inbound.chunks)
          stored.0 in
      rw (kept, got, got', h.ends ∙ open_end)
        (
          _,
          refl,
          record {
            balanced = record {
              conn = subst (IsCharged S r.connection_window conn 0) (omega (arith, longer)) c;
              stream =
                  subst (IsCharged S r.state.receive_window stream 0) (omega (arith, longer)) s;
              whole = stored.1 h.whole;
              ends = sym open_end;
            };
            bytes = stored.0;
            ended = open_end;
            kept = refl;
          },
        )

  -- The payload ends within the limits announced for the connection and for the stream.
  abbrev pub IsWithin : List ℕ → Receiving S → Type 0
  IsWithin p r =
      (r.connection_window.received + length p ≤ r.connection_window.advertised)
      × (r.state.receive_window.received + length p ≤ r.state.receive_window.advertised)

  -- The state once both windows have counted the payload.
  abbrev charge : ℕ → Receiving S → Receiving S
  charge size r = record r {
    connection_window = record r.connection_window {
      received = r.connection_window.received + size;
    };
    state = record r.state {
      receive_window = record r.state.receive_window {
        received = r.state.receive_window.received + size;
      };
    };
  }

  charge-Balanced :
      (out other : ℕ) (p : List ℕ) (r : Receiving S)
      → Balanced 0 out other r
      → receive r.connection_window (length p) ≡ ok (charge (length p) r).connection_window
      → receive r.state.receive_window (length p) ≡ ok (charge (length p) r).state.receive_window
      → Balanced (length p) out other (charge (length p) r)
  charge-Balanced out other p r h e e' = record {
    conn = receive-IsCharged S (length p) h.conn e;
    stream = receive-IsCharged S (length p) h.stream e';
    whole = h.whole;
    ends = h.ends;
  }

  mark_recv_terminal-Accepted :
      (out other : ℕ) (p : List ℕ) (fin : Bool) (old : List ℕ) (q : Receiving S)
      → Accepted out other p false old q
      → Accepted out other p fin old (if fin then mark_recv_terminal S q else q)
  unfolding mark_recv_terminal
  mark_recv_terminal-Accepted out other p true old q h = record {
    balanced = record {
      conn = h.balanced.conn;
      stream = h.balanced.stream;
      whole = h.balanced.whole;
      ends = refl;
    };
    bytes = h.bytes;
    ended = refl;
    kept = h.kept;
  }
  mark_recv_terminal-Accepted out other p false old q h = h

  -- An empty payload is not stored, and nothing changes.
  empty-Accepted :
      (out other : ℕ) (p : List ℕ) (r : Receiving S)
      → Balanced (length p) out other r
      → length p ≡ 0
      → r.state.recv_terminal ≡ false
      → r.state.recv_discarded ≡ false
      → Accepted out other p false (buffered r) r
  empty-Accepted out other [] r h e open_end kept = record {
    balanced = h;
    bytes = sym (append-nil (buffered r));
    ended = open_end;
    kept = kept;
  }
  empty-Accepted out other (b ∷ bs) r h e open_end kept = absurd (omega arith)

  pub still_open :
      (m : Message) (r : Receiving S)
      → r.state.recv_terminal ≡ false
      → ensure_peer_send_open r.state m ≡ ok tt
  unfolding ensure_peer_send_open
  still_open m r e = rw e refl

  accepts :
      (id out other : ℕ) (p : List ℕ) (fin : Bool) (r : Receiving S)
      → Balanced (length p) out other (charge (length p) r)
      → receive r.connection_window (length p) ≡ ok (charge (length p) r).connection_window
      → receive r.state.receive_window (length p) ≡ ok (charge (length p) r).state.receive_window
      → r.state.recv_terminal ≡ false
      → r.state.recv_discarded ≡ false
      → (q : Receiving S) × (stream_frame S id false p fin r ≡ ok q)
        × Accepted out other p fin (buffered r) q
  unfolding stream_frame
  accepts id out other p fin r h e e' open_end kept = elim (Bool-cases (length p == 0)) [
    | inl z ↦
        rw (still_open (stream_frame_after_close id) r open_end, e, e', z)
          (
            _,
            refl,
            mark_recv_terminal-Accepted out other p fin (buffered r) _
                (empty-Accepted out other p (charge (length p) r) h (==→eq _ _ z) open_end kept),
          )
    | inr z ↦
        let (q, pushed, a) =
          push_inbound-Accepted out other p (charge (length p) r) h open_end kept in
        rw (still_open (stream_frame_after_close id) r open_end, e, e', z, pushed)
          (_, refl, mark_recv_terminal-Accepted out other p fin (buffered r) q a)
  ]

  -- On a stream in balance that its peer has not ended and whose receive handle lives, a STREAM frame is
  -- accepted exactly when its payload is within both announced limits, and then its bytes stand behind
  -- those buffered, and FIN is kept. Permits are never short: beyond a limit the answer is the credit
  -- error.
  pub stream_frame-answers :
      (id out other : ℕ) (p : List ℕ) (fin : Bool) (r : Receiving S)
      → Balanced 0 out other r
      → r.state.recv_terminal ≡ false
      → r.state.recv_discarded ≡ false
      → (IsWithin p r
          × ((q : Receiving S) × (stream_frame S id false p fin r ≡ ok q)
              × Accepted out other p fin (buffered r) q))
        ⊎ ((¬ IsWithin p r)
            × (stream_frame S id false p fin r ≡ err (protocol exceeded_receive_credit)))
  unfolding stream_frame
  stream_frame-answers id out other p fin r h open_end kept =
      elim (receive_iff r.connection_window (length p) h.conn.window) [
        | inr (over, e) ↦ inr (
          λ within. omega (arith, within.0, over),
          rw (still_open (stream_frame_after_close id) r open_end, e) refl,
        )
        | inl (fits, e) ↦ elim (receive_iff r.state.receive_window (length p) h.stream.window) [
          | inr (over, e') ↦ inr (
            λ within. omega (arith, within.1, over),
            rw (still_open (stream_frame_after_close id) r open_end, e, e') refl,
          )
          | inl (fits', e') ↦ inl (
            (fits, fits'),
            accepts id out other p fin r (charge-Balanced out other p r h e e') e e' open_end kept,
          )
        ]
      ]
