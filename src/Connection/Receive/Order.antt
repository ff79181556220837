-- ===== src/Connection/Receive/Order.antt =====
-- One stream through any interleaving of the reader, the application, the writer and the other streams.
use muxtls.Base.{ℕ, ◌+◌, ◌-◌, ◌≤◌, ◌≡◌, ◌∙◌, sym, refl, ap, arith, Bool, false}
use muxtls.Base.{List, [], ◌++◌, Result, ok, length, inl, inr}
use mathlib.Core.Path.{subst}
use mathlib.Core.List.{append_assoc}
use muxtls.Flow.{ReceiveWindow, receive, consume, update}
use muxtls.Connection.Permits.{Semaphores}
use muxtls.Connection.State.{InboundChunk}
use muxtls.Connection.Receive.{Receiving, chunk, stream_frame, consume_chunk, read_chunk, acquire}
use muxtls.Connection.Receive.Balance.{
  IsCharged, receive-IsCharged, acquire-IsCharged, consume-IsCharged, update-IsCharged,
}
use muxtls.Connection.Receive.Accept.{buffered, Balanced, Accepted, stream_frame-answers}
use muxtls.Connection.Receive.Read.{Reads, read_chunk-Reads, consume_chunk-Balanced}
use muxtls.Error.{Error}

module _ (S : Semaphores) (start : Receiving S) (others : ℕ) where
  -- What can happen, in any order. The indices are the bytes of the stream's frames so far, those handed
  -- to the application, how many of them it still holds, and how many bytes other streams hold.
  pub data Trace : List ℕ → List ℕ → ℕ → ℕ → Receiving S → Type 0 where
    begins : Trace [] [] 0 others start
    arrives :
        {xs ys : List ℕ} {out other : ℕ} {r q : Receiving S} (id : ℕ) (p : List ℕ) (fin : Bool)
        → Trace xs ys out other r
        → r.state.recv_terminal ≡ false
        → stream_frame S id false p fin r ≡ ok q
        → Trace (xs ++ p) ys out other q
    reads :
        {xs ys : List ℕ} {out other : ℕ} {r q : Receiving S} (c : InboundChunk)
        → Trace xs ys out other r
        → read_chunk S r ≡ (chunk c, q)
        → Trace xs (ys ++ c.bytes) (out + length c.bytes) other q
    consumes :
        {xs ys : List ℕ} {out other : ℕ} {r : Receiving S} (count : ℕ) (c : InboundChunk)
        → Trace xs ys out other r
        → count ≤ c.permits
        → count ≤ out
        → Trace xs ys (out - count) other (consume_chunk S count c r).1
    updates_stream :
        {xs ys : List ℕ} {out other : ℕ} {r : Receiving S}
        → Trace xs ys out other r
        → Trace xs ys out other (record r {
          state = record r.state { receive_window = (update r.state.receive_window).0 };
        })
    updates_connection :
        {xs ys : List ℕ} {out other : ℕ} {r : Receiving S}
        → Trace xs ys out other r
        → Trace xs ys out other (record r { connection_window = (update r.connection_window).0 })
    others_arrive :
        {xs ys : List ℕ} {out other : ℕ} {r : Receiving S} {v : ReceiveWindow} {t : S.Semaphore}
        (size : ℕ) (error : Error)
        → Trace xs ys out other r
        → receive r.connection_window size ≡ ok v
        → acquire S r.inbound_conn_bytes size error ≡ ok t
        → Trace xs ys out
            (other + size)
            (record r { connection_window = v; inbound_conn_bytes = t })
    others_consume :
        {xs ys : List ℕ} {out other : ℕ} {r : Receiving S} (size : ℕ)
        → Trace xs ys out other r
        → size ≤ other
        → Trace xs ys out (other - size) (record r {
          connection_window = (consume r.connection_window size).0;
          inbound_conn_bytes = S.add_permits r.inbound_conn_bytes size;
        })

  pub record IsOrdered (xs ys : List ℕ) (out other : ℕ) (r : Receiving S) : Type 0 where
    pub balanced : Balanced S 0 out other r
    pub bytes : xs ≡ ys ++ buffered S r
    pub kept : r.state.recv_discarded ≡ false

  ok-injective : {A : Type 0} (a b : A) → ◌≡◌ {A = Result Error A} (ok a) (ok b) → a ≡ b
  ok-injective a b e = cc

  arrives-IsOrdered :
      (id : ℕ) (p : List ℕ) (fin : Bool) (xs ys : List ℕ) (out other : ℕ) (r q : Receiving S)
      → IsOrdered xs ys out other r
      → r.state.recv_terminal ≡ false
      → stream_frame S id false p fin r ≡ ok q
      → IsOrdered (xs ++ p) ys out other q
  arrives-IsOrdered id p fin xs ys out other r q h open_end e =
      elim (stream_frame-answers S id out other p fin r h.balanced open_end h.kept) [
        | inr w ↦ absurd (cc)
        | inl w ↦
            let (t, e', b) = w.1 in
            let a =
              subst (Accepted S out other p fin (buffered S r)) (ok-injective t q (sym e' ∙ e)) b in
            record {
              balanced = a.balanced;
              bytes = ap (λ zs. zs ++ p) h.bytes ∙ simp (a.bytes, append_assoc) refl;
              kept = a.kept;
            }
      ]

  reads-IsOrdered :
      (c : InboundChunk) (xs ys : List ℕ) (out other : ℕ) (r q : Receiving S)
      → IsOrdered xs ys out other r
      → read_chunk S r ≡ (chunk c, q)
      → IsOrdered xs (ys ++ c.bytes) (out + length c.bytes) other q
  reads-IsOrdered c xs ys out other r q h e =
      let (bytes, balanced, kept) =
        subst (Reads S out other r) e (read_chunk-Reads S out other r h.balanced) in
      record {
        balanced = balanced;
        bytes = h.bytes ∙ simp (bytes, append_assoc) refl;
        kept = kept ∙ h.kept;
      }

  consumes-IsOrdered :
      (count : ℕ) (c : InboundChunk) (xs ys : List ℕ) (out other : ℕ) (r : Receiving S)
      → IsOrdered xs ys out other r
      → count ≤ c.permits
      → count ≤ out
      → IsOrdered xs ys (out - count) other (consume_chunk S count c r).1
  unfolding consume_chunk
  consumes-IsOrdered count c xs ys out other r h fits le = record {
    balanced = consume_chunk-Balanced S count out other c r h.balanced fits le;
    bytes = h.bytes;
    kept = h.kept;
  }

  others_arrive-Balanced :
      (size out other : ℕ) (error : Error) (r : Receiving S) (v : ReceiveWindow) (t : S.Semaphore)
      → Balanced S 0 out other r
      → receive r.connection_window size ≡ ok v
      → acquire S r.inbound_conn_bytes size error ≡ ok t
      → Balanced S 0 out (other + size) (record r { connection_window = v; inbound_conn_bytes = t })
  others_arrive-Balanced size out other error r v t h e f =
      let (u, g, c) = acquire-IsCharged S size error (receive-IsCharged S size h.conn e) in
      record {
        conn = subst (IsCharged S v t 0) (omega arith) (
            subst (λ u'. IsCharged S v u' 0 (length (buffered S r) + out + other + size))
              (ok-injective u t (sym g ∙ f)) c);
        stream = h.stream;
        whole = h.whole;
        ends = h.ends;
      }

  others_consume-Balanced :
      (size out other : ℕ) (r : Receiving S)
      → Balanced S 0 out other r
      → size ≤ other
      → Balanced S 0 out (other - size) (record r {
        connection_window = (consume r.connection_window size).0;
        inbound_conn_bytes = S.add_permits r.inbound_conn_bytes size;
      })
  others_consume-Balanced size out other r h le = record {
    conn =
        subst
          (IsCharged S (consume r.connection_window size).0
            (S.add_permits r.inbound_conn_bytes size) 0)
          (omega arith) (consume-IsCharged S size h.conn (omega arith));
    stream = h.stream;
    whole = h.whole;
    ends = h.ends;
  }

  -- From a stream that starts empty, not discarded and in balance with its connection, whatever happens
  -- in any order keeps the bytes of the accepted frames equal to those delivered followed by those
  -- buffered, and windows, permits and buffers in balance.
  pub Trace-IsOrdered :
      {xs ys : List ℕ} {out other : ℕ} {r : Receiving S}
      → IsOrdered [] [] 0 others start
      → Trace xs ys out other r
      → IsOrdered xs ys out other r
  Trace-IsOrdered s begins = s
  Trace-IsOrdered s (arrives id p fin t open_end e) =
      arrives-IsOrdered id p fin _ _ _ _ _ _ (Trace-IsOrdered s t) open_end e
  Trace-IsOrdered s (reads c t e) = reads-IsOrdered c _ _ _ _ _ _ (Trace-IsOrdered s t) e
  Trace-IsOrdered s (consumes count c t fits le) =
      consumes-IsOrdered count c _ _ _ _ _ (Trace-IsOrdered s t) fits le
  Trace-IsOrdered s (updates_stream t) =
      let h = Trace-IsOrdered s t in
      let b = h.balanced in
      record {
        balanced = record {
          conn = b.conn;
          stream = update-IsCharged S b.stream;
          whole = b.whole;
          ends = b.ends;
        };
        bytes = h.bytes;
        kept = h.kept;
      }
  Trace-IsOrdered s (updates_connection t) =
      let h = Trace-IsOrdered s t in
      let b = h.balanced in
      record {
        balanced = record {
          conn = update-IsCharged S b.conn;
          stream = b.stream;
          whole = b.whole;
          ends = b.ends;
        };
        bytes = h.bytes;
        kept = h.kept;
      }
  Trace-IsOrdered s (others_arrive size error t e f) =
      let h = Trace-IsOrdered s t in
      record {
        balanced = others_arrive-Balanced size _ _ error _ _ _ h.balanced e f;
        bytes = h.bytes;
        kept = h.kept;
      }
  Trace-IsOrdered s (others_consume size t le) =
      let h = Trace-IsOrdered s t in
      record {
        balanced = others_consume-Balanced size _ _ _ h.balanced le;
        bytes = h.bytes;
        kept = h.kept;
      }
