-- ===== src/Connection/Receive/Read.antt =====
-- What the application reads and consumes, and what that does to windows and permits.
use muxtls.Base.{ℕ, ◌+◌, ◌-◌, ◌≤◌, ◌≡◌, ◌∙◌, sym, refl, ap, arith, Bool, true, false}
use muxtls.Base.{
  List, [], ◌∷◌, ◌++◌, length, length-append, All, inl, inr, Bool-cases, Option-cases, List-cases,
  ◌||◌,
}
use muxtls.Base.{leb}
use mathlib.Core.Path.{subst}
use muxtls.Flow.{consume}
use muxtls.Connection.Permits.{Semaphores}
use muxtls.Connection.State.{InboundChunk}
use muxtls.Connection.Receive.{
  Receiving, ReadResult, chunk, finished, failed, pending, consume_chunk, read_chunk,
}
use muxtls.Connection.Receive.Store.{content, IsWhole}
use muxtls.Connection.Receive.Balance.{IsCharged, consume-IsCharged}
use muxtls.Connection.Receive.Accept.{buffered, Balanced}

both_ends : (a b : Bool) → a ≡ b → (a || b) ≡ true → b ≡ true
both_ends true b e h = sym e
both_ends false b e h = h

pub le→leb : (a b : ℕ) → a ≤ b → leb a b ≡ true
le→leb a b h = ground arith

module _ (S : Semaphores) where
  -- What a poll of `read_chunk` hands out comes from the front of the buffer, with its permits.
  abbrev pub Reads : (out other : ℕ) → Receiving S → ReadResult × Receiving S → Type 0
  Reads out other r (chunk c, q) =
      (buffered S r ≡ c.bytes ++ buffered S q)
      × Balanced S 0 (out + length c.bytes) other q
      × (q.state.recv_discarded ≡ r.state.recv_discarded)
  Reads out other r (finished, q) =
      Balanced S 0 out other q × (buffered S r ≡ []) × (r.state.recv_terminal ≡ true)
  Reads out other r (failed e, q) = Balanced S 0 out other q × (buffered S q ≡ buffered S r)
  Reads out other r (pending, q) = Balanced S 0 out other q × (buffered S q ≡ buffered S r)

  pop-Balanced :
      (out other : ℕ) (c : InboundChunk) (cs : List InboundChunk) (r : Receiving S)
      → Balanced S 0 out other r
      → r.state.inbound.chunks ≡ c ∷ cs
      → Balanced S 0
          (out + length c.bytes)
          other
          (record r { state = record r.state { inbound = record r.state.inbound { chunks = cs } } })
  pop-Balanced out other c cs r h e = record {
    conn =
        subst (IsCharged S r.connection_window r.inbound_conn_bytes 0) (omega (arith, moved))
          h.conn;
    stream =
        subst (IsCharged S r.state.receive_window r.inbound_stream_bytes 0) (omega (arith, moved))
          h.stream;
    whole = rest.1;
    ends = h.ends;
  }
    where
      moved : length (buffered S r) ≡ length c.bytes + length (content cs)
      moved = ap (λ ds. length (content ds)) e ∙ length-append c.bytes (content cs)

      rest : All IsWhole (c ∷ cs)
      rest = subst (All IsWhole) e h.whole

  pub read_chunk-Reads :
      (out other : ℕ) (r : Receiving S)
      → Balanced S 0 out other r
      → Reads out other r (read_chunk S r)
  unfolding read_chunk
  read_chunk-Reads out other r h = elim (Option-cases r.state.inbound.reset_error) [
    | inr (code, e) ↦
        rw e (record { conn = h.conn; stream = h.stream; whole = h.whole; ends = h.ends }, refl)
    | inl e ↦ elim (List-cases r.state.inbound.chunks) [
      | inr (c, cs, f) ↦
          rw (e, f)
            (
              refl,
              (let b = pop-Balanced out other c cs r h f in
                  record { conn = b.conn; stream = b.stream; whole = b.whole; ends = b.ends }),
              refl,
            )
      | inl f ↦ elim (Bool-cases (r.state.inbound.fin_received || r.state.recv_terminal)) [
        | inl g ↦
            rw (e, f, g)
              (
                record {
                  conn = h.conn;
                  stream = h.stream;
                  whole = h.whole;
                  ends = sym (both_ends _ _ h.ends g);
                },
                refl,
                both_ends _ _ h.ends g,
              )
        | inr g ↦ elim (Bool-cases r.state.inbound.connection_closed) [
          | inl k ↦
              rw (e, f, g, k)
                (
                  record { conn = h.conn; stream = h.stream; whole = h.whole; ends = h.ends },
                  ap content f,
                )
          | inr k ↦
              rw (e, f, g, k)
                (
                  record { conn = h.conn; stream = h.stream; whole = h.whole; ends = h.ends },
                  ap content f,
                )
        ]
      ]
    ]
  ]

  pub consume_chunk-Balanced :
      (count out other : ℕ) (c : InboundChunk) (r : Receiving S)
      → Balanced S 0 out other r
      → count ≤ c.permits
      → count ≤ out
      → Balanced S 0 (out - count) other (consume_chunk S count c r).1
  unfolding consume_chunk
  consume_chunk-Balanced count out other c r h fits le = rw (le→leb count c.permits fits) record {
    conn =
        subst
          (IsCharged S (consume r.connection_window count).0
            (S.add_permits r.inbound_conn_bytes count) 0)
          (omega arith) (consume-IsCharged S count h.conn (omega arith));
    stream =
        subst
          (IsCharged S (consume r.state.receive_window count).0
            (S.add_permits r.inbound_stream_bytes count) 0)
          (omega arith) (consume-IsCharged S count h.stream (omega arith));
    whole = h.whole;
    ends = h.ends;
  }
