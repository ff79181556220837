-- ===== src/Stream/Reading/Order.antt =====
-- AsyncRead on a `RecvStream`: the bytes come in order, the end after all of them, and credit comes back
-- for just the bytes that were handed out.
pub mod Loop
use muxtls.Base.{
  ℕ, zero, suc, ◌+◌, ◌-◌, ◌*◌, ◌≤◌, ◌≡◌, ◌≢◌, ◌∙◌, sym, refl, ap, arith, min, Bool, true, false,
  not, ◌||◌, Option, none, some, List, [], ◌∷◌, ◌++◌,
}
use muxtls.Base.{
  Result, ok, err, length, length-append, take, drop, length-take, length-drop, take-append-drop,
  if_either, >>=-eq-ok, ◌==◌, if◌then◌else◌, Poll, ready, pending, All, Bool-cases, Option-cases,
  List-cases, inl, inr, ◌⊎◌,
}
use mathlib.Core.Path.{subst}
use mathlib.Core.List.{append_assoc}
use muxtls.Connection.Permits.{Semaphores}
use muxtls.Connection.State.{InboundChunk}
use muxtls.Connection.Writer.{is_empty}
use muxtls.Connection.Receive.{
  Receiving, ReadResult, chunk, finished, failed, consume_chunk, drop_chunk,
}
use muxtls.Connection.Receive
use muxtls.Connection.Receive.Store.{content, IsWhole}
use muxtls.Connection.Receive.Balance.{IsCharged}
use muxtls.Connection.Receive.Accept.{buffered, Balanced}
use muxtls.Connection.Receive.Read.{Reads, read_chunk-Reads, consume_chunk-Balanced, le→leb}
use muxtls.Connection.Receive.Clear.{AreCharged, drop_chunk-AreCharged}
use muxtls.Error.{Error}
use muxtls.Stream.{IoError, other, select_mode, async_mode}
use muxtls.Stream.Reading.{
  RecvStream, put_state, select_recv_mode, ReadPoll, put_slice, after_read, read_loop, rounds_for,
  poll_read, read_selected,
}

-- The bytes that the handle holds.
abbrev pub held_bytes : Option InboundChunk → List ℕ
held_bytes none = []
held_bytes (some c) = c.bytes

abbrev pub IsWholeOption : Option InboundChunk → Type 0
IsWholeOption none = Unit
IsWholeOption (some c) = IsWhole c

module _ (S : Semaphores) where
  -- What the application has not got yet: with the handle, then in the buffer.
  abbrev pub unread : RecvStream → Receiving S → List ℕ
  unread s r = held_bytes s.read_buf ++ buffered S r

  -- The handle's bytes are charged to the windows as the buffer's are; other streams hold `others`.
  pub record IsReading (others : ℕ) (s : RecvStream) (r : Receiving S) : Type 0 where
    pub whole : IsWholeOption s.read_buf
    pub balanced : Balanced S 0 (length (held_bytes s.read_buf)) others r

  -- What a call with room for `room` bytes gives.
  abbrev pub Gives : ℕ → ℕ → RecvStream → Receiving S → Option (ReadPoll S) → Type 0
  Gives others room s r none = ⊥
  Gives others room s r (some (ready (ok bs), s', q)) =
      IsReading others s' q
      × (unread s r ≡ bs ++ unread s' q)
      × (length bs ≤ room)
      × (bs ≡ [] → (room ≡ 0) ⊎ (s'.eof ≡ true))
      × (s'.eof ≡ true → (s.eof ≡ true) ⊎ ((unread s r ≡ []) × (r.state.recv_terminal ≡ true)))
  Gives others room s r (some (ready (err e), s', q)) =
      IsReading others s' q × (unread s' q ≡ unread s r)
  Gives others room s r (some (pending, s', q)) = IsReading others s' q × (unread s' q ≡ unread s r)

  -- A dropped chunk gives back its permits and credit.
  pub drop_chunk-Balanced :
      (c : InboundChunk) (out others : ℕ) (r : Receiving S)
      → IsWhole c
      → Balanced S 0 (length c.bytes + out) others r
      → Balanced S 0 out others (drop_chunk S c r) × (buffered S (drop_chunk S c r) ≡ buffered S r)
  drop_chunk-Balanced c out others r w h =
      let n = length c.bytes + (length (buffered S r) + out) in
      let charged : AreCharged S n others r = (
        subst (IsCharged S r.connection_window r.inbound_conn_bytes 0) (omega arith) h.conn,
        subst (IsCharged S r.state.receive_window r.inbound_stream_bytes 0) (omega arith) h.stream,
      ) in
      let (conn, stream) =
        drop_chunk-AreCharged S (length (buffered S r) + out) others c r w charged in
      (
        unfold drop_chunk in
            record { conn = conn; stream = stream; whole = h.whole; ends = h.ends },
        unfold drop_chunk in refl,
      )

  -- What `read_chunk` takes from the buffer.
  abbrev pub Pops : Receiving S → ReadResult × Receiving S → Type 0
  Pops r (chunk c, q) =
      (r.state.inbound.chunks ≡ c ∷ q.state.inbound.chunks)
      × (q.state.recv_terminal ≡ r.state.recv_terminal)
  Pops r (finished, q) = r.state.inbound.chunks ≡ q.state.inbound.chunks
  Pops r _ = Unit

  pub read_chunk-Pops : (r : Receiving S) → Pops r (Receive.read_chunk S r)
  unfolding Receive.read_chunk
  read_chunk-Pops r = ground arith

  -- A chunk that has lost its first `count` bytes.
  abbrev rest_of : ℕ → InboundChunk → InboundChunk
  rest_of count c = record c { bytes = drop count c.bytes; permits = c.permits - count }

  rest_of-IsWhole : (count : ℕ) (c : InboundChunk) → IsWhole c → IsWhole (rest_of count c)
  rest_of-IsWhole count c w = omega (arith, w, length-drop count c.bytes)

  consumed :
      (count others : ℕ) (c : InboundChunk) (r : Receiving S)
      → IsWhole c
      → count ≤ length c.bytes
      → Balanced S 0 (length c.bytes) others r
      → (q : Receiving S) × (consume_chunk S count (record c { bytes = drop count c.bytes }) r
          ≡ (rest_of count c, q))
        × Balanced S 0 (length (drop count c.bytes)) others q
        × (buffered S q ≡ buffered S r)
  consumed count others c r w le h =
      let c' : InboundChunk = record c { bytes = drop count c.bytes } in
      let b = consume_chunk-Balanced S count (length c.bytes) others c' r h (omega (arith, w)) le in
      (
        (consume_chunk S count c' r).1,
        unfold consume_chunk in rw (le→leb count c.permits (omega (arith, w))) refl,
        subst (λ n. Balanced S 0 n others (consume_chunk S count c' r).1)
            (sym (length-drop count c.bytes)) b,
        unfold consume_chunk in refl,
      )

  -- The bytes that go out, before the rest of the chunk and the buffer.
  front_bytes :
      (count : ℕ) (bs xs ys : List ℕ) → xs ≡ ys → bs ++ ys ≡ take count bs ++ (drop count bs ++ xs)
  front_bytes count bs xs ys e =
      rw e (ap (λ zs. zs ++ ys) (sym (take-append-drop count bs)) ∙ simp append_assoc refl)

  empty_rest : (xs : List ℕ) → is_empty xs ≡ true → xs ≡ []
  empty_rest [] e = refl
  empty_rest (x ∷ xs) e = absurd (cc e)

  never_empty :
      (count : ℕ) (bs : List ℕ) → count == 0 ≡ false → count ≤ length bs → take count bs ≢ []
  never_empty count bs e le h = ground (arith, length-take count bs, ap length h)

  sliced :
      (others room count : ℕ) (c : InboundChunk) (s : RecvStream) (r q : Receiving S)
      → count ≤ length c.bytes
      → count ≤ room
      → count == 0 ≡ false
      → IsWhole c
      → Balanced S 0 (length (drop count c.bytes)) others q
      → buffered S q ≡ buffered S r
      → Gives others room
          (record s { read_buf = some c })
          r
          (some (
            ready (ok (take count c.bytes)),
            record s {
              read_buf = if is_empty (drop count c.bytes) then none else some (rest_of count c);
            },
            if is_empty (drop count c.bytes) then drop_chunk S (rest_of count c) q else q,
          ))
  sliced others room count c s r q le fits e w b y =
      elim (Bool-cases (is_empty (drop count c.bytes))) [
        | inl z ↦
            let gone = empty_rest (drop count c.bytes) z in
            let (d, k) =
              drop_chunk-Balanced (rest_of count c) 0 others q (rest_of-IsWhole count c w)
                (subst (λ n. Balanced S 0 n others q) (omega arith) b) in
            rw z (
              record { whole = tt; balanced = d },
              front_bytes count c.bytes (buffered S q) (buffered S r) y
                  ∙ ap (λ xs. take count c.bytes ++ xs)
                      (ap (λ ys. ys ++ buffered S q) gone ∙ sym k),
              omega (arith, length-take count c.bytes),
              λ h. absurd (never_empty count c.bytes e le h),
              λ h. inl h,
            )
        | inr z ↦ rw z (
          record { whole = rest_of-IsWhole count c w; balanced = b },
          front_bytes count c.bytes (buffered S q) (buffered S r) y,
          omega (arith, length-take count c.bytes),
          λ h. absurd (never_empty count c.bytes e le h),
          λ h. inl h,
        )
      ]

  pub put_slice-Gives :
      (others room : ℕ) (c : InboundChunk) (s : RecvStream) (r : Receiving S)
      → IsWhole c
      → Balanced S 0 (length c.bytes) others r
      → min (length c.bytes) room == 0 ≡ false
      → Gives others room (record s { read_buf = some c }) r (some (put_slice S room c s r))
  unfolding put_slice
  put_slice-Gives others room c s r w h e =
      let count = min (length c.bytes) room in
      let (q, x, b, y) = consumed count others c r w (omega arith) h in
      rw (x, Gives) (sliced others room count c s r q (omega arith) (omega arith) e w b y)

  -- A call that goes on from a state with the same bytes left.
  pub Gives-before :
      (others room : ℕ) (s s' : RecvStream) (r r' : Receiving S) (o : Option (ReadPoll S))
      → unread s' r' ≡ unread s r
      → s'.eof ≡ s.eof
      → r'.state.recv_terminal ≡ r.state.recv_terminal
      → Gives others room s' r' o
      → Gives others room s r o
  Gives-before others room s s' r r' none u e t h = h
  Gives-before others room s s' r r' (some (pending, x, q)) u e t h = (h.0, h.1 ∙ u)
  Gives-before others room s s' r r' (some (ready (err y), x, q)) u e t h = (h.0, h.1 ∙ u)
  Gives-before others room s s' r r' (some (ready (ok bs), x, q)) u e t h = (
    h.0,
    sym u ∙ h.1,
    h.2,
    h.3,
    λ k. elim (h.4 k) [ inl a ↦ inl (sym e ∙ a) | inr a ↦ inr (sym u ∙ a.0, sym t ∙ a.1) ],
  )

  -- The rounds that are left at most.
  abbrev pub measure : Option InboundChunk → Receiving S → ℕ
  measure none r = 2 * length r.state.inbound.chunks + 1
  measure (some c) r = 2 * length r.state.inbound.chunks + 2
