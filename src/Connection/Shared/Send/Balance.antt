-- ===== src/Connection/Shared/Send/Balance.antt =====
-- No permit is lost: each is in its semaphore, in the hands of a write, or with a queued chunk.
use muxtls.Base.{
  ℕ, ◌+◌, ◌^◌, ◌<◌, ◌≡◌, ◌∙◌, refl, sym, arith, true, List, [], ◌∷◌, ◌++◌, Option, none, some,
}
use muxtls.Base.{length, length-append, ◌==◌, if◌then◌else◌, ltb, Bool-cases, inl, inr}
use muxtls.Base.Bits.{==→eq}
use mathlib.Core.Path.{subst}
use muxtls.Connection.Permits.{Semaphores}
use muxtls.Connection.State.{OutboundChunk, Writer}
use muxtls.Connection.Writer.{entry, enqueue_data}
use muxtls.Connection.Writer.Schedule.{entry-insert}
use muxtls.Connection.Writer.Permits.{total, total-insert}
use muxtls.Connection.Writer.Delivery.Run.{accepted_queue}
use muxtls.Connection.Shared.{Shared}
use muxtls.Connection.Shared.Send.{
  Sending, at_start, at_queue, Step, goes_on, waits, ends, release, send_step, goes_to, held,
}
use muxtls.Connection.Shared.Send.Moves.{
  Moves, fails_with, waits_here, starts, locks, has_nothing, passes, takes_stream_frame,
  needs_no_stream_bytes, takes_stream_bytes, takes_frame, needs_no_conn_bytes, takes_conn_bytes,
  queues, send_step-Moves, chunk_of,
}

-- The bytes that chunks hold permits for.
abbrev pub chunk_bytes : List OutboundChunk → ℕ
chunk_bytes [] = 0
chunk_bytes (c ∷ cs) = c.permits + chunk_bytes cs

chunk_bytes-snoc :
    (q : List OutboundChunk) (c : OutboundChunk)
    → chunk_bytes (q ++ (c ∷ [])) ≡ chunk_bytes q + c.permits
chunk_bytes-snoc [] c = omega arith
chunk_bytes-snoc (d ∷ q) c = omega (arith, chunk_bytes-snoc q c)

module _ (S : Semaphores) where
  open S use {Semaphore, try_acquire_many, available_permits, is_closed, add_permits}

  -- What a semaphore has left once permits are taken.
  acquired :
      (s left : Semaphore) (n : ℕ)
      → try_acquire_many s n ≡ some left
      → available_permits left + n ≡ available_permits s
  acquired s left n e = elim (Bool-cases (is_closed s)) [
    | inl c ↦ absurd (cc (S.closed s n c, e))
    | inr c ↦ elim (Bool-cases (ltb (available_permits s) n)) [
      | inl l ↦ absurd (cc (S.too_few s n (ground arith), e))
      | inr l ↦
          let (t, x, y, z) = S.enough s n c (ground arith) in
          subst (λ o. or_count o + n ≡ available_permits s) (sym x ∙ e) y
    ]
  ]
    where
      or_count : Option Semaphore → ℕ
      or_count none = 0
      or_count (some t) = available_permits t

  -- The permits of one stream and of the connection, wherever they are: in the semaphores, with the
  -- queued chunks, and with the write `f`.
  pub record Account : Type 0 where
    pub stream_frames : ℕ
    pub stream_bytes : ℕ
    pub frames : ℕ
    pub conn_bytes : ℕ

  abbrev pub account : ℕ → Sending → Shared S → Account
  account id f sh =
      let h = held f.stage (length f.payload) in
      let p = sh.stream_permits id in
      let b = sh.writer.queues.by_stream in
      record {
        stream_frames =
            available_permits p.outbound_stream_frames
            + (if f.stream_id == id then h.stream_frames else 0)
            + length (entry id b);
        stream_bytes =
            available_permits p.outbound_stream_bytes
            + (if f.stream_id == id then h.stream_bytes else 0)
            + chunk_bytes (entry id b);
        frames = available_permits sh.outbound_frames + h.frames + total length b;
        conn_bytes = available_permits sh.outbound_conn_bytes + h.conn_bytes + total chunk_bytes b;
      }

  -- A write that has ended holds nothing, as one that starts.
  abbrev pub Balances : Sending → Shared S → Step S → Type 0
  Balances f sh (goes_on g t) = (id : ℕ) → account id g t ≡ account id f sh
  Balances f sh waits = Unit
  Balances f sh (ends result t) = (id : ℕ) → account id (goes_to at_start f) t ≡ account id f sh

  -- Dropping a write at any stage gives back all that it holds: the permits of every stream and of the
  -- connection add up as before, and the write holds none.
  pub release-Balances :
      (f : Sending) (sh : Shared S) (id : ℕ)
      → account id (goes_to at_start f) (release S f sh) ≡ account id f sh
  unfolding release held
  release-Balances f sh id =
      let h = held f.stage (length f.payload) in
      let p = sh.stream_permits f.stream_id in
      ground (
        arith,
        ==→eq f.stream_id id,
        S.added p.outbound_stream_frames h.stream_frames,
        S.added p.outbound_stream_bytes h.stream_bytes,
        S.added sh.outbound_frames h.frames,
        S.added sh.outbound_conn_bytes h.conn_bytes,
      )

  queues-Balances :
      (f : Sending) (sh : Shared S) (w : Writer) (id : ℕ)
      → f.stage ≡ at_queue
      → enqueue_data sh.writer f.stream_id (chunk_of f) ≡ (w, true)
      → account id (goes_to at_start f) (record sh { writer = w }) ≡ account id f sh
  unfolding held
  queues-Balances f sh w id e x =
      let b = sh.writer.queues.by_stream in
      let q = entry f.stream_id b in
      let q' = q ++ (chunk_of f ∷ []) in
      rw (accepted_queue sh.writer w f.stream_id (chunk_of f) x) (
        rw (entry-insert f.stream_id id q' b) (
          ground (
            arith,
            e,
            ==→eq f.stream_id id,
            length-append q (chunk_of f ∷ []),
            chunk_bytes-snoc q (chunk_of f),
            total-insert length f.stream_id q' b refl,
            total-insert chunk_bytes f.stream_id q' b refl,
          )))

  Moves-Balances :
      (f : Sending) (sh : Shared S) {t : Step S}
      → length f.payload < 2 ^ 32
      → Moves S f sh t
      → Balances f sh t
  unfolding held
  Moves-Balances f sh small (fails_with e) = λ id. release-Balances f sh id
  Moves-Balances f sh small waits_here = tt
  Moves-Balances f sh small (starts e) = λ id. simp e refl
  Moves-Balances f sh small (locks e x) = λ id. simp e refl
  Moves-Balances f sh small (has_nothing e x y) = λ id. release-Balances f sh id
  Moves-Balances f sh small (passes e x) = λ id. simp e refl
  Moves-Balances f sh small (takes_stream_frame left e x) =
      λ id. ground (arith, e, acquired _ left 1 x)
  Moves-Balances f sh small (needs_no_stream_bytes e x) = λ id. ground (arith, e, x)
  Moves-Balances f sh small (takes_stream_bytes left e x) =
      λ id. ground (arith, e, acquired _ left _ x)
  Moves-Balances f sh small (takes_frame left e x) = λ id. ground (arith, e, acquired _ left 1 x)
  Moves-Balances f sh small (needs_no_conn_bytes e x) = λ id. ground (arith, e, x)
  Moves-Balances f sh small (takes_conn_bytes left e x) =
      λ id. ground (arith, e, acquired _ left _ x)
  Moves-Balances f sh small (queues w e x) = λ id. queues-Balances f sh w id e x

  -- A step of a write whose payload has a length below 2^32 loses no permit and makes none. For every
  -- stream and for the connection, the permits for frames and for bytes in the semaphores, with this
  -- write and with the queued chunks add up as before, whether the write goes on, succeeds or fails; at
  -- its end the write holds none.
  pub send_step-Balances :
      (f : Sending) (sh : Shared S) → length f.payload < 2 ^ 32 → Balances f sh (send_step S f sh)
  send_step-Balances f sh small = Moves-Balances f sh small (send_step-Moves S f sh)
