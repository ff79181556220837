-- ===== src/Stream/Writing.antt =====
-- `SendStream`: the chunk interface, AsyncWrite, and the drop of the handle.
use muxtls.Base.{ℕ, ◌+◌, ◌%◌, ◌^◌, min, Bool, true, false, ◌||◌, Option, none, some, List, []}
use muxtls.Base.{Result, ok, err, ◌>>=◌, length, take, ◌==◌, if◌then◌else◌, Poll, ready, pending}
use muxtls.Connection.Permits.{Semaphores}
use muxtls.Connection.State.{StreamState}
use muxtls.Connection.Payload.{max_stream_payload}
use muxtls.Connection.Writer.{is_empty}
use muxtls.Connection.Shared.{Shared, set_state, release_handle}
use muxtls.Connection.Shared.Send.{Sending, new_sending, poll_sending, release}
use muxtls.Connection.Shared.Streams
use muxtls.Error.{Error}
use muxtls.Stream.{IoError, other, broken_pipe, invalid_input, select_mode, chunks_mode, async_mode}

-- The futures are writes under way.
pub record SendStream : Type 0 where
  pub stream_id : ℕ
  pub write_fut : Option Sending
  pub shutdown_fut : Option Sending
  pub shutdown_complete : Bool

abbrev pub is_some {ℓ} : {A : Type ℓ} → Option A → Bool
is_some none = false
is_some (some a) = true

-- The future of the FIN, or a new one.
abbrev pub or_new_fin : Option Sending → ℕ → Sending
or_new_fin none id = new_sending id [] true
or_new_fin (some f) id = f

module _ (S : Semaphores) where
  abbrev pub send_state : ℕ → Shared S → StreamState
  send_state id sh = sh.writer.states id

  -- `SendStream::new`, with `add_send_handle`.
  unfoldable pub new_send_stream : ℕ → Shared S → SendStream × Shared S
  new_send_stream id sh = (
    record { stream_id = id; write_fut = none; shutdown_fut = none; shutdown_complete = false },
    set_state S id
        (record (send_state id sh) {
          send_handles = ((send_state id sh).send_handles + 1) % 2 ^ 64;
        })
        sh,
  )

  unfoldable pub select_send_mode : ℕ → ℕ → Shared S → Result Error (Shared S)
  select_send_mode id requested sh = do
    mode ← select_mode (send_state id sh).send_mode requested
    ok (set_state S id (record (send_state id sh) { send_mode = mode }) sh)

  -- The first poll of `write_chunk` and of `finish`: the write that it goes on to poll.
  unfoldable pub write_chunk : SendStream → List ℕ → Shared S → Result Error (Sending × Shared S)
  write_chunk s chunk sh = do
    selected ← select_send_mode s.stream_id chunks_mode sh
    ok (new_sending s.stream_id chunk false, selected)

  unfoldable pub finish : SendStream → Shared S → Result Error (Sending × Shared S)
  finish s sh = do
    selected ← select_send_mode s.stream_id chunks_mode sh
    ok (new_sending s.stream_id [] true, selected)

  unfoldable pub reset : SendStream → ℕ → Shared S → Result Error (Shared S)
  reset s error_code sh = Streams.reset S s.stream_id error_code sh

  -- A poll of a write under way. It never runs out of steps.
  abbrev pub or_pending :
      Option (Poll (Result Error (Unit {0}))) × Sending × Shared S
      → Poll (Result Error (Unit {0})) × Sending × Shared S
  or_pending (none, g, t) = (pending, g, t)
  or_pending (some answer, g, t) = (answer, g, t)

  abbrev pub poll_future : Sending → Shared S → Poll (Result Error (Unit {0})) × Sending × Shared S
  poll_future f sh = or_pending (poll_sending S f sh)

  -- What a poll that returns an A gives, with the handle.
  abbrev pub Polled : Type 0 → Type 0
  Polled A = Poll (Result IoError A) × SendStream × Shared S

  -- Goes on only where a poll is ready with success.
  abbrev pub and_then :
      {A : Type 0} → Polled (Unit {0}) → (SendStream → Shared S → Polled A) → Polled A
  and_then (pending, s, t) next = (pending, s, t)
  and_then (ready (err e), s, t) next = (ready (err e), s, t)
  and_then (ready (ok u), s, t) next = next s t

  -- A call of AsyncWrite once the mode is selected.
  abbrev pub in_mode :
      {A : Type 0}
      → SendStream
      → Shared S
      → Result Error (Shared S)
      → (Shared S → Polled A)
      → Polled A
  in_mode s sh (err e) next = (ready (err (other e)), s, sh)
  in_mode s sh (ok t) next = next t

  -- The write that an earlier call accepted, and the handle with what is left of it.
  unfoldable pub drained :
      SendStream → Poll (Result Error (Unit {0})) × Sending × Shared S → Polled (Unit {0})
  drained s (ready (ok u), g, t) = (ready (ok tt), record s { write_fut = none }, t)
  drained s (ready (err e), g, t) = (ready (err (other e)), record s { write_fut = none }, t)
  drained s (pending, g, t) = (pending, record s { write_fut = some g }, t)

  unfoldable pub drain : Option Sending → SendStream → Shared S → Polled (Unit {0})
  unfolding drained
  drain none s sh = (ready (ok tt), s, sh)
  drain (some f) s sh = drained s (poll_future f sh)

  unfoldable pub poll_flush : SendStream → Shared S → Polled (Unit {0})
  unfolding drain
  poll_flush s sh = in_mode s sh (select_send_mode s.stream_id async_mode sh) (drain s.write_fut s)

  -- The chunk that a call accepts, once nothing waits.
  unfoldable pub accept_chunk : List ℕ → SendStream → Shared S → Polled ℕ
  accept_chunk buf s sh =
      let max_payload = max_stream_payload sh.limits s.stream_id in
      let chunk = take (min (length buf) max_payload) buf in
      if max_payload == 0 then (ready (err invalid_input), s, sh) else (
        ready (ok (length chunk)),
        record s { write_fut = some (new_sending s.stream_id chunk false) },
        sh,
      )

  unfoldable pub write_selected : List ℕ → SendStream → Shared S → Polled ℕ
  unfolding poll_flush accept_chunk
  write_selected buf s sh =
      if is_empty buf
      then (ready (ok 0), s, sh)
      else if sh.closed
          || (send_state s.stream_id sh).send_terminal
          || is_some s.shutdown_fut
          || s.shutdown_complete
      then (ready (err broken_pipe), s, sh)
      else and_then (poll_flush s sh) (accept_chunk buf)

  unfoldable pub poll_write : List ℕ → SendStream → Shared S → Polled ℕ
  unfolding write_selected
  poll_write buf s sh =
      in_mode s sh (select_send_mode s.stream_id async_mode sh) (write_selected buf s)

  -- The FIN, which the first call that gets here begins to write.
  unfoldable pub ended :
      SendStream → Poll (Result Error (Unit {0})) × Sending × Shared S → Polled (Unit {0})
  ended s (ready (ok u), g, t) =
      (ready (ok tt), record s { shutdown_fut = none; shutdown_complete = true }, t)
  ended s (ready (err e), g, t) = (ready (err (other e)), record s { shutdown_fut = none }, t)
  ended s (pending, g, t) = (pending, record s { shutdown_fut = some g }, t)

  unfoldable pub poll_fin : SendStream → Shared S → Polled (Unit {0})
  unfolding ended
  poll_fin s sh = ended s (poll_future (or_new_fin s.shutdown_fut s.stream_id) sh)

  unfoldable pub shutdown_selected : SendStream → Shared S → Polled (Unit {0})
  unfolding drain poll_fin
  shutdown_selected s sh =
      if s.shutdown_complete
      then (ready (ok tt), s, sh)
      else and_then (drain s.write_fut s sh) poll_fin

  unfoldable pub poll_shutdown : SendStream → Shared S → Polled (Unit {0})
  unfolding shutdown_selected
  poll_shutdown s sh =
      in_mode s sh (select_send_mode s.stream_id async_mode sh) (shutdown_selected s)

  abbrev pub drop_future : Option Sending → Shared S → Shared S
  drop_future none sh = sh
  drop_future (some f) sh = release S f sh

  -- The drop of the handle, with that of its futures.
  unfoldable pub drop_send_stream : SendStream → Shared S → Shared S
  drop_send_stream s sh =
      let state = send_state s.stream_id sh in
      let (left, last) = release_handle state.send_handles in
      drop_future s.shutdown_fut (
        drop_future s.write_fut (
          set_state S s.stream_id
            (record state { send_handles = left; send_dropped = last || state.send_dropped }) sh))
