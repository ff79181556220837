-- ===== src/Connection/Shared/Send.antt =====
-- `send_stream_chunk` and `queue_stream_chunk`: a write, as the future that its caller polls. The stages
-- are its await points and the checks between them, so that other tasks can come in at each. An
-- `acquire` is ready when there are as many permits as it asks for; that earlier waiters come first is
-- left out. A caller may drop the future at any stage.
pub mod Moves
pub mod Effect
pub mod Balance
pub mod Size
use muxtls.Base.{
  ℕ, zero, suc, ◌%◌, ◌^◌, Bool, true, false, not, ◌&&◌, ◌||◌, Option, none, some, List, [],
}
use muxtls.Base.{
  Result, ok, err, ◌>>=◌, ◌>>◌, fail_if, map_err, length, leb, ltb, ◌==◌, if◌then◌else◌, Poll,
  ready, pending,
}
use muxtls.Proto.Frame.{stream, encoded_len, checked_var_int}
use muxtls.Limits.{Limits}
use muxtls.Connection.Permits.{Semaphores}
use muxtls.Connection.State.{StreamState, OutboundChunk}
use muxtls.Connection.Writer.{enqueue_data}
use muxtls.Connection.Shared.{Shared, StreamPermits, ensure_open, set_state, set_permits}
use muxtls.Error.{
  Error, protocol, wire, limit_exceeded, connection_closed, value_too_large, frame_size,
  outbound_stream_budget, send_side_closed, send_side_already_closed, closed_before_enqueue,
}

-- What is about to be done. From `at_stream_bytes` on the write holds the stream's send lock and the
-- permits that the stages before acquired.
pub data Stage : Type 0 where
  at_start at_lock at_checks at_stream_frames at_stream_bytes at_frames at_conn_bytes at_queue :
      Stage

-- One write: its arguments and its stage.
pub record Sending : Type 0 where
  pub stream_id : ℕ
  pub payload : List ℕ
  pub fin : Bool
  pub stage : Stage

abbrev pub new_sending : ℕ → List ℕ → Bool → Sending
new_sending id payload fin = record {
  stream_id = id;
  payload = payload;
  fin = fin;
  stage = at_start;
}

abbrev pub goes_to : Stage → Sending → Sending
goes_to stage f = record f { stage = stage }

-- The permits that a write holds at a stage: frames and bytes of the stream, frames and bytes of the
-- connection.
pub record Held : Type 0 where
  pub stream_frames : ℕ
  pub stream_bytes : ℕ
  pub frames : ℕ
  pub conn_bytes : ℕ

unfoldable pub held : Stage → ℕ → Held
held at_stream_bytes n = record { stream_frames = 1; stream_bytes = 0; frames = 0; conn_bytes = 0 }
held at_frames n = record { stream_frames = 1; stream_bytes = n; frames = 0; conn_bytes = 0 }
held at_conn_bytes n = record { stream_frames = 1; stream_bytes = n; frames = 1; conn_bytes = 0 }
held at_queue n = record { stream_frames = 1; stream_bytes = n; frames = 1; conn_bytes = n }
held _ n = record { stream_frames = 0; stream_bytes = 0; frames = 0; conn_bytes = 0 }

unfoldable pub has_lock : Stage → Bool
has_lock at_start = false
has_lock at_lock = false
has_lock _ = true

-- The checks on a chunk, once the lock is taken.
unfoldable pub check_chunk : Limits → Sending → Result Error (Unit {0})
check_chunk limits f = do
  id ← map_err (λ _. protocol value_too_large) (checked_var_int f.stream_id)
  size ← map_err wire (encoded_len (stream id f.fin f.payload))
  fail_if (ltb limits.max_frame_size size) (limit_exceeded (frame_size size limits.max_frame_size))
  fail_if (ltb limits.max_outbound_stream_bytes (length f.payload))
      (limit_exceeded outbound_stream_budget)

module _ (S : Semaphores) where
  -- One step of a write: it goes on, waits for another task, or ends.
  pub data Step : Type 0 where
    goes_on : Sending → Shared S → Step
    waits : Step
    ends : Result Error (Unit {0}) → Shared S → Step

  -- What the future drops: its permits and its guard of the lock.
  unfoldable pub release : Sending → Shared S → Shared S
  unfolding held has_lock
  release f sh =
      let h = held f.stage (length f.payload) in
      let p = sh.stream_permits f.stream_id in
      let s = sh.writer.states f.stream_id in
      record (set_permits S f.stream_id
        (record p {
          outbound_stream_frames = S.add_permits p.outbound_stream_frames h.stream_frames;
          outbound_stream_bytes = S.add_permits p.outbound_stream_bytes h.stream_bytes;
        })
        (set_state S f.stream_id
          (record s { send_locked = not (has_lock f.stage) && s.send_locked }) sh)) {
            outbound_frames = S.add_permits sh.outbound_frames h.frames;
            outbound_conn_bytes = S.add_permits sh.outbound_conn_bytes h.conn_bytes;
          }

  abbrev pub fails : Sending → Error → Shared S → Step
  fails f error sh = ends (err error) (release f sh)

  -- `acquire_many_owned` with the count cast to u32: `take` puts the semaphore back.
  unfoldable pub acquire_or_wait :
      Sending → Shared S → S.Semaphore → ℕ → (S.Semaphore → Step) → Step
  unfolding release
  acquire_or_wait f sh semaphore count take = elim (S.try_acquire_many semaphore count) [
    | some left ↦ take left
    | none ↦ if S.is_closed semaphore then fails f connection_closed sh else waits
  ]

  -- The chunk is queued, and drops its permits where it is refused. A FIN ends the stream's send side.
  unfoldable pub queue_chunk : Sending → Shared S → Step
  unfolding release
  queue_chunk f sh =
      let (w, enqueued) = enqueue_data sh.writer f.stream_id (record {
        stream_id = f.stream_id;
        payload = f.payload;
        fin = f.fin;
        permits = length f.payload;
      }) in
      if not enqueued
      then fails f (protocol closed_before_enqueue) sh
      else (let queued = record sh { writer = w } in
          let s = w.states f.stream_id in
          ends (ok tt) (
            set_state S f.stream_id
              (record s { send_locked = false; send_terminal = f.fin || s.send_terminal }) queued))

  -- `queue_stream_chunk`, by its stages.
  unfoldable pub queue_step : Sending → Shared S → Step
  unfolding acquire_or_wait queue_chunk release
  queue_step f sh =
      let p = sh.stream_permits f.stream_id in
      let s = sh.writer.states f.stream_id in
      let size = length f.payload % 2 ^ 32 in
      elim f.stage [
        | at_start ↦
            if sh.closed then fails f connection_closed sh else goes_on (goes_to at_lock f) sh
        | at_lock ↦
            if s.send_locked
            then waits
            else goes_on (goes_to at_checks f)
                (set_state S f.stream_id (record s { send_locked = true }) sh)
        | at_checks ↦
            if sh.closed
            then fails f connection_closed sh
            else if s.send_terminal
            then fails f (protocol send_side_already_closed) sh
            else elim (check_chunk sh.limits f) [
              | err e ↦ fails f e sh
              | ok checked ↦
                  if length f.payload == 0 && not f.fin
                  then ends (ok tt) (release f sh)
                  else goes_on (goes_to at_stream_frames f) sh
            ]
        | at_stream_frames ↦ acquire_or_wait f sh p.outbound_stream_frames 1 (λ left.
            goes_on (goes_to at_stream_bytes f)
              (set_permits S f.stream_id (record p { outbound_stream_frames = left }) sh))
        | at_stream_bytes ↦
            if length f.payload == 0
            then goes_on (goes_to at_frames f) sh
            else acquire_or_wait f sh p.outbound_stream_bytes size (λ left.
              goes_on (goes_to at_frames f)
                (set_permits S f.stream_id (record p { outbound_stream_bytes = left }) sh))
        | at_frames ↦
            acquire_or_wait f sh sh.outbound_frames 1
              (λ left. goes_on (goes_to at_conn_bytes f) (record sh { outbound_frames = left }))
        | at_conn_bytes ↦
            if length f.payload == 0
            then goes_on (goes_to at_queue f) sh
            else acquire_or_wait f sh sh.outbound_conn_bytes size
                (λ left. goes_on (goes_to at_queue f) (record sh { outbound_conn_bytes = left }))
        | at_queue ↦ if sh.closed then fails f connection_closed sh else queue_chunk f sh
      ]

  -- `send_stream_chunk`: first whether the send side has ended, which drops the other future.
  unfoldable pub send_step : Sending → Shared S → Step
  unfolding queue_step release
  send_step f sh =
      if (sh.writer.states f.stream_id).send_terminal
      then fails f (protocol send_side_closed) sh
      else queue_step f sh

  -- One poll, where no other task comes in: steps until the write waits or ends.
  unfoldable pub run_steps :
      ℕ → Sending → Shared S → Option (Poll (Result Error (Unit {0}))) × Sending × Shared S
  run_steps zero f sh = (none, f, sh)
  run_steps (suc n) f sh = elim (send_step f sh) [
    | goes_on g t ↦ run_steps n g t
    | waits ↦ (some pending, f, sh)
    | ends result t ↦ (some (ready result), f, t)
  ]

  -- There are eight stages.
  unfoldable pub poll_sending :
      Sending → Shared S → Option (Poll (Result Error (Unit {0}))) × Sending × Shared S
  poll_sending f sh = run_steps 8 f sh
