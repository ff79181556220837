-- ===== src/Connection/Shared/Send/Moves.antt =====
-- The steps of a write as a relation: what each is, and when.
use muxtls.Base.{
  ℕ, ◌≡◌, refl, arith, ◌%◌, ◌^◌, Bool, true, false, not, ◌&&◌, ◌||◌, List, [], ◌∷◌, Option, none,
  some,
}
use muxtls.Base.{Result, ok, err, length, ◌==◌, if◌then◌else◌, if_either}
use muxtls.Connection.Permits.{Semaphores}
use muxtls.Connection.State.{OutboundChunk, StreamState, Writer}
use muxtls.Connection.Writer.{enqueue_data}
use muxtls.Connection.Shared.{Shared, StreamPermits, set_state, set_permits}
use muxtls.Connection.Shared.Send.{
  Sending, Stage, at_start, at_lock, at_checks, at_stream_frames, at_stream_bytes, at_frames,
  at_conn_bytes, at_queue, goes_to, Step, goes_on, waits, ends, fails, release, check_chunk,
  acquire_or_wait, queue_chunk, queue_step, send_step,
}
use muxtls.Error.{
  Error, connection_closed, protocol, send_side_closed, send_side_already_closed,
  closed_before_enqueue,
}

-- The chunk that a write queues.
abbrev pub chunk_of : Sending → OutboundChunk
chunk_of f = record {
  stream_id = f.stream_id;
  payload = f.payload;
  fin = f.fin;
  permits = length f.payload;
}

abbrev pub size_of : Sending → ℕ
size_of f = length f.payload % 2 ^ 32

module _ (S : Semaphores) (f : Sending) (sh : Shared S) where
  open S use {Semaphore, try_acquire_many}

  abbrev permits : StreamPermits S
  permits = sh.stream_permits f.stream_id

  abbrev state : StreamState
  state = sh.writer.states f.stream_id

  pub data Moves : Step S → Type 0 where
    fails_with : (error : Error) → Moves (fails S f error sh)
    waits_here : Moves waits
    starts : f.stage ≡ at_start → Moves (goes_on (goes_to at_lock f) sh)
    locks :
        f.stage ≡ at_lock
        → state.send_locked ≡ false
        → Moves (
            goes_on
              (goes_to at_checks f)
              (set_state S f.stream_id (record state { send_locked = true }) sh))
    has_nothing :
        f.stage ≡ at_checks → f.payload ≡ [] → f.fin ≡ false → Moves (ends (ok tt) (release S f sh))
    passes :
        f.stage ≡ at_checks
        → check_chunk sh.limits f ≡ ok tt
        → Moves (goes_on (goes_to at_stream_frames f) sh)
    takes_stream_frame :
        (left : Semaphore)
        → f.stage ≡ at_stream_frames
        → try_acquire_many permits.outbound_stream_frames 1 ≡ some left
        → Moves (
            goes_on
              (goes_to at_stream_bytes f)
              (set_permits S f.stream_id (record permits { outbound_stream_frames = left }) sh))
    needs_no_stream_bytes :
        f.stage ≡ at_stream_bytes → f.payload ≡ [] → Moves (goes_on (goes_to at_frames f) sh)
    takes_stream_bytes :
        (left : Semaphore)
        → f.stage ≡ at_stream_bytes
        → try_acquire_many permits.outbound_stream_bytes (size_of f) ≡ some left
        → Moves (
            goes_on
              (goes_to at_frames f)
              (set_permits S f.stream_id (record permits { outbound_stream_bytes = left }) sh))
    takes_frame :
        (left : Semaphore)
        → f.stage ≡ at_frames
        → try_acquire_many sh.outbound_frames 1 ≡ some left
        → Moves (goes_on (goes_to at_conn_bytes f) (record sh { outbound_frames = left }))
    needs_no_conn_bytes :
        f.stage ≡ at_conn_bytes → f.payload ≡ [] → Moves (goes_on (goes_to at_queue f) sh)
    takes_conn_bytes :
        (left : Semaphore)
        → f.stage ≡ at_conn_bytes
        → try_acquire_many sh.outbound_conn_bytes (size_of f) ≡ some left
        → Moves (goes_on (goes_to at_queue f) (record sh { outbound_conn_bytes = left }))
    queues :
        (w : Writer)
        → f.stage ≡ at_queue
        → enqueue_data sh.writer f.stream_id (chunk_of f) ≡ (w, true)
        → Moves (
            ends (ok tt) (
              set_state S f.stream_id
                (record (w.states f.stream_id) {
                  send_locked = false;
                  send_terminal = f.fin || (w.states f.stream_id).send_terminal;
                })
                (record sh { writer = w })))

  acquire-Moves :
      (semaphore : Semaphore) (count : ℕ) (take : Semaphore → Step S) (tried : Option Semaphore)
      → try_acquire_many semaphore count ≡ tried
      → ((left : Semaphore) → try_acquire_many semaphore count ≡ some left → Moves (take left))
      → Moves (acquire_or_wait S f sh semaphore count take)
  unfolding acquire_or_wait
  acquire-Moves semaphore count take (some left) e h = rw (acquire_or_wait, e) (h left e)
  acquire-Moves semaphore count take none e h =
      rw (acquire_or_wait, e)
        (if_either Moves (S.is_closed semaphore) _ _ (λ _. fails_with connection_closed)
          (λ _. waits_here))

  queue_chunk-Moves :
      (r : Writer × Bool)
      → f.stage ≡ at_queue
      → enqueue_data sh.writer f.stream_id (chunk_of f) ≡ r
      → Moves (queue_chunk S f sh)
  unfolding queue_chunk
  queue_chunk-Moves (w, true) h e = rw e (queues w h e)
  queue_chunk-Moves (w, false) h e = rw e (fails_with (protocol closed_before_enqueue))

not_empty : (x : ℕ) (xs : List ℕ) → length (x ∷ xs) == 0 ≡ false
not_empty x xs = ground arith

module _ (S : Semaphores) (id : ℕ) (sh : Shared S) where
  abbrev at : Stage → List ℕ → Bool → Sending
  at stage payload fin = record { stream_id = id; payload = payload; fin = fin; stage = stage }

  check-Moves :
      (payload : List ℕ) (fin : Bool) (checked : Result Error (Unit {0}))
      → check_chunk sh.limits (at at_checks payload fin) ≡ checked
      → Moves S (at at_checks payload fin) sh (elim checked [
        | err e ↦ fails S (at at_checks payload fin) e sh
        | ok u ↦
            if length payload == 0 && not fin
            then ends (ok tt) (release S (at at_checks payload fin) sh)
            else goes_on (at at_stream_frames payload fin) sh
      ])
  check-Moves payload fin (err e) h = fails_with e
  check-Moves [] true (ok u) h = passes refl h
  check-Moves [] false (ok u) h = has_nothing refl refl refl
  check-Moves (x ∷ xs) fin (ok u) h = rw (not_empty x xs) (passes refl h)

  queue_step-Moves :
      (stage : Stage) (payload : List ℕ) (fin : Bool)
      → Moves S (at stage payload fin) sh (queue_step S (at stage payload fin) sh)
  unfolding queue_step
  queue_step-Moves at_start payload fin =
      if_either (Moves S (at at_start payload fin) sh) sh.closed _ _
        (λ _. fails_with connection_closed) (λ _. starts refl)
  queue_step-Moves at_lock payload fin =
      if_either (Moves S (at at_lock payload fin) sh) (sh.writer.states id).send_locked _ _
        (λ _. waits_here) (λ x. locks refl x)
  queue_step-Moves at_checks payload fin =
      if_either (Moves S (at at_checks payload fin) sh) sh.closed _ _
        (λ _. fails_with connection_closed)
        (λ _.
          if_either (Moves S (at at_checks payload fin) sh) (sh.writer.states id).send_terminal _ _
            (λ _. fails_with (protocol send_side_already_closed))
            (λ _. check-Moves payload fin _ refl))
  queue_step-Moves at_stream_frames payload fin =
      acquire-Moves S (at at_stream_frames payload fin) sh _ _ _ _ refl
        (λ left x. takes_stream_frame left refl x)
  queue_step-Moves at_stream_bytes [] fin = needs_no_stream_bytes refl refl
  queue_step-Moves at_stream_bytes (y ∷ ys) fin = rw (not_empty y ys) (
      acquire-Moves S (at at_stream_bytes (y ∷ ys) fin) sh _ _ _ _ refl
        (λ left x. takes_stream_bytes left refl x))
  queue_step-Moves at_frames payload fin =
      acquire-Moves S (at at_frames payload fin) sh _ _ _ _ refl (λ left x. takes_frame left refl x)
  queue_step-Moves at_conn_bytes [] fin = needs_no_conn_bytes refl refl
  queue_step-Moves at_conn_bytes (y ∷ ys) fin = rw (not_empty y ys) (
      acquire-Moves S (at at_conn_bytes (y ∷ ys) fin) sh _ _ _ _ refl
        (λ left x. takes_conn_bytes left refl x))
  queue_step-Moves at_queue payload fin =
      if_either (Moves S (at at_queue payload fin) sh) sh.closed _ _
        (λ _. fails_with connection_closed)
        (λ _. queue_chunk-Moves S (at at_queue payload fin) sh _ refl refl)

-- Each step of a write is one of the relation.
pub send_step-Moves :
    (S : Semaphores) (f : Sending) (sh : Shared S) → Moves S f sh (send_step S f sh)
unfolding send_step
send_step-Moves S f sh =
    if_either (Moves S f sh) (sh.writer.states f.stream_id).send_terminal _ _
      (λ _. fails_with (protocol send_side_closed))
      (λ _. queue_step-Moves S f.stream_id sh f.stage f.payload f.fin)
