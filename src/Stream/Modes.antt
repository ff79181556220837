-- ===== src/Stream/Modes.antt =====
-- A direction of a stream is used by one interface: once one is selected the other is refused.
pub mod Exclude
use muxtls.Base.{
  ℕ, zero, suc, ◌≡◌, ◌∙◌, refl, sym, ap, arith, Bool, true, false, not, ◌&&◌, ◌||◌, Option, none,
  some, List, [],
}
use muxtls.Base.{◌∷◌, Result, ok, err, ◌==◌, if◌then◌else◌, Poll, ready, pending, if_either}
use muxtls.Base.Bits.{==→eq}
use mathlib.Core.Path.{subst}
use muxtls.Connection.Permits.{Semaphores}
use muxtls.Connection.State.{OutboundChunk, Writer}
use muxtls.Connection.Writer.{enqueue_data}
use muxtls.Connection.Shared.{Shared}
use muxtls.Connection.Shared.Send.{
  Sending, Step, goes_on, waits, ends, send_step, run_steps, poll_sending, release,
}
use muxtls.Connection.Shared.Send.Moves.{
  Moves, fails_with, waits_here, starts, locks, has_nothing, passes, takes_stream_frame,
  needs_no_stream_bytes, takes_stream_bytes, takes_frame, needs_no_conn_bytes, takes_conn_bytes,
  queues, send_step-Moves, chunk_of,
}
use muxtls.Error.{Error, protocol, mixed_apis}
use muxtls.Stream.{IoError, other, select_mode, chunks_mode, async_mode}
use muxtls.Stream.Writing.{
  SendStream, select_send_mode, write_chunk, finish, poll_flush, poll_write, poll_shutdown, in_mode,
  Polled, write_selected, shutdown_selected, accept_chunk, drain, drained, or_pending, and_then,
  poll_fin, ended, or_new_fin, is_some,
}

module _ (S : Semaphores) where
  abbrev pub mode_of : ℕ → Shared S → ℕ
  mode_of id sh = (sh.writer.states id).send_mode

  abbrev SameModes : Shared S → Shared S → Type 0
  SameModes sh t = (id : ℕ) → mode_of id t ≡ mode_of id sh

  abbrev StepModes : Shared S → Step S → Type 0
  StepModes sh (goes_on g t) = SameModes sh t
  StepModes sh waits = Unit
  StepModes sh (ends result t) = SameModes sh t

  release-modes : (f : Sending) (sh : Shared S) → SameModes sh (release S f sh)
  unfolding release
  release-modes f sh id = ground arith

  enqueue_data-states :
      (w : Writer) (id : ℕ) (chunk : OutboundChunk) → (enqueue_data w id chunk).0.states ≡ w.states
  unfolding enqueue_data
  enqueue_data-states w id chunk = ground arith

  Moves-modes : (f : Sending) (sh : Shared S) {t : Step S} → Moves S f sh t → StepModes sh t
  Moves-modes f sh (fails_with e) = release-modes f sh
  Moves-modes f sh waits_here = tt
  Moves-modes f sh (starts e) = λ id. refl
  Moves-modes f sh (locks e x) = λ id. ground arith
  Moves-modes f sh (has_nothing e x y) = release-modes f sh
  Moves-modes f sh (passes e x) = λ id. refl
  Moves-modes f sh (takes_stream_frame left e x) = λ id. refl
  Moves-modes f sh (needs_no_stream_bytes e x) = λ id. refl
  Moves-modes f sh (takes_stream_bytes left e x) = λ id. refl
  Moves-modes f sh (takes_frame left e x) = λ id. refl
  Moves-modes f sh (needs_no_conn_bytes e x) = λ id. refl
  Moves-modes f sh (takes_conn_bytes left e x) = λ id. refl
  Moves-modes f sh (queues w e x) = λ id.
      let same =
        ap (λ states. (states id).send_mode)
          (subst (λ r. r.0.states ≡ sh.writer.states) x
            (enqueue_data-states sh.writer f.stream_id (chunk_of f))) in
      ground (arith, same, ==→eq f.stream_id id)

  run-modes :
      (fuel : ℕ) (f : Sending) (sh : Shared S) (step : Step S)
      → send_step S f sh ≡ step
      → StepModes sh step
      → SameModes sh (run_steps S fuel f sh).2
  unfolding run_steps
  run-modes zero f sh step e h id = refl
  run-modes (suc fuel) f sh (ends result t) e h id = rw (e, run_steps) (h id)
  run-modes (suc fuel) f sh waits e h id = rw (e, run_steps) refl
  run-modes (suc fuel) f sh (goes_on g t) e h id =
      rw (e, run_steps)
        (run-modes fuel g t (send_step S g t) refl (Moves-modes g t (send_step-Moves S g t)) id
          ∙ h id)

  pub poll_sending-modes : (f : Sending) (sh : Shared S) → SameModes sh (poll_sending S f sh).2
  unfolding poll_sending
  poll_sending-modes f sh =
      run-modes 8 f sh (send_step S f sh) refl (Moves-modes f sh (send_step-Moves S f sh))

  -- A call that has selected AsyncWrite leaves it selected.
  pub HasMode : {A : Type 0} → ℕ → ℕ → Polled S A → Type 0
  HasMode id mode (answer, s, t) = (s.stream_id ≡ id) × (mode_of id t ≡ mode)

  pub or_pending-modes :
      (f : Sending) (sh : Shared S) (id : ℕ)
      → mode_of id (or_pending S (poll_sending S f sh)).2 ≡ mode_of id sh
  or_pending-modes f sh id = either (poll_sending S f sh) (poll_sending-modes f sh id)
    where
      either :
          (r : Option (Poll (Result Error (Unit {0}))) × Sending × Shared S)
          → mode_of id r.2 ≡ mode_of id sh
          → mode_of id (or_pending S r).2 ≡ mode_of id sh
      either (none, g, t) e = e
      either (some answer, g, t) e = e

  drained-modes :
      (s : SendStream) (mode : ℕ) (r : Poll (Result Error (Unit {0})) × Sending × Shared S)
      → mode_of s.stream_id r.2 ≡ mode
      → HasMode s.stream_id mode (drained S s r)
  unfolding drained HasMode
  drained-modes s mode (ready (ok u), g, t) e = (refl, e)
  drained-modes s mode (ready (err x), g, t) e = (refl, e)
  drained-modes s mode (pending, g, t) e = (refl, e)

  pub ended-modes :
      (s : SendStream) (mode : ℕ) (r : Poll (Result Error (Unit {0})) × Sending × Shared S)
      → mode_of s.stream_id r.2 ≡ mode
      → HasMode s.stream_id mode (ended S s r)
  unfolding ended HasMode
  ended-modes s mode (ready (ok u), g, t) e = (refl, e)
  ended-modes s mode (ready (err x), g, t) e = (refl, e)
  ended-modes s mode (pending, g, t) e = (refl, e)

  drain-modes :
      (w : Option Sending) (s : SendStream) (sh : Shared S)
      → HasMode s.stream_id (mode_of s.stream_id sh) (drain S w s sh)
  unfolding drain
  drain-modes none s sh = unfold HasMode in (refl, refl)
  drain-modes (some f) s sh =
      drained-modes s (mode_of s.stream_id sh) (or_pending S (poll_sending S f sh))
        (or_pending-modes f sh s.stream_id)

  pub then-modes :
      {A : Type 0} (id mode : ℕ) (r : Polled S (Unit {0}))
      (next : SendStream → Shared S → Polled S A)
      → HasMode id mode r
      → ((s : SendStream) (t : Shared S)
          → s.stream_id ≡ id
          → mode_of id t ≡ mode
          → HasMode id mode (next s t))
      → HasMode id mode (and_then S r next)
  unfolding HasMode
  then-modes id mode (pending, s, t) next h k = h
  then-modes id mode (ready (err e), s, t) next h k = h
  then-modes id mode (ready (ok u), s, t) next h k = k s t h.0 h.1

  -- The mode that a selection leaves, and the other selection after it.
  pub selects :
      (id requested : ℕ) (sh u : Shared S)
      → select_send_mode S id requested sh ≡ ok u
      → mode_of id u ≡ requested
  unfolding select_send_mode select_mode
  selects id requested sh u e = ground arith

  pub refused_mode :
      (id mode requested : ℕ) (sh : Shared S)
      → mode_of id sh ≡ mode
      → mode == 0 ≡ false
      → mode == requested ≡ false
      → select_send_mode S id requested sh ≡ err (protocol mixed_apis)
  unfolding select_send_mode select_mode
  refused_mode id mode requested sh e f g = ground arith

  in_mode-modes :
      {A : Type 0} (s : SendStream) (sh : Shared S) (r : Result Error (Shared S))
      (next : Shared S → Polled S A)
      → select_send_mode S s.stream_id async_mode sh ≡ r
      → mode_of s.stream_id sh ≡ async_mode
      → ((u : Shared S)
          → mode_of s.stream_id u ≡ async_mode
          → HasMode s.stream_id async_mode (next u))
      → HasMode s.stream_id async_mode (in_mode S s sh r next)
  unfolding HasMode
  in_mode-modes s sh (err e) next x m k = (refl, m)
  in_mode-modes s sh (ok u) next x m k = k u (selects s.stream_id async_mode sh u x)

  pub drain_async :
      (s : SendStream) (sh : Shared S)
      → mode_of s.stream_id sh ≡ async_mode
      → HasMode s.stream_id async_mode (drain S s.write_fut s sh)
  drain_async s sh m =
      subst (λ n. HasMode s.stream_id n (drain S s.write_fut s sh)) m (drain-modes s.write_fut s sh)

  pub flush_async :
      (s : SendStream) (sh : Shared S)
      → mode_of s.stream_id sh ≡ async_mode
      → HasMode s.stream_id async_mode (poll_flush S s sh)
  unfolding poll_flush
  flush_async s sh m = in_mode-modes s sh _ _ refl m (λ u n. drain_async s u n)

  accept_async :
      (buf : List ℕ) (id : ℕ) (s : SendStream) (t : Shared S)
      → s.stream_id ≡ id
      → mode_of id t ≡ async_mode
      → HasMode id async_mode (accept_chunk S buf s t)
  unfolding accept_chunk HasMode
  accept_async buf id s t e m = ground arith

  pub write_async :
      (buf : List ℕ) (s : SendStream) (sh : Shared S)
      → mode_of s.stream_id sh ≡ async_mode
      → HasMode s.stream_id async_mode (write_selected S buf s sh)
  unfolding write_selected
  write_async [] s sh m = unfold HasMode in (refl, m)
  write_async (x ∷ xs) s sh m =
      if_either (HasMode s.stream_id async_mode)
        (sh.closed
          || (sh.writer.states s.stream_id).send_terminal
          || is_some s.shutdown_fut
          || s.shutdown_complete)
        _ _ (λ _. unfold HasMode in (refl, m))
        (λ _.
          then-modes s.stream_id async_mode (poll_flush S s sh) (accept_chunk S (x ∷ xs))
            (flush_async s sh m) (λ s' t e n. accept_async (x ∷ xs) s.stream_id s' t e n))
