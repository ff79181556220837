-- ===== src/Connection/Shared/Send/Effect.antt =====
-- What a write does to the queues: one that ends well has queued its bytes once, behind what waited of
-- its stream, and any other step leaves the queues alone. A poll comes to an end.
use muxtls.Base.{
  ℕ, zero, suc, ◌≤◌, ◌≡◌, ◌∙◌, refl, sym, arith, Bool, true, false, List, [], ◌++◌, Option, none,
  some,
}
use muxtls.Base.{Result, ok, err, ◌==◌, if◌then◌else◌, Poll, ready, pending}
use mathlib.Core.Path.{subst}
use mathlib.Core.List.{append-nil}
use muxtls.Connection.Permits.{Semaphores}
use muxtls.Connection.Writer.Delivery.{Item, items, queued}
use muxtls.Connection.Writer.Delivery.Run.{accepted-queued}
use muxtls.Connection.Shared.{Shared}
use muxtls.Connection.Shared.Send.{
  Sending, Stage, at_start, at_lock, at_checks, at_stream_frames, at_stream_bytes, at_frames,
  at_conn_bytes, at_queue, Step, goes_on, waits, ends, release, send_step, run_steps, goes_to,
  poll_sending,
}
use muxtls.Connection.Shared.Send.Moves.{
  Moves, fails_with, waits_here, starts, locks, has_nothing, passes, takes_stream_frame,
  needs_no_stream_bytes, takes_stream_bytes, takes_frame, needs_no_conn_bytes, takes_conn_bytes,
  queues, send_step-Moves,
}
use muxtls.Error.{Error}

module _ (S : Semaphores) where
  -- What a step of `f` from `sh` does to the queues.
  abbrev pub Queues : Sending → Shared S → Step S → Type 0
  Queues f sh (goes_on g t) = t.writer.queues ≡ sh.writer.queues
  Queues f sh waits = Unit
  Queues f sh (ends (err e) t) = t.writer.queues ≡ sh.writer.queues
  Queues f sh (ends (ok u) t) =
      ((id : ℕ)
        → queued id t.writer.queues.by_stream
          ≡ queued id sh.writer.queues.by_stream
            ++ (if f.stream_id == id then items f.payload f.fin else []))
      × (f.fin ≡ true → (t.writer.states f.stream_id).send_terminal ≡ true)

  nothing_queued :
      (b : Bool) (payload : List ℕ) (fin : Bool) (xs : List Item)
      → payload ≡ []
      → fin ≡ false
      → xs ≡ xs ++ (if b then items payload fin else [])
  nothing_queued true payload fin xs e f = rw (e, f) (sym (append-nil xs))
  nothing_queued false payload fin xs e f = sym (append-nil xs)

  Moves-Queues : (f : Sending) (sh : Shared S) {t : Step S} → Moves S f sh t → Queues f sh t
  Moves-Queues f sh (fails_with e) = unfold release in refl
  Moves-Queues f sh waits_here = tt
  Moves-Queues f sh (starts e) = refl
  Moves-Queues f sh (locks e x) = refl
  Moves-Queues f sh (has_nothing e x y) = (
    λ id. unfold release in nothing_queued (f.stream_id == id) f.payload f.fin _ x y,
    λ z. absurd (cc (y, z)),
  )
  Moves-Queues f sh (passes e x) = refl
  Moves-Queues f sh (takes_stream_frame left e x) = refl
  Moves-Queues f sh (needs_no_stream_bytes e x) = refl
  Moves-Queues f sh (takes_stream_bytes left e x) = refl
  Moves-Queues f sh (takes_frame left e x) = refl
  Moves-Queues f sh (needs_no_conn_bytes e x) = refl
  Moves-Queues f sh (takes_conn_bytes left e x) = refl
  Moves-Queues f sh (queues w e x) =
      (accepted-queued sh.writer w f.stream_id _ x, λ z. ground arith)

  -- A step of a write that ends with success has put the bytes of the write, and its FIN, behind what
  -- waited of its stream, left the queues of the other streams as they were, and with a FIN has closed
  -- the send side. A step that fails or goes on leaves the writer's queues as they were.
  pub send_step-Queues : (f : Sending) (sh : Shared S) → Queues f sh (send_step S f sh)
  send_step-Queues f sh = Moves-Queues f sh (send_step-Moves S f sh)

  -- How many steps are left at most.
  abbrev rank : Stage → ℕ
  rank at_start = 8
  rank at_lock = 7
  rank at_checks = 6
  rank at_stream_frames = 5
  rank at_stream_bytes = 4
  rank at_frames = 3
  rank at_conn_bytes = 2
  rank at_queue = 1

  rank-bounds : (stage : Stage) → (1 ≤ rank stage) × (rank stage ≤ 8)
  rank-bounds at_start = omega arith
  rank-bounds at_lock = omega arith
  rank-bounds at_checks = omega arith
  rank-bounds at_stream_frames = omega arith
  rank-bounds at_stream_bytes = omega arith
  rank-bounds at_frames = omega arith
  rank-bounds at_conn_bytes = omega arith
  rank-bounds at_queue = omega arith

  -- A step that goes on is nearer to the end of the same write.
  abbrev Nears : Sending → Step S → Type 0
  Nears f (goes_on g t) = (suc (rank g.stage) ≡ rank f.stage) × (g ≡ goes_to g.stage f)
  Nears f _ = Unit

  Moves-Nears : (f : Sending) (sh : Shared S) {t : Step S} → Moves S f sh t → Nears f t
  Moves-Nears f sh (fails_with e) = tt
  Moves-Nears f sh waits_here = tt
  Moves-Nears f sh (starts e) = (simp e refl, refl)
  Moves-Nears f sh (locks e x) = (simp e refl, refl)
  Moves-Nears f sh (has_nothing e x y) = tt
  Moves-Nears f sh (passes e x) = (simp e refl, refl)
  Moves-Nears f sh (takes_stream_frame left e x) = (simp e refl, refl)
  Moves-Nears f sh (needs_no_stream_bytes e x) = (simp e refl, refl)
  Moves-Nears f sh (takes_stream_bytes left e x) = (simp e refl, refl)
  Moves-Nears f sh (takes_frame left e x) = (simp e refl, refl)
  Moves-Nears f sh (needs_no_conn_bytes e x) = (simp e refl, refl)
  Moves-Nears f sh (takes_conn_bytes left e x) = (simp e refl, refl)
  Moves-Nears f sh (queues w e x) = tt

  -- What a poll of `f` from `sh` gives.
  abbrev pub Answers :
      Sending → Shared S → Option (Poll (Result Error (Unit {0}))) × Sending × Shared S → Type 0
  Answers f sh (none, g, t) = ⊥
  Answers f sh (some pending, g, t) = (t.writer.queues ≡ sh.writer.queues) × (g ≡ goes_to g.stage f)
  Answers f sh (some (ready result), g, t) = Queues f sh (ends result t)

  -- The step before a poll's rest.
  Answers-before :
      (f : Sending) (sh t : Shared S) (stage : Stage)
      (r : Option (Poll (Result Error (Unit {0}))) × Sending × Shared S)
      → t.writer.queues ≡ sh.writer.queues
      → Answers (goes_to stage f) t r
      → Answers f sh r
  Answers-before f sh t stage (none, g, u) e h = h
  Answers-before f sh t stage (some pending, g, u) e h = (h.0 ∙ e, h.1)
  Answers-before f sh t stage (some (ready (err x)), g, u) e h = h ∙ e
  Answers-before f sh t stage (some (ready (ok x)), g, u) e h = (
    λ id.
        subst
          (λ q.
            queued id u.writer.queues.by_stream
            ≡ queued id q.by_stream ++ (if f.stream_id == id then items f.payload f.fin else []))
          e (h.0 id),
    h.1,
  )

  run-Answers :
      (fuel : ℕ) (f : Sending) (sh : Shared S) (step : Step S)
      → rank f.stage ≤ suc fuel
      → send_step S f sh ≡ step
      → Queues f sh step
      → Nears f step
      → Answers f sh (run_steps S (suc fuel) f sh)
  unfolding run_steps
  run-Answers fuel f sh (ends result t) le e q n = rw (run_steps, e) q
  run-Answers fuel f sh waits le e q n = rw (run_steps, e) (refl, refl)
  run-Answers zero f sh (goes_on g t) le e q n = absurd (omega (arith, rank-bounds g.stage, n.0))
  run-Answers (suc fuel) f sh (goes_on g t) le e q n =
      rw (run_steps, e)
        (Answers-before f sh t g.stage (run_steps S (suc fuel) g t) q (
          subst (λ x. Answers x t (run_steps S (suc fuel) g t)) n.1
            (run-Answers fuel g t (send_step S g t) (omega (arith, n.0)) refl (send_step-Queues g t)
              (Moves-Nears g t (send_step-Moves S g t)))))

  -- From any stage a poll of a write ends within its eight steps. If it is ready with success, the bytes
  -- of the write, and its FIN, stand behind what waited of its stream, the queues of the other streams
  -- are as they were, and a FIN has closed the send side; if it is pending or fails, the writer's queues
  -- are as they were, and a pending poll leaves the same write at some stage.
  pub poll_sending-Answers : (f : Sending) (sh : Shared S) → Answers f sh (poll_sending S f sh)
  unfolding poll_sending
  poll_sending-Answers f sh =
      run-Answers 7 f sh (send_step S f sh) (omega (arith, rank-bounds f.stage)) refl
        (send_step-Queues f sh) (Moves-Nears f sh (send_step-Moves S f sh))
