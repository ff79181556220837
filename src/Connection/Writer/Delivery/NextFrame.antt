-- ===== src/Connection/Writer/Delivery/NextFrame.antt =====
-- `next_frame` sends each stream's bytes and its end in the order in which they were queued.
use muxtls.Base.{ℕ, ◌≡◌, refl, ap, arith, not, ◌&&◌, ◌||◌, List, [], ◌∷◌, ◌++◌, some, none, Option}
use muxtls.Base.{All, length, Bool-cases, inl, inr}
use mathlib.Core.Path.{subst}
use muxtls.Proto.Frame.{Frame}
use muxtls.Connection.State.{Heap, Writer}
use muxtls.Connection.Writer.{is_empty, taken_frame}
use muxtls.Connection.Writer.Next.{
  Turn, sends, finished, again, waits, panics, with_queues, next_control, send_chunk, close_turn,
  close_with, is_urgent, announce, announce_stream, pop_control, after_data, data_turn,
  control_or_data, round, next_frame,
}
use muxtls.Connection.Writer.Schedule.{Queues, Scheduled}
use muxtls.Connection.Writer.Schedule.Serve.{popped, count_of, serve_rule}
use muxtls.Connection.Writer.Schedule.NextFrame.{
  Keeps, round-Keeps, skip-Scheduled, next_control-queues,
}
use muxtls.Connection.Writer.Credit.{NoData, NoDataOption}
use muxtls.Connection.Writer.Credit.NextFrame.{fit_reason-NoData, find_update-NoData, NoDataFound}
use muxtls.Flow
use muxtls.Flow.{ReceiveWindow}
use muxtls.Connection.Writer.Delivery.{queued, Plain, Delivers, NoData-carried, send_chunk-Delivers}

taken_frame-Delivers :
    (w : Writer) (o : Option Frame)
    → Plain w
    → NoDataOption o
    → Delivers w.queues.by_stream (close_with w (taken_frame w.queues o))
unfolding close_with taken_frame
taken_frame-Delivers w none p h = (p, refl)
taken_frame-Delivers w (some f) p h = (
  (p.0, tt),
  λ id.
      ap (λ xs. xs ++ queued id w.queues.by_stream)
        (NoData-carried id _ (fit_reason-NoData w.queues.peer_max_frame f h)),
)

close_turn-Delivers : (w : Writer) → Plain w → Delivers w.queues.by_stream (close_turn w)
unfolding close_turn
close_turn-Delivers w h = taken_frame-Delivers w w.queues.close_frame h h.1

after_data-Delivers : (w : Writer) → Plain w → Delivers w.queues.by_stream (after_data w)
unfolding after_data
after_data-Delivers w h = elim (Bool-cases (not w.queues.control_turn)) [
  | inl e ↦ rw e (h, refl)
  | inr e ↦ rw e (elim (Bool-cases (w.queues.closing && is_empty w.queues.by_stream)) [
    | inl x ↦ rw x (close_turn-Delivers w h)
    | inr x ↦ rw x (h, refl)
  ])
]

-- The loop changes the order of the ready streams only, until it sends.
data_turn-Delivers :
    (w : Writer) → Scheduled w → Plain w → Delivers w.queues.by_stream (data_turn w)
unfolding data_turn
data_turn-Delivers w s p =
    serve_rule (λ v. Scheduled v × Plain v × (v.queues.by_stream ≡ w.queues.by_stream))
      (Delivers w.queues.by_stream) after_data (λ v h. h.0)
      (λ v id others chunk behind h head b.
        (skip-Scheduled v id others chunk behind h.0 head, h.1, h.2))
      (λ v id others chunk behind h head b.
        subst
          (λ m. Delivers m (
            send_chunk (with_queues v (popped v others)) id chunk behind (count_of v others chunk)))
          h.2 (send_chunk-Delivers v id others chunk behind h.0 head (count_of v others chunk) h.1))
      (λ v id others chunk behind h head o. tt)
      (λ v h. subst (λ m. Delivers m (after_data v)) h.2 (after_data-Delivers v h.1))
      (length w.queues.ready) w (s, p, refl) (omega arith)

-- What the control turn finds carries no data.
abbrev NoDataTurn : Option (Writer × Option Frame) → Type 0
NoDataTurn none = Unit
NoDataTurn (some (v, f)) = NoDataOption f × Plain v

announce_stream-NoData :
    (w : Writer) (found : Heap × Option (Option Frame))
    → Plain w
    → NoDataFound found.1
    → NoDataTurn (announce_stream w found)
unfolding announce_stream
announce_stream-NoData w (heap, none) p h = tt
announce_stream-NoData w (heap, some f) p h = (h, p)

announce-NoData : (w : Writer) (r : ReceiveWindow × Option ℕ) → Plain w → NoDataTurn (announce w r)
unfolding announce
announce-NoData w (window, some maximum) p = (tt, p)
announce-NoData w (window, none) p =
    announce_stream-NoData w _ p (find_update-NoData w.states w.queues.receive_windows)

pop_control-NoData :
    (w : Writer) (control : List Frame)
    → Plain w
    → All NoData control
    → NoDataTurn (pop_control w control)
unfolding pop_control
pop_control-NoData w [] p h = announce-NoData w (Flow.update w.receive_window) p
pop_control-NoData w (f ∷ rest) p h = (h.0, (h.1, p.1))

next_control-Delivers :
    (w : Writer) (o : Option (Writer × Option Frame))
    → Scheduled w
    → Plain w
    → next_control w ≡ o
    → NoDataTurn o
    → Delivers w.queues.by_stream (control_or_data w o)
unfolding control_or_data
next_control-Delivers w none s p e h = data_turn-Delivers w s p
next_control-Delivers w (some (v, none)) s p e h = tt
next_control-Delivers w (some (v, some f)) s p e h =
    (h.1, λ id. simp (NoData-carried id f h.0, (next_control-queues w v (some f) e).1) refl)

round-Delivers : (w : Writer) → Scheduled w → Plain w → Delivers w.queues.by_stream (round w)
unfolding round
round-Delivers w s p = elim (Bool-cases (w.queues.closing && not w.queues.graceful_close)) [
  | inl e ↦ rw e (close_turn-Delivers w p)
  | inr e ↦ rw e (elim (Bool-cases (w.queues.control_turn || is_urgent w.queues.control)) [
    | inl x ↦ rw x (
        next_control-Delivers w (next_control w) s p refl
          (unfold next_control in pop_control-NoData w w.queues.control p p.0))
    | inr x ↦ rw x (data_turn-Delivers w s p)
  ])
]

second_round :
    (b : Queues) (t : Turn)
    → Keeps t
    → Delivers b t
    → Delivers b (elim t [ again w ↦ round w | turn ↦ turn ])
second_round b (again w) k d = subst (λ m. Delivers m (round w)) d.1 (round-Delivers w k d.0)
second_round b (sends w frame dropped) k d = d
second_round b (finished w) k d = d
second_round b (waits w) k d = d
second_round b panics k d = d

-- From queues in which a stream is ready exactly when it has chunks, and whose control queue holds no
-- data, `next_frame` sends of each stream what was queued first: what the frame carries of a stream,
-- with what stays queued of it, is what was queued of it, each byte and the end in its place. Where it
-- ends or waits the queues of the streams stay as they are.
pub next_frame-Delivers :
    (w : Writer) → Scheduled w → Plain w → Delivers w.queues.by_stream (next_frame w)
unfolding next_frame
next_frame-Delivers w s p =
    second_round w.queues.by_stream (round w) (round-Keeps w s) (round-Delivers w s p)
