-- ===== src/Connection/Writer/Schedule/NextFrame.antt =====
-- `next_frame` keeps the schedule, and a round asks for another only to give control frames a turn.
use muxtls.Base.{ℕ, ◌≡◌, refl, arith, Bool, true, false, List, [], ◌∷◌, ◌++◌, some, none, Option}
use muxtls.Base.{All, length, drop, ◌==◌, if◌then◌else◌}
use mathlib.Core.Path.{subst}
use muxtls.Base.Bits.{==→eq}
use muxtls.Base.Maps.{insert, remove}
use muxtls.Base.Ids.{mem, mem-append}
use muxtls.Proto.Frame.{Frame}
use muxtls.Connection.State.{OutboundChunk, Writer}
use muxtls.Connection.Writer.{is_empty, or_default}
use muxtls.Connection.Writer.Next.{
  Turn, sends, finished, again, waits, panics, with_queues, next_control, send_chunk, close_turn,
  after_data, data_turn, control_or_data, round, next_frame,
}
use muxtls.Connection.Writer.Schedule.{
  Owns, IsScheduled, Scheduled, insert-IsScheduled, remove-IsScheduled, rotate-IsScheduled,
}
use muxtls.Connection.Writer.Schedule.Serve.{popped, skip, Head, serve_rule}

-- The writer that the turn leaves keeps a schedule.
abbrev pub Keeps : Turn → Type 0
Keeps (sends w frame dropped) = Scheduled w
Keeps (finished w) = Scheduled w
Keeps (again w) = Scheduled w
Keeps (waits w) = Scheduled w
Keeps panics = Unit

module _ (w : Writer) (id : ℕ) (others : List ℕ) (chunk : OutboundChunk)
    (behind : List OutboundChunk) (s : Scheduled w) (h : Head w id others chunk behind) where
  head_IsScheduled : IsScheduled (id ∷ others) w.queues.by_stream
  head_IsScheduled = rw h.ready at s

  pub skip-Scheduled : Scheduled (skip w id others)
  skip-Scheduled = rotate-IsScheduled id others w.queues.by_stream head_IsScheduled

  pub mine : All (Owns id) (chunk ∷ behind)
  mine = subst (λ o. All (Owns id) (or_default o)) h.chunks (s.owned id)

  others_mem : (j : ℕ) → mem j others ≡ (if id == j then false else mem j (id ∷ others))
  others_mem j = unfold mem in ground (arith, head_IsScheduled.distinct.0, ==→eq id j)

  back_mem : (j : ℕ) → mem j (others ++ (id ∷ [])) ≡ (if id == j then true else mem j (id ∷ others))
  back_mem j = unfold mem in ground (arith, mem-append j others (id ∷ []))

  queue_left :
      (q : List OutboundChunk)
      → All (Owns id) q
      → IsScheduled
          (if is_empty q then others else others ++ (id ∷ []))
          (if is_empty q then remove id w.queues.by_stream else insert id q w.queues.by_stream)
  queue_left [] o =
      remove-IsScheduled id (id ∷ others) others w.queues.by_stream head_IsScheduled
        head_IsScheduled.distinct.1 others_mem
  queue_left (c ∷ q) o =
      insert-IsScheduled id (id ∷ others) (others ++ (id ∷ [])) w.queues.by_stream head_IsScheduled
        skip-Scheduled.distinct (c ∷ q) refl o back_mem

  left_owned :
      (used_up : Bool) (payload : List ℕ)
      → All (Owns id) (if used_up then behind else record chunk { payload = payload } ∷ behind)
  left_owned true payload = mine.1
  left_owned false payload = mine

  send_chunk-Keeps :
      (count : ℕ) → Keeps (send_chunk (with_queues w (popped w others)) id chunk behind count)
  unfolding send_chunk
  send_chunk-Keeps count = queue_left _ (left_owned (is_empty (drop count chunk.payload)) _)

close_turn-Keeps : (w : Writer) → Scheduled w → Keeps (close_turn w)
unfolding close_turn
close_turn-Keeps w s = ground arith

after_data-Keeps : (w : Writer) → Scheduled w → Keeps (after_data w)
unfolding after_data
after_data-Keeps w s = ground (arith, close_turn-Keeps w s)

data_turn-Keeps : (w : Writer) → Scheduled w → Keeps (data_turn w)
unfolding data_turn
data_turn-Keeps w s =
    serve_rule Scheduled Keeps after_data (λ v h. h)
      (λ v id others chunk behind h head b. skip-Scheduled v id others chunk behind h head)
      (λ v id others chunk behind h head b. send_chunk-Keeps v id others chunk behind h head _)
      (λ v id others chunk behind h head o. tt) after_data-Keeps (length w.queues.ready) w s
      (omega arith)

-- Control frames leave the data queues alone.
pub next_control-queues :
    (w v : Writer) (f : Option Frame)
    → next_control w ≡ some (v, f)
    → (v.queues.ready ≡ w.queues.ready) × (v.queues.by_stream ≡ w.queues.by_stream)
unfolding next_control
next_control-queues w v f e = ground arith

control_turn-Keeps :
    (w : Writer) (o : Option (Writer × Option Frame))
    → Scheduled w
    → next_control w ≡ o
    → Keeps (control_or_data w o)
unfolding control_or_data
control_turn-Keeps w none s e = data_turn-Keeps w s
control_turn-Keeps w (some (v, none)) s e = tt
control_turn-Keeps w (some (v, some f)) s e =
    let (r, b) = next_control-queues w v (some f) e in rw (r, b) s

pub round-Keeps : (w : Writer) → Scheduled w → Keeps (round w)
unfolding round
round-Keeps w s =
    ground (
      arith,
      close_turn-Keeps w s,
      data_turn-Keeps w s,
      control_turn-Keeps w (next_control w) s refl,
    )

-- A round asks for another only to set the control turn.
abbrev pub Flips : Bool → Turn → Type 0
Flips turn (again w) = (turn ≡ false) × (w.queues.control_turn ≡ true)
Flips turn _ = Unit

close_turn-Flips : (turn : Bool) (w : Writer) → Flips turn (close_turn w)
unfolding close_turn
close_turn-Flips turn w = ground arith

after_data-Flips :
    (turn : Bool) (w : Writer) → w.queues.control_turn ≡ turn → Flips turn (after_data w)
unfolding after_data
after_data-Flips turn w e = ground (arith, close_turn-Flips turn w)

data_turn-Flips : (w : Writer) → Scheduled w → Flips w.queues.control_turn (data_turn w)
unfolding data_turn
data_turn-Flips w s =
    serve_rule (λ v. Scheduled v × (v.queues.control_turn ≡ w.queues.control_turn))
      (Flips w.queues.control_turn) after_data (λ v h. h.0)
      (λ v id others chunk behind h head b. (skip-Scheduled v id others chunk behind h.0 head, h.1))
      (λ v id others chunk behind h head b. unfold send_chunk in tt)
      (λ v id others chunk behind h head o. tt)
      (λ v h. after_data-Flips w.queues.control_turn v h.1) (length w.queues.ready) w (s, refl)
      (omega arith)

control_turn-Flips :
    (w : Writer) (o : Option (Writer × Option Frame))
    → Scheduled w
    → Flips w.queues.control_turn (control_or_data w o)
unfolding control_or_data
control_turn-Flips w none s = data_turn-Flips w s
control_turn-Flips w (some (v, none)) s = tt
control_turn-Flips w (some (v, some f)) s = tt

pub round-Flips : (w : Writer) → Scheduled w → Flips w.queues.control_turn (round w)
unfolding round
round-Flips w s = ground (
  arith,
  close_turn-Flips w.queues.control_turn w,
  data_turn-Flips w s,
  control_turn-Flips w (next_control w) s,
)

second_round : (t : Turn) → Keeps t → Keeps (elim t [ again w' ↦ round w' | other ↦ other ])
second_round (again w) k = round-Keeps w k
second_round (sends w frame dropped) k = k
second_round (finished w) k = k
second_round (waits w) k = k
second_round panics k = k

pub next_frame-Keeps : (w : Writer) → Scheduled w → Keeps (next_frame w)
unfolding next_frame
next_frame-Keeps w s = second_round (round w) (round-Keeps w s)
