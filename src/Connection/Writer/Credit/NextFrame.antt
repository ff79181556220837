-- ===== src/Connection/Writer/Credit/NextFrame.antt =====
-- The budget over the whole of `next_frame`.
use muxtls.Base.{
  ℕ, ◌≡◌, refl, sym, arith, true, false, not, ◌||◌, ◌&&◌, List, [], ◌∷◌, some, none, Option,
}
use muxtls.Base.{All, length, Bool-cases, inl, inr}
use mathlib.Core.Path.{subst}
use muxtls.Proto.Frame.{Frame, connection_close, stream}
use muxtls.Flow
use muxtls.Flow.{ReceiveWindow}
use muxtls.Connection.State.{OutboundChunk, WriterQueues, Writer, Heap}
use muxtls.Connection.Writer.{is_empty, taken_frame, fit_reason}
use muxtls.Connection.Writer.Next.{
  Turn, again, with_queues, next_control, is_blocked, send_chunk, after_data, data_turn, round,
  next_frame, control_or_data, update_frame, find_update, close_turn, is_urgent, close_with,
  announce, announce_stream, pop_control,
}
use muxtls.Connection.Writer.Schedule.{Scheduled}
use muxtls.Connection.Writer.Schedule.Serve.{popped, count_of, serve_rule}
use muxtls.Connection.Writer.Schedule.NextFrame.{Keeps, round-Keeps, skip-Scheduled, mine}
use muxtls.Connection.Writer.Credit.{
  Budget, budget, IsCredited, SpendsFrame, Pays, NoData, NoDataOption, send_chunk-Pays,
}

-- A stream that is not blocked has the peer's SETTINGS.
unblocked :
    (queues : WriterQueues) (count : ℕ) (chunk : OutboundChunk)
    → is_blocked queues count chunk ≡ false
    → queues.peer_settings ≡ true
unfolding is_blocked
unblocked queues count chunk e = ground arith

-- A frame without data spends nothing.
NoData-Spends : (b c : Budget) (f : Frame) → NoData f → SpendsFrame b f c
NoData-Spends b c (stream id fin payload) h = elim h [ ]
NoData-Spends b c _ h = tt

pub fit_reason-NoData : (n : ℕ) (f : Frame) → NoData f → NoData (fit_reason n f)
unfolding fit_reason
fit_reason-NoData n (stream id fin payload) h = elim h [ ]
fit_reason-NoData n (connection_close code reason) h = ground arith
fit_reason-NoData n _ h = tt

-- The queue loses a frame.
less_plain :
    (b : Budget) (control : List Frame) (close_frame : Option Frame)
    → IsCredited b
    → All NoData control
    → NoDataOption close_frame
    → IsCredited (record b { control = control; close_frame = close_frame })
less_plain b control close_frame c h k = record {
  room = c.room;
  conn = c.conn;
  limits = c.limits;
  plain = (h, k);
  streams = c.streams;
}

close_with-Pays :
    (w : Writer) (o : Option Frame)
    → IsCredited (budget w)
    → NoDataOption o
    → Pays (budget w) (close_with w (taken_frame w.queues o))
unfolding close_with taken_frame
close_with-Pays w none c h = c
close_with-Pays w (some f) c h = (
  NoData-Spends _ _ _ (fit_reason-NoData w.queues.peer_max_frame f h),
  less_plain (budget w) w.queues.control none c c.plain.0 tt,
)

close_turn-Pays : (w : Writer) → IsCredited (budget w) → Pays (budget w) (close_turn w)
unfolding close_turn
close_turn-Pays w c = close_with-Pays w w.queues.close_frame c c.plain.1

after_data-Pays : (w : Writer) → IsCredited (budget w) → Pays (budget w) (after_data w)
unfolding after_data
after_data-Pays w c = elim (Bool-cases (not w.queues.control_turn)) [
  | inl e ↦ rw e refl
  | inr e ↦ rw e (elim (Bool-cases (w.queues.closing && is_empty w.queues.by_stream)) [
    | inl x ↦ rw x (close_turn-Pays w c)
    | inr x ↦ rw x refl
  ])
]

data_turn-Pays : (w : Writer) → Scheduled w → IsCredited (budget w) → Pays (budget w) (data_turn w)
unfolding data_turn
data_turn-Pays w s c =
    serve_rule (λ v. Scheduled v × (budget v ≡ budget w)) (Pays (budget w)) after_data (λ v h. h.0)
      (λ v id others chunk behind h head b. (skip-Scheduled v id others chunk behind h.0 head, h.1))
      (λ v id others chunk behind h head b.
        subst
          (λ x. Pays x (
            send_chunk (with_queues v (popped v others)) id chunk behind (count_of v others chunk)))
          h.1
          (send_chunk-Pays v id others chunk behind (subst IsCredited (sym h.1) c)
            (mine v id others chunk behind h.0 head).0.1 (unblocked _ _ chunk b)))
      (λ v id others chunk behind h head o. tt)
      (λ v h.
        subst (λ b. Pays b (after_data v)) h.1 (after_data-Pays v (subst IsCredited (sym h.1) c)))
      (length w.queues.ready) w (s, refl) (omega arith)

find_update-limits :
    (heap : Heap) (ids : List ℕ) (id : ℕ)
    → (((find_update heap ids).0 id).sent ≡ (heap id).sent)
      × (((find_update heap ids).0 id).peer_limit ≡ (heap id).peer_limit)
unfolding find_update
find_update-limits heap [] id = (refl, refl)
find_update-limits heap (j ∷ ids) id = ground (arith, find_update-limits heap ids id)

-- A control frame carries no data, and leaves the budget as it was.
Controls : Option (Writer × Option Frame) → Type 0
Controls none = Unit
Controls (some (v, f)) = NoDataOption f × IsCredited (budget v)

abbrev pub NoDataFound : Option (Option Frame) → Type 0
NoDataFound none = Unit
NoDataFound (some f) = NoDataOption f

pub find_update-NoData : (heap : Heap) (ids : List ℕ) → NoDataFound (find_update heap ids).1
unfolding find_update update_frame
find_update-NoData heap [] = tt
find_update-NoData heap (j ∷ ids) = ground (arith, find_update-NoData heap ids)

SameLimits : Heap → Heap → Type 0
SameLimits heap heap' =
    (id : ℕ) → ((heap' id).sent ≡ (heap id).sent) × ((heap' id).peer_limit ≡ (heap id).peer_limit)

announce_stream-Controls :
    (w : Writer) (found : Heap × Option (Option Frame))
    → IsCredited (budget w)
    → SameLimits w.states found.0
    → NoDataFound found.1
    → Controls (announce_stream w found)
unfolding Controls announce_stream SameLimits
announce_stream-Controls w (heap, none) c same h = tt
announce_stream-Controls w (heap, some f) c same h = (
  h,
  record {
    room = c.room;
    conn = c.conn;
    limits = c.limits;
    plain = c.plain;
    streams = λ id. ground (arith, same id, c.streams id);
  },
)

announce-Controls :
    (w : Writer) (r : ReceiveWindow × Option ℕ) → IsCredited (budget w) → Controls (announce w r)
unfolding announce
announce-Controls w (window, none) c =
    announce_stream-Controls w _ c
      (unfold SameLimits in find_update-limits w.states w.queues.receive_windows)
      (find_update-NoData w.states w.queues.receive_windows)
announce-Controls w (window, some maximum) c = unfold Controls in (tt, c)

pop_control-Controls :
    (w : Writer) (control : List Frame)
    → IsCredited (budget w)
    → All NoData control
    → Controls (pop_control w control)
unfolding pop_control Controls
pop_control-Controls w [] c h = announce-Controls w (Flow.update w.receive_window) c
pop_control-Controls w (f ∷ rest) c h =
    (h.0, less_plain (budget w) rest w.queues.close_frame c h.1 c.plain.1)

control_turn-Pays :
    (w : Writer) (o : Option (Writer × Option Frame))
    → Scheduled w
    → IsCredited (budget w)
    → Controls o
    → Pays (budget w) (control_or_data w o)
unfolding Controls control_or_data
control_turn-Pays w none s c h = data_turn-Pays w s c
control_turn-Pays w (some (v, none)) s c h = tt
control_turn-Pays w (some (v, some f)) s c h = (NoData-Spends _ _ f h.0, h.1)

pub round-Pays : (w : Writer) → Scheduled w → IsCredited (budget w) → Pays (budget w) (round w)
unfolding round next_control
round-Pays w s c = elim (Bool-cases (w.queues.closing && not w.queues.graceful_close)) [
  | inl e ↦ rw e (close_turn-Pays w c)
  | inr e ↦ rw e (elim (Bool-cases (w.queues.control_turn || is_urgent w.queues.control)) [
    | inl x ↦ rw x (control_turn-Pays w _ s c (pop_control-Controls w w.queues.control c c.plain.0))
    | inr x ↦ rw x (data_turn-Pays w s c)
  ])
]

second_round-Pays :
    (b : Budget) (t : Turn)
    → IsCredited b
    → Keeps t
    → Pays b t
    → Pays b (elim t [ again w ↦ round w | turn ↦ turn ])
second_round-Pays b (again w) c k e =
    subst (λ x. Pays x (round w)) e (round-Pays w k (subst IsCredited (sym e) c))
second_round-Pays b _ c k p = p

-- From a writer within its peer's limits, whatever frame `next_frame` sends leaves it within them. A
-- data frame is sent only after the peer's SETTINGS; its size is at most the peer's frame size; its
-- payload fits the credit of the connection and of the stream; and both totals grow by its length.
pub next_frame-Pays :
    (w : Writer) → Scheduled w → IsCredited (budget w) → Pays (budget w) (next_frame w)
unfolding next_frame
next_frame-Pays w s c =
    second_round-Pays (budget w) (round w) c (round-Keeps w s) (round-Pays w s c)
