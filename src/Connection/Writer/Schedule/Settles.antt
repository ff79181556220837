-- ===== src/Connection/Writer/Schedule/Settles.antt =====
-- The panics of `WriterState::next_frame`, and the rounds that it takes.
use muxtls.Base.{ℕ, ◌-◌, ◌≤◌, ◌≡◌, arith, Bool, true, false, List, [], ◌∷◌, some, none, Option}
use muxtls.Base.{All, length, ◌&&◌, ◌||◌, not, if_either}
use mathlib.Core.Path.{subst}
use muxtls.Limits.{min_frame_size, u32_max}
use muxtls.Proto.VarInt
use muxtls.Proto.VarInt.{IsVarInt}
use muxtls.Proto.VarInt.Decode.{encoded_len-le}
use muxtls.Proto.Frame.{Frame}
use muxtls.Flow
use muxtls.Flow.{ReceiveWindow}
use muxtls.Connection.State.{Writer, WriterQueues, Heap}
use muxtls.Connection.Writer.Next.{
  Turn, sends, finished, again, waits, panics, next_control, send_chunk, close_turn, after_data,
  data_turn, control_or_data, round, next_frame, find_update, update_frame, announce_stream,
  announce, pop_control, room_panics, is_urgent,
}
use muxtls.Connection.Writer.Schedule.{Scheduled}
use muxtls.Connection.Writer.Schedule.Serve.{popped, serve_rule}
use muxtls.Connection.Writer.Schedule.NextFrame.{
  Keeps, round-Keeps, Flips, round-Flips, skip-Scheduled,
}

-- What the `expect`s and subtractions outside the schedule rely on.
pub record IsSound (w : Writer) : Type 0 where
  pub room : (min_frame_size ≤ w.queues.peer_max_frame) × (w.queues.peer_max_frame ≤ u32_max)
  pub windows : All IsVarInt w.queues.receive_windows

-- The turn is no panic, and its writer stays sound.
abbrev Holds : Turn → Type 0
Holds (sends w frame dropped) = IsSound w
Holds (finished w) = IsSound w
Holds (again w) = IsSound w
Holds (waits w) = IsSound w
Holds panics = ⊥

-- The frame size leaves room for the header, and what it leaves is a `VarInt`.
room_fits :
    (queues : WriterQueues) (id : ℕ)
    → min_frame_size ≤ queues.peer_max_frame
    → queues.peer_max_frame ≤ u32_max
    → room_panics queues id ≡ false
unfolding room_panics
room_fits queues id low high =
    ground
      (arith, encoded_len-le id, encoded_len-le (queues.peer_max_frame - 2 - VarInt.encoded_len id))

close_turn-Holds : (w : Writer) → IsSound w → Holds (close_turn w)
unfolding close_turn
close_turn-Holds w h = ground arith

after_data-Holds : (w : Writer) → IsSound w → Holds (after_data w)
unfolding after_data
after_data-Holds w h = ground (arith, close_turn-Holds w h)

data_turn-Holds : (w : Writer) → Scheduled w → IsSound w → Holds (data_turn w)
unfolding data_turn
data_turn-Holds w s h =
    serve_rule (λ v. Scheduled v × IsSound v) Holds after_data (λ v h. h.0)
      (λ v id others chunk behind h head b. (
        skip-Scheduled v id others chunk behind h.0 head,
        record { room = h.1.room; windows = h.1.windows },
      ))
      (λ v id others chunk behind h head b.
        unfold send_chunk in record { room = h.1.room; windows = h.1.windows })
      (λ v id others chunk behind h head o.
        let fits = room_fits (popped v others) chunk.stream_id h.1.room.0 h.1.room.1 in cc)
      (λ v h. after_data-Holds v h.1) (length w.queues.ready) w (s, h) (omega arith)

-- A frame that was found is no panic.
abbrev Found : Option (Option Frame) → Type 0
Found (some none) = ⊥
Found _ = Unit

update_frame-Found : (id maximum : ℕ) → IsVarInt id → Found (some (update_frame id maximum))
unfolding update_frame VarInt.from_u64
update_frame-Found id maximum h = ground arith

find_update-Found : (heap : Heap) (ids : List ℕ) → All IsVarInt ids → Found (find_update heap ids).1
unfolding find_update
find_update-Found heap [] h = tt
find_update-Found heap (id ∷ ids) h =
    ground (arith, find_update-Found heap ids h.1, λ (m : ℕ). update_frame-Found id m h.0)

abbrev Controls : Option (Writer × Option Frame) → Type 0
Controls none = Unit
Controls (some (w, none)) = ⊥
Controls (some (w, some frame)) = IsSound w

announce_stream-Controls :
    (w : Writer) (found : Heap × Option (Option Frame))
    → IsSound w
    → Found found.1
    → Controls (announce_stream w found)
unfolding announce_stream
announce_stream-Controls w (heap, none) h f = tt
announce_stream-Controls w (heap, some none) h f = f
announce_stream-Controls w (heap, some (some frame)) h f = record {
  room = h.room;
  windows = h.windows;
}

announce-Controls :
    (w : Writer) (r : ReceiveWindow × Option ℕ) → IsSound w → Controls (announce w r)
unfolding announce
announce-Controls w (window, none) h =
    announce_stream-Controls w _ h (find_update-Found w.states w.queues.receive_windows h.windows)
announce-Controls w (window, some maximum) h = record { room = h.room; windows = h.windows }

pop_control-Controls :
    (w : Writer) (control : List Frame) → IsSound w → Controls (pop_control w control)
unfolding pop_control
pop_control-Controls w [] h = announce-Controls w (Flow.update w.receive_window) h
pop_control-Controls w (frame ∷ rest) h = record { room = h.room; windows = h.windows }

control_turn-Holds :
    (w : Writer) (o : Option (Writer × Option Frame))
    → Scheduled w
    → IsSound w
    → Controls o
    → Holds (control_or_data w o)
unfolding control_or_data
control_turn-Holds w none s h c = data_turn-Holds w s h
control_turn-Holds w (some (v, none)) s h c = c
control_turn-Holds w (some (v, some frame)) s h c = c

round-Holds : (w : Writer) → Scheduled w → IsSound w → Holds (round w)
unfolding round next_control
round-Holds w s h =
    if_either Holds (w.queues.closing && not w.queues.graceful_close) _ _
      (λ _. close_turn-Holds w h)
      (λ _.
        if_either Holds (w.queues.control_turn || is_urgent w.queues.control) _ _
          (λ _. control_turn-Holds w _ s h (pop_control-Controls w w.queues.control h))
          (λ _. data_turn-Holds w s h))

-- The task gets an answer: a frame, the end or a wait. The schedule is kept, and so is what the next
-- call relies on.
abbrev pub Settles : Turn → Type 0
Settles (sends w frame dropped) = Scheduled w × IsSound w
Settles (finished w) = Scheduled w × IsSound w
Settles (again w) = ⊥
Settles (waits w) = Scheduled w × IsSound w
Settles panics = ⊥

settle : (t : Turn) → Keeps t → Holds t → Flips true t → Settles t
settle (sends w frame dropped) k h f = (k, h)
settle (finished w) k h f = (k, h)
settle (again w) k h f = cc
settle (waits w) k h f = (k, h)
settle panics k h f = h

second_round :
    (t : Turn) (turn : Bool)
    → Keeps t
    → Holds t
    → Flips turn t
    → Settles (elim t [ again w' ↦ round w' | other ↦ other ])
second_round (sends w frame dropped) turn k h f = (k, h)
second_round (finished w) turn k h f = (k, h)
second_round (again w) turn k h f =
    settle (round w) (round-Keeps w k) (round-Holds w k h)
      (subst (λ b. Flips b (round w)) f.1 (round-Flips w k))
second_round (waits w) turn k h f = (k, h)
second_round panics turn k h f = h

-- From queues in which a stream is ready exactly when it has chunks, with a peer frame size from 25 to
-- 2^32 - 1 and receive windows whose stream identifiers fit a `VarInt`, `next_frame` comes to an end
-- within two rounds: no `expect` fails, of the queues, of the frame size or of a stream identifier, and
-- no subtraction for the frame size overflows. All this holds of the queues it leaves.
pub next_frame-Settles : (w : Writer) → Scheduled w → IsSound w → Settles (next_frame w)
unfolding next_frame
next_frame-Settles w s h =
    second_round (round w) _ (round-Keeps w s) (round-Holds w s h) (round-Flips w s)
