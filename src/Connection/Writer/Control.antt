-- ===== src/Connection/Writer/Control.antt =====
-- The control queue keeps its bound, and one PING at most.
use muxtls.Base.{ℕ, ◌+◌, ◌≤◌, ◌≡◌, arith, false, List, [], ◌∷◌, ◌++◌}
use muxtls.Base.{length, length-append, if◌then◌else◌}
use muxtls.Proto.Frame.{Frame}
use muxtls.Connection.State.{Writer}
use muxtls.Connection.Writer.{is_ping, any_ping, enqueue_control}

abbrev pub pings : List Frame → ℕ
pings [] = 0
pings (f ∷ fs) = (if is_ping f then 1 else 0) + pings fs

pings-append : (xs ys : List Frame) → pings (xs ++ ys) ≡ pings xs + pings ys
pings-append [] ys = omega arith
pings-append (f ∷ fs) ys = ground (arith, pings-append fs ys)

no_ping : (fs : List Frame) → any_ping fs ≡ false → pings fs ≡ 0
unfolding any_ping
no_ping [] e = omega arith
no_ping (f ∷ fs) e = ground (arith, no_ping fs)

-- A control queue within its bound that has one PING at most stays so, whatever frame is queued, and
-- a refused frame changes nothing.
pub enqueue_control-bounded :
    (w : Writer) (frame : Frame)
    → length w.queues.control ≤ w.max_control_frames
    → pings w.queues.control ≤ 1
    → (length (enqueue_control w frame).0.queues.control ≤ w.max_control_frames)
      × (pings (enqueue_control w frame).0.queues.control ≤ 1)
      × ((enqueue_control w frame).1 ≡ false → (enqueue_control w frame).0 ≡ w)
unfolding enqueue_control
enqueue_control-bounded w frame h k = ground (
  arith,
  length-append w.queues.control (frame ∷ []),
  pings-append w.queues.control (frame ∷ []),
  no_ping w.queues.control,
)
