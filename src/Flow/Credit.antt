-- ===== src/Flow/Credit.antt =====
-- When a window announces new credit, and that credit never runs dry.
use muxtls.Base.{
  ℕ, ◌+◌, ◌-◌, ◌≤◌, ◌<◌, ◌≡◌, arith, none, some, true, ok, err, ◌⊎◌, inl, inr, min, false,
  Bool-cases,
}
use muxtls.Proto.VarInt.{max_value}
use muxtls.Flow.{ReceiveWindow, receive, next_limit, needs_update, consume, update, div_ceil_2}
use muxtls.Flow.Invariant.{IsWindow}
use muxtls.Error.{protocol, exceeded_receive_credit}

-- A payload is accepted exactly when it ends within the announced limit.
pub receive_iff :
    (w : ReceiveWindow) (size : ℕ)
    → IsWindow w
    → ((w.received + size ≤ w.advertised)
        × (receive w size ≡ ok (record w { received = w.received + size })))
      ⊎ ((w.advertised < w.received + size)
          × (receive w size ≡ err (protocol exceeded_receive_credit)))
unfolding receive
receive_iff w size h = ground arith

-- The limit that full use of the capacity allows.
abbrev pub ceiling : ReceiveWindow → ℕ
ceiling w = min (w.consumed + w.window) max_value

-- Reasons for an update: half a window was consumed, or the peer is out of credit, or the limit is
-- the last that the wire can carry.
abbrev pub IsDue : ReceiveWindow → Type 0
IsDue w =
    (w.advertised < ceiling w)
    × ((div_ceil_2 w.window ≤ ceiling w - w.advertised)
        ⊎ ((w.received ≡ w.advertised) ⊎ (ceiling w ≡ max_value)))

pub next_limit-ceiling : (w : ReceiveWindow) → IsWindow w → next_limit w ≡ ceiling w
unfolding next_limit
next_limit-ceiling w h = omega arith

due : (w : ReceiveWindow) → IsWindow w → needs_update w ≡ true → IsDue w
unfolding needs_update
due w h e = ground (arith, next_limit-ceiling w h)

not-IsDue : (w : ReceiveWindow) → IsWindow w → needs_update w ≡ false → ¬ IsDue w
unfolding needs_update
not-IsDue w h e d = ground (arith, next_limit-ceiling w h)

-- Whatever the state: an update is due and raises the announced limit to the ceiling, or it is not
-- due and nothing changes.
pub update_iff :
    (w : ReceiveWindow)
    → IsWindow w
    → (IsDue w × (update w ≡ (record w { advertised = ceiling w }, some (ceiling w))))
      ⊎ ((¬ IsDue w) × (update w ≡ (w, none)))
unfolding update
update_iff w h = elim (Bool-cases (needs_update w)) [
  | inl e ↦ inl (due w h e, rw e (rw (next_limit-ceiling w h)))
  | inr e ↦ inr (not-IsDue w h e, rw e)
]

-- Announcing twice in a row announces nothing the second time.
pub update_once : (w : ReceiveWindow) → IsWindow w → (update (update w).0).1 ≡ none
unfolding update needs_update next_limit
update_once w h = ground arith

-- A peer that has used all its credit gets more as soon as any byte is consumed, below the lifetime
-- limit of 2^62 - 1: the consumer is told to wake the writer, and the writer's update lies beyond
-- what was received.
pub no_deadlock :
    (w : ReceiveWindow) (size : ℕ)
    → IsWindow w
    → w.received ≡ w.advertised
    → w.advertised < max_value
    → 0 < size
    → size ≤ w.received - w.consumed
    → ((consume w size).1 ≡ true)
      × ((update (consume w size).0).1 ≡ some (min (w.consumed + size + w.window) max_value))
      × (w.received < min (w.consumed + size + w.window) max_value)
unfolding consume update needs_update next_limit
no_deadlock w size h used finite some_read le = ground arith
