-- ===== src/Flow/Invariant.antt =====
-- What holds of a window in every state that the three tasks can reach.
use muxtls.Base.{ℕ, ◌+◌, ◌-◌, ◌^◌, ◌≤◌, ◌<◌, ◌≡◌, refl, ◌∙◌, arith, ok}
use muxtls.Proto.VarInt.{IsVarInt}
use muxtls.Flow.{ReceiveWindow, new, receive, next_limit, needs_update, consume, update}

-- No more is consumed than was received, nor received than was announced, nor announced than the
-- capacity beyond what was consumed.
pub record IsWindow (w : ReceiveWindow) : Type 0 where
  pub owned : w.consumed ≤ w.received
  pub authorized : w.received ≤ w.advertised
  pub announced : w.advertised ≤ w.consumed + w.window
  pub bounded : IsVarInt w.advertised
  pub small : w.window < 2 ^ 32

pub new-IsWindow : (window : ℕ) → window < 2 ^ 32 → IsWindow (new window)
unfolding new
new-IsWindow window h = omega arith

pub receive-IsWindow :
    {w v : ReceiveWindow} (size : ℕ) → IsWindow w → receive w size ≡ ok v → IsWindow v
unfolding receive
receive-IsWindow size h e = ground arith

-- A chunk is consumed by its owner, once: no more than what is buffered.
pub consume-IsWindow :
    {w : ReceiveWindow} (size : ℕ)
    → IsWindow w
    → size ≤ w.received - w.consumed
    → IsWindow (consume w size).0
unfolding consume
consume-IsWindow size h le = ground arith

pub update-IsWindow : {w : ReceiveWindow} → IsWindow w → IsWindow (update w).0
unfolding update needs_update next_limit
update-IsWindow h = ground arith

-- The tasks' interleavings: any order of accepted payloads, consumptions and updates.
pub data Step : ReceiveWindow → ReceiveWindow → Type 0 where
  receives : {w v : ReceiveWindow} (size : ℕ) → receive w size ≡ ok v → Step w v
  consumes :
      {w : ReceiveWindow} (size : ℕ) → size ≤ w.received - w.consumed → Step w (consume w size).0
  updates : {w : ReceiveWindow} → Step w (update w).0

pub data Reach (w : ReceiveWindow) : ReceiveWindow → Type 0 where
  here : Reach w w
  next : {u v : ReceiveWindow} → Reach w u → Step u v → Reach w v

Step-IsWindow : {w v : ReceiveWindow} → Step w v → IsWindow w → IsWindow v
Step-IsWindow (receives size e) h = receive-IsWindow size h e
Step-IsWindow (consumes size le) h = consume-IsWindow size h le
Step-IsWindow updates h = update-IsWindow h

pub Reach-IsWindow : {w v : ReceiveWindow} → Reach w v → IsWindow w → IsWindow v
Reach-IsWindow here h = h
Reach-IsWindow (next r s) h = Step-IsWindow s (Reach-IsWindow r h)

Step-window : {w v : ReceiveWindow} → Step w v → v.window ≡ w.window
Step-window (receives size e) = unfold receive in ground arith
Step-window (consumes size le) = unfold consume in ground arith
Step-window updates = unfold update in ground arith

Reach-window : {w v : ReceiveWindow} → Reach w v → v.window ≡ w.window
Reach-window here = refl
Reach-window (next r s) = Step-window s ∙ Reach-window r

-- In whatever order payloads arrive, bytes are consumed and updates are sent, the bytes that are
-- received and not yet consumed never exceed the window that the connection was made with, and the
-- announced limit never exceeds 2^62 - 1.
pub buffered_bounded :
    (window : ℕ) {w : ReceiveWindow}
    → window < 2 ^ 32
    → Reach (new window) w
    → (w.received - w.consumed ≤ window) × IsVarInt w.advertised
buffered_bounded window {w} small r =
    let inv = Reach-IsWindow r (new-IsWindow window small) in
    let same : w.window ≡ (new window).window = Reach-window r in
    (unfold new in omega arith, inv.bounded)
