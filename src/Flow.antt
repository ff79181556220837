-- ===== src/Flow.antt =====
-- muxtls/src/flow.rs: one receive window, of a connection or of a stream. Each operation is one
-- step; the reader task receives, the application consumes, and the writer task updates.
pub mod Invariant
pub mod Credit
use muxtls.Base.{ℕ, ◌+◌, ◌-◌, ◌/◌, ◌%◌, ◌^◌, min, Bool, true, false, ◌&&◌, ◌||◌, Option, none, some}
use muxtls.Base.{Result, ok, err, ltb, leb, ◌==◌, if◌then◌else◌}
use muxtls.Proto.Frame.{u64_max}
use muxtls.Proto.VarInt.{max_value}
use muxtls.Error.{Error, protocol, exceeded_receive_credit}

pub record ReceiveWindow : Type 0 where
  pub received : ℕ
  pub consumed : ℕ
  pub advertised : ℕ
  pub window : ℕ

-- `u64` addition: checked, saturating, and as `fetch_add` wraps it.
abbrev pub checked_add : ℕ → ℕ → Option ℕ
checked_add a b = if leb (a + b) u64_max then some (a + b) else none

abbrev pub saturating_add : ℕ → ℕ → ℕ
saturating_add a b = min (a + b) u64_max

abbrev pub fetch_add : ℕ → ℕ → ℕ
fetch_add a b = (a + b) % 2 ^ 64

abbrev pub div_ceil_2 : ℕ → ℕ
div_ceil_2 n = (n + 1) / 2

unfoldable pub new : ℕ → ReceiveWindow
new window = record { received = 0; consumed = 0; advertised = window; window = window }

-- A payload of `size` bytes arrives. An error leaves the window as it was.
unfoldable pub receive : ReceiveWindow → ℕ → Result Error ReceiveWindow
receive w size = elim (checked_add w.received size) [
  | none ↦ err (protocol exceeded_receive_credit)
  | some next ↦
      if leb next w.advertised
      then ok (record w { received = next })
      else err (protocol exceeded_receive_credit)
]

-- The limit that an update would announce.
unfoldable pub next_limit : ReceiveWindow → ℕ
next_limit w = min (saturating_add w.consumed w.window) max_value

unfoldable pub needs_update : ReceiveWindow → Bool
unfolding next_limit
needs_update w =
    let next = next_limit w in
    let old = w.advertised in
    ltb old next
    && (leb (div_ceil_2 w.window) (next - old) || (w.received == old || next == max_value))

-- `size` bytes leave the buffers. The flag says that the writer has an update to send.
unfoldable pub consume : ReceiveWindow → ℕ → ReceiveWindow × Bool
consume w size =
    if size == 0
    then (w, false)
    else let w' = record w { consumed = fetch_add w.consumed size } in (w', needs_update w')

-- The limit to announce, if one is due.
unfoldable pub update : ReceiveWindow → ReceiveWindow × Option ℕ
update w =
    let next = next_limit w in
    if needs_update w then (record w { advertised = next }, some next) else (w, none)
