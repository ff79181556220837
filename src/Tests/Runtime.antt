-- ===== src/Tests/Runtime.antt =====
-- Limits and receive windows.
use muxtls.Base.{◌+◌, ◌-◌, ◌^◌, ◌≤◌, ◌<◌, ◌≡◌, refl, arith, true, none, some, ok, ◌↔◌, min}
use muxtls.Proto.VarInt.{IsVarInt, max_value}
use muxtls.Limits.{
  default, validate, validate_byte_limit, validate_semaphore, validate_nonzero, minimum_controls,
}
use muxtls.Limits.Valid.{IsValid, validate_iff}
use muxtls.Flow.{ReceiveWindow, receive, consume, update, new, needs_update, next_limit}
use muxtls.Flow.Invariant.{Reach, here, next, receives, buffered_bounded}
use muxtls.Flow.Credit.{no_deadlock}

-- Any number of permits that holds 4 MiB will do.
default_passes : validate (2 ^ 61 - 1) default ≡ ok tt
unfolding validate validate_byte_limit validate_semaphore validate_nonzero minimum_controls
default_passes = refl

validate_iff_example : (validate (2 ^ 61 - 1) default ≡ ok tt) ↔ IsValid (2 ^ 61 - 1) default
validate_iff_example = validate_iff (2 ^ 61 - 1) default (omega arith)

-- The unit test of flow.rs: a window of 32 bytes, 31 of them received.
abbrev busy : ReceiveWindow
busy = record { received = 31; consumed = 15; advertised = 32; window = 32 }

abbrev spent : ReceiveWindow
spent = record { received = 32; consumed = 0; advertised = 32; window = 32 }

half_window : (update (consume busy 1).0).1 ≡ some 48
unfolding update consume needs_update next_limit
half_window = refl

below_half : (update busy).1 ≡ none
unfolding update needs_update next_limit
below_half = refl

busy_reached : Reach (new 32) (record { received = 31; consumed = 0; advertised = 32; window = 32 })
unfolding new receive
busy_reached = next here (receives 31 refl)

buffered_bounded_example : (31 - 0 ≤ 32) × IsVarInt 32
buffered_bounded_example = buffered_bounded 32 (omega arith) busy_reached

no_deadlock_example :
    ((consume spent 1).1 ≡ true)
    × ((update (consume spent 1).0).1 ≡ some (min (0 + 1 + 32) max_value))
    × (32 < min (0 + 1 + 32) max_value)
no_deadlock_example =
    no_deadlock spent 1 (omega arith) refl (omega arith) (omega arith) (omega arith)
