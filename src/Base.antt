-- ===== src/Base.antt =====
-- The vocabulary that every module shares: the libraries' names passed on, Boolean tests, lists over
-- the native numbers, results of fallible code, bit operations and association lists.
mod Tests
mod Lists
mod Results
mod Polls
pub mod Bits
pub mod Maps
pub mod Ids
pub use Tests.*
pub use Lists.*
pub use Results.*
pub use Polls.*
pub use Prim.Native.Nat.{ℕ, zero, suc, ◌+◌, ◌-◌, ◌*◌, ◌/◌, ◌%◌, ◌^◌, ◌≤◌, ◌<◌, min, max}
pub use Prim.Native.Nat.{bit_and, bit_or}
pub use mathlib.Core.Path.{◌≡◌, refl, sym, ap, ◌∙◌}
pub use mathlib.Core.Logic.{◌≢◌, ◌↔◌, ◌⊎◌, inl, inr}
pub use mathlib.Core.Bool.{Bool, true, false, not, ◌&&◌, ◌||◌}
pub use mathlib.Core.Option.{Option, none, some}
pub use mathlib.Core.List.{List, [], ◌∷◌, ◌++◌}
pub use native.Mathlib.Omega.{arith}
