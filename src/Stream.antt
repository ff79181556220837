-- ===== src/Stream.antt =====
-- muxtls/src/stream.rs: the two halves of a stream that the application holds. A waker is left out: a
-- poll that is pending is polled again.
pub mod Writing
pub mod Order
pub mod Modes
pub mod Reading
use muxtls.Base.{ℕ, Bool}
use muxtls.Base.{Result, ok, err, ◌==◌, if◌then◌else◌}
use muxtls.Error.{Error, protocol, mixed_apis}

-- The errors of std::io that the halves return. `other` is `to_io_error`, which keeps the text only.
pub data IoError : Type 0 where
  other : Error → IoError
  broken_pipe invalid_input : IoError

-- 1 is the chunk interface, 2 is AsyncRead or AsyncWrite, and 0 is neither yet.
abbrev pub chunks_mode : ℕ
chunks_mode = 1

abbrev pub async_mode : ℕ
async_mode = 2

-- The mode after the compare_exchange.
unfoldable pub select_mode : ℕ → ℕ → Result Error ℕ
select_mode mode requested =
    if mode == 0
    then ok requested
    else if mode == requested
    then ok mode
    else err (protocol mixed_apis)
