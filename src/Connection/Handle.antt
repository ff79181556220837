-- ===== src/Connection/Handle.antt =====
-- `Connection` of muxtls/src/connection.rs: what an application does with the connection itself.
use muxtls.Base.{ℕ, ◌+◌, ◌-◌, ◌%◌, ◌^◌, Bool, true, List}
use muxtls.Base.{Result, ◌>>◌}
use muxtls.Connection.Permits.{Semaphores}
use muxtls.Connection.Shared.{Shared, validate_close_reason}
use muxtls.Connection.Shared.Streams.{initiate_close}
use muxtls.Error.{Error}

pub record ConnectionStats : Type 0 where
  pub opened_streams : ℕ
  pub frames_sent : ℕ
  pub frames_received : ℕ
  pub bytes_sent : ℕ
  pub bytes_received : ℕ

module _ (S : Semaphores) where
  unfoldable pub close : List ℕ → Shared S → Result Error (Shared S)
  close reason sh =
      validate_close_reason sh.limits.max_frame_size 0 reason >> initiate_close S 0 reason sh

  -- The tasks end at their next round.
  unfoldable pub abort : Shared S → Shared S
  abort sh = record sh { closed = true; terminated = true }

  unfoldable pub is_closed : Shared S → Bool
  is_closed sh = sh.closed

  -- Whether `wait_closed` returns.
  unfoldable pub wait_closed : Shared S → Bool
  wait_closed sh = sh.joined

  unfoldable pub stats : Shared S → ConnectionStats
  stats sh = record {
    opened_streams = sh.stats_opened_streams;
    frames_sent = sh.stats_frames_sent;
    frames_received = sh.stats_frames_received;
    bytes_sent = sh.stats_bytes_sent;
    bytes_received = sh.stats_bytes_received;
  }

  unfoldable pub clone_handle : Shared S → Shared S
  clone_handle sh = record sh { connection_handles = (sh.connection_handles + 1) % 2 ^ 64 }

  -- The last drop wakes the supervisor. The count is positive while a handle is there to be dropped.
  unfoldable pub drop_handle : Shared S → Shared S
  drop_handle sh = record sh { connection_handles = sh.connection_handles - 1 }
