-- ===== src/Connection/Shared/Table.antt =====
-- The table of streams: which identifiers it can hold, and that the writer's map of windows has the same.
pub mod Steps
pub mod Frames
pub mod Handles
pub mod Reach
pub mod Open
use muxtls.Base.{
  ℕ, ◌+◌, ◌-◌, ◌%◌, ◌^◌, ◌≤◌, ◌<◌, ◌≡◌, refl, ap, sym, ◌∙◌, arith, Bool, true, false, not, ◌&&◌,
  ◌||◌, List, [], ◌∷◌,
}
use muxtls.Base.{
  Result, ok, err, ◌>>=◌, ◌>>◌, fail_if, ok_or, map_err, Yields, if_either, if◌then◌else◌, ltb,
  ◌==◌,
}
use muxtls.Base.Ids.{mem, erase, mem-erase}
use muxtls.Connection.Permits.{Semaphores}
use muxtls.Connection.State.{OutboundChunk}
use muxtls.Connection.Writer.{shutdown, entry}
use muxtls.Connection.Shared.{Shared, drop_outbound, drop_queues, take_stream_id}
use muxtls.Connection.Shared.Streams.{
  insert_stream, queue_reset, reset, try_retire_stream, release_open_permit, remove_stream,
  mark_closed, cleanup, mark_connections_closed, open_bi, open_acquired, accept_bi, queue_close,
  initiate_close,
}
use mathlib.Core.Path.{subst}

-- The identifiers that a side has used are those below its next one.
abbrev pub used : (parity next_local next_remote id : ℕ) → Bool
used parity next_local next_remote id =
    ltb id (if id % 2 == parity then next_local else next_remote)

pub record IsTable (streams windows : List ℕ) (next_local next_remote parity : ℕ) : Type 0 where
  pub side : parity ≤ 1
  pub local : next_local % 2 ≡ parity
  pub remote : next_remote % 2 ≡ 1 - parity
  pub known : (id : ℕ) → mem id streams ≡ true → used parity next_local next_remote id ≡ true
  pub same : (id : ℕ) → mem id windows ≡ mem id streams

erase-IsTable :
    (id : ℕ) {streams windows : List ℕ} {next_local next_remote parity : ℕ}
    → IsTable streams windows next_local next_remote parity
    → IsTable (erase id streams) (erase id windows) next_local next_remote parity
erase-IsTable id {streams} {windows} h = record {
  side = h.side;
  local = h.local;
  remote = h.remote;
  known = λ j m. ground (arith, mem-erase id j streams, h.known j);
  same = λ j. ground (arith, mem-erase id j streams, mem-erase id j windows, h.same j);
}

nil-IsTable :
    {streams windows : List ℕ} {next_local next_remote parity : ℕ}
    → IsTable streams windows next_local next_remote parity
    → IsTable [] [] next_local next_remote parity
unfolding mem
nil-IsTable h = record {
  side = h.side;
  local = h.local;
  remote = h.remote;
  known = λ j m. absurd (cc);
  same = λ j. refl;
}

-- A side's next identifier joins the table.
remote-IsTable :
    {streams windows : List ℕ} {next_local next_remote parity : ℕ}
    → IsTable streams windows next_local next_remote parity
    → IsTable
        (next_remote ∷ erase next_remote streams)
        (next_remote ∷ erase next_remote windows)
        next_local
        (next_remote + 2)
        parity
unfolding mem
remote-IsTable {streams} {windows} {next_local} {next_remote} h = record {
  side = h.side;
  local = h.local;
  remote = omega (arith, h.remote);
  known = λ j m. ground (arith, mem-erase next_remote j streams, h.known j, h.remote, h.side);
  same = λ j.
      ground (arith, mem-erase next_remote j streams, mem-erase next_remote j windows, h.same j);
}

local-IsTable :
    {streams windows : List ℕ} {next_local next_remote parity : ℕ}
    → IsTable streams windows next_local next_remote parity
    → IsTable
        (next_local ∷ erase next_local streams)
        (next_local ∷ erase next_local windows)
        (next_local + 2)
        next_remote
        parity
unfolding mem
local-IsTable {streams} {windows} {next_local} {next_remote} h = record {
  side = h.side;
  local = omega (arith, h.local);
  remote = h.remote;
  known = λ j m. ground (arith, mem-erase next_local j streams, h.known j, h.local, h.side);
  same =
      λ j. ground (arith, mem-erase next_local j streams, mem-erase next_local j windows, h.same j);
}

-- The identifier that comes next is not in the table.
pub next_remote-fresh :
    {streams windows : List ℕ} {next_local next_remote parity : ℕ}
    → IsTable streams windows next_local next_remote parity
    → mem next_remote streams ≡ false
next_remote-fresh {next_remote = n} h = ground (arith, h.known n, h.remote, h.side)
