-- ===== src/Connection/Writer/Waits.antt =====
-- What the writer's state is when `next_frame` waits: nothing may be sent.
pub mod NextFrame
use muxtls.Base.{
  ℕ, max, ◌-◌, ◌≤◌, ◌≡◌, arith, true, false, not, ◌&&◌, List, [], ◌∷◌, some, none, length, ◌⊎◌,
}
use muxtls.Base.Maps.{lookup}
use muxtls.Flow
use muxtls.Limits.{min_frame_size}
use muxtls.Proto.VarInt
use muxtls.Proto.VarInt.Decode.{encoded_len-le}
use muxtls.Connection.State.{OutboundChunk, WriterQueues, Writer, StreamState}
use muxtls.Connection.Writer.{is_empty}
use muxtls.Connection.Writer.Next.{
  Turn, waits, find_update, with_queues, next_control, grant, conn_credit, stream_credit,
  frame_room, is_blocked,
}

-- The chunk may not go: the peer has sent no SETTINGS, or no byte of it has credit.
abbrev pub Spent : WriterQueues → StreamState → OutboundChunk → Type 0
Spent queues s chunk =
    (queues.peer_settings ≡ false)
    ⊎ ((is_empty chunk.payload ≡ false)
        × ((queues.peer_limit ≤ queues.sent)
            ⊎ (max s.peer_limit queues.peer_initial_stream_limit ≤ s.sent)))

-- The first chunk of the stream may not go.
abbrev pub Stuck : Writer → ℕ → Type 0
Stuck w id =
    (chunk : OutboundChunk) (behind : List OutboundChunk)
    → lookup id w.queues.by_stream ≡ some (chunk ∷ behind)
    → Spent w.queues (w.states chunk.stream_id) chunk

nonempty : (bytes : List ℕ) → is_empty bytes ≡ false → 1 ≤ length bytes
nonempty [] e = cc
nonempty (b ∷ bytes) e = omega arith

-- The frame size leaves room for a payload, so a grant of nothing is due to the credit.
grant-zero :
    (queues : WriterQueues) (s : StreamState) (chunk : OutboundChunk)
    → min_frame_size ≤ queues.peer_max_frame
    → grant queues s chunk ≡ 0
    → is_empty chunk.payload ≡ false
    → (queues.peer_limit ≤ queues.sent)
      ⊎ (max s.peer_limit queues.peer_initial_stream_limit ≤ s.sent)
unfolding grant conn_credit stream_credit frame_room
grant-zero queues s chunk room e some_left = omega (
  arith,
  nonempty chunk.payload some_left,
  encoded_len-le chunk.stream_id,
  encoded_len-le (queues.peer_max_frame - 2 - VarInt.encoded_len chunk.stream_id),
  e,
)

pub is_blocked-Spent :
    (queues : WriterQueues) (s : StreamState) (chunk : OutboundChunk)
    → min_frame_size ≤ queues.peer_max_frame
    → is_blocked queues (grant queues s chunk) chunk ≡ true
    → Spent queues s chunk
unfolding is_blocked
is_blocked-Spent queues s chunk room b = ground (arith, grant-zero queues s chunk room)

-- The writer with another order of its ready streams.
abbrev pub with_ready : Writer → List ℕ → Writer
with_ready w ready = with_queues w (record (w.queues) { ready = ready })

-- Neither a control frame nor credit waits to be announced.
abbrev pub NoControl : Writer → Type 0
NoControl w =
    (w.queues.control ≡ [])
    × ((Flow.update w.receive_window).1 ≡ none)
    × ((find_update w.states w.queues.receive_windows).1 ≡ none)

pub next_control-NoControl : (w : Writer) → next_control w ≡ none → NoControl w
unfolding next_control
next_control-NoControl w e = ground (arith, e)

-- A wait leaves no control frame and no credit to announce, no queued chunk may go, and the
-- connection is not at its end.
unfoldable pub Rests : Turn → Type 0
Rests (waits w) =
    NoControl w
    × ((id : ℕ) → Stuck w id)
    × ((w.queues.closing && is_empty w.queues.by_stream) ≡ false)
    × ((w.queues.closing && not w.queues.graceful_close) ≡ false)
Rests _ = Unit
