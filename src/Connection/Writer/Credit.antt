-- ===== src/Connection/Writer/Credit.antt =====
-- Every data frame that `next_frame` sends stays within the peer's credit and frame size, and the
-- credit that was spent is recorded.
pub mod NextFrame
use muxtls.Base.{
  ℕ, ◌+◌, ◌-◌, ◌≤◌, ◌<◌, ◌≡◌, refl, arith, Bool, true, false, not, ◌&&◌, ◌||◌, List, [], ◌∷◌, ◌++◌,
  some, none, Option, min, max,
}
use muxtls.Base.{
  ok, All, length, take, drop, length-take, Bool-cases, ◌⊎◌, inl, inr, ◌==◌, if◌then◌else◌,
}
use muxtls.Proto.VarInt.{IsVarInt}
use muxtls.Proto.VarInt
use muxtls.Proto.VarInt.Decode.{encoded_len_mono, encoded_len-le}
use muxtls.Proto.Frame.{
  Frame, stream, encoded_len, checked_var_int, fit_u64, max_data, max_stream_data,
}
use muxtls.Limits.{min_frame_size, u32_max}
use muxtls.Flow.{fetch_add}
use muxtls.Connection.State.{StreamState, OutboundChunk, WriterQueues, Writer, Heap, update}
use muxtls.Connection.Writer.{is_empty, take_close_frame}
use muxtls.Connection.Writer.Next.{
  Turn, sends, finished, again, waits, panics, with_queues, take_turn, next_control, conn_credit,
  stream_credit, frame_room, grant, is_blocked, send_chunk, serve, after_data, data_turn, round,
  next_frame, find_update,
}
use muxtls.Connection.Writer.Schedule.{Owns, Scheduled}
use muxtls.Connection.Writer.Schedule.Serve.{popped, count_of, skip, Head, serve_rule}

-- The limits of the peer, what was sent against them, and the queued frames that carry no data.
pub record Budget : Type 0 where
  pub sent : ℕ
  pub peer_limit : ℕ
  pub initial : ℕ
  pub max_frame : ℕ
  pub settings : Bool
  pub control : List Frame
  pub close_frame : Option Frame
  pub states : Heap

abbrev pub budget : Writer → Budget
budget w = record {
  sent = w.queues.sent;
  peer_limit = w.queues.peer_limit;
  initial = w.queues.peer_initial_stream_limit;
  max_frame = w.queues.peer_max_frame;
  settings = w.queues.peer_settings;
  control = w.queues.control;
  close_frame = w.queues.close_frame;
  states = w.states;
}

abbrev pub stream_limit : Budget → ℕ → ℕ
stream_limit b id = max (b.states id).peer_limit b.initial

abbrev pub NoData : Frame → Type 0
NoData (stream id fin payload) = ⊥
NoData _ = Unit

abbrev pub NoDataOption : Option Frame → Type 0
NoDataOption none = Unit
NoDataOption (some f) = NoData f

pub record IsCredited (b : Budget) : Type 0 where
  pub room : (min_frame_size ≤ b.max_frame) × (b.max_frame ≤ u32_max)
  pub conn : b.sent ≤ b.peer_limit
  pub limits : IsVarInt b.peer_limit × IsVarInt b.initial
  pub plain : All NoData b.control × NoDataOption b.close_frame
  pub streams :
      (id : ℕ) → ((b.states id).sent ≤ stream_limit b id) × IsVarInt (b.states id).peer_limit

-- A payload that leaves room for its own length fits the frame.
room_fits :
    (queues : WriterQueues) (id n : ℕ)
    → min_frame_size ≤ queues.peer_max_frame
    → n ≤ frame_room queues id
    → 1 + VarInt.encoded_len id + 1 + VarInt.encoded_len n + n ≤ queues.peer_max_frame
unfolding frame_room
room_fits queues id n big le =
    let capacity = queues.peer_max_frame - 2 - VarInt.encoded_len id in
    omega
      (arith, encoded_len-le id, encoded_len-le capacity, encoded_len_mono n capacity (omega arith))

-- The size of a data frame.
stream_size :
    (id : ℕ) (fin : Bool) (payload : List ℕ)
    → IsVarInt (length payload)
    → encoded_len (stream id fin payload)
      ≡ ok (1 + VarInt.encoded_len id + 1 + VarInt.encoded_len (length payload) + length payload)
unfolding encoded_len checked_var_int fit_u64 VarInt.from_u64
stream_size id fin payload h = ground arith

grant-le :
    (queues : WriterQueues) (s : StreamState) (chunk : OutboundChunk)
    → (grant queues s chunk ≤ length chunk.payload)
      × (grant queues s chunk ≤ queues.peer_limit - queues.sent)
      × (grant queues s chunk ≤ max s.peer_limit queues.peer_initial_stream_limit - s.sent)
      × (grant queues s chunk ≤ frame_room queues chunk.stream_id)
unfolding grant conn_credit stream_credit
grant-le queues s chunk = omega arith

-- A data frame within the budget `b`, and the budget `c` after it.
pub record Spends (b : Budget) (id : ℕ) (fin : Bool) (payload : List ℕ) (c : Budget) : Type 0 where
  pub settled : b.settings ≡ true
  pub fits : (size : ℕ) × (encoded_len (stream id fin payload) ≡ ok size) × (size ≤ b.max_frame)
  pub conn : b.sent + length payload ≤ b.peer_limit
  pub stream_credit : (b.states id).sent + length payload ≤ stream_limit b id
  pub recorded :
      (c.sent ≡ b.sent + length payload)
      × ((c.states id).sent ≡ (b.states id).sent + length payload)

abbrev pub SpendsFrame : Budget → Frame → Budget → Type 0
SpendsFrame b (stream id fin payload) c = Spends b id fin payload c
SpendsFrame b _ c = Unit

-- A turn from the budget `b`.
abbrev pub Pays : Budget → Turn → Type 0
Pays b (sends v f dropped) = SpendsFrame b f (budget v) × IsCredited (budget v)
Pays b (finished v) = IsCredited (budget v)
Pays b (again v) = budget v ≡ b
Pays b (waits v) = budget v ≡ b
Pays b panics = Unit

module _ (w : Writer) (id : ℕ) (others : List ℕ) (chunk : OutboundChunk)
    (behind : List OutboundChunk) (c : IsCredited (budget w))
    (small : IsVarInt chunk.stream_id) where
  abbrev count : ℕ
  count = count_of w others chunk

  open c use {room, conn, limits, plain, streams}

  granted :
      (count ≤ length chunk.payload)
      × (count ≤ w.queues.peer_limit - w.queues.sent)
      × (count ≤ stream_limit (budget w) chunk.stream_id - (w.states chunk.stream_id).sent)
      × (count ≤ frame_room (popped w others) chunk.stream_id)
  granted = grant-le (popped w others) (w.states chunk.stream_id) chunk

  payload_length : length (take count chunk.payload) ≡ count
  payload_length = omega (arith, length-take count chunk.payload, granted.0)

  small_count : IsVarInt count
  small_count = omega (arith, granted.1, limits.0)

  no_wrap :
      fetch_add (w.states chunk.stream_id).sent count ≡ (w.states chunk.stream_id).sent + count
  no_wrap = omega (arith, granted.2, streams chunk.stream_id, limits.1)

  fits :
      (fin : Bool)
      → (size : ℕ) × (encoded_len (stream chunk.stream_id fin (take count chunk.payload)) ≡ ok size)
        × (size ≤ w.queues.peer_max_frame)
  fits fin = (
    _,
    stream_size chunk.stream_id fin (take count chunk.payload)
        (omega (arith, payload_length, small_count)),
    rw payload_length (room_fits (popped w others) chunk.stream_id count room.0 granted.3),
  )

  pub send_chunk-Pays :
      w.queues.peer_settings ≡ true
      → Pays (budget w) (send_chunk (with_queues w (popped w others)) id chunk behind count)
  unfolding send_chunk
  send_chunk-Pays e = (
    record {
      settled = e;
      fits = fits _;
      conn = omega (arith, payload_length, granted.1, conn);
      stream_credit = omega (arith, payload_length, granted.2, streams chunk.stream_id);
      recorded = (omega (arith, payload_length), ground (arith, no_wrap, payload_length));
    },
    record {
      room = room;
      conn = omega (arith, granted.1, conn);
      limits = limits;
      plain = plain;
      streams = λ j. ground (arith, no_wrap, granted.2, streams chunk.stream_id, streams j);
    },
  )
