-- ===== src/Connection/Writer/Next.antt =====
-- `WriterState::next_frame`: which frame the writer task sends next.
use muxtls.Base.{
  ℕ, zero, suc, ◌+◌, ◌-◌, min, max, Bool, true, false, not, ◌&&◌, ◌||◌, Option, none, some,
}
use muxtls.Base.{ok, err, ltb, List, [], ◌∷◌, ◌++◌, length, take, drop, ◌==◌, if◌then◌else◌}
use muxtls.Base.Maps.{lookup, insert, remove}
use muxtls.Proto.Frame.{Frame, stream, settings, open_stream, max_data, max_stream_data}
use muxtls.Proto.VarInt
use muxtls.Flow
use muxtls.Flow.{ReceiveWindow, fetch_add}
use muxtls.Connection.State.{StreamState, OutboundChunk, WriterQueues, Writer, Heap, update}
use muxtls.Connection.Writer.{is_empty, take_close_frame}

-- The outcome of one round of the loop. `sends` carries the chunk that was used up and is dropped,
-- `again` starts another round, `waits` blocks until the writer is notified, and `panics` is a failed
-- `expect` or an arithmetic overflow.
pub data Turn : Type 0 where
  sends : Writer → Frame → Option OutboundChunk → Turn
  finished : Writer → Turn
  again : Writer → Turn
  waits : Writer → Turn
  panics : Turn

abbrev pub with_queues : Writer → WriterQueues → Writer
with_queues w queues = record w { queues = queues }

abbrev pub take_turn : Writer → Bool → Writer
take_turn w turn = with_queues w (record (w.queues) { control_turn = turn })

-- SETTINGS and OPEN go before everything that depends on them.
unfoldable pub is_urgent : List Frame → Bool
is_urgent (settings a b c ∷ fs) = true
is_urgent (open_stream id ∷ fs) = true
is_urgent _ = false

-- `VarInt::from_u64(*id).expect("valid stream ID")`: `none` is the panic.
unfoldable pub update_frame : ℕ → ℕ → Option Frame
unfolding VarInt.from_u64
update_frame id maximum = elim (VarInt.from_u64 id) [
  | ok stream_id ↦ some (max_stream_data stream_id maximum)
  | err e ↦ none
]

-- The first stream, in the order of the map, that has credit to announce.
unfoldable pub find_update : Heap → List ℕ → Heap × Option (Option Frame)
unfolding update_frame
find_update heap [] = (heap, none)
find_update heap (id ∷ ids) =
    let rest = find_update heap ids in
    let s = heap id in
    if s.recv_terminal || s.recv_discarded
    then rest
    else let (window, announced) = Flow.update s.receive_window in
      elim announced [
        | none ↦ rest
        | some maximum ↦
            (update heap id (record s { receive_window = window }), some (update_frame id maximum))
      ]

-- The frames that carry no data: the control queue, then credit for the connection, then for a stream. A
-- frame that is `none` is a panic.
unfoldable pub announce_stream :
    Writer → Heap × Option (Option Frame) → Option (Writer × Option Frame)
announce_stream w (heap, none) = none
announce_stream w (heap, some frame) = some (record (take_turn w false) { states = heap }, frame)

unfoldable pub announce : Writer → ReceiveWindow × Option ℕ → Option (Writer × Option Frame)
announce w (window, none) = announce_stream w (find_update w.states w.queues.receive_windows)
announce w (window, some maximum) =
    some (record (take_turn w false) { receive_window = window }, some (max_data maximum))

unfoldable pub pop_control : Writer → List Frame → Option (Writer × Option Frame)
pop_control w [] = announce w (Flow.update w.receive_window)
pop_control w (frame ∷ rest) =
    some (with_queues w (record (w.queues) { control = rest; control_turn = false }), some frame)

unfoldable pub next_control : Writer → Option (Writer × Option Frame)
unfolding pop_control announce announce_stream
next_control w = pop_control w w.queues.control

unfoldable pub conn_credit : WriterQueues → ℕ
conn_credit queues = queues.peer_limit - queues.sent

unfoldable pub stream_credit : WriterQueues → StreamState → ℕ
stream_credit queues s = max s.peer_limit queues.peer_initial_stream_limit - s.sent

-- A panic before the room is known: one of the two subtractions overflows, or the capacity is no `VarInt`,
-- which `expect("bounded frame size")` refuses.
unfoldable pub room_panics : WriterQueues → ℕ → Bool
room_panics queues id =
    let capacity = queues.peer_max_frame - 2 - VarInt.encoded_len id in
    ltb queues.peer_max_frame (2 + VarInt.encoded_len id)
    || (ltb VarInt.max_value capacity || ltb capacity (VarInt.encoded_len capacity))

-- What the peer's frame size leaves for a payload on this stream, where that is no panic.
unfoldable pub frame_room : WriterQueues → ℕ → ℕ
frame_room queues id =
    let capacity = queues.peer_max_frame - 2 - VarInt.encoded_len id in
    capacity - VarInt.encoded_len capacity

-- How many bytes of the chunk may go now.
unfoldable pub grant : WriterQueues → StreamState → OutboundChunk → ℕ
grant queues s chunk =
    min (length chunk.payload)
      (min (min (conn_credit queues) (stream_credit queues s)) (frame_room queues chunk.stream_id))

-- `!settings || (count == 0 && !chunk.payload.is_empty())`
unfoldable pub is_blocked : WriterQueues → ℕ → OutboundChunk → Bool
is_blocked queues count chunk =
    not queues.peer_settings || (count == 0 && not (is_empty chunk.payload))

-- Sends `count` bytes of `chunk`, the first of the queue of stream `id`; `ready` has lost `id`.
unfoldable pub send_chunk : Writer → ℕ → OutboundChunk → List OutboundChunk → ℕ → Turn
send_chunk w id chunk behind count =
    let queues = w.queues in
    let s = w.states chunk.stream_id in
    let payload = take count chunk.payload in
    let left = drop count chunk.payload in
    let fin = chunk.fin && is_empty left in
    let s' = record s {
      sent = fetch_add s.sent count;
      send_dispatched = fin || s.send_dispatched;
    } in
    let q = if is_empty left then behind else record chunk { payload = left } ∷ behind in
    sends
      (record w {
        queues = record queues {
          by_stream =
              if is_empty q then remove id queues.by_stream else insert id q queues.by_stream;
          ready = if is_empty q then queues.ready else queues.ready ++ (id ∷ []);
          sent = queues.sent + count;
          control_turn = true;
        };
        states = update w.states chunk.stream_id s';
      })
      (stream chunk.stream_id fin payload)
      (if is_empty left then some (record chunk { payload = [] }) else none)

-- `for _ in 0..queues.ready.len()`, with the rounds left; `idle` is what follows the loop.
unfoldable pub serve : ℕ → (Writer → Turn) → Writer → Turn
serve zero idle w = idle w
serve (suc rounds) idle w = elim w.queues.ready [
  | [] ↦ panics
  | id ∷ others ↦ elim (lookup id w.queues.by_stream) [
    | none ↦ panics
    | some [] ↦ panics
    | some (chunk ∷ behind) ↦
        let queues = record (w.queues) { ready = others } in
        let count = grant queues (w.states chunk.stream_id) chunk in
        let skipped = with_queues w (record queues { ready = others ++ (id ∷ []) }) in
        let next = serve rounds idle skipped in
        if room_panics queues chunk.stream_id
        then panics
        else if is_blocked queues count chunk
        then next
        else send_chunk (with_queues w queues) id chunk behind count
  ]
]

unfoldable pub close_with : Writer → WriterQueues × Option Frame → Turn
close_with w (queues, none) = finished (with_queues w queues)
close_with w (queues, some frame) = sends (with_queues w queues) frame none

-- `return take_close_frame(&mut queues)`
unfoldable pub close_turn : Writer → Turn
unfolding close_with take_close_frame
close_turn w = close_with w (take_close_frame w.queues)

-- What follows the loop over the ready streams.
unfoldable pub after_data : Writer → Turn
after_data w =
    if not w.queues.control_turn
    then again (take_turn w true)
    else if w.queues.closing && is_empty w.queues.by_stream
    then close_turn w
    else waits w

unfoldable pub data_turn : Writer → Turn
data_turn w = serve (length w.queues.ready) after_data w

-- What the control turn found, or the data.
unfoldable pub control_or_data : Writer → Option (Writer × Option Frame) → Turn
control_or_data w (some (w', some frame)) = sends w' frame none
control_or_data w (some (w', none)) = panics
control_or_data w none = data_turn w

-- One round of the loop of `next_frame`.
unfoldable pub round : Writer → Turn
unfolding control_or_data
round w =
    if w.queues.closing && not w.queues.graceful_close
    then close_turn w
    else if w.queues.control_turn || is_urgent w.queues.control
    then control_or_data w (next_control w)
    else data_turn w

-- The rounds until the task sends, ends or waits. Two are enough.
unfoldable pub next_frame : Writer → Turn
next_frame w = elim (round w) [ again w' ↦ round w' | turn ↦ turn ]
