-- ===== src/Tests/Tasks.antt =====
-- The tasks, the end of a connection, and the two interfaces of a stream.
use muxtls.Base.{ℕ, ◌≤◌, ◌≡◌, ◌↔◌, refl, arith, true, false, none, some, [], ◌∷◌, ok, length}
use muxtls.Base.Ids.{mem, erase}
use muxtls.Base.Maps.{lookup, insert}
use muxtls.Proto.VarInt
use muxtls.Proto.Frame.{stream, ping, checked_var_int}
use muxtls.Limits.{default}
use muxtls.Connection.State.{new_stream}
use muxtls.Connection.Payload.{max_stream_payload}
use muxtls.Connection.Writer.{enqueue_control, enqueue_data, new_queues}
use muxtls.Connection.Writer.Control.{pings, enqueue_control-bounded}
use muxtls.Connection.Writer.Next.{next_frame}
use muxtls.Connection.Writer.Permits.{IsMap}
use muxtls.Connection.Shared.{Shared, new_shared, drop_outbound, set_state, take_stream_id}
use muxtls.Connection.Shared.Streams.{open_bi, mark_closed, open_acquired, insert_stream}
use muxtls.Connection.Shared.Ended.{Refuses, mark_closed-Refuses}
use muxtls.Connection.Shared.Send.{Sending, new_sending, check_chunk, poll_sending}
use muxtls.Connection.Shared.Send.Size.{check_chunk_iff}
use muxtls.Connection.Shared.Send.Balance.{account}
use muxtls.Connection.Tasks.{after_send, used_up, terminal_id}
use muxtls.Connection.Tasks.Retire.{Finishes, after_send-Finishes}
use muxtls.Connection.Tasks.Balance.{next_frame-account}
use muxtls.Stream.{async_mode, select_mode}
use muxtls.Stream.Writing.{
  SendStream, new_send_stream, select_send_mode, write_chunk, poll_write, poll_flush, poll_shutdown,
}
use muxtls.Stream.Modes.Exclude.{
  RefusesChunks, async_excludes_chunks, RefusesAsync, chunks_exclude_async,
}
use muxtls.Tests.Permits.{counting}
use muxtls.Tests.Writer.{fresh, loaded, loaded-Scheduled}
use muxtls.Tests.Delivery.{first_turn, first_frame, writer_after}

abbrev client : Shared counting
client = (open_bi counting (new_shared counting default true)).1

check_chunk_iff_example :
    (check_chunk default (new_sending 0 (1 ∷ 2 ∷ []) false) ≡ ok tt)
    ↔ (length {A = ℕ} (1 ∷ 2 ∷ []) ≤ max_stream_payload default 0)
check_chunk_iff_example =
    check_chunk_iff default 0 false (1 ∷ 2 ∷ []) (omega arith) (omega arith) (omega arith)
      (omega arith) (omega arith)

enqueue_control-bounded_example :
    (length (enqueue_control fresh ping).0.queues.control ≤ fresh.max_control_frames)
    × (pings (enqueue_control fresh ping).0.queues.control ≤ 1)
    × ((enqueue_control fresh ping).1 ≡ false → (enqueue_control fresh ping).0 ≡ fresh)
enqueue_control-bounded_example = enqueue_control-bounded fresh ping (omega arith) (omega arith)

mark_closed-Refuses_example : Refuses counting (mark_closed counting client)
mark_closed-Refuses_example = mark_closed-Refuses counting client

last_frame : terminal_id (stream 0 true []) ≡ some 0
unfolding terminal_id
last_frame = refl

in_table : mem 0 client.streams ≡ true
unfolding open_bi open_acquired insert_stream mem erase new_shared new_queues checked_var_int
    VarInt.from_u64 take_stream_id
in_table = refl

after_send-Finishes_example :
    Finishes counting 0 client (after_send counting (stream 0 true []) 3 client)
after_send-Finishes_example =
    after_send-Finishes counting (stream 0 true []) 3 0 client last_frame in_table

-- The writer of the other tests, on a connection.
abbrev busy : Shared counting
busy = record client { writer = loaded }

loaded-IsMap : IsMap loaded.queues.by_stream
unfolding enqueue_data new_stream lookup insert
loaded-IsMap = (refl, tt)

abbrev idle : Sending
idle = new_sending 2 [] true

next_frame-account_example :
    (account counting 2 idle (
        drop_outbound counting
          (used_up none)
          (record busy { writer = writer_after (next_frame loaded) }))
      ≡ account counting 2 idle busy)
    × IsMap (writer_after (next_frame loaded)).queues.by_stream
next_frame-account_example =
    next_frame-account counting 2 idle busy (writer_after (next_frame loaded)) first_frame none
      loaded-Scheduled loaded-IsMap first_turn

abbrev handle : SendStream
handle = (new_send_stream counting 0 client).0

abbrev in_mode : ℕ → Shared counting
in_mode mode = set_state counting 0 (record (client.writer.states 0) { send_mode = mode }) client

async_selected : select_send_mode counting handle.stream_id async_mode client ≡ ok (in_mode 2)
unfolding select_send_mode select_mode new_send_stream open_bi open_acquired insert_stream
    new_shared new_queues checked_var_int VarInt.from_u64 take_stream_id new_stream
async_selected = refl

async_excludes_chunks_example :
    RefusesChunks counting (poll_write counting (7 ∷ []) handle client)
    × RefusesChunks counting (poll_flush counting handle client)
    × RefusesChunks counting (poll_shutdown counting handle client)
async_excludes_chunks_example =
    async_excludes_chunks counting (7 ∷ []) handle client (in_mode 2) async_selected

abbrev write : Sending
write = new_sending 0 (7 ∷ []) false

chunk_begun : write_chunk counting handle (7 ∷ []) client ≡ ok (write, in_mode 1)
unfolding write_chunk select_send_mode select_mode new_send_stream open_bi open_acquired
    insert_stream new_shared new_queues checked_var_int VarInt.from_u64 take_stream_id new_stream
chunk_begun = refl

chunks_exclude_async_example :
    RefusesAsync counting handle (in_mode 1)
    × RefusesAsync counting handle (poll_sending counting write (in_mode 1)).2
chunks_exclude_async_example =
    chunks_exclude_async counting handle (7 ∷ []) client (in_mode 1) write write chunk_begun
