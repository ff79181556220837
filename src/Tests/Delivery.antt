-- ===== src/Tests/Delivery.antt =====
-- A stream through the writer and to its reader.
use muxtls.Base.{◌≡◌, refl, arith, true, false, none, [], ◌∷◌, ◌++◌}
use muxtls.Base.Maps.{lookup, insert}
use muxtls.Proto.Frame.{Frame, stream}
use muxtls.Connection.State.{Writer, new_stream}
use muxtls.Connection.Writer.{enqueue_data}
use muxtls.Connection.Writer.Next.{
  Turn, sends, next_frame, round, data_turn, serve, send_chunk, next_control, find_update,
  room_panics, is_urgent, grant, is_blocked, conn_credit, stream_credit, frame_room,
}
use muxtls.Connection.Writer.Delivery.{Delivers, queued, carried, items}
use muxtls.Connection.Writer.Delivery.NextFrame.{next_frame-Delivers}
use muxtls.Connection.Writer.Delivery.Run.{
  History, Run, starts, accepts, sends_frame, IsDelivered, Run-IsDelivered, longer,
}
use muxtls.Proto.VarInt
use muxtls.Flow
use muxtls.Flow.{receive}
use muxtls.Connection.Receive.{Receiving, stream_frame, push_inbound, ensure_peer_send_open}
use muxtls.Connection.Receive.Accept.{buffered}
use muxtls.Connection.Receive.Order.{Trace, begins, arrives}
use muxtls.Connection.EndToEnd.{data_of, written-delivered}
use muxtls.Tests.Permits.{counting}
use muxtls.Tests.Receive.{opened, opened-IsOrdered}
use muxtls.Tests.Writer.{fresh, chunk, loaded, loaded-Scheduled}

next_frame-Delivers_example : Delivers loaded.queues.by_stream (next_frame loaded)
unfolding new_stream
next_frame-Delivers_example =
    next_frame-Delivers loaded loaded-Scheduled (unfold enqueue_data in (tt, tt))

abbrev written : History
written = longer (λ id. []) 2 (items (1 ∷ 2 ∷ 3 ∷ 4 ∷ 5 ∷ 6 ∷ []) true)

loaded-Run : Run written (λ id. []) loaded
unfolding enqueue_data new_stream
loaded-Run = accepts 2 chunk (starts fresh refl refl (tt, tt)) (refl, omega arith) refl

abbrev pub writer_after : Turn → Writer
writer_after (sends w frame dropped) = w
writer_after _ = fresh

-- The peer grants 4 bytes of the 6.
abbrev pub first_frame : Frame
first_frame = stream 2 false (1 ∷ 2 ∷ 3 ∷ 4 ∷ [])

pub first_turn : next_frame loaded ≡ sends (writer_after (next_frame loaded)) first_frame none
unfolding next_frame round data_turn serve send_chunk next_control find_update room_panics is_urgent
    grant is_blocked conn_credit stream_credit frame_room enqueue_data new_stream lookup insert
    VarInt.encoded_len Flow.update Flow.needs_update Flow.new
first_turn = refl

abbrev sent : History
sent id = [] ++ carried id first_frame

sent-Run : Run written sent (writer_after (next_frame loaded))
sent-Run = sends_frame loaded-Run first_turn

Run-IsDelivered_example : IsDelivered written sent (writer_after (next_frame loaded))
Run-IsDelivered_example = Run-IsDelivered sent-Run

-- The frame arrives.
abbrev arrived : Receiving counting
arrived = record opened {
  connection_window = record { received = 4; consumed = 0; advertised = 16; window = 16 };
  inbound_conn_bytes = (12, false);
  inbound_stream_bytes = (4, false);
  state = record (new_stream 8) {
    receive_window = record { received = 4; consumed = 0; advertised = 8; window = 8 };
    inbound = record {
      chunks = record { bytes = 1 ∷ 2 ∷ 3 ∷ 4 ∷ []; is_page = false; permits = 4 } ∷ [];
      reset_error = none;
      fin_received = false;
      connection_closed = false;
    };
  };
}

arrives_whole : Trace counting opened 0 (data_of (sent 2)) [] 0 0 arrived
unfolding new_stream Flow.new receive stream_frame push_inbound ensure_peer_send_open
arrives_whole = arrives 2 (1 ∷ 2 ∷ 3 ∷ 4 ∷ []) false begins refl refl

written-delivered_example :
    data_of (written 2)
    ≡ []
      ++ buffered counting arrived
      ++ data_of (queued 2 (writer_after (next_frame loaded)).queues.by_stream)
written-delivered_example =
    written-delivered counting opened 0 2 sent-Run opened-IsOrdered arrives_whole
