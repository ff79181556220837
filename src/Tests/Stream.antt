-- ===== src/Tests/Stream.antt =====
-- The handles of a stream on a connection that counts its permits.
use muxtls.Base.{refl, arith, true, false, none, [], ◌∷◌}
use muxtls.Limits.{default}
use muxtls.Connection.State.{new_stream}
use muxtls.Connection.Shared.{Shared, new_shared}
use muxtls.Connection.Shared.Streams.{open_bi}
use muxtls.Connection.Shared.Send.{Sending, new_sending, poll_sending, send_step}
use muxtls.Connection.Shared.Send.Effect.{Answers, poll_sending-Answers}
use muxtls.Connection.Shared.Send.Balance.{Balances, send_step-Balances}
use muxtls.Stream.Writing.{SendStream, new_send_stream, poll_write, poll_shutdown}
use muxtls.Stream.Reading.{RecvStream, poll_read}
use muxtls.Stream.Order.{Owned}
use muxtls.Stream.Order.Write.{Writes, poll_write-Writes}
use muxtls.Stream.Order.Shutdown.{Shuts, poll_shutdown-Shuts}
use muxtls.Stream.Reading.Order.{Gives, IsReading}
use muxtls.Stream.Reading.Order.Loop.{poll_read-Gives}
use muxtls.Tests.Permits.{counting}
use muxtls.Tests.Receive.{after_frames}

-- A client with stream 0.
abbrev client : Shared counting
client = (open_bi counting (new_shared counting default true)).1

abbrev write : Sending
write = new_sending 0 (1 ∷ 2 ∷ 3 ∷ []) true

poll_sending-Answers_example : Answers counting write client (poll_sending counting write client)
poll_sending-Answers_example = poll_sending-Answers counting write client

send_step-Balances_example : Balances counting write client (send_step counting write client)
send_step-Balances_example = send_step-Balances counting write client (omega arith)

abbrev handle : SendStream
handle = (new_send_stream counting 0 client).0

abbrev held : Shared counting
held = (new_send_stream counting 0 client).1

handle-Owned : Owned handle
unfolding new_send_stream
handle-Owned = (tt, tt)

poll_write-Writes_example :
    Writes counting (7 ∷ 8 ∷ []) handle held (poll_write counting (7 ∷ 8 ∷ []) handle held)
poll_write-Writes_example = poll_write-Writes counting (7 ∷ 8 ∷ []) handle held handle-Owned

poll_shutdown-Shuts_example : Shuts counting handle held (poll_shutdown counting handle held)
poll_shutdown-Shuts_example = poll_shutdown-Shuts counting handle held handle-Owned

-- Three bytes wait to be read.
abbrev reader : RecvStream
reader = record { read_fut = false; read_buf = none; read_pos = 0; eof = false }

reader-IsReading : IsReading counting 0 reader after_frames
unfolding new_stream
reader-IsReading = record {
  whole = tt;
  balanced = record {
    conn = record { window = omega arith; counted = refl; permits = refl; opened = refl };
    stream = record { window = omega arith; counted = refl; permits = refl; opened = refl };
    whole = (refl, tt);
    ends = refl;
  };
}

poll_read-Gives_example :
    Gives counting 0 2 reader after_frames (poll_read counting 2 reader after_frames)
poll_read-Gives_example = poll_read-Gives counting 0 2 reader after_frames reader-IsReading
