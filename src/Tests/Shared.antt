-- ===== src/Tests/Shared.antt =====
-- A server's connection: its first frames, and its table.
use muxtls.Base.{ℕ, ◌≡◌, refl, true, false, List, [], ◌∷◌, ok}
use muxtls.Proto.Frame.{settings, decode}
use muxtls.Proto.Frame.{decode_front, decode_body, decode_1, decode_2, decode_3, take_var_int}
use muxtls.Proto.VarInt
use muxtls.Limits.{default}
use muxtls.Connection.Writer.{new_queues}
use muxtls.Connection.Shared.{Shared, new_shared, set_queues}
use muxtls.Connection.Shared.Streams.{open_bi}
use muxtls.Connection.Shared.Frames.{handle_incoming_frame, on_settings, on_remote_open}
use muxtls.Connection.Shared.Frames.Settings.{Settles, handle_incoming_frame-Settles}
use muxtls.Connection.Shared.Table.Reach.{here, next, opens}
use muxtls.Connection.Shared.Table.Open.{Opened, Refuses, on_remote_open-Opens}
use muxtls.Base.{Ends}
use muxtls.Tests.Permits.{counting}

abbrev server : Shared counting
server = new_shared counting default false

-- SETTINGS with 16 and 8 bytes of credit and frames of at most 32 bytes.
abbrev first_bytes : List ℕ
first_bytes = 0x05 ∷ 16 ∷ 8 ∷ 32 ∷ []

abbrev told : Shared counting
told =
    set_queues counting
      (record server.writer.queues {
        peer_settings = true;
        peer_limit = 16;
        peer_initial_stream_limit = 8;
        peer_max_frame = 32;
      })
      server

first_frame : decode first_bytes ≡ ok (settings 16 8 32)
unfolding decode decode_front decode_body decode_1 decode_2 decode_3 take_var_int VarInt.decode
first_frame = refl

first_handled : handle_incoming_frame counting false first_bytes server ≡ ok (told, true)
unfolding handle_incoming_frame on_settings new_shared new_queues decode decode_front decode_body
    decode_1 decode_2 decode_3 take_var_int VarInt.decode
first_handled = refl

handle_incoming_frame-Settles_example : Settles counting (settings 16 8 32) server (told, true)
handle_incoming_frame-Settles_example =
    handle_incoming_frame-Settles counting false first_bytes (settings 16 8 32) server (told, true)
      first_frame first_handled

-- The server opens stream 1.
abbrev one_stream : Shared counting
one_stream = (open_bi counting server).1

on_remote_open-Opens_example :
    Ends
      (Opened counting 0 one_stream)
      (Refuses counting 0 one_stream)
      (on_remote_open counting 0 one_stream)
on_remote_open-Opens_example = on_remote_open-Opens counting default false 0 (next here opens)
