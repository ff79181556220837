-- ===== src/Tests/Writer.antt =====
-- The writer's queues.
use muxtls.Base.{◌≡◌, refl, arith, true, false, none, [], ◌∷◌}
use muxtls.Base.Maps.{lookup, insert}
use muxtls.Flow
use muxtls.Proto.VarInt
use muxtls.Connection.State.{Writer, OutboundChunk, new_stream}
use muxtls.Connection.Writer.{enqueue_data}
use muxtls.Connection.Writer.Next.{
  waits, is_blocked, grant, conn_credit, stream_credit, frame_room, room_panics, update_frame,
  control_or_data, find_update, next_frame, round, serve, data_turn, after_data, next_control,
}
use muxtls.Connection.Writer.Waits.{Rests}
use muxtls.Connection.Writer.Waits.NextFrame.{next_frame-Rests}
use muxtls.Connection.Writer.Schedule.{Scheduled, IsScheduled-nil, enqueue_data-IsScheduled}
use muxtls.Connection.Writer.Schedule.Settles.{IsSound, Settles, next_frame-Settles}
use muxtls.Connection.Writer.Credit.{IsCredited, budget, Pays}
use muxtls.Connection.Writer.Credit.NextFrame.{next_frame-Pays}

-- A writer whose peer grants 10 bytes for the connection and 4 for each stream.
abbrev pub fresh : Writer
fresh = record {
  max_control_frames = 8;
  queues = record {
    by_stream = [];
    ready = [];
    control = [];
    close_frame = none;
    graceful_close = false;
    closing = false;
    peer_settings = true;
    peer_max_frame = 25;
    peer_initial_stream_limit = 4;
    peer_limit = 10;
    sent = 0;
    control_turn = true;
    receive_windows = 2 ∷ [];
  };
  receive_window = Flow.new 32;
  states = λ id. new_stream 16;
}

abbrev pub chunk : OutboundChunk
chunk = record { stream_id = 2; payload = 1 ∷ 2 ∷ 3 ∷ 4 ∷ 5 ∷ 6 ∷ []; fin = true; permits = 6 }

abbrev pub loaded : Writer
loaded = (enqueue_data fresh 2 chunk).0

pub loaded-Scheduled : Scheduled loaded
loaded-Scheduled = enqueue_data-IsScheduled fresh 2 chunk IsScheduled-nil (refl, omega arith)

loaded-IsSound : IsSound loaded
unfolding enqueue_data new_stream lookup insert
loaded-IsSound = record { room = omega arith; windows = omega arith }

next_frame-Settles_example : Settles (next_frame loaded)
next_frame-Settles_example = next_frame-Settles loaded loaded-Scheduled loaded-IsSound

loaded-IsCredited : IsCredited (budget loaded)
unfolding enqueue_data new_stream lookup insert
loaded-IsCredited = record {
  room = omega arith;
  conn = omega arith;
  limits = omega arith;
  plain = (tt, tt);
  streams = λ id. omega arith;
}

next_frame-Pays_example : Pays (budget loaded) (next_frame loaded)
next_frame-Pays_example = next_frame-Pays loaded loaded-Scheduled loaded-IsCredited

-- The peer grants nothing to the connection.
abbrev short_of_credit : Writer
short_of_credit = record fresh { queues = record (fresh.queues) { peer_limit = 0 } }

abbrev stalled : Writer
stalled = (enqueue_data short_of_credit 2 chunk).0

stalled-IsCredited : IsCredited (budget stalled)
unfolding enqueue_data new_stream lookup insert
stalled-IsCredited = record {
  room = omega arith;
  conn = omega arith;
  limits = omega arith;
  plain = (tt, tt);
  streams = λ id. omega arith;
}

stalled_test : next_frame stalled ≡ waits stalled
unfolding next_frame round serve data_turn after_data next_control enqueue_data new_stream
    Flow.update Flow.needs_update Flow.new find_update lookup insert is_blocked grant conn_credit
    stream_credit frame_room room_panics update_frame control_or_data VarInt.encoded_len
    VarInt.from_u64
stalled_test = refl

next_frame-Rests_example : Rests (next_frame stalled)
next_frame-Rests_example =
    next_frame-Rests stalled
      (enqueue_data-IsScheduled short_of_credit 2 chunk IsScheduled-nil (refl, omega arith))
      stalled-IsCredited
