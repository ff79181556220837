-- ===== src/Tests/Receive.antt =====
-- The receive half of a stream, with semaphores that count.
use muxtls.Base.{◌≡◌, refl, arith, true, false, none, [], ◌∷◌, ◌⊎◌, ok, err}
use muxtls.Flow
use muxtls.Flow.{receive, consume}
use muxtls.Tests.Permits.{counting}
use muxtls.Connection.State.{new_stream, InboundChunk}
use muxtls.Connection.Receive.{
  Receiving, stream_frame, reset_frame, read_chunk, failed, push_inbound, ensure_peer_send_open,
}
use muxtls.Connection.Receive.Accept.{buffered, Balanced, Accepted, IsWithin, stream_frame-answers}
use muxtls.Connection.Receive.Order.{Trace, begins, arrives, reads, IsOrdered, Trace-IsOrdered}
use muxtls.Connection.Receive.Clear.{reset_frame-clears}
use muxtls.Error.{protocol, exceeded_receive_credit, stream_reset, reset_after_close}

-- A stream with a window of 8 bytes on a connection with one of 16.
abbrev pub opened : Receiving counting
opened = record {
  max_inbound_stream_bytes = 8;
  connection_window = record { received = 0; consumed = 0; advertised = 16; window = 16 };
  inbound_conn_bytes = (16, false);
  inbound_stream_bytes = (8, false);
  state = new_stream 8;
}

opened-Balanced : Balanced counting 0 0 0 opened
unfolding new_stream Flow.new
opened-Balanced = record {
  conn = record { window = omega arith; counted = refl; permits = refl; opened = refl };
  stream = record { window = omega arith; counted = refl; permits = refl; opened = refl };
  whole = tt;
  ends = refl;
}

pub opened-IsOrdered : IsOrdered counting opened 0 [] [] 0 0 opened
unfolding new_stream
opened-IsOrdered = record { balanced = opened-Balanced; bytes = refl; kept = refl }

stream_frame-answers_example :
    (IsWithin counting (1 ∷ 2 ∷ []) opened
      × ((q : Receiving counting) × (stream_frame counting 4 false (1 ∷ 2 ∷ []) true opened ≡ ok q)
          × Accepted counting 0 0 (1 ∷ 2 ∷ []) true (buffered counting opened) q))
    ⊎ ((¬ IsWithin counting (1 ∷ 2 ∷ []) opened)
        × (stream_frame counting 4 false (1 ∷ 2 ∷ []) true opened
            ≡ err (protocol exceeded_receive_credit)))
stream_frame-answers_example =
    stream_frame-answers counting 4 0 0 (1 ∷ 2 ∷ []) true opened opened-Balanced
      (unfold new_stream in refl) (unfold new_stream in refl)

reset_frame-clears_example :
    (q : Receiving counting) × (reset_frame counting 4 7 opened ≡ ok q)
    × Balanced counting 0 0 0 q
    × (buffered counting q ≡ [])
    × (read_chunk counting q ≡ (failed (stream_reset 7), q))
    × (ensure_peer_send_open q.state (reset_after_close 4) ≡ err (protocol (reset_after_close 4)))
reset_frame-clears_example =
    reset_frame-clears counting 4 7 0 0 opened opened-Balanced (unfold new_stream in refl)

-- Two small frames share a page, and are read at once.
abbrev page : InboundChunk
page = record { bytes = 1 ∷ 2 ∷ 3 ∷ []; is_page = true; permits = 3 }

abbrev pub after_frames : Receiving counting
after_frames = record opened {
  connection_window = record { received = 3; consumed = 0; advertised = 16; window = 16 };
  inbound_conn_bytes = (13, false);
  inbound_stream_bytes = (5, false);
  state = record (new_stream 8) {
    receive_window = record { received = 3; consumed = 0; advertised = 8; window = 8 };
    inbound = record {
      chunks = page ∷ [];
      reset_error = none;
      fin_received = false;
      connection_closed = false;
    };
  };
}

abbrev after_read : Receiving counting
after_read = record after_frames {
  state = record (new_stream 8) {
    receive_window = record { received = 3; consumed = 0; advertised = 8; window = 8 };
    inbound = record {
      chunks = [];
      reset_error = none;
      fin_received = false;
      connection_closed = false;
    };
  };
}

two_frames : Trace counting opened 0 (1 ∷ 2 ∷ 3 ∷ []) (1 ∷ 2 ∷ 3 ∷ []) 3 0 after_read
unfolding new_stream Flow.new receive stream_frame push_inbound ensure_peer_send_open read_chunk
two_frames =
    reads page (arrives 4 (3 ∷ []) false (arrives 4 (1 ∷ 2 ∷ []) false begins refl refl) refl refl)
      refl

Trace-IsOrdered_example :
    IsOrdered counting opened 0 (1 ∷ 2 ∷ 3 ∷ []) (1 ∷ 2 ∷ 3 ∷ []) 3 0 after_read
Trace-IsOrdered_example = Trace-IsOrdered counting opened 0 opened-IsOrdered two_frames
