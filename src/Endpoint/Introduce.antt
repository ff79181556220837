-- ===== src/Endpoint/Introduce.antt =====
-- The first frame of a new connection: each end sends its SETTINGS, and the other end accepts them.
use muxtls.Base.{ℕ, ◌≡◌, refl, ◌≤◌, arith, Bool, true, false, none, List, [], ok, >>=-eq-ok}
use muxtls.Limits.{Limits, usize_max, min_frame_size, u32_max}
use muxtls.Limits.Valid.{IsValid}
use muxtls.Proto.Frame.{Frame, settings, encode, decode}
use muxtls.Proto.Frame.RoundTrip.{decode-encode}
use muxtls.Connection.Permits.{Semaphores}
use muxtls.Connection.Writer.{new_queues}
use muxtls.Connection.State.{Writer}
use muxtls.Connection.Writer.Next.{sends, next_frame, round, next_control, with_queues}
use muxtls.Connection.Shared.{Shared, new_shared, set_queues}
use muxtls.Connection.Shared.Frames.{handle_incoming_frame, on_settings}
use muxtls.Tls.{Text, Rustls}
use muxtls.Endpoint.{Network, Endpoint, Connection, accept}
use muxtls.Endpoint.Connect.{established, connect_iff}
use muxtls.Endpoint.Accept.{accept_iff}

abbrev pub settings_of : Limits → Frame
settings_of l = settings l.max_inbound_connection_bytes l.max_inbound_stream_bytes l.max_frame_size

module _ (S : Semaphores) where
  -- What the other end knows once it has the limits.
  abbrev pub told : Limits → Shared S → Shared S
  told l sh =
      set_queues S
        (record sh.writer.queues {
          peer_settings = true;
          peer_limit = l.max_inbound_connection_bytes;
          peer_initial_stream_limit = l.max_inbound_stream_bytes;
          peer_max_frame = l.max_frame_size;
        })
        sh

  -- The first frame that `from` sends is SETTINGS with its limits, and its bytes are handled by `to`.
  pub record Introduces (from to : Shared S) : Type 0 where
    pub left : Writer
    pub first : next_frame from.writer ≡ sends left (settings_of from.limits) none
    pub bytes : List ℕ
    pub encoded : encode (settings_of from.limits) ≡ ok bytes
    pub handled :
        (discarded : Bool)
        → handle_incoming_frame S discarded bytes to ≡ ok (told from.limits to, true)

  first_frame :
      (l : Limits) (is_client : Bool)
      → let w = (new_shared S l is_client).writer in
        next_frame w
        ≡ sends
            (with_queues w (record w.queues { control = []; control_turn = false }))
            (settings_of l)
            none
  unfolding next_frame round next_control new_shared new_queues
  first_frame l is_client = refl

  accepted :
      (l peer : Limits) (is_client discarded : Bool) (bytes : List ℕ)
      → (min_frame_size ≤ l.max_frame_size) × (l.max_frame_size ≤ u32_max)
      → decode bytes ≡ ok (settings_of l)
      → let to = new_shared S peer is_client in
        handle_incoming_frame S discarded bytes to ≡ ok (told l to, true)
  unfolding handle_incoming_frame on_settings new_shared new_queues
  accepted l peer is_client discarded bytes size e = ground (arith, e, size)

  introduces :
      (mp : ℕ) (l peer : Limits) (is_client other : Bool)
      → IsValid mp l
      → Introduces (new_shared S l is_client) (new_shared S peer other)
  unfolding new_shared
  introduces mp l peer is_client other v =
      let w = (new_shared S l is_client).writer in
      let (bytes, encoded, decoded) =
        >>=-eq-ok (encode (settings_of l)) decode (decode-encode (settings_of l) (omega (arith))) in
      record {
        left = with_queues w (record w.queues { control = []; control_turn = false });
        first = first_frame l is_client;
        bytes = bytes;
        encoded = encoded;
        handled = λ discarded. accepted l peer other discarded bytes v.frame decoded;
      }

module _ (R : Rustls) (N : Network R) (S : Semaphores) where
  -- Where tokio's number of permits fits `usize`, whatever connections a client's `connect` and a server's
  -- `accept` give, each sends its SETTINGS first, and the other handles the bytes of that frame: it then
  -- knows the credit and the frame size of its peer, and goes on.
  pub ends-Introduce :
      (e f : Endpoint R N S) (addr : N.SocketAddr) (name : Text) (late late' : Bool)
      (c d : Connection R N S)
      → N.max_permits ≤ usize_max
      → established R N S e addr name late ≡ ok c
      → accept R N S late' f ≡ ok d
      → Introduces S c.shared d.shared × Introduces S d.shared c.shared
  ends-Introduce e f addr name late late' c d wide connected came =
      let k = (connect_iff R N S e addr name late c wide).0 connected in
      let m = (accept_iff R N S f late' d wide).0 came in
      rw k.result (
        rw m.result (
          introduces S N.max_permits e.limits f.limits true false k.usable.limits,
          introduces S N.max_permits f.limits e.limits false true m.usable.limits,
        ))
