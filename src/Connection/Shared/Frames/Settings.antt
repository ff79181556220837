-- ===== src/Connection/Shared/Frames/Settings.antt =====
-- SETTINGS comes first, and once.
use muxtls.Base.{ℕ, ◌≡◌, refl, ap, sym, ◌∙◌, Bool, true, false, not, ◌&&◌, List, [], ◌∷◌}
use muxtls.Base.{
  Result, ok, err, ◌>>=◌, ◌>>◌, fail_if, map_err, Yields, Yields-fail_if, if_either, arith,
}
use mathlib.Core.Path.{subst}
use muxtls.Base.Ids.{mem}
use muxtls.Connection.Permits.{Semaphores}
use muxtls.Connection.State.{OutboundChunk}
use muxtls.Connection.Writer.{shutdown, entry}
use muxtls.Connection.Shared.{Shared, drop_outbound, drop_queues, ensure_open, receiving, restore}
use muxtls.Connection.Shared.Streams.{
  insert_stream, reset, queue_reset, try_retire_stream, release_open_permit, remove_stream,
  mark_closed, cleanup, mark_connections_closed,
}
use muxtls.Connection.Shared.Frames.{
  handle_incoming_frame, on_frame, on_remote_stream_frame, on_remote_reset, on_remote_open,
  on_settings, on_max_stream_data, on_stop_sending, is_settings,
}
use muxtls.Proto.Frame.{
  Frame, stream, reset_stream, open_stream, settings, max_data, max_stream_data, stop_sending, ping,
  connection_close, decode, checked_var_int,
}
use muxtls.Connection.Receive.{stream_frame, reset_frame}
use muxtls.Error.{
  Error, protocol, wire, connection_closed, value_too_large, settings_must_be_first,
  data_for_unknown, reset_for_unknown,
}

module _ (S : Semaphores) where
  abbrev settled : Shared S → Bool
  settled sh = sh.writer.queues.peer_settings

  abbrev Keeps : Shared S → Shared S → Type 0
  Keeps sh t = settled t ≡ settled sh

  drop_outbound-Keeps : (cs : List OutboundChunk) (sh : Shared S) → Keeps sh (drop_outbound S cs sh)
  unfolding drop_outbound
  drop_outbound-Keeps [] sh = refl
  drop_outbound-Keeps (c ∷ cs) sh = drop_outbound-Keeps cs _

  drop_queues-Keeps :
      (qs : List (ℕ × List OutboundChunk)) (sh : Shared S) → Keeps sh (drop_queues S qs sh)
  unfolding drop_queues
  drop_queues-Keeps [] sh = refl
  drop_queues-Keeps ((id, cs) ∷ qs) sh =
      drop_queues-Keeps qs (drop_outbound S cs sh) ∙ drop_outbound-Keeps cs sh

  mark_connections_closed-Keeps :
      (ids : List ℕ) (sh : Shared S) → Keeps sh (mark_connections_closed S ids sh)
  unfolding mark_connections_closed
  mark_connections_closed-Keeps [] sh = refl
  mark_connections_closed-Keeps (id ∷ ids) sh = mark_connections_closed-Keeps ids _

  mark_closed-Keeps : (sh : Shared S) → Keeps sh (mark_closed S sh)
  unfolding mark_closed cleanup shutdown
  mark_closed-Keeps sh =
      if_either (Keeps sh) sh.cleanup_started _ _ (λ e. refl)
        (λ e. mark_connections_closed-Keeps sh.streams _)

  release_open_permit-Keeps : (id : ℕ) (sh : Shared S) → Keeps sh (release_open_permit S id sh)
  unfolding release_open_permit
  release_open_permit-Keeps id sh =
      if_either (Keeps sh) (sh.writer.states id).open_permit _ _ (λ e. refl) (λ e. refl)

  try_retire_stream-Keeps : (id : ℕ) (sh : Shared S) → Keeps sh (try_retire_stream S id sh)
  unfolding try_retire_stream remove_stream
  try_retire_stream-Keeps id sh = ground (arith, release_open_permit-Keeps id sh)

  then-Keeps :
      {A : Type 0} (sh : Shared S) (m : Result Error A) (f : A → Result Error (Shared S))
      → ((a : A) → Yields (Keeps sh) (f a))
      → Yields (Keeps sh) (m >>= f)
  then-Keeps sh (ok a) f h = h a
  then-Keeps sh (err e) f h = tt

  check-Keeps :
      (sh : Shared S) (b : Bool) (e : Error) (m : Result Error (Shared S))
      → Yields (Keeps sh) m
      → Yields (Keeps sh) (fail_if b e >> m)
  check-Keeps sh true e m h = tt
  check-Keeps sh false e m h = h

  queue_reset-Keeps : (id code : ℕ) (sh : Shared S) → Yields (Keeps sh) (queue_reset S id code sh)
  unfolding queue_reset
  queue_reset-Keeps id code sh =
      ground (arith, drop_outbound-Keeps (entry id sh.writer.queues.by_stream) sh)

  reset-Keeps : (id code : ℕ) (sh : Shared S) → Yields (Keeps sh) (reset S id code sh)
  unfolding reset ensure_open
  reset-Keeps id code sh = check-Keeps sh sh.closed connection_closed _ (
      then-Keeps sh (map_err (λ _. protocol value_too_large) (checked_var_int id)) _ (λ a.
        then-Keeps sh (map_err wire (checked_var_int code)) _ (λ b. queue_reset-Keeps a b sh)))

  on_remote_stream_frame-Keeps :
      (id : ℕ) (discarded : Bool) (payload : List ℕ) (fin : Bool) (sh : Shared S)
      → Yields (Keeps sh) (on_remote_stream_frame S id discarded payload fin sh)
  unfolding on_remote_stream_frame
  on_remote_stream_frame-Keeps id discarded payload fin sh =
      check-Keeps sh (not (mem id sh.streams)) (protocol (data_for_unknown id)) _ (
        then-Keeps sh (stream_frame S id discarded payload fin (receiving S id sh)) _
          (λ r. ground (arith, try_retire_stream-Keeps id (restore S id r sh))))

  on_remote_reset-Keeps :
      (id code : ℕ) (sh : Shared S) → Yields (Keeps sh) (on_remote_reset S id code sh)
  unfolding on_remote_reset
  on_remote_reset-Keeps id code sh =
      check-Keeps sh (not (mem id sh.streams)) (protocol (reset_for_unknown id)) _ (
        then-Keeps sh (reset_frame S id code (receiving S id sh)) _
          (λ r. try_retire_stream-Keeps id (restore S id r sh)))

  on_remote_open-Keeps : (id : ℕ) (sh : Shared S) → Yields (Keeps sh) (on_remote_open S id sh)
  unfolding on_remote_open insert_stream
  on_remote_open-Keeps id sh = ground arith

  on_stop_sending-Keeps : (id : ℕ) (sh : Shared S) → Yields (Keeps sh) (on_stop_sending S id sh)
  unfolding on_stop_sending
  on_stop_sending-Keeps id sh = ground (arith, reset-Keeps id 0 sh)

  on_max_stream_data-Keeps :
      (id maximum : ℕ) (sh : Shared S) → Yields (Keeps sh) (on_max_stream_data S id maximum sh)
  unfolding on_max_stream_data
  on_max_stream_data-Keeps id maximum sh = ground arith

  -- The frame was SETTINGS exactly when none had come before, and now it has.
  abbrev pub Settles : Frame → Shared S → Shared S × Bool → Type 0
  Settles f sh t = (settled sh ≡ not (is_settings f)) × (settled t.0 ≡ true)

  yes : (sh : Shared S) → not (settled sh) ≡ false → settled sh ≡ true
  yes sh h = ground arith

  goes_on :
      (f : Frame) (sh : Shared S) (m : Result Error (Shared S))
      → settled sh ≡ true
      → is_settings f ≡ false
      → Yields (Keeps sh) m
      → Yields (Settles f sh) (m >>= λ t. ok (t, true))
  goes_on f sh (ok t) h e k = (h ∙ ap not (sym e), k ∙ h)
  goes_on f sh (err x) h e k = tt

  on_settings-Settles :
      (a b c : ℕ) (sh : Shared S)
      → Yields (Settles (settings a b c) sh) (on_settings S a b c sh >>= λ t. ok (t, true))
  unfolding on_settings
  on_settings-Settles a b c sh = ground arith

  on_frame-Settles :
      (discarded : Bool) (f : Frame) (sh : Shared S)
      → (not (is_settings f) && not (settled sh)) ≡ false
      → Yields (Settles f sh) (on_frame S discarded f sh)
  unfolding on_frame
  on_frame-Settles discarded (settings a b c) sh h = on_settings-Settles a b c sh
  on_frame-Settles discarded (max_data maximum) sh h = (yes sh h, yes sh h)
  on_frame-Settles discarded (max_stream_data id maximum) sh h =
      goes_on (max_stream_data id maximum) sh (on_max_stream_data S id maximum sh) (yes sh h) refl
        (on_max_stream_data-Keeps id maximum sh)
  on_frame-Settles discarded (stream id fin payload) sh h =
      goes_on (stream id fin payload) sh (on_remote_stream_frame S id discarded payload fin sh)
        (yes sh h) refl (on_remote_stream_frame-Keeps id discarded payload fin sh)
  on_frame-Settles discarded (reset_stream id code) sh h =
      goes_on (reset_stream id code) sh (on_remote_reset S id code sh) (yes sh h) refl
        (on_remote_reset-Keeps id code sh)
  on_frame-Settles discarded (open_stream id) sh h =
      goes_on (open_stream id) sh (on_remote_open S id sh) (yes sh h) refl
        (on_remote_open-Keeps id sh)
  on_frame-Settles discarded (stop_sending id) sh h =
      goes_on (stop_sending id) sh (on_stop_sending S id sh) (yes sh h) refl
        (on_stop_sending-Keeps id sh)
  on_frame-Settles discarded ping sh h = (yes sh h, yes sh h)
  on_frame-Settles discarded (connection_close code reason) sh h =
      (yes sh h, mark_closed-Keeps sh ∙ yes sh h)

  checked : (discarded : Bool) (f : Frame) → Shared S → Result Error (Shared S × Bool)
  checked discarded f sh =
      fail_if (not (is_settings f) && not (settled sh)) (protocol settings_must_be_first)
      >> on_frame S discarded f sh

  handle-checked :
      (discarded : Bool) (bytes : List ℕ) (f : Frame) (sh : Shared S)
      → decode bytes ≡ ok f
      → handle_incoming_frame S discarded bytes sh ≡ checked discarded f sh
  unfolding handle_incoming_frame checked
  handle-checked discarded bytes f sh d = rw d refl

  checked-Settles :
      (discarded : Bool) (f : Frame) (sh : Shared S)
      → Yields (Settles f sh) (checked discarded f sh)
  unfolding checked
  checked-Settles discarded f sh =
      Yields-fail_if (Settles f sh) (not (is_settings f) && not (settled sh))
        (protocol settings_must_be_first) (on_frame S discarded f sh)
        (on_frame-Settles discarded f sh)

  -- Whatever frame the reader accepts is SETTINGS when no SETTINGS came before, and is not SETTINGS when
  -- one did; after it, one has come.
  pub handle_incoming_frame-Settles :
      (discarded : Bool) (bytes : List ℕ) (f : Frame) (sh : Shared S) (t : Shared S × Bool)
      → decode bytes ≡ ok f
      → handle_incoming_frame S discarded bytes sh ≡ ok t
      → Settles f sh t
  handle_incoming_frame-Settles discarded bytes f sh t d e =
      subst (Yields (Settles f sh)) (sym (handle-checked discarded bytes f sh d) ∙ e)
        (checked-Settles discarded f sh)
