-- ===== src/Connection/Shared/Table/Frames.antt =====
-- The reader's frames and the local operations keep the table of streams.
use muxtls.Base.{
  ℕ, ◌+◌, ◌%◌, ◌^◌, ◌≡◌, arith, Bool, true, false, not, ◌&&◌, ◌||◌, List, [], ◌∷◌, ◌++◌, Bool-cases,
  Option-cases, inl, inr,
}
use muxtls.Base.{
  Result, ok, err, ◌>>=◌, ◌>>◌, fail_if, map_err, Yields, if_either, ltb, leb, length, ◌==◌,
}
use muxtls.Base.Ids.{mem, erase}
use mathlib.Core.Path.{subst}
use muxtls.Proto.VarInt.{max_value}
use muxtls.Proto.VarInt
use muxtls.Proto.Frame.{
  Frame, stream, reset_stream, open_stream, settings, max_data, max_stream_data, stop_sending, ping,
  connection_close, decode, checked_var_int,
}
use muxtls.Limits.{min_frame_size, u32_max}
use muxtls.Connection.Permits.{Semaphores}
use muxtls.Connection.Shared.{Shared, drop_queues, take_stream_id, fit_close_reason, set_queues}
use muxtls.Connection.Shared.Streams.{
  insert_stream, open_bi, open_acquired, queue_close, initiate_close, OpenResult,
}
use muxtls.Connection.Shared.Frames.{
  handle_incoming_frame, on_frame, on_settings, on_max_stream_data, on_stop_sending, is_settings,
}
use muxtls.Connection.Shared.Table.{IsTable, local-IsTable}
use muxtls.Connection.Shared.Table.Steps.{
  IsRegular, mark_closed-IsRegular, reset-IsRegular, on_remote_stream_frame-IsRegular,
  on_remote_reset-IsRegular, on_remote_open-IsRegular, then-IsRegular, check-IsRegular,
  drop_queues-IsRegular,
}
use muxtls.Error.{
  Error, protocol, wire, credit_for_unopened, stop_for_unopened, invalid_settings,
  settings_must_be_first,
}

module _ (S : Semaphores) where
  on_max_stream_data-IsRegular :
      (id maximum : ℕ) (sh : Shared S)
      → IsRegular S sh
      → Yields (IsRegular S) (on_max_stream_data S id maximum sh)
  unfolding on_max_stream_data
  on_max_stream_data-IsRegular id maximum sh h =
      if_either (Yields (IsRegular S)) (mem id sh.streams) _ _ (λ e. h)
        (λ e. check-IsRegular S _ (protocol credit_for_unopened) (ok sh) (λ f. h))

  on_stop_sending-IsRegular :
      (id : ℕ) (sh : Shared S) → IsRegular S sh → Yields (IsRegular S) (on_stop_sending S id sh)
  unfolding on_stop_sending
  on_stop_sending-IsRegular id sh h =
      if_either (Yields (IsRegular S)) (mem id sh.streams) _ _ (λ e. reset-IsRegular S id 0 sh h)
        (λ e. check-IsRegular S _ (protocol stop_for_unopened) (ok sh) (λ f. h))

  on_settings-IsRegular :
      (a b c : ℕ) (sh : Shared S) → IsRegular S sh → Yields (IsRegular S) (on_settings S a b c sh)
  unfolding on_settings
  on_settings-IsRegular a b c sh h =
      check-IsRegular S (sh.writer.queues.peer_settings || (ltb c min_frame_size || ltb u32_max c))
        (protocol invalid_settings) _ (λ e. h)

  abbrev pub Regular : Shared S × Bool → Type 0
  Regular t = IsRegular S t.0

  paired :
      (m : Result Error (Shared S))
      → Yields (IsRegular S) m
      → Yields Regular (m >>= λ t. ok (t, true))
  paired (ok t) h = h
  paired (err e) h = tt

  on_frame-IsRegular :
      (discarded : Bool) (f : Frame) (sh : Shared S)
      → IsRegular S sh
      → Yields Regular (on_frame S discarded f sh)
  unfolding on_frame
  on_frame-IsRegular discarded (settings a b c) sh h = paired _ (on_settings-IsRegular a b c sh h)
  on_frame-IsRegular discarded (max_data maximum) sh h = h
  on_frame-IsRegular discarded (max_stream_data id maximum) sh h =
      paired _ (on_max_stream_data-IsRegular id maximum sh h)
  on_frame-IsRegular discarded (stream id fin payload) sh h =
      paired _ (on_remote_stream_frame-IsRegular S id discarded payload fin sh h)
  on_frame-IsRegular discarded (reset_stream id code) sh h =
      paired _ (on_remote_reset-IsRegular S id code sh h)
  on_frame-IsRegular discarded (open_stream id) sh h = paired _ (on_remote_open-IsRegular S id sh h)
  on_frame-IsRegular discarded (stop_sending id) sh h = paired _ (on_stop_sending-IsRegular id sh h)
  on_frame-IsRegular discarded ping sh h = h
  on_frame-IsRegular discarded (connection_close code reason) sh h = mark_closed-IsRegular S sh h

  any_then :
      {A : Type 0} (P : Shared S × Bool → Type 0) (m : Result Error A)
      (f : A → Result Error (Shared S × Bool))
      → ((a : A) → Yields P (f a))
      → Yields P (m >>= f)
  any_then P (ok a) f h = h a
  any_then P (err e) f h = tt

  any_check :
      (P : Shared S × Bool → Type 0) (b : Bool) (e : Error) (m : Result Error (Shared S × Bool))
      → Yields P m
      → Yields P (fail_if b e >> m)
  any_check P true e m h = tt
  any_check P false e m h = h

  pub handle_incoming_frame-IsRegular :
      (discarded : Bool) (bytes : List ℕ) (sh : Shared S)
      → IsRegular S sh
      → Yields Regular (handle_incoming_frame S discarded bytes sh)
  unfolding handle_incoming_frame
  handle_incoming_frame-IsRegular discarded bytes sh h =
      any_then Regular (map_err wire (decode bytes)) _ (λ f.
        any_check Regular (not (is_settings f) && not sh.writer.queues.peer_settings)
          (protocol settings_must_be_first) _ (on_frame-IsRegular discarded f sh h))

  queue_close-IsRegular :
      (code : ℕ) (reason : List ℕ) (sh : Shared S)
      → IsRegular S sh
      → IsRegular S (queue_close S code reason sh)
  unfolding queue_close
  queue_close-IsRegular code reason sh h =
      if_either (IsRegular S) sh.closed _ _ (λ e. h)
        (λ e.
          if_either (IsRegular S) (code == 0) sh (drop_queues S sh.writer.queues.by_stream sh)
            (λ f. h) (λ f. drop_queues-IsRegular S sh.writer.queues.by_stream sh h))

  pub initiate_close-IsRegular :
      (code : ℕ) (reason : List ℕ) (sh : Shared S)
      → IsRegular S sh
      → Yields (IsRegular S) (initiate_close S code reason sh)
  unfolding initiate_close
  initiate_close-IsRegular code reason sh h =
      then-IsRegular S (fit_close_reason sh.limits.max_frame_size code reason) _ (λ fitted.
        then-IsRegular S (map_err wire (checked_var_int code)) _
          (λ c. queue_close-IsRegular c fitted sh h))

  abbrev After : OpenResult × Shared S → Type 0
  After x = IsRegular S x.1

  local_id : (next : ℕ) → leb next max_value ≡ true → checked_var_int next ≡ ok next
  unfolding checked_var_int VarInt.from_u64
  local_id next e = ground arith

  next_id : (next : ℕ) → leb next max_value ≡ true → next + 2 ≡ (next + 2) % 2 ^ 64
  next_id next e = ground arith

  insert_local-IsRegular :
      (sh : Shared S) (control : List Frame) (count : ℕ)
      → IsRegular S sh
      → leb sh.next_local_stream_id max_value ≡ true
      → IsRegular S (
          insert_stream S sh.next_local_stream_id
            (record (set_queues S (record sh.writer.queues { control = control }) sh) {
              next_local_stream_id = (sh.next_local_stream_id + 2) % 2 ^ 64;
              stats_opened_streams = count;
            }))
  unfolding insert_stream
  insert_local-IsRegular sh control count h e =
      subst
        (λ n.
          IsTable (sh.next_local_stream_id ∷ erase sh.next_local_stream_id sh.streams)
            (sh.next_local_stream_id
              ∷ erase sh.next_local_stream_id sh.writer.queues.receive_windows)
            n sh.next_remote_stream_id sh.local_parity)
        (next_id sh.next_local_stream_id e) (local-IsTable h)

  open_acquired-IsRegular : (sh : Shared S) → IsRegular S sh → IsRegular S (open_acquired S sh).1
  unfolding open_acquired take_stream_id
  open_acquired-IsRegular sh h =
      if_either After
        (sh.writer.queues.closing
          || leb sh.writer.max_control_frames (length sh.writer.queues.control))
        _ _ (λ e. mark_closed-IsRegular S sh h)
        (λ e. elim (Bool-cases (leb sh.next_local_stream_id max_value)) [
          | inl f ↦
              rw (f, local_id sh.next_local_stream_id f)
                (insert_local-IsRegular sh
                  (sh.writer.queues.control ++ (open_stream sh.next_local_stream_id ∷ []))
                  ((sh.stats_opened_streams + 1) % 2 ^ 64) h f)
          | inr f ↦ rw f h
        ])

  pub open_bi-IsRegular : (sh : Shared S) → IsRegular S sh → IsRegular S (open_bi S sh).1
  unfolding open_bi
  open_bi-IsRegular sh h =
      if_either After sh.closed _ _ (λ e. h)
        (λ e. elim (Option-cases (S.try_acquire_many sh.open_streams 1)) [
          | inl f ↦ rw f (if_either After (S.is_closed sh.open_streams) _ _ (λ g. h) (λ g. h))
          | inr (left, f) ↦ rw f (open_acquired-IsRegular (record sh { open_streams = left }) h)
        ])
