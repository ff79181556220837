-- ===== src/Connection/Shared/Table/Reach.antt =====
-- The table of streams in every state that a connection can reach.
use muxtls.Base.{ℕ, ◌≡◌, ◌≢◌, refl, ap, arith, Bool, true, false, List, Bool-cases, inl, inr}
use muxtls.Base.{ok, err, Yields, ◌==◌}
use muxtls.Base.Bits.{==→eq}
use muxtls.Base.Ids.{mem}
use mathlib.Core.Path.{subst}
use muxtls.Connection.Permits.{Semaphores}
use muxtls.Connection.Shared.{Shared}
use muxtls.Connection.Shared.Streams.{
  reset, try_retire_stream, mark_closed, open_bi, initiate_close,
}
use muxtls.Connection.Shared.Frames.{handle_incoming_frame, on_remote_open}
use muxtls.Connection.Shared.Table.{next_remote-fresh}
use muxtls.Connection.Shared.Table.Steps.{
  IsRegular, mark_closed-IsRegular, retire-IsRegular, reset-IsRegular,
}
use muxtls.Connection.Shared.Handles.{handle_last_send_drop, handle_last_recv_drop}
use muxtls.Connection.Shared.Table.Handles.{send_drop-IsRegular, recv_drop-IsRegular}
use muxtls.Connection.Shared.Table.Frames.{
  Regular, handle_incoming_frame-IsRegular, open_bi-IsRegular, initiate_close-IsRegular,
}
use muxtls.Connection.Shared.{new_shared}
use muxtls.Connection.Writer.{new_queues}
use muxtls.Limits.{Limits}
use muxtls.Error.{protocol, reused_stream_id}

module _ (S : Semaphores) where
  -- What can happen to a connection's table, in any order: frames, opens, resets, drops of
  -- handles, retirements and closes.
  pub data Step : Shared S → Shared S → Type 0 where
    frame :
        {sh t : Shared S} {go : Bool} (discarded : Bool) (bytes : List ℕ)
        → handle_incoming_frame S discarded bytes sh ≡ ok (t, go)
        → Step sh t
    opens : {sh : Shared S} → Step sh (open_bi S sh).1
    resets : {sh t : Shared S} (id code : ℕ) → reset S id code sh ≡ ok t → Step sh t
    retires : {sh : Shared S} (id : ℕ) → Step sh (try_retire_stream S id sh)
    closes :
        {sh t : Shared S} (code : ℕ) (reason : List ℕ)
        → initiate_close S code reason sh ≡ ok t
        → Step sh t
    drops_send : {sh : Shared S} (id : ℕ) → Step sh (handle_last_send_drop S id sh)
    drops_recv : {sh : Shared S} (id : ℕ) → Step sh (handle_last_recv_drop S id sh)
    ends : {sh : Shared S} → Step sh (mark_closed S sh)

  pub data Reach (start : Shared S) : Shared S → Type 0 where
    here : Reach start start
    next : {sh t : Shared S} → Reach start sh → Step sh t → Reach start t

  Step-IsRegular : {sh t : Shared S} → Step sh t → IsRegular S sh → IsRegular S t
  Step-IsRegular {sh} (frame discarded bytes e) h =
      subst (Yields (Regular S)) e (handle_incoming_frame-IsRegular S discarded bytes sh h)
  Step-IsRegular {sh} opens h = open_bi-IsRegular S sh h
  Step-IsRegular {sh} (resets id code e) h =
      subst (Yields (IsRegular S)) e (reset-IsRegular S id code sh h)
  Step-IsRegular {sh} (retires id) h = retire-IsRegular S id sh h
  Step-IsRegular {sh} (closes code reason e) h =
      subst (Yields (IsRegular S)) e (initiate_close-IsRegular S code reason sh h)
  Step-IsRegular {sh} (drops_send id) h = send_drop-IsRegular S id sh h
  Step-IsRegular {sh} (drops_recv id) h = recv_drop-IsRegular S id sh h
  Step-IsRegular {sh} ends h = mark_closed-IsRegular S sh h

  new_shared-IsRegular :
      (limits : Limits) (is_client : Bool) → IsRegular S (new_shared S limits is_client)
  unfolding new_shared mem new_queues
  new_shared-IsRegular limits true = record {
    side = omega arith;
    local = refl;
    remote = refl;
    known = λ id m. absurd (cc);
    same = λ id. refl;
  }
  new_shared-IsRegular limits false = record {
    side = omega arith;
    local = refl;
    remote = refl;
    known = λ id m. absurd (cc);
    same = λ id. refl;
  }

  after : {start sh : Shared S} → IsRegular S start → Reach start sh → IsRegular S sh
  after h here = h
  after h (next r s) = Step-IsRegular s (after h r)

  pub Reach-IsRegular :
      (limits : Limits) (is_client : Bool) {sh : Shared S}
      → Reach (new_shared S limits is_client) sh
      → IsRegular S sh
  Reach-IsRegular limits is_client r = after (new_shared-IsRegular limits is_client) r

  never_reused :
      (id : ℕ) (sh : Shared S)
      → mem sh.next_remote_stream_id sh.streams ≡ false
      → on_remote_open S id sh ≢ err (protocol (reused_stream_id id))
  unfolding on_remote_open
  never_reused id sh free e = elim (Bool-cases (id == sh.next_remote_stream_id)) [
    | inl f ↦ ground (arith, ap (λ j. mem j sh.streams) (==→eq _ _ f))
    | inr f ↦ ground arith
  ]

  -- In every state that a new connection reaches by those steps, no OPEN_STREAM is refused as a reused
  -- identifier: the identifier that it must have is not in the table.
  pub on_remote_open-fresh :
      (limits : Limits) (is_client : Bool) {sh : Shared S} (id : ℕ)
      → Reach (new_shared S limits is_client) sh
      → on_remote_open S id sh ≢ err (protocol (reused_stream_id id))
  on_remote_open-fresh limits is_client {sh} id r =
      never_reused id sh (next_remote-fresh (Reach-IsRegular limits is_client r))
