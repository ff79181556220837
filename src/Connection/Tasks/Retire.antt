-- ===== src/Connection/Tasks/Retire.antt =====
-- A stream leaves the table, and gives back its permit, once both of its sides have ended.
use muxtls.Base.{ℕ, ◌≡◌, refl, arith, true, false, ◌&&◌, some}
use muxtls.Base.{◌==◌, if◌then◌else◌}
use muxtls.Base.Ids.{mem, mem-erase}
use muxtls.Proto.Frame.{Frame, connection_close}
use muxtls.Connection.Permits.{Semaphores}
use muxtls.Connection.Shared.{Shared}
use muxtls.Connection.Shared.Streams.{try_retire_stream, release_open_permit, remove_stream}
use muxtls.Connection.Tasks.{
  Round, goes_on, rests, leaves, terminal_id, complete, complete_option, after_send, record_sent,
  is_close,
}

module _ (S : Semaphores) where
  -- The table and the permits after the last frame of stream `id`, from the state `sh` before it.
  pub record Completes (id : ℕ) (sh t : Shared S) : Type 0 where
    pub table :
        (j : ℕ)
        → mem j t.streams ≡ (
            if id == j
              && ((sh.writer.states id).send_terminal && (sh.writer.states id).recv_terminal)
            then false
            else mem j sh.streams)
    pub permits : t.open_streams ≡ (
        if (sh.writer.states id).recv_terminal && (sh.writer.states id).open_permit
        then S.add_permits sh.open_streams 1
        else sh.open_streams)
    pub once : (sh.writer.states id).recv_terminal ≡ true → (t.writer.states id).open_permit ≡ false
    pub complete : (t.writer.states id).send_complete ≡ true

  complete-Completes :
      (id : ℕ) (sh : Shared S) → mem id sh.streams ≡ true → Completes id sh (complete S id sh)
  unfolding complete try_retire_stream release_open_permit remove_stream
  complete-Completes id sh m = record {
    table = λ j. ground (arith, mem-erase id j sh.streams);
    permits = ground arith;
    once = λ h. ground arith;
    complete = ground arith;
  }

  -- A round that goes on from the last frame of a stream.
  abbrev pub Finishes : ℕ → Shared S → Round S → Type 0
  Finishes id sh (goes_on t) = Completes id sh t
  Finishes id sh (rests t) = ⊥
  Finishes id sh (leaves t) = ⊥

  not_close : (id : ℕ) (frame : Frame) → terminal_id frame ≡ some id → is_close frame ≡ false
  unfolding terminal_id
  not_close id (connection_close code reason) e = absurd (cc e)
  not_close id _ e = refl

  -- When the writer has sent a frame with a FIN, or a reset, of a stream of the table, the send side is
  -- complete. If the peer has ended its side too, the stream gives back its open permit, once, and if
  -- the send side is terminal it leaves the table; no other stream does, and the writer goes on.
  pub after_send-Finishes :
      (frame : Frame) (size id : ℕ) (sh : Shared S)
      → terminal_id frame ≡ some id
      → mem id sh.streams ≡ true
      → Finishes id sh (after_send S frame size sh)
  unfolding after_send complete_option record_sent
  after_send-Finishes frame size id sh e m =
      rw (not_close id frame e, e)
        (let c = complete-Completes id (record_sent S size sh) m in
          record { table = c.table; permits = c.permits; once = c.once; complete = c.complete })
