-- ===== src/Connection/Tasks/Balance.antt =====
-- The writer gives back the permits of the chunks that it uses up, and no others.
use muxtls.Base.{ℕ, ◌≡◌, refl, arith, Option, none, some}
use muxtls.Base.{length}
use muxtls.Base.Bits.{==→eq}
use mathlib.Core.Path.{subst}
use muxtls.Proto.Frame.{Frame}
use muxtls.Connection.Permits.{Semaphores}
use muxtls.Connection.State.{OutboundChunk, Writer}
use muxtls.Connection.Writer.Next.{sends, next_frame}
use muxtls.Connection.Writer.Schedule.{Scheduled}
use muxtls.Connection.Writer.Permits.{IsMap}
use muxtls.Connection.Writer.Permits.Turns.{Measure, Frees, Loses, next_frame-Frees}
use muxtls.Connection.Shared.{Shared, drop_outbound}
use muxtls.Connection.Shared.Send.{Sending}
use muxtls.Connection.Shared.Send.Balance.{account, chunk_bytes}
use muxtls.Connection.Tasks.{used_up}

abbrev frames_measure : Measure
frames_measure = record {
  of = length;
  one = λ c. 1;
  nil = refl;
  cons = λ c q. omega arith;
  blind = λ c p. refl;
}

abbrev bytes_measure : Measure
bytes_measure = record {
  of = chunk_bytes;
  one = λ c. c.permits;
  nil = refl;
  cons = λ c q. refl;
  blind = λ c p. refl;
}

module _ (S : Semaphores) where
  dropped-account :
      (id : ℕ) (f : Sending) (sh : Shared S) (w : Writer) (dropped : Option OutboundChunk)
      → Loses frames_measure sh.writer.queues.by_stream w.queues.by_stream dropped
      → Loses bytes_measure sh.writer.queues.by_stream w.queues.by_stream dropped
      → account S id f (drop_outbound S (used_up dropped) (record sh { writer = w }))
        ≡ account S id f sh
  unfolding drop_outbound
  dropped-account id f sh w none a b = ground (arith, a.each id, b.each id, a.sum, b.sum)
  dropped-account id f sh w (some c) a b =
      let p = sh.stream_permits c.stream_id in
      ground (
        arith,
        a.each id,
        b.each id,
        a.sum,
        b.sum,
        ==→eq c.stream_id id,
        S.added p.outbound_stream_frames 1,
        S.added p.outbound_stream_bytes c.permits,
        S.added sh.outbound_frames 1,
        S.added sh.outbound_conn_bytes c.permits,
      )

  -- From queues in which a stream is ready exactly when it has chunks and each stream has one queue, a
  -- frame that the writer takes loses no permit and makes none: for every stream and for the connection,
  -- the permits for frames and bytes in the semaphores, with any one write and with the queued chunks
  -- add up as before, once the chunk that is used up has given its back. Each stream still has one queue.
  pub next_frame-account :
      (id : ℕ) (f : Sending) (sh : Shared S) (w : Writer) (frame : Frame)
      (dropped : Option OutboundChunk)
      → Scheduled sh.writer
      → IsMap sh.writer.queues.by_stream
      → next_frame sh.writer ≡ sends w frame dropped
      → (account S id f (drop_outbound S (used_up dropped) (record sh { writer = w }))
          ≡ account S id f sh)
        × IsMap w.queues.by_stream
  next_frame-account id f sh w frame dropped s m e =
      let b = sh.writer.queues.by_stream in
      let a = subst (Frees frames_measure b) e (next_frame-Frees frames_measure sh.writer s m) in
      let c = subst (Frees bytes_measure b) e (next_frame-Frees bytes_measure sh.writer s m) in
      (dropped-account id f sh w dropped a c, a.keys)
