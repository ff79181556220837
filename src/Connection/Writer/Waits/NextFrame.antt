-- ===== src/Connection/Writer/Waits/NextFrame.antt =====
-- `next_frame` waits only when nothing may be sent: through its loop over the ready streams and its rounds.
use muxtls.Base.{
  ℕ, ◌≤◌, ◌≡◌, refl, sym, ◌∙◌, arith, true, false, not, ◌&&◌, ◌||◌, List, [], ◌∷◌, ◌++◌, some, none,
  Option,
}
use muxtls.Base.{length, All, Bool-cases, inl, inr}
use muxtls.Base.{All-append, ◌==◌}
use muxtls.Base.Bits.{==→eq}
use muxtls.Base.Ids.{mem}
use muxtls.Limits.{min_frame_size}
use mathlib.Core.List.{append_assoc, append-nil}
use mathlib.Core.Path.{subst}
use muxtls.Base.Maps.{lookup}
use muxtls.Proto.Frame.{Frame}
use muxtls.Connection.State.{OutboundChunk, Writer}
use muxtls.Connection.Writer.{is_empty}
use muxtls.Connection.Writer.Next.{
  Turn, sends, finished, again, waits, panics, take_turn, next_control, grant, conn_credit,
  stream_credit, frame_room, is_blocked, is_urgent, send_chunk, serve, close_turn, after_data,
  data_turn, control_or_data, round, next_frame, room_panics,
}
use muxtls.Connection.Writer.Schedule.{Scheduled, IsScheduled, rotate-IsScheduled}
use muxtls.Connection.Writer.Schedule.Serve.{front_chunk}
use muxtls.Connection.Writer.Schedule.NextFrame.{Keeps, round-Keeps}
use muxtls.Connection.Writer.Credit.{Budget, budget, IsCredited, Pays}
use muxtls.Connection.Writer.Credit.NextFrame.{round-Pays}
use muxtls.Connection.Writer.Waits.{
  Stuck, Spent, is_blocked-Spent, next_control-NoControl, Rests, with_ready,
}

close_turn-Rests : (w : Writer) → Rests (close_turn w)
unfolding close_turn Rests
close_turn-Rests w = ground arith

next_control-with_ready :
    (w : Writer) (ready : List ℕ) → next_control w ≡ none → next_control (with_ready w ready) ≡ none
unfolding next_control
next_control-with_ready w ready e = ground (arith, e)

-- Neither reason to leave the loop at once is there, and a turn for control frames has found none.
record IsCalm (w : Writer) : Type 0 where
  room : min_frame_size ≤ w.queues.peer_max_frame
  quiet : w.queues.control_turn ≡ true → next_control w ≡ none
  draining : (w.queues.closing && not w.queues.graceful_close) ≡ false

front_chunk-Stuck :
    (w : Writer) (id : ℕ) (chunk : OutboundChunk) (behind : List OutboundChunk)
    → lookup id w.queues.by_stream ≡ some (chunk ∷ behind)
    → Spent w.queues (w.states chunk.stream_id) chunk
    → Stuck w id
front_chunk-Stuck w id chunk behind e b chunk' behind' e' =
    let same : chunk ≡ chunk' = cc in subst (λ c. Spent w.queues (w.states c.stream_id) c) same b

All-mem : (P : ℕ → Type 0) (ids : List ℕ) → All P ids → (id : ℕ) → mem id ids ≡ true → P id
unfolding mem
All-mem P [] h id m = cc
All-mem P (x ∷ ids) h id m = elim (Bool-cases (x == id)) [
  | inl e ↦ subst P (==→eq x id e) h.0
  | inr e ↦ All-mem P ids h.1 id (rw e at m)
]

-- A stream with a chunk is ready.
all-Stuck : (w : Writer) → Scheduled w → All (Stuck w) w.queues.ready → (id : ℕ) → Stuck w id
all-Stuck w s h id chunk behind e =
    All-mem (Stuck w) w.queues.ready h id (s.aligned id ∙ rw e refl) chunk behind e

waits-Rests :
    (w : Writer)
    → Scheduled w
    → IsCalm w
    → All (Stuck w) w.queues.ready
    → w.queues.control_turn ≡ true
    → (w.queues.closing && is_empty w.queues.by_stream) ≡ false
    → Rests (waits w)
unfolding Rests
waits-Rests w s c h turn left =
    (next_control-NoControl w (c.quiet turn), all-Stuck w s h, left, c.draining)

again-Rests : (w : Writer) → Rests (again w)
unfolding Rests
again-Rests w = tt

after_data-Rests :
    (w : Writer) → Scheduled w → IsCalm w → All (Stuck w) w.queues.ready → Rests (after_data w)
unfolding after_data
after_data-Rests w s c h =
    ground (arith, close_turn-Rests w, again-Rests (take_turn w true), waits-Rests w s c h)

with_ready-IsCalm : (w : Writer) (ready : List ℕ) → IsCalm w → IsCalm (with_ready w ready)
with_ready-IsCalm w ready c = record {
  room = c.room;
  quiet = λ turn. next_control-with_ready w ready (c.quiet turn);
  draining = c.draining;
}

send_chunk-Rests :
    (w : Writer) (id : ℕ) (chunk : OutboundChunk) (behind : List OutboundChunk) (count : ℕ)
    → Rests (send_chunk w id chunk behind count)
unfolding send_chunk Rests
send_chunk-Rests w id chunk behind count = tt

panics-Rests : Rests panics
unfolding Rests
panics-Rests = tt

module _ (w : Writer) (c : IsCalm w) where
  serve-Rests :
      (pending done : List ℕ)
      → IsScheduled (pending ++ done) w.queues.by_stream
      → All (Stuck w) done
      → Rests (serve (length pending) after_data (with_ready w (pending ++ done)))
  unfolding serve grant is_blocked conn_credit stream_credit frame_room room_panics
  serve-Rests [] done s h = after_data-Rests (with_ready w done) s (with_ready-IsCalm w done c) h
  serve-Rests (id ∷ pending) done s h =
      let (chunk, behind, x) = front_chunk id (pending ++ done) w.queues.by_stream s in
      let v = with_ready w (id ∷ pending ++ done) in
      let rest = with_ready w (pending ++ done) in
      rw (x, serve)
        (elim (Bool-cases (room_panics rest.queues chunk.stream_id)) [
          | inl o ↦ rw o panics-Rests
          | inr o ↦
              rw o
                (elim (Bool-cases (
                  is_blocked rest.queues (grant rest.queues (w.states chunk.stream_id) chunk)
                    chunk)) [
                      | inl b ↦ rw b (
                          subst (λ r. Rests (serve (length pending) after_data (with_ready w r)))
                            (sym (append_assoc pending done (id ∷ [])))
                            (serve-Rests pending (done ++ (id ∷ []))
                              (subst (λ r. IsScheduled r w.queues.by_stream)
                                (append_assoc pending done (id ∷ []))
                                (rotate-IsScheduled id (pending ++ done) w.queues.by_stream s))
                              (All-append (Stuck w) done (id ∷ []) h (
                                front_chunk-Stuck w id chunk behind x (
                                    is_blocked-Spent w.queues (w.states chunk.stream_id) chunk
                                      c.room b),
                                tt,
                              ))))
                      | inr b ↦ rw b (send_chunk-Rests _ id chunk behind _)
                    ])
        ])

data_turn-Rests : (w : Writer) → Scheduled w → IsCalm w → Rests (data_turn w)
unfolding data_turn
data_turn-Rests w s c =
    subst (λ r. Rests (serve (length w.queues.ready) after_data (with_ready w r)))
      (append-nil w.queues.ready)
      (serve-Rests w c w.queues.ready []
        (subst (λ r. IsScheduled r w.queues.by_stream) (sym (append-nil w.queues.ready)) s) tt)

sends-Rests :
    (w : Writer) (frame : Frame) (dropped : Option OutboundChunk) → Rests (sends w frame dropped)
unfolding Rests
sends-Rests w frame dropped = tt

control_turn-Rests :
    (w : Writer) (o : Option (Writer × Option Frame))
    → Scheduled w
    → min_frame_size ≤ w.queues.peer_max_frame
    → (w.queues.closing && not w.queues.graceful_close) ≡ false
    → next_control w ≡ o
    → Rests (control_or_data w o)
unfolding control_or_data
control_turn-Rests w (some (v, none)) s room d e = panics-Rests
control_turn-Rests w (some (v, some frame)) s room d e = sends-Rests v frame none
control_turn-Rests w none s room d e =
    data_turn-Rests w s (record { room = room; quiet = λ turn. e; draining = d })

round-Rests :
    (w : Writer) → Scheduled w → min_frame_size ≤ w.queues.peer_max_frame → Rests (round w)
unfolding round
round-Rests w s room = elim (Bool-cases (w.queues.closing && not w.queues.graceful_close)) [
  | inl e ↦ rw e (close_turn-Rests w)
  | inr e ↦ rw e (elim (Bool-cases (w.queues.control_turn || is_urgent w.queues.control)) [
    | inl x ↦ rw x (control_turn-Rests w (next_control w) s room e refl)
    | inr x ↦ rw x (
        data_turn-Rests w s
          (record { room = room; quiet = λ turn. absurd (ground (arith, turn, x)); draining = e }))
  ])
]

second_round-Rests :
    (b : Budget) (t : Turn)
    → IsCredited b
    → Keeps t
    → Pays b t
    → Rests t
    → Rests (elim t [ again w ↦ round w | turn ↦ turn ])
second_round-Rests b (again w) c k p r = round-Rests w k (subst IsCredited (sym p) c).room.0
second_round-Rests b (sends w frame dropped) c k p r = r
second_round-Rests b (finished w) c k p r = r
second_round-Rests b (waits w) c k p r = r
second_round-Rests b panics c k p r = r

-- From queues in which a stream is ready exactly when it has chunks, and a writer within its peer's
-- limits, `next_frame` waits only if it has nothing to send: no control frame, no credit to announce, no
-- close that is due; and the first chunk of every stream has no credit left, of the connection or of its
-- stream, unless the peer has sent no SETTINGS.
pub next_frame-Rests : (w : Writer) → Scheduled w → IsCredited (budget w) → Rests (next_frame w)
unfolding next_frame
next_frame-Rests w s c =
    second_round-Rests (budget w) (round w) c (round-Keeps w s) (round-Pays w s c)
      (round-Rests w s c.room.0)
