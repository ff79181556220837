-- ===== src/Connection/Writer/Schedule/Serve.antt =====
-- One rule for the loop over the ready streams in `next_frame`: what holds before it, on each blocked
-- stream, on the chunk that is sent and on one without room.
use muxtls.Base.{ℕ, zero, suc, ◌≤◌, ◌≡◌, ap, arith, true, false, List, [], ◌∷◌, ◌++◌, some}
use muxtls.Base.{length, length-append, Bool-cases, Option-cases, List-cases, inl, inr}
use muxtls.Base.Maps.{lookup}
use muxtls.Base.Ids.{mem}
use muxtls.Connection.State.{OutboundChunk, WriterQueues, Writer}
use muxtls.Connection.Writer.Next.{
  Turn, with_queues, grant, is_blocked, room_panics, panics, send_chunk, serve,
}
use muxtls.Connection.Writer.Schedule.{IsScheduled, Scheduled, Queues}

-- The queues after `ready.pop_front()`, and after a blocked stream is pushed back.
abbrev pub popped : Writer → List ℕ → WriterQueues
popped w others = record (w.queues) { ready = others }

abbrev pub count_of : Writer → List ℕ → OutboundChunk → ℕ
count_of w others chunk = grant (popped w others) (w.states chunk.stream_id) chunk

abbrev pub skip : Writer → ℕ → List ℕ → Writer
skip w id others = with_queues w (record (popped w others) { ready = others ++ (id ∷ []) })

-- A ready stream has a chunk.
pub front_chunk :
    (id : ℕ) (others : List ℕ) (b : Queues)
    → IsScheduled (id ∷ others) b
    → (chunk : OutboundChunk) × (behind : List OutboundChunk) × (lookup id b
        ≡ some (chunk ∷ behind))
front_chunk id others b s = elim (Option-cases (lookup id b)) [
  | inl e ↦ absurd (unfold mem in ground (arith, s.aligned id))
  | inr (q, e) ↦ elim (List-cases q) [
    | inl x ↦ absurd (s.full id (rw x at e))
    | inr (chunk, behind, x) ↦ (chunk, behind, rw x at e)
  ]
]

-- The stream at the head of the queue, with its first chunk.
pub record Head (w : Writer) (id : ℕ) (others : List ℕ) (chunk : OutboundChunk)
    (behind : List OutboundChunk) : Type 0 where
  pub ready : w.queues.ready ≡ id ∷ others
  pub chunks : lookup id w.queues.by_stream ≡ some (chunk ∷ behind)

module _ (I : Writer → Type 0) (P : Turn → Type 0) (idle : Writer → Turn)
    (scheduled : (w : Writer) → I w → Scheduled w)
    (blocked : (w : Writer) (id : ℕ) (others : List ℕ) (chunk : OutboundChunk)
        (behind : List OutboundChunk)
      → I w
      → Head w id others chunk behind
      → is_blocked (popped w others) (count_of w others chunk) chunk ≡ true
      → I (skip w id others))
    (sent : (w : Writer) (id : ℕ) (others : List ℕ) (chunk : OutboundChunk)
        (behind : List OutboundChunk)
      → I w
      → Head w id others chunk behind
      → is_blocked (popped w others) (count_of w others chunk) chunk ≡ false
      → P (send_chunk (with_queues w (popped w others)) id chunk behind (count_of w others chunk)))
    (overflow : (w : Writer) (id : ℕ) (others : List ℕ) (chunk : OutboundChunk)
        (behind : List OutboundChunk)
      → I w
      → Head w id others chunk behind
      → room_panics (popped w others) chunk.stream_id ≡ true
      → P panics)
    (rest : (w : Writer) → I w → P (idle w)) where
  pub serve_rule :
      (rounds : ℕ) (w : Writer) → I w → rounds ≤ length w.queues.ready → P (serve rounds idle w)
  unfolding serve
  serve_rule zero w h le = rest w h
  serve_rule (suc n) w h le = elim (List-cases w.queues.ready) [
    | inl e ↦ absurd (omega (arith, ap length e))
    | inr (id, others, e) ↦
        let (chunk, behind, x) =
          front_chunk id others w.queues.by_stream (rw e at (scheduled w h)) in
        let head : Head w id others chunk behind = record { ready = e; chunks = x } in
        rw (e, serve)
          (rw (x, serve)
            (elim (Bool-cases (room_panics (popped w others) chunk.stream_id)) [
              | inl o ↦ rw o (overflow w id others chunk behind h head o)
              | inr o ↦
                  rw o
                    (elim (Bool-cases
                      (is_blocked (popped w others) (count_of w others chunk) chunk)) [
                        | inl b ↦ rw b (
                            serve_rule n (skip w id others)
                              (blocked w id others chunk behind h head b)
                              (omega (arith, ap length e, length-append others (id ∷ []))))
                        | inr b ↦ rw b (sent w id others chunk behind h head b)
                      ])
            ]))
  ]
