-- ===== src/Connection/Writer/Permits/Turns.antt =====
-- The chunks that `next_frame` uses up: what the queues lose is what the turn drops.
use muxtls.Base.{
  ℕ, ◌+◌, ◌≡◌, sym, refl, ap, arith, Bool, true, false, not, ◌&&◌, ◌||◌, List, [], ◌∷◌, Option,
  none, some,
}
use muxtls.Base.{length, drop, ◌==◌, if◌then◌else◌, if_either}
use mathlib.Core.Path.{subst}
use muxtls.Base.Bits.{==→eq}
use muxtls.Base.Maps.{insert, remove}
use muxtls.Proto.Frame.{Frame}
use muxtls.Connection.State.{OutboundChunk, Writer}
use muxtls.Connection.Writer.{is_empty, or_default, entry, taken_frame}
use muxtls.Connection.Writer.Next.{
  Turn, sends, finished, again, waits, panics, with_queues, next_control, is_urgent, send_chunk,
  close_turn, close_with, after_data, data_turn, control_or_data, round, next_frame,
}
use muxtls.Connection.Writer.Schedule.{Queues, Scheduled, entry-insert, entry-remove}
use muxtls.Connection.Writer.Schedule.Serve.{popped, count_of, Head, serve_rule}
use muxtls.Connection.Writer.Schedule.NextFrame.{
  Keeps, round-Keeps, skip-Scheduled, mine, next_control-queues,
}
use muxtls.Connection.Writer.Permits.{
  IsMap, IsMap-insert, IsMap-remove, total, total-insert, total-remove,
}

-- A sum over the chunks of a queue, which does not look at the payloads.
pub record Measure : Type 0 where
  pub of : List OutboundChunk → ℕ
  pub one : OutboundChunk → ℕ
  pub nil : of [] ≡ 0
  pub cons : (c : OutboundChunk) (q : List OutboundChunk) → of (c ∷ q) ≡ one c + of q
  pub blind : (c : OutboundChunk) (p : List ℕ) → one (record c { payload = p }) ≡ one c

module _ (M : Measure) where
  abbrev pub gone : Option OutboundChunk → ℕ
  gone none = 0
  gone (some c) = M.one c

  abbrev pub gone_of : ℕ → Option OutboundChunk → ℕ
  gone_of id none = 0
  gone_of id (some c) = if c.stream_id == id then M.one c else 0

  -- From queues `b` to queues `b'`, with a chunk that is dropped.
  pub record Loses (b b' : Queues) (dropped : Option OutboundChunk) : Type 0 where
    pub each : (id : ℕ) → M.of (entry id b') + gone_of id dropped ≡ M.of (entry id b)
    pub sum : total M.of b' + gone dropped ≡ total M.of b
    pub keys : IsMap b'

  abbrev pub Frees : Queues → Turn → Type 0
  Frees b (sends v f dropped) = Loses b v.queues.by_stream dropped
  Frees b (finished v) = v.queues.by_stream ≡ b
  Frees b (again v) = v.queues.by_stream ≡ b
  Frees b (waits v) = v.queues.by_stream ≡ b
  Frees b panics = Unit

  keeps_all : (b b' : Queues) → IsMap b → b' ≡ b → Loses b b' none
  keeps_all b b' h e = rw e record { each = λ id. omega arith; sum = omega arith; keys = h }

  replaced :
      (id : ℕ) (b : Queues) (q : List OutboundChunk)
      → IsMap b
      → ((j : ℕ)
          → entry j (if is_empty q then remove id b else insert id q b)
            ≡ (if id == j then q else entry j b))
        × (total M.of (if is_empty q then remove id b else insert id q b) + M.of (entry id b)
            ≡ total M.of b + M.of q)
        × IsMap (if is_empty q then remove id b else insert id q b)
  replaced id b [] h = (
    λ j. entry-remove id j b,
    omega (arith, M.nil, total-remove M.of id b M.nil h),
    IsMap-remove id b h,
  )
  replaced id b (c ∷ q) h = (
    λ j. entry-insert id j (c ∷ q) b,
    total-insert M.of id (c ∷ q) b M.nil,
    IsMap-insert id (c ∷ q) b h,
  )

  -- The first chunk of a queue is used up, or loses bytes.
  first_chunk :
      (used_up : Bool) (chunk : OutboundChunk) (left : List ℕ) (behind : List OutboundChunk)
      → M.of (if used_up then behind else record chunk { payload = left } ∷ behind)
          + gone (if used_up then some (record chunk { payload = [] }) else none)
        ≡ M.of (chunk ∷ behind)
  first_chunk true chunk left behind = omega (arith, M.cons chunk behind, M.blind chunk [])
  first_chunk false chunk left behind = omega (
    arith,
    M.cons chunk behind,
    M.cons (record chunk { payload = left }) behind,
    M.blind chunk left,
  )

  gone_of-own :
      (used_up : Bool) (chunk : OutboundChunk) (id j : ℕ)
      → chunk.stream_id ≡ id
      → gone_of j (if used_up then some (record chunk { payload = [] }) else none) ≡ (
          if id == j
          then gone (if used_up then some (record chunk { payload = [] }) else none)
          else 0)
  gone_of-own true chunk id j e = ground (arith, e)
  gone_of-own false chunk id j e = ground arith

  module _ (w : Writer) (id : ℕ) (others : List ℕ) (chunk : OutboundChunk)
      (behind : List OutboundChunk) (s : Scheduled w) (h : Head w id others chunk behind) where
    send_chunk-Frees :
        (count : ℕ)
        → IsMap w.queues.by_stream
        → Frees w.queues.by_stream
            (send_chunk (with_queues w (popped w others)) id chunk behind count)
    unfolding send_chunk
    send_chunk-Frees count m =
        let left = drop count chunk.payload in
        let used_up = is_empty left in
        let q : List OutboundChunk =
          if used_up then behind else record chunk { payload = left } ∷ behind in
        let (each, sum, keys) = replaced id w.queues.by_stream q m in
        let first = first_chunk used_up chunk left behind in
        let own = (mine w id others chunk behind s h).0.0 in
        let front = ap (λ o. M.of (or_default o)) h.chunks in
        record {
          each = λ j.
              ground (arith, each j, gone_of-own used_up chunk id j own, first, front, ==→eq id j);
          sum = omega (arith, sum, first, front);
          keys = keys;
        }

  close_with-Frees :
      (w : Writer) (o : Option Frame)
      → IsMap w.queues.by_stream
      → Frees w.queues.by_stream (close_with w (taken_frame w.queues o))
  unfolding close_with taken_frame
  close_with-Frees w none m = refl
  close_with-Frees w (some f) m = keeps_all w.queues.by_stream w.queues.by_stream m refl

  close_turn-Frees :
      (w : Writer) → IsMap w.queues.by_stream → Frees w.queues.by_stream (close_turn w)
  unfolding close_turn
  close_turn-Frees w m = close_with-Frees w w.queues.close_frame m

  after_data-Frees :
      (w : Writer) → IsMap w.queues.by_stream → Frees w.queues.by_stream (after_data w)
  unfolding after_data
  after_data-Frees w m =
      if_either (Frees w.queues.by_stream) (not w.queues.control_turn) _ _ (λ _. refl)
        (λ _.
          if_either (Frees w.queues.by_stream) (w.queues.closing && is_empty w.queues.by_stream) _ _
            (λ _. close_turn-Frees w m) (λ _. refl))

  data_turn-Frees :
      (w : Writer) → Scheduled w → IsMap w.queues.by_stream → Frees w.queues.by_stream (data_turn w)
  unfolding data_turn
  data_turn-Frees w s m =
      serve_rule
        (λ v. Scheduled v × IsMap v.queues.by_stream × (v.queues.by_stream ≡ w.queues.by_stream))
        (Frees w.queues.by_stream) after_data (λ v h. h.0)
        (λ v id others chunk behind h head b.
          (skip-Scheduled v id others chunk behind h.0 head, h.1, h.2))
        (λ v id others chunk behind h head b.
          subst
            (λ q. Frees q (
              send_chunk (with_queues v (popped v others)) id chunk behind
                (count_of v others chunk)))
            h.2 (send_chunk-Frees v id others chunk behind h.0 head (count_of v others chunk) h.1))
        (λ v id others chunk behind h head o. tt)
        (λ v h. subst (λ q. Frees q (after_data v)) h.2 (after_data-Frees v h.1))
        (length w.queues.ready) w (s, m, refl) (omega arith)

  control_turn-Frees :
      (w : Writer) (o : Option (Writer × Option Frame))
      → Scheduled w
      → IsMap w.queues.by_stream
      → next_control w ≡ o
      → Frees w.queues.by_stream (control_or_data w o)
  unfolding control_or_data
  control_turn-Frees w none s m e = data_turn-Frees w s m
  control_turn-Frees w (some (v, none)) s m e = tt
  control_turn-Frees w (some (v, some f)) s m e =
      keeps_all w.queues.by_stream v.queues.by_stream m (next_control-queues w v (some f) e).1

  round-Frees :
      (w : Writer) → Scheduled w → IsMap w.queues.by_stream → Frees w.queues.by_stream (round w)
  unfolding round
  round-Frees w s m =
      if_either (Frees w.queues.by_stream) (w.queues.closing && not w.queues.graceful_close) _ _
        (λ _. close_turn-Frees w m)
        (λ _.
          if_either (Frees w.queues.by_stream) (w.queues.control_turn || is_urgent w.queues.control)
            _ _ (λ _. control_turn-Frees w (next_control w) s m refl) (λ _. data_turn-Frees w s m))

  second_round :
      (b : Queues) (t : Turn)
      → IsMap b
      → Keeps t
      → Frees b t
      → Frees b (elim t [ again w ↦ round w | turn ↦ turn ])
  second_round b (again w) m k d =
      subst (λ q. Frees q (round w)) d (round-Frees w k (subst IsMap (sym d) m))
  second_round b (sends w frame dropped) m k d = d
  second_round b (finished w) m k d = d
  second_round b (waits w) m k d = d
  second_round b panics m k d = d

  pub next_frame-Frees :
      (w : Writer)
      → Scheduled w
      → IsMap w.queues.by_stream
      → Frees w.queues.by_stream (next_frame w)
  unfolding next_frame
  next_frame-Frees w s m =
      second_round w.queues.by_stream (round w) m (round-Keeps w s) (round-Frees w s m)
