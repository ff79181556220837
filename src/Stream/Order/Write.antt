-- ===== src/Stream/Order/Write.antt =====
-- `poll_write` accepts bytes behind those accepted before.
use muxtls.Base.{
  ℕ, ◌≤◌, ◌≡◌, refl, ap, arith, min, Bool, true, false, ◌||◌, Option, none, some, List, [], ◌∷◌,
  ◌++◌,
}
use muxtls.Base.{
  Result, ok, err, length, take, length-take, ◌==◌, if◌then◌else◌, ready, pending, Bool-cases, inl,
  inr,
}
use mathlib.Core.List.{append-nil}
use muxtls.Connection.Permits.{Semaphores}
use muxtls.Connection.Payload.{max_stream_payload}
use muxtls.Connection.Writer.{is_empty}
use muxtls.Connection.Writer.Delivery.{Item, bytes}
use muxtls.Connection.Shared.{Shared}
use muxtls.Connection.Shared.Send.{Sending}
use muxtls.Error.{Error}
use muxtls.Stream.{async_mode}
use muxtls.Stream.Writing.{
  SendStream, is_some, in_mode, send_state, select_send_mode, Polled, and_then, poll_flush,
  accept_chunk, write_selected, poll_write,
}
use muxtls.Stream.Order.{
  items_of, Owned, Follows, Fails, Flushed, Drains, if_nil, Follows-from, Fails-from, stays,
  select_send_mode-queues, poll_flush-Drains,
}

module _ (S : Semaphores) where
  -- What a call of `poll_write` does with `buf`.
  abbrev pub Writes : List ℕ → SendStream → Shared S → Polled S ℕ → Type 0
  Writes buf s sh (ready (ok n), s', t) =
      (n ≤ length buf) × (is_empty buf ≡ false → 1 ≤ n) × Follows S s sh (bytes (take n buf)) s' t
  Writes buf s sh (ready (err e), s', t) = Fails S s sh s' t
  Writes buf s sh (pending, s', t) = Follows S s sh [] s' t

  -- The pipeline with a new write behind what was moved.
  added :
      (b b' : Bool) (q p xs : List Item) (w v v' : Option Sending)
      → b' ≡ b
      → v' ≡ v
      → v ≡ none
      → q ≡ p ++ (if b then items_of w else [])
      → q ++ (if b' then xs ++ [] ++ items_of v' else [])
        ≡ p ++ (if b then items_of w ++ items_of v else []) ++ (if b then xs else [])
  added true b' q p xs w v v' e f g h = rw (e, f, g, h) (simp append-nil)
  added false b' q p xs w v v' e f g h = rw (e, h) refl

  length-taken :
      (buf : List ℕ) (m : ℕ)
      → m == 0 ≡ false
      → (length (take (min (length buf) m) buf) ≡ min (length buf) m)
        × (is_empty buf ≡ false → 1 ≤ min (length buf) m)
  length-taken [] m e = (omega (arith, length-take {A = ℕ} (min 0 m) []), λ h. absurd (cc h))
  length-taken (x ∷ xs) m e =
      (omega (arith, length-take (min (length (x ∷ xs)) m) (x ∷ xs)), λ h. ground arith)

  accept_chunk-Writes :
      (buf : List ℕ) (s : SendStream) (sh : Shared S) (s' : SendStream) (t : Shared S)
      → Flushed S s sh s' t
      → s.shutdown_fut ≡ none
      → Writes buf s sh (accept_chunk S buf s' t)
  unfolding accept_chunk
  accept_chunk-Writes buf s sh s' t h e =
      let m = max_stream_payload t.limits s'.stream_id in
      elim (Bool-cases (m == 0)) [
        | inl z ↦
            rw (z, Writes) record { stream_id = h.stream_id; owned = h.owned; queues = inr h.moved }
        | inr z ↦
            let (n, positive) = length-taken buf m z in
            rw (z, Writes)
              (rw n (
                omega arith,
                positive,
                record {
                  stream_id = h.stream_id;
                  owned = (refl, h.owned.1);
                  order = λ id.
                      added _ _ _ _ _ s.write_fut s.shutdown_fut s'.shutdown_fut
                        (ap (λ x. x == id) h.stream_id) h.shutdown_fut e (h.moved id);
                },
              ))
      ]

  then_accept :
      (buf : List ℕ) (s : SendStream) (sh : Shared S) (r : Polled S (Unit {0}))
      → Drains S s sh r
      → s.shutdown_fut ≡ none
      → Writes buf s sh (and_then S r (accept_chunk S buf))
  then_accept buf s sh (pending, s', t) h e = h.0
  then_accept buf s sh (ready (err x), s', t) h e = h
  then_accept buf s sh (ready (ok x), s', t) h e = accept_chunk-Writes buf s sh s' t h e

  write_selected-Writes :
      (buf : List ℕ) (s : SendStream) (sh : Shared S)
      → Owned s
      → Writes buf s sh (write_selected S buf s sh)
  unfolding write_selected
  write_selected-Writes [] s sh o = (
    omega arith,
    λ h. absurd (cc h),
    record { stream_id = refl; owned = o; order = λ id. if_nil S (s.stream_id == id) _ },
  )
  write_selected-Writes (x ∷ xs) s sh o = elim (Bool-cases refused) [
    | inl e ↦ rw (e, Writes) (stays S s sh o)
    | inr e ↦
        rw (e, Writes)
          (then_accept (x ∷ xs) s sh (poll_flush S s sh) (poll_flush-Drains S s sh o)
            (no_future s.shutdown_fut (ground arith)))
  ]
    where
      refused : Bool
      refused =
          sh.closed
          || (send_state S s.stream_id sh).send_terminal
          || is_some s.shutdown_fut
          || s.shutdown_complete

      no_future : (o : Option Sending) → is_some o ≡ false → o ≡ none
      no_future none e = refl
      no_future (some f) e = absurd (cc e)

  Writes-from :
      (buf : List ℕ) (s : SendStream) (sh u : Shared S) (r : Polled S ℕ)
      → u.writer.queues ≡ sh.writer.queues
      → Writes buf s u r
      → Writes buf s sh r
  Writes-from buf s sh u (pending, s', t) e h = Follows-from S e h
  Writes-from buf s sh u (ready (err x), s', t) e h = Fails-from S e h
  Writes-from buf s sh u (ready (ok n), s', t) e h = (h.0, h.1, Follows-from S e h.2)

  write-Writes :
      (buf : List ℕ) (s : SendStream) (sh : Shared S) (r : Result Error (Shared S))
      → Owned s
      → select_send_mode S s.stream_id async_mode sh ≡ r
      → Writes buf s sh (in_mode S s sh r (write_selected S buf s))
  write-Writes buf s sh (err e) o x = stays S s sh o
  write-Writes buf s sh (ok u) o x =
      Writes-from buf s sh u (write_selected S buf s u)
        (select_send_mode-queues S s.stream_id async_mode sh u x) (write_selected-Writes buf s u o)

  -- On a handle whose futures write to its stream, a call of `poll_write` that returns a count has
  -- accepted that many bytes from the front of the buffer, at least one unless the buffer is empty, and
  -- they stand behind everything that was accepted before, whether queued or still with the handle. A
  -- pending call has accepted nothing and lost nothing. A call that fails has queued nothing, or just
  -- the write that the handle held. Other streams keep their queues, and the futures stay the stream's.
  pub poll_write-Writes :
      (buf : List ℕ) (s : SendStream) (sh : Shared S)
      → Owned s
      → Writes buf s sh (poll_write S buf s sh)
  unfolding poll_write
  poll_write-Writes buf s sh o =
      write-Writes buf s sh (select_send_mode S s.stream_id async_mode sh) o refl
