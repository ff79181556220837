-- ===== src/Connection/Shared/Ended.antt =====
-- What `mark_closed` leaves: a connection that refuses everything, for good.
use muxtls.Base.{ℕ, ◌≡◌, ◌∙◌, refl, arith, Bool, true, List, [], ◌∷◌}
use muxtls.Base.{err, ◌⊎◌, Bool-cases, inl, inr}
use muxtls.Connection.Permits.{Semaphores}
use muxtls.Connection.State.{OutboundChunk}
use muxtls.Connection.Shared.{Shared, ensure_open, drop_outbound, drop_queues}
use muxtls.Connection.Shared.Streams.{
  refused, open_bi, accept_bi, reset, mark_closed, cleanup, mark_connections_closed,
}
use muxtls.Connection.Shared.Send.{new_sending, send_step, queue_step, fails}
use muxtls.Error.{connection_closed, protocol, send_side_closed}

module _ (S : Semaphores) where
  pub record IsEnded (t : Shared S) : Type 0 where
    pub closed : t.closed ≡ true
    pub terminated : t.terminated ≡ true
    pub cleaned : t.cleanup_started ≡ true

  marked-IsEnded :
      (ids : List ℕ) (sh : Shared S) → IsEnded sh → IsEnded (mark_connections_closed S ids sh)
  unfolding mark_connections_closed
  marked-IsEnded [] sh h = h
  marked-IsEnded (id ∷ ids) sh h =
      marked-IsEnded ids _
        record { closed = h.closed; terminated = h.terminated; cleaned = h.cleaned }

  -- Dropped chunks touch no flag.
  record SameFlags (sh t : Shared S) : Type 0 where
    closed : t.closed ≡ sh.closed
    terminated : t.terminated ≡ sh.terminated
    cleaned : t.cleanup_started ≡ sh.cleanup_started

  drop_outbound-SameFlags :
      (cs : List OutboundChunk) (sh : Shared S) → SameFlags sh (drop_outbound S cs sh)
  unfolding drop_outbound
  drop_outbound-SameFlags [] sh = record { closed = refl; terminated = refl; cleaned = refl }
  drop_outbound-SameFlags (c ∷ cs) sh =
      let h = drop_outbound-SameFlags cs _ in
      record { closed = h.closed; terminated = h.terminated; cleaned = h.cleaned }

  drop_queues-SameFlags :
      (qs : List (ℕ × List OutboundChunk)) (sh : Shared S) → SameFlags sh (drop_queues S qs sh)
  unfolding drop_queues
  drop_queues-SameFlags [] sh = record { closed = refl; terminated = refl; cleaned = refl }
  drop_queues-SameFlags ((id, cs) ∷ qs) sh =
      let h = drop_queues-SameFlags qs (drop_outbound S cs sh) in
      let k = drop_outbound-SameFlags cs sh in
      record {
        closed = h.closed ∙ k.closed;
        terminated = h.terminated ∙ k.terminated;
        cleaned = h.cleaned ∙ k.cleaned;
      }

  cleanup-IsEnded :
      (sh : Shared S) → sh.closed ≡ true → sh.terminated ≡ true → IsEnded (cleanup S sh)
  unfolding cleanup
  cleanup-IsEnded sh c t = marked-IsEnded sh.streams _ (
      let h = drop_queues-SameFlags sh.writer.queues.by_stream _ in
      record { closed = h.closed ∙ c; terminated = h.terminated ∙ t; cleaned = h.cleaned })

  mark_closed-IsEnded : (sh : Shared S) → IsEnded (mark_closed S sh)
  unfolding mark_closed
  mark_closed-IsEnded sh = elim (Bool-cases sh.cleanup_started) [
    | inl e ↦ rw e record { closed = refl; terminated = refl; cleaned = refl }
    | inr e ↦ rw e (cleanup-IsEnded (record sh { closed = true; terminated = true }) refl refl)
  ]

  pub record Refuses (t : Shared S) : Type 0 where
    pub ended : IsEnded t
    pub opens : open_bi S t ≡ (refused connection_closed, t)
    pub accepts : accept_bi S t ≡ (refused connection_closed, t)
    pub resets : (id code : ℕ) → reset S id code t ≡ err connection_closed
    pub writes :
        (id : ℕ) (payload : List ℕ) (fin : Bool)
        → (send_step S (new_sending id payload fin) t
            ≡ fails S (new_sending id payload fin) (protocol send_side_closed) t)
          ⊎ (send_step S (new_sending id payload fin) t
              ≡ fails S (new_sending id payload fin) connection_closed t)
    pub again : mark_closed S t ≡ t

  IsEnded-Refuses : (t : Shared S) → IsEnded t → Refuses t
  unfolding open_bi accept_bi reset ensure_open mark_closed send_step queue_step
  IsEnded-Refuses t h = record {
    ended = h;
    opens = rw h.closed refl;
    accepts = rw h.closed refl;
    resets = λ id code. ground (arith, h.closed);
    writes = λ id payload fin. elim (Bool-cases (t.writer.states id).send_terminal) [
      | inl e ↦ inl (rw e refl)
      | inr e ↦ inr (rw (e, h.closed) refl)
    ];
    again = rw (h.closed, h.terminated, h.cleaned) refl;
  }

  -- After `mark_closed` on any state the connection is closed and terminated: an open, an accept and a
  -- reset are refused and change nothing, a write that starts fails, and a second `mark_closed` changes
  -- nothing.
  pub mark_closed-Refuses : (sh : Shared S) → Refuses (mark_closed S sh)
  mark_closed-Refuses sh = IsEnded-Refuses (mark_closed S sh) (mark_closed-IsEnded sh)
