-- ===== src/Stream/Order/Shutdown.antt =====
-- `poll_shutdown` puts the end behind all that was accepted, once.
use muxtls.Base.{
  ℕ, ◌≡◌, ◌∙◌, sym, refl, ap, arith, Bool, true, false, not, ◌&&◌, ◌||◌, Option, none, some, List,
  [], ◌∷◌, ◌++◌,
}
use muxtls.Base.{Result, ok, err, ◌==◌, if◌then◌else◌, Poll, ready, pending, inr}
use mathlib.Core.Path.{subst}
use mathlib.Core.List.{append-nil, append_assoc}
use muxtls.Connection.Permits.{Semaphores}
use muxtls.Connection.Writer.Delivery.{Item, end, queued}
use muxtls.Connection.Shared.{Shared}
use muxtls.Connection.Shared.Send.{Sending, poll_sending}
use muxtls.Connection.Shared.Send.Effect.{Answers, poll_sending-Answers}
use muxtls.Error.{Error}
use muxtls.Stream.{async_mode}
use muxtls.Stream.Writing.{
  SendStream, is_some, in_mode, shutdown_selected, select_send_mode, or_pending, Polled, and_then,
  or_new_fin, ended, poll_fin, poll_shutdown,
}
use muxtls.Stream.Order.{
  items_of, OwnsFuture, Owned, begun, Follows, Fails, Flushed, Moved, Drains, if_nil, Follows-from,
  Fails-from, stays, select_send_mode-queues, drain-Drains,
}

module _ (S : Semaphores) where
  -- What a call of `poll_shutdown` adds: the end, where no earlier call has begun it.
  abbrev pub new_end : SendStream → SendStream → List Item
  new_end s s' = if begun s' && not (begun s) then end ∷ [] else []

  abbrev pub Shuts : SendStream → Shared S → Polled S (Unit {0}) → Type 0
  Shuts s sh (ready (ok u), s', t) =
      (s'.shutdown_complete ≡ true) × Follows S s sh (new_end s s') s' t
  Shuts s sh (ready (err e), s', t) = Fails S s sh s' t
  Shuts s sh (pending, s', t) = Follows S s sh (new_end s s') s' t

  handle :
      (s : SendStream) (sh : Shared S) (s' : SendStream) (t : Shared S)
      → Flushed S s sh s' t
      → s' ≡ record s { write_fut = none }
  handle s sh s' t h = ground (arith, h.stream_id, h.write_fut, h.shutdown_fut, h.shutdown_complete)

  -- What the write and the end of a handle have become, on one stream.
  end_behind :
      (b : Bool) (p ws vs es fs : List Item)
      → fs ≡ vs ++ es
      → p ++ (if b then ws else []) ++ (if b then [] ++ fs else [])
        ≡ p ++ (if b then ws ++ vs else []) ++ (if b then es else [])
  end_behind true p ws vs es fs e = rw e (simp append_assoc)
  end_behind false p ws vs es fs e = refl

module _ (S : Semaphores) (id : ℕ) (w : Option Sending) (sh t : Shared S) where
  abbrev before : Option Sending → SendStream
  before v = record { stream_id = id; write_fut = w; shutdown_fut = v; shutdown_complete = false }

  abbrev after : Option Sending → SendStream
  after v = record { stream_id = id; write_fut = none; shutdown_fut = v; shutdown_complete = false }

  -- What the end adds to what was there of it.
  end_items :
      (v : Option Sending)
      → items_of (some (or_new_fin v id))
        ≡ items_of v ++ (if not (is_some v || false) then end ∷ [] else [])
  end_items none = refl
  end_items (some f) = sym (append-nil (items_of (some f)))

  end_stream : (v : Option Sending) → OwnsFuture id v → (or_new_fin v id).stream_id ≡ id
  end_stream none o = refl
  end_stream (some f) o = o

  ended-Shuts :
      (v : Option Sending) (r : Option (Poll (Result Error (Unit {0}))) × Sending × Shared S)
      → OwnsFuture id v
      → Moved S (before v) sh t
      → Answers S (or_new_fin v id) t r
      → Shuts S (before v) sh (ended S (after v) (or_pending S r))
  unfolding ended
  ended-Shuts v (none, g, u) o m a = elim a [ ]
  ended-Shuts v (some pending, g, u) o m a = rw a.1 record {
    stream_id = refl;
    owned = (tt, end_stream v o);
    order = λ j. rw a.0 (rw (m j) (end_behind S (id == j) _ _ _ _ _ (end_items v)));
  }
  ended-Shuts v (some (ready (err x)), g, u) o m a = record {
    stream_id = refl;
    owned = (tt, tt);
    queues = inr (λ j. ap (λ q. queued j q.by_stream) a ∙ m j);
  }
  ended-Shuts v (some (ready (ok x)), g, u) o m a = (
    refl,
    record {
      stream_id = refl;
      owned = (tt, tt);
      order = λ j.
          sym (if_nil S (id == j) _)
          ∙ rw (a.0 j)
              (rw (m j) (rw (end_stream v o) (end_behind S (id == j) _ _ _ _ _ (end_items v))));
    },
  )

module _ (S : Semaphores) where
  same_end : (b c : Bool) → b ≡ c → [] ≡ (if b && not c then end ∷ [] else [])
  same_end true true x = refl
  same_end true false x = absurd (cc x)
  same_end false c x = refl

  then_fin :
      (id : ℕ) (w v : Option Sending) (sh : Shared S) (r : Polled S (Unit {0}))
      → OwnsFuture id v
      → Drains S (before S id w sh sh v) sh r
      → Shuts S (before S id w sh sh v) sh (and_then S r (poll_fin S))
  unfolding poll_fin
  then_fin id w v sh (pending, s', t) o h =
      subst (λ xs. Follows S (before S id w sh sh v) sh xs s' t) (same_end _ _ h.1) h.0
  then_fin id w v sh (ready (err x), s', t) o h = h
  then_fin id w v sh (ready (ok x), s', t) o h = rw (handle S (before S id w sh sh v) sh s' t h) (
      ended-Shuts S id w sh t v (poll_sending S (or_new_fin v id) t) o h.moved
        (poll_sending-Answers S (or_new_fin v id) t))

  Shuts-from :
      (s : SendStream) (sh u : Shared S) (r : Polled S (Unit {0}))
      → u.writer.queues ≡ sh.writer.queues
      → Shuts S s u r
      → Shuts S s sh r
  Shuts-from s sh u (pending, s', t) e h = Follows-from S e h
  Shuts-from s sh u (ready (err x), s', t) e h = Fails-from S e h
  Shuts-from s sh u (ready (ok x), s', t) e h = (h.0, Follows-from S e h.1)

  selected-Shuts :
      (id : ℕ) (w v : Option Sending) (complete : Bool) (sh : Shared S)
      → OwnsFuture id w
      → OwnsFuture id v
      → Shuts S
          (record { stream_id = id; write_fut = w; shutdown_fut = v; shutdown_complete = complete })
          sh
          (shutdown_selected S
            (record {
              stream_id = id;
              write_fut = w;
              shutdown_fut = v;
              shutdown_complete = complete;
            })
            sh)
  unfolding shutdown_selected
  selected-Shuts id w v true sh o p = (refl, stay)
    where
      done : SendStream
      done = record { stream_id = id; write_fut = w; shutdown_fut = v; shutdown_complete = true }

      stay : Follows S done sh (new_end S done done) done sh
      stay =
          subst (λ xs. Follows S done sh xs done sh) (same_end (begun done) _ refl)
            record { stream_id = refl; owned = (o, p); order = λ j. if_nil S (id == j) _ }
  selected-Shuts id w v false sh o p =
      then_fin id w v sh _ p (drain-Drains S id v false sh w (o, p))

  shutdown-Shuts :
      (s : SendStream) (sh : Shared S) (r : Result Error (Shared S))
      → Owned s
      → select_send_mode S s.stream_id async_mode sh ≡ r
      → Shuts S s sh (in_mode S s sh r (shutdown_selected S s))
  shutdown-Shuts s sh (err e) o x = stays S s sh o
  shutdown-Shuts s sh (ok u) o x =
      Shuts-from s sh u (shutdown_selected S s u)
        (select_send_mode-queues S s.stream_id async_mode sh u x)
        (selected-Shuts s.stream_id s.write_fut s.shutdown_fut s.shutdown_complete u o.0 o.1)

  -- On a handle whose futures write to its stream, a call of `poll_shutdown` that is ready with success
  -- has completed the shutdown, and the end of the stream stands behind everything that was accepted. The
  -- end is put there by the one call that begins it: a call that succeeds or is pending after that adds
  -- nothing, and a pending call loses nothing. A call that fails has queued nothing, or just the write
  -- that the handle held. Other streams keep their queues, and the futures stay the stream's.
  pub poll_shutdown-Shuts :
      (s : SendStream) (sh : Shared S) → Owned s → Shuts S s sh (poll_shutdown S s sh)
  unfolding poll_shutdown
  poll_shutdown-Shuts s sh o =
      shutdown-Shuts s sh (select_send_mode S s.stream_id async_mode sh) o refl
