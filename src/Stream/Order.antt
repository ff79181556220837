-- ===== src/Stream/Order.antt =====
-- AsyncWrite on a `SendStream`: what is accepted stands in the order of the calls, with the end last.
pub mod Write
pub mod Shutdown
use muxtls.Base.{
  ℕ, zero, suc, ◌+◌, ◌≤◌, ◌≡◌, ◌∙◌, sym, refl, ap, arith, min, Bool, true, false, not, ◌&&◌, ◌||◌,
  Option, none, some, List, [], ◌∷◌, ◌++◌,
}
use muxtls.Base.{
  Result, ok, err, length, take, length-take, ◌==◌, if◌then◌else◌, if_either, Poll, ready, pending,
  Bool-cases, inl, inr, ◌⊎◌,
}
use mathlib.Core.Path.{subst}
use mathlib.Core.List.{append-nil, append_assoc}
use muxtls.Connection.Permits.{Semaphores}
use muxtls.Connection.State.{WriterQueues}
use muxtls.Connection.Payload.{max_stream_payload}
use muxtls.Connection.Writer.{is_empty}
use muxtls.Connection.Writer.Delivery.{Item, end, bytes, items, queued}
use muxtls.Connection.Shared.{Shared, set_state}
use muxtls.Connection.Shared.Send.{Sending, new_sending, poll_sending, goes_to}
use muxtls.Connection.Shared.Send.Effect.{Answers, Queues, poll_sending-Answers}
use muxtls.Error.{Error}
use muxtls.Stream.{IoError, other, broken_pipe, invalid_input, select_mode, async_mode}
use muxtls.Stream.Writing.{
  SendStream, is_some, in_mode, shutdown_selected, send_state, select_send_mode, or_pending,
  poll_future, Polled, and_then, drained, drain, poll_flush, accept_chunk, write_selected,
  poll_write, or_new_fin, ended, poll_fin, poll_shutdown,
}

abbrev pub items_of : Option Sending → List Item
items_of none = []
items_of (some f) = items f.payload f.fin

-- The futures write to the stream of the handle.
abbrev pub OwnsFuture : ℕ → Option Sending → Type 0
OwnsFuture id none = Unit
OwnsFuture id (some f) = f.stream_id ≡ id

abbrev pub Owned : SendStream → Type 0
Owned s = OwnsFuture s.stream_id s.write_fut × OwnsFuture s.stream_id s.shutdown_fut

-- The FIN is with a future, or written.
abbrev pub begun : SendStream → Bool
begun s = is_some s.shutdown_fut || s.shutdown_complete

module _ (S : Semaphores) where
  -- What a stream has accepted and not sent: in the writer's queue, then with the handle.
  abbrev pub pipeline : ℕ → SendStream → Shared S → List Item
  pipeline id s sh =
      queued id sh.writer.queues.by_stream
      ++ (if s.stream_id == id then items_of s.write_fut ++ items_of s.shutdown_fut else [])

  -- A call that has added `xs` to its stream.
  pub record Follows (s : SendStream) (sh : Shared S) (xs : List Item) (s' : SendStream)
      (t : Shared S) : Type 0 where
    pub stream_id : s'.stream_id ≡ s.stream_id
    pub owned : Owned s'
    pub order :
        (id : ℕ) → pipeline id s' t ≡ pipeline id s sh ++ (if s.stream_id == id then xs else [])

  -- The queues are as they were, or they have what the handle held for its stream.
  abbrev pub Unmoved : Shared S → Shared S → Type 0
  Unmoved sh t =
      (id : ℕ) → queued id t.writer.queues.by_stream ≡ queued id sh.writer.queues.by_stream

  abbrev pub Moved : SendStream → Shared S → Shared S → Type 0
  Moved s sh t =
      (id : ℕ)
      → queued id t.writer.queues.by_stream
        ≡ queued id sh.writer.queues.by_stream
          ++ (if s.stream_id == id then items_of s.write_fut else [])

  -- A call that has failed.
  pub record Fails (s : SendStream) (sh : Shared S) (s' : SendStream) (t : Shared S) : Type 0 where
    pub stream_id : s'.stream_id ≡ s.stream_id
    pub owned : Owned s'
    pub queues : Unmoved sh t ⊎ Moved s sh t

  -- A handle that has given up what it held.
  pub record Flushed (s : SendStream) (sh : Shared S) (s' : SendStream) (t : Shared S)
      : Type 0 where
    pub stream_id : s'.stream_id ≡ s.stream_id
    pub owned : Owned s'
    pub write_fut : s'.write_fut ≡ none
    pub shutdown_fut : s'.shutdown_fut ≡ s.shutdown_fut
    pub shutdown_complete : s'.shutdown_complete ≡ s.shutdown_complete
    pub moved : Moved s sh t

  -- The futures before and after a poll that ends.
  put_behind :
      (b : Bool) (xs ys zs : List Item)
      → xs ++ (if b then ys else []) ++ (if b then [] ++ zs else [])
        ≡ xs ++ (if b then ys ++ zs else []) ++ (if b then [] else [])
  put_behind true xs ys zs = simp (append-nil, append_assoc)
  put_behind false xs ys zs = refl

  pub if_nil : (b : Bool) (xs : List Item) → xs ≡ xs ++ (if b then [] else [])
  if_nil true xs = sym (append-nil xs)
  if_nil false xs = sym (append-nil xs)

  -- What `drain` does; `begun` does not change.
  abbrev pub Drains : SendStream → Shared S → Polled S (Unit {0}) → Type 0
  Drains s sh (ready (ok u), s', t) = Flushed s sh s' t
  Drains s sh (ready (err e), s', t) = Fails s sh s' t
  Drains s sh (pending, s', t) = Follows s sh [] s' t × (begun s' ≡ begun s)

module _ (S : Semaphores) (id : ℕ) (shutdown_fut : Option Sending) (shutdown_complete : Bool)
    (sh : Shared S) where
  abbrev with_write : Option Sending → SendStream
  with_write w = record {
    stream_id = id;
    write_fut = w;
    shutdown_fut = shutdown_fut;
    shutdown_complete = shutdown_complete;
  }

  -- A future that goes on has the same items.
  pending-Follows :
      (f g : Sending) (t : Shared S)
      → Owned (with_write (some f))
      → g ≡ goes_to g.stage f
      → t.writer.queues ≡ sh.writer.queues
      → Follows S (with_write (some f)) sh [] (with_write (some g)) t
  pending-Follows f g t o e q =
      rw e record { stream_id = refl; owned = o; order = λ j. rw q (if_nil S (id == j) _) }

  drained-Drains :
      (f : Sending) (r : Option (Poll (Result Error (Unit {0}))) × Sending × Shared S)
      → Owned (with_write (some f))
      → Answers S f sh r
      → Drains S (with_write (some f)) sh (drained S (with_write (some f)) (or_pending S r))
  unfolding drained
  drained-Drains f (none, g, t) o a = elim a [ ]
  drained-Drains f (some pending, g, t) o a = (pending-Follows f g t o a.1 a.0, refl)
  drained-Drains f (some (ready (err x)), g, t) o a = record {
    stream_id = refl;
    owned = (tt, o.1);
    queues = inl (λ j. ap (λ q. queued j q.by_stream) a);
  }
  drained-Drains f (some (ready (ok x)), g, t) o a = record {
    stream_id = refl;
    owned = (tt, o.1);
    write_fut = refl;
    shutdown_fut = refl;
    shutdown_complete = refl;
    moved = λ j. rw (← o.0) (a.0 j);
  }

  pub drain-Drains :
      (w : Option Sending)
      → Owned (with_write w)
      → Drains S (with_write w) sh (drain S w (with_write w) sh)
  unfolding drain
  drain-Drains none o = record {
    stream_id = refl;
    owned = o;
    write_fut = refl;
    shutdown_fut = refl;
    shutdown_complete = refl;
    moved = λ j. if_nil S (id == j) _;
  }
  drain-Drains (some f) o = drained-Drains f (poll_sending S f sh) o (poll_sending-Answers S f sh)

module _ (S : Semaphores) where
  -- Only the queues matter of where a call starts.
  pub Follows-from :
      {s s' : SendStream} {sh u t : Shared S} {xs : List Item}
      → u.writer.queues ≡ sh.writer.queues
      → Follows S s u xs s' t
      → Follows S s sh xs s' t
  Follows-from e h = record {
    stream_id = h.stream_id;
    owned = h.owned;
    order = λ id. rw e at (h.order id);
  }

  pub Fails-from :
      {s s' : SendStream} {sh u t : Shared S}
      → u.writer.queues ≡ sh.writer.queues
      → Fails S s u s' t
      → Fails S s sh s' t
  Fails-from e h = record {
    stream_id = h.stream_id;
    owned = h.owned;
    queues = elim h.queues [
      | inl k ↦ inl (λ id. rw e at (k id))
      | inr k ↦ inr (λ id. rw e at (k id))
    ];
  }

  Drains-from :
      (s : SendStream) (sh u : Shared S) (r : Polled S (Unit {0}))
      → u.writer.queues ≡ sh.writer.queues
      → Drains S s u r
      → Drains S s sh r
  Drains-from s sh u (pending, s', t) e h = (Follows-from e h.0, h.1)
  Drains-from s sh u (ready (err x), s', t) e h = Fails-from e h
  Drains-from s sh u (ready (ok x), s', t) e h = record {
    stream_id = h.stream_id;
    owned = h.owned;
    write_fut = h.write_fut;
    shutdown_fut = h.shutdown_fut;
    shutdown_complete = h.shutdown_complete;
    moved = λ id. rw e at (h.moved id);
  }

  pub stays : (s : SendStream) (sh : Shared S) → Owned s → Fails S s sh s sh
  stays s sh o = record { stream_id = refl; owned = o; queues = inl (λ id. refl) }

  -- Selecting the mode changes no queue.
  pub select_send_mode-queues :
      (id requested : ℕ) (sh u : Shared S)
      → select_send_mode S id requested sh ≡ ok u
      → u.writer.queues ≡ sh.writer.queues
  unfolding select_send_mode select_mode
  select_send_mode-queues id requested sh u e = ground arith

  -- The fields of a handle that has given up its write.
  emptied :
      (b b' : Bool) (q p : List Item) (w w' v v' : Option Sending)
      → b' ≡ b
      → w' ≡ none
      → v' ≡ v
      → q ≡ p ++ (if b then items_of w else [])
      → q ++ (if b' then items_of w' ++ items_of v' else [])
        ≡ p ++ (if b then items_of w ++ items_of v else []) ++ (if b then [] else [])
  emptied b b' q p w w' v v' e f g h = rw (e, f, g, h) (put_behind S b p (items_of w) (items_of v))

  pub Flushed-Follows :
      (s : SendStream) (sh : Shared S) (s' : SendStream) (t : Shared S)
      → Flushed S s sh s' t
      → Follows S s sh [] s' t
  Flushed-Follows s sh s' t h = record {
    stream_id = h.stream_id;
    owned = h.owned;
    order = λ id.
        emptied _ _ _ _ s.write_fut s'.write_fut s.shutdown_fut s'.shutdown_fut
          (ap (λ x. x == id) h.stream_id) h.write_fut h.shutdown_fut (h.moved id);
  }

  flush-Drains :
      (s : SendStream) (sh : Shared S) (r : Result Error (Shared S))
      → Owned s
      → select_send_mode S s.stream_id async_mode sh ≡ r
      → Drains S s sh (in_mode S s sh r (drain S s.write_fut s))
  flush-Drains s sh (err e) o x = stays s sh o
  flush-Drains s sh (ok u) o x =
      Drains-from s sh u (drain S s.write_fut s u)
        (select_send_mode-queues s.stream_id async_mode sh u x)
        (drain-Drains S s.stream_id s.shutdown_fut s.shutdown_complete u s.write_fut o)

  pub poll_flush-Drains :
      (s : SendStream) (sh : Shared S) → Owned s → Drains S s sh (poll_flush S s sh)
  unfolding poll_flush
  poll_flush-Drains s sh o = flush-Drains s sh (select_send_mode S s.stream_id async_mode sh) o refl
