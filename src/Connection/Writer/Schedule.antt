-- ===== src/Connection/Writer/Schedule.antt =====
-- The queue of ready streams names each stream with queued chunks exactly once, so the `expect`s of
-- `next_frame` on the queues hold.
pub mod Serve
pub mod NextFrame
pub mod Settles
use muxtls.Base.{
  ℕ, suc, ◌≡◌, ◌≢◌, refl, arith, Bool, true, false, not, ◌||◌, List, [], ◌∷◌, ◌++◌, Option, none,
  some,
}
use muxtls.Base.{All, ◌==◌, if◌then◌else◌, length, Bool-cases, ◌⊎◌, inl, inr}
use muxtls.Base.Bits.{==→eq}
use muxtls.Base.Maps.{lookup, insert, remove, lookup-insert, lookup-remove}
use muxtls.Base.Ids.{
  mem, erase, IsDistinct, mem-append, mem-erase, IsDistinct-snoc, IsDistinct-erase,
}
use muxtls.Proto.VarInt.{IsVarInt}
use muxtls.Connection.State.{OutboundChunk, WriterQueues, Writer}
use muxtls.Connection.Writer.{is_empty, entry, enqueue_data, shutdown, new_queues}

-- The identifier of a chunk is that of its queue, and fits a `VarInt`.
abbrev pub Owns : ℕ → OutboundChunk → Type 0
Owns id chunk = (chunk.stream_id ≡ id) × IsVarInt chunk.stream_id

abbrev pub Queues : Type 0
Queues = List (ℕ × List OutboundChunk)

pub record IsScheduled (ready : List ℕ) (by_stream : Queues) : Type 0 where
  -- A stream is ready exactly when it has a chunk, and it stands in the queue once.
  pub aligned : (id : ℕ) → mem id ready ≡ not (is_empty (entry id by_stream))
  pub distinct : IsDistinct ready
  -- No empty queue is kept in the map.
  pub full : (id : ℕ) → lookup id by_stream ≢ some []
  -- The chunks of a queue are its stream's.
  pub owned : (id : ℕ) → All (Owns id) (entry id by_stream)

abbrev pub Scheduled : Writer → Type 0
Scheduled w = IsScheduled w.queues.ready w.queues.by_stream

pub IsScheduled-nil : IsScheduled [] []
unfolding lookup mem
IsScheduled-nil = record { aligned = λ id. refl; distinct = tt; full = λ id. cc; owned = λ id. tt }

pub entry-insert :
    (id j : ℕ) (q : List OutboundChunk) (m : List (ℕ × List OutboundChunk))
    → entry j (insert id q m) ≡ (if id == j then q else entry j m)
entry-insert id j q m = ground (arith, lookup-insert id j q m)

pub entry-remove :
    (id j : ℕ) (m : List (ℕ × List OutboundChunk))
    → entry j (remove id m) ≡ (if id == j then [] else entry j m)
entry-remove id j m = ground (arith, lookup-remove id j m)

pub is_empty-snoc {ℓ} : {A : Type ℓ} (xs : List A) (x : A) → is_empty (xs ++ (x ∷ [])) ≡ false
is_empty-snoc [] x = refl
is_empty-snoc (y ∷ ys) x = refl

All-snoc :
    (id : ℕ) (q : List OutboundChunk) (chunk : OutboundChunk)
    → All (Owns id) q
    → Owns id chunk
    → All (Owns id) (q ++ (chunk ∷ []))
All-snoc id [] chunk h o = (o, tt)
All-snoc id (c ∷ q) chunk h o = (h.0, All-snoc id q chunk h.1 o)

-- Two ways to change one stream's queue: replace it by a queue that is not empty, or remove it.
module _ (id : ℕ) (ready ready' : List ℕ) (b : Queues) (s : IsScheduled ready b)
    (d : IsDistinct ready') where
  pub insert-IsScheduled :
      (q : List OutboundChunk)
      → is_empty q ≡ false
      → All (Owns id) q
      → ((j : ℕ) → mem j ready' ≡ (if id == j then true else mem j ready))
      → IsScheduled ready' (insert id q b)
  insert-IsScheduled q some_left mine same = record {
    aligned = λ j. ground (arith, lookup-insert id j q b, same j, s.aligned j);
    distinct = d;
    full = λ j e. ground (arith, lookup-insert id j q b, s.full j);
    owned = λ j. elim (Bool-cases (id == j)) [
      | inl e ↦ rw (entry-insert id j q b) (rw e (rw (← ==→eq id j e) mine))
      | inr e ↦ rw (entry-insert id j q b) (rw e (s.owned j))
    ];
  }

  pub remove-IsScheduled :
      ((j : ℕ) → mem j ready' ≡ (if id == j then false else mem j ready))
      → IsScheduled ready' (remove id b)
  remove-IsScheduled same = record {
    aligned = λ j. ground (arith, lookup-remove id j b, same j, s.aligned j);
    distinct = d;
    full = λ j e. ground (arith, lookup-remove id j b, s.full j);
    owned = λ j. elim (Bool-cases (id == j)) [
      | inl e ↦ rw (entry-remove id j b) (rw e tt)
      | inr e ↦ rw (entry-remove id j b) (rw e (s.owned j))
    ];
  }

-- Queueing a chunk of a stream under that stream's identifier keeps the schedule, also when the chunk
-- is refused.
pub enqueue_data-IsScheduled :
    (w : Writer) (id : ℕ) (chunk : OutboundChunk)
    → Scheduled w
    → Owns id chunk
    → Scheduled (enqueue_data w id chunk).0
unfolding enqueue_data
enqueue_data-IsScheduled w id chunk s o =
    elim (Bool-cases (w.queues.closing || (w.states chunk.stream_id).send_terminal)) [
      | inl e ↦ rw e s
      | inr e ↦ rw e (elim (Bool-cases (is_empty q)) [
        | inl x ↦ rw x (replaced (w.queues.ready ++ (id ∷ [])) (distinct x) (λ j. joined x j))
        | inr x ↦ rw x (replaced w.queues.ready s.distinct (λ j. kept x j))
      ])
    ]
  where
    q : List OutboundChunk
    q = entry id w.queues.by_stream

    replaced :
        (r : List ℕ)
        → IsDistinct r
        → ((j : ℕ) → mem j r ≡ (if id == j then true else mem j w.queues.ready))
        → IsScheduled r (insert id (q ++ (chunk ∷ [])) w.queues.by_stream)
    replaced r d same =
        insert-IsScheduled id w.queues.ready r w.queues.by_stream s d (q ++ (chunk ∷ []))
          (is_empty-snoc q chunk) (All-snoc id q chunk (s.owned id) o) same

    distinct : is_empty q ≡ true → IsDistinct (w.queues.ready ++ (id ∷ []))
    distinct x = IsDistinct-snoc id w.queues.ready (ground (arith, s.aligned id)) s.distinct

    joined :
        is_empty q ≡ true
        → (j : ℕ)
        → mem j (w.queues.ready ++ (id ∷ [])) ≡ (if id == j then true else mem j w.queues.ready)
    joined x j = unfold mem in ground (arith, mem-append j w.queues.ready (id ∷ []))

    kept :
        is_empty q ≡ false
        → (j : ℕ) → mem j w.queues.ready ≡ (if id == j then true else mem j w.queues.ready)
    kept x j = ground (arith, s.aligned id, s.aligned j)

-- What `reset_stream` does to the queues.
pub erase-IsScheduled :
    (id : ℕ) (ready : List ℕ) (b : Queues)
    → IsScheduled ready b
    → IsScheduled (erase id ready) (remove id b)
erase-IsScheduled id ready b s =
    remove-IsScheduled id ready (erase id ready) b s (IsDistinct-erase id ready s.distinct)
      (λ j. mem-erase id j ready)

-- A blocked stream goes to the end.
pub rotate-IsScheduled :
    (id : ℕ) (others : List ℕ) (b : Queues)
    → IsScheduled (id ∷ others) b
    → IsScheduled (others ++ (id ∷ [])) b
unfolding mem
rotate-IsScheduled id others b s = record {
  aligned = λ j. ground (arith, s.aligned j, mem-append j others (id ∷ []));
  distinct = IsDistinct-snoc id others s.distinct.0 s.distinct.1;
  full = s.full;
  owned = s.owned;
}
