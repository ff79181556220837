-- ===== src/Connection/Writer/Delivery.antt =====
-- What the writer's queues hold of each stream, its bytes and its end, and what sending a chunk
-- takes of it.
pub mod NextFrame
pub mod Run
use muxtls.Base.{
  ℕ, zero, suc, ◌≡◌, ◌∙◌, sym, refl, ap, arith, Bool, true, false, not, ◌&&◌, ◌||◌, List, [], ◌∷◌,
  ◌++◌, some, none, Option,
}
use muxtls.Base.{All, length, take, drop, ◌==◌, if◌then◌else◌, Bool-cases, List-cases, inl, inr}
use mathlib.Core.Path.{subst}
use mathlib.Core.List.{append_assoc, append-nil}
use muxtls.Base.Bits.{==→eq}
use muxtls.Base.Maps.{lookup, insert, remove}
use muxtls.Proto.Frame.{Frame, stream, connection_close}
use muxtls.Connection.State.{Heap, OutboundChunk, WriterQueues, Writer}
use muxtls.Connection.Writer.{is_empty, or_default, entry, taken_frame, fit_reason}
use muxtls.Connection.Writer.Next.{
  Turn, sends, finished, again, waits, panics, with_queues, next_control, send_chunk, close_turn,
  close_with, is_urgent, announce, announce_stream, pop_control, after_data, data_turn, round,
  next_frame,
}
use muxtls.Connection.Writer.Schedule.{Queues, Owns, Scheduled, entry-insert, entry-remove}
use muxtls.Connection.Writer.Schedule.Serve.{popped, count_of, Head, serve_rule}
use muxtls.Connection.Writer.Schedule.NextFrame.{
  Keeps, round-Keeps, skip-Scheduled, mine, next_control-queues,
}
use muxtls.Connection.Writer.Credit.{NoData, NoDataOption}
use muxtls.Connection.Writer.Credit.NextFrame.{fit_reason-NoData, find_update-NoData}
use muxtls.Flow
use muxtls.Flow.{ReceiveWindow}

-- One direction of a stream, as the application sees it.
pub data Item : Type 0 where
  byte : ℕ → Item
  end : Item

abbrev pub bytes : List ℕ → List Item
bytes [] = []
bytes (x ∷ xs) = byte x ∷ bytes xs

abbrev pub items : List ℕ → Bool → List Item
items payload fin = bytes payload ++ (if fin then end ∷ [] else [])

abbrev pub contents : List OutboundChunk → List Item
contents [] = []
contents (c ∷ cs) = items c.payload c.fin ++ contents cs

-- What waits of a stream.
abbrev pub queued : ℕ → Queues → List Item
queued id b = contents (entry id b)

-- What a frame carries of a stream.
abbrev pub carried : ℕ → Frame → List Item
carried id (stream j fin payload) = if j == id then items payload fin else []
carried id _ = []

-- Cutting a chunk loses nothing, and its end goes with the last byte.
items-cut :
    (n : ℕ) (payload : List ℕ) (fin : Bool)
    → items (take n payload) (fin && is_empty (drop n payload))
        ++ (if is_empty (drop n payload) then [] else items (drop n payload) fin)
      ≡ items payload fin
items-cut zero [] fin = ground arith
items-cut zero (x ∷ xs) fin = ground arith
items-cut (suc n) [] fin = ground arith
items-cut (suc n) (x ∷ xs) fin = ap (◌∷◌ (byte x)) (items-cut n xs fin)

-- The chunks behind one that is cut, or used up, follow what it had left.
contents-front :
    (used_up : Bool) (xs zs : List Item) (c : OutboundChunk) (behind : List OutboundChunk)
    → xs ++ (if used_up then [] else items c.payload c.fin) ≡ zs
    → xs ++ contents (if used_up then behind else c ∷ behind) ≡ zs ++ contents behind
contents-front true xs zs c behind e = ap (λ ys. ys ++ contents behind) (sym (append-nil xs) ∙ e)
contents-front false xs zs c behind e =
    sym (append_assoc xs (items c.payload c.fin) (contents behind))
    ∙ ap (λ ys. ys ++ contents behind) e

-- The frames that wait beside the chunks carry no data.
abbrev pub Plain : Writer → Type 0
Plain w = All NoData w.queues.control × NoDataOption w.queues.close_frame

-- A turn from queues `b` sends what stood first of each stream, and leaves the rest.
abbrev pub Delivers : Queues → Turn → Type 0
Delivers b (sends v f dropped) =
    Plain v × ((id : ℕ) → carried id f ++ queued id v.queues.by_stream ≡ queued id b)
Delivers b (finished v) = Plain v × (v.queues.by_stream ≡ b)
Delivers b (again v) = Plain v × (v.queues.by_stream ≡ b)
Delivers b (waits v) = Plain v × (v.queues.by_stream ≡ b)
Delivers b panics = Unit

-- A frame without data carries nothing of any stream.
pub NoData-carried : (id : ℕ) (f : Frame) → NoData f → carried id f ≡ []
NoData-carried id (stream j fin payload) h = elim h [ ]
NoData-carried id _ h = refl

module _ (w : Writer) (id : ℕ) (others : List ℕ) (chunk : OutboundChunk)
    (behind : List OutboundChunk) (s : Scheduled w) (h : Head w id others chunk behind) where
  -- The queue once `count` bytes of its first chunk are sent, as `send_chunk` writes it.
  abbrev left_queue : ℕ → List OutboundChunk
  left_queue count =
      if is_empty (drop count chunk.payload)
      then behind
      else record chunk { payload = drop count chunk.payload } ∷ behind

  contents-left :
      (count : ℕ)
      → items (take count chunk.payload) (chunk.fin && is_empty (drop count chunk.payload))
          ++ contents (left_queue count)
        ≡ contents (chunk ∷ behind)
  contents-left count =
      contents-front (is_empty (drop count chunk.payload)) _ _
        (record chunk { payload = drop count chunk.payload }) behind
        (items-cut count chunk.payload chunk.fin)

  queued-left :
      (j : ℕ) (q : List OutboundChunk)
      → queued j
          (if is_empty q then remove id w.queues.by_stream else insert id q w.queues.by_stream)
        ≡ (if id == j then contents q else queued j w.queues.by_stream)
  queued-left j [] = ground (arith, entry-remove id j w.queues.by_stream)
  queued-left j (c ∷ q) = ground (arith, entry-insert id j (c ∷ q) w.queues.by_stream)

  queued-head :
      (j : ℕ)
      → queued j w.queues.by_stream
        ≡ (if id == j then contents (chunk ∷ behind) else queued j w.queues.by_stream)
  queued-head j = ground (arith, ==→eq id j, h.chunks)

  -- What is sent of one stream and what it has left.
  joined :
      (j : ℕ) (xs ys zs other : List Item)
      → xs ++ ys ≡ zs
      → (if chunk.stream_id == j then xs else []) ++ (if id == j then ys else other)
        ≡ (if id == j then zs else other)
  joined j xs ys zs other e = ground (arith, (mine w id others chunk behind s h).0.0)

  pub send_chunk-Delivers :
      (count : ℕ)
      → Plain w
      → Delivers w.queues.by_stream
          (send_chunk (with_queues w (popped w others)) id chunk behind count)
  unfolding send_chunk
  send_chunk-Delivers count p = (
    p,
    λ j.
        rw (queued-left j (left_queue count))
          (joined j _ _ _ _ (contents-left count) ∙ sym (queued-head j)),
  )
