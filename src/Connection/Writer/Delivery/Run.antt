-- ===== src/Connection/Writer/Delivery/Run.antt =====
-- The writer over its whole life: each stream leaves it as it was written.
use muxtls.Base.{ℕ, ◌≡◌, ◌∙◌, sym, refl, ap, arith, true, List, [], ◌∷◌, ◌++◌, Option}
use muxtls.Base.{All-append, ◌==◌, if◌then◌else◌, Bool-cases, inl, inr}
use mathlib.Core.Path.{subst}
use mathlib.Core.List.{append_assoc, append-nil}
use muxtls.Base.Bits.{==→eq}
use muxtls.Base.Maps.{lookup, insert, remove}
use muxtls.Base.Ids.{erase}
use muxtls.Proto.Frame.{Frame}
use muxtls.Connection.State.{OutboundChunk, Writer}
use muxtls.Connection.Writer.{entry, enqueue_data, enqueue_control}
use muxtls.Connection.Writer.Next.{sends, waits, next_frame}
use muxtls.Connection.Writer.Schedule.{
  Owns, Scheduled, IsScheduled-nil, entry-insert, entry-remove, enqueue_data-IsScheduled,
  erase-IsScheduled,
}
use muxtls.Connection.Writer.Schedule.NextFrame.{Keeps, next_frame-Keeps}
use muxtls.Connection.Writer.Credit.{NoData}
use muxtls.Connection.Writer.Delivery.{Item, items, contents, queued, carried, Plain, Delivers}
use muxtls.Connection.Writer.Delivery.NextFrame.{next_frame-Delivers}

abbrev pub History : Type 0
History = ℕ → List Item

-- One stream has more.
abbrev pub longer : History → ℕ → List Item → History
longer history id xs j = history j ++ (if id == j then xs else [])

-- What `reset_stream` does to the queues.
abbrev pub reset_queues : Writer → ℕ → Frame → Writer
reset_queues w id frame = record w {
  queues = record (w.queues) {
    by_stream = remove id w.queues.by_stream;
    ready = erase id w.queues.ready;
    control = w.queues.control ++ (frame ∷ []);
  };
}

-- What can happen to the writer, in any order, with what was accepted of each stream and what was sent.
-- What a reset drops counts as never accepted.
pub data Run : History → History → Writer → Type 0 where
  starts :
      (w : Writer)
      → w.queues.by_stream ≡ []
      → w.queues.ready ≡ []
      → Plain w
      → Run (λ id. []) (λ id. []) w
  accepts :
      {written sent : History} {w v : Writer} (id : ℕ) (chunk : OutboundChunk)
      → Run written sent w
      → Owns id chunk
      → enqueue_data w id chunk ≡ (v, true)
      → Run (longer written id (items chunk.payload chunk.fin)) sent v
  sends_frame :
      {written sent : History} {w v : Writer} {frame : Frame} {dropped : Option OutboundChunk}
      → Run written sent w
      → next_frame w ≡ sends v frame dropped
      → Run written (λ id. sent id ++ carried id frame) v
  waits_for_more :
      {written sent : History} {w v : Writer}
      → Run written sent w
      → next_frame w ≡ waits v
      → Run written sent v
  queues_control :
      {written sent : History} {w : Writer} (frame : Frame)
      → Run written sent w
      → NoData frame
      → Run written sent (enqueue_control w frame).0
  -- Credit, settings, a close frame and the states of the streams.
  learns :
      {written sent : History} {w v : Writer}
      → Run written sent w
      → v.queues.by_stream ≡ w.queues.by_stream
      → v.queues.ready ≡ w.queues.ready
      → Plain v
      → Run written sent v
  resets :
      {written sent : History} {w : Writer} (id : ℕ) (frame : Frame)
      → Run written sent w
      → NoData frame
      → Run (λ j. if id == j then sent j else written j) sent (reset_queues w id frame)

pub record IsDelivered (written sent : History) (w : Writer) : Type 0 where
  pub scheduled : Scheduled w
  pub plain : Plain w
  pub order : (id : ℕ) → written id ≡ sent id ++ queued id w.queues.by_stream

contents-snoc :
    (q : List OutboundChunk) (c : OutboundChunk)
    → contents (q ++ (c ∷ [])) ≡ contents q ++ items c.payload c.fin
contents-snoc [] c = append-nil (items c.payload c.fin)
contents-snoc (d ∷ q) c =
    ap (λ xs. items d.payload d.fin ++ xs) (contents-snoc q c)
    ∙ sym (append_assoc (items d.payload d.fin) (contents q) (items c.payload c.fin))

-- A chunk that is accepted goes behind what waits of its stream.
pub accepted_queue :
    (w v : Writer) (id : ℕ) (chunk : OutboundChunk)
    → enqueue_data w id chunk ≡ (v, true)
    → v.queues.by_stream
      ≡ insert id (entry id w.queues.by_stream ++ (chunk ∷ [])) w.queues.by_stream
unfolding enqueue_data
accepted_queue w v id chunk e = ground arith

pub accepted-queued :
    (w v : Writer) (id : ℕ) (chunk : OutboundChunk)
    → enqueue_data w id chunk ≡ (v, true)
    → (j : ℕ)
    → queued j v.queues.by_stream
      ≡ queued j w.queues.by_stream ++ (if id == j then items chunk.payload chunk.fin else [])
accepted-queued w v id chunk e j = rw (accepted_queue w v id chunk e) (elim (Bool-cases (id == j)) [
  | inl x ↦
      rw (entry-insert id j (entry id w.queues.by_stream ++ (chunk ∷ [])) w.queues.by_stream)
        (rw x (rw (← ==→eq id j x) (contents-snoc (entry id w.queues.by_stream) chunk)))
  | inr x ↦
      rw (entry-insert id j (entry id w.queues.by_stream ++ (chunk ∷ [])) w.queues.by_stream)
        (rw x (sym (append-nil (queued j w.queues.by_stream))))
])

enqueue_data-Plain :
    (w : Writer) (id : ℕ) (chunk : OutboundChunk) → Plain w → Plain (enqueue_data w id chunk).0
unfolding enqueue_data
enqueue_data-Plain w id chunk p = ground arith

-- The control queue takes a frame, or stays.
record Untouched (w v : Writer) : Type 0 where
  plain : Plain v
  by_stream : v.queues.by_stream ≡ w.queues.by_stream
  ready : v.queues.ready ≡ w.queues.ready

enqueue_control-Untouched :
    (w : Writer) (frame : Frame) → Plain w → NoData frame → Untouched w (enqueue_control w frame).0
unfolding enqueue_control
enqueue_control-Untouched w frame p h =
    ground (arith, All-append NoData w.queues.control (frame ∷ []) p.0 (h, tt))

learns-IsDelivered :
    (written sent : History) (w v : Writer)
    → IsDelivered written sent w
    → v.queues.by_stream ≡ w.queues.by_stream
    → v.queues.ready ≡ w.queues.ready
    → Plain v
    → IsDelivered written sent v
learns-IsDelivered written sent w v h b r p = record {
  scheduled = rw (b, r) h.scheduled;
  plain = p;
  order = λ id. rw b (h.order id);
}

accepts-IsDelivered :
    (written sent : History) (w v : Writer) (id : ℕ) (chunk : OutboundChunk)
    → IsDelivered written sent w
    → Owns id chunk
    → enqueue_data w id chunk ≡ (v, true)
    → IsDelivered (longer written id (items chunk.payload chunk.fin)) sent v
accepts-IsDelivered written sent w v id chunk h o e = record {
  scheduled = subst (λ r. Scheduled r.0) e (enqueue_data-IsScheduled w id chunk h.scheduled o);
  plain = subst (λ r. Plain r.0) e (enqueue_data-Plain w id chunk h.plain);
  order = λ j. simp (h.order j, accepted-queued w v id chunk e j, append_assoc) refl;
}

sends-IsDelivered :
    (written sent : History) (w v : Writer) (frame : Frame) (dropped : Option OutboundChunk)
    → IsDelivered written sent w
    → next_frame w ≡ sends v frame dropped
    → IsDelivered written (λ id. sent id ++ carried id frame) v
sends-IsDelivered written sent w v frame dropped h e =
    let d = subst (Delivers w.queues.by_stream) e (next_frame-Delivers w h.scheduled h.plain) in
    record {
      scheduled = subst Keeps e (next_frame-Keeps w h.scheduled);
      plain = d.0;
      order = λ id. h.order id ∙ simp (sym (d.1 id), append_assoc) refl;
    }

waits-IsDelivered :
    (written sent : History) (w v : Writer)
    → IsDelivered written sent w
    → next_frame w ≡ waits v
    → IsDelivered written sent v
waits-IsDelivered written sent w v h e =
    let d = subst (Delivers w.queues.by_stream) e (next_frame-Delivers w h.scheduled h.plain) in
    record {
      scheduled = subst Keeps e (next_frame-Keeps w h.scheduled);
      plain = d.0;
      order = λ id. rw d.1 (h.order id);
    }

resets-IsDelivered :
    (written sent : History) (w : Writer) (id : ℕ) (frame : Frame)
    → IsDelivered written sent w
    → NoData frame
    → IsDelivered (λ j. if id == j then sent j else written j) sent (reset_queues w id frame)
resets-IsDelivered written sent w id frame h d = record {
  scheduled = erase-IsScheduled id w.queues.ready w.queues.by_stream h.scheduled;
  plain = (All-append NoData w.queues.control (frame ∷ []) h.plain.0 (d, tt), h.plain.1);
  order = λ j. elim (Bool-cases (id == j)) [
    | inl x ↦ rw x (rw (entry-remove id j w.queues.by_stream) (rw x (sym (append-nil (sent j)))))
    | inr x ↦ rw x (rw (entry-remove id j w.queues.by_stream) (rw x (h.order j)))
  ];
}

-- The writer refines one queue for each stream. After any run from empty queues, chunks accepted, frames
-- taken by `next_frame`, control frames, new credit and resets in any order, what was accepted of a
-- stream is what the frames carried of it, in the order in which they were sent, followed by what is
-- still queued. What a reset drops counts as never accepted.
pub Run-IsDelivered :
    {written sent : History} {w : Writer} → Run written sent w → IsDelivered written sent w
Run-IsDelivered (starts w b r p) = record {
  scheduled = rw (b, r) IsScheduled-nil;
  plain = p;
  order = λ id. rw b (unfold lookup in refl);
}
Run-IsDelivered (accepts id chunk run o e) =
    accepts-IsDelivered _ _ _ _ id chunk (Run-IsDelivered run) o e
Run-IsDelivered (sends_frame run e) = sends-IsDelivered _ _ _ _ _ _ (Run-IsDelivered run) e
Run-IsDelivered (waits_for_more run e) = waits-IsDelivered _ _ _ _ (Run-IsDelivered run) e
Run-IsDelivered (queues_control {written} {sent} {w} frame run d) =
    let h = Run-IsDelivered run in
    let u = enqueue_control-Untouched w frame h.plain d in
    learns-IsDelivered written sent w (enqueue_control w frame).0 h u.by_stream u.ready u.plain
Run-IsDelivered (learns run b r p) = learns-IsDelivered _ _ _ _ (Run-IsDelivered run) b r p
Run-IsDelivered (resets id frame run d) = resets-IsDelivered _ _ _ id frame (Run-IsDelivered run) d
