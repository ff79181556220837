-- ===== src/Connection/Writer/Permits.antt =====
-- What a sum over the queues loses when a queue changes.
pub mod Turns
use muxtls.Base.{
  ℕ, ◌+◌, ◌≡◌, ◌∙◌, sym, refl, ap, arith, Bool, true, false, not, ◌&&◌, ◌||◌, List, [], ◌∷◌, ◌++◌,
  Option, none, some,
}
use muxtls.Base.{length, take, drop, ◌==◌, if◌then◌else◌, if_either, Bool-cases, inl, inr}
use mathlib.Core.Path.{subst}
use muxtls.Base.Bits.{==→eq}
use muxtls.Base.Maps.{lookup, insert, remove, lookup-insert, lookup-remove}
use muxtls.Proto.Frame.{Frame}
use muxtls.Connection.State.{OutboundChunk, WriterQueues, Writer}
use muxtls.Connection.Writer.{is_empty, or_default, entry, taken_frame}
use muxtls.Connection.Writer.Next.{
  Turn, sends, finished, again, waits, panics, with_queues, next_control, is_urgent, send_chunk,
  close_turn, close_with, after_data, data_turn, round, next_frame,
}
use muxtls.Connection.Writer.Schedule.{Queues, Scheduled, entry-insert, entry-remove}
use muxtls.Connection.Writer.Schedule.Serve.{popped, count_of, Head, serve_rule}
use muxtls.Connection.Writer.Schedule.NextFrame.{
  Keeps, round-Keeps, skip-Scheduled, mine, next_control-queues,
}

-- Each key of the map has one entry.
abbrev pub IsMap : Queues → Type 0
IsMap [] = Unit
IsMap ((id, q) ∷ rest) = (lookup id rest ≡ none) × IsMap rest

pub IsMap-insert : (id : ℕ) (q : List OutboundChunk) (m : Queues) → IsMap m → IsMap (insert id q m)
unfolding insert lookup
IsMap-insert id q [] h = (refl, tt)
IsMap-insert id q ((first, old) ∷ rest) h = elim (Bool-cases (first == id)) [
  | inl e ↦ rw e (ground (arith, h.0, ==→eq first id), h.1)
  | inr e ↦ rw e (
    ground (arith, h.0, lookup-insert id first q rest, ==→eq id first),
    IsMap-insert id q rest h.1,
  )
]

pub IsMap-remove : (id : ℕ) (m : Queues) → IsMap m → IsMap (remove id m)
unfolding remove lookup
IsMap-remove id [] h = tt
IsMap-remove id ((first, old) ∷ rest) h = elim (Bool-cases (first == id)) [
  | inl e ↦ rw e (IsMap-remove id rest h.1)
  | inr e ↦ rw e (ground (arith, h.0, lookup-remove id first rest), IsMap-remove id rest h.1)
]

-- A sum over all queues.
abbrev pub total : (List OutboundChunk → ℕ) → Queues → ℕ
total measure [] = 0
total measure ((id, q) ∷ rest) = measure q + total measure rest

pub total-insert :
    (measure : List OutboundChunk → ℕ) (id : ℕ) (q : List OutboundChunk) (m : Queues)
    → measure [] ≡ 0
    → total measure (insert id q m) + measure (entry id m) ≡ total measure m + measure q
unfolding insert lookup
total-insert measure id q [] e = omega (arith, e)
total-insert measure id q ((first, old) ∷ rest) e = elim (Bool-cases (first == id)) [
  | inl x ↦ rw x (omega arith)
  | inr x ↦ rw x (omega (arith, total-insert measure id q rest e))
]

-- Removing a key that is not there changes nothing.
remove-missing : (id : ℕ) (m : Queues) → lookup id m ≡ none → remove id m ≡ m
unfolding remove lookup
remove-missing id [] e = refl
remove-missing id ((first, old) ∷ rest) e = elim (Bool-cases (first == id)) [
  | inl x ↦ absurd (ground arith)
  | inr x ↦ rw x (ap (◌∷◌ (first, old)) (remove-missing id rest (rw x at e)))
]

pub total-remove :
    (measure : List OutboundChunk → ℕ) (id : ℕ) (m : Queues)
    → measure [] ≡ 0
    → IsMap m
    → total measure (remove id m) + measure (entry id m) ≡ total measure m
unfolding remove lookup
total-remove measure id [] e h = omega (arith, e)
total-remove measure id ((first, old) ∷ rest) e h = elim (Bool-cases (first == id)) [
  | inl x ↦ rw x (
      omega (
        arith,
        ap (total measure)
            (remove-missing id rest (subst (λ k. lookup k rest ≡ none) (==→eq first id x) h.0)),
      ))
  | inr x ↦ rw x (omega (arith, total-remove measure id rest e h.1))
]
