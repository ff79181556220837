-- ===== src/Connection/Receive/Store.antt =====
-- How the reader stores a payload: paging keeps the bytes, and each chunk's permits cover its bytes.
use muxtls.Base.{ℕ, ◌+◌, ◌≡◌, refl, arith, none, some, List, [], ◌∷◌, ◌++◌, inl, inr, Option}
use muxtls.Base.{length, length-append, All, All-append, leb, Bool-cases, Option-cases, ◌&&◌}
use mathlib.Core.List.{append-nil, append_assoc}
use mathlib.Core.Path.{subst}
use muxtls.Connection.State.{InboundChunk}
use muxtls.Connection.Receive.{extend_tail, store}

-- The bytes of the queue, in the order in which they are read.
abbrev pub content : List InboundChunk → List ℕ
content [] = []
content (c ∷ cs) = c.bytes ++ content cs

abbrev pub IsWhole : InboundChunk → Type 0
IsWhole c = c.permits ≡ length c.bytes

pub content-append : (cs ds : List InboundChunk) → content (cs ++ ds) ≡ content cs ++ content ds
content-append [] ds = refl
content-append (c ∷ cs) ds = simp (content-append cs ds, append_assoc)

-- What a longer queue must be: the payload at its end, and whole.
abbrev Extends : List ℕ → List InboundChunk → Option (List InboundChunk) → Type 0
Extends p cs none = Unit {0}
Extends p cs (some ds) = (content ds ≡ content cs ++ p) × (All IsWhole cs → All IsWhole ds)

behind-Extends :
    (p : List ℕ) (c : InboundChunk) (cs : List InboundChunk) (o : Option (List InboundChunk))
    → Extends p cs o
    → Extends p (c ∷ cs) (elim o [ none ↦ none | some rest ↦ some (c ∷ rest) ])
behind-Extends p c cs none h = tt
behind-Extends p c cs (some ds) h = (simp (h.0, append_assoc), λ w. (w.0, h.1 w.1))

extend_tail-Extends :
    (page : ℕ) (p : List ℕ) (cs : List InboundChunk) → Extends p cs (extend_tail page p cs)
unfolding extend_tail
extend_tail-Extends page p [] = tt
extend_tail-Extends page p (c ∷ []) =
    elim (Bool-cases (c.is_page && leb (length c.bytes + length p) page)) [
      | inl e ↦ rw e (simp append-nil, λ w. (omega (arith, w.0, length-append c.bytes p), tt))
      | inr e ↦ rw e tt
    ]
extend_tail-Extends page p (c ∷ d ∷ cs) =
    behind-Extends p c (d ∷ cs) (extend_tail page p (d ∷ cs)) (extend_tail-Extends page p (d ∷ cs))

-- Storing keeps the bytes in order, whichever chunk takes them, and every chunk's permits.
pub store-Extends :
    (page : ℕ) (p : List ℕ) (cs : List InboundChunk) → Extends p cs (some (store page p cs))
unfolding store
store-Extends page p cs = elim (Option-cases (extend_tail page p cs)) [
  | inl e ↦
      rw (e, store) (simp (content-append, append-nil), λ w. All-append IsWhole cs _ w (refl, tt))
  | inr (ds, e) ↦ rw (e, store) (subst (Extends p cs) e (extend_tail-Extends page p cs))
]
