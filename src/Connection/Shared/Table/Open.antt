-- ===== src/Connection/Shared/Table/Open.antt =====
-- What OPEN_STREAM does in every state that a connection can reach.
use muxtls.Base.{
  ℕ, ◌+◌, ◌%◌, ◌^◌, ◌≤◌, ◌≡◌, ◌≢◌, refl, sym, ap, ◌∙◌, arith, Bool, true, false, not, Option, none,
  some, [], ◌∷◌, ◌++◌, ◌⊎◌, inl, inr, length, leb, ◌==◌, fail_if, ok_or, ok, ◌>>=◌, ◌>>◌, Ends,
  Ends-fail_if,
}
use muxtls.Base.Ids.{mem}
use mathlib.Core.Bool.{false≢true}
use muxtls.Limits.{Limits}
use muxtls.Connection.Permits.{Semaphores}
use muxtls.Connection.Shared.{Shared, new_shared}
use muxtls.Connection.Shared.Streams.{insert_stream}
use muxtls.Connection.Shared.Frames.{on_remote_open}
use muxtls.Connection.Shared.Table.{next_remote-fresh}
use muxtls.Connection.Shared.Table.Steps.{IsRegular}
use muxtls.Connection.Shared.Table.Reach.{Reach, Reach-IsRegular}
use muxtls.Error.{
  Error, protocol, limit_exceeded, invalid_parity, unexpected_stream_id, incoming_queue,
  reused_stream_id,
}
use muxtls.Error

module _ (S : Semaphores) (id : ℕ) (sh : Shared S) where
  -- The stream has the expected identifier, is in the table, waits to be accepted behind the others, and
  -- moves the expectation on.
  pub record Opened (t : Shared S) : Type 0 where
    pub expected : id ≡ sh.next_remote_stream_id
    pub known : mem id t.streams ≡ true
    pub waiting : t.incoming_streams ≡ sh.incoming_streams ++ (id ∷ [])
    pub next : t.next_remote_stream_id ≡ id + 2

  -- The peer broke the order of its identifiers, or a limit of this side is reached.
  abbrev pub Refuses : Error → Type 0
  Refuses e =
      ((id ≢ sh.next_remote_stream_id)
        × ((e ≡ protocol (invalid_parity id))
            ⊎ (e ≡ protocol (unexpected_stream_id sh.next_remote_stream_id id))))
      ⊎ ((id ≡ sh.next_remote_stream_id)
          × (((e ≡ limit_exceeded Error.open_streams)
                × (S.try_acquire_many sh.open_streams 1 ≡ none))
              ⊎ ((e ≡ limit_exceeded incoming_queue)
                  × (sh.limits.max_open_streams ≤ length sh.incoming_streams))))

  parity_differs :
      IsRegular S sh → id ≡ sh.next_remote_stream_id → (id % 2 == sh.local_parity) ≡ false
  parity_differs h e = ground (arith, h.side, h.remote, e)

  module _ (h : IsRegular S sh) (same : id ≡ sh.next_remote_stream_id) where
    unknown : mem id sh.streams ≡ false
    unknown = ap (λ j. mem j sh.streams) same ∙ next_remote-fresh h

    opens_at :
        (left : Option S.Semaphore)
        → S.try_acquire_many sh.open_streams 1 ≡ left
        → Ends Opened Refuses (
            ok_or left (limit_exceeded Error.open_streams) >>= λ left. do
              fail_if (mem id sh.streams) (protocol (reused_stream_id id))
              fail_if
                  (leb sh.limits.max_open_streams (length sh.incoming_streams))
                  (limit_exceeded incoming_queue)
              ok (record (insert_stream S id sh) {
                open_streams = left;
                next_remote_stream_id = id + 2;
                stats_opened_streams = (sh.stats_opened_streams + 1) % 2 ^ 64;
                incoming_streams = sh.incoming_streams ++ (id ∷ []);
              }))
    unfolding insert_stream mem
    opens_at none e = inr (same, inl (refl, e))
    opens_at (some left) e = rw unknown (
        Ends-fail_if Opened Refuses (leb sh.limits.max_open_streams (length sh.incoming_streams)) _
          _ (λ room. record { expected = same; known = ground arith; waiting = refl; next = refl })
          (λ full. inr (same, inr (refl, ground arith))))

  on_remote_open-Ends : IsRegular S sh → Ends Opened Refuses (on_remote_open S id sh)
  unfolding on_remote_open
  on_remote_open-Ends h =
      Ends-fail_if Opened Refuses (id % 2 == sh.local_parity) _ _
        (λ theirs.
          Ends-fail_if Opened Refuses (not (id == sh.next_remote_stream_id)) _ _
            (λ b. opens_at h (ground arith) (S.try_acquire_many sh.open_streams 1) refl)
            (λ b. inl (ground arith, inr refl)))
        (λ mine. inl (λ e. false≢true (sym (parity_differs h e) ∙ mine), inl refl))

module _ (S : Semaphores) where
  -- In every state that a new connection reaches by frames, opens, resets, drops of handles, retirements
  -- and closes, OPEN_STREAM with the identifier that the peer must use next is accepted: the stream is in
  -- the table, waits to be accepted behind the others, and the next identifier is two more. It is refused
  -- only for want of a permit or where as many streams wait as may be open; any other identifier is
  -- refused for its parity or as unexpected.
  pub on_remote_open-Opens :
      (limits : Limits) (is_client : Bool) (id : ℕ) {sh : Shared S}
      → Reach S (new_shared S limits is_client) sh
      → Ends (Opened S id sh) (Refuses S id sh) (on_remote_open S id sh)
  on_remote_open-Opens limits is_client id {sh} r =
      on_remote_open-Ends S id sh (Reach-IsRegular S limits is_client r)
