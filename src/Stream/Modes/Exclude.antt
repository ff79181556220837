-- ===== src/Stream/Modes/Exclude.antt =====
-- The two interfaces of a send half exclude each other.
use muxtls.Base.{ℕ, ◌≡◌, ◌∙◌, refl, sym, false, List}
use muxtls.Base.{Result, ok, err, ready, if_either, >>=-eq-ok}
use mathlib.Core.Path.{subst}
use muxtls.Connection.Permits.{Semaphores}
use muxtls.Connection.Shared.{Shared}
use muxtls.Connection.Shared.Send.{Sending, new_sending, poll_sending}
use muxtls.Error.{Error, protocol, mixed_apis}
use muxtls.Stream.{other, chunks_mode, async_mode}
use muxtls.Stream.Writing.{
  SendStream, select_send_mode, write_chunk, finish, poll_flush, poll_write, poll_shutdown, Polled,
  write_selected, shutdown_selected, drain, or_pending, poll_fin, or_new_fin,
}
use muxtls.Stream.Modes.{
  mode_of, HasMode, selects, refused_mode, drain_async, write_async, then-modes, ended-modes,
  or_pending-modes, poll_sending-modes,
}

module _ (S : Semaphores) where
  fin_async :
      (id : ℕ) (s : SendStream) (t : Shared S)
      → s.stream_id ≡ id
      → mode_of S id t ≡ async_mode
      → HasMode S id async_mode (poll_fin S s t)
  unfolding poll_fin
  fin_async id s t e m =
      subst (λ i. HasMode S i async_mode (poll_fin S s t)) e
        (let f = or_new_fin s.shutdown_fut s.stream_id in
          ended-modes S s async_mode (or_pending S (poll_sending S f t)) (
            or_pending-modes S f t s.stream_id ∙ subst (λ i. mode_of S i t ≡ async_mode) (sym e) m))

  shutdown_async :
      (s : SendStream) (sh : Shared S)
      → mode_of S s.stream_id sh ≡ async_mode
      → HasMode S s.stream_id async_mode (shutdown_selected S s sh)
  unfolding shutdown_selected
  shutdown_async s sh m =
      if_either (HasMode S s.stream_id async_mode) s.shutdown_complete _ _
        (λ _. unfold HasMode in (refl, m))
        (λ _.
          then-modes S s.stream_id async_mode (drain S s.write_fut s sh) (poll_fin S)
            (drain_async S s sh m) (λ s' t e n. fin_async s.stream_id s' t e n))

  -- What the chunk interface answers after a call of AsyncWrite.
  abbrev pub RefusesChunks : {A : Type 0} → Polled S A → Type 0
  RefusesChunks (answer, s, t) =
      ((chunk : List ℕ) → write_chunk S s chunk t ≡ err (protocol mixed_apis))
      × (finish S s t ≡ err (protocol mixed_apis))

  refuses_chunks :
      {A : Type 0} (id : ℕ) (r : Polled S A) → HasMode S id async_mode r → RefusesChunks r
  unfolding HasMode write_chunk finish
  refuses_chunks id (answer, s, t) h =
      let no =
        refused_mode S s.stream_id async_mode chunks_mode t
          (subst (λ i. mode_of S i t ≡ async_mode) (sym h.0) h.1) refl refl in
      (λ chunk. rw no refl, rw no refl)

  -- Where a handle may use AsyncWrite, each call of `poll_write`, `poll_flush` and `poll_shutdown` leaves
  -- it selected: after the call, whatever it gives, `write_chunk` and `finish` are refused for mixing.
  pub async_excludes_chunks :
      (buf : List ℕ) (s : SendStream) (sh u : Shared S)
      → select_send_mode S s.stream_id async_mode sh ≡ ok u
      → RefusesChunks (poll_write S buf s sh)
        × RefusesChunks (poll_flush S s sh)
        × RefusesChunks (poll_shutdown S s sh)
  unfolding poll_write poll_flush poll_shutdown
  async_excludes_chunks buf s sh u e =
      let m = selects S s.stream_id async_mode sh u e in
      rw e (
        refuses_chunks s.stream_id (write_selected S buf s u) (write_async S buf s u m),
        refuses_chunks s.stream_id (drain S s.write_fut s u) (drain_async S s u m),
        refuses_chunks s.stream_id (shutdown_selected S s u) (shutdown_async s u m),
      )

  -- What AsyncWrite answers: an error, and nothing changes.
  pub record RefusesAsync (s : SendStream) (t : Shared S) : Type 0 where
    pub write :
        (buf : List ℕ) → poll_write S buf s t ≡ (ready (err (other (protocol mixed_apis))), s, t)
    pub flush : poll_flush S s t ≡ (ready (err (other (protocol mixed_apis))), s, t)
    pub shutdown : poll_shutdown S s t ≡ (ready (err (other (protocol mixed_apis))), s, t)

  refuses_async :
      (s : SendStream) (t : Shared S) → mode_of S s.stream_id t ≡ chunks_mode → RefusesAsync s t
  unfolding poll_write poll_flush poll_shutdown
  refuses_async s t m =
      let no = refused_mode S s.stream_id chunks_mode async_mode t m refl refl in
      record { write = λ buf. rw no refl; flush = rw no refl; shutdown = rw no refl }

  chunk_selected :
      (s : SendStream) (chunk : List ℕ) (sh t : Shared S) (f : Sending)
      → write_chunk S s chunk sh ≡ ok (f, t)
      → mode_of S s.stream_id t ≡ chunks_mode
  unfolding write_chunk
  chunk_selected s chunk sh t f e =
      let (u, x, y) =
        >>=-eq-ok (select_send_mode S s.stream_id chunks_mode sh)
          (λ selected. ok (new_sending s.stream_id chunk false, selected)) e in
      subst (λ v. mode_of S s.stream_id v ≡ chunks_mode) (second u y)
        (selects S s.stream_id chunks_mode sh u x)
    where
      second :
          (u : Shared S)
          → ◌≡◌ {A = Result Error (Sending × Shared S)}
              (ok (new_sending s.stream_id chunk false, u))
              (ok (f, t))
          → u ≡ t
      second u y = cc y

  -- Once `write_chunk` has begun a write, `poll_write`, `poll_flush` and `poll_shutdown` of the handle
  -- are refused for mixing and change nothing, before and after each poll of a write.
  pub chunks_exclude_async :
      (s : SendStream) (chunk : List ℕ) (sh t : Shared S) (f g : Sending)
      → write_chunk S s chunk sh ≡ ok (f, t)
      → RefusesAsync s t × RefusesAsync s (poll_sending S g t).2
  chunks_exclude_async s chunk sh t f g e =
      let m = chunk_selected s chunk sh t f e in
      (refuses_async s t m, refuses_async s _ (poll_sending-modes S g t s.stream_id ∙ m))
