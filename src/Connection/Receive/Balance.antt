-- ===== src/Connection/Receive/Balance.antt =====
-- Windows, permits and buffers agree: why a peer within its credit never meets a refused permit.
use muxtls.Base.{ℕ, ◌+◌, ◌-◌, ◌^◌, ◌%◌, ◌≤◌, ◌<◌, ◌≡◌, ◌∙◌, refl, arith, false}
use muxtls.Base.{ok, inl, inr, ◌==◌, Bool-cases}
use muxtls.Flow.{ReceiveWindow, receive, consume, update}
use muxtls.Flow.Invariant.{IsWindow, receive-IsWindow, consume-IsWindow, update-IsWindow}
use muxtls.Connection.Permits.{Semaphores}
use muxtls.Connection.Receive.{Receiving, push_inbound, push_acquired, consume_chunk, store}
use muxtls.Connection.Receive
use muxtls.Error.{Error}

-- A window and a semaphore of its size: `arriving` bytes are received and not yet stored, `held` bytes
-- are stored or in the hands of the application.
receive_adds :
    (w : ReceiveWindow) {v : ReceiveWindow} (size : ℕ)
    → receive w size ≡ ok v
    → (v.received ≡ w.received + size) × (v.consumed ≡ w.consumed) × (v.window ≡ w.window)
unfolding receive
receive_adds w size e = ground arith

consume_adds :
    (w : ReceiveWindow) (size : ℕ)
    → w.consumed + size < 2 ^ 64
    → ((consume w size).0.received ≡ w.received)
      × ((consume w size).0.consumed ≡ w.consumed + size)
      × ((consume w size).0.window ≡ w.window)
unfolding consume
consume_adds w size h = ground arith

module _ (S : Semaphores) where
  open S use {Semaphore, add_permits, try_acquire_many, available_permits, is_closed}

  pub record IsCharged (w : ReceiveWindow) (s : Semaphore) (arriving held : ℕ) : Type 0 where
    pub window : IsWindow w
    pub counted : w.received ≡ w.consumed + (arriving + held)
    pub permits : available_permits s + held ≡ w.window
    pub opened : is_closed s ≡ false

  pub receive-IsCharged :
      {w v : ReceiveWindow} {s : Semaphore} {held : ℕ} (size : ℕ)
      → IsCharged w s 0 held
      → receive w size ≡ ok v
      → IsCharged v s size held
  receive-IsCharged {w} size h e =
      let (a, b, c) = receive_adds w size e in
      record {
        window = receive-IsWindow size h.window e;
        counted = omega (arith, h.counted);
        permits = omega (arith, h.permits);
        opened = h.opened;
      }

  -- The permits of what was charged are there.
  pub acquire-IsCharged :
      {w : ReceiveWindow} {s : Semaphore} {held : ℕ} (size : ℕ) (error : Error)
      → IsCharged w s size held
      → (t : Semaphore) × (Receive.acquire S s size error ≡ ok t) × IsCharged w t 0 (held + size)
  acquire-IsCharged {w} {s} {held} size error h = elim (Bool-cases (size == 0)) [
    | inl e ↦ rw e (
      s,
      refl,
      record {
        window = h.window;
        counted = ground (arith, h.counted);
        permits = ground (arith, h.permits);
        opened = h.opened;
      },
    )
    | inr e ↦
        let (t, got, left, open_still) = S.enough s (size % 2 ^ 32) h.opened (
          omega (
            arith, h.permits, h.counted, h.window.authorized, h.window.announced, h.window.small,
          )) in
        rw (e, got)
          (
            t,
            refl,
            record {
              window = h.window;
              counted = omega (arith, h.counted);
              permits = omega (
                arith, left, h.permits, h.counted, h.window.authorized, h.window.announced,
                h.window.small,
              );
              opened = open_still;
            },
          )
  ]

  pub consume-IsCharged :
      {w : ReceiveWindow} {s : Semaphore} {held : ℕ} (size : ℕ)
      → IsCharged w s 0 held
      → size ≤ held
      → IsCharged (consume w size).0 (add_permits s size) 0 (held - size)
  consume-IsCharged {w} {s} size h le =
      let (a, b, c) =
        consume_adds w size (omega (arith, h.counted, h.window.authorized, h.window.bounded)) in
      record {
        window = consume-IsWindow size h.window (omega (arith, h.counted));
        counted = omega (arith, h.counted);
        permits = omega (arith, h.permits, S.added s size);
        opened = S.added_closed s size ∙ h.opened;
      }

  pub update-IsCharged :
      {w : ReceiveWindow} {s : Semaphore} {held : ℕ}
      → IsCharged w s 0 held
      → IsCharged (update w).0 s 0 held
  update-IsCharged {w} h = record {
    window = update-IsWindow h.window;
    counted = unfold update in ground (arith, h.counted);
    permits = unfold update in ground (arith, h.permits);
    opened = h.opened;
  }
