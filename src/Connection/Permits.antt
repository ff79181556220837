-- ===== src/Connection/Permits.antt =====
-- tokio::sync::Semaphore, which is not part of the repository: its operations are parameters, with
-- what its documentation promises. A permit in hand is its number of permits, which `add_permits` gives
-- back when the permit is dropped.
use muxtls.Base.{ℕ, ◌+◌, ◌≤◌, ◌<◌, ◌≡◌, Bool, true, false, Option, none, some}

pub record Semaphores : Type 1 where
  pub Semaphore : Type 0
  pub new : ℕ → Semaphore
  pub try_acquire_many : Semaphore → ℕ → Option Semaphore
  pub add_permits : Semaphore → ℕ → Semaphore
  pub close : Semaphore → Semaphore
  pub available_permits : Semaphore → ℕ
  pub is_closed : Semaphore → Bool
  pub new_available : (n : ℕ) → available_permits (new n) ≡ n
  pub new_open : (n : ℕ) → is_closed (new n) ≡ false
  -- `AcquireError` once it is closed, `TryAcquireError::NoPermits` when there are too few.
  pub closed : (s : Semaphore) (n : ℕ) → is_closed s ≡ true → try_acquire_many s n ≡ none
  pub too_few : (s : Semaphore) (n : ℕ) → available_permits s < n → try_acquire_many s n ≡ none
  pub enough :
      (s : Semaphore) (n : ℕ)
      → is_closed s ≡ false
      → n ≤ available_permits s
      → (t : Semaphore) × (try_acquire_many s n ≡ some t)
        × (available_permits t + n ≡ available_permits s)
        × (is_closed t ≡ false)
  pub added :
      (s : Semaphore) (n : ℕ) → available_permits (add_permits s n) ≡ available_permits s + n
  pub added_closed : (s : Semaphore) (n : ℕ) → is_closed (add_permits s n) ≡ is_closed s
  pub close_closed : (s : Semaphore) → is_closed (close s) ≡ true
