-- ===== src/Tests/Permits.antt =====
-- Semaphores that count, for the tests.
use muxtls.Base.{
  ℕ, ◌+◌, ◌-◌, ◌<◌, ◌≤◌, ◌≡◌, refl, arith, Bool, true, false, Option, none, some, ltb,
  if◌then◌else◌,
}
use muxtls.Connection.Permits.{Semaphores}

abbrev pub try_take : ℕ × Bool → ℕ → Option (ℕ × Bool)
try_take (n, true) k = none
try_take (n, false) k = if ltb n k then none else some (n - k, false)

pub try_take-closed : (s : ℕ × Bool) (k : ℕ) → s.1 ≡ true → try_take s k ≡ none
try_take-closed (n, true) k e = refl
try_take-closed (n, false) k e = absurd (cc)

pub try_take-few : (s : ℕ × Bool) (k : ℕ) → s.0 < k → try_take s k ≡ none
try_take-few (n, true) k h = refl
try_take-few (n, false) k h = ground arith

pub try_take-enough :
    (s : ℕ × Bool) (k : ℕ)
    → s.1 ≡ false
    → k ≤ s.0
    → (t : ℕ × Bool) × (try_take s k ≡ some t) × (t.0 + k ≡ s.0) × (t.1 ≡ false)
try_take-enough (n, true) k e h = absurd (cc)
try_take-enough (n, false) k e h = ((n - k, false), ground arith, omega arith, refl)

abbrev pub counting : Semaphores
counting = record {
  Semaphore = ℕ × Bool;
  new = λ n. (n, false);
  new_available = λ n. refl;
  new_open = λ n. refl;
  try_acquire_many = try_take;
  add_permits = λ s k. (s.0 + k, s.1);
  close = λ s. (s.0, true);
  available_permits = λ s. s.0;
  is_closed = λ s. s.1;
  closed = try_take-closed;
  too_few = try_take-few;
  enough = try_take-enough;
  added = λ s k. refl;
  added_closed = λ s k. refl;
  close_closed = λ s. refl;
}
