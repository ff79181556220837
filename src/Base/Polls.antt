-- ===== src/Base/Polls.antt =====
-- std::task::Poll, and the polls of a step that may have to wait.
pub data Poll {ℓ} (A : Type ℓ) : Type ℓ where
  ready : A → Poll A
  pending : Poll A
