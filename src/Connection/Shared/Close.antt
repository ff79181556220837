-- ===== src/Connection/Shared/Close.antt =====
-- The reason of a close frame always fits the frame size.
use muxtls.Base.{
  ℕ, ◌≤◌, ◌≡◌, refl, arith, true, false, List, [], Result, ok, err, Bool-cases, inl, inr,
}
use muxtls.Proto.VarInt.{IsVarInt, from_u64}
use muxtls.Proto.VarInt.Decode.{encoded_len-le}
use muxtls.Proto.Frame.{checked_var_int}
use muxtls.Limits.{min_frame_size}
use muxtls.Connection.Shared.{validate_close_reason, fit_close_reason, fallback_reason, is_ok}
use muxtls.Error.{Error}

ok_unit : (m : Result Error (Unit {0})) → is_ok m ≡ true → m ≡ ok tt
ok_unit (ok tt) e = refl
ok_unit (err x) e = absurd (cc)

not_ok : (m : Result Error (Unit {0})) → is_ok m ≡ false → ¬ (m ≡ ok tt)
not_ok (ok tt) e v = absurd (cc)
not_ok (err x) e v = absurd (cc)

empty_fits :
    (max_frame_size code : ℕ)
    → IsVarInt code
    → min_frame_size ≤ max_frame_size
    → validate_close_reason max_frame_size code [] ≡ ok tt
unfolding validate_close_reason checked_var_int from_u64
empty_fits m code h le = ground (arith, encoded_len-le code, encoded_len-le 0)

-- For a code that the wire carries and a valid frame size, fit_close_reason gives a reason that passes
-- validate_close_reason, and it is the given one wherever that passes.
pub fit_close_reason-valid :
    (max_frame_size code : ℕ) (reason : List ℕ)
    → IsVarInt code
    → min_frame_size ≤ max_frame_size
    → (fitted : List ℕ) × (fit_close_reason max_frame_size code reason ≡ ok fitted)
      × (validate_close_reason max_frame_size code fitted ≡ ok tt)
      × (validate_close_reason max_frame_size code reason ≡ ok tt → fitted ≡ reason)
unfolding fit_close_reason
fit_close_reason-valid m code reason h le =
    elim (Bool-cases (is_ok (validate_close_reason m code reason))) [
      | inl e ↦ rw e (reason, refl, ok_unit _ e, λ v. refl)
      | inr e ↦ elim (Bool-cases (is_ok (validate_close_reason m code fallback_reason))) [
        | inl f ↦ rw (e, f) (fallback_reason, refl, ok_unit _ f, λ v. absurd (not_ok _ e v))
        | inr f ↦
            rw (e, f, empty_fits m code h le)
              ([], refl, empty_fits m code h le, λ v. absurd (not_ok _ e v))
      ]
    ]
