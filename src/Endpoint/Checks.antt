-- ===== src/Endpoint/Checks.antt =====
-- When an endpoint may be used, and the last steps of establishing a connection.
use muxtls.Base.{
  ℕ, ◌≡◌, refl, ap, ◌≤◌, ◌<◌, arith, Bool, true, false, Option, none, some, [], ◌∷◌, ◌↔◌, ◌⊎◌, inl,
  inr,
}
use muxtls.Base.{Result, ok, ◌>>◌, fail_if-eq-ok, >>-eq-ok}
use muxtls.Base.Bits.{==→eq}
use muxtls.Limits.{validate, usize_max}
use muxtls.Limits.Valid.{IsValid, validate_iff}
use muxtls.Connection.Permits.{Semaphores}
use muxtls.Connection.Shared.{new_shared}
use muxtls.Tls.{Text, Rustls}
use muxtls.Config.{ClientConfig, ServerConfig, alpn_protocol}
use muxtls.Endpoint.{
  Network, EndpointInner, client, server, Endpoint, Connection, text_eq, is_other, is_bad, within,
  validate_connection_policy, new_connection, finish,
}
use muxtls.Error.{Error, Phase}

text_eq_sound : (xs ys : Text) → text_eq xs ys ≡ true → xs ≡ ys
unfolding text_eq
text_eq_sound [] [] e = refl
text_eq_sound [] (y ∷ ys) e = cc
text_eq_sound (x ∷ xs) [] e = cc
text_eq_sound (x ∷ xs) (y ∷ ys) e = ground (arith, ==→eq x y, text_eq_sound xs ys)

text_eq_self : (xs : Text) → text_eq xs xs ≡ true
unfolding text_eq
text_eq_self [] = refl
text_eq_self (x ∷ xs) = ground (arith, text_eq_self xs)

is_other_iff : (o : Option Text) → (is_other o ≡ false) ↔ (o ≡ some alpn_protocol)
is_other_iff none = (λ e. cc, λ e. cc)
is_other_iff (some p) = (
  λ e. ap some (text_eq_sound p alpn_protocol (ground arith)),
  λ e. ground (arith, text_eq_self alpn_protocol),
)

module _ (R : Rustls) (N : Network R) (S : Semaphores) where
  -- A duration that a timer can take, where there is one.
  abbrev pub IsTimer : Option ℕ → Type 0
  IsTimer none = Unit
  IsTimer (some value) = (0 < value) × (N.representable value ≡ true)

  pub record IsPolicy (e : Endpoint R N S) : Type 0 where
    pub handshake : IsTimer (some e.handshake_timeout)
    pub keepalive : IsTimer e.keepalive_interval
    pub idle : IsTimer e.idle_timeout

  is_bad_iff : (o : Option ℕ) → (is_bad R N S o ≡ false) ↔ IsTimer o
  is_bad_iff none = (λ e. tt, λ h. refl)
  is_bad_iff (some v) = (λ e. ground arith, λ h. ground arith)

  pub validate_connection_policy_iff :
      (e : Endpoint R N S) → (validate_connection_policy R N S e ≡ ok tt) ↔ IsPolicy e
  unfolding validate_connection_policy
  validate_connection_policy_iff e = (
    λ h.
        let first = fail_if-eq-ok (is_bad R N S (some e.handshake_timeout)) _ _ h in
        let second = fail_if-eq-ok (is_bad R N S e.keepalive_interval) _ _ first.1 in
        let third = fail_if-eq-ok (is_bad R N S e.idle_timeout) _ _ second.1 in
        record {
          handshake = (is_bad_iff (some e.handshake_timeout)).0 first.0;
          keepalive = (is_bad_iff e.keepalive_interval).0 second.0;
          idle = (is_bad_iff e.idle_timeout).0 third.0;
        },
    λ p. rw (
      (is_bad_iff (some e.handshake_timeout)).1 p.handshake,
      (is_bad_iff e.keepalive_interval).1 p.keepalive,
      (is_bad_iff e.idle_timeout).1 p.idle,
    ),
  )

  -- The limits and the durations of the endpoint pass.
  pub record IsUsable (e : Endpoint R N S) : Type 0 where
    pub limits : IsValid N.max_permits e.limits
    pub policy : IsPolicy e

  -- The connection over `tls` after the right protocol was agreed on.
  abbrev pub made : Endpoint R N S → Bool → N.TlsStream → Connection R N S
  made e is_client tls = record {
    shared = new_shared S e.limits is_client;
    peer_identity = N.peer_certificates tls;
    transport = tls;
    keepalive_interval = e.keepalive_interval;
    idle_timeout = e.idle_timeout;
  }

  pub finish_iff :
      (e : Endpoint R N S) (is_client : Bool) (tls : N.TlsStream) (c : Connection R N S)
      → validate N.max_permits e.limits ≡ ok tt
      → (finish R N S e.limits is_client e.keepalive_interval e.idle_timeout tls ≡ ok c)
        ↔ ((N.negotiated tls ≡ some alpn_protocol) × (c ≡ made e is_client tls))
  unfolding finish new_connection
  finish_iff e is_client tls c v = (
    λ h.
        let agreed = fail_if-eq-ok (is_other (N.negotiated tls)) _ _ h in
        let inner =
          >>-eq-ok (validate N.max_permits e.limits) (ok (made e is_client tls)) agreed.1 in
        ((is_other_iff (N.negotiated tls)).0 agreed.0, cc inner.1),
    λ (agreed, same). rw ((is_other_iff (N.negotiated tls)).1 agreed) (rw (v, same)),
  )

  pub inner_cases :
      (x : EndpointInner R N S)
      → ((cfg : ClientConfig R) × (x ≡ client cfg))
        ⊎ ((l : N.Listener) × (cfg : ServerConfig R) × (x ≡ server l cfg))
  inner_cases (client cfg) = inl (cfg, refl)
  inner_cases (server l cfg) = inr (l, cfg, refl)

  pub validate-IsUsable :
      (e : Endpoint R N S) {B : Type 0} (m : Result Error B) {b : B}
      → N.max_permits ≤ usize_max
      → (validate N.max_permits e.limits >> (validate_connection_policy R N S e >> m)) ≡ ok b
      → IsUsable e × (validate N.max_permits e.limits ≡ ok tt) × (m ≡ ok b)
  validate-IsUsable e m wide h =
      let first = >>-eq-ok (validate N.max_permits e.limits) _ h in
      let second = >>-eq-ok (validate_connection_policy R N S e) m first.1 in
      (
        record {
          limits = (validate_iff N.max_permits e.limits wide).0 first.0;
          policy = (validate_connection_policy_iff e).0 second.0;
        },
        first.0,
        second.1,
      )

  pub within-eq-ok :
      {A : Type 0} (elapsed : Bool) (phase : Phase) (r : Result Error A) {a : A}
      → within R N S elapsed phase r ≡ ok a
      → (elapsed ≡ false) × (r ≡ ok a)
  within-eq-ok true phase r h = absurd (cc)
  within-eq-ok false phase r h = (refl, h)
