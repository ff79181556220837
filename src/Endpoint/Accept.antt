-- ===== src/Endpoint/Accept.antt =====
-- Exactly when a server establishes a connection.
use muxtls.Base.{◌≡◌, sym, ◌∙◌, ◌≤◌, Bool, false, some, ◌↔◌, inl, inr}
use muxtls.Base.{ok, ◌>>◌, map_err, >>=-eq-ok, >>-eq-ok, map_err-eq-ok}
use muxtls.Limits.{validate, usize_max}
use muxtls.Limits.Valid.{validate_iff}
use muxtls.Connection.Permits.{Semaphores}
use muxtls.Tls.{Rustls}
use muxtls.Config.{ServerConfig, alpn_protocol}
use muxtls.Endpoint.{
  Network, server, Endpoint, Connection, within, validate_connection_policy, accept, accept_one,
}
use muxtls.Error.{io, Phase}
use muxtls.Endpoint.Checks.{
  IsUsable, made, validate_connection_policy_iff, finish_iff, inner_cases, validate-IsUsable,
  within-eq-ok,
}

module _ (R : Rustls) (N : Network R) (S : Semaphores) where
  -- A server endpoint that may accept, and each outcome on the way to the connection.
  pub record Accepts (e : Endpoint R N S) (elapsed : Bool) (c : Connection R N S) : Type 0 where
    pub listener : N.Listener
    pub cfg : ServerConfig R
    pub role : e.inner ≡ server listener cfg
    pub usable : IsUsable R N S e
    pub in_time : elapsed ≡ false
    pub tcp : N.TcpStream × N.SocketAddr
    pub came : N.tcp_accept listener ≡ ok tcp
    pub nodelay : N.set_nodelay tcp.0 ≡ ok tt
    pub tls : N.TlsStream
    pub shaken : N.server_handshake cfg.inner tcp.0 ≡ ok tls
    pub agreed : N.negotiated tls ≡ some alpn_protocol
    pub result : c ≡ made R N S e false tls

  accept-server :
      (e : Endpoint R N S) (elapsed : Bool) (listener : N.Listener) (cfg : ServerConfig R)
      → e.inner ≡ server listener cfg
      → accept R N S elapsed e ≡ (
          validate N.max_permits e.limits
          >> (validate_connection_policy R N S e >> accept_one R N S elapsed listener cfg e))
  unfolding accept
  accept-server e elapsed listener cfg role = rw role

  module _ (e : Endpoint R N S) (elapsed : Bool) (c : Connection R N S)
      (wide : N.max_permits ≤ usize_max) where
    accept_sound : accept R N S elapsed e ≡ ok c → Accepts e elapsed c
    unfolding accept_one
    accept_sound h = elim (inner_cases R N S e.inner) [
      | inl (cfg, role) ↦ absurd (unfold accept in cc (rw role at h))
      | inr (listener, cfg, role) ↦
          let (usable, valid, h1) =
            validate-IsUsable R N S e (accept_one R N S elapsed listener cfg e) wide
              (sym (accept-server e elapsed listener cfg role) ∙ h) in
          let (tcp, came, h2) = >>=-eq-ok (map_err io (N.tcp_accept listener)) _ h1 in
          let (nodelay, h3) = >>-eq-ok (map_err io (N.set_nodelay tcp.0)) _ h2 in
          let (tls, timely, finished) = >>=-eq-ok (within R N S elapsed Phase.handshake _) _ h3 in
          let (in_time, shaken) = within-eq-ok R N S elapsed Phase.handshake _ timely in
          let done = (finish_iff R N S e false tls c valid).0 finished in
          record {
            listener = listener;
            cfg = cfg;
            role = role;
            usable = usable;
            in_time = in_time;
            tcp = tcp;
            came = map_err-eq-ok io (N.tcp_accept listener) came;
            nodelay = map_err-eq-ok io (N.set_nodelay tcp.0) nodelay;
            tls = tls;
            shaken = map_err-eq-ok _ (N.server_handshake cfg.inner tcp.0) shaken;
            agreed = done.0;
            result = done.1;
          }
    ]

    accept_one-ok : (k : Accepts e elapsed c) → accept_one R N S elapsed k.listener k.cfg e ≡ ok c
    unfolding accept_one
    accept_one-ok k =
        let valid = (validate_iff N.max_permits e.limits wide).1 k.usable.limits in
        rw k.came (
          rw k.nodelay (
            rw k.in_time
              (rw k.shaken ((finish_iff R N S e false k.tls c valid).1 (k.agreed, k.result)))))

    accept_complete : Accepts e elapsed c → accept R N S elapsed e ≡ ok c
    accept_complete k = rw (accept-server e elapsed k.listener k.cfg k.role) (
        rw ((validate_iff N.max_permits e.limits wide).1 k.usable.limits)
          (rw ((validate_connection_policy_iff R N S e).1 k.usable.policy) (accept_one-ok k)))

    -- Where tokio's number of permits fits `usize`, `accept` gives a connection exactly when the endpoint
    -- is a server, its limits are valid and its durations usable, a TCP connection came in and takes
    -- TCP_NODELAY, the TLS handshake succeeds before the timer goes off, and muxtls/1 was agreed on. It is
    -- then the server's new connection with these limits, durations, transport and peer certificates.
    pub accept_iff : (accept R N S elapsed e ≡ ok c) ↔ Accepts e elapsed c
    accept_iff = (accept_sound, accept_complete)
