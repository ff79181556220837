-- ===== src/Endpoint/Connect.antt =====
-- Exactly when a client establishes a connection.
use muxtls.Base.{◌≡◌, sym, ◌∙◌, ◌≤◌, arith, Bool, true, false, Option, none, some, ◌↔◌, inl, inr}
use muxtls.Base.{Result, ok, ◌>>=◌, ◌>>◌, map_err, ok_or, >>=-eq-ok, >>-eq-ok, map_err-eq-ok}
use muxtls.Limits.{validate, usize_max}
use muxtls.Limits.Valid.{validate_iff}
use muxtls.Connection.Permits.{Semaphores}
use muxtls.Tls.{Text, Rustls}
use muxtls.Config
use muxtls.Config.{ClientConfig, ServerConfig, alpn_protocol}
use muxtls.Endpoint.{
  Network, client, Endpoint, Connection, Connecting, within, validate_connection_policy, connect,
  dial, finish, run_connecting,
}
use muxtls.Error.{Error, io, connection_establishment}
use mathlib.Core.Path.{subst}
use muxtls.Endpoint.Checks.{
  IsUsable, made, validate_connection_policy_iff, finish_iff, inner_cases, validate-IsUsable,
  within-eq-ok,
}

module _ (R : Rustls) (N : Network R) (S : Semaphores) where
  -- `connect`, and its future run to the end.
  abbrev pub established :
      Endpoint R N S → N.SocketAddr → Text → Bool → Result Error (Connection R N S)
  established e addr name elapsed = connect R N S addr name e >>= run_connecting R N S elapsed

  abbrev connecting : Endpoint R N S → ClientConfig R → N.SocketAddr → Text → Connecting R N S
  connecting e cfg addr name = record {
    cfg = cfg;
    limits = e.limits;
    addr = addr;
    server_name = name;
    keepalive_interval = e.keepalive_interval;
    idle_timeout = e.idle_timeout;
  }

  connect-client :
      (e : Endpoint R N S) (cfg : ClientConfig R) (addr : N.SocketAddr) (name : Text)
      → e.inner ≡ client cfg
      → connect R N S addr name e ≡ (
          validate N.max_permits e.limits
          >> (validate_connection_policy R N S e >> ok (connecting e cfg addr name)))
  unfolding connect
  connect-client e cfg addr name role = rw role

  -- The outcomes of the future under the timer.
  pub record Dials (c : Connecting R N S) (tls : N.TlsStream) : Type 0 where
    pub tcp : N.TcpStream
    pub connected : N.tcp_connect c.addr ≡ ok tcp
    pub nodelay : N.set_nodelay tcp ≡ ok tt
    pub host : R.ServerName
    pub named : R.server_name c.server_name ≡ some host
    pub shaken : N.client_handshake c.cfg.inner host tcp ≡ ok tls

  ok_or-eq-ok : {A : Type 0} (o : Option A) (e : Error) {a : A} → ok_or o e ≡ ok a → o ≡ some a
  ok_or-eq-ok none e h = absurd (cc)
  ok_or-eq-ok (some b) e h = cc

  dial_iff : (c : Connecting R N S) (tls : N.TlsStream) → (dial R N S c ≡ ok tls) ↔ Dials c tls
  unfolding dial Config.server_name
  dial_iff c tls = (
    λ h.
        let (tcp, connected, h1) = >>=-eq-ok (map_err io (N.tcp_connect c.addr)) _ h in
        let (nodelay, h2) = >>-eq-ok (map_err io (N.set_nodelay tcp)) _ h1 in
        let (host, named, h3) = >>=-eq-ok (Config.server_name R c.server_name) _ h2 in
        record {
          tcp = tcp;
          connected = map_err-eq-ok io (N.tcp_connect c.addr) connected;
          nodelay = map_err-eq-ok io (N.set_nodelay tcp) nodelay;
          host = host;
          named = ok_or-eq-ok (R.server_name c.server_name) _ named;
          shaken = map_err-eq-ok _ (N.client_handshake c.cfg.inner host tcp) h3;
        },
    λ d. rw d.connected (rw d.nodelay (rw d.named (rw d.shaken))),
  )

  -- A client endpoint that may connect, and each outcome on the way to the connection.
  pub record Connects (e : Endpoint R N S) (addr : N.SocketAddr) (name : Text) (elapsed : Bool)
      (c : Connection R N S) : Type 0 where
    pub cfg : ClientConfig R
    pub role : e.inner ≡ client cfg
    pub usable : IsUsable R N S e
    pub in_time : elapsed ≡ false
    pub tls : N.TlsStream
    pub dials : Dials (connecting e cfg addr name) tls
    pub agreed : N.negotiated tls ≡ some alpn_protocol
    pub result : c ≡ made R N S e true tls

  module _ (e : Endpoint R N S) (addr : N.SocketAddr) (name : Text) (elapsed : Bool)
      (c : Connection R N S) (wide : N.max_permits ≤ usize_max) where
    connect_sound : established e addr name elapsed ≡ ok c → Connects e addr name elapsed c
    unfolding run_connecting
    connect_sound h =
        let (conn, begun, ran) =
          >>=-eq-ok (connect R N S addr name e) (run_connecting R N S elapsed) h in
        elim (inner_cases R N S e.inner) [
          | inr (l, cfg, role) ↦ absurd (unfold connect in ground (arith, role, begun))
          | inl (cfg, role) ↦
              let (usable, valid, same) =
                validate-IsUsable R N S e (ok (connecting e cfg addr name)) wide
                  (sym (connect-client e cfg addr name role) ∙ begun) in
              let (tls, timely, finished) =
                >>=-eq-ok (within R N S elapsed connection_establishment (dial R N S conn)) _ ran in
              let (in_time, dialed) =
                within-eq-ok R N S elapsed connection_establishment (dial R N S conn) timely in
              let here : conn ≡ connecting e cfg addr name = cc same in
              let done = (finish_iff R N S e true tls c valid).0 (
                subst
                  (λ k. finish R N S k.limits true k.keepalive_interval k.idle_timeout tls ≡ ok c)
                  here finished) in
              record {
                cfg = cfg;
                role = role;
                usable = usable;
                in_time = in_time;
                tls = tls;
                dials =
                    (dial_iff (connecting e cfg addr name) tls).0
                      (subst (λ k. dial R N S k ≡ ok tls) here dialed);
                agreed = done.0;
                result = done.1;
              }
        ]

    connect_complete : Connects e addr name elapsed c → established e addr name elapsed ≡ ok c
    unfolding run_connecting
    connect_complete k =
        let valid = (validate_iff N.max_permits e.limits wide).1 k.usable.limits in
        rw (connect-client e k.cfg addr name k.role) (
          rw valid (
            rw ((validate_connection_policy_iff R N S e).1 k.usable.policy) (
              rw k.in_time (
                rw ((dial_iff (connecting e k.cfg addr name) k.tls).1 k.dials)
                  ((finish_iff R N S e true k.tls c valid).1 (k.agreed, k.result))))))

    -- Where tokio's number of permits fits `usize`, `connect` and its future give a connection exactly when
    -- the endpoint is a client, its limits are valid and its durations usable, the timer has not gone off,
    -- the name is a server name, each step of TCP and TLS succeeds in turn, and muxtls/1 was agreed on. It
    -- is then the client's new connection with these limits, durations, transport and peer certificates.
    pub connect_iff : (established e addr name elapsed ≡ ok c) ↔ Connects e addr name elapsed c
    connect_iff = (connect_sound, connect_complete)
