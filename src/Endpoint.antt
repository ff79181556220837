-- ===== src/Endpoint.antt =====
-- muxtls/src/endpoint.rs: endpoints, and how they establish a connection. A duration is its number of
-- nanoseconds.
pub mod Checks
pub mod Connect
pub mod Accept
pub mod Introduce
use muxtls.Base.{ℕ, Bool, true, false, not, ◌&&◌, ◌||◌, Option, none, some, List, [], ◌∷◌}
use muxtls.Base.{Result, ok, err, ◌>>=◌, ◌>>◌, fail_if, map_err, ◌==◌, if◌then◌else◌}
use muxtls.Limits.{Limits, from_secs, validate, default}
use muxtls.Connection.Permits.{Semaphores}
use muxtls.Connection.Shared.{Shared, new_shared}
use muxtls.Tls.{Text, Rustls}
use muxtls.Config
use muxtls.Config.{ClientConfig, ServerConfig, alpn_protocol}
use muxtls.Error.{
  Error, io, tls_handshake, HandshakeMessage, no_alpn, bad_duration, Setting, Phase,
  connection_establishment, endpoint_role, Role, local_addr_on_server, connect_on_client,
  accept_on_server,
}

-- What the code takes from tokio and tokio-rustls. A field is the outcome of the operation, which the
-- code calls once on each way through it.
pub record Network (R : Rustls) : Type 1 where
  pub SocketAddr : Type 0
  pub Listener : Type 0
  pub TcpStream : Type 0
  pub TlsStream : Type 0
  pub bind : SocketAddr → Result Text Listener
  pub listener_addr : Listener → Result Text SocketAddr
  pub tcp_accept : Listener → Result Text (TcpStream × SocketAddr)
  pub tcp_connect : SocketAddr → Result Text TcpStream
  pub set_nodelay : TcpStream → Result Text (Unit {0})
  pub client_handshake : R.ClientTls → R.ServerName → TcpStream → Result Text TlsStream
  pub server_handshake : R.ServerTls → TcpStream → Result Text TlsStream
  -- What the handshake agreed on, and the chain of the peer.
  pub negotiated : TlsStream → Option Text
  pub peer_certificates : TlsStream → Option (List R.Certificate)
  -- `Instant::now().checked_add(value).is_some()`
  pub representable : ℕ → Bool
  -- `Semaphore::MAX_PERMITS`
  pub max_permits : ℕ

-- `expected` is equal to the text.
unfoldable pub text_eq : Text → Text → Bool
text_eq [] [] = true
text_eq (x ∷ xs) (y ∷ ys) = x == y && text_eq xs ys
text_eq [] (y ∷ ys) = false
text_eq (x ∷ xs) [] = false

-- `!= Some(ALPN_PROTOCOL)`
abbrev pub is_other : Option Text → Bool
is_other none = true
is_other (some protocol) = not (text_eq protocol alpn_protocol)

module _ (R : Rustls) (N : Network R) (S : Semaphores) where
  pub data EndpointInner : Type 0 where
    client : ClientConfig R → EndpointInner
    server : N.Listener → ServerConfig R → EndpointInner

  pub record Endpoint : Type 0 where
    pub inner : EndpointInner
    pub limits : Limits
    pub handshake_timeout : ℕ
    pub keepalive_interval : Option ℕ
    pub idle_timeout : Option ℕ

  -- A connection with what its tasks are given.
  pub record Connection : Type 0 where
    pub shared : Shared S
    pub peer_identity : Option (List R.Certificate)
    pub transport : N.TlsStream
    pub keepalive_interval : Option ℕ
    pub idle_timeout : Option ℕ

  abbrev pub default_handshake_timeout : ℕ
  default_handshake_timeout = from_secs 10

  unfoldable pub client_endpoint : ClientConfig R → Endpoint
  client_endpoint config = record {
    inner = client config;
    limits = default;
    handshake_timeout = default_handshake_timeout;
    keepalive_interval = none;
    idle_timeout = none;
  }

  unfoldable pub server_endpoint : N.SocketAddr → ServerConfig R → Result Error Endpoint
  server_endpoint addr config = do
    listener ← map_err io (N.bind addr)
    ok (record {
      inner = server listener config;
      limits = default;
      handshake_timeout = default_handshake_timeout;
      keepalive_interval = none;
      idle_timeout = none;
    })

  unfoldable pub with_limits : Limits → Endpoint → Endpoint
  with_limits limits e = record e { limits = limits }

  unfoldable pub with_handshake_timeout : ℕ → Endpoint → Endpoint
  with_handshake_timeout timeout e = record e { handshake_timeout = timeout }

  unfoldable pub with_keepalive_interval : ℕ → Endpoint → Endpoint
  with_keepalive_interval interval e = record e { keepalive_interval = some interval }

  unfoldable pub with_idle_timeout : ℕ → Endpoint → Endpoint
  with_idle_timeout timeout e = record e { idle_timeout = some timeout }

  unfoldable pub local_addr : Endpoint → Result Error N.SocketAddr
  local_addr e = elim e.inner [
    | client config ↦ err (endpoint_role local_addr_on_server)
    | server listener config ↦ map_err io (N.listener_addr listener)
  ]

  -- The test of one duration.
  abbrev pub is_bad : Option ℕ → Bool
  is_bad none = false
  is_bad (some value) = value == 0 || not (N.representable value)

  unfoldable pub check_durations : List (Setting × Option ℕ) → Result Error (Unit {0})
  check_durations [] = ok tt
  check_durations ((name, value) ∷ rest) =
      fail_if (is_bad value) (Error.config (bad_duration name)) >> check_durations rest

  unfoldable pub validate_connection_policy : Endpoint → Result Error (Unit {0})
  unfolding check_durations
  validate_connection_policy e = check_durations (
      (Setting.handshake_timeout, some e.handshake_timeout)
      ∷ (Setting.keepalive_interval, e.keepalive_interval)
      ∷ (Setting.idle_timeout, e.idle_timeout)
      ∷ [])

  -- `Connection::new`.
  unfoldable pub new_connection :
      N.TlsStream
      → Limits
      → Bool
      → Option (List R.Certificate)
      → Option ℕ
      → Option ℕ
      → Result Error Connection
  new_connection stream limits is_client peer_certificates keepalive_interval idle_timeout = do
    validate N.max_permits limits
    ok (record {
      shared = new_shared S limits is_client;
      peer_identity = peer_certificates;
      transport = stream;
      keepalive_interval = keepalive_interval;
      idle_timeout = idle_timeout;
    })

  -- `tokio::time::timeout`: the inner future's result, or `elapsed`.
  abbrev pub within : {A : Type 0} → Bool → Phase → Result Error A → Result Error A
  within elapsed phase r = if elapsed then err (Error.timeout phase) else r

  -- What the future of `connect` holds.
  pub record Connecting : Type 0 where
    pub cfg : ClientConfig R
    pub limits : Limits
    pub addr : N.SocketAddr
    pub server_name : Text
    pub keepalive_interval : Option ℕ
    pub idle_timeout : Option ℕ

  unfoldable pub connect : N.SocketAddr → Text → Endpoint → Result Error Connecting
  connect addr server_name e = elim e.inner [
    | server listener config ↦ err (endpoint_role connect_on_client)
    | client config ↦
        validate N.max_permits e.limits
        >> (validate_connection_policy e
            >> ok (record {
              cfg = config;
              limits = e.limits;
              addr = addr;
              server_name = server_name;
              keepalive_interval = e.keepalive_interval;
              idle_timeout = e.idle_timeout;
            }))
  ]

  -- The future under the timer.
  unfoldable pub dial : Connecting → Result Error N.TlsStream
  dial c = do
    tcp ← map_err io (N.tcp_connect c.addr)
    map_err io (N.set_nodelay tcp)
    name ← Config.server_name R c.server_name
    map_err (λ e. tls_handshake (HandshakeMessage.foreign e))
        (N.client_handshake c.cfg.inner name tcp)

  -- The ALPN check, and the connection.
  unfoldable pub finish :
      Limits → Bool → Option ℕ → Option ℕ → N.TlsStream → Result Error Connection
  unfolding new_connection
  finish limits is_client keepalive_interval idle_timeout tls = do
    fail_if (is_other (N.negotiated tls)) (tls_handshake no_alpn)
    new_connection tls limits is_client (N.peer_certificates tls) keepalive_interval idle_timeout

  -- `elapsed`: the handshake timer goes off first.
  unfoldable pub run_connecting : Bool → Connecting → Result Error Connection
  unfolding dial finish
  run_connecting elapsed c = do
    tls ← within elapsed connection_establishment (dial c)
    finish c.limits true c.keepalive_interval c.idle_timeout tls

  -- What follows the checks of `accept`.
  unfoldable pub accept_one :
      Bool → N.Listener → ServerConfig R → Endpoint → Result Error Connection
  unfolding finish
  accept_one elapsed listener config e = do
    (tcp, peer) ← map_err io (N.tcp_accept listener)
    map_err io (N.set_nodelay tcp)
    tls ← within elapsed Phase.handshake (
        map_err (λ x. tls_handshake (HandshakeMessage.foreign x))
          (N.server_handshake config.inner tcp))
    finish e.limits false e.keepalive_interval e.idle_timeout tls

  unfoldable pub accept : Bool → Endpoint → Result Error Connection
  unfolding accept_one
  accept elapsed e = elim e.inner [
    | client config ↦ err (endpoint_role accept_on_server)
    | server listener config ↦
        validate N.max_permits e.limits
        >> (validate_connection_policy e >> accept_one elapsed listener config e)
  ]
