-- ===== src/Tests/Endpoint.antt =====
-- Configurations and endpoints over a small TLS library: a certificate is a number, of which 0 is
-- refused, and a configuration is what it was made of.
use muxtls.Base.{
  ℕ, ◌-◌, ◌^◌, ◌≡◌, refl, arith, ◌↔◌, true, false, Option, none, some, List, [], ◌∷◌, ◌++◌,
}
use muxtls.Base.{Result, ok, err, ◌==◌, if◌then◌else◌}
use mathlib.Core.List.{map}
use muxtls.Limits.{
  default, validate, validate_byte_limit, validate_semaphore, validate_nonzero, minimum_controls,
}
use muxtls.Connection.Shared.{new_shared}
use muxtls.Connection.Writer
use muxtls.Tls.{Text, Rustls, ServerCertVerifier, Trust}
use muxtls.Config
use muxtls.Config.{
  ClientConfig, ServerConfig, alpn_protocol, insecure_no_verify, with_custom_roots, from_der,
}
use muxtls.Config.Client.{ClientsEnd, clients-Ends}
use muxtls.Config.Server.{ServersEnd, servers-Ends}
use muxtls.Endpoint.{
  Network, Endpoint, Connection, client, server, text_eq, connect, run_connecting, accept,
  validate_connection_policy,
}
use muxtls.Endpoint.Connect.{established, Connects, connect_iff}
use muxtls.Endpoint.Accept.{Accepts, accept_iff}
use muxtls.Endpoint.Introduce.{Introduces, ends-Introduce}
use muxtls.Tests.Permits.{counting}

abbrev Verifier : Type 0
Verifier = ServerCertVerifier ℕ Text

record Client : Type 0 where
  trust : Trust (List ℕ) Verifier
  chain : List ℕ
  alpn : List Text

record Server : Type 0 where
  verifier : Option (List ℕ)
  chain : List ℕ
  alpn : List Text

abbrev add : List ℕ → ℕ → Result Text (List ℕ)
add r c = if c == 0 then err [] else ok (r ++ (c ∷ []))

add_lem : (r s : List ℕ) (c : ℕ) → add r c ≡ ok s → s ≡ r ++ (c ∷ [])
add_lem r s c e = ground arith

abbrev client_with : Trust (List ℕ) Verifier → List ℕ → ℕ → Result Text Client
client_with t certs key =
    if key == 0 then err [] else ok (record { trust = t; chain = certs; alpn = [] })

client_lem :
    (t : Trust (List ℕ) Verifier) (certs : List ℕ) (key : ℕ) (c : Client)
    → client_with t certs key ≡ ok c
    → (c.trust ≡ t) × (c.chain ≡ certs)
client_lem t certs key c e = ground arith

abbrev server_with : Option (List ℕ) → List ℕ → ℕ → Result Text Server
server_with v certs key =
    if key == 0 then err [] else ok (record { verifier = v; chain = certs; alpn = [] })

server_lem :
    (v : Option (List ℕ)) (certs : List ℕ) (key : ℕ) (c : Server)
    → server_with v certs key ≡ ok c
    → (c.verifier ≡ v) × (c.chain ≡ certs)
server_lem v certs key c e = ground arith

abbrev build : List ℕ → Result Text (List ℕ)
build r = ok r

build_lem : (r v : List ℕ) → build r ≡ ok v → v ≡ r
build_lem r v e = cc

abbrev small_tls : Rustls
small_tls = record {
  Certificate = ℕ;
  PrivateKey = ℕ;
  ServerName = Text;
  server_name = λ name. some name;
  RootCertStore = List ℕ;
  empty = [];
  add = add;
  anchors = λ r. r;
  is_empty = Writer.is_empty;
  anchors-empty = refl;
  anchors-add = add_lem;
  is_empty_lem = λ r. refl;
  ClientTls = Client;
  trust = λ c. c.trust;
  client_chain = λ c. c.chain;
  client_alpn = λ c. c.alpn;
  with_no_client_auth = λ t. record { trust = t; chain = []; alpn = [] };
  with_client_auth_cert = client_with;
  set_client_alpn = λ a c. record c { alpn = a };
  no_client_auth_lem = λ t. (refl, refl);
  client_auth_lem = client_lem;
  client_alpn_lem = λ a c. (refl, refl, refl);
  ClientVerifier = List ℕ;
  build_client_verifier = build;
  client_roots = λ v. v;
  client_roots-build = build_lem;
  ServerTls = Server;
  client_verifier = λ c. c.verifier;
  server_chain = λ c. c.chain;
  server_alpn = λ c. c.alpn;
  with_single_cert = server_with;
  set_server_alpn = λ a c. record c { alpn = a };
  single_cert_lem = server_lem;
  server_alpn_lem = λ a c. (refl, refl, refl);
  platform_verifier = err [];
  native_certs = 8 ∷ 9 ∷ [];
  native_errors = [];
  open_file = λ path. ok path;
  pem_certificates = map ok;
  pem_private_key = λ bytes. ok 1;
  generate_simple_self_signed = λ names. ok (7, 1 ∷ []);
  private_key_from_der = λ bytes. ok 1;
}

clients-Ends_example : ClientsEnd small_tls (5 ∷ 6 ∷ []) (7 ∷ []) 1
clients-Ends_example = clients-Ends small_tls (5 ∷ 6 ∷ []) (7 ∷ []) 1

servers-Ends_example : ServersEnd small_tls (7 ∷ []) (5 ∷ 6 ∷ []) 1 (3 ∷ []) []
servers-Ends_example = servers-Ends small_tls (7 ∷ []) (5 ∷ 6 ∷ []) 1 (3 ∷ []) []

-- A stream is the chain of the peer.
abbrev small_net : Network small_tls
small_net = record {
  SocketAddr = ℕ;
  Listener = ℕ;
  TcpStream = ℕ;
  TlsStream = List ℕ;
  bind = λ addr. ok addr;
  listener_addr = λ listener. ok listener;
  tcp_accept = λ listener. ok (4, listener);
  tcp_connect = λ addr. ok addr;
  set_nodelay = λ tcp. ok tt;
  client_handshake = λ config name tcp. ok (tcp ∷ []);
  server_handshake = λ config tcp. ok (tcp ∷ []);
  negotiated = λ tls. some alpn_protocol;
  peer_certificates = λ tls. some tls;
  representable = λ value. true;
  max_permits = 2 ^ 61 - 1;
}

abbrev client_config : ClientConfig small_tls
client_config = Config.client_of small_tls (small_tls.with_no_client_auth (Trust.by_roots (5 ∷ [])))

abbrev server_config : ServerConfig small_tls
server_config = Config.server_of small_tls (record { verifier = none; chain = 5 ∷ []; alpn = [] })

abbrev caller : Endpoint small_tls small_net counting
caller = record {
  inner = client client_config;
  limits = default;
  handshake_timeout = 10;
  keepalive_interval = some 3;
  idle_timeout = none;
}

abbrev callee : Endpoint small_tls small_net counting
callee = record caller { inner = server 9 server_config }

abbrev made_by_caller : Connection small_tls small_net counting
made_by_caller = record {
  shared = new_shared counting default true;
  peer_identity = some (9 ∷ []);
  transport = 9 ∷ [];
  keepalive_interval = some 3;
  idle_timeout = none;
}

abbrev made_by_callee : Connection small_tls small_net counting
made_by_callee = record made_by_caller {
  shared = new_shared counting default false;
  peer_identity = some (4 ∷ []);
  transport = 4 ∷ [];
}

connected : established small_tls small_net counting caller 9 (5 ∷ []) false ≡ ok made_by_caller
unfolding connect run_connecting validate validate_semaphore validate_nonzero minimum_controls
    validate_byte_limit validate_connection_policy Config.server_name text_eq
connected = refl

accepted : accept small_tls small_net counting false callee ≡ ok made_by_callee
unfolding accept validate validate_semaphore validate_nonzero minimum_controls validate_byte_limit
    validate_connection_policy text_eq
accepted = refl

connect_iff_example :
    (established small_tls small_net counting caller 9 (5 ∷ []) false ≡ ok made_by_caller)
    ↔ Connects small_tls small_net counting caller 9 (5 ∷ []) false made_by_caller
connect_iff_example =
    connect_iff small_tls small_net counting caller 9 (5 ∷ []) false made_by_caller (omega arith)

accept_iff_example :
    (accept small_tls small_net counting false callee ≡ ok made_by_callee)
    ↔ Accepts small_tls small_net counting callee false made_by_callee
accept_iff_example =
    accept_iff small_tls small_net counting callee false made_by_callee (omega arith)

ends-Introduce_example :
    Introduces counting made_by_caller.shared made_by_callee.shared
    × Introduces counting made_by_callee.shared made_by_caller.shared
ends-Introduce_example =
    ends-Introduce small_tls small_net counting caller callee 9 (5 ∷ []) false false made_by_caller
      made_by_callee (omega arith) connected accepted
