-- ===== src/Tls.antt =====
-- What muxtls/src/config.rs takes from rustls, rustls-native-certs, rustls-platform-verifier, rcgen and
-- the file system: their types and operations are parameters, with what their documentation promises. A
-- text, a path and a file are lists of bytes, and an error of theirs is its text.
use muxtls.Base.{ℕ, ◌≡◌, Bool, Option, List, [], ◌∷◌, ◌++◌, Result, ok}
use muxtls.Connection.Writer

abbrev pub Text : Type 0
Text = List ℕ

pub data SignatureScheme : Type 0 where
  ecdsa_nistp256_sha256 ecdsa_nistp384_sha384 ed25519 : SignatureScheme
  rsa_pss_sha256 rsa_pss_sha384 rsa_pss_sha512 : SignatureScheme
  rsa_pkcs1_sha256 rsa_pkcs1_sha384 rsa_pkcs1_sha512 : SignatureScheme

-- rustls's trait `ServerCertVerifier`. A signature stands with its scheme.
pub record ServerCertVerifier (Certificate ServerName : Type 0) : Type 0 where
  pub verify_server_cert :
      Certificate → List Certificate → ServerName → List ℕ → ℕ → Result Text (Unit {0})
  pub verify_tls12_signature :
      List ℕ → Certificate → SignatureScheme × List ℕ → Result Text (Unit {0})
  pub verify_tls13_signature :
      List ℕ → Certificate → SignatureScheme × List ℕ → Result Text (Unit {0})
  pub supported_verify_schemes : List SignatureScheme

-- How a client checks a server: `with_root_certificates` or `with_custom_certificate_verifier`.
pub data Trust (Store Verifier : Type 0) : Type 0 where
  by_roots : Store → Trust Store Verifier
  by_verifier : Verifier → Trust Store Verifier

pub record Rustls : Type 1 where
  pub Certificate : Type 0
  pub PrivateKey : Type 0
  pub ServerName : Type 0
  pub server_name : Text → Option ServerName
  -- `RootCertStore`; `anchors` are the certificates in it.
  pub RootCertStore : Type 0
  pub empty : RootCertStore
  pub add : RootCertStore → Certificate → Result Text RootCertStore
  pub anchors : RootCertStore → List Certificate
  pub is_empty : RootCertStore → Bool
  pub anchors-empty : anchors empty ≡ []
  pub anchors-add :
      (r s : RootCertStore) (c : Certificate) → add r c ≡ ok s → anchors s ≡ anchors r ++ (c ∷ [])
  pub is_empty_lem : (r : RootCertStore) → is_empty r ≡ Writer.is_empty (anchors r)
  -- `rustls::ClientConfig`: what it trusts, the chain that it presents, and its protocols.
  pub ClientTls : Type 0
  pub trust : ClientTls → Trust RootCertStore (ServerCertVerifier Certificate ServerName)
  pub client_chain : ClientTls → List Certificate
  pub client_alpn : ClientTls → List Text
  pub with_no_client_auth :
      Trust RootCertStore (ServerCertVerifier Certificate ServerName) → ClientTls
  pub with_client_auth_cert :
      Trust RootCertStore (ServerCertVerifier Certificate ServerName)
      → List Certificate
      → PrivateKey
      → Result Text ClientTls
  pub set_client_alpn : List Text → ClientTls → ClientTls
  pub no_client_auth_lem :
      (t : Trust RootCertStore (ServerCertVerifier Certificate ServerName))
      → (trust (with_no_client_auth t) ≡ t) × (client_chain (with_no_client_auth t) ≡ [])
  pub client_auth_lem :
      (t : Trust RootCertStore (ServerCertVerifier Certificate ServerName))
      (certs : List Certificate) (key : PrivateKey) (c : ClientTls)
      → with_client_auth_cert t certs key ≡ ok c
      → (trust c ≡ t) × (client_chain c ≡ certs)
  pub client_alpn_lem :
      (protocols : List Text) (c : ClientTls)
      → (client_alpn (set_client_alpn protocols c) ≡ protocols)
        × (trust (set_client_alpn protocols c) ≡ trust c)
        × (client_chain (set_client_alpn protocols c) ≡ client_chain c)
  -- `WebPkiClientVerifier`, and the certificates by which it knows a client.
  pub ClientVerifier : Type 0
  pub build_client_verifier : RootCertStore → Result Text ClientVerifier
  pub client_roots : ClientVerifier → List Certificate
  pub client_roots-build :
      (r : RootCertStore) (v : ClientVerifier)
      → build_client_verifier r ≡ ok v
      → client_roots v ≡ anchors r
  -- `rustls::ServerConfig`: the verifier of its clients, its chain, and its protocols.
  pub ServerTls : Type 0
  pub client_verifier : ServerTls → Option ClientVerifier
  pub server_chain : ServerTls → List Certificate
  pub server_alpn : ServerTls → List Text
  pub with_single_cert :
      Option ClientVerifier → List Certificate → PrivateKey → Result Text ServerTls
  pub set_server_alpn : List Text → ServerTls → ServerTls
  pub single_cert_lem :
      (v : Option ClientVerifier) (certs : List Certificate) (key : PrivateKey) (c : ServerTls)
      → with_single_cert v certs key ≡ ok c
      → (client_verifier c ≡ v) × (server_chain c ≡ certs)
  pub server_alpn_lem :
      (protocols : List Text) (c : ServerTls)
      → (server_alpn (set_server_alpn protocols c) ≡ protocols)
        × (client_verifier (set_server_alpn protocols c) ≡ client_verifier c)
        × (server_chain (set_server_alpn protocols c) ≡ server_chain c)
  -- The platform: its verifier, its roots with the errors of loading them, and its files.
  pub platform_verifier : Result Text (ServerCertVerifier Certificate ServerName)
  pub native_certs : List Certificate
  pub native_errors : List Text
  pub open_file : Text → Result Text (List ℕ)
  pub pem_certificates : List ℕ → List (Result Text Certificate)
  pub pem_private_key : List ℕ → Result Text PrivateKey
  pub generate_simple_self_signed : List Text → Result Text (Certificate × List ℕ)
  pub private_key_from_der : List ℕ → Result Text PrivateKey
