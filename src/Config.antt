-- ===== src/Config.antt =====
-- muxtls/src/config.rs: the TLS configurations of a client and of a server.
pub mod Roots
pub mod Client
pub mod Server
use muxtls.Base.{ℕ, Bool, Option, none, some, List, [], ◌∷◌}
use muxtls.Base.{Result, ok, err, ◌>>=◌, ◌>>◌, fail_if, ok_or, map_err}
use muxtls.Connection.Writer.{is_empty}
use muxtls.Error.{
  Error, io, tls, config, invalid_dns_name, ConfigMessage, no_client_certificate,
  no_server_certificate, no_certificates_in_pem, no_certificate_of, no_usable_roots,
  CertificateKind, custom_root, client_root,
}
use muxtls.Tls.{
  Text, Rustls, ServerCertVerifier, Trust, by_roots, by_verifier, SignatureScheme,
  ecdsa_nistp256_sha256, ecdsa_nistp384_sha384, ed25519, rsa_pss_sha256, rsa_pss_sha384,
  rsa_pss_sha512, rsa_pkcs1_sha256, rsa_pkcs1_sha384, rsa_pkcs1_sha512,
}

-- "muxtls/1"
abbrev pub alpn_protocol : Text
alpn_protocol = 109 ∷ 117 ∷ 120 ∷ 116 ∷ 108 ∷ 115 ∷ 47 ∷ 49 ∷ []

-- "localhost"
abbrev pub localhost : Text
localhost = 108 ∷ 111 ∷ 99 ∷ 97 ∷ 108 ∷ 104 ∷ 111 ∷ 115 ∷ 116 ∷ []

-- "127.0.0.1"
abbrev pub loopback : Text
loopback = 49 ∷ 50 ∷ 55 ∷ 46 ∷ 48 ∷ 46 ∷ 48 ∷ 46 ∷ 49 ∷ []

-- `|e| Error::Config(e.to_string())`
abbrev pub config_error : Text → Error
config_error e = config (ConfigMessage.foreign e)

abbrev pub first : List Text → Option Text
first [] = none
first (e ∷ es) = some e

-- `collect` into a result: the first error, or every value.
unfoldable pub collect {ℓ} : {A : Type ℓ} → List (Result Text A) → Result Text (List A)
collect [] = ok []
collect (r ∷ rs) = do a ← r; as' ← collect rs; ok (a ∷ as')

module _ (R : Rustls) where
  pub record ClientConfig : Type 0 where
    pub inner : R.ClientTls

  pub record ServerConfig : Type 0 where
    pub inner : R.ServerTls

  -- The loop of `native_roots` and of `root_store`.
  unfoldable pub add_all : List R.Certificate → R.RootCertStore → Result Error R.RootCertStore
  add_all [] roots = ok roots
  add_all (cert ∷ certs) roots = map_err config_error (R.add roots cert) >>= add_all certs

  unfoldable pub native_roots : Result Error R.RootCertStore
  unfolding add_all
  native_roots = do
    roots ← add_all R.native_certs R.empty
    fail_if (R.is_empty roots) (config (no_usable_roots (first R.native_errors)))
    ok roots

  unfoldable pub root_store : List R.Certificate → CertificateKind → Result Error R.RootCertStore
  unfolding add_all
  root_store certs certificate_kind = do
    fail_if (is_empty certs) (config (no_certificate_of certificate_kind))
    add_all certs R.empty

  -- The verifier that accepts whatever it is shown.
  abbrev pub insecure_no_verify : ServerCertVerifier R.Certificate R.ServerName
  insecure_no_verify = record {
    verify_server_cert = λ end_entity intermediates server_name ocsp_response now. ok tt;
    verify_tls12_signature = λ message cert dss. ok tt;
    verify_tls13_signature = λ message cert dss. ok tt;
    supported_verify_schemes =
        ecdsa_nistp256_sha256 ∷ ecdsa_nistp384_sha384 ∷ ed25519 ∷ rsa_pss_sha256 ∷ rsa_pss_sha384
        ∷ rsa_pss_sha512 ∷ rsa_pkcs1_sha256 ∷ rsa_pkcs1_sha384 ∷ rsa_pkcs1_sha512 ∷ [];
  }

  -- `config.alpn_protocols = vec![ALPN_PROTOCOL.to_vec()]`, and the wrapper.
  abbrev pub client_of : R.ClientTls → ClientConfig
  client_of c = record { inner = R.set_client_alpn (alpn_protocol ∷ []) c }

  abbrev pub server_of : R.ServerTls → ServerConfig
  server_of c = record { inner = R.set_server_alpn (alpn_protocol ∷ []) c }

  unfoldable pub with_native_roots : Result Error ClientConfig
  with_native_roots = do
    roots ← native_roots
    ok (client_of (R.with_no_client_auth (by_roots roots)))

  unfoldable pub with_platform_verifier : Result Error ClientConfig
  with_platform_verifier = do
    verifier ← map_err tls R.platform_verifier
    ok (client_of (R.with_no_client_auth (by_verifier verifier)))

  unfoldable pub with_platform_verifier_and_client_auth :
      List R.Certificate → R.PrivateKey → Result Error ClientConfig
  with_platform_verifier_and_client_auth client_certs client_key = do
    fail_if (is_empty client_certs) (config no_client_certificate)
    verifier ← map_err tls R.platform_verifier
    c ←
        map_err config_error
          (R.with_client_auth_cert (by_verifier verifier) client_certs client_key)
    ok (client_of c)

  unfoldable pub dangerous_insecure_no_verify_for_testing : ClientConfig
  dangerous_insecure_no_verify_for_testing =
      client_of (R.with_no_client_auth (by_verifier insecure_no_verify))

  unfoldable pub with_custom_roots : List R.Certificate → Result Error ClientConfig
  with_custom_roots certs = do
    roots ← root_store certs custom_root
    ok (client_of (R.with_no_client_auth (by_roots roots)))

  unfoldable pub with_roots_and_client_auth :
      R.RootCertStore → List R.Certificate → R.PrivateKey → Result Error ClientConfig
  with_roots_and_client_auth roots client_certs client_key = do
    fail_if (is_empty client_certs) (config no_client_certificate)
    c ← map_err config_error (R.with_client_auth_cert (by_roots roots) client_certs client_key)
    ok (client_of c)

  unfoldable pub with_native_roots_and_client_auth :
      List R.Certificate → R.PrivateKey → Result Error ClientConfig
  with_native_roots_and_client_auth client_certs client_key = do
    roots ← native_roots
    with_roots_and_client_auth roots client_certs client_key

  unfoldable pub with_custom_roots_and_client_auth :
      List R.Certificate → List R.Certificate → R.PrivateKey → Result Error ClientConfig
  with_custom_roots_and_client_auth roots client_certs client_key = do
    store ← root_store roots custom_root
    with_roots_and_client_auth store client_certs client_key

  unfoldable pub server_name : Text → Result Error R.ServerName
  server_name name = ok_or (R.server_name name) (invalid_dns_name name)

  unfoldable pub from_der : List R.Certificate → R.PrivateKey → Result Error ServerConfig
  from_der certs key = do
    fail_if (is_empty certs) (config no_server_certificate)
    c ← map_err config_error (R.with_single_cert none certs key)
    ok (server_of c)

  unfoldable pub from_pem_files : Text → Text → Result Error ServerConfig
  from_pem_files cert_path key_path = do
    cert_bytes ← map_err io (R.open_file cert_path)
    certs ← map_err config_error (collect (R.pem_certificates cert_bytes))
    fail_if (is_empty certs) (config no_certificates_in_pem)
    key_bytes ← map_err io (R.open_file key_path)
    key ← map_err config_error (R.pem_private_key key_bytes)
    from_der certs key

  unfoldable pub from_der_with_client_auth :
      List R.Certificate → R.PrivateKey → List R.Certificate → Result Error ServerConfig
  from_der_with_client_auth certs key client_roots = do
    fail_if (is_empty certs) (config no_server_certificate)
    store ← root_store client_roots client_root
    verifier ← map_err config_error (R.build_client_verifier store)
    c ← map_err config_error (R.with_single_cert (some verifier) certs key)
    ok (server_of c)

  unfoldable pub self_signed_for_localhost : Result Error (ServerConfig × R.Certificate)
  self_signed_for_localhost = do
    (cert, key) ← map_err config_error (R.generate_simple_self_signed (localhost ∷ loopback ∷ []))
    key_der ← map_err config_error (R.private_key_from_der key)
    cfg ← from_der (cert ∷ []) key_der
    ok (cfg, cert)
