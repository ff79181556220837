-- ===== src/Config/Server.antt =====
-- What the configurations of a server present and offer, and by which roots they know a client.
use muxtls.Base.{
  Result, >>=-eq-ok, ℕ, ◌≡◌, refl, ap, ◌∙◌, false, Option, none, some, List, [], ◌∷◌, ◌⊎◌, inl, inr,
}
use muxtls.Base.{ok, err, ◌>>=◌, map_err, Ends, Ends-seq, Ends-map_err, Ends-fail_if, Ends-mono}
use muxtls.Connection.Writer.{is_empty}
use mathlib.Core.List.{map}
use muxtls.Error.{Error, config, io, no_certificates_in_pem, no_server_certificate, client_root}
use muxtls.Tls.{Text, Rustls}
use muxtls.Config.{
  ServerConfig, alpn_protocol, config_error, server_of, root_store, from_der,
  from_der_with_client_auth, from_pem_files, self_signed_for_localhost, collect, localhost,
  loopback,
}
use muxtls.Config.Roots.{RootsFail, FromList, root_store-Ends, nil_of_empty}

module _ (R : Rustls) where
  -- The configuration offers muxtls/1 and nothing else, asks clients as `v` says, and presents `chain`.
  pub record IsServer (v : Option R.ClientVerifier) (chain : List R.Certificate)
      (c : ServerConfig R) : Type 0 where
    pub alpn : R.server_alpn c.inner ≡ alpn_protocol ∷ []
    pub asks : R.client_verifier c.inner ≡ v
    pub presents : R.server_chain c.inner ≡ chain

  -- Clients are known by exactly these roots.
  abbrev pub KnowsRoots : List R.Certificate → List R.Certificate → ServerConfig R → Type 0
  KnowsRoots roots chain c =
      (v : R.ClientVerifier) × IsServer (some v) chain c
      × (R.client_roots v ≡ roots)
      × (is_empty roots ≡ false)

  -- No certificate was given, or rustls refused the chain or the key.
  abbrev pub ChainFail : List R.Certificate → R.PrivateKey → Error → Type 0
  ChainFail certs key e =
      ((certs ≡ []) × (e ≡ config no_server_certificate))
      ⊎ ((v : Option R.ClientVerifier) × (text : Text) × (R.with_single_cert v certs key ≡ err text)
          × (e ≡ config_error text))

  abbrev pub VerifierFail : List R.Certificate → Error → Type 0
  VerifierFail roots e =
      (store : R.RootCertStore) × (text : Text) × (R.anchors store ≡ roots)
      × (R.build_client_verifier store ≡ err text)
      × (e ≡ config_error text)

  single_cert :
      (v : Option R.ClientVerifier) (certs : List R.Certificate) (key : R.PrivateKey)
      → Ends
          (IsServer v certs)
          (ChainFail certs key)
          (map_err config_error (R.with_single_cert v certs key) >>= λ c. ok (server_of R c))
  single_cert v certs key =
      Ends-map_err (IsServer v certs) (ChainFail certs key) config_error
        (R.with_single_cert v certs key) (λ c. ok (server_of R c))
        (λ c e.
          let kept = R.server_alpn_lem (alpn_protocol ∷ []) c in
          let made = R.single_cert_lem v certs key c e in
          record { alpn = kept.0; asks = kept.1 ∙ made.0; presents = kept.2 ∙ made.1 })
        (λ text e. inr (v, text, e, refl))

  abbrev Fails : List R.Certificate → List R.Certificate → R.PrivateKey → Error → Type 0
  Fails roots certs key e =
      ChainFail certs key e ⊎ (RootsFail R roots client_root e ⊎ VerifierFail roots e)

  known :
      (roots certs : List R.Certificate) (key : R.PrivateKey) (store : R.RootCertStore)
      → FromList R roots store
      → Ends (KnowsRoots roots certs) (Fails roots certs key) (
          map_err config_error (R.build_client_verifier store) >>= λ v.
          map_err config_error (R.with_single_cert (some v) certs key) >>= λ c. ok (server_of R c))
  known roots certs key store h =
      Ends-map_err (KnowsRoots roots certs) (Fails roots certs key) config_error
        (R.build_client_verifier store) _
        (λ v e.
          Ends-mono (IsServer (some v) certs) (KnowsRoots roots certs) (ChainFail certs key)
            (Fails roots certs key) _ (λ c p. (v, p, R.client_roots-build store v e ∙ h.0, h.1))
            (λ e' q. inl q) (single_cert (some v) certs key))
        (λ text e. inr (inr (store, text, h.0, e, refl)))

  -- The files that a server is read from: what they hold, or the first thing that is wrong with them.
  abbrev pub FromPem : Text → ServerConfig R → Type 0
  FromPem cert_path c =
      (bytes : List ℕ) × (certs : List R.Certificate) × (R.open_file cert_path ≡ ok bytes)
      × (R.pem_certificates bytes ≡ map ok certs)
      × (is_empty certs ≡ false)
      × IsServer none certs c

  abbrev pub PemFail : Text → Text → Error → Type 0
  PemFail cert_path key_path e =
      ((text : Text) × (e ≡ io text)
        × ((R.open_file cert_path ≡ err text) ⊎ (R.open_file key_path ≡ err text)))
      ⊎ (((text : Text) × (e ≡ config_error text))
          ⊎ ((e ≡ config no_certificates_in_pem)
              × ((bytes : List ℕ) × (R.open_file cert_path ≡ ok bytes)
                  × (R.pem_certificates bytes ≡ []))))

  pub collect-eq-ok :
      (rs : List (Result Text R.Certificate)) {certs : List R.Certificate}
      → collect rs ≡ ok certs
      → rs ≡ map ok certs
  unfolding collect
  collect-eq-ok [] h = cc
  collect-eq-ok (ok c ∷ rs) h =
      let (cs, e, f) = >>=-eq-ok (collect rs) _ h in let tail = collect-eq-ok rs e in cc
  collect-eq-ok (err text ∷ rs) h = absurd (cc)

  from_der-Ends :
      (certs : List R.Certificate) (key : R.PrivateKey)
      → Ends (IsServer none certs) (ChainFail certs key) (from_der R certs key)
  unfolding from_der
  from_der-Ends certs key =
      Ends-fail_if (IsServer none certs) (ChainFail certs key) (is_empty certs) _ _
        (λ some_given. single_cert none certs key)
        (λ none_given. inl (nil_of_empty certs none_given, refl))

  -- With a certificate given, only the text of rustls is left.
  only_text :
      (certs : List R.Certificate) (key : R.PrivateKey) (e : Error)
      → is_empty certs ≡ false
      → ChainFail certs key e
      → (text : Text) × (e ≡ config_error text)
  only_text certs key e given (inl (none_given, _)) = absurd (cc (ap is_empty none_given))
  only_text certs key e given (inr (v, text, _, same)) = (text, same)

  from_pem_files-Ends :
      (cert_path key_path : Text)
      → Ends (FromPem cert_path) (PemFail cert_path key_path) (from_pem_files R cert_path key_path)
  unfolding from_pem_files
  from_pem_files-Ends cert_path key_path =
      Ends-map_err P Q io (R.open_file cert_path) _
        (λ bytes opened.
          Ends-map_err P Q config_error (collect (R.pem_certificates bytes)) _
            (λ certs collected.
              Ends-fail_if P Q (is_empty certs) _ _
                (λ given.
                  Ends-map_err P Q io (R.open_file key_path) _
                    (λ key_bytes _.
                      Ends-map_err P Q config_error (R.pem_private_key key_bytes) _
                        (λ key _.
                          Ends-mono (IsServer none certs) P (ChainFail certs key) Q _
                            (λ c p. (bytes, certs, opened, collect-eq-ok _ collected, given, p))
                            (λ e q. inr (inl (only_text certs key e given q)))
                            (from_der-Ends certs key))
                        (λ text _. inr (inl (text, refl))))
                    (λ text failed. inl (text, refl, inr failed)))
                (λ none_given. inr (
                  inr (
                    refl,
                    (
                      bytes,
                      opened,
                      collect-eq-ok _ collected ∙ ap (map ok) (nil_of_empty certs none_given),
                    ),
                  ))))
            (λ text _. inr (inl (text, refl))))
        (λ text failed. inl (text, refl, inl failed))
    where
      P : ServerConfig R → Type 0
      P = FromPem cert_path

      Q : Error → Type 0
      Q = PemFail cert_path key_path

  self_signed_for_localhost-Ends :
      Ends
        (λ r. IsServer none (r.1 ∷ []) r.0)
        (λ e. (text : Text) × (e ≡ config_error text))
        (self_signed_for_localhost R)
  unfolding self_signed_for_localhost
  self_signed_for_localhost-Ends =
      Ends-map_err P Q config_error (R.generate_simple_self_signed (localhost ∷ loopback ∷ [])) _
        (λ r _.
          Ends-map_err P Q config_error (R.private_key_from_der r.1) _
            (λ key _.
              Ends-seq (IsServer none (r.0 ∷ [])) (ChainFail (r.0 ∷ []) key) P Q
                (from_der R (r.0 ∷ []) key) _ (from_der-Ends (r.0 ∷ []) key) (λ c p. p)
                (λ e q. only_text (r.0 ∷ []) key e refl q))
            (λ text _. (text, refl)))
        (λ text _. (text, refl))
    where
      P : ServerConfig R × R.Certificate → Type 0
      P r = IsServer none (r.1 ∷ []) r.0

      Q : Error → Type 0
      Q e = (text : Text) × (e ≡ config_error text)

  abbrev pub ServersEnd :
      List R.Certificate → List R.Certificate → R.PrivateKey → Text → Text → Type 0
  ServersEnd certs roots key cert_path key_path =
      Ends (IsServer none certs) (ChainFail certs key) (from_der R certs key)
      × Ends (KnowsRoots roots certs)
          (λ e. ChainFail certs key e ⊎ (RootsFail R roots client_root e ⊎ VerifierFail roots e))
          (from_der_with_client_auth R certs key roots)
      × Ends (FromPem cert_path) (PemFail cert_path key_path) (from_pem_files R cert_path key_path)
      × Ends (λ r. IsServer none (r.1 ∷ []) r.0) (λ e. (text : Text) × (e ≡ config_error text))
          (self_signed_for_localhost R)

  -- Every server offers muxtls/1 only and presents exactly the chain that it is given, that its file holds,
  -- or that was made for it. Without client roots it asks no client for a certificate; with them it verifies
  -- clients by exactly those roots, of which there is one at least. `from_der` and its variant with client
  -- roots fail only where a list that they need is empty, with the error for that list, or where rustls
  -- refuses a root, the verifier, the chain or the key, with the text of rustls. `from_pem_files` fails only
  -- with the error of a file that cannot be opened, for want of a certificate in the file, or with a text of
  -- another library, and the self-signed server only with such a text.
  pub servers-Ends :
      (certs roots : List R.Certificate) (key : R.PrivateKey) (cert_path key_path : Text)
      → ServersEnd certs roots key cert_path key_path
  unfolding from_der_with_client_auth
  servers-Ends certs roots key cert_path key_path = (
    from_der-Ends certs key,
    Ends-fail_if (KnowsRoots roots certs) (Fails roots certs key) (is_empty certs) _ _
        (λ some_given.
          Ends-seq (FromList R roots) (RootsFail R roots client_root) (KnowsRoots roots certs)
            (Fails roots certs key) (root_store R roots client_root) _
            (root_store-Ends R roots client_root) (known roots certs key) (λ e q. inr (inl q)))
        (λ none_given. inl (inl (nil_of_empty certs none_given, refl))),
    from_pem_files-Ends cert_path key_path,
    self_signed_for_localhost-Ends,
  )
