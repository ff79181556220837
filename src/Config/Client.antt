-- ===== src/Config/Client.antt =====
-- What the configurations of a client trust, present and offer.
use muxtls.Base.{◌≡◌, refl, ◌∙◌, false, List, [], ◌∷◌, ◌⊎◌, inl, inr}
use muxtls.Base.{ok, err, ◌>>=◌, map_err, Ends, Ends-seq, Ends-map_err, Ends-fail_if, Ends-mono}
use muxtls.Connection.Writer.{is_empty}
use muxtls.Error.{Error, tls, config, no_client_certificate, custom_root}
use muxtls.Tls.{Text, Rustls, ServerCertVerifier, Trust, by_roots, by_verifier}
use muxtls.Config.{
  ClientConfig, alpn_protocol, config_error, client_of, root_store, native_roots,
  with_roots_and_client_auth, with_custom_roots, with_custom_roots_and_client_auth,
  with_native_roots, with_native_roots_and_client_auth, with_platform_verifier,
  with_platform_verifier_and_client_auth,
}
use muxtls.Config.Roots.{
  RootsFail, NativeFail, FromList, FromPlatform, root_store-Ends, native_roots-Ends, nil_of_empty,
}

module _ (R : Rustls) where
  abbrev pub Verifier : Type 0
  Verifier = ServerCertVerifier R.Certificate R.ServerName

  -- The configuration offers muxtls/1 and nothing else, checks servers by `t`, and presents `chain`.
  pub record IsClient (t : Trust R.RootCertStore Verifier) (chain : List R.Certificate)
      (c : ClientConfig R) : Type 0 where
    pub alpn : R.client_alpn c.inner ≡ alpn_protocol ∷ []
    pub trusts : R.trust c.inner ≡ t
    pub presents : R.client_chain c.inner ≡ chain

  -- It trusts the roots of the list, all of them and no others, and there is one.
  abbrev pub TrustsRoots : List R.Certificate → List R.Certificate → ClientConfig R → Type 0
  TrustsRoots roots chain c =
      (store : R.RootCertStore) × IsClient (by_roots store) chain c
      × (R.anchors store ≡ roots)
      × (is_empty roots ≡ false)

  abbrev pub TrustsPlatform : List R.Certificate → ClientConfig R → Type 0
  TrustsPlatform chain c =
      (v : Verifier) × IsClient (by_verifier v) chain c × (R.platform_verifier ≡ ok v)

  -- No client certificate was given, or rustls refused the chain or the key.
  abbrev pub AuthFail : List R.Certificate → R.PrivateKey → Error → Type 0
  AuthFail client_certs client_key e =
      ((client_certs ≡ []) × (e ≡ config no_client_certificate))
      ⊎ ((t : Trust R.RootCertStore Verifier) × (text : Text) × (R.with_client_auth_cert t
              client_certs client_key
            ≡ err text)
          × (e ≡ config_error text))

  abbrev pub PlatformFail : Error → Type 0
  PlatformFail e = (text : Text) × (R.platform_verifier ≡ err text) × (e ≡ tls text)

  no_auth-IsClient :
      (t : Trust R.RootCertStore Verifier) → IsClient t [] (client_of R (R.with_no_client_auth t))
  no_auth-IsClient t =
      let kept = R.client_alpn_lem (alpn_protocol ∷ []) (R.with_no_client_auth t) in
      let made = R.no_client_auth_lem t in
      record { alpn = kept.0; trusts = kept.1 ∙ made.0; presents = kept.2 ∙ made.1 }

  auth-IsClient :
      (t : Trust R.RootCertStore Verifier) (chain : List R.Certificate) (key : R.PrivateKey)
      (c : R.ClientTls)
      → R.with_client_auth_cert t chain key ≡ ok c
      → IsClient t chain (client_of R c)
  auth-IsClient t chain key c e =
      let kept = R.client_alpn_lem (alpn_protocol ∷ []) c in
      let made = R.client_auth_lem t chain key c e in
      record { alpn = kept.0; trusts = kept.1 ∙ made.0; presents = kept.2 ∙ made.1 }

  -- The last steps of a configuration with a client certificate.
  with_auth :
      (t : Trust R.RootCertStore Verifier) (chain : List R.Certificate) (key : R.PrivateKey)
      → Ends
          (IsClient t chain)
          (AuthFail chain key)
          (map_err config_error (R.with_client_auth_cert t chain key) >>= λ c. ok (client_of R c))
  with_auth t chain key =
      Ends-map_err (IsClient t chain) (AuthFail chain key) config_error
        (R.with_client_auth_cert t chain key) (λ c. ok (client_of R c))
        (λ c e. auth-IsClient t chain key c e) (λ text e. inr (t, text, e, refl))

  roots_and_auth :
      (store : R.RootCertStore) (roots chain : List R.Certificate) (key : R.PrivateKey)
      → (R.anchors store ≡ roots) × (is_empty roots ≡ false)
      → Ends
          (TrustsRoots roots chain)
          (AuthFail chain key)
          (with_roots_and_client_auth R store chain key)
  unfolding with_roots_and_client_auth
  roots_and_auth store roots chain key h =
      Ends-fail_if (TrustsRoots roots chain) (AuthFail chain key) (is_empty chain) _ _
        (λ some_given.
          Ends-mono (IsClient (by_roots store) chain) (TrustsRoots roots chain) (AuthFail chain key)
            (AuthFail chain key) _ (λ c p. (store, p, h.0, h.1)) (λ e q. q)
            (with_auth (by_roots store) chain key))
        (λ none_given. inl (nil_of_empty chain none_given, refl))

  no_auth-Ends :
      (store : R.RootCertStore) (roots : List R.Certificate)
      → (R.anchors store ≡ roots) × (is_empty roots ≡ false)
      → TrustsRoots roots [] (client_of R (R.with_no_client_auth (by_roots store)))
  no_auth-Ends store roots h = (store, no_auth-IsClient (by_roots store), h.0, h.1)

  abbrev pub ClientsEnd : List R.Certificate → List R.Certificate → R.PrivateKey → Type 0
  ClientsEnd roots chain key =
      Ends (TrustsRoots roots []) (RootsFail R roots custom_root) (with_custom_roots R roots)
      × Ends (TrustsRoots roots chain) (λ e. RootsFail R roots custom_root e ⊎ AuthFail chain key e)
          (with_custom_roots_and_client_auth R roots chain key)
      × Ends (TrustsRoots R.native_certs []) (NativeFail R) (with_native_roots R)
      × Ends (TrustsRoots R.native_certs chain) (λ e. NativeFail R e ⊎ AuthFail chain key e)
          (with_native_roots_and_client_auth R chain key)
      × Ends (TrustsPlatform []) PlatformFail (with_platform_verifier R)
      × Ends (TrustsPlatform chain) (λ e. PlatformFail e ⊎ AuthFail chain key e)
          (with_platform_verifier_and_client_auth R chain key)

  -- A configuration from the roots of the caller or of the platform, without and with a client
  -- certificate, trusts exactly those certificates, of which there is one at least; one from the
  -- verifier of the platform trusts that verifier. Each presents no certificate or exactly the given
  -- chain, and offers muxtls/1 only. Each fails only where a list that it needs is empty, with the error
  -- for that list, or where rustls refuses a root, the chain or the key, or the platform has no verifier,
  -- with the text of that refusal.
  pub clients-Ends :
      (roots chain : List R.Certificate) (key : R.PrivateKey) → ClientsEnd roots chain key
  unfolding with_custom_roots with_custom_roots_and_client_auth with_native_roots
      with_native_roots_and_client_auth with_platform_verifier
      with_platform_verifier_and_client_auth
  clients-Ends roots chain key = (
    Ends-seq (FromList R roots) (RootsFail R roots custom_root) (TrustsRoots roots []) _
        (root_store R roots custom_root) _ (root_store-Ends R roots custom_root)
        (λ store h. no_auth-Ends store roots h) (λ e q. q),
    Ends-seq (FromList R roots) (RootsFail R roots custom_root) (TrustsRoots roots chain) _
        (root_store R roots custom_root) _ (root_store-Ends R roots custom_root)
        (λ store h. either (RootsFail R roots custom_root) store roots h) (λ e q. inl q),
    Ends-seq (FromPlatform R) (NativeFail R) (TrustsRoots R.native_certs []) _ (native_roots R) _
        (native_roots-Ends R) (λ store h. no_auth-Ends store R.native_certs h) (λ e q. q),
    Ends-seq (FromPlatform R) (NativeFail R) (TrustsRoots R.native_certs chain) _ (native_roots R) _
        (native_roots-Ends R) (λ store h. either (NativeFail R) store R.native_certs h)
        (λ e q. inl q),
    Ends-map_err (TrustsPlatform []) PlatformFail tls R.platform_verifier _
        (λ v e. (v, no_auth-IsClient (by_verifier v), e)) (λ text e. (text, e, refl)),
    Ends-fail_if (TrustsPlatform chain) (λ e. PlatformFail e ⊎ AuthFail chain key e)
        (is_empty chain) _ _
        (λ some_given.
          Ends-map_err (TrustsPlatform chain) (λ e. PlatformFail e ⊎ AuthFail chain key e) tls
            R.platform_verifier _
            (λ v e.
              Ends-mono (IsClient (by_verifier v) chain) (TrustsPlatform chain) (AuthFail chain key)
                _ _ (λ c p. (v, p, e)) (λ e' q. inr q) (with_auth (by_verifier v) chain key))
            (λ text e. inl (text, e, refl)))
        (λ none_given. inr (inl (nil_of_empty chain none_given, refl))),
  )
    where
      either :
          (F : Error → Type 0) (store : R.RootCertStore) (certs : List R.Certificate)
          → (R.anchors store ≡ certs) × (is_empty certs ≡ false)
          → Ends
              (TrustsRoots certs chain)
              (λ e. F e ⊎ AuthFail chain key e)
              (with_roots_and_client_auth R store chain key)
      either F store certs h =
          Ends-mono (TrustsRoots certs chain) (TrustsRoots certs chain) (AuthFail chain key)
            (λ e. F e ⊎ AuthFail chain key e) _ (λ c p. p) (λ e q. inr q)
            (roots_and_auth store certs chain key h)
