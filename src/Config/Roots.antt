-- ===== src/Config/Roots.antt =====
-- What the root stores of a configuration hold.
use muxtls.Base.{◌≡◌, refl, sym, ap, ◌∙◌, true, false, List, [], ◌∷◌, ◌++◌, ◌⊎◌, inl, inr}
use muxtls.Base.{ok, err, Ends, Ends-seq, Ends-map_err, Ends-mono, Ends-fail_if}
use mathlib.Core.List.{append-nil, append_assoc}
use muxtls.Connection.Writer.{is_empty}
use muxtls.Error.{Error, config, no_certificate_of, CertificateKind, no_usable_roots}
use muxtls.Tls.{Text, Rustls}
use muxtls.Config.{add_all, root_store, native_roots, config_error, first}

pub nil_of_empty : {A : Type 0} (xs : List A) → is_empty xs ≡ true → xs ≡ []
nil_of_empty [] e = refl
nil_of_empty (x ∷ xs) e = cc

module _ (R : Rustls) where
  -- A certificate of the list was refused, when the store held those before it.
  pub record Refused (certs : List R.Certificate) (start : List R.Certificate) (e : Error)
      : Type 0 where
    pub before : List R.Certificate
    pub cert : R.Certificate
    pub after : List R.Certificate
    pub store : R.RootCertStore
    pub text : Text
    pub split : certs ≡ before ++ (cert ∷ after)
    pub held : R.anchors store ≡ start ++ before
    pub refused : R.add store cert ≡ err text
    pub message : e ≡ config_error text

  -- One certificate more before the list.
  Refused-cons :
      (cert : R.Certificate) (certs start : List R.Certificate) (e : Error)
      → Refused certs (start ++ (cert ∷ [])) e
      → Refused (cert ∷ certs) start e
  Refused-cons cert certs start e r = record {
    before = cert ∷ r.before;
    cert = r.cert;
    after = r.after;
    store = r.store;
    text = r.text;
    split = ap (λ cs. cert ∷ cs) r.split;
    held = r.held ∙ append_assoc start (cert ∷ []) r.before;
    refused = r.refused;
    message = r.message;
  }

  add_all-Ends :
      (certs : List R.Certificate) (roots : R.RootCertStore) (start : List R.Certificate)
      → R.anchors roots ≡ start
      → Ends
          (λ store. R.anchors store ≡ start ++ certs)
          (Refused certs start)
          (add_all R certs roots)
  unfolding add_all
  add_all-Ends [] roots start h = h ∙ sym (append-nil start)
  add_all-Ends (cert ∷ certs) roots start h =
      Ends-map_err (λ store. R.anchors store ≡ start ++ (cert ∷ certs))
        (Refused (cert ∷ certs) start) config_error (R.add roots cert) (add_all R certs)
        (λ store e.
          Ends-mono (λ s. R.anchors s ≡ (start ++ (cert ∷ [])) ++ certs)
            (λ s. R.anchors s ≡ start ++ (cert ∷ certs)) (Refused certs (start ++ (cert ∷ [])))
            (Refused (cert ∷ certs) start) (add_all R certs store)
            (λ s p. p ∙ append_assoc start (cert ∷ []) certs)
            (λ e'. Refused-cons cert certs start e')
            (add_all-Ends certs store (start ++ (cert ∷ []))
              (R.anchors-add roots store cert e ∙ ap (λ cs. cs ++ (cert ∷ [])) h)))
        (λ text e. record {
          before = [];
          cert = cert;
          after = certs;
          store = roots;
          text = text;
          split = refl;
          held = h ∙ sym (append-nil start);
          refused = e;
          message = refl;
        })

  -- The store holds exactly the certificates of the list, in order; an error says that there is none, or
  -- is that of the first one that is refused.
  abbrev pub RootsFail : List R.Certificate → CertificateKind → Error → Type 0
  RootsFail certs certificate_kind e =
      ((certs ≡ []) × (e ≡ config (no_certificate_of certificate_kind))) ⊎ Refused certs [] e

  abbrev pub FromList : List R.Certificate → R.RootCertStore → Type 0
  FromList certs store = (R.anchors store ≡ certs) × (is_empty certs ≡ false)

  pub root_store-Ends :
      (certs : List R.Certificate) (kind : CertificateKind)
      → Ends (FromList certs) (RootsFail certs kind) (root_store R certs kind)
  unfolding root_store
  root_store-Ends certs kind =
      Ends-fail_if (FromList certs) (RootsFail certs kind) (is_empty certs) _
        (add_all R certs R.empty)
        (λ some_given.
          Ends-mono (λ store. R.anchors store ≡ certs) _ (Refused certs []) _
            (add_all R certs R.empty) (λ store h. (h, some_given)) (λ e r. inr r)
            (add_all-Ends certs R.empty [] R.anchors-empty))
        (λ none_given. inl (nil_of_empty certs none_given, refl))

  -- The roots of the platform, or the first error of loading them where there is none.
  abbrev pub NativeFail : Error → Type 0
  NativeFail e =
      ((R.native_certs ≡ []) × (e ≡ config (no_usable_roots (first R.native_errors))))
      ⊎ Refused R.native_certs [] e

  abbrev pub FromPlatform : R.RootCertStore → Type 0
  FromPlatform store = (R.anchors store ≡ R.native_certs) × (is_empty R.native_certs ≡ false)

  pub native_roots-Ends : Ends FromPlatform NativeFail (native_roots R)
  unfolding native_roots
  native_roots-Ends =
      Ends-seq (λ store. R.anchors store ≡ R.native_certs) (Refused R.native_certs []) FromPlatform
        NativeFail (add_all R R.native_certs R.empty) _
        (add_all-Ends R.native_certs R.empty [] R.anchors-empty)
        (λ store held.
          Ends-fail_if FromPlatform NativeFail (R.is_empty store) _ (ok store)
            (λ b. (held, same_test store held ∙ b))
            (λ b. inl (nil_of_empty R.native_certs (same_test store held ∙ b), refl)))
        (λ e r. inr r)
    where
      same_test :
          (store : R.RootCertStore)
          → R.anchors store ≡ R.native_certs
          → is_empty R.native_certs ≡ R.is_empty store
      same_test store held = sym (ap is_empty held) ∙ sym (R.is_empty_lem store)
