-- ===== src/Config/Dialled.antt =====
-- What the dial options of the two clients are.
use go_replayer.Config.Checks.{is_unpaired}
use mathlib.Core.Path.{subst}
use go_replayer.Prelude.{
  Text, Bool, Option, List, is_empty, ◌≡◌, true, false, ok, ◌≢◌, [], none, some, Bool-cases, err,
  ◌⊎◌, ◌∷◌, inl, ok-injective, ◌>>=◌, ℕ, Outcome, sym, arith, inr, >>=-eq-ok, refl, stuck, ◌∙◌, ap,
}
use go_replayer.Config.Dial.{
  Trust, client_certificates, root_pool, build_dial_options, parity_dial_options, DialOption,
  DialError, secure_options, or_refuse, parity_certificates, insecure_credentials, pair_incomplete,
  force_codec, message_limits, TlsConfig, tls_credentials, loading_pair, reading_ca, parsing_ca,
  no_client,
}

module _ ⦃trust : Trust⦄ where
  open trust use {Cert, Pool, load_key_pair, read_file, pool_of_pem}

  -- What the credentials of a client are: TLS as asked for, with the certificate that was named, if
  -- one was, and the roots that were named, if any were; or none.
  abbrev pub IsCertificate : Text → Text → List Cert → Type 0
  IsCertificate cert key certs =
      (is_empty cert ≡ true) × (certs ≡ [])
      ⊎ (is_empty cert ≡ false)
        × ((c : Cert) × (load_key_pair cert key ≡ some c) × (certs ≡ c ∷ []))

  abbrev pub IsRoots : Text → Option Pool → Type 0
  IsRoots ca roots =
      (is_empty ca ≡ true) × (roots ≡ none)
      ⊎ (is_empty ca ≡ false)
        × ((pem : List ℕ) × (pool : Pool) × (read_file ca ≡ some pem)
            × (pool_of_pem pem ≡ some pool)
            × (roots ≡ some pool))

  -- The options of the replayer: TLS exactly where it is asked for.
  pub data HasCredentials (use_tls insecure_skip : Bool) (cert key ca : Text)
      : List DialOption → Type 0 where
    plain :
        use_tls ≡ false
        → HasCredentials use_tls insecure_skip cert key ca (insecure_credentials ∷ force_codec ∷ [])
    secure :
        (tls_config : TlsConfig)
        → use_tls ≡ true
        → tls_config.insecure_skip_verify ≡ insecure_skip
        → IsCertificate cert key tls_config.certificates
        → IsRoots ca tls_config.root_cas
        → HasCredentials use_tls insecure_skip cert key ca
            (tls_credentials tls_config ∷ force_codec ∷ [])

  pub or_refuse-ok :
      {A : Type 0} (o : Option A) (e : DialError) {a : A} → or_refuse o e ≡ ok a → o ≡ some a
  or_refuse-ok (some b) e h = cc
  or_refuse-ok none e h = cc

  client_certificates-IsCertificate :
      (cert key : Text) (certs : List Cert)
      → client_certificates cert key ≡ ok certs
      → IsCertificate cert key certs
  unfolding client_certificates
  client_certificates-IsCertificate cert key certs h = elim (Bool-cases (is_empty cert)) [
    | inl unset ↦
        let e : ◌≡◌ {A = Outcome DialError (List Cert)} (ok []) (ok certs) = ground arith in
        inl (unset, sym (ok-injective e))
    | inr given ↦
        let e : (or_refuse (load_key_pair cert key) (loading_pair cert key) >>= λ c. ok (c ∷ []))
            ≡ ok certs =
          ground arith in
        let (c, loaded, one) = >>=-eq-ok _ _ e in
        inr (given, (c, or_refuse-ok _ _ loaded, sym (ok-injective one)))
  ]

  root_pool-IsRoots : (ca : Text) (roots : Option Pool) → root_pool ca ≡ ok roots → IsRoots ca roots
  unfolding root_pool
  root_pool-IsRoots ca roots h = elim (Bool-cases (is_empty ca)) [
    | inl unset ↦
        let e : ◌≡◌ {A = Outcome DialError (Option Pool)} (ok none) (ok roots) = ground arith in
        inl (unset, sym (ok-injective e))
    | inr given ↦
        let e : (or_refuse (read_file ca) (reading_ca ca) >>= λ pem.
        or_refuse (pool_of_pem pem) (parsing_ca ca) >>= λ pool. ok (some pool))
            ≡ ok roots =
          ground arith in
        let (pem, was_read, e1) = >>=-eq-ok _ _ e in
        let (pool, parsed, e2) = >>=-eq-ok _ _ e1 in
        inr (
          given,
          (pem, pool, or_refuse-ok _ _ was_read, or_refuse-ok _ _ parsed, sym (ok-injective e2)),
        )
  ]

  -- The options of a client that buildDialOptions accepts.
  pub build_dial_options-HasCredentials :
      (use_tls insecure_skip : Bool) (cert key ca : Text) (opts : List DialOption)
      → build_dial_options use_tls insecure_skip cert key ca ≡ ok opts
      → HasCredentials use_tls insecure_skip cert key ca opts
  unfolding build_dial_options secure_options
  build_dial_options-HasCredentials false skip cert key ca opts h =
      subst (HasCredentials false skip cert key ca) (ok-injective h) (plain refl)
  build_dial_options-HasCredentials true skip cert key ca opts h =
      elim (Bool-cases (is_unpaired cert key)) [
        | inl odd ↦ absurd (ground arith)
        | inr even ↦
            let e : secure_options skip cert key ca ≡ ok opts = ground arith in
            let (certs, got_certs, e1) = >>=-eq-ok _ _ e in
            let (roots, got_roots, e2) = >>=-eq-ok _ _ e1 in
            subst (HasCredentials true skip cert key ca) (ok-injective e2) (
              secure _ refl refl (client_certificates-IsCertificate cert key certs got_certs)
                (root_pool-IsRoots ca roots got_roots))
      ]

  abbrev is_complete : {A : Type 0} → Outcome DialError A → Bool
  is_complete (err pair_incomplete) = false
  is_complete _ = true

  or_refuse_complete :
      {A : Type 0} (o : Option A) (e : DialError)
      → is_complete {A = A} (err e) ≡ true
      → is_complete (or_refuse o e) ≡ true
  or_refuse_complete (some a) e h = refl
  or_refuse_complete none e h = h

  >>=_complete :
      {A B : Type 0} (m : Outcome DialError A) (f : A → Outcome DialError B)
      → is_complete m ≡ true
      → ((a : A) → is_complete (f a) ≡ true)
      → is_complete (m >>= f) ≡ true
  >>=_complete (ok a) f h k = k a
  >>=_complete (err pair_incomplete) f h k = h
  >>=_complete (err (loading_pair cert key)) f h k = refl
  >>=_complete (err (reading_ca ca)) f h k = refl
  >>=_complete (err (parsing_ca ca)) f h k = refl
  >>=_complete (err no_client) f h k = refl
  >>=_complete stuck f h k = refl

  client_certificates_complete :
      (cert key : Text) → is_complete (client_certificates cert key) ≡ true
  unfolding client_certificates
  client_certificates_complete cert key = elim (Bool-cases (is_empty cert)) [
    | inl unset ↦ rw unset refl
    | inr given ↦ rw given (
        >>=_complete _ _ (or_refuse_complete (load_key_pair cert key) (loading_pair cert key) refl)
          (λ c. refl))
  ]

  root_pool_complete : (ca : Text) → is_complete (root_pool ca) ≡ true
  unfolding root_pool
  root_pool_complete ca = elim (Bool-cases (is_empty ca)) [
    | inl unset ↦ rw unset refl
    | inr given ↦ rw given (
        >>=_complete _ _ (or_refuse_complete (read_file ca) (reading_ca ca) refl) (λ pem.
          >>=_complete _ _ (or_refuse_complete (pool_of_pem pem) (parsing_ca ca) refl)
            (λ pool. refl)))
  ]

  -- A complete pair is not refused as an incomplete one.
  pub build_dial_options-paired :
      (use_tls insecure_skip : Bool) (cert key ca : Text)
      → is_empty cert ≡ is_empty key
      → build_dial_options use_tls insecure_skip cert key ca ≢ err pair_incomplete
  unfolding build_dial_options secure_options
  build_dial_options-paired false skip cert key ca h e = cc
  build_dial_options-paired true skip cert key ca h e =
      let refused : secure_options skip cert key ca ≡ err pair_incomplete = ground arith in
      let complete : is_complete (secure_options skip cert key ca) ≡ true =
        >>=_complete _ _ (client_certificates_complete cert key)
          (λ certs. >>=_complete _ _ (root_pool_complete ca) (λ roots. refl)) in
      let wrong = sym complete ∙ ap is_complete refused in cc

  -- `force_codec` first, and the message limits last.
  abbrev pub with_limits : List DialOption → List DialOption
  with_limits (credentials ∷ codec ∷ rest) = codec ∷ credentials ∷ message_limits
  with_limits opts = opts

  -- With a certificate and its key, or with neither, the parity checker dials with the options of the
  -- replayer without --ca, in another order and with its two message limits, or fails with its error.
  pub parity_dial_options-build_dial_options :
      (use_tls insecure_skip : Bool) (cert key : Text)
      → is_empty cert ≡ is_empty key
      → parity_dial_options use_tls insecure_skip cert key
        ≡ (build_dial_options use_tls insecure_skip cert key [] >>= λ opts. ok (with_limits opts))
  unfolding parity_dial_options build_dial_options secure_options parity_certificates
      client_certificates root_pool
  parity_dial_options-build_dial_options false skip cert key h = refl
  parity_dial_options-build_dial_options true skip cert key h = elim (Bool-cases (is_empty cert)) [
    | inl unset ↦ rw (sym h, unset) refl
    | inr given ↦
        rw (sym h, given)
          (go (or_refuse (load_key_pair cert key) (loading_pair cert key) >>= λ c. ok (c ∷ [])))
  ]
    where
      with_certificates : List Cert → TlsConfig
      with_certificates certs = record {
        insecure_skip_verify = skip;
        certificates = certs;
        root_cas = none;
      }

      go :
          (o : Outcome DialError (List Cert))
          → (o >>= λ certs.
              ok (force_codec ∷ tls_credentials (with_certificates certs) ∷ message_limits))
            ≡ ((o >>= λ certs. ok (tls_credentials (with_certificates certs) ∷ force_codec ∷ []))
                >>= λ opts. ok (with_limits opts))
      go (ok certs) = refl
      go (err e) = refl
      go stuck = refl
