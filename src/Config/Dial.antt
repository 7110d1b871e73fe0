-- ===== src/Config/Dial.antt =====
-- buildDialOptions of main.go and dial of cmd/grpc-parity-check/main.go: what a client hands to
-- grpc.NewClient.
use go_replayer.Prelude.{
  Text, Option, ℕ, Bool, List, Outcome, ◌*◌, ◌∷◌, some, if◌then◌else◌, ok, [], err, is_empty, not,
  ◌>>=◌, none, ◌&&◌, false, true,
}
use go_replayer.Config.Checks.{is_unpaired}

-- What crypto/tls, crypto/x509 and os answer. `none` is an error, and for the pool that
-- AppendCertsFromPEM is false.
pub record Trust : Type 1 where
  pub Cert : Type 0
  pub Pool : Type 0
  pub load_key_pair : Text → Text → Option Cert
  pub read_file : Text → Option (List ℕ)
  pub pool_of_pem : List ℕ → Option Pool

-- The errors, each with the file that it names.
pub data DialError : Type 0 where
  pair_incomplete : DialError
  loading_pair : Text → Text → DialError
  reading_ca : Text → DialError
  parsing_ca : Text → DialError
  no_client : DialError

-- `present` of the options of a function.
abbrev pub or_refuse : {A : Type 0} → Option A → DialError → Outcome DialError A
or_refuse (some a) e = ok a
or_refuse none e = err e

abbrev pub parity_message_limit : ℕ
parity_message_limit = 64 * 1024 * 1024

module _ ⦃trust : Trust⦄ where
  open trust use {Cert, Pool, load_key_pair, read_file, pool_of_pem}

  -- tls.Config, as far as the clients set it.
  pub record TlsConfig : Type 0 where
    pub insecure_skip_verify : Bool
    pub certificates : List Cert
    pub root_cas : Option Pool

  pub data DialOption : Type 0 where
    tls_credentials : TlsConfig → DialOption
    insecure_credentials : DialOption
    force_codec : DialOption
    max_receive : ℕ → DialOption
    max_send : ℕ → DialOption

  -- `tlsCfg.Certificates`
  unfoldable pub client_certificates : Text → Text → Outcome DialError (List Cert)
  client_certificates cert key =
      if is_empty cert
      then ok []
      else or_refuse (load_key_pair cert key) (loading_pair cert key) >>= λ c. ok (c ∷ [])

  -- `tlsCfg.RootCAs`, which nil leaves to the host.
  unfoldable pub root_pool : Text → Outcome DialError (Option Pool)
  root_pool ca = if is_empty ca then ok none else do
    pem ← or_refuse (read_file ca) (reading_ca ca)
    pool ← or_refuse (pool_of_pem pem) (parsing_ca ca)
    ok (some pool)

  -- The block under `if useTLS`, behind the check of the pair.
  unfoldable pub secure_options : Bool → Text → Text → Text → Outcome DialError (List DialOption)
  secure_options insecure_skip cert key ca = do
    certs ← client_certificates cert key
    roots ← root_pool ca
    let tls_config : TlsConfig = record {
      insecure_skip_verify = insecure_skip;
      certificates = certs;
      root_cas = roots;
    }
    ok (tls_credentials tls_config ∷ force_codec ∷ [])

  unfoldable pub build_dial_options :
      Bool → Bool → Text → Text → Text → Outcome DialError (List DialOption)
  build_dial_options false insecure_skip cert key ca = ok (insecure_credentials ∷ force_codec ∷ [])
  build_dial_options true insecure_skip cert key ca =
      if is_unpaired cert key then err pair_incomplete else secure_options insecure_skip cert key ca

  -- The certificates of the parity checker: an incomplete pair is left out.
  unfoldable pub parity_certificates : Text → Text → Outcome DialError (List Cert)
  parity_certificates cert key =
      if not (is_empty cert) && not (is_empty key)
      then or_refuse (load_key_pair cert key) (loading_pair cert key) >>= (λ c. ok (c ∷ []))
      else ok []

  abbrev pub message_limits : List DialOption
  message_limits = max_receive parity_message_limit ∷ max_send parity_message_limit ∷ []

  unfoldable pub parity_dial_options :
      Bool → Bool → Text → Text → Outcome DialError (List DialOption)
  parity_dial_options false insecure_skip cert key =
      ok (force_codec ∷ insecure_credentials ∷ message_limits)
  parity_dial_options true insecure_skip cert key = do
    certs ← parity_certificates cert key
    let tls_config : TlsConfig = record {
      insecure_skip_verify = insecure_skip;
      certificates = certs;
      root_cas = none;
    }
    ok (force_codec ∷ tls_credentials tls_config ∷ message_limits)
