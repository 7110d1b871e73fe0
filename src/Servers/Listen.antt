-- ===== src/Servers/Listen.antt =====
-- How the two targets come to listen, before the first call.
use go_replayer.Prelude.{
  Text, Option, List, Outcome, Bool, some, if◌then◌else◌, ok, is_empty, err, ◌||◌, ◌>>=◌, none, ◌∷◌,
  [],
}
use go_replayer.Config.Dial.{Trust}

pub record ServerFlags : Type 0 where
  pub addr : Text
  pub server_cert : Text
  pub server_key : Text
  pub require_client_cert : Bool

-- The panics.
pub data ListenError : Type 0 where
  cert_and_key_required : ListenError
  loading_server_pair : ListenError
  listening : ListenError

abbrev pub or_panic : {A : Type 0} → Option A → ListenError → Outcome ListenError A
or_panic (some a) e = ok a
or_panic none e = err e

module _ ⦃trust : Trust⦄ where
  open trust use {Cert, load_key_pair}

  -- tls.Config, as far as the targets set it: a client's certificate is asked for, never verified.
  pub record ServerTls : Type 0 where
    pub certificates : List Cert
    pub require_any_client_cert : Bool

  unfoldable pub server_tls : ServerFlags → Outcome ListenError ServerTls
  server_tls f =
      if is_empty f.server_cert || is_empty f.server_key
      then err cert_and_key_required
      else or_panic (load_key_pair f.server_cert f.server_key) loading_server_pair >>= (λ cert.
        ok (record { certificates = cert ∷ []; require_any_client_cert = f.require_client_cert }))

  -- `listen` is net.Listen on the address.
  unfoldable pub start_server :
      {Listener : Type 0}
      → (Text → Option Listener)
      → ServerFlags
      → Outcome ListenError (ServerTls × Listener)
  start_server listen f = do
    tls ← server_tls f
    listener ← or_panic (listen f.addr) listening
    ok (tls, listener)
