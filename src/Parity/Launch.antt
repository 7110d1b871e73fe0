-- ===== src/Parity/Launch.antt =====
-- main of cmd/grpc-parity-check/main.go up to its loop: the checks of the flags, the requests and the
-- two clients.
use go_replayer.Prelude.{
  ◌>>◌, not, is_empty, ◌||◌, ◌/◌, Text, Outcome, Bool, ok, List, ℕ, Option, err, if◌then◌else◌,
  stuck, true, ◌&&◌, some, ◌>>=◌, false, ltb, none, length, take,
}
use go_replayer.Replay.Reader.{Request}
use go_replayer.Machine.{Machine}
use go_replayer.Config.Dial.{
  Trust, DialError, DialOption, parity_dial_options, or_refuse, no_client,
}
use go_replayer.Prelude.Int.{ℤ, Time, Duration, is_positive, add_time, pos_part}
use go_replayer.Replay.ParityLoad.{ParityLoadError, parity_load_requests}
use go_replayer.Parity.System.{Check}

pub record ParityFlags : Type 0 where
  pub file : Text
  pub target_a : Text
  pub target_b : Text
  pub qps : ℤ
  pub num_requests : ℤ
  pub duration : Duration
  pub use_tls : Bool
  pub insecure : Bool
  pub cert : Text
  pub key : Text

-- The ways that main exits before the loop, but for the CSV file.
pub data LaunchError : Type 0 where
  usage : LaunchError
  parity_qps_not_positive : LaunchError
  parity_loading : ParityLoadError → LaunchError
  connecting_a : DialError → LaunchError
  connecting_b : DialError → LaunchError

abbrev pub or_abort : {E A : Type 0} → Outcome E A → (E → LaunchError) → Outcome LaunchError A
or_abort (ok a) wrap = ok a
or_abort (err e) wrap = err (wrap e)
or_abort stuck wrap = stuck

abbrev pub demand : Bool → LaunchError → Outcome LaunchError (Unit {0})
demand true e = ok tt
demand false e = err e

-- `if *numRequests > 0 && *numRequests < len(reqs) { reqs = reqs[:*numRequests] }`
unfoldable pub limit_requests : ℤ → List Request → List Request
limit_requests num_requests reqs =
    if is_positive num_requests && ltb (pos_part num_requests) (length reqs)
    then take (pos_part num_requests) reqs
    else reqs

unfoldable pub deadline_of : Time → Duration → Option Time
deadline_of start duration = if is_positive duration then some (add_time start duration) else none

module _ ⦃trust : Trust⦄ where
  unfoldable pub parity_dial :
      {Conn : Type 0}
      → (Text → List DialOption → Option Conn)
      → Text
      → ParityFlags
      → Outcome DialError Conn
  parity_dial new_client target f =
      parity_dial_options f.use_tls f.insecure f.cert f.key >>= λ opts.
      or_refuse (new_client target opts) no_client

module _ ⦃m : Machine⦄ ⦃trust : Trust⦄ where
  open m use {Float}

  pub record Launched (Conn : Type 0) : Type 0 where
    pub conn_a : Conn
    pub conn_b : Conn
    pub interval : ℕ
    pub check : Check

  -- `start` is the clock behind the two dials.
  unfoldable pub launch :
      {Conn : Type 0}
      → (Text → Option (List ℕ))
      → (Text → List DialOption → Option Conn)
      → Time
      → Float
      → ParityFlags
      → Outcome LaunchError (Launched Conn)
  launch open_file new_client start tolerance f = do
    demand (not (is_empty f.file || is_empty f.target_a || is_empty f.target_b)) usage
    demand (is_positive f.qps) parity_qps_not_positive
    loaded ← or_abort (parity_load_requests (open_file f.file)) parity_loading
    conn_a ← or_abort (parity_dial new_client f.target_a f) connecting_a
    conn_b ← or_abort (parity_dial new_client f.target_b f) connecting_b
    let check : Check = record {
      reqs = limit_requests f.num_requests loaded;
      tolerance = tolerance;
      deadline = deadline_of start f.duration;
    }
    ok (record {
      conn_a = conn_a;
      conn_b = conn_b;
      interval = 1_000_000_000 / pos_part f.qps;
      check = check;
    })
