-- ===== src/Run/Start.antt =====
-- main of main.go from the parsed flags to the moment that the goroutines start, but for the files
-- that it opens to write.
use Prim.Native.Nat.{zero}
use go_replayer.Config.Dial.{Trust, DialError, DialOption, build_dial_options}
use go_replayer.Replay.Reader.{Request}
use go_replayer.Machine.{Machine}
use go_replayer.Prelude.Int.{pos_part}
use go_replayer.Replay.Load.{Loaded, LoadError, load_requests}
use go_replayer.Prelude.{
  ◌>>=◌, Outcome, ℕ, List, ok, Option, err, if◌then◌else◌, some, [], is_empty, ◌+◌, suc, Text,
  stuck, none, ◌++◌, ◌∷◌, zero,
}
use go_replayer.Config.Flags.{ConfigError, Host, Flags}
use go_replayer.Config.Checks.{resolve_config, RunConfig}
use go_replayer.Run.State.{Setup}

-- The ways that main exits before a run. `connecting` has the number of the connection.
pub data StartError : Type 0 where
  config : ConfigError → StartError
  loading : LoadError → StartError
  no_requests : StartError
  dialling : DialError → StartError
  connecting : ℕ → StartError

-- A step whose error is one of these.
abbrev pub or_quit : {E A : Type 0} → Outcome E A → (E → StartError) → Outcome StartError A
or_quit (ok a) wrap = ok a
or_quit (err e) wrap = err (wrap e)
or_quit stuck wrap = stuck

-- The requests that were loaded, if there are any.
unfoldable pub some_requests : Loaded → Outcome StartError (List Request)
some_requests st = if is_empty st.reqs then err no_requests else ok st.reqs

-- grpc.NewClient for the connection `i`, without an error.
abbrev pub or_no_client : {Conn : Type 0} → ℕ → Option Conn → Outcome StartError Conn
or_no_client i (some conn) = ok conn
or_no_client i none = err (connecting (i + 1))

-- The loop that opens `n` connections.
unfoldable pub open_connections :
    {Conn : Type 0} → (ℕ → Option Conn) → ℕ → Outcome StartError (List Conn)
open_connections connect zero = ok []
open_connections connect (suc n) = do
  conns ← open_connections connect n
  conn ← or_no_client n (connect n)
  ok (conns ++ conn ∷ [])

-- What the sender and the workers run with.
pub record Started (Conn : Type 0) : Type 0 where
  pub config : RunConfig
  pub reqs : List Request
  pub conns : List Conn

-- The parameters of a run, as the goroutines read them.
abbrev pub setup_of : {Conn : Type 0} → Started Conn → Setup
setup_of s = record {
  reqs = Started.reqs s;
  method = s.config.method;
  target_qps = s.config.qps;
  replicas = s.config.replicas;
  duration = s.config.duration;
  burst = s.config.burst;
  num_workers = pos_part s.config.workers;
  queue_capacity = pos_part s.config.queue_capacity;
}

module _ ⦃m : Machine⦄ ⦃trust : Trust⦄ where
  -- `open_file` gives the bytes of the replay file, if os.Open opens it; `new_client i` is the call of
  -- grpc.NewClient for the connection `i`.
  unfoldable pub start_run :
      {Conn : Type 0}
      → Host
      → (Text → Option (List ℕ))
      → (ℕ → Text → List DialOption → Option Conn)
      → Flags
      → Outcome StartError (Started Conn)
  start_run host open_file new_client flags = do
    c ← or_quit (resolve_config host flags) config
    loaded ← or_quit (load_requests (open_file c.file)) loading
    reqs ← some_requests loaded
    opts ← or_quit (build_dial_options c.use_tls c.insecure c.cert c.key c.ca) dialling
    conns ← open_connections (λ i. new_client i c.target opts) (pos_part c.connections)
    ok (record { config = c; reqs = reqs; conns = conns })
