-- ===== src/Config/Checks.antt =====
-- The defaults and the checks of the flags in main of main.go, up to loadRequests.
use go_replayer.Prelude.{
  Text, if◌then◌else◌, Outcome, Bool, is_empty, ok, some, ◌>>=◌, ◌>>◌, err, not, ◌&&◌, none, ◌||◌,
  leb,
}
use go_replayer.Machine.{Machine}
use go_replayer.Prelude.Int.{ℤ, pos, pos_part, is_positive, mul64, Duration}
use go_replayer.Scheduler.Burst.{BurstConfig, validate, avg_qps}
use go_replayer.Scheduler.State.{is_absorbing}
use go_replayer.Config.Target.{normalize_target_arg}
use go_replayer.Config.BurstFlags.{parse_burst_shape, parse_burst_jitter, parse_burst_mode}
use go_replayer.Config.Flags.{
  ConfigError, Flags, Host, check, max_int, max_replicas, or_exit, present, take_over_flags,
  file_and_target_required, bad_target, qps_not_positive, replicas_not_positive, too_many_replicas,
  duration_not_positive, connections_not_positive, timeout_not_positive, cert_without_key,
  bad_burst_shape, bad_burst_jitter, bad_burst_mode, bad_burst, absorbing_exceeds_qps,
}

-- `*numWorkers` and `*queueCapacity` where they are not positive.
unfoldable pub default_workers : Flags → ℤ
default_workers f =
    if is_positive f.workers then f.workers else max_int (pos 8) (mul64 f.connections 2)

unfoldable pub default_queue : ℤ → ℤ → ℤ
default_queue workers queue =
    if is_positive queue then queue else max_int (pos 512) (mul64 workers 16)

-- `(*certFile == "") != (*keyFile == "")`
abbrev pub is_unpaired : Text → Text → Bool
is_unpaired cert key = if is_empty cert then not (is_empty key) else is_empty key

-- What main starts a run with.
pub record RunConfig : Type 0 where
  pub file : Text
  pub target : Text
  pub qps : ℤ
  pub replicas : ℤ
  pub duration : Duration
  pub method : Text
  pub use_tls : Bool
  pub insecure : Bool
  pub cert : Text
  pub key : Text
  pub ca : Text
  pub connections : ℤ
  pub workers : ℤ
  pub queue_capacity : ℤ
  pub request_timeout : Duration
  pub burst : BurstConfig

abbrev pub run_config : Flags → Text → BurstConfig → RunConfig
run_config f target burst =
    let workers = default_workers f in
    record {
      file = f.file;
      target = target;
      qps = f.qps;
      replicas = f.replicas;
      duration = f.duration;
      method = f.method;
      use_tls = f.use_tls;
      insecure = f.insecure;
      cert = f.cert;
      key = f.key;
      ca = f.ca;
      connections = f.connections;
      workers = workers;
      queue_capacity = default_queue workers f.queue_capacity;
      request_timeout = f.request_timeout;
      burst = burst;
    }

unfoldable pub parse_burst : Flags → Outcome ConfigError BurstConfig
parse_burst f = do
  shape ← present (parse_burst_shape f.burst_shape) bad_burst_shape
  jitter ← present (parse_burst_jitter f.burst_jitter) bad_burst_jitter
  mode ← present (parse_burst_mode f.burst_mode) bad_burst_mode
  ok (record {
    size = f.burst_size;
    window = f.burst_window;
    period = f.burst_period;
    shape = shape;
    jitter = jitter;
    mode = mode;
  })

module _ ⦃m : Machine⦄ where
  open m use {lt, of_int}

  -- `burstCfg.Validate()`, and the check of the absorbing mode
  unfoldable pub check_burst : ℤ → BurstConfig → Outcome ConfigError (Unit {0})
  check_burst qps b = elim (validate b) [
    | some e ↦ err (bad_burst e)
    | none ↦ check (not (is_absorbing b && lt (of_int qps) (avg_qps b))) absorbing_exceeds_qps
  ]

  unfoldable pub check_flags : Flags → Outcome ConfigError RunConfig
  check_flags f = do
    check (not (is_empty f.file || is_empty f.target)) file_and_target_required
    target ← or_exit (normalize_target_arg f.target) bad_target
    check (is_positive f.qps) qps_not_positive
    check (is_positive f.replicas) replicas_not_positive
    check (leb (pos_part f.replicas) max_replicas) too_many_replicas
    check (is_positive f.duration) duration_not_positive
    check (is_positive f.connections) connections_not_positive
    check (is_positive f.request_timeout) timeout_not_positive
    check (not (is_unpaired f.cert f.key)) cert_without_key
    burst ← parse_burst f
    check_burst f.qps burst
    ok (run_config f target burst)

  unfoldable pub resolve_config : Host → Flags → Outcome ConfigError RunConfig
  resolve_config host f = take_over_flags host f >>= check_flags
