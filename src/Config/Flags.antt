-- ===== src/Config/Flags.antt =====
-- The flags of main.go, and what takeover mode makes of them.
use go_replayer.Prelude.{
  ℕ, Text, if◌then◌else◌, Outcome, Option, Bool, ltb, is_empty, ◌==◌, ok, some, ◌>>=◌, ◌>>◌, false,
  err, not, stuck, none, true,
}
use go_replayer.Prelude.Int.{ℤ, pos, negsuc, mul64, Duration}
use go_replayer.Scheduler.Burst.{BurstError}
use go_replayer.Replay.Takeover.{
  TakeoverError, TakeoverArtifacts, resolve_takeover_install_root, resolve_takeover_artifacts,
}
use go_replayer.Config.Target.{TargetError}

abbrev pub max_replicas : ℕ
max_replicas = 10000

-- The flags that decide about a run.
pub record Flags : Type 0 where
  pub file : Text
  pub target : Text
  pub qps : ℤ
  pub replicas : ℤ
  pub duration : Duration
  pub method : Text
  pub use_tls : Bool
  pub insecure : Bool
  pub cert : Text
  pub key : Text
  pub ca : Text
  pub connections : ℤ
  pub workers : ℤ
  pub queue_capacity : ℤ
  pub request_timeout : Duration
  pub take_over : Bool
  pub install_root : Text
  pub replay_file : Text
  pub takeover_cert : Text
  pub takeover_key : Text
  pub takeover_ca : Text
  pub burst_size : ℤ
  pub burst_window : Duration
  pub burst_period : Duration
  pub burst_shape : Text
  pub burst_jitter : Text
  pub burst_mode : Text

-- filepath.Join, the tests for a directory and for a file, and runtime.NumCPU.
pub record Host : Type 0 where
  pub join : Text → Text → Text
  pub dir_exists : Text → Bool
  pub file_exists : Text → Bool
  pub cpus : ℕ

-- The ways that main exits here.
pub data ConfigError : Type 0 where
  takeover_needs_target : ConfigError
  takeover : TakeoverError → ConfigError
  file_and_target_required : ConfigError
  bad_target : TargetError → ConfigError
  qps_not_positive : ConfigError
  replicas_not_positive : ConfigError
  too_many_replicas : ConfigError
  duration_not_positive : ConfigError
  connections_not_positive : ConfigError
  timeout_not_positive : ConfigError
  cert_without_key : ConfigError
  bad_burst_shape : ConfigError
  bad_burst_jitter : ConfigError
  bad_burst_mode : ConfigError
  bad_burst : BurstError → ConfigError
  absorbing_exceeds_qps : ConfigError

-- maxInt
unfoldable pub max_int : ℤ → ℤ → ℤ
max_int (pos a) (pos b) = if ltb b a then pos a else pos b
max_int (pos a) (negsuc b) = pos a
max_int (negsuc a) (pos b) = pos b
max_int (negsuc a) (negsuc b) = if ltb a b then negsuc a else negsuc b

abbrev pub or_else : Text → Text → Text
or_else given other = if is_empty given then other else given

abbrev pub is_int : ℤ → ℕ → Bool
is_int (pos a) n = a == n
is_int (negsuc a) n = false

-- A step whose error is one of the ways to exit.
unfoldable pub or_exit : {E A : Type 0} → Outcome E A → (E → ConfigError) → Outcome ConfigError A
or_exit (ok a) wrap = ok a
or_exit (err e) wrap = err (wrap e)
or_exit stuck wrap = stuck

unfoldable pub present : {A : Type 0} → Option A → ConfigError → Outcome ConfigError A
present (some a) e = ok a
present none e = err e

unfoldable pub check : Bool → ConfigError → Outcome ConfigError (Unit {0})
check true e = ok tt
check false e = err e

-- The connections, workers and queue of takeover mode.
unfoldable pub takeover_sizes : ℕ → Flags → Flags
unfolding max_int
takeover_sizes cpus f =
    let connections =
      if is_int f.connections 4 then max_int (pos 32) (mul64 (pos cpus) 4) else f.connections in
    let workers =
      if is_int f.workers 0 then max_int (pos 128) (mul64 connections 4) else f.workers in
    let queue =
      if is_int f.queue_capacity 0
      then max_int (pos 4096) (mul64 workers 32)
      else f.queue_capacity in
    record f { connections = connections; workers = workers; queue_capacity = queue }

-- The flags that the artifacts fill.
abbrev pub fill_flags : TakeoverArtifacts → Flags → Flags
fill_flags a f = record f {
  file = or_else f.file (TakeoverArtifacts.replay_file a);
  cert = or_else f.cert (TakeoverArtifacts.cert_file a);
  key = or_else f.key (TakeoverArtifacts.key_file a);
  ca = or_else f.ca (TakeoverArtifacts.ca_file a);
  use_tls = true;
}

-- The block under --take-over-replay.
unfoldable pub take_over_run : Host → Flags → Outcome ConfigError Flags
take_over_run host f = do
  check (not (is_empty f.target)) takeover_needs_target
  root ← or_exit (resolve_takeover_install_root f.install_root host.dir_exists) takeover
  a ←
      or_exit
        (resolve_takeover_artifacts host.join root f.replay_file f.takeover_cert f.takeover_key
          f.takeover_ca host.file_exists)
        takeover
  ok (takeover_sizes host.cpus (fill_flags a f))

unfoldable pub take_over_flags : Host → Flags → Outcome ConfigError Flags
take_over_flags host f = if f.take_over then take_over_run host f else ok f
