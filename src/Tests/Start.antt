-- ===== src/Tests/Start.antt =====
-- A run in takeover mode that starts.
use go_replayer.Scheduler.Spikes.{FitsInt64}
use go_replayer.Run.Session.{started_progresses}
use go_replayer.Run.Drain.{CanWork}
use go_replayer.Run.State.{finished}
use go_replayer.Run.Step.{main_run, begin}
use go_replayer.Replay.Load.{
  load_requests, load_loop, load_record, keep_valid, validate_loaded_request,
}
use go_replayer.Config.Flags.{
  take_over_flags, take_over_run, check, or_exit, takeover_sizes, max_int, present,
}
use go_replayer.Config.Checks.{
  check_flags, check_burst, default_queue, default_workers, parse_burst, resolve_config,
}
use go_replayer.Replay.Takeover.{
  resolve_takeover_install_root, resolve_takeover_artifacts, choose_path, first_existing, choose_ca,
}
use go_replayer.Config.BurstFlags.{parse_burst_jitter, parse_burst_mode, parse_burst_shape}
use go_replayer.Config.Strings.{
  scan_digits, split_bracketed, split_first, split_plain, split_last, split_host_port, itoa_from,
  itoa, join_host_port, scan_number, atoi, split, trim_left, trim_right, trim,
}
use go_replayer.Scheduler.Burst.{avg_qps, enabled, seconds, validate}
use go_replayer.Scheduler.State.{is_absorbing}
use go_replayer.Config.Target.{
  normalize_host_port, parse_port, join_port, normalize_pair, strip_loop, strip,
  normalize_target_arg,
}
use go_replayer.Windows.Bins.{last_or}
use go_replayer.Config.Dial.{
  parity_certificates, client_certificates, root_pool, secure_options, Trust, parity_dial_options,
  DialOption, build_dial_options,
}
use go_replayer.Parity.Launch.{parity_dial, ParityFlags, launch, Launched}
use go_replayer.Replay.Reader.{read_full, read_u32}
use go_replayer.Replay.ParityLoad.{parity_load_record, parity_load_loop, parity_load_requests}
use go_replayer.Config.Dialled.{with_limits, parity_dial_options-build_dial_options}
use go_replayer.Prelude.Int.{pos}
use go_replayer.Parity.Launched.{IsLaunched, launch-IsLaunched}
use go_replayer.Run.Started.{IsStarted, start_run-IsStarted}
use go_replayer.Run.Start.{start_run, Started, some_requests, open_connections, setup_of}
use go_replayer.Prelude.{
  Text, ℕ, some, Option, List, true, codes, [], ◌∷◌, ◌≡◌, false, ok, ◌>>=◌, refl, ◌⊎◌, arith,
}
use go_replayer.Tests.Arithmetic.{small_machine, small_laws}
use go_replayer.Tests.Config.{flags, host}

-- Every certificate and every pool is there.
instance abbrev small_trust : Trust
small_trust = record {
  Cert = ℕ;
  Pool = ℕ;
  load_key_pair = λ cert key. some 1;
  read_file = λ path. some [];
  pool_of_pem = λ pem. some 2;
}

abbrev file_of_one : Text → Option (List ℕ)
file_of_one path = some (0 ∷ 0 ∷ 0 ∷ 1 ∷ 65 ∷ 0 ∷ 0 ∷ 0 ∷ 1 ∷ 7 ∷ [])

abbrev client_of : ℕ → Text → List DialOption → Option ℕ
client_of i target opts = some i

started : (s : Started ℕ) × (start_run host file_of_one client_of flags ≡ ok s)
unfolding start_run resolve_config take_over_flags take_over_run check or_exit check_flags
    takeover_sizes check_burst default_queue default_workers max_int parse_burst present
    resolve_takeover_install_root resolve_takeover_artifacts choose_path first_existing choose_ca
    parse_burst_jitter parse_burst_mode parse_burst_shape scan_digits split_bracketed split_first
    split_plain avg_qps enabled seconds validate is_absorbing trim_left atoi itoa itoa_from
    join_host_port scan_number split split_host_port split_last join_port normalize_host_port
    normalize_pair parse_port last_or normalize_target_arg strip strip_loop trim trim_right
    some_requests open_connections build_dial_options client_certificates root_pool secure_options
    load_requests load_loop load_record keep_valid validate_loaded_request read_full read_u32
started = (_, refl)

start_run-IsStarted_example : IsStarted host file_of_one flags client_of started.0
start_run-IsStarted_example =
    start_run-IsStarted host file_of_one client_of flags started.0 started.1

parity_dial_options-build_dial_options_example :
    parity_dial_options true false (codes "c.pem") (codes "k.pem") ≡ (
      build_dial_options true false (codes "c.pem") (codes "k.pem") [] >>= λ opts.
      ok (with_limits opts))
parity_dial_options-build_dial_options_example =
    parity_dial_options-build_dial_options true false (codes "c.pem") (codes "k.pem") refl

abbrev checker_flags : ParityFlags
checker_flags = record {
  file = codes "r.bin";
  target_a = codes "a:1";
  target_b = codes "b:2";
  qps = pos 100;
  num_requests = pos 5;
  duration = pos 0;
  use_tls = true;
  insecure = true;
  cert = codes "c.pem";
  key = [];
}

abbrev dial_any : Text → List DialOption → Option ℕ
dial_any target opts = some 3

launched : (p : Launched ℕ) × (launch file_of_one dial_any 0 (pos 1) checker_flags ≡ ok p)
unfolding launch parity_load_requests parity_load_loop read_u32 parity_load_record read_full
    parity_dial parity_dial_options parity_certificates
launched = (_, refl)

launch-IsLaunched_example : IsLaunched file_of_one dial_any checker_flags launched.0
launch-IsLaunched_example =
    launch-IsLaunched file_of_one dial_any 0 (pos 1) checker_flags launched.0 launched.1

started-FitsInt64 : FitsInt64 started.0.config.burst
unfolding started
started-FitsInt64 = record {
  spike_fits = omega arith;
  uniform_fits = omega arith;
  window_fits = omega arith;
  period_fits = omega arith;
}

started_progresses_example :
    ((main_run (setup_of started.0) 7 0 0).sender ≡ finished)
    ⊎ CanWork (setup_of started.0) (main_run (setup_of started.0) 7 0 0)
unfolding started
started_progresses_example =
    started_progresses small_laws host file_of_one client_of flags started.0 7 0 0 started.1
      started-FitsInt64 refl (λ e. cc) begin
