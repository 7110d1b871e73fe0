-- ===== src/Tests/Config.antt =====
-- Command lines.
use go_replayer.Config.Flags.{
  take_over_flags, take_over_run, check, or_exit, takeover_sizes, max_int, present, Flags, Host,
}
use go_replayer.Config.Checks.{
  check_flags, check_burst, default_queue, default_workers, parse_burst, resolve_config, RunConfig,
}
use go_replayer.Replay.Takeover.{
  resolve_takeover_install_root, resolve_takeover_artifacts, choose_path, first_existing, choose_ca,
}
use go_replayer.Config.BurstFlags.{parse_burst_jitter, parse_burst_mode, parse_burst_shape}
use go_replayer.Config.Strings.{
  scan_digits, split_bracketed, split_first, split_plain, split_last, split_host_port, itoa_from,
  itoa, join_host_port, scan_number, atoi, split, trim_left, trim_right, trim,
}
use go_replayer.Scheduler.Burst.{avg_qps, enabled, seconds, validate}
use go_replayer.Scheduler.State.{is_absorbing}
use go_replayer.Prelude.Int.{pos}
use go_replayer.Config.Usable.{IsUsable, resolve_config-IsUsable}
use go_replayer.Config.Address.{IsAddress, normalize_target_arg-IsAddress}
use go_replayer.Config.RoundTrip.{pair_text, normalize_target_arg-forms}
use go_replayer.Config.Forms.{IsHost}
use go_replayer.Tests.Arithmetic.{small_machine}
use go_replayer.Config.Target.{
  normalize_host_port, parse_port, join_port, normalize_pair, strip_loop, strip,
  normalize_target_arg, bad_port,
}
use go_replayer.Windows.Bins.{last_or}
use go_replayer.Prelude.{◌≡◌, refl, ok, err, codes, Text, [], ◌++◌, arith, false, ◌∷◌, true}

tuple_form : normalize_target_arg (codes " ('h.example', 443) ") ≡ ok (codes "h.example:443")
unfolding normalize_target_arg strip strip_loop trim trim_right trim_left last_or normalize_pair
    split join_port parse_port atoi scan_number join_host_port itoa itoa_from
tuple_form = refl

ipv6_form : normalize_target_arg (codes "([::1], +080)") ≡ ok (codes "[::1]:80")
unfolding normalize_target_arg strip strip_loop trim trim_right trim_left last_or normalize_pair
    split join_port parse_port atoi scan_number join_host_port itoa itoa_from
ipv6_form = refl

plain_form : normalize_target_arg (codes "localhost:50051") ≡ ok (codes "localhost:50051")
unfolding normalize_target_arg strip strip_loop trim trim_right trim_left normalize_host_port
    split_host_port split_last join_port parse_port atoi scan_number join_host_port itoa itoa_from
plain_form = refl

port_zero : normalize_target_arg (codes "localhost:0") ≡ err bad_port
unfolding normalize_target_arg strip strip_loop trim trim_right trim_left normalize_host_port
    split_host_port split_last join_port parse_port atoi scan_number
port_zero = refl

abbrev example_host : Text
example_host = codes "h.example"

example-IsHost : IsHost example_host
example-IsHost = record { nonempty = refl; plain = refl }

normalize_target_arg-forms_example :
    (normalize_target_arg (join_host_port example_host (itoa 443))
      ≡ ok (join_host_port example_host (itoa 443)))
    × (normalize_target_arg (pair_text example_host 443)
        ≡ ok (join_host_port example_host (itoa 443)))
normalize_target_arg-forms_example =
    normalize_target_arg-forms example_host 443 example-IsHost (omega arith) (omega arith)

normalize_target_arg-IsAddress_example : IsAddress (codes "h.example:443")
normalize_target_arg-IsAddress_example =
    normalize_target_arg-IsAddress (codes " ('h.example', 443) ") (codes "h.example:443") tuple_form

abbrev pub flags : Flags
flags = record {
  file = [];
  target = codes "(h.example,443)";
  qps = pos 100;
  replicas = pos 2;
  duration = pos 30_000_000_000;
  method = [];
  use_tls = false;
  insecure = false;
  cert = [];
  key = [];
  ca = [];
  connections = pos 4;
  workers = pos 0;
  queue_capacity = pos 0;
  request_timeout = pos 5_000_000_000;
  take_over = true;
  install_root = codes "/srv";
  replay_file = [];
  takeover_cert = [];
  takeover_key = [];
  takeover_ca = [];
  burst_size = pos 5;
  burst_window = pos 20_000_000;
  burst_period = pos 1_000_000_000;
  burst_shape = codes "Spike";
  burst_jitter = codes "fixed";
  burst_mode = codes " absorbing";
}

-- Every file is there.
abbrev pub host : Host
host = record {
  join = λ a b. a ++ b'/' ∷ b;
  dir_exists = λ p. true;
  file_exists = λ p. true;
  cpus = 16;
}

unfoldable pub accepted : (c : RunConfig) × (resolve_config host flags ≡ ok c)
unfolding resolve_config take_over_flags take_over_run check or_exit check_flags takeover_sizes
    check_burst default_queue default_workers max_int parse_burst present
    resolve_takeover_install_root resolve_takeover_artifacts choose_path first_existing choose_ca
    parse_burst_jitter parse_burst_mode parse_burst_shape scan_digits split_bracketed split_first
    split_plain avg_qps enabled seconds validate is_absorbing trim_left atoi itoa itoa_from
    join_host_port scan_number split split_host_port split_last join_port normalize_host_port
    normalize_pair parse_port last_or normalize_target_arg strip strip_loop trim trim_right
accepted = (_, refl)

resolve_config-IsUsable_example : IsUsable flags accepted.0
resolve_config-IsUsable_example = resolve_config-IsUsable host flags accepted.0 accepted.1

taken_over :
    (accepted.0.workers ≡ pos 256)
    × (accepted.0.queue_capacity ≡ pos 8192)
    × (accepted.0.file ≡ codes "/srv/replay_2gb.bin")
unfolding accepted
taken_over = (refl, refl, refl)
