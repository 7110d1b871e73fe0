-- ===== src/Config/Settled.antt =====
-- What check_flags, the checks of the flags in main of main.go, makes of the flags that it accepts.
use mathlib.Core.Path.{subst}
use go_replayer.Scheduler.Burst.{BurstConfig}
use go_replayer.Prelude.Int.{is_positive, pos_part}
use go_replayer.Machine.{Machine}
use go_replayer.Config.Target.{normalize_target_arg}
use go_replayer.Config.Usable.{or_exit-ok}
use go_replayer.Config.BurstFlags.{parse_burst_shape, parse_burst_jitter, parse_burst_mode}
use go_replayer.Config.Flags.{
  ConfigError, Flags, check, or_exit, present, max_replicas, file_and_target_required, bad_target,
  qps_not_positive, replicas_not_positive, too_many_replicas, duration_not_positive,
  connections_not_positive, timeout_not_positive, cert_without_key, bad_burst_shape,
  bad_burst_jitter, bad_burst_mode,
}
use go_replayer.Config.Checks.{
  check_burst, check_flags, is_unpaired, RunConfig, parse_burst, run_config,
}
use go_replayer.Prelude.{
  Text, Option, ◌≡◌, ok, some, none, >>=-eq-ok, refl, ok-injective, not, is_empty, ◌||◌, leb,
}

present-ok : {A : Type 0} (o : Option A) (e : ConfigError) {a : A} → present o e ≡ ok a → o ≡ some a
unfolding present
present-ok (some b) e h = cc
present-ok none e h = cc

-- The bursts of a configuration are those of the flags.
pub record HasBurst (f : Flags) (b : BurstConfig) : Type 0 where
  pub size : b.size ≡ f.burst_size
  pub window : b.window ≡ f.burst_window
  pub period : b.period ≡ f.burst_period
  pub shape : parse_burst_shape f.burst_shape ≡ some b.shape
  pub jitter : parse_burst_jitter f.burst_jitter ≡ some b.jitter
  pub mode : parse_burst_mode f.burst_mode ≡ some b.mode

parse_burst-HasBurst : (f : Flags) (b : BurstConfig) → parse_burst f ≡ ok b → HasBurst f b
unfolding parse_burst
parse_burst-HasBurst f b h =
    let (shape, p, h1) =
      >>=-eq-ok (present (parse_burst_shape f.burst_shape) bad_burst_shape) _ h in
    let (jitter, q, h2) =
      >>=-eq-ok (present (parse_burst_jitter f.burst_jitter) bad_burst_jitter) _ h1 in
    let (mode, r, h3) = >>=-eq-ok (present (parse_burst_mode f.burst_mode) bad_burst_mode) _ h2 in
    subst (HasBurst f) (ok-injective h3) (record {
      size = refl;
      window = refl;
      period = refl;
      shape = present-ok _ _ p;
      jitter = present-ok _ _ q;
      mode = present-ok _ _ r;
    })

module _ ⦃m : Machine⦄ where
  pub check_flags-run_config :
      (g : Flags) (c : RunConfig)
      → check_flags g ≡ ok c
      → (target : Text) × (burst : BurstConfig) × (normalize_target_arg g.target ≡ ok target)
        × HasBurst g burst
        × (run_config g target burst ≡ c)
  unfolding check_flags
  check_flags-run_config g c h =
      let (u1, given, h1) =
        >>=-eq-ok (check (not (is_empty g.file || is_empty g.target)) file_and_target_required) _
          h in
      let (target, address, h2) =
        >>=-eq-ok (or_exit (normalize_target_arg g.target) bad_target) _ h1 in
      let (u3, qps, h3) = >>=-eq-ok (check (is_positive g.qps) qps_not_positive) _ h2 in
      let (u4, replicas, h4) =
        >>=-eq-ok (check (is_positive g.replicas) replicas_not_positive) _ h3 in
      let (u5, few, h5) =
        >>=-eq-ok (check (leb (pos_part g.replicas) max_replicas) too_many_replicas) _ h4 in
      let (u6, duration, h6) =
        >>=-eq-ok (check (is_positive g.duration) duration_not_positive) _ h5 in
      let (u7, connections, h7) =
        >>=-eq-ok (check (is_positive g.connections) connections_not_positive) _ h6 in
      let (u8, timeout, h8) =
        >>=-eq-ok (check (is_positive g.request_timeout) timeout_not_positive) _ h7 in
      let (u9, pair, h9) =
        >>=-eq-ok (check (not (is_unpaired g.cert g.key)) cert_without_key) _ h8 in
      let (burst, parsed, h10) = >>=-eq-ok (parse_burst g) _ h9 in
      let (u11, checked, h11) = >>=-eq-ok (check_burst g.qps burst) _ h10 in
      (target, burst, or_exit-ok _ _ address, parse_burst-HasBurst g burst parsed, ok-injective h11)
