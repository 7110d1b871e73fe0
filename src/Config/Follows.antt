-- ===== src/Config/Follows.antt =====
-- What main of main.go starts a run with is what the flags say, in takeover mode with what the install
-- root has for the flags that are not given.
use go_replayer.Config.Settled.{check_flags-run_config}
use go_replayer.Replay.Takeover.{
  TakeoverArtifacts, resolve_takeover_install_root, resolve_takeover_artifacts,
}
use mathlib.Core.Path.{subst}
use go_replayer.Prelude.Int.{pos, mul64}
use go_replayer.Machine.{Machine}
use go_replayer.Config.Target.{normalize_target_arg}
use go_replayer.Config.Usable.{or_exit-ok}
use go_replayer.Config.BurstFlags.{parse_burst_shape, parse_burst_jitter, parse_burst_mode}
use go_replayer.Config.Flags.{
  max_int, Flags, check, or_exit, take_over_flags, takeover_sizes, Host, take_over_run,
  takeover_needs_target, takeover, or_else, is_int, fill_flags,
}
use go_replayer.Config.Checks.{check_flags, RunConfig, resolve_config}
use go_replayer.Prelude.{
  Text, ◌≡◌, ok, some, true, false, arith, Bool-cases, >>=-eq-ok, refl, inl, inr, ok-injective, ◌⊎◌,
  if◌then◌else◌, ap, not, is_empty, ◌∙◌,
}

-- The flags of the file, of TLS and of the connections, as they are given.
pub record IsAsGiven (f : Flags) (c : RunConfig) : Type 0 where
  pub file : c.file ≡ f.file
  pub cert : c.cert ≡ f.cert
  pub key : c.key ≡ f.key
  pub ca : c.ca ≡ f.ca
  pub use_tls : c.use_tls ≡ f.use_tls
  pub connections : c.connections ≡ f.connections

-- The same in takeover mode: a path that is not given is that of the artifact, TLS is used, and the
-- default of four connections becomes 32, or four for each CPU where that is more.
pub record IsTakenOver (host : Host) (f : Flags) (c : RunConfig) : Type 0 where
  pub root : Text
  pub artifacts : TakeoverArtifacts
  pub rooted : resolve_takeover_install_root f.install_root host.dir_exists ≡ ok root
  pub found :
      resolve_takeover_artifacts host.join root f.replay_file f.takeover_cert f.takeover_key
        f.takeover_ca host.file_exists
      ≡ ok artifacts
  pub file : c.file ≡ or_else f.file (TakeoverArtifacts.replay_file artifacts)
  pub cert : c.cert ≡ or_else f.cert (TakeoverArtifacts.cert_file artifacts)
  pub key : c.key ≡ or_else f.key (TakeoverArtifacts.key_file artifacts)
  pub ca : c.ca ≡ or_else f.ca (TakeoverArtifacts.ca_file artifacts)
  pub use_tls : c.use_tls ≡ true
  pub connections : c.connections ≡ (
      if is_int f.connections 4 then max_int (pos 32) (mul64 (pos host.cpus) 4) else f.connections)

pub record Follows (host : Host) (f : Flags) (c : RunConfig) : Type 0 where
  pub target : normalize_target_arg f.target ≡ ok c.target
  pub qps : c.qps ≡ f.qps
  pub replicas : c.replicas ≡ f.replicas
  pub duration : c.duration ≡ f.duration
  pub method : c.method ≡ f.method
  pub insecure : c.insecure ≡ f.insecure
  pub request_timeout : c.request_timeout ≡ f.request_timeout
  pub burst_size : c.burst.size ≡ f.burst_size
  pub burst_window : c.burst.window ≡ f.burst_window
  pub burst_period : c.burst.period ≡ f.burst_period
  pub burst_shape : parse_burst_shape f.burst_shape ≡ some c.burst.shape
  pub burst_jitter : parse_burst_jitter f.burst_jitter ≡ some c.burst.jitter
  pub burst_mode : parse_burst_mode f.burst_mode ≡ some c.burst.mode
  pub given_or_taken :
      (f.take_over ≡ false) × IsAsGiven f c ⊎ (f.take_over ≡ true) × IsTakenOver host f c

module _ ⦃m : Machine⦄ where
  as_given-Follows :
      (host : Host) (f : Flags) (c : RunConfig)
      → f.take_over ≡ false
      → check_flags f ≡ ok c
      → Follows host f c
  as_given-Follows host f c off h =
      let (target, burst, address, b, same) = check_flags-run_config f c h in
      subst (Follows host f) same (record {
        target = address;
        qps = refl;
        replicas = refl;
        duration = refl;
        method = refl;
        insecure = refl;
        request_timeout = refl;
        burst_size = b.size;
        burst_window = b.window;
        burst_period = b.period;
        burst_shape = b.shape;
        burst_jitter = b.jitter;
        burst_mode = b.mode;
        given_or_taken = inl (
          off,
          record {
            file = refl;
            cert = refl;
            key = refl;
            ca = refl;
            use_tls = refl;
            connections = refl;
          },
        );
      })

  taken_over-Follows :
      (host : Host) (f g : Flags) (c : RunConfig)
      → f.take_over ≡ true
      → take_over_run host f ≡ ok g
      → check_flags g ≡ ok c
      → Follows host f c
  unfolding take_over_run takeover_sizes max_int
  taken_over-Follows host f g c on run h =
      let (u, named, h1) =
        >>=-eq-ok (check (not (is_empty f.target)) takeover_needs_target) _ run in
      let (root, rooted, h2) =
        >>=-eq-ok (or_exit (resolve_takeover_install_root f.install_root host.dir_exists) takeover)
          _ h1 in
      let (a, chosen, h3) =
        >>=-eq-ok
          (or_exit
            (resolve_takeover_artifacts host.join root f.replay_file f.takeover_cert f.takeover_key
              f.takeover_ca host.file_exists)
            takeover)
          _ h2 in
      let filled : takeover_sizes host.cpus (fill_flags a f) ≡ g = ok-injective h3 in
      let (target, burst, address, b, same) =
        check_flags-run_config (takeover_sizes host.cpus (fill_flags a f)) c
          (ap check_flags filled ∙ h) in
      subst (Follows host f) same (record {
        target = address;
        qps = refl;
        replicas = refl;
        duration = refl;
        method = refl;
        insecure = refl;
        request_timeout = refl;
        burst_size = b.size;
        burst_window = b.window;
        burst_period = b.period;
        burst_shape = b.shape;
        burst_jitter = b.jitter;
        burst_mode = b.mode;
        given_or_taken = inr (
          on,
          record {
            root = root;
            artifacts = a;
            rooted = or_exit-ok _ _ rooted;
            found = or_exit-ok _ _ chosen;
            file = refl;
            cert = refl;
            key = refl;
            ca = refl;
            use_tls = refl;
            connections = refl;
          },
        );
      })

  -- Whatever flags main accepts, the run has what they say.
  pub resolve_config-Follows :
      (host : Host) (f : Flags) (c : RunConfig) → resolve_config host f ≡ ok c → Follows host f c
  unfolding resolve_config take_over_flags
  resolve_config-Follows host f c h =
      let (g, taken, checked) = >>=-eq-ok (take_over_flags host f) _ h in
      elim (Bool-cases f.take_over) [
        | inl on ↦
            let run : take_over_run host f ≡ ok g = ground arith in
            taken_over-Follows host f g c on run checked
        | inr off ↦
            let same : f ≡ g = ground arith in
            as_given-Follows host f c off (ap check_flags same ∙ checked)
      ]
