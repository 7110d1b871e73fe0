-- ===== src/Config/Usable.antt =====
-- What main of main.go has made sure of when it loads the requests.
use go_replayer.Replay.Takeover.{resolve_takeover_install_root, resolve_takeover_artifacts}
use mathlib.Core.Path.{subst}
use go_replayer.Scheduler.State.{is_absorbing}
use go_replayer.Config.Address.{IsAddress, normalize_target_arg-IsAddress}
use go_replayer.Scheduler.Burst.{BurstConfig, validate, avg_qps}
use go_replayer.Prelude.Int.{ℤ, is_positive, pos, negsuc, pos_part, mul64}
use go_replayer.Machine.{Machine}
use go_replayer.Config.Flags.{
  max_int, ConfigError, Flags, check, or_exit, absorbing_exceeds_qps, take_over_flags,
  takeover_sizes, Host, take_over_run, takeover_needs_target, takeover,
}
use go_replayer.Config.Checks.{
  default_workers, default_queue, check_burst, check_flags, RunConfig, is_unpaired, parse_burst,
  run_config, resolve_config,
}
use go_replayer.Prelude.{
  Bool, Outcome, ℕ, ◌≡◌, is_empty, ◌&&◌, ok, suc, true, false, not, arith, Bool-cases, >>=-eq-ok,
  refl, inl, none, inr, ◌≤◌, leb→le, Option-cases, ok-injective, err, ◌||◌, stuck, sym, ap,
}

check-ok : (b : Bool) (e : ConfigError) {u : Unit {0}} → check b e ≡ ok u → b ≡ true
unfolding check
check-ok true e h = refl
check-ok false e h = cc

pub or_exit-ok :
    {E A : Type 0} (o : Outcome E A) (wrap : E → ConfigError) {a : A}
    → or_exit o wrap ≡ ok a
    → o ≡ ok a
unfolding or_exit
or_exit-ok (ok b) wrap h = cc
or_exit-ok (err e) wrap h = cc
or_exit-ok stuck wrap h = cc

max_int-positive : (n : ℕ) (x : ℤ) → is_positive (max_int (pos (suc n)) x) ≡ true
unfolding max_int
max_int-positive n (pos x) = ground arith
max_int-positive n (negsuc x) = ground arith

default_workers-positive : (f : Flags) → is_positive (default_workers f) ≡ true
unfolding default_workers
default_workers-positive f = elim (Bool-cases (is_positive f.workers)) [
  | inl given ↦ rw (given, given) refl
  | inr none_given ↦ rw none_given (max_int-positive 7 (mul64 f.connections 2))
]

default_queue-positive : (w q : ℤ) → is_positive (default_queue w q) ≡ true
unfolding default_queue
default_queue-positive w q = elim (Bool-cases (is_positive q)) [
  | inl given ↦ rw (given, given) refl
  | inr none_given ↦ rw none_given (max_int-positive 511 (mul64 w 16))
]

-- A configuration that a run can start with.
module _ ⦃m : Machine⦄ where
  open m use {lt, of_int}

  pub record IsUsable (f : Flags) (c : RunConfig) : Type 0 where
    pub file_given : is_empty c.file ≡ false
    pub target_address : IsAddress c.target
    pub qps_positive : is_positive c.qps ≡ true
    pub replicas_positive : is_positive c.replicas ≡ true
    pub replicas_bounded : pos_part c.replicas ≤ 10000
    pub duration_positive : is_positive c.duration ≡ true
    pub connections_positive : is_positive c.connections ≡ true
    pub timeout_positive : is_positive c.request_timeout ≡ true
    pub workers_positive : is_positive c.workers ≡ true
    pub queue_positive : is_positive c.queue_capacity ≡ true
    pub paired : is_empty c.cert ≡ is_empty c.key
    pub burst_valid : validate c.burst ≡ none
    pub burst_fits : is_absorbing c.burst && lt (of_int c.qps) (avg_qps c.burst) ≡ false
    pub tls_taken_over : f.take_over && not c.use_tls ≡ false

  check_burst-ok :
      (qps : ℤ) (b : BurstConfig) {u : Unit {0}}
      → check_burst qps b ≡ ok u
      → (validate b ≡ none) × (is_absorbing b && lt (of_int qps) (avg_qps b) ≡ false)
  unfolding check_burst
  check_burst-ok qps b {u = u} h = elim (Option-cases (validate b)) [
    | inl valid ↦
        let fits : check (not (is_absorbing b && lt (of_int qps) (avg_qps b))) absorbing_exceeds_qps
            ≡ ok u =
          ground arith in
        let fit = check-ok _ _ fits in (valid, ground arith)
    -- ground (arith, check-ok (not (is_absorbing b && lt (of_int qps) (avg_qps b))) absorbing_exceeds_qps fits))
    | inr (e, bad) ↦ absurd (ground arith)
  ]

  check_flags-IsUsable :
      (f g : Flags) (c : RunConfig)
      → f.take_over && not g.use_tls ≡ false
      → check_flags g ≡ ok c
      → IsUsable f c
  unfolding check_flags
  check_flags-IsUsable f g c tls h =
      let (u1, given, h1) = >>=-eq-ok _ _ h in
      let (target, address, h2) = >>=-eq-ok _ _ h1 in
      let (u3, qps, h3) = >>=-eq-ok _ _ h2 in
      let (u4, replicas, h4) = >>=-eq-ok _ _ h3 in
      let (u5, few, h5) = >>=-eq-ok _ _ h4 in
      let (u6, duration, h6) = >>=-eq-ok _ _ h5 in
      let (u7, connections, h7) = >>=-eq-ok _ _ h6 in
      let (u8, timeout, h8) = >>=-eq-ok _ _ h7 in
      let (u9, pair, h9) = >>=-eq-ok _ _ h8 in
      let (burst, parsed, h10) = >>=-eq-ok (parse_burst g) _ h9 in
      let (u11, checked, h11) = >>=-eq-ok _ _ h10 in
      let named = check-ok (not (is_empty g.file || is_empty g.target)) _ given in
      let paired = check-ok (not (is_unpaired g.cert g.key)) _ pair in
      let (valid, fits) = check_burst-ok g.qps burst checked in
      let usable : IsUsable f (run_config g target burst) = (record {
        file_given = ground (arith, named);
        target_address = normalize_target_arg-IsAddress _ _ (or_exit-ok _ _ address);
        qps_positive = check-ok _ _ qps;
        replicas_positive = check-ok _ _ replicas;
        replicas_bounded = leb→le _ _ (check-ok _ _ few);
        duration_positive = check-ok _ _ duration;
        connections_positive = check-ok _ _ connections;
        timeout_positive = check-ok _ _ timeout;
        workers_positive = default_workers-positive g;
        queue_positive = default_queue-positive (default_workers g) g.queue_capacity;
        paired = ground (arith, paired);
        burst_valid = valid;
        burst_fits = fits;
        tls_taken_over = tls;
      }) in
      subst (IsUsable f) (ok-injective h11) usable

  take_over_run-tls : (host : Host) (f g : Flags) → take_over_run host f ≡ ok g → g.use_tls ≡ true
  unfolding take_over_run takeover_sizes
  take_over_run-tls host f g h =
      let (u, target, h1) = >>=-eq-ok (check (not (is_empty f.target)) takeover_needs_target) _ h in
      let (root, found, h2) =
        >>=-eq-ok (or_exit (resolve_takeover_install_root f.install_root host.dir_exists) takeover)
          _ h1 in
      let (a, chosen, h3) =
        >>=-eq-ok
          (or_exit
            (resolve_takeover_artifacts host.join root f.replay_file f.takeover_cert f.takeover_key
              f.takeover_ca host.file_exists)
            takeover)
          _ h2 in
      sym (ap Flags.use_tls (ok-injective h3))

  take_over_flags-tls :
      (host : Host) (f g : Flags)
      → take_over_flags host f ≡ ok g
      → f.take_over && not g.use_tls ≡ false
  unfolding take_over_flags
  take_over_flags-tls host f g h = elim (Bool-cases f.take_over) [
    | inl taken ↦
        let run : take_over_run host f ≡ ok g = ground arith in
        let tls = take_over_run-tls host f g run in ground (arith, tls)
    | inr given ↦ rw given refl
  ]

  -- A configuration that main accepts names a replay file, has a target that is the join of a host and
  -- a port from 1 to 65535, has a rate, replicas up to 10,000, a duration, connections, a timeout,
  -- workers and a queue that are positive, has a certificate exactly with a key, has bursts that
  -- Validate accepts, which in absorbing mode do not exceed the rate, and uses TLS in takeover mode.
  pub resolve_config-IsUsable :
      (host : Host) (f : Flags) (c : RunConfig) → resolve_config host f ≡ ok c → IsUsable f c
  unfolding resolve_config
  resolve_config-IsUsable host f c h =
      let (g, taken, checked) = >>=-eq-ok (take_over_flags host f) _ h in
      check_flags-IsUsable f g c (take_over_flags-tls host f g taken) checked
