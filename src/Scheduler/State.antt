-- ===== src/Scheduler/State.antt =====
-- The Scheduler of scheduler.go, its constructor and its accessors.
use Prim.Native.Nat.{zero}
use go_replayer.Heap.Slice.{Keyed, init}
use go_replayer.Machine.{Machine, zero_float, poisson_interval_float}
use go_replayer.Prelude.{ℕ, ◌+◌, List, Bool, if◌then◌else◌, suc, [], true, ◌&&◌, zero, false, ◌∷◌}
use go_replayer.Prelude.Int.{
  ℤ, pos, negsuc, pos_part, neg_part, is_positive, sub_ℕ, quo, mul64, Time, add_time,
}
use go_replayer.Scheduler.Burst.{BurstConfig, absorbing, enabled, avg_qps}

pub data ArrivalKind : Type 0 where
  arrival_base arrival_spike : ArrivalKind

-- A SchedulerCounters. The int64 counters count arrivals one by one and do not reach 2^63.
pub record SchedulerCounters : Type 0 where
  pub bursts_fired : ℕ
  pub spikes_fired : ℕ
  pub base_fired : ℕ

-- Total
unfoldable pub total : SchedulerCounters → ℕ
total c = c.base_fired + c.spikes_fired

module _ ⦃m : Machine⦄ where
  open m use {Float, lt, sub, div, of_int, Rng}

  pub record PoissonStream : Type 0 where
    pub rate : Float
    pub next : Time

  -- poissonHeap orders by the next arrival.
  instance abbrev pub stream_keyed : Keyed PoissonStream
  stream_keyed = record { key = λ s. s.next; filler = record { rate = of_int (pos 0); next = 0 } }

  -- `fired` and `latched` are the cumulative counters and the latches; `spawned` lists the calls of
  -- OnBurstSpawned, oldest first.
  pub record Scheduler : Type 0 where
    pub base_rate : Float
    pub replicas : ℤ
    pub burst : BurstConfig
    pub deadline : Time
    pub rng : Rng
    pub poisson_streams : List PoissonStream
    pub next_burst_onset : Time
    pub burst_sched : Bool
    pub pending_spikes : List Time
    pub pending_spikes_cap : ℤ
    pub fired : SchedulerCounters
    pub latched : SchedulerCounters
    pub spawned : List (Time × BurstConfig)

  -- The loop that fills poissonStreams, `n` streams still to go.
  unfoldable pub new_streams : ℕ → Float → Time → Rng → List PoissonStream × Rng
  new_streams zero rate start g = ([], g)
  new_streams (suc n) rate start g =
      let (gap, g') = poisson_interval_float rate g in
      let (rest, g'') = new_streams n rate start g' in
      (record { rate = rate; next = add_time start gap } ∷ rest, g'')

  unfoldable pub is_absorbing : BurstConfig → Bool
  is_absorbing c = elim c.mode [ absorbing ↦ true | _ ↦ false ]

  -- The base rate: --qps, less the burst average in absorbing mode, and not below 0.
  unfoldable pub base_rate_of : ℤ → BurstConfig → Float
  unfolding is_absorbing
  base_rate_of target_qps cfg =
      let reduced = sub (of_int target_qps) (avg_qps cfg) in
      if enabled cfg && is_absorbing cfg
      then (if lt reduced zero_float then zero_float else reduced)
      else of_int target_qps

  abbrev pub no_counters : SchedulerCounters
  no_counters = record { bursts_fired = 0; spikes_fired = 0; base_fired = 0 }

  abbrev pub at_least_one : ℤ → ℤ
  at_least_one (pos zero) = pos 1
  at_least_one (pos (suc n)) = pos (suc n)
  at_least_one (negsuc n) = pos 1

  -- `cfg.Size * (int(cfg.Window/cfg.Period) + 2)`, with positive size and period
  unfoldable pub spikes_cap : BurstConfig → ℤ
  spikes_cap cfg =
      let q = quo cfg.window (pos_part cfg.period) in
      mul64 (sub_ℕ (pos_part q + 2) (neg_part q)) (pos_part cfg.size)

  -- NewSchedulerWithReplicas; NewScheduler is its call with one replica.
  unfoldable pub new_scheduler_with_replicas : ℤ → ℤ → BurstConfig → Time → Time → Rng → Scheduler
  new_scheduler_with_replicas target_qps replicas cfg start deadline g =
      let n = at_least_one replicas in
      let base = base_rate_of target_qps cfg in
      let (streams, g') =
        if lt zero_float base
        then new_streams (pos_part n) (div base (of_int n)) start g
        else ([], g) in
      let on = enabled cfg in
      record {
        base_rate = base;
        replicas = n;
        burst = cfg;
        deadline = deadline;
        rng = g';
        poisson_streams = init streams;
        next_burst_onset = if on then add_time start cfg.period else 0;
        burst_sched = on;
        pending_spikes = [];
        pending_spikes_cap = if on then spikes_cap cfg else pos 0;
        fired = no_counters;
        latched = no_counters;
        spawned = [];
      }

  unfoldable pub new_scheduler : ℤ → BurstConfig → Time → Time → Rng → Scheduler
  unfolding new_scheduler_with_replicas
  new_scheduler target_qps = new_scheduler_with_replicas target_qps (pos 1)

  -- PerReplicaBaseRate
  unfoldable pub per_replica_base_rate : Scheduler → Float
  per_replica_base_rate s =
      if is_positive s.replicas then div s.base_rate (of_int s.replicas) else of_int (pos 0)

  -- SnapshotCounters
  unfoldable pub snapshot_counters : Scheduler → SchedulerCounters
  snapshot_counters s = s.fired

  -- DrainCounters returns the latches and resets them.
  unfoldable pub drain_counters : Scheduler → SchedulerCounters × Scheduler
  drain_counters s = (s.latched, record s { latched = no_counters })
