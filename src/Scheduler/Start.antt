-- ===== src/Scheduler/Start.antt =====
-- NewSchedulerWithReplicas builds a scheduler that is ready at its start.
use go_replayer.Prelude.Sorted.{IsSorted}
use go_replayer.Heap.Sink.{init-IsHeap}
use go_replayer.Scheduler.Steps.{add_time-nonneg}
use go_replayer.Scheduler.Emission.{times, arrivals, arrivals-from}
use mathlib.Core.Bool.{Bool-set}
use native.Mathlib.Bridge.{le_prop}
use Prim.Native.Nat.{zero}
use go_replayer.Scheduler.Invariant.{IsReady}
use mathlib.Core.List.{Mem, not-mem-nil, mem-cons}
use go_replayer.Scheduler.Spikes.{FitsInt64}
use go_replayer.Scheduler.Counters.{IsCounted}
use go_replayer.Machine.{
  Machine, Laws, poisson_interval_float, zero_float, poisson_interval-IsNonneg,
}
use mathlib.Core.List.Perm
use mathlib.Core.Logic.Or
use go_replayer.Prelude.{
  inl, inr, ◌≡◌, ℕ, none, false, length, true, arith, suc, ◌≤◌, refl, ap, All, zero, Bool-cases,
  ◌<◌, [],
}
use go_replayer.Prelude.Int.{ℤ, pos, negsuc, pos_part, is_positive, is_zero, Time, add_time}
use go_replayer.Scheduler.State.{
  stream_keyed, new_streams, new_scheduler_with_replicas, PoissonStream, base_rate_of, at_least_one,
}
use go_replayer.Scheduler.Burst.{BurstConfig, IsBurst, validate, enabled, validate-none_iff}

module _ ⦃m : Machine⦄ where
  open m use {Float, Rng, is_nan, div, of_int, lt}

  new_streams-next :
      Laws
      → (n : ℕ) (rate : Float) (start : Time) (g : Rng) → is_nan rate ≡ false
      → (p : PoissonStream) → Mem p (new_streams n rate start g).0
      → start ≤ p.next
  unfolding new_streams
  new_streams-next laws zero rate start g num p i = absurd (not-mem-nil i)
  new_streams-next laws (suc n) rate start g num p i =
      let gap = poisson_interval_float rate g in
      Or.elim le_prop (mem-cons.0 i)
        (λ e. rw e (add_time-nonneg start gap.0 (poisson_interval-IsNonneg laws rate g num)))
        (λ j. new_streams-next laws n rate start gap.1 num p j)

  new_streams-rate :
      (n : ℕ) (rate : Float) (start : Time) (g : Rng)
      → is_nan rate ≡ false
      → (p : PoissonStream) → Mem p (new_streams n rate start g).0
      → is_nan p.rate ≡ false
  unfolding new_streams
  new_streams-rate zero rate start g num p i = absurd (not-mem-nil i)
  new_streams-rate (suc n) rate start g num p i =
      Or.elim (Bool-set _ _) (mem-cons.0 i) (λ e. rw e num)
        (λ j. new_streams-rate n rate start (poisson_interval_float rate g).1 num p j)

  pub length-new_streams :
      (n : ℕ) (rate : Float) (start : Time) (g : Rng) → length (new_streams n rate start g).0 ≡ n
  unfolding new_streams
  length-new_streams zero rate start g = refl
  length-new_streams (suc n) rate start g =
      ap suc (length-new_streams n rate start (poisson_interval_float rate g).1)

  enabled-IsBurst : (c : BurstConfig) → validate c ≡ none → enabled c ≡ true → IsBurst c
  unfolding enabled
  enabled-IsBurst c v on = elim ((validate-none_iff c).0 v) [
    | inl off ↦ absurd (ground (arith, off_not_positive c.size off))
    | inr b ↦ b
  ]
    where
      off_not_positive : (n : ℤ) → is_zero n ≡ true → is_positive n ≡ false
      off_not_positive (pos zero) e = refl
      off_not_positive (pos (suc n)) e = cc
      off_not_positive (negsuc n) e = refl

  start_onset :
      (c : BurstConfig) (start : Time)
      → validate c ≡ none
      → enabled c ≡ true
      → start ≤ add_time start c.period
  start_onset c start v on = later c.period (enabled-IsBurst c v on).period_positive
    where
      later : (d : ℤ) → is_positive d ≡ true → start ≤ add_time start d
      later (pos n) q = omega arith
      later (negsuc n) q = cc

  module _ (target_qps replicas : ℤ) (cfg : BurstConfig) (start deadline : Time) (g : Rng) where
    -- Under the laws, the scheduler that NewSchedulerWithReplicas builds from a configuration that Validate accepts and
    -- that fits int64, with a rate per replica that is not NaN, is ready at its start time.
    pub new_scheduler-IsReady :
        Laws
        → validate cfg ≡ none
        → FitsInt64 cfg
        → is_nan (div (base_rate_of target_qps cfg) (of_int (at_least_one replicas))) ≡ false
        → IsReady start (new_scheduler_with_replicas target_qps replicas cfg start deadline g)
    unfolding new_scheduler_with_replicas
    new_scheduler-IsReady laws v f num =
        elim (Bool-cases (lt zero_float (base_rate_of target_qps cfg))) [
          | inl flows ↦
              let n = pos_part (at_least_one replicas) in
              let rate = div (base_rate_of target_qps cfg) (of_int (at_least_one replicas)) in
              let streams = (new_streams n rate start g).0 in
              let heap = init-IsHeap streams in
              rw flows (record {
                heap = heap.0;
                streams =
                    λ p i. new_streams-next laws n rate start g num p ((Perm.mem_iff heap.1).0 i);
                rates = λ p i. new_streams-rate n rate start g num p ((Perm.mem_iff heap.1).0 i);
                sorted = tt;
                spikes = tt;
                onset = λ on. rw on (start_onset cfg start v on);
                burst_valid = enabled-IsBurst cfg v;
                burst_fits = λ _. f;
              })
          | inr idle ↦ rw idle (record {
            heap = (init-IsHeap []).0;
            streams = λ p i. absurd (not-mem-nil ((Perm.mem_iff (init-IsHeap []).1).0 i));
            rates = λ p i. absurd (not-mem-nil ((Perm.mem_iff (init-IsHeap []).1).0 i));
            sorted = tt;
            spikes = tt;
            onset = λ on. rw on (start_onset cfg start v on);
            burst_valid = enabled-IsBurst cfg v;
            burst_fits = λ _. f;
          })
        ]

    pub new_scheduler-IsCounted :
        IsCounted (new_scheduler_with_replicas target_qps replicas cfg start deadline g)
    unfolding new_scheduler_with_replicas
    new_scheduler-IsCounted = record { reported = refl; conserved = omega arith }

  -- The whole schedule: under the laws of the machine, every arrival of a run of the sender over a
  -- scheduler that NewSchedulerWithReplicas builds from a configuration that Validate accepts and whose
  -- products fit int64, with a rate per replica that is not NaN, lies between the start and the
  -- deadline, and the arrivals are in time order.
  pub arrivals_ordered :
      Laws
      → (target_qps replicas : ℤ) (cfg : BurstConfig) (start deadline : Time) (g : Rng) (n fuel : ℕ)
      → validate cfg ≡ none
      → FitsInt64 cfg
      → is_nan (div (base_rate_of target_qps cfg) (of_int (at_least_one replicas))) ≡ false
      → All
          (λ t. (start ≤ t) × (t < deadline))
          (times (
            arrivals n fuel (new_scheduler_with_replicas target_qps replicas cfg start deadline g)))
        × IsSorted (
            times (
              arrivals n fuel
                (new_scheduler_with_replicas target_qps replicas cfg start deadline g)))
  unfolding new_scheduler_with_replicas
  arrivals_ordered laws qps reps cfg start deadline g n fuel v f num =
      arrivals-from laws n fuel start (new_scheduler_with_replicas qps reps cfg start deadline g)
        (new_scheduler-IsReady qps reps cfg start deadline g laws v f num)
