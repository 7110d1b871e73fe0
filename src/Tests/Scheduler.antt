-- ===== src/Tests/Scheduler.antt =====
-- A schedule of ten seconds: two replicas of one request per second each, and a burst of three
-- requests over 900 ms every two seconds.
use go_replayer.Scheduler.State.{
  spikes_cap, is_absorbing, Scheduler, new_scheduler_with_replicas, arrival_spike, drain_counters,
  SchedulerCounters, base_rate_of, new_streams,
}
use go_replayer.Scheduler.Next.{
  spike_times, random_times, onset_gap, fire_spike, fire_poisson, next, out_of_fuel, peek_earliest,
  arrival, dispatch, advance_burst_onset, spawn_burst, merge_spikes, fresh_times, uniform_times,
}
use go_replayer.Scheduler.Burst.{
  seconds, avg_qps, BurstConfig, uniform, fixed, additive, enabled, validate, IsBurst,
  validate-none_iff, poisson,
}
use go_replayer.Prelude.Sorted.{sort, IsSorted}
use go_replayer.Machine.{positive_draw, poisson_interval_float}
use go_replayer.Heap.Slice.{
  up_loop, up, swap, push, init, init_loop, down, down_loop, less, get, smaller_child, pop,
}
use go_replayer.Prelude.{
  ◌≡◌, ◌≢◌, ◌≤◌, ◌<◌, ◌↔◌, ◌⊎◌, All, refl, arith, none, true, ◌-◌, sum_of, ◌∷◌, [], ◌+◌, length,
  ◌*◌,
}
use go_replayer.Prelude.Int.{pos, Time, is_zero, is_positive, pos_part}
use go_replayer.Scheduler.Spikes.{FitsInt64}
use go_replayer.Scheduler.Invariant.{IsReady}
use go_replayer.Scheduler.Steps.{Ordered}
use go_replayer.Scheduler.Emission.{arrivals, times, next-Ordered}
use go_replayer.Scheduler.Termination.{next-fixed-ne-out_of_fuel}
use go_replayer.Scheduler.Counters.{
  IsCounted, Counted, next-Counted, Reported, drained, sent, begin, Reported-balance,
}
use go_replayer.Scheduler.Start.{new_scheduler-IsReady, new_scheduler-IsCounted, arrivals_ordered}
use go_replayer.Tests.Arithmetic.{small_machine, small_laws}

abbrev config : BurstConfig
config = record {
  size = pos 3;
  window = pos 900_000_000;
  period = pos 2_000_000_000;
  shape = uniform;
  jitter = fixed;
  mode = additive;
}

abbrev begins : Time
begins = 63_000_000_000_000_000_000

abbrev ends : Time
ends = 63_000_000_010_000_000_000

abbrev demo : Scheduler
demo = new_scheduler_with_replicas (pos 2) (pos 2) config begins ends 0

config_valid : validate config ≡ none
unfolding validate
config_valid = refl

config-FitsInt64 : FitsInt64 config
config-FitsInt64 = record {
  spike_fits = omega arith;
  uniform_fits = omega arith;
  window_fits = omega arith;
  period_fits = omega arith;
}

validate-none_iff_example :
    (validate config ≡ none) ↔ ((is_zero config.size ≡ true) ⊎ IsBurst config)
validate-none_iff_example = validate-none_iff config

new_scheduler-IsReady_example : IsReady begins demo
new_scheduler-IsReady_example =
    new_scheduler-IsReady (pos 2) (pos 2) config begins ends 0 small_laws config_valid
      config-FitsInt64 refl

demo-IsReady : IsReady begins demo
demo-IsReady =
    new_scheduler-IsReady (pos 2) (pos 2) config begins ends 0 small_laws config_valid
      config-FitsInt64 refl

demo-IsCounted : IsCounted demo
demo-IsCounted = new_scheduler-IsCounted (pos 2) (pos 2) config begins ends 0

next-Ordered_example : Ordered begins demo.deadline (next 5 demo)
next-Ordered_example = next-Ordered small_laws 5 begins demo demo-IsReady

next-Counted_example : Counted demo (next 5 demo)
next-Counted_example = next-Counted 5 demo demo-IsCounted

arrivals_ordered_example :
    All (λ t. (begins ≤ t) × (t < ends)) (times (arrivals 9 9 demo))
    × IsSorted (times (arrivals 9 9 demo))
arrivals_ordered_example =
    arrivals_ordered small_laws (pos 2) (pos 2) config begins ends 0 9 9 config_valid
      config-FitsInt64 refl

demo_positive : is_positive demo.burst.period ≡ true
unfolding new_scheduler_with_replicas
demo_positive = refl

demo_fixed : demo.burst.jitter ≢ poisson
unfolding new_scheduler_with_replicas
demo_fixed h = cc

demo_fuel : demo.deadline - demo.next_burst_onset < 8_000_000_001
unfolding new_scheduler_with_replicas enabled
demo_fuel = omega arith

next-fixed-ne-out_of_fuel_example : next 8_000_000_001 demo ≢ out_of_fuel
next-fixed-ne-out_of_fuel_example =
    next-fixed-ne-out_of_fuel 8_000_000_001 demo demo_positive demo_fixed demo_fuel

-- The first arrival: the two streams both come three seconds after the start, and the burst before.
first_arrival : (s : Scheduler) × (next 5 demo ≡ arrival 63_000_000_002_000_000_000 arrival_spike s)
unfolding next peek_earliest new_scheduler_with_replicas dispatch enabled init init_loop
    base_rate_of new_streams down down_loop less get smaller_child poisson_interval_float
    advance_burst_onset spawn_burst merge_spikes fresh_times uniform_times pop push swap up up_loop
    positive_draw sort avg_qps seconds fire_poisson fire_spike onset_gap random_times spike_times
    is_absorbing spikes_cap
first_arrival = (_, refl)

one_tick :
    Reported demo (drain_counters first_arrival.0).1 ((drain_counters first_arrival.0).0 ∷ [])
one_tick = drained (sent begin 5 _ _ first_arrival.1) refl

demo_fresh : demo.latched ≡ demo.fired
unfolding new_scheduler_with_replicas
demo_fresh = refl

Reported-balance_example :
    (sum_of (λ c. SchedulerCounters.base_fired c) ((drain_counters first_arrival.0).0 ∷ [])
        + (drain_counters first_arrival.0).1.latched.base_fired
      ≡ (drain_counters first_arrival.0).1.fired.base_fired)
    × (sum_of (λ c. SchedulerCounters.spikes_fired c) ((drain_counters first_arrival.0).0 ∷ [])
          + (drain_counters first_arrival.0).1.latched.spikes_fired
        ≡ (drain_counters first_arrival.0).1.fired.spikes_fired)
    × ((drain_counters first_arrival.0).1.fired.spikes_fired
          + length (drain_counters first_arrival.0).1.pending_spikes
        ≡ pos_part (drain_counters first_arrival.0).1.burst.size
          * (drain_counters first_arrival.0).1.fired.bursts_fired)
Reported-balance_example = Reported-balance demo-IsCounted demo_fresh one_tick
