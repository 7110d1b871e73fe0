-- ===== src/Scheduler/Progress.antt =====
-- Next comes back: with enough rounds it gives an arrival or the end of the schedule.
use mathlib.Core.Path.{subst}
use go_replayer.Scheduler.Emission.{next-Ordered}
use go_replayer.Scheduler.Steps.{Ordered}
use go_replayer.Scheduler.Termination.{dispatch-ne, next-fixed-ne-out_of_fuel}
use go_replayer.Scheduler.Invariant.{IsReady, Peeked, peek_candidates-Peeked}
use go_replayer.Prelude.Int.{Time, before}
use go_replayer.Prelude.{
  ℕ, ◌≡◌, List, Option-cases, suc, false, ◌∷◌, inl, ◌≢◌, inr, Bool-cases, [], refl, ◌-◌, ap, ◌+◌,
  arith, sym, ◌∙◌,
}
use go_replayer.Machine.{Machine, Laws}
use Prim.Native.Nat.{zero}
use go_replayer.Scheduler.Next.{
  next, fire_spike, fire_poisson, dispatch, peek_earliest, NextResult, arrival, SchedulerEvent,
  exhausted, advance_burst_onset, spawn_burst, crashed, out_of_fuel, ev_burst_onset, ev_none,
  peek_candidates, ev_poisson, ev_spike,
}
use go_replayer.Heap.Slice.{pop}
use go_replayer.Scheduler.State.{stream_keyed, Scheduler, drain_counters}
use go_replayer.Scheduler.Burst.{poisson, BurstConfig}

module _ ⦃m : Machine⦄ where
  -- What Next leaves of the burst configuration.
  abbrev pub Keeps : Scheduler → NextResult → Type 0
  Keeps s (arrival t k s') = (s'.burst ≡ s.burst) × (s'.burst_sched ≡ s.burst_sched)
  Keeps s (exhausted s') = (s'.burst ≡ s.burst) × (s'.burst_sched ≡ s.burst_sched)
  Keeps s crashed = Unit
  Keeps s out_of_fuel = Unit

  fire_spike-Keeps : (s : Scheduler) (t : Time) → Keeps s (fire_spike s t)
  unfolding fire_spike
  fire_spike-Keeps s t = go s.pending_spikes refl
    where
      go : (us : List Time) → s.pending_spikes ≡ us → Keeps s (fire_spike s t)
      go [] p = rw (fire_spike, p) tt
      go (u ∷ us) p = rw (fire_spike, p) (refl, refl)

  fire_poisson-Keeps : (s : Scheduler) (t : Time) → Keeps s (fire_poisson s t)
  unfolding fire_poisson
  fire_poisson-Keeps s t = elim (Option-cases (pop s.poisson_streams)) [
    | inl p ↦ rw (fire_poisson, p) tt
    | inr (x, p) ↦ rw (fire_poisson, p) (refl, refl)
  ]

  dispatch-Keeps :
      (again : Scheduler → NextResult) (s : Scheduler) (k : SchedulerEvent) (t : Time)
      → Keeps s (again (advance_burst_onset (spawn_burst s t)))
      → Keeps s (dispatch again s k t)
  unfolding dispatch
  dispatch-Keeps again s ev_none t h = (refl, refl)
  dispatch-Keeps again s ev_poisson t h = elim (Bool-cases (before t s.deadline)) [
    | inl soon ↦ rw soon (fire_poisson-Keeps s t)
    | inr late ↦ rw late (refl, refl)
  ]
  dispatch-Keeps again s ev_spike t h = elim (Bool-cases (before t s.deadline)) [
    | inl soon ↦ rw soon (fire_spike-Keeps s t)
    | inr late ↦ rw late (refl, refl)
  ]
  dispatch-Keeps again s ev_burst_onset t h = elim (Bool-cases (before t s.deadline)) [
    | inl soon ↦ rw soon h
    | inr late ↦ rw late (refl, refl)
  ]

  -- A burst leaves the configuration as it is.
  Keeps-after :
      (s : Scheduler) (t : Time) (r : NextResult)
      → Keeps (advance_burst_onset (spawn_burst s t)) r
      → Keeps s r
  unfolding advance_burst_onset spawn_burst
  Keeps-after s u (arrival t k s') h = h
  Keeps-after s u (exhausted s') h = h
  Keeps-after s u crashed h = tt
  Keeps-after s u out_of_fuel h = tt

  next-Keeps : (fuel : ℕ) (s : Scheduler) → Keeps s (next fuel s)
  unfolding next peek_earliest
  next-Keeps zero s = tt
  next-Keeps (suc fuel) s = dispatch-Keeps (next fuel) s (peek_earliest s).0 (peek_earliest s).1 (
      Keeps-after s (peek_earliest s).1
        (next fuel (advance_burst_onset (spawn_burst s (peek_earliest s).1))) (next-Keeps fuel _))

  -- Without bursts the first round is enough.
  next_quiet : (s : Scheduler) → s.burst_sched ≡ false → next 1 s ≢ out_of_fuel
  unfolding next peek_earliest
  next_quiet s off =
      let e = peek_candidates s.poisson_streams s.pending_spikes s.burst_sched s.next_burst_onset in
      dispatch-ne (next 0) s e.0 e.1 λ onset soon. absurd (
        from_onset s e.0 e.1 off onset (
          peek_candidates-Peeked s.poisson_streams s.pending_spikes s.burst_sched
            s.next_burst_onset))
    where
      from_onset :
          (s : Scheduler) (k : SchedulerEvent) (t : Time)
          → s.burst_sched ≡ false
          → k ≡ ev_burst_onset
          → Peeked s.poisson_streams s.pending_spikes s.burst_sched s.next_burst_onset (k, t)
          → ⊥
      from_onset s ev_burst_onset t off e p = let on = p.source.0 in cc
      from_onset s ev_none t off e p = cc
      from_onset s ev_spike t off e p = cc
      from_onset s ev_poisson t off e p = cc

  -- A scheduler that Next comes back from.
  pub record IsRunning (s : Scheduler) : Type 0 where
    pub now : Time
    pub ready : IsReady now s
    pub fixed_onsets : s.burst.jitter ≢ poisson

  -- What Next gives.
  abbrev pub Comes : NextResult → Type 0
  Comes (arrival t k s') = Unit
  Comes (exhausted s') = Unit
  Comes crashed = ⊥
  Comes out_of_fuel = ⊥

  came : (now deadline : Time) (r : NextResult) → Ordered now deadline r → r ≢ out_of_fuel → Comes r
  came now deadline (arrival t k s') o h = tt
  came now deadline (exhausted s') o h = tt
  came now deadline crashed o h = o
  came now deadline out_of_fuel o h = h refl

  -- Rounds that are enough.
  enough_rounds : (s : Scheduler) → IsRunning s → (fuel : ℕ) × (next fuel s ≢ out_of_fuel)
  enough_rounds s r = elim (Bool-cases s.burst_sched) [
    | inl on ↦
        let period = (r.ready.burst_valid on).period_positive in
        (
          s.deadline - s.next_burst_onset + 1,
          next-fixed-ne-out_of_fuel (s.deadline - s.next_burst_onset + 1) s period r.fixed_onsets
              (omega arith),
        )
    | inr off ↦ (1, next_quiet s off)
  ]

  pub next-Comes : Laws → (s : Scheduler) → IsRunning s → (fuel : ℕ) × Comes (next fuel s)
  next-Comes laws s r =
      let (fuel, enough) = enough_rounds s r in
      (fuel, came r.now s.deadline (next fuel s) (next-Ordered laws fuel r.now s r.ready) enough)

  abbrev pub GoesOn : NextResult → Type 0
  GoesOn (arrival t k s') = IsRunning s'
  GoesOn (exhausted s') = IsRunning s'
  GoesOn crashed = Unit
  GoesOn out_of_fuel = Unit

  goes_on :
      (s : Scheduler) (now : Time) (r : NextResult)
      → s.burst.jitter ≢ poisson
      → Ordered now s.deadline r
      → Keeps s r
      → GoesOn r
  goes_on s now (arrival t k s') h o e = record {
    now = t;
    ready = o.3;
    fixed_onsets = λ p. h (ap BurstConfig.jitter (sym e.0) ∙ p);
  }
  goes_on s now (exhausted s') h o e = record {
    now = o.0;
    ready = o.3;
    fixed_onsets = λ p. h (ap BurstConfig.jitter (sym e.0) ∙ p);
  }
  goes_on s now crashed h o e = tt
  goes_on s now out_of_fuel h o e = tt

  pub next-GoesOn :
      Laws → (fuel : ℕ) (s : Scheduler) (r : NextResult) → IsRunning s → next fuel s ≡ r → GoesOn r
  next-GoesOn laws fuel s r v e = subst GoesOn e (
      goes_on s v.now (next fuel s) v.fixed_onsets (next-Ordered laws fuel v.now s v.ready)
        (next-Keeps fuel s))

  pub drain_counters-IsRunning : (s : Scheduler) → IsRunning s → IsRunning (drain_counters s).1
  unfolding drain_counters
  drain_counters-IsRunning s v = record {
    now = v.now;
    ready = record {
      heap = v.ready.heap;
      streams = v.ready.streams;
      rates = v.ready.rates;
      sorted = v.ready.sorted;
      spikes = v.ready.spikes;
      onset = v.ready.onset;
      burst_valid = v.ready.burst_valid;
      burst_fits = v.ready.burst_fits;
    };
    fixed_onsets = v.fixed_onsets;
  }
