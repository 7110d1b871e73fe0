-- ===== src/Scheduler/Termination.antt =====
-- Next's loop ends: how many rounds are enough.
use Prim.Native.Nat.{zero}
use go_replayer.Scheduler.Invariant.{Peeked, peek_candidates-Peeked}
use go_replayer.Scheduler.Burst.{BurstConfig, poisson, BurstJitter, other_jitter, fixed}
use go_replayer.Heap.Slice.{pop}
use go_replayer.Prelude.{
  ◌≢◌, ◌≡◌, List, Option-cases, ◌<◌, ◌∷◌, inl, [], inr, arith, refl, true, ℕ, ◌-◌, suc, zero,
}
use go_replayer.Machine.{Machine}
use go_replayer.Prelude.Int.{Time, is_positive, ℤ, add_time, pos, negsuc}
use go_replayer.Scheduler.State.{stream_keyed, Scheduler}
use go_replayer.Scheduler.Next.{
  SchedulerEvent, ev_none, ev_poisson, ev_spike, ev_burst_onset, NextResult, out_of_fuel,
  fire_spike, fire_poisson, dispatch, advance_burst_onset, spawn_burst, onset_gap, next,
  peek_earliest, peek_candidates,
}

module _ ⦃m : Machine⦄ where
  open m use {Rng}

  fire_spike-ne : (s : Scheduler) (t : Time) → fire_spike s t ≢ out_of_fuel
  unfolding fire_spike
  fire_spike-ne s t e = go s.pending_spikes refl
    where
      go : (us : List Time) → s.pending_spikes ≡ us → ⊥
      go [] p = cc (rw (p, fire_spike) at e)
      go (u ∷ us) p = cc (rw (p, fire_spike) at e)

  fire_poisson-ne : (s : Scheduler) (t : Time) → fire_poisson s t ≢ out_of_fuel
  unfolding fire_poisson
  fire_poisson-ne s t e = elim (Option-cases (pop s.poisson_streams)) [
    | inl p ↦ cc (rw (p, fire_poisson) at e)
    | inr (x, p) ↦ cc (rw (p, fire_poisson) at e)
  ]

  pub dispatch-ne :
      (again : Scheduler → NextResult) (s : Scheduler) (k : SchedulerEvent) (t : Time)
      → (k ≡ ev_burst_onset
          → t < s.deadline
          → again (advance_burst_onset (spawn_burst s t)) ≢ out_of_fuel)
      → dispatch again s k t ≢ out_of_fuel
  unfolding dispatch
  dispatch-ne again s ev_none t h e = cc
  dispatch-ne again s ev_poisson t h e = ground (arith, fire_poisson-ne s t)
  dispatch-ne again s ev_spike t h e = ground (arith, fire_spike-ne s t)
  dispatch-ne again s ev_burst_onset t h e = ground (arith, h refl)

  onset_gap-fixed :
      (c : BurstConfig) (g : Rng) (j : BurstJitter)
      → c.jitter ≡ j
      → j ≢ poisson
      → (onset_gap c g).0 ≡ c.period
  unfolding onset_gap
  onset_gap-fixed c g poisson e h = absurd (h refl)
  onset_gap-fixed c g fixed e h = rw (e, onset_gap)
  onset_gap-fixed c g (other_jitter t) e h = rw (e, onset_gap)

  onset_grows :
      (s : Scheduler) (t : Time)
      → is_positive s.burst.period ≡ true
      → s.burst.jitter ≢ poisson
      → s.next_burst_onset < (advance_burst_onset (spawn_burst s t)).next_burst_onset
  unfolding advance_burst_onset spawn_burst
  onset_grows s t p h =
      rw (onset_gap-fixed s.burst _ s.burst.jitter refl h) (later s.burst.period p)
    where
      later : (d : ℤ) → is_positive d ≡ true → s.next_burst_onset < add_time s.next_burst_onset d
      later (pos n) q = ground arith
      later (negsuc n) q = cc

  -- With fixed jitter and a positive period each round moves the onset towards the deadline, so Next
  -- returns within as many rounds as there are nanoseconds from the next onset to the deadline, and one.
  pub next-fixed-ne-out_of_fuel :
      (fuel : ℕ) (s : Scheduler)
      → is_positive s.burst.period ≡ true
      → s.burst.jitter ≢ poisson
      → s.deadline - s.next_burst_onset < fuel
      → next fuel s ≢ out_of_fuel
  unfolding next peek_earliest advance_burst_onset spawn_burst
  next-fixed-ne-out_of_fuel zero s p j h = absurd (omega arith)
  next-fixed-ne-out_of_fuel (suc fuel) s p j h =
      let e = peek_candidates s.poisson_streams s.pending_spikes s.burst_sched s.next_burst_onset in
      let peeked =
        peek_candidates-Peeked s.poisson_streams s.pending_spikes s.burst_sched
          s.next_burst_onset in
      dispatch-ne (next fuel) s e.0 e.1 λ onset soon.
        let s' = advance_burst_onset (spawn_burst s e.1) in
        let at = from_onset s e.0 e.1 onset peeked in
        next-fixed-ne-out_of_fuel fuel s' p j (omega (arith, onset_grows s e.1 p j, at))
    where
      from_onset :
          (s : Scheduler) (k : SchedulerEvent) (t : Time)
          → k ≡ ev_burst_onset
          → Peeked s.poisson_streams s.pending_spikes s.burst_sched s.next_burst_onset (k, t)
          → t ≡ s.next_burst_onset
      from_onset s ev_burst_onset t e p = p.source.1
      from_onset s ev_none t e p = cc
      from_onset s ev_spike t e p = cc
      from_onset s ev_poisson t e p = cc
