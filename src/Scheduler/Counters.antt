-- ===== src/Scheduler/Counters.antt =====
-- The counters of the scheduler: what Next counts, and what the reporter drains.
use go_replayer.Scheduler.Merge.{merge_spikes-perm}
use go_replayer.Heap.Order.{length-perm}
use Prim.Native.Nat.{zero}
use go_replayer.Scheduler.Spikes.{length-fresh_times}
use go_replayer.Machine.{Machine}
use go_replayer.Prelude.{
  inl, inr, ◌≡◌, List, Option-cases, Bool-cases, ℕ, length, ◌+◌, ◌∷◌, arith, suc, ◌*◌,
  length-append, [], zero, refl, sum_of, ap,
}
use go_replayer.Prelude.Int.{pos_part, Time, before}
use go_replayer.Heap.Slice.{pop}
use go_replayer.Scheduler.State.{
  stream_keyed, Scheduler, ArrivalKind, total, SchedulerCounters, arrival_base, arrival_spike,
  drain_counters, no_counters,
}
use go_replayer.Scheduler.Next.{
  SchedulerEvent, ev_none, ev_poisson, ev_spike, ev_burst_onset, NextResult, arrival, exhausted,
  crashed, out_of_fuel, spawn_burst, fire_spike, fire_poisson, dispatch, next, fresh_times,
  advance_burst_onset, peek_earliest,
}

module _ ⦃m : Machine⦄ where
  open m use {Rng}

  -- Each burst was reported to OnBurstSpawned once, and its spikes were emitted or are pending.
  pub record IsCounted (s : Scheduler) : Type 0 where
    pub reported : s.fired.bursts_fired ≡ length s.spawned
    pub conserved :
        s.fired.spikes_fired + length s.pending_spikes
        ≡ pos_part s.burst.size * s.fired.bursts_fired

  -- `c` counts one arrival of the kind more than `b`.
  abbrev pub OneMore : ArrivalKind → SchedulerCounters → SchedulerCounters → Type 0
  OneMore arrival_base b c = (c.base_fired ≡ b.base_fired + 1) × (c.spikes_fired ≡ b.spikes_fired)
  OneMore arrival_spike b c = (c.base_fired ≡ b.base_fired) × (c.spikes_fired ≡ b.spikes_fired + 1)

  -- What Next does to the counters of a scheduler `s`: an arrival is counted once, by its kind, in the
  -- cumulative counters and in the latches.
  abbrev pub Counted : Scheduler → NextResult → Type 0
  Counted s (arrival t k s') =
      IsCounted s' × OneMore k s.fired s'.fired × OneMore k s.latched s'.latched
  Counted s (exhausted s') =
      IsCounted s' × (total s'.fired ≡ total s.fired) × (total s'.latched ≡ total s.latched)
  Counted s crashed = Unit
  Counted s out_of_fuel = Unit

  spawn_burst-IsCounted : (s : Scheduler) (t : Time) → IsCounted s → IsCounted (spawn_burst s t)
  unfolding spawn_burst
  spawn_burst-IsCounted s t c =
      let fresh = (fresh_times s.burst.shape (pos_part s.burst.size) s.burst.window t s.rng).0 in
      let size = length-fresh_times s.burst.shape (pos_part s.burst.size) s.burst.window t s.rng in
      record {
        reported = omega (arith, c.reported, length-append s.spawned ((t, s.burst) ∷ []));
        conserved = omega (
          arith,
          c.conserved,
          size,
          length-append s.pending_spikes fresh,
          length-perm (merge_spikes-perm s.pending_spikes fresh),
        );
      }

  advance_burst_onset-IsCounted : (s : Scheduler) → IsCounted s → IsCounted (advance_burst_onset s)
  unfolding advance_burst_onset
  advance_burst_onset-IsCounted s c = record { reported = c.reported; conserved = c.conserved }

  fire_spike-Counted : (s : Scheduler) (t : Time) → IsCounted s → Counted s (fire_spike s t)
  unfolding fire_spike
  fire_spike-Counted s t c = go s.pending_spikes refl
    where
      go : (us : List Time) → s.pending_spikes ≡ us → Counted s (fire_spike s t)
      go [] p = rw (p, fire_spike) tt
      go (u ∷ us) p =
          let kept : s.fired.spikes_fired + length (u ∷ us)
              ≡ pos_part s.burst.size * s.fired.bursts_fired =
            rw p at c.conserved in
          rw (p, fire_spike)
            (record { reported = c.reported; conserved = omega arith }, (refl, refl), (refl, refl))

  fire_poisson-Counted : (s : Scheduler) (t : Time) → IsCounted s → Counted s (fire_poisson s t)
  unfolding fire_poisson
  fire_poisson-Counted s t c = elim (Option-cases (pop s.poisson_streams)) [
    | inl p ↦ rw (p, fire_poisson) tt
    | inr (x, p) ↦
        rw (p, fire_poisson)
          (record { reported = c.reported; conserved = c.conserved }, (refl, refl), (refl, refl))
  ]

  -- A round that spawns a burst counts no arrival.
  Counted-round :
      (s s' : Scheduler) (r : NextResult)
      → s'.fired.base_fired ≡ s.fired.base_fired
      → s'.fired.spikes_fired ≡ s.fired.spikes_fired
      → s'.latched.base_fired ≡ s.latched.base_fired
      → s'.latched.spikes_fired ≡ s.latched.spikes_fired
      → Counted s' r
      → Counted s r
  unfolding total
  Counted-round s s' (arrival t arrival_base u) a b c d h = (h.0, omega arith, omega arith)
  Counted-round s s' (arrival t arrival_spike u) a b c d h = (h.0, omega arith, omega arith)
  Counted-round s s' (exhausted u) a b c d h = (h.0, omega arith, omega arith)
  Counted-round s s' crashed a b c d h = tt
  Counted-round s s' out_of_fuel a b c d h = tt

  dispatch-Counted :
      (again : Scheduler → NextResult)
      → ((s : Scheduler) → IsCounted s → Counted s (again s))
      → (s : Scheduler) (k : SchedulerEvent) (t : Time) → IsCounted s
      → Counted s (dispatch again s k t)
  unfolding dispatch
  dispatch-Counted again ih s ev_none t c = (c, refl, refl)
  dispatch-Counted again ih s ev_poisson t c = elim (Bool-cases (before t s.deadline)) [
    | inl soon ↦ rw soon (fire_poisson-Counted s t c)
    | inr late ↦ rw late (c, refl, refl)
  ]
  dispatch-Counted again ih s ev_spike t c = elim (Bool-cases (before t s.deadline)) [
    | inl soon ↦ rw soon (fire_spike-Counted s t c)
    | inr late ↦ rw late (c, refl, refl)
  ]
  dispatch-Counted again ih s ev_burst_onset t c = elim (Bool-cases (before t s.deadline)) [
    | inl soon ↦
        let s' = advance_burst_onset (spawn_burst s t) in
        let c' = advance_burst_onset-IsCounted (spawn_burst s t) (spawn_burst-IsCounted s t c) in
        let r = ih s' c' in
        rw soon (
          unfold advance_burst_onset spawn_burst in
          Counted-round s s' (again s') refl refl refl refl r)
    | inr late ↦ rw late (c, refl, refl)
  ]

  -- Next counts each arrival that it returns exactly once and by its kind, in the cumulative counters
  -- and in the latches, and keeps the account of the bursts.
  pub next-Counted : (fuel : ℕ) (s : Scheduler) → IsCounted s → Counted s (next fuel s)
  unfolding next
  next-Counted zero s c = tt
  next-Counted (suc fuel) s c =
      dispatch-Counted (next fuel) (λ s'. next-Counted fuel s') s (peek_earliest s).0
        (peek_earliest s).1 c

  -- A run of the sender and its reporter: the sender calls Next, the reporter drains the latches, in
  -- any order. `ticks` is what the reporter has drained, newest first.
  pub data Reported (start : Scheduler) : Scheduler → List SchedulerCounters → Type 0 where
    begin : Reported start start []
    sent :
        {s s' : Scheduler} {ticks : List SchedulerCounters}
        → Reported start s ticks
        → (fuel : ℕ) (t : Time) (k : ArrivalKind) → next fuel s ≡ arrival t k s'
        → Reported start s' ticks
    drained :
        {s s' : Scheduler} {ticks : List SchedulerCounters} {c : SchedulerCounters}
        → Reported start s ticks
        → drain_counters s ≡ (c, s')
        → Reported start s' (c ∷ ticks)

  record Balanced (s : Scheduler) (ticks : List SchedulerCounters) : Type 0 where
    counted : IsCounted s
    base : sum_of (λ c. c.base_fired) ticks + s.latched.base_fired ≡ s.fired.base_fired
    spikes : sum_of (λ c. c.spikes_fired) ticks + s.latched.spikes_fired ≡ s.fired.spikes_fired

  sent-Balanced :
      (s s' : Scheduler) (k : ArrivalKind) (ticks : List SchedulerCounters)
      → IsCounted s'
      → OneMore k s.fired s'.fired
      → OneMore k s.latched s'.latched
      → Balanced s ticks
      → Balanced s' ticks
  sent-Balanced s s' arrival_base ticks c f l b = record {
    counted = c;
    base = omega (arith, b.base);
    spikes = omega (arith, b.spikes);
  }
  sent-Balanced s s' arrival_spike ticks c f l b = record {
    counted = c;
    base = omega (arith, b.base);
    spikes = omega (arith, b.spikes);
  }

  drained-Balanced :
      (s s' : Scheduler) (c : SchedulerCounters) (ticks : List SchedulerCounters)
      → drain_counters s ≡ (c, s')
      → Balanced s ticks
      → Balanced s' (c ∷ ticks)
  unfolding drain_counters
  drained-Balanced s s' c ticks e b =
      let latched : s.latched ≡ c = ap (λ (p : SchedulerCounters × Scheduler). p.0) e in
      let left : record s { latched = no_counters } ≡ s' =
        ap (λ (p : SchedulerCounters × Scheduler). p.1) e in
      rw (← left, ← latched)
        (record {
          counted = record { reported = b.counted.reported; conserved = b.counted.conserved };
          base = omega (arith, b.base);
          spikes = omega (arith, b.spikes);
        })

  Reported-Balanced :
      {start s : Scheduler} {ticks : List SchedulerCounters}
      → Balanced start []
      → Reported start s ticks
      → Balanced s ticks
  Reported-Balanced b begin = b
  Reported-Balanced b (sent {s} {s'} {ticks} r fuel t k e) =
      let before = Reported-Balanced b r in
      let after : Counted s (arrival t k s') = rw e at (next-Counted fuel s before.counted) in
      sent-Balanced s s' k ticks after.0 after.1 after.2 before
  Reported-Balanced b (drained {s} {s'} {ticks} {c} r e) =
      drained-Balanced s s' c ticks e (Reported-Balanced b r)

  -- However the reporter's drains fall between the sender's arrivals, no arrival is lost or counted
  -- twice: from a scheduler whose counters agree with its latches, the drained ticks and the latches
  -- that are left add up to the cumulative counters, for base arrivals and for spikes, and the spikes
  -- emitted and pending are the burst size times the number of bursts.
  pub Reported-balance :
      {start s : Scheduler} {ticks : List SchedulerCounters}
      → IsCounted start
      → start.latched ≡ start.fired
      → Reported start s ticks
      → (sum_of (λ c. c.base_fired) ticks + s.latched.base_fired ≡ s.fired.base_fired)
        × (sum_of (λ c. c.spikes_fired) ticks + s.latched.spikes_fired ≡ s.fired.spikes_fired)
        × (s.fired.spikes_fired + length s.pending_spikes
            ≡ pos_part s.burst.size * s.fired.bursts_fired)
  Reported-balance {start} c e r =
      let b =
        Reported-Balanced
          (record { counted = c; base = rw e (omega arith); spikes = rw e (omega arith) }) r in
      (b.base, b.spikes, b.counted.conserved)
