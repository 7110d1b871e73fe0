-- ===== src/Scheduler/Next.antt =====
-- Next of scheduler.go with peekEarliest, spawnBurst and advanceBurstOnset.
use Prim.Native.Nat.{zero}
use go_replayer.Prelude.Sorted.{sort}
use go_replayer.Scheduler.State.{
  Scheduler, SchedulerCounters, ArrivalKind, PoissonStream, arrival_spike, arrival_base,
  stream_keyed,
}
use go_replayer.Prelude.{if◌then◌else◌, List, ℕ, ◌∷◌, [], ◌+◌, ◌++◌, suc, zero, Bool, none, some}
use go_replayer.Machine.{Machine, positive_draw, poisson_interval_float}
use go_replayer.Prelude.Int.{pos, pos_part, quo, mul64, Time, Duration, add_time, before}
use go_replayer.Scheduler.Burst.{BurstConfig, BurstShape, spike, random, poisson}
use go_replayer.Heap.Slice.{pop, push}

-- schedulerEvent
pub data SchedulerEvent : Type 0 where
  ev_none ev_poisson ev_spike ev_burst_onset : SchedulerEvent

-- One more candidate in peekEarliest: taken if there is none yet, or if it is strictly earlier.
abbrev pub earlier : SchedulerEvent × Time → SchedulerEvent → Time → SchedulerEvent × Time
earlier (ev_none, best) kind t = (kind, t)
earlier (other, best) kind t = if before t best then (kind, t) else (other, best)

-- BurstSpike: 1 µs apart, `n` still to go from index `i` on.
unfoldable pub spike_times : ℕ → ℕ → Time → List Time
spike_times zero i at = []
spike_times (suc n) i at = add_time at (mul64 (pos i) 1_000) ∷ spike_times n (i + 1) at

-- BurstUniform: int64(w) * int64(i) / int64(size), which wraps where the product passes 2^63.
unfoldable pub uniform_times : ℕ → ℕ → ℕ → Duration → Time → List Time
uniform_times zero i size w at = []
uniform_times (suc n) i size w at =
    add_time at (quo (mul64 w i) size) ∷ uniform_times n (i + 1) size w at

-- The merge at the end of spawnBurst; an empty list takes the fresh times as they are.
unfoldable pub merge_spikes : List Time → List Time → List Time
merge_spikes [] fresh = fresh
merge_spikes (t ∷ ts) fresh = sort ((t ∷ ts) ++ fresh)

abbrev pub count_burst : SchedulerCounters → SchedulerCounters
count_burst c = record c { bursts_fired = c.bursts_fired + 1 }

abbrev pub count_spike : SchedulerCounters → SchedulerCounters
count_spike c = record c { spikes_fired = c.spikes_fired + 1 }

abbrev pub count_base : SchedulerCounters → SchedulerCounters
count_base c = record c { base_fired = c.base_fired + 1 }

module _ ⦃m : Machine⦄ where
  open m use {Float, mul, neg, log, of_int, to_int, Rng, float64}

  abbrev pub peek_poisson : List PoissonStream → SchedulerEvent × Time
  peek_poisson [] = (ev_none, 0)
  peek_poisson (p ∷ ps) = (ev_poisson, p.next)

  abbrev pub peek_spike : SchedulerEvent × Time → List Time → SchedulerEvent × Time
  peek_spike best [] = best
  peek_spike best (t ∷ ts) = earlier best ev_spike t

  abbrev pub peek_candidates : List PoissonStream → List Time → Bool → Time → SchedulerEvent × Time
  peek_candidates streams spikes sched onset =
      let best = peek_spike (peek_poisson streams) spikes in
      if sched then earlier best ev_burst_onset onset else best

  unfoldable pub peek_earliest : Scheduler → SchedulerEvent × Time
  peek_earliest s =
      peek_candidates s.poisson_streams s.pending_spikes s.burst_sched s.next_burst_onset

  -- BurstRandom before its sort: one draw for each request.
  unfoldable pub random_times : ℕ → Duration → Time → Rng → List Time × Rng
  random_times zero w at g = ([], g)
  random_times (suc n) w at g =
      let (x, g') = float64 g in
      let (rest, g'') = random_times n w at g' in
      (add_time at (to_int (mul x (of_int w))) ∷ rest, g'')

  unfoldable pub fresh_times : BurstShape → ℕ → Duration → Time → Rng → List Time × Rng
  fresh_times spike n w at g = (spike_times n 0 at, g)
  fresh_times random n w at g = let (ts, g') = random_times n w at g in (sort ts, g')
  fresh_times other n w at g = (uniform_times n 0 n w at, g)

  unfoldable pub spawn_burst : Scheduler → Time → Scheduler
  spawn_burst s at =
      let (fresh, g) = fresh_times s.burst.shape (pos_part s.burst.size) s.burst.window at s.rng in
      record s {
        rng = g;
        pending_spikes = merge_spikes s.pending_spikes fresh;
        fired = count_burst s.fired;
        latched = count_burst s.latched;
        spawned = s.spawned ++ (at, s.burst) ∷ [];
      }

  -- The gap to the next onset. Unlike poissonIntervalFloat it does not guard the conversion.
  unfoldable pub onset_gap : BurstConfig → Rng → Duration × Rng
  onset_gap c g = elim c.jitter [
    | poisson ↦ let (u, g') = positive_draw g in (to_int (mul (neg (log u)) (of_int c.period)), g')
    | _ ↦ (c.period, g)
  ]

  unfoldable pub advance_burst_onset : Scheduler → Scheduler
  advance_burst_onset s =
      let (gap, g) = onset_gap s.burst s.rng in
      record s { rng = g; next_burst_onset = add_time s.next_burst_onset gap }

  -- What Next returns, with the scheduler it leaves. `crashed` is a panic in heap.Pop or in the
  -- slicing of pendingSpikes; `out_of_fuel` is no behaviour of Next.
  pub data NextResult : Type 0 where
    arrival : Time → ArrivalKind → Scheduler → NextResult
    exhausted : Scheduler → NextResult
    crashed : NextResult
    out_of_fuel : NextResult

  unfoldable pub fire_spike : Scheduler → Time → NextResult
  fire_spike s t = elim s.pending_spikes [
    | [] ↦ crashed
    | _ ∷ rest ↦ arrival t arrival_spike (record s {
      pending_spikes = rest;
      fired = count_spike s.fired;
      latched = count_spike s.latched;
    })
  ]

  unfoldable pub fire_poisson : Scheduler → Time → NextResult
  fire_poisson s t = elim (pop s.poisson_streams) [
    | none ↦ crashed
    | some (stream, rest) ↦
        let (gap, g) = poisson_interval_float stream.rate s.rng in
        arrival t arrival_base (record s {
          rng = g;
          poisson_streams = push rest (record stream { next = add_time stream.next gap });
          fired = count_base s.fired;
          latched = count_base s.latched;
        })
  ]

  -- The switch on the event; `again` is the next round of the loop.
  unfoldable pub dispatch :
      (Scheduler → NextResult) → Scheduler → SchedulerEvent → Time → NextResult
  dispatch again s ev_none t = exhausted s
  dispatch again s ev_poisson t = if before t s.deadline then fire_poisson s t else exhausted s
  dispatch again s ev_spike t = if before t s.deadline then fire_spike s t else exhausted s
  dispatch again s ev_burst_onset t =
      let round = again (advance_burst_onset (spawn_burst s t)) in
      if before t s.deadline then round else exhausted s

  unfoldable pub next : ℕ → Scheduler → NextResult
  next zero s = out_of_fuel
  next (suc fuel) s = dispatch (next fuel) s (peek_earliest s).0 (peek_earliest s).1
