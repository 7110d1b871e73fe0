-- ===== src/Scheduler/Steps.antt =====
-- Each action of Next's loop keeps the invariant.
use mathlib.Core.Bool.{Bool-set}
use native.Mathlib.Bridge.{le_prop}
use mathlib.Core.List.{Mem, mem-cons, mem-cons_self, mem-cons_of_mem}
use go_replayer.Heap.Order.{IsHeap}
use go_replayer.Heap.Ops.{pop-Popped, push-IsHeap}
use go_replayer.Prelude.Sorted.{IsSorted}
use go_replayer.Scheduler.Merge.{merge_spikes-IsSorted, merge_spikes-from}
use go_replayer.Scheduler.Invariant.{IsReady, FromSpikes, FromStreams}
use go_replayer.Scheduler.Spikes.{FitsInt64, fresh_shape-IsSorted, fresh_shape-from}
use go_replayer.Machine.{
  Machine, Laws, positive_draw, minus_log_nonneg, poisson_interval_float, poisson_interval-IsNonneg,
}
use mathlib.Core.List.Perm
use native.Mathlib.Nat.{le_trans}
use mathlib.Core.Logic.Or
use go_replayer.Prelude.{
  ◌≤◌, arith, ◌<◌, ◌≡◌, true, ◌^◌, List, refl, length, ◌∷◌, [], false, ltb→lt,
}
use go_replayer.Prelude.Int.{ℤ, pos, negsuc, pos_part, is_positive, Time, add_time, IsNonneg}
use go_replayer.Heap.Slice.{push, get}
use go_replayer.Scheduler.State.{stream_keyed, Scheduler, PoissonStream}
use go_replayer.Scheduler.Burst.{BurstConfig, BurstJitter, IsBurst, poisson, fixed, other_jitter}
use go_replayer.Scheduler.Next.{
  NextResult, arrival, exhausted, crashed, out_of_fuel, spawn_burst, onset_gap, advance_burst_onset,
  fire_spike, fire_poisson,
}

pub add_time-nonneg : (t : Time) (d : ℤ) → IsNonneg d → t ≤ add_time t d
add_time-nonneg t d h = omega arith

FromSpikes-split :
    (t : Time) (us : List Time) → FromSpikes t us → (rest : List Time) × (us ≡ t ∷ rest)
FromSpikes-split t [] from = absurd from
FromSpikes-split t (u ∷ us) from = (us, rw from)

module _ ⦃m : Machine⦄ where
  open m use {is_nan, Rng, le, lt, Float, mul, neg, log, of_int, to_int}

  pub spawn_burst-IsReady :
      Laws
      → (t : Time) (s : Scheduler) → s.burst_sched ≡ true
      → IsReady t s
      → IsReady t (spawn_burst s t)
  unfolding spawn_burst
  spawn_burst-IsReady laws t s on r =
      let c = s.burst in
      let b = r.burst_valid on in
      let f = r.burst_fits on in
      record {
        heap = r.heap;
        streams = r.streams;
        rates = r.rates;
        sorted =
            merge_spikes-IsSorted s.pending_spikes _
              (fresh_shape-IsSorted laws c b f t s.rng c.shape);
        spikes =
            merge_spikes-from t s.pending_spikes _ r.spikes
              (fresh_shape-from laws c b f t s.rng c.shape);
        onset = r.onset;
        burst_valid = r.burst_valid;
        burst_fits = r.burst_fits;
      }

  poisson_gap-IsNonneg :
      Laws
      → (period : ℤ) (g : Rng) → is_positive period ≡ true
      → pos_part period < 2 ^ 57
      → IsNonneg (to_int (mul (neg (log (positive_draw g).0)) (of_int period)))
  poisson_gap-IsNonneg laws (pos n) g p h =
      laws.to_int_nonneg _ (laws.mul_nonneg _ n (minus_log_nonneg laws g) (ltb→lt 0 n p))
        (laws.log_scaled g n h)
  poisson_gap-IsNonneg laws (negsuc n) g p h = cc

  onset_gap-IsNonneg :
      Laws
      → (c : BurstConfig) (g : Rng) (j : BurstJitter) → c.jitter ≡ j
      → IsBurst c
      → FitsInt64 c
      → IsNonneg (onset_gap c g).0
  unfolding onset_gap
  onset_gap-IsNonneg laws c g poisson e b f =
      rw (e, onset_gap) (poisson_gap-IsNonneg laws c.period g b.period_positive f.period_fits)
  onset_gap-IsNonneg laws c g fixed e b f = rw (e, onset_gap) (ground (arith, b.period_positive))
  onset_gap-IsNonneg laws c g (other_jitter t) e b f =
      rw (e, onset_gap) (ground (arith, b.period_positive))

  pub advance_burst_onset-IsReady :
      Laws
      → (t : Time) (s : Scheduler) → s.burst_sched ≡ true
      → IsReady t s
      → IsReady t (advance_burst_onset s)
  unfolding advance_burst_onset
  advance_burst_onset-IsReady laws t s on r =
      let gap =
        onset_gap-IsNonneg laws s.burst s.rng s.burst.jitter refl (r.burst_valid on)
          (r.burst_fits on) in
      record {
        heap = r.heap;
        streams = r.streams;
        rates = r.rates;
        sorted = r.sorted;
        spikes = r.spikes;
        onset = λ _. le_trans (r.onset on) (add_time-nonneg s.next_burst_onset _ gap);
        burst_valid = r.burst_valid;
        burst_fits = r.burst_fits;
      }

  -- What Next promises of a result, from a scheduler that is ready at `now`.
  abbrev pub Ordered : Time → Time → NextResult → Type 0
  Ordered now deadline (arrival t k s') =
      (now ≤ t) × (t < deadline) × (s'.deadline ≡ deadline) × IsReady t s'
  Ordered now deadline (exhausted s') =
      (t : Time) × (s'.deadline ≡ deadline) × (now ≤ t) × IsReady t s'
  Ordered now deadline crashed = ⊥
  Ordered now deadline out_of_fuel = Unit

  pub fire_spike-Ordered :
      (t : Time) (s : Scheduler)
      → IsReady t s
      → t < s.deadline
      → FromSpikes t s.pending_spikes
      → Ordered t s.deadline (fire_spike s t)
  unfolding fire_spike
  fire_spike-Ordered t s r early from =
      let (rest, split) = FromSpikes-split t s.pending_spikes from in
      let sorted : IsSorted (t ∷ rest) = rw split at r.sorted in
      rw (split, fire_spike)
        (
          omega arith,
          early,
          refl,
          record {
            heap = r.heap;
            streams = r.streams;
            rates = r.rates;
            sorted = sorted.1;
            spikes = sorted.0;
            onset = r.onset;
            burst_valid = r.burst_valid;
            burst_fits = r.burst_fits;
          },
        )

  FromStreams-head :
      (t : Time) (ps : List PoissonStream)
      → FromStreams t ps
      → (0 < length ps) × (t ≡ (get ps 0).next)
  unfolding get
  FromStreams-head t [] from = absurd from
  FromStreams-head t (p ∷ ps) from = (omega arith, from)

  -- The popped stream goes back with its next arrival.
  push-next_later :
      (now : Time) (x y : PoissonStream) (rest : List PoissonStream)
      → IsHeap rest
      → ((p : PoissonStream) → Mem p (x ∷ rest) → now ≤ p.next)
      → now ≤ y.next
      → (p : PoissonStream) → Mem p (push rest y)
      → now ≤ p.next
  push-next_later now x y rest o h k p i =
      Or.elim le_prop (mem-cons.0 ((Perm.mem_iff (push-IsHeap rest y o).1).0 i)) (λ e. rw e k)
        (λ j. h p (mem-cons_of_mem x j))

  push-rates :
      (x y : PoissonStream) (rest : List PoissonStream)
      → IsHeap rest
      → ((p : PoissonStream) → Mem p (x ∷ rest) → is_nan p.rate ≡ false)
      → y.rate ≡ x.rate
      → (p : PoissonStream) → Mem p (push rest y)
      → is_nan p.rate ≡ false
  push-rates x y rest o h k p i =
      Or.elim (Bool-set _ _) (mem-cons.0 ((Perm.mem_iff (push-IsHeap rest y o).1).0 i))
        (λ e. rw (e, k) (h x mem-cons_self)) (λ j. h p (mem-cons_of_mem x j))

  pub fire_poisson-Ordered :
      Laws
      → (t : Time) (s : Scheduler) → IsReady t s
      → t < s.deadline
      → FromStreams t s.poisson_streams
      → Ordered t s.deadline (fire_poisson s t)
  unfolding fire_poisson
  fire_poisson-Ordered laws t s r early from =
      let (some_stream, head) = FromStreams-head t s.poisson_streams from in
      let (x, rest, popped, p) = pop-Popped s.poisson_streams some_stream r.heap in
      let gap = poisson_interval_float x.rate s.rng in
      let y : PoissonStream = record x { next = add_time x.next gap.0 } in
      let streams =
        λ (q : PoissonStream) (i : Mem q (x ∷ rest)). r.streams q ((Perm.mem_iff p.same).0 i) in
      let rates =
        λ (q : PoissonStream) (i : Mem q (x ∷ rest)). r.rates q ((Perm.mem_iff p.same).0 i) in
      let later = poisson_interval-IsNonneg laws x.rate s.rng (rates x mem-cons_self) in
      rw (popped, fire_poisson)
        (
          omega arith,
          early,
          refl,
          record {
            heap = (push-IsHeap rest y p.ordered).0;
            streams =
                push-next_later t x y rest p.ordered streams
                  (le_trans (streams x mem-cons_self) (add_time-nonneg x.next gap.0 later));
            rates = push-rates x y rest p.ordered rates refl;
            sorted = r.sorted;
            spikes = r.spikes;
            onset = r.onset;
            burst_valid = r.burst_valid;
            burst_fits = r.burst_fits;
          },
        )
