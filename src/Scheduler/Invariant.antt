-- ===== src/Scheduler/Invariant.antt =====
-- The scheduler's invariant, peekEarliest, and the steps of Next.
use go_replayer.Scheduler.Spikes.{FitsInt64}
use go_replayer.Prelude.Sorted.{IsSorted}
use mathlib.Core.List.{Mem}
use go_replayer.Heap.Order.{IsHeap}
use go_replayer.Scheduler.Next.{
  SchedulerEvent, ev_none, ev_burst_onset, ev_poisson, ev_spike, peek_candidates,
}
use go_replayer.Prelude.Int.{Time}
use go_replayer.Machine.{Machine}
use go_replayer.Prelude.{List, ◌≡◌, Bool, ◌≤◌, [], ◌∷◌, false, true, All, arith}
use go_replayer.Scheduler.State.{stream_keyed, Scheduler, PoissonStream}
use go_replayer.Scheduler.Burst.{IsBurst}

abbrev pub SpikesAfter : Time → List Time → Type 0
SpikesAfter t [] = Unit
SpikesAfter t (u ∷ us) = t ≤ u

abbrev pub OnsetAfter : Time → Bool → Time → Type 0
OnsetAfter t false onset = Unit
OnsetAfter t true onset = t ≤ onset

abbrev pub FromSpikes : Time → List Time → Type 0
FromSpikes t [] = ⊥
FromSpikes t (u ∷ us) = t ≡ u

module _ ⦃m : Machine⦄ where
  open m use {is_nan, Rng, le}

  -- Nothing that is still to come lies before `now`; the streams are a heap, the spikes ascend, and
  -- the configuration is one that Validate accepts and whose int64 products do not wrap.
  pub record IsReady (now : Time) (s : Scheduler) : Type 0 where
    pub heap : IsHeap s.poisson_streams
    pub streams : (p : PoissonStream) → Mem p s.poisson_streams → now ≤ p.next
    pub rates : (p : PoissonStream) → Mem p s.poisson_streams → is_nan p.rate ≡ false
    pub sorted : IsSorted s.pending_spikes
    pub spikes : All (λ t. now ≤ t) s.pending_spikes
    pub onset : s.burst_sched ≡ true → now ≤ s.next_burst_onset
    pub burst_valid : s.burst_sched ≡ true → IsBurst s.burst
    pub burst_fits : s.burst_sched ≡ true → FitsInt64 s.burst

  -- `t` is no later than the head of each source, by recursion on the sources.
  abbrev pub StreamsAfter : Time → List PoissonStream → Type 0
  StreamsAfter t [] = Unit
  StreamsAfter t (p ∷ ps) = t ≤ p.next

  -- `t` is the head of the source that the event names.
  abbrev pub FromStreams : Time → List PoissonStream → Type 0
  FromStreams t [] = ⊥
  FromStreams t (p ∷ ps) = t ≡ p.next

  abbrev pub Source : SchedulerEvent → Time → List PoissonStream → List Time → Bool → Time → Type 0
  Source ev_none t streams spikes sched onset = (streams ≡ []) × (spikes ≡ []) × (sched ≡ false)
  Source ev_poisson t streams spikes sched onset = FromStreams t streams
  Source ev_spike t streams spikes sched onset = FromSpikes t spikes
  Source ev_burst_onset t streams spikes sched onset = (sched ≡ true) × (t ≡ onset)

  pub record Peeked (streams : List PoissonStream) (spikes : List Time) (sched : Bool)
      (onset : Time) (e : SchedulerEvent × Time) : Type 0 where
    pub streams_after : StreamsAfter e.1 streams
    pub spikes_after : SpikesAfter e.1 spikes
    pub onset_after : OnsetAfter e.1 sched onset
    pub source : Source e.0 e.1 streams spikes sched onset

  pub peek_candidates-Peeked :
      (streams : List PoissonStream) (spikes : List Time) (sched : Bool) (onset : Time)
      → Peeked streams spikes sched onset (peek_candidates streams spikes sched onset)
  peek_candidates-Peeked [] [] false onset = ground arith
  peek_candidates-Peeked [] [] true onset = ground arith
  peek_candidates-Peeked [] (u ∷ us) false onset = ground arith
  peek_candidates-Peeked [] (u ∷ us) true onset = ground arith
  peek_candidates-Peeked (p ∷ ps) [] false onset = ground arith
  peek_candidates-Peeked (p ∷ ps) [] true onset = ground arith
  peek_candidates-Peeked (p ∷ ps) (u ∷ us) false onset = ground arith
  peek_candidates-Peeked (p ∷ ps) (u ∷ us) true onset = ground arith
