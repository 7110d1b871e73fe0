-- ===== src/Scheduler/Order.antt =====
-- The event that peekEarliest picks, against the scheduler's invariant.
use go_replayer.Heap.Order.{IsHeap, root_le}
use mathlib.Core.List.{Mem, not-mem-nil, mem-cons_self}
use go_replayer.Scheduler.Invariant.{
  IsReady, SpikesAfter, FromSpikes, OnsetAfter, StreamsAfter, FromStreams, Source, Peeked,
}
use go_replayer.Prelude.Sorted.{IsSorted}
use go_replayer.Machine.{Machine}
use native.Mathlib.Nat.{le_trans}
use go_replayer.Prelude.Int.{Time}
use go_replayer.Heap.Slice.{get}
use go_replayer.Scheduler.State.{stream_keyed, Scheduler, PoissonStream}
use go_replayer.Scheduler.Next.{SchedulerEvent, ev_none, ev_poisson, ev_spike, ev_burst_onset}
use go_replayer.Prelude.{List, ◌≤◌, All, Bool, ◌≢◌, ◌∷◌, All-map, ◌≡◌, [], arith, true, false, refl}

spikes_from_head :
    (t : Time) (us : List Time) → IsSorted us → SpikesAfter t us → All (λ u. t ≤ u) us
spikes_from_head t [] h a = tt
spikes_from_head t (u ∷ us) h a = (a, All-map (λ v. u ≤ v) (λ v. t ≤ v) us (λ v p. omega arith) h.0)

spikes_later :
    (now : Time) (us : List Time) (t : Time) → All (λ u. now ≤ u) us → FromSpikes t us → now ≤ t
spikes_later now [] t h from = absurd from
spikes_later now (u ∷ us) t h from = rw from h.0

onset_from :
    (t : Time) (sched : Bool) (onset : Time) → OnsetAfter t sched onset → sched ≡ true → t ≤ onset
onset_from t true onset a e = a
onset_from t false onset a e = cc

module _ ⦃m : Machine⦄ where
  open m use {is_nan, Rng, le, lt, Float, mul, neg, log, of_int, to_int}

  streams_from_head :
      (t : Time) (ps : List PoissonStream)
      → IsHeap ps
      → StreamsAfter t ps
      → (p : PoissonStream) → Mem p ps
      → t ≤ p.next
  unfolding get
  streams_from_head t [] h a p i = absurd (not-mem-nil i)
  streams_from_head t (q ∷ ps) h a p i = le_trans a (root_le (q ∷ ps) h p i)

  -- The event that peekEarliest picks is no earlier than `now`, and nothing is before it.
  pub record Advanced (now : Time) (s : Scheduler) (t : Time) : Type 0 where
    pub later : now ≤ t
    pub ready : IsReady t s

  streams_later :
      (now : Time) (ps : List PoissonStream) (t : Time)
      → ((p : PoissonStream) → Mem p ps → now ≤ p.next)
      → FromStreams t ps
      → now ≤ t
  streams_later now [] t h from = absurd from
  streams_later now (p ∷ ps) t h from = rw from (h p mem-cons_self)

  Source-later :
      (now : Time) (s : Scheduler) (k : SchedulerEvent) (t : Time)
      → IsReady now s
      → k ≢ ev_none
      → Source k t s.poisson_streams s.pending_spikes s.burst_sched s.next_burst_onset
      → now ≤ t
  Source-later now s ev_none t r some_event from = absurd (some_event refl)
  Source-later now s ev_poisson t r some_event from =
      streams_later now s.poisson_streams t r.streams from
  Source-later now s ev_spike t r some_event from =
      spikes_later now s.pending_spikes t r.spikes from
  Source-later now s ev_burst_onset t r some_event (on, at) = rw at (r.onset on)

  pub Peeked-Advanced :
      (now : Time) (s : Scheduler) (k : SchedulerEvent) (t : Time)
      → IsReady now s
      → Peeked s.poisson_streams s.pending_spikes s.burst_sched s.next_burst_onset (k, t)
      → k ≢ ev_none
      → Advanced now s t
  Peeked-Advanced now s k t r p some_event = record {
    later = Source-later now s k t r some_event p.source;
    ready = record {
      heap = r.heap;
      streams = streams_from_head t s.poisson_streams r.heap p.streams_after;
      rates = r.rates;
      sorted = r.sorted;
      spikes = spikes_from_head t s.pending_spikes r.sorted p.spikes_after;
      onset = onset_from t s.burst_sched s.next_burst_onset p.onset_after;
      burst_valid = r.burst_valid;
      burst_fits = r.burst_fits;
    };
  }
