-- ===== src/Run/Pace.antt =====
-- The sender: what it has chosen, sent and counted.
use mathlib.Core.Path.{subst}
use go_replayer.Scheduler.Next.{next, arrival}
use go_replayer.Prelude.{length, ℕ, ◌≡◌, ◌+◌, arith, ◌≤◌, length-append, ◌∷◌, [], ap, ◌∙◌}
use go_replayer.Machine.{Machine}
use go_replayer.Scheduler.State.{
  Scheduler, total, ArrivalKind, arrival_base, arrival_spike, drain_counters,
}
use go_replayer.Scheduler.Counters.{IsCounted, Counted, next-Counted}
use go_replayer.Windows.Capture.{Capture, record_sample, sample_cap}
use go_replayer.Run.State.{
  Setup, System, Sender, log_reply, offering, tally_reply, enqueued, counted, choosing, draining,
  finished,
}
use go_replayer.Run.Step.{
  Step, choose, enqueue, count_sent, count_second, close, finish, receive, invoke, answer,
  tally_second, tally_total, log, exit, swap_sent, swap_ok, swap_err, take_latencies, drain,
}

-- 1 for an arrival that was chosen and is not in totalSent.
abbrev pub unsent : Sender → ℕ
unsent (offering job) = 1
unsent enqueued = 1
unsent choosing = 0
unsent counted = 0
unsent draining = 0
unsent finished = 0

-- 1 for an arrival that is in totalSent and not in secSent.
abbrev pub half_counted : Sender → ℕ
half_counted counted = 1
half_counted choosing = 0
half_counted (offering job) = 0
half_counted enqueued = 0
half_counted draining = 0
half_counted finished = 0

record_sample-size :
    (bound : ℕ) (a : Capture) (t : ℕ)
    → length (record_sample bound a t).samples + (record_sample bound a t).dropped
      ≡ length a.samples + a.dropped + 1
unfolding record_sample
record_sample-size bound a t = ground (arith, length-append a.samples (t ∷ []))

module _ ⦃m : Machine⦄ where
  -- The arrivals of the scheduler, the requests that the sender chose and the samples of the analyzer
  -- are as many, and the sender's counters follow.
  pub record IsPaced (setup : Setup) (s : System) : Type 0 where
    pub counters : IsCounted s.scheduler
    pub fired : total s.scheduler.fired ≡ s.req_idx
    pub analyzed : length s.analyzer.samples + s.analyzer.dropped ≡ s.req_idx
    pub sent_total : s.totals.sent + unsent s.sender ≡ s.req_idx
    pub sent_second : s.second.sent + s.reported.sent + half_counted s.sender ≡ s.totals.sent
    pub queue_bound : length s.queue ≤ setup.queue_capacity

  next-fired :
      (fuel t : ℕ) (s s' : Scheduler) (k : ArrivalKind)
      → IsCounted s
      → next fuel s ≡ arrival t k s'
      → IsCounted s' × (total s'.fired ≡ total s.fired + 1)
  unfolding total
  next-fired fuel t s s' arrival_base c e =
      let d = subst (Counted s) e (next-Counted fuel s c) in (d.0, omega arith)
  next-fired fuel t s s' arrival_spike c e =
      let d = subst (Counted s) e (next-Counted fuel s c) in (d.0, omega arith)

  pub Step-IsPaced :
      {setup : Setup} {s t : System} → Step setup s t → IsPaced setup s → IsPaced setup t
  unfolding log_reply tally_reply drain_counters
  Step-IsPaced {setup} {s} (choose fuel now t k sched req e f g) v =
      let d = next-fired fuel t s.scheduler sched k v.counters f in
      let z = record_sample-size sample_cap s.analyzer now in
      record {
        counters = d.0;
        fired = omega (arith, d.1, v.fired);
        analyzed = omega (arith, z, v.analyzed);
        sent_total = omega (arith, ap unsent e, v.sent_total);
        sent_second = omega (arith, ap half_counted e, v.sent_second);
        queue_bound = v.queue_bound;
      }
  Step-IsPaced {setup} {s} (enqueue job e f) v = ground (arith, length-append s.queue (job ∷ []))
  Step-IsPaced (count_sent e) v = ground arith
  Step-IsPaced (count_second e) v = ground arith
  Step-IsPaced {setup} {s} (close fuel sched e f) v =
      let d = subst (Counted s.scheduler) f (next-Counted fuel s.scheduler v.counters) in
      record {
        counters = d.0;
        fired = d.1 ∙ v.fired;
        analyzed = v.analyzed;
        sent_total = omega (arith, ap unsent e, v.sent_total);
        sent_second = omega (arith, ap half_counted e, v.sent_second);
        queue_bound = v.queue_bound;
      }
  Step-IsPaced (finish e f g) v = ground arith
  Step-IsPaced (receive i job rest e f) v = ground arith
  Step-IsPaced (invoke i job e) v = ground arith
  Step-IsPaced (answer i r e f) v = ground arith
  Step-IsPaced (tally_second i r e) v = ground arith
  Step-IsPaced (tally_total i r e) v = ground arith
  Step-IsPaced (log i r e) v = ground arith
  Step-IsPaced (exit i e f g) v = ground arith
  Step-IsPaced (swap_sent e f) v = ground arith
  Step-IsPaced (swap_ok e) v = ground arith
  Step-IsPaced (swap_err e) v = ground arith
  Step-IsPaced (take_latencies e) v = ground arith
  Step-IsPaced (drain e) v = ground arith
