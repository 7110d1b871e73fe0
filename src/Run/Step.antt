-- ===== src/Run/Step.antt =====
-- The steps of main.go's goroutines, interleaved in any order: each atomic operation, each channel
-- operation and each section under the mutex is one step.
use go_replayer.Prelude.Int.{Time, add_time}
use go_replayer.Replay.Reader.{Request}
use go_replayer.Prelude.{
  ℕ, is_empty, [], ◌≡◌, replicate, false, some, ◌+◌, ltb, length, true, ◌++◌, ◌∷◌, All, List,
  get_elem?, set, ◌-◌, ◌≢◌,
}
use go_replayer.Machine.{Machine}
use go_replayer.Windows.Capture.{record_sample, sample_cap, empty_capture}
use go_replayer.Windows.Latency.{new_latency_stats}
use go_replayer.Replay.Dispatch.{DispatchJob, make_dispatch_job, round_robin_request}
use go_replayer.Scheduler.State.{
  Scheduler, drain_counters, ArrivalKind, new_scheduler_with_replicas,
}
use go_replayer.Scheduler.Next.{next, arrival, exhausted}
use go_replayer.Run.State.{
  Setup, no_tally, Reply, System, log_reply, tally_reply, replied, failed, choosing, idle, offering,
  watching, enqueued, counted, draining, exited, finished, received, invoking, answered, tallied,
  totalled, swapped_sent, swapped_ok, swapped_err, took_latencies,
}

module _ ⦃m : Machine⦄ where
  open m use {Rng}

  -- The text of an error of Invoke, which begins with `rpc error:`, is not empty.
  abbrev pub HasText : Reply → Type 0
  HasText (replied lat) = Unit
  HasText (failed lat msg) = is_empty msg ≡ false

  -- `now` is the sender's clock, which the analyzer records in UnixNano.
  pub data Step (setup : Setup) (s : System) : System → Type 0 where
    choose :
        (fuel now t : ℕ) (k : ArrivalKind) (next_scheduler : Scheduler) (req : Request)
        → s.sender ≡ choosing
        → next fuel s.scheduler ≡ arrival t k next_scheduler
        → round_robin_request setup.reqs s.req_idx ≡ some req
        → Step setup s (record s {
          scheduler = next_scheduler;
          sender = offering (make_dispatch_job req setup.method);
          req_idx = s.req_idx + 1;
          analyzer = record_sample sample_cap s.analyzer now;
        })
    enqueue :
        (job : DispatchJob)
        → s.sender ≡ offering job
        → ltb (length s.queue) setup.queue_capacity ≡ true
        → Step setup s (record s { sender = enqueued; queue = s.queue ++ job ∷ [] })
    count_sent :
        s.sender ≡ enqueued
        → Step setup s
            (record s { sender = counted; totals = record s.totals { sent = s.totals.sent + 1 } })
    count_second :
        s.sender ≡ counted
        → Step setup s
            (record s { sender = choosing; second = record s.second { sent = s.second.sent + 1 } })
    close :
        (fuel : ℕ) (next_scheduler : Scheduler)
        → s.sender ≡ choosing
        → next fuel s.scheduler ≡ exhausted next_scheduler
        → Step setup s (record s { scheduler = next_scheduler; sender = draining })
    -- both waits are over
    finish :
        s.sender ≡ draining
        → All (λ w. w ≡ exited) s.workers
        → s.reporter ≡ watching
        → Step setup s (record s { sender = finished })
    receive :
        (i : ℕ) (job : DispatchJob) (rest : List DispatchJob)
        → get_elem? s.workers i ≡ some idle
        → s.queue ≡ job ∷ rest
        → Step setup s (record s { queue = rest; workers = set s.workers i (received job) })
    invoke :
        (i : ℕ) (job : DispatchJob)
        → get_elem? s.workers i ≡ some (received job)
        → Step setup s (record s {
          inflight = s.inflight + 1;
          invoked = s.invoked ++ job ∷ [];
          workers = set s.workers i invoking;
        })
    answer :
        (i : ℕ) (r : Reply)
        → get_elem? s.workers i ≡ some invoking
        → HasText r
        → Step setup s
            (record s { inflight = s.inflight - 1; workers = set s.workers i (answered r) })
    tally_second :
        (i : ℕ) (r : Reply)
        → get_elem? s.workers i ≡ some (answered r)
        → Step setup s
            (record s { second = tally_reply s.second r; workers = set s.workers i (tallied r) })
    tally_total :
        (i : ℕ) (r : Reply)
        → get_elem? s.workers i ≡ some (tallied r)
        → Step setup s
            (record s { totals = tally_reply s.totals r; workers = set s.workers i (totalled r) })
    log :
        (i : ℕ) (r : Reply)
        → get_elem? s.workers i ≡ some (totalled r)
        → Step setup s (record (log_reply s r) { workers = set s.workers i idle })
    -- the channel is closed and empty
    exit :
        (i : ℕ)
        → get_elem? s.workers i ≡ some idle
        → s.queue ≡ []
        → s.sender ≡ draining
        → Step setup s (record s { workers = set s.workers i exited })
    swap_sent :
        s.reporter ≡ watching
        → s.sender ≢ finished
        → Step setup s (record s {
          reporter = swapped_sent;
          second = record s.second { sent = 0 };
          reported = record s.reported { sent = s.reported.sent + s.second.sent };
        })
    swap_ok :
        s.reporter ≡ swapped_sent
        → Step setup s (record s {
          reporter = swapped_ok;
          second = record s.second { ok = 0 };
          reported = record s.reported { ok = s.reported.ok + s.second.ok };
        })
    swap_err :
        s.reporter ≡ swapped_ok
        → Step setup s (record s {
          reporter = swapped_err;
          second = record s.second { err = 0 };
          reported = record s.reported { err = s.reported.err + s.second.err };
        })
    take_latencies :
        s.reporter ≡ swapped_err
        → Step setup s (record s {
          reporter = took_latencies;
          sec_latencies = [];
          reported_latencies = s.reported_latencies + length s.sec_latencies;
        })
    drain :
        s.reporter ≡ took_latencies
        → Step setup s
            (record s { reporter = watching; scheduler = (drain_counters s.scheduler).1 })

  pub data Reach (setup : Setup) (start : System) : System → Type 0 where
    begin : Reach setup start start
    later : {s t : System} → Reach setup start s → Step setup s t → Reach setup start t

  -- The state when the sender's loop starts.
  unfoldable pub new_run : Scheduler → ℕ → Rng → System
  new_run sched num_workers g = record {
    scheduler = sched;
    sender = choosing;
    req_idx = 0;
    analyzer = empty_capture;
    queue = [];
    workers = replicate num_workers idle;
    invoked = [];
    inflight = 0;
    totals = no_tally;
    second = no_tally;
    sec_latencies = [];
    ok_lat = new_latency_stats g;
    error_counts = [];
    other_errors = 0;
    reporter = watching;
    reported = no_tally;
    reported_latencies = 0;
  }

  -- The scheduler and the state that main makes at the time `start`, from two seeded generators.
  unfoldable pub main_run : Setup → Time → Rng → Rng → System
  main_run setup start seed g =
      let deadline = add_time start setup.duration in
      new_run
        (new_scheduler_with_replicas setup.target_qps setup.replicas setup.burst start deadline
          seed)
        setup.num_workers g
