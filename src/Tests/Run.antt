-- ===== src/Tests/Run.antt =====
-- A run of four seconds at one request per second, with one worker: one arrival, whose call fails.
use go_replayer.Run.Report.{Printer, Report, report}
use go_replayer.Run.Refine.{run_refines}
use go_replayer.Run.Shown.{Shows}
use go_replayer.Run.Ledger.{Ledger, Ledgers}
use go_replayer.Run.Drain.{Works, more, work_left, stay, CanWork, run_drains}
use go_replayer.Run.Finish.{run_bounds}
use go_replayer.Heap.Slice.{pop, init, init_loop, push, up, up_loop, get, down, down_loop, swap}
use go_replayer.Scheduler.Next.{fire_poisson, next, peek_earliest, dispatch}
use go_replayer.Replay.Dispatch.{round_robin_request}
use go_replayer.Machine.{poisson_interval_float}
use go_replayer.Scheduler.State.{
  new_scheduler_with_replicas, base_rate_of, new_streams, drain_counters,
}
use go_replayer.Replay.Reader.{failed}
use go_replayer.Prelude.{codes, ◌∷◌, [], refl, ◌≡◌, length, ◌+◌, ◌≤◌, ◌⊎◌, ◌*◌}
use go_replayer.Run.State.{Setup, Reply, failed, System, log_reply, finished}
use go_replayer.Prelude.Int.{Time, pos}
use go_replayer.Scheduler.Burst.{BurstConfig, uniform, fixed, additive, enabled}
use go_replayer.Run.Step.{
  receive, invoke, answer, tally_second, tally_total, log, swap_sent, swap_ok, swap_err,
  take_latencies, drain, close, exit, finish, Reach, later, begin, choose, enqueue, count_sent,
  count_second, main_run, new_run,
}
use go_replayer.Tests.Arithmetic.{small_machine}

abbrev quiet : BurstConfig
quiet = record {
  size = pos 0;
  window = pos 20_000_000;
  period = pos 1_000_000_000;
  shape = uniform;
  jitter = fixed;
  mode = additive;
}

abbrev begins : Time
begins = 63_000_000_000_000_000_000

abbrev setup : Setup
setup = record {
  reqs = record { method = codes "/svc/Call"; payload = 7 ∷ [] } ∷ [];
  method = [];
  target_qps = pos 1;
  replicas = pos 1;
  duration = pos 4_000_000_000;
  burst = quiet;
  num_workers = 1;
  queue_capacity = 1;
}

abbrev reply : Reply
reply = failed (pos 5) (codes "rpc error: code = Unavailable")

sent_run : (s : System) × Reach setup (main_run setup begins 0 0) s
unfolding main_run new_run next dispatch peek_earliest new_scheduler_with_replicas enabled init
    init_loop base_rate_of new_streams poisson_interval_float fire_poisson pop round_robin_request
sent_run = (
  _,
  later
      (later
        (later (later begin (choose 10 63_000_000_003_000_000_000 _ _ _ _ refl refl refl))
          (enqueue _ refl refl))
        (count_sent refl))
      (count_second refl),
)

answered_run : (s : System) × Reach setup (main_run setup begins 0 0) s
unfolding sent_run main_run
answered_run = (
  _,
  later
      (later
        (later
          (later (later (later sent_run.1 (receive 0 _ _ refl refl)) (invoke 0 _ refl))
            (answer 0 reply refl refl))
          (tally_second 0 reply refl))
        (tally_total 0 reply refl))
      (log 0 reply refl),
)

closed_run : (s : System) × Reach setup (main_run setup begins 0 0) s
unfolding answered_run main_run log_reply next drain_counters push up up_loop get down down_loop
    swap
closed_run = (
  _,
  later
      (later
        (later
          (later (later (later answered_run.1 (swap_sent refl (λ e. cc))) (swap_ok refl))
            (swap_err refl))
          (take_latencies refl))
        (drain refl))
      (close 10 _ refl refl),
)

abbrev closed : System
closed = closed_run.0

last_steps : (s : System) × Works setup closed 0 2 s
unfolding closed_run
last_steps = (_, more (more stay (exit 0 refl refl refl) tt) (finish refl (refl, tt) refl) tt)

finished_run : (s : System) × Reach setup (main_run setup begins 0 0) s
unfolding closed_run
finished_run = (_, later (later closed_run.1 (exit 0 refl refl refl)) (finish refl (refl, tt) refl))

abbrev over : System
over = finished_run.0

run_bounds_example :
    (length over.queue ≤ 1)
    × (over.inflight ≤ 1)
    × (length over.error_counts ≤ 1024)
    × (length over.invoked ≤ over.req_idx)
    × (over.totals.ok + over.totals.err ≤ over.totals.sent + 1)
run_bounds_example = run_bounds begins 0 0 finished_run.1

run_drains_example :
    (2 ≤ work_left closed + 4 * 0) × ((last_steps.0.sender ≡ finished) ⊎ CanWork setup last_steps.0)
unfolding closed_run
run_drains_example = run_drains tt last_steps.1

run_refines_example :
    (l : Ledger) × Ledgers setup.queue_capacity setup.num_workers l × Shows setup over l
run_refines_example = run_refines begins 0 0 finished_run.1

abbrev printer : Printer
printer = record {
  duration_text = λ d. codes "4s";
  burst_format = λ c q. codes "burst";
  window_value = λ w. [];
  latency_value = λ l. [];
}

abbrev said : Report
said = report printer setup (pos 20_000_000) (pos 4_000_000_000) over
