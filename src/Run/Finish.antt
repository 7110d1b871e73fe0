-- ===== src/Run/Finish.antt =====
-- What a run adds up to, in every state and at its end.
use go_replayer.Prelude.{length, ◌≤◌, arith, ◌+◌}
use go_replayer.Prelude.Int.{Time}
use go_replayer.Machine.{Machine}
use go_replayer.Run.State.{Setup, System, Worker, jobs_upto, max_distinct_errors}
use go_replayer.Run.Step.{Reach, main_run}
use go_replayer.Run.Workers.{flying}
use go_replayer.Run.Kept.{sum_of-length, sum_of-one, unsent-le, main_run-Kept}

module _ ⦃m : Machine⦄ where
  open m use {Rng}

  flying-le : (w : Worker) → flying w ≤ 1
  flying-le w = ground arith

  -- At any time of a run, however its goroutines interleave: the queue is within its capacity, no more
  -- calls are in flight than there are workers, at most 1024 messages are kept, no more calls were made
  -- than requests were chosen, and at most one more reply is counted than sends are.
  pub run_bounds :
      {setup : Setup} {s : System} (start : Time) (seed g : Rng)
      → Reach setup (main_run setup start seed g) s
      → (length s.queue ≤ setup.queue_capacity)
        × (s.inflight ≤ setup.num_workers)
        × (length s.error_counts ≤ max_distinct_errors)
        × (length s.invoked ≤ s.req_idx)
        × (s.totals.ok + s.totals.err ≤ s.totals.sent + 1)
  run_bounds {setup} {s} start seed g r =
      let k = main_run-Kept start seed g r in
      let jobs = k.conserved.carried (λ _. 1) in
      let called = sum_of-one s.invoked in
      let chosen = sum_of-one (jobs_upto setup s.req_idx) in
      let size = k.conserved.chosen in
      let open_sends = unsent-le s.sender in
      let sent = k.paced.sent_total in
      (
        k.paced.queue_bound,
        omega (
          arith,
          k.accounted.in_flight,
          sum_of-length flying s.workers flying-le,
          k.orderly.staffed,
        ),
        k.accounted.few_errors,
        omega arith,
        omega (arith, k.accounted.calls),
      )
