-- ===== src/Run/Progress.antt =====
-- The goroutines of main.go do not block one another.
use mathlib.Core.Path.{subst}
use go_replayer.Run.Kept.{main_run-Kept}
use go_replayer.Scheduler.Start.{new_scheduler-IsReady}
use go_replayer.Scheduler.Spikes.{FitsInt64}
use go_replayer.Run.Exit.{Orderly, IsClosing}
use go_replayer.Run.Drain.{CanWork, closing_works}
use go_replayer.Run.Workers.{gone}
use go_replayer.Scheduler.Burst.{validate, poisson}
use go_replayer.Replay.Dispatch.{DispatchJob, round_robin_request_total}
use go_replayer.Prelude.Int.{Time, add_time}
use go_replayer.Scheduler.State.{new_scheduler_with_replicas, base_rate_of, at_least_one}
use go_replayer.Prelude.{
  ℕ, ◌<◌, ◌≡◌, length, arith, sum_of, is_empty, List, none, false, ◌∷◌, get_elem?, ap, some, ◌⊎◌,
  [], ◌≢◌, refl, inr, inl, Bool-cases, sym, ltb, not_ltb→le,
}
use go_replayer.Scheduler.Progress.{
  IsRunning, next-GoesOn, Comes, next-Comes, drain_counters-IsRunning,
}
use go_replayer.Run.State.{
  log_reply, Setup, System, Reply, Sender, Worker, choosing, finished, received, offering, replied,
  answered, tallied, totalled, exited, enqueued, idle, invoking, counted, draining,
}
use go_replayer.Machine.{Machine, Laws, zero_float}
use go_replayer.Scheduler.Next.{next, NextResult, arrival, exhausted, crashed, out_of_fuel}
use go_replayer.Run.Step.{
  begin, later, main_run, new_run, Step, choose, Reach, enqueue, count_sent, count_second, close,
  receive, finish, invoke, answer, tally_second, tally_total, log, exit, swap_sent, swap_ok,
  swap_err, take_latencies, drain,
}

module _ ⦃m : Machine⦄ where
  open m use {Rng, div, of_int, is_nan}

  log_reply-scheduler : (s : System) (r : Reply) → (log_reply s r).scheduler ≡ s.scheduler
  unfolding log_reply
  log_reply-scheduler s r = ground arith

  Step-IsRunning :
      {setup : Setup} {s t : System}
      → Laws
      → Step setup s t
      → IsRunning s.scheduler
      → IsRunning t.scheduler
  unfolding log_reply
  Step-IsRunning {setup} {s} laws (choose fuel now t k sched req e p g) v =
      next-GoesOn laws fuel s.scheduler (arrival t k sched) v p
  Step-IsRunning laws (enqueue job e p) v = v
  Step-IsRunning laws (count_sent e) v = v
  Step-IsRunning laws (count_second e) v = v
  Step-IsRunning {setup} {s} laws (close fuel sched e p) v =
      next-GoesOn laws fuel s.scheduler (exhausted sched) v p
  Step-IsRunning laws (finish e p g) v = v
  Step-IsRunning laws (receive i job rest e p) v = v
  Step-IsRunning laws (invoke i job e) v = v
  Step-IsRunning laws (answer i r e p) v = v
  Step-IsRunning laws (tally_second i r e) v = v
  Step-IsRunning laws (tally_total i r e) v = v
  Step-IsRunning {setup} {s} laws (log i r e) v = subst IsRunning (sym (log_reply-scheduler s r)) v
  Step-IsRunning laws (exit i e p g) v = v
  Step-IsRunning laws (swap_sent e p) v = v
  Step-IsRunning laws (swap_ok e) v = v
  Step-IsRunning laws (swap_err e) v = v
  Step-IsRunning laws (take_latencies e) v = v
  Step-IsRunning {setup} {s} laws (drain e) v = drain_counters-IsRunning s.scheduler v

  Reach-IsRunning :
      {setup : Setup} {start s : System}
      → Laws
      → IsRunning start.scheduler
      → Reach setup start s
      → IsRunning s.scheduler
  Reach-IsRunning laws v begin = v
  Reach-IsRunning laws v (later r st) = Step-IsRunning laws st (Reach-IsRunning laws v r)

  -- A worker that has not left its loop can go on, if the queue has a job for it.
  busy_works :
      (setup : Setup) (s : System) (i : ℕ) (w : Worker) (job : DispatchJob)
      (rest : List DispatchJob)
      → s.queue ≡ job ∷ rest
      → get_elem? s.workers i ≡ some w
      → gone w ≡ 0
      → CanWork setup s
  busy_works setup s i exited job rest q e h = absurd (omega arith)
  busy_works setup s i idle job rest q e h = (_, receive i job rest e q, tt)
  busy_works setup s i (received j) job rest q e h = (_, invoke i j e, tt)
  busy_works setup s i invoking job rest q e h = (_, answer i (replied zero_float) e tt, tt)
  busy_works setup s i (answered r) job rest q e h = (_, tally_second i r e, tt)
  busy_works setup s i (tallied r) job rest q e h = (_, tally_total i r e, tt)
  busy_works setup s i (totalled r) job rest q e h = (_, log i r e, tt)

  -- A sender before a full queue waits for a worker, and the first one can go on.
  full_works :
      (setup : Setup) (s : System)
      → 0 < length s.queue
      → 0 < length s.workers
      → sum_of gone s.workers ≡ 0
      → CanWork setup s
  full_works setup s queued staffed none_gone = go s.queue s.workers refl refl
    where
      go :
          (q : List DispatchJob) (ws : List Worker) → s.queue ≡ q → s.workers ≡ ws → CanWork setup s
      go [] ws p e = absurd (omega (arith, ap (length {A = DispatchJob}) p))
      go (job ∷ rest) [] p e = absurd (omega (arith, ap (length {A = Worker}) e))
      go (job ∷ rest) (w ∷ ws) p e =
          busy_works setup s 0 w job rest p (ap (λ us. get_elem? us 0) e)
            (omega (arith, ap (sum_of gone) e))

  next_works :
      (setup : Setup) (s : System) (fuel : ℕ) (r : NextResult)
      → s.sender ≡ choosing
      → is_empty setup.reqs ≡ false
      → next fuel s.scheduler ≡ r
      → Comes r
      → CanWork setup s
  next_works setup s fuel (arrival t k sched) e given p h =
      let (req, found) = round_robin_request_total setup.reqs s.req_idx given in
      (_, choose fuel 0 t k sched req e p found, tt)
  next_works setup s fuel (exhausted sched) e given p h = (_, close fuel sched e p, tt)
  next_works setup s fuel crashed e given p h = absurd h
  next_works setup s fuel out_of_fuel e given p h = absurd h

  state_works :
      Laws
      → (setup : Setup) (s : System) (p : Sender) → s.sender ≡ p
      → is_empty setup.reqs ≡ false
      → 0 < setup.num_workers
      → 0 < setup.queue_capacity
      → IsRunning s.scheduler
      → Orderly setup.num_workers s
      → (s.sender ≡ finished) ⊎ CanWork setup s
  state_works laws setup s choosing e given staffed roomy running orderly =
      let (fuel, comes) = next-Comes laws s.scheduler running in
      inr (next_works setup s fuel _ e given refl comes)
  state_works laws setup s (offering job) e given staffed roomy running orderly =
      elim (Bool-cases (ltb (length s.queue) setup.queue_capacity)) [
        | inl room ↦ inr (_, enqueue job e room, tt)
        | inr full ↦ inr (
            full_works setup s (omega (arith, not_ltb→le _ _ full)) (omega (arith, orderly.staffed))
              (none_left orderly.leaving e))
      ]
    where
      none_left :
          {n : ℕ}
          → (n ≡ 0) ⊎ ((s.queue ≡ []) × IsClosing s.sender)
          → s.sender ≡ offering job
          → n ≡ 0
      none_left (inl h) e = h
      none_left (inr h) e = absurd (subst IsClosing e h.1)
  state_works laws setup s enqueued e given staffed roomy running orderly =
      inr (_, count_sent e, tt)
  state_works laws setup s counted e given staffed roomy running orderly =
      inr (_, count_second e, tt)
  state_works laws setup s draining e given staffed roomy running orderly =
      closing_works setup s (subst IsClosing (sym e) tt)
  state_works laws setup s finished e given staffed roomy running orderly = inl e

  -- Nothing blocks a run that main has settled, with requests, workers and a queue, and with bursts
  -- that Validate accepts, whose products fit int64 and whose onsets are not exponential: in every state
  -- that the goroutines reach, main has passed its waits or one of them can make a step that is not the
  -- start of a tick. In particular Next comes back, and a sender before a full queue has a worker that
  -- can take from it.
  pub run_progresses :
      Laws
      → (setup : Setup) {s : System} (start : Time) (seed g : Rng) → validate setup.burst ≡ none
      → FitsInt64 setup.burst
      → is_nan
          (div (base_rate_of setup.target_qps setup.burst) (of_int (at_least_one setup.replicas)))
        ≡ false
      → setup.burst.jitter ≢ poisson
      → is_empty setup.reqs ≡ false
      → 0 < setup.num_workers
      → 0 < setup.queue_capacity
      → Reach setup (main_run setup start seed g) s
      → (s.sender ≡ finished) ⊎ CanWork setup s
  unfolding main_run new_run new_scheduler_with_replicas
  run_progresses laws setup {s} start seed g valid fits num fixed given staffed roomy r =
      let ready =
        new_scheduler-IsReady setup.target_qps setup.replicas setup.burst start
          (add_time start setup.duration) seed laws valid fits num in
      let running =
        Reach-IsRunning laws (record { now = start; ready = ready; fixed_onsets = fixed }) r in
      state_works laws setup s s.sender refl given staffed roomy running
        (main_run-Kept start seed g r).orderly
