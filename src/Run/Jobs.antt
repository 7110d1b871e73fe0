-- ===== src/Run/Jobs.antt =====
-- The jobs: where each one is between the choice of its request and its call of Invoke.
use go_replayer.Prelude.{
  length, ℕ, ◌≡◌, sum_of, some, ◌+◌, arith, ap, sum_of-append, ◌∷◌, [], length-append, ◌++◌, ◌∙◌,
  refl,
}
use native.Mathlib.Numerals.{add-one}
use go_replayer.Machine.{Machine}
use go_replayer.Replay.Dispatch.{DispatchJob, make_dispatch_job, round_robin_request}
use go_replayer.Replay.Reader.{Request}
use go_replayer.Run.State.{
  Setup, System, Worker, Sender, jobs_upto, offering, log_reply, received, choosing, draining,
  enqueued, finished, counted, idle, invoking, answered, tallied, totalled, exited,
}
use go_replayer.Run.Step.{
  Step, choose, enqueue, count_sent, count_second, close, finish, receive, invoke, answer,
  tally_second, tally_total, log, exit, swap_sent, swap_ok, swap_err, take_latencies, drain,
}
use go_replayer.Run.Workers.{sum_of-set}

-- The part of a measure that the sender holds.
abbrev pub offered : (DispatchJob → ℕ) → Sender → ℕ
offered f (offering job) = f job
offered f choosing = 0
offered f enqueued = 0
offered f counted = 0
offered f draining = 0
offered f finished = 0

pub jobs_upto_step :
    (setup : Setup) (n : ℕ) (req : Request)
    → round_robin_request setup.reqs n ≡ some req
    → jobs_upto setup (n + 1) ≡ jobs_upto setup n ++ make_dispatch_job req setup.method ∷ []
unfolding jobs_upto
jobs_upto_step setup n req e = ap (jobs_upto setup) (add-one n) ∙ rw (e, jobs_upto) refl

jobs_upto-suc :
    (f : DispatchJob → ℕ) (setup : Setup) (n : ℕ) (req : Request)
    → round_robin_request setup.reqs n ≡ some req
    → (sum_of f (jobs_upto setup (n + 1))
        ≡ sum_of f (jobs_upto setup n) + f (make_dispatch_job req setup.method))
      × (length (jobs_upto setup (n + 1)) ≡ length (jobs_upto setup n) + 1)
jobs_upto-suc f setup n req e =
    let job = make_dispatch_job req setup.method in
    rw (jobs_upto_step setup n req e) (
      omega (arith, sum_of-append f (jobs_upto setup n) (job ∷ [])),
      omega (arith, length-append (jobs_upto setup n) (job ∷ [])),
    )

module _ ⦃m : Machine⦄ where
  -- The part of a measure that a worker holds, before its call.
  abbrev pub held : (DispatchJob → ℕ) → Worker → ℕ
  held f (received job) = f job
  held f _ = 0

  -- Every measure of jobs adds up: of the calls, the queue, the workers and the sender.
  pub record IsConserved (setup : Setup) (s : System) : Type 0 where
    pub carried :
        (f : DispatchJob → ℕ)
        → sum_of f s.invoked + sum_of f s.queue + sum_of (held f) s.workers + offered f s.sender
          ≡ sum_of f (jobs_upto setup s.req_idx)
    pub chosen : length (jobs_upto setup s.req_idx) ≡ s.req_idx

  Step-carried :
      {setup : Setup} {s t : System} (f : DispatchJob → ℕ)
      → Step setup s t
      → IsConserved setup s
      → sum_of f t.invoked + sum_of f t.queue + sum_of (held f) t.workers + offered f t.sender
        ≡ sum_of f (jobs_upto setup t.req_idx)
  unfolding log_reply
  Step-carried {setup} {s} f (choose fuel now t k sched req e p g) v =
      omega (arith, ap (offered f) e, v.carried f, jobs_upto-suc f setup s.req_idx req g)
  Step-carried {setup} {s} f (enqueue job e p) v =
      omega (arith, ap (offered f) e, v.carried f, sum_of-append f s.queue (job ∷ []))
  Step-carried f (count_sent e) v = omega (arith, ap (offered f) e, v.carried f)
  Step-carried f (count_second e) v = omega (arith, ap (offered f) e, v.carried f)
  Step-carried f (close fuel sched e p) v = omega (arith, ap (offered f) e, v.carried f)
  Step-carried f (finish e p g) v = omega (arith, ap (offered f) e, v.carried f)
  Step-carried {setup} {s} f (receive i job rest e p) v =
      omega
        (arith, v.carried f, ap (sum_of f) p, sum_of-set (held f) s.workers i idle (received job) e)
  Step-carried {setup} {s} f (invoke i job e) v = omega (
    arith,
    v.carried f,
    sum_of-append f s.invoked (job ∷ []),
    sum_of-set (held f) s.workers i (received job) invoking e,
  )
  Step-carried {setup} {s} f (answer i r e p) v =
      omega (arith, v.carried f, sum_of-set (held f) s.workers i invoking (answered r) e)
  Step-carried {setup} {s} f (tally_second i r e) v =
      omega (arith, v.carried f, sum_of-set (held f) s.workers i (answered r) (tallied r) e)
  Step-carried {setup} {s} f (tally_total i r e) v =
      omega (arith, v.carried f, sum_of-set (held f) s.workers i (tallied r) (totalled r) e)
  Step-carried {setup} {s} f (log i r e) v =
      let kept = sum_of-set (held f) s.workers i (totalled r) idle e in
      let before = v.carried f in ground arith
  Step-carried {setup} {s} f (exit i e p g) v =
      omega (arith, v.carried f, sum_of-set (held f) s.workers i idle exited e)
  Step-carried f (swap_sent e p) v = v.carried f
  Step-carried f (swap_ok e) v = v.carried f
  Step-carried f (swap_err e) v = v.carried f
  Step-carried f (take_latencies e) v = v.carried f
  Step-carried f (drain e) v = v.carried f

  Step-chosen :
      {setup : Setup} {s t : System}
      → Step setup s t
      → length (jobs_upto setup s.req_idx) ≡ s.req_idx
      → length (jobs_upto setup t.req_idx) ≡ t.req_idx
  unfolding log_reply
  Step-chosen {setup} {s} (choose fuel now t k sched req e p g) v =
      omega (arith, v, (jobs_upto-suc (λ _. 0) setup s.req_idx req g).1)
  Step-chosen (log i r e) v = ground arith
  Step-chosen _ v = v

  pub Step-IsConserved :
      {setup : Setup} {s t : System} → Step setup s t → IsConserved setup s → IsConserved setup t
  unfolding log_reply
  Step-IsConserved {setup} {s} st v = record {
    carried = λ f. Step-carried f st v;
    chosen = Step-chosen st v.chosen;
  }
