-- ===== src/Run/Drain.antt =====
-- A run ends once the schedule is exhausted: what is left to do shrinks with each step.
use mathlib.Core.Path.{subst}
use go_replayer.Prelude.{
  length, ℕ, List, ◌≡◌, sum_of, zero, ◌+◌, All, ◌≤◌, ◌*◌, suc, get_elem?, ◌⊎◌, arith, some, inl,
  ◌≢◌, inr, ◌∷◌, refl, [], ap,
}
use go_replayer.Machine.{Machine, zero_float}
use go_replayer.Replay.Dispatch.{DispatchJob}
use go_replayer.Run.State.{
  Setup, System, Worker, Sender, Reporter, log_reply, offering, totalled, draining, finished,
  watching, tallied, exited, choosing, swapped_sent, answered, enqueued, swapped_ok, received,
  counted, swapped_err, took_latencies, idle, invoking, replied,
}
use go_replayer.Run.Step.{
  log, Step, swap_sent, choose, finish, enqueue, swap_ok, count_sent, exit, swap_err, count_second,
  receive, take_latencies, close, invoke, drain, answer, tally_second, tally_total, log,
}
use go_replayer.Run.Workers.{sum_of-set}
use go_replayer.Run.Exit.{IsClosing}

abbrev pub sender_left : Sender → ℕ
sender_left draining = 1
sender_left finished = 0
sender_left choosing = 0
sender_left (offering job) = 0
sender_left enqueued = 0
sender_left counted = 0

abbrev pub reporter_left : Reporter → ℕ
reporter_left watching = 0
reporter_left swapped_sent = 4
reporter_left swapped_ok = 3
reporter_left swapped_err = 2
reporter_left took_latencies = 1

module _ ⦃m : Machine⦄ where
  open m use {Rng}

  -- The steps that a worker has before it until it has left its loop, if it receives no more.
  abbrev pub worker_left : Worker → ℕ
  worker_left exited = 0
  worker_left idle = 1
  worker_left (totalled r) = 2
  worker_left (tallied r) = 3
  worker_left (answered r) = 4
  worker_left invoking = 5
  worker_left (received job) = 6

  -- A bound of the steps that are left, behind close(jobs).
  abbrev pub work_left : System → ℕ
  work_left s =
      sum_of worker_left s.workers
      + 6 * length s.queue
      + reporter_left s.reporter
      + sender_left s.sender

  -- Any step but the start of a tick, which the clock gives.
  abbrev pub IsWork : {setup : Setup} {s t : System} → Step setup s t → Type 0
  IsWork (swap_sent e p) = ⊥
  IsWork _ = Unit

  abbrev pub IsTick : {setup : Setup} {s t : System} → Step setup s t → Type 0
  IsTick (swap_sent e p) = Unit
  IsTick _ = ⊥

  -- A sequence of steps, with the number of its ticks and that of its other steps.
  pub data Works (setup : Setup) (s : System) : ℕ → ℕ → System → Type 0 where
    stay : Works setup s zero zero s
    more :
        {n k : ℕ} {t u : System}
        → Works setup s n k t
        → (st : Step setup t u) → IsWork st
        → Works setup s n (suc k) u
    tick :
        {n k : ℕ} {t u : System}
        → Works setup s n k t
        → (st : Step setup t u) → IsTick st
        → Works setup s (suc n) k u

  work-left :
      {setup : Setup} {s t : System} (st : Step setup s t)
      → IsWork st
      → IsClosing s.sender
      → IsClosing t.sender × (work_left t + 1 ≤ work_left s)
  unfolding log_reply
  work-left (choose fuel now t k sched req e p g) w c = absurd (subst IsClosing e c)
  work-left (enqueue job e p) w c = absurd (subst IsClosing e c)
  work-left (count_sent e) w c = absurd (subst IsClosing e c)
  work-left (count_second e) w c = absurd (subst IsClosing e c)
  work-left (close fuel sched e p) w c = absurd (subst IsClosing e c)
  work-left (finish e p g) w c = (tt, omega (arith, ap sender_left e))
  work-left {setup} {s} (receive i job rest e p) w c = (
    c,
    omega (
      arith,
      sum_of-set worker_left s.workers i idle (received job) e,
      ap (length {A = DispatchJob}) p,
    ),
  )
  work-left {setup} {s} (invoke i job e) w c =
      (c, omega (arith, sum_of-set worker_left s.workers i (received job) invoking e))
  work-left {setup} {s} (answer i r e p) w c =
      (c, omega (arith, sum_of-set worker_left s.workers i invoking (answered r) e))
  work-left {setup} {s} (tally_second i r e) w c =
      (c, omega (arith, sum_of-set worker_left s.workers i (answered r) (tallied r) e))
  work-left {setup} {s} (tally_total i r e) w c =
      (c, omega (arith, sum_of-set worker_left s.workers i (tallied r) (totalled r) e))
  work-left {setup} {s} (log i r e) w c =
      let d = sum_of-set worker_left s.workers i (totalled r) idle e in ground arith
  work-left {setup} {s} (exit i e p g) w c =
      (c, omega (arith, sum_of-set worker_left s.workers i idle exited e))
  work-left (swap_sent e p) w c = absurd w
  work-left (swap_ok e) w c = (c, omega (arith, ap reporter_left e))
  work-left (swap_err e) w c = (c, omega (arith, ap reporter_left e))
  work-left (take_latencies e) w c = (c, omega (arith, ap reporter_left e))
  work-left (drain e) w c = (c, omega (arith, ap reporter_left e))

  find_worker :
      (ws : List Worker)
      → All (λ w. w ≡ exited) ws
        ⊎ ((i : ℕ) × (w : Worker) × (get_elem? ws i ≡ some w) × (worker_left w ≢ 0))
  find_worker [] = inl tt
  find_worker (exited ∷ ws) = elim (find_worker ws) [
    | inl all_left ↦ inl (refl, all_left)
    | inr (i, w, e, h) ↦ inr (suc i, w, e, h)
  ]
  find_worker (idle ∷ ws) = inr (0, idle, refl, λ e. omega arith)
  find_worker (received job ∷ ws) = inr (0, received job, refl, λ e. omega arith)
  find_worker (invoking ∷ ws) = inr (0, invoking, refl, λ e. omega arith)
  find_worker (answered r ∷ ws) = inr (0, answered r, refl, λ e. omega arith)
  find_worker (tallied r ∷ ws) = inr (0, tallied r, refl, λ e. omega arith)
  find_worker (totalled r ∷ ws) = inr (0, totalled r, refl, λ e. omega arith)

  abbrev pub CanWork : Setup → System → Type 0
  CanWork setup s = (t : System) × (st : Step setup s t) × IsWork st

  worker_works :
      (setup : Setup) (s : System) (i : ℕ) (w : Worker)
      → s.sender ≡ draining
      → get_elem? s.workers i ≡ some w
      → worker_left w ≢ 0
      → CanWork setup s
  worker_works setup s i exited d e h = absurd (h refl)
  worker_works setup s i idle d e h = go s.queue refl
    where
      go : (q : List DispatchJob) → s.queue ≡ q → CanWork setup s
      go [] p = (_, exit i e p d, tt)
      go (job ∷ rest) p = (_, receive i job rest e p, tt)
  worker_works setup s i (received job) d e h = (_, invoke i job e, tt)
  worker_works setup s i invoking d e h = (_, answer i (replied zero_float) e tt, tt)
  worker_works setup s i (answered r) d e h = (_, tally_second i r e, tt)
  worker_works setup s i (tallied r) d e h = (_, tally_total i r e, tt)
  worker_works setup s i (totalled r) d e h = (_, log i r e, tt)

  reporter_works :
      (setup : Setup) (s : System) (p : Reporter)
      → s.reporter ≡ p
      → s.sender ≡ draining
      → All (λ w. w ≡ exited) s.workers
      → CanWork setup s
  reporter_works setup s watching e d left = (_, finish d left e, tt)
  reporter_works setup s swapped_sent e d left = (_, swap_ok e, tt)
  reporter_works setup s swapped_ok e d left = (_, swap_err e, tt)
  reporter_works setup s swapped_err e d left = (_, take_latencies e, tt)
  reporter_works setup s took_latencies e d left = (_, drain e, tt)

  pub closing_works :
      (setup : Setup) (s : System) → IsClosing s.sender → (s.sender ≡ finished) ⊎ CanWork setup s
  closing_works setup s c = go s.sender refl c
    where
      open_work : s.sender ≡ draining → CanWork setup s
      open_work d = elim (find_worker s.workers) [
        | inl left ↦ reporter_works setup s s.reporter refl d left
        | inr (i, w, e, h) ↦ worker_works setup s i w d e h
      ]

      go : (p : Sender) → s.sender ≡ p → IsClosing p → (s.sender ≡ finished) ⊎ CanWork setup s
      go finished e k = inl e
      go draining e k = inr (open_work e)
      go choosing e k = absurd k
      go (offering job) e k = absurd k
      go enqueued e k = absurd k
      go counted e k = absurd k

  tick-left :
      {setup : Setup} {s t : System} (st : Step setup s t)
      → IsTick st
      → IsClosing s.sender
      → IsClosing t.sender × (work_left t ≤ work_left s + 4)
  tick-left (swap_sent e p) k c = (c, omega (arith, ap reporter_left e))
  tick-left _ k c = absurd k

  Works-left :
      {setup : Setup} {s t : System} {n k : ℕ}
      → IsClosing s.sender
      → Works setup s n k t
      → IsClosing t.sender × (work_left t + k ≤ work_left s + 4 * n)
  Works-left c stay = (c, omega arith)
  Works-left c (more ws st w) =
      let before = Works-left c ws in
      let after = work-left st w before.0 in (after.0, omega (arith, before.1, after.1))
  Works-left c (tick ws st w) =
      let before = Works-left c ws in
      let after = tick-left st w before.0 in (after.0, omega (arith, before.1, after.1))

  -- Behind close(jobs) a run ends: however its goroutines interleave, they make at most `work_left`
  -- steps and four more for each tick of the reporter, the starts of the ticks not counted, and as long
  -- as main has not passed its waits a goroutine can make a step that is not the start of a tick.
  pub run_drains :
      {setup : Setup} {s t : System} {n k : ℕ}
      → IsClosing s.sender
      → Works setup s n k t
      → (k ≤ work_left s + 4 * n) × ((t.sender ≡ finished) ⊎ CanWork setup t)
  run_drains {setup} {s} {t} c ws =
      let d = Works-left c ws in (omega arith, closing_works setup t d.0)
