-- ===== src/Run/Kept.antt =====
-- The invariants of a run of main.go, together, in every state that it reaches.
use Prim.Native.Nat.{zero}
use go_replayer.Windows.Latency.{new_latency_stats}
use go_replayer.Prelude.{
  length, ℕ, ◌≡◌, All, List, sum_of, replicate, ◌≤◌, suc, ◌∷◌, arith, ap, zero, [], refl,
  length-replicate, inl, ◌<◌, inr,
}
use go_replayer.Prelude.Int.{Time, add_time}
use go_replayer.Machine.{Machine}
use go_replayer.Scheduler.State.{Scheduler, total, new_scheduler_with_replicas}
use go_replayer.Scheduler.Counters.{IsCounted}
use go_replayer.Scheduler.Start.{new_scheduler-IsCounted}
use go_replayer.Replay.Dispatch.{DispatchJob}
use go_replayer.Run.State.{Setup, System, Worker, jobs_upto, idle, Sender, exited}
use go_replayer.Run.Step.{Step, Reach, begin, later, new_run, main_run}
use go_replayer.Run.Workers.{flying, uncounted, gone, half_ok, half_err, unlogged_ok, unlogged_err}
use go_replayer.Run.Pace.{IsPaced, Step-IsPaced, unsent}
use go_replayer.Run.Account.{IsAccounted, Step-IsAccounted, CarriesText}
use go_replayer.Run.Jobs.{IsConserved, Step-IsConserved, held}
use go_replayer.Run.Exit.{IsOrderly, Step-IsOrderly}

pub sum_of-replicate {ℓ} :
    {A : Type ℓ} (f : A → ℕ) (n : ℕ) (a : A) → f a ≡ 0 → sum_of f (replicate n a) ≡ 0
sum_of-replicate f zero a h = refl
sum_of-replicate f (suc n) a h = omega (arith, h, sum_of-replicate f n a h)

All-replicate {ℓ κ} : {A : Type ℓ} (P : A → Type κ) (n : ℕ) (a : A) → P a → All P (replicate n a)
All-replicate P zero a h = tt
All-replicate P (suc n) a h = (h, All-replicate P n a h)

pub sum_of-zero {ℓ} :
    {A : Type ℓ} (f : A → ℕ) (x : A) (xs : List A) → f x ≡ 0 → All (λ y. y ≡ x) xs → sum_of f xs ≡ 0
sum_of-zero f x [] h a = refl
sum_of-zero f x (y ∷ ys) h a = omega (arith, h, ap f a.0, sum_of-zero f x ys h a.1)

pub sum_of-length {ℓ} :
    {A : Type ℓ} (f : A → ℕ) (xs : List A) → ((x : A) → f x ≤ 1) → sum_of f xs ≤ length xs
sum_of-length f [] h = omega arith
sum_of-length f (x ∷ xs) h = omega (arith, h x, sum_of-length f xs h)

pub sum_of-one {ℓ} : {A : Type ℓ} (xs : List A) → sum_of (λ _. 1) xs ≡ length xs
sum_of-one [] = refl
sum_of-one (x ∷ xs) = omega (arith, sum_of-one xs)

pub unsent-le : (p : Sender) → unsent p ≤ 1
unsent-le p = ground arith

module _ ⦃m : Machine⦄ where
  open m use {Rng}

  pub All-gone : (ws : List Worker) → All (λ w. w ≡ exited) ws → sum_of gone ws ≡ length ws
  All-gone [] a = refl
  All-gone (w ∷ ws) a = omega (arith, ap gone a.0, All-gone ws a.1)

  pub queue_empty :
      {n : ℕ} {q : List DispatchJob} {p : Sender} {ws : List Worker}
      → IsOrderly n q p ws
      → All (λ w. w ≡ exited) ws
      → 0 < n
      → q ≡ []
  queue_empty {ws = ws} v a h = elim v.leaving [
    | inl none_gone ↦ absurd (omega (arith, All-gone ws a, v.staffed))
    | inr closing ↦ closing.0
  ]

  -- All that is kept while a run goes on.
  pub record Kept (setup : Setup) (num_workers : ℕ) (s : System) : Type 0 where
    pub paced : IsPaced setup s
    pub accounted : IsAccounted s
    pub conserved : IsConserved setup s
    pub orderly : IsOrderly num_workers s.queue s.sender s.workers

  Step-Kept :
      {setup : Setup} {n : ℕ} {s t : System} → Step setup s t → Kept setup n s → Kept setup n t
  Step-Kept st v = record {
    paced = Step-IsPaced st v.paced;
    accounted = Step-IsAccounted st v.accounted;
    conserved = Step-IsConserved st v.conserved;
    orderly = Step-IsOrderly st v.orderly;
  }

  Reach-Kept :
      {setup : Setup} {n : ℕ} {start s : System}
      → Kept setup n start
      → Reach setup start s
      → Kept setup n s
  Reach-Kept v begin = v
  Reach-Kept v (later r st) = Step-Kept st (Reach-Kept v r)

  new_run-Kept :
      (setup : Setup) (sched : Scheduler) (n : ℕ) (g : Rng)
      → IsCounted sched
      → total sched.fired ≡ 0
      → Kept setup n (new_run sched n g)
  unfolding new_run jobs_upto new_latency_stats
  new_run-Kept setup sched n g c z =
      let none = λ (f : Worker → ℕ) (h : f idle ≡ 0). sum_of-replicate f n idle h in
      record {
        paced = record {
          counters = c;
          fired = z;
          analyzed = omega arith;
          sent_total = omega arith;
          sent_second = omega arith;
          queue_bound = omega arith;
        };
        accounted = record {
          texts = All-replicate CarriesText n idle tt;
          calls = omega (arith, none uncounted refl);
          in_flight = omega (arith, none flying refl);
          ok_second = omega (arith, none half_ok refl);
          err_second = omega (arith, none half_err refl);
          ok_logged = omega (arith, none unlogged_ok refl);
          err_logged = omega (arith, none unlogged_err refl);
          latencies = omega (arith, none unlogged_ok refl, none unlogged_err refl);
          few_errors = omega arith;
        };
        conserved = record { carried = λ f. omega (arith, none (held f) refl); chosen = refl };
        orderly = record {
          staffed = length-replicate n idle;
          leaving = inl (none gone refl);
          all_left = tt;
        };
      }

  pub main_run-Kept :
      {setup : Setup} {s : System} (start : Time) (seed g : Rng)
      → Reach setup (main_run setup start seed g) s
      → Kept setup setup.num_workers s
  unfolding main_run new_scheduler_with_replicas total
  main_run-Kept {setup} start seed g r =
      let deadline = add_time start setup.duration in
      Reach-Kept
        (new_run-Kept setup _ setup.num_workers g
          (new_scheduler-IsCounted setup.target_qps setup.replicas setup.burst start deadline seed)
          (omega arith))
        r
