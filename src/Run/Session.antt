-- ===== src/Run/Session.antt =====
-- main of main.go from the command line to the end of the run.
use go_replayer.Run.Progress.{run_progresses}
use go_replayer.Run.Drain.{CanWork}
use go_replayer.Run.Step.{Reach, main_run}
use go_replayer.Scheduler.Burst.{poisson}
use go_replayer.Scheduler.State.{base_rate_of, at_least_one}
use go_replayer.Scheduler.Spikes.{FitsInt64}
use go_replayer.Run.State.{System, finished}
use go_replayer.Run.Start.{Started, start_run, setup_of}
use go_replayer.Config.Flags.{Host, Flags}
use go_replayer.Prelude.{◌≡◌, true, ◌<◌, Text, Option, arith, List, ℕ, ok, false, ◌≢◌, ◌⊎◌}
use go_replayer.Config.Dial.{Trust, DialOption}
use go_replayer.Machine.{Machine, Laws}
use go_replayer.Prelude.Int.{ℤ, is_positive, pos_part, Time}
use go_replayer.Run.Started.{start_run-IsStarted}

-- A positive flag is a positive number.
pos_part-positive : (n : ℤ) → is_positive n ≡ true → 0 < pos_part n
pos_part-positive n h = ground arith

module _ ⦃m : Machine⦄ ⦃trust : Trust⦄ where
  open m use {Rng, div, of_int, is_nan}

  -- A run that main starts from its command line is never blocked: if the products of its bursts fit
  -- int64, the rate of a replica is not NaN and the onsets are not exponential, then in every state that
  -- its goroutines reach, main has passed its waits or one of them can make a step that is not the start
  -- of a tick. The checks of the flags and of the requests give all else that this takes.
  pub started_progresses :
      {Conn : Type 0} (laws : Laws) (host : Host) (open_file : Text → Option (List ℕ))
      (new_client : ℕ → Text → List DialOption → Option Conn) (flags : Flags) (st : Started Conn)
      {s : System} (start : Time) (seed g : Rng)
      → start_run host open_file new_client flags ≡ ok st
      → FitsInt64 st.config.burst
      → is_nan (
          div
            (base_rate_of st.config.qps st.config.burst)
            (of_int (at_least_one st.config.replicas)))
        ≡ false
      → st.config.burst.jitter ≢ poisson
      → Reach (setup_of st) (main_run (setup_of st) start seed g) s
      → (s.sender ≡ finished) ⊎ CanWork (setup_of st) s
  started_progresses laws host open_file new_client flags st start seed g h fits num fixed run =
      let ready = start_run-IsStarted host open_file new_client flags st h in
      let usable = ready.usable in
      run_progresses laws (setup_of st) start seed g usable.burst_valid fits num fixed
        ready.requests_given (pos_part-positive st.config.workers usable.workers_positive)
        (pos_part-positive st.config.queue_capacity usable.queue_positive) run
