-- ===== src/Run/State.antt =====
-- What the goroutines of main.go share: the queue, the atomic counters and what the mutex guards.
use go_replayer.Scheduler.Burst.{BurstConfig}
use go_replayer.Prelude.Int.{ℤ, Duration}
use Prim.Native.Nat.{zero}
use go_replayer.Prelude.{
  none, some, ℕ, List, Text, if◌then◌else◌, ◌+◌, Bool, ◌∷◌, ◌||◌, [], not, false, text_eq, ltb, suc,
  is_empty, length, ◌++◌, take, zero,
}
use go_replayer.Machine.{Machine}
use go_replayer.Windows.Capture.{Capture}
use go_replayer.Windows.Latency.{LatencyStats, add_latency, max_latency_samples}
use go_replayer.Replay.Reader.{Request}
use go_replayer.Replay.Dispatch.{DispatchJob, make_dispatch_job, round_robin_request}
use go_replayer.Scheduler.State.{Scheduler}

abbrev pub max_distinct_errors : ℕ
max_distinct_errors = 1024

-- What main has settled when the goroutines start.
pub record Setup : Type 0 where
  pub reqs : List Request
  pub method : Text
  pub target_qps : ℤ
  pub replicas : ℤ
  pub duration : Duration
  pub burst : BurstConfig
  pub num_workers : ℕ
  pub queue_capacity : ℕ

-- A pair of total and per-second counters is two of these.
pub record Tally : Type 0 where
  pub sent : ℕ
  pub ok : ℕ
  pub err : ℕ

abbrev pub no_tally : Tally
no_tally = record { sent = 0; ok = 0; err = 0 }

-- Where the sender stands: before Next, before `jobs <- job`, before each of the two counters,
-- behind close(jobs), and behind the two waits.
pub data Sender : Type 0 where
  choosing : Sender
  offering : DispatchJob → Sender
  enqueued : Sender
  counted : Sender
  draining : Sender
  finished : Sender

-- Where the reporter stands: at its select, and behind each of the swaps.
pub data Reporter : Type 0 where
  watching swapped_sent swapped_ok swapped_err took_latencies : Reporter

-- errorCounts: a message and how often it was seen.
abbrev pub ErrorCounts : Type 0
ErrorCounts = List (Text × ℕ)

unfoldable pub is_seen : Text → ErrorCounts → Bool
is_seen msg [] = false
is_seen msg (e ∷ es) = text_eq e.0 msg || is_seen msg es

-- `errorCounts[errSummary]++`
unfoldable pub bump_error : Text → ErrorCounts → ErrorCounts
bump_error msg [] = (msg, 1) ∷ []
bump_error msg (e ∷ es) = if text_eq e.0 msg then (e.0, e.1 + 1) ∷ es else e ∷ bump_error msg es

-- A new message beyond the bound goes to otherErrors.
unfoldable pub count_error : Text → ErrorCounts → ℕ → ErrorCounts × ℕ
count_error msg counts others =
    if is_seen msg counts || ltb (length counts) max_distinct_errors
    then (bump_error msg counts, others)
    else (counts, others + 1)

-- `reqs[i]` made into a job, for the `i` below `n`.
unfoldable pub jobs_upto : Setup → ℕ → List DispatchJob
jobs_upto setup zero = []
jobs_upto setup (suc n) = elim (round_robin_request setup.reqs n) [
  | none ↦ jobs_upto setup n
  | some req ↦ jobs_upto setup n ++ make_dispatch_job req setup.method ∷ []
]

module _ ⦃m : Machine⦄ where
  open m use {Float}

  -- What Invoke returns, with the latency in milliseconds.
  pub data Reply : Type 0 where
    replied : Float → Reply
    failed : Float → Text → Reply

  abbrev pub latency : Reply → Float
  latency (replied lat) = lat
  latency (failed lat msg) = lat

  -- errSummary: the error's text cut to 120 bytes, and empty without an error.
  unfoldable pub error_summary : Reply → Text
  error_summary (replied lat) = []
  error_summary (failed lat msg) = if ltb 120 (length msg) then take 120 msg else msg

  -- Where a worker stands: at its receive, before Invoke, in Invoke, behind it, between the two
  -- counters, before the mutex, and behind its loop.
  pub data Worker : Type 0 where
    idle : Worker
    received : DispatchJob → Worker
    invoking : Worker
    answered : Reply → Worker
    tallied : Reply → Worker
    totalled : Reply → Worker
    exited : Worker

  -- `invoked` lists the calls of Invoke, oldest first; `reported` adds up what the reporter swapped out
  -- of the per-second counters, and `reported_latencies` counts the latencies that it took.
  pub record System : Type 0 where
    pub scheduler : Scheduler
    pub sender : Sender
    pub req_idx : ℕ
    pub analyzer : Capture
    pub queue : List DispatchJob
    pub workers : List Worker
    pub invoked : List DispatchJob
    pub inflight : ℕ
    pub totals : Tally
    pub second : Tally
    pub sec_latencies : List Float
    pub ok_lat : LatencyStats
    pub error_counts : ErrorCounts
    pub other_errors : ℕ
    pub reporter : Reporter
    pub reported : Tally
    pub reported_latencies : ℕ

  -- The section of a worker under the mutex.
  unfoldable pub log_reply : System → Reply → System
  unfolding error_summary
  log_reply s r =
      let summary = error_summary r in
      let (counts, others) = count_error summary s.error_counts s.other_errors in
      if not (is_empty summary)
      then record s {
        sec_latencies = s.sec_latencies ++ latency r ∷ [];
        error_counts = counts;
        other_errors = others;
      }
      else record s {
        sec_latencies = s.sec_latencies ++ latency r ∷ [];
        ok_lat = add_latency max_latency_samples s.ok_lat (latency r);
      }

  unfoldable pub tally_reply : Tally → Reply → Tally
  tally_reply t (replied lat) = record t { ok = t.ok + 1 }
  tally_reply t (failed lat msg) = record t { err = t.err + 1 }
