-- ===== src/Parity/System.antt =====
-- The loop of main in cmd/grpc-parity-check/main.go and the goroutines that it starts, interleaved in
-- any order. The atomic additions of one request are one step, since nothing but the progress line
-- reads the counters before the end; the CSV file, the sleep and printing are left out.
use go_replayer.Parity.Compare.{compare_proto_floats}
use go_replayer.Windows.Percentiles.{DiffSampler, new_diff_sampler, add_diff, max_diff_samples}
use go_replayer.Prelude.Int.{Time}
use go_replayer.Replay.Dispatch.{round_robin_request}
use go_replayer.Machine.{Machine}
use go_replayer.Replay.Reader.{Request}
use go_replayer.Prelude.{
  ℕ, List, Option, ◌+◌, [], Bool, ◌≡◌, some, length, ltb, false, leb, true, none, ◌<◌,
  if◌then◌else◌, ◌++◌, ◌∷◌, get_elem?, set, ◌-◌,
}
use go_replayer.Parity.Verdict.{Reply, count, no_totals, Totals, Class, classify, bytes_equal}

-- The capacity of `sem`.
abbrev pub concurrency_limit : ℕ
concurrency_limit = 32

-- `reqs[reqIdx%len(reqs)]`
abbrev pub parity_request : List Request → ℕ → Option Request
parity_request reqs idx = round_robin_request reqs idx

-- The two tests at the top of the loop: `none` is the zero deadline of a single pass.
unfoldable pub is_over : Option Time → ℕ → ℕ → Time → Bool
is_over (some deadline) num_requests req_idx now = ltb deadline now
is_over none num_requests req_idx now = leb num_requests req_idx

-- A goroutine: in the two calls, behind them, behind the counters, behind the mutex, and ended, with
-- its slot of `sem` given back.
pub data Call : Type 0 where
  calling : Request → Call
  both_replied : Request → Reply → Reply → Call
  scored : Request → Reply → Reply → Call
  sampled : Request → Reply → Reply → Call
  ended : Request → Reply → Reply → Call

-- Where main stands: at the top of the loop, before `sem <- struct{}{}`, behind the loop with as many
-- slots taken as the number says, and behind the drain.
pub data Stage : Type 0 where
  looping : Stage
  acquiring : Request → Stage
  draining_slots : ℕ → Stage
  concluded : Stage

module _ ⦃m : Machine⦄ where
  open m use {Float, Rng}

  -- What main has settled when the loop starts.
  pub record Check : Type 0 where
    pub reqs : List Request
    pub tolerance : Float
    pub deadline : Option Time

  pub record Checker : Type 0 where
    pub stage : Stage
    -- the slots of `sem` that are taken
    pub sem : ℕ
    pub req_idx : ℕ
    pub calls : List Call
    pub totals : Totals
    pub diffs : DiffSampler

  -- The section under the mutex, for two responses that differ.
  unfoldable pub sample_pair : Float → DiffSampler → Reply → Reply → DiffSampler
  sample_pair tolerance diffs (some a) (some b) =
      let sampled_diffs : DiffSampler = elim (compare_proto_floats a b tolerance) [
        | none ↦ diffs
        | some r ↦ add_diff max_diff_samples diffs r.max_diff
      ] in
      if bytes_equal a b then diffs else sampled_diffs
  sample_pair tolerance diffs (some a) none = diffs
  sample_pair tolerance diffs none (some b) = diffs
  sample_pair tolerance diffs none none = diffs

  pub data CheckStep (c : Check) (s : Checker) : Checker → Type 0 where
    take_request :
        (now : Time) (r : Request)
        → s.stage ≡ looping
        → is_over c.deadline (length c.reqs) s.req_idx now ≡ false
        → parity_request c.reqs s.req_idx ≡ some r
        → CheckStep c s (record s { stage = acquiring r; req_idx = s.req_idx + 1 })
    leave_loop :
        (now : Time)
        → s.stage ≡ looping
        → is_over c.deadline (length c.reqs) s.req_idx now ≡ true
        → CheckStep c s (record s { stage = draining_slots 0 })
    spawn :
        (r : Request)
        → s.stage ≡ acquiring r
        → s.sem < concurrency_limit
        → CheckStep c s
            (record s { stage = looping; sem = s.sem + 1; calls = s.calls ++ calling r ∷ [] })
    -- both Invokes have returned
    both_reply :
        (i : ℕ) (r : Request) (a b : Reply)
        → get_elem? s.calls i ≡ some (calling r)
        → CheckStep c s (record s { calls = set s.calls i (both_replied r a b) })
    tally :
        (i : ℕ) (r : Request) (a b : Reply) (k : Class)
        → get_elem? s.calls i ≡ some (both_replied r a b)
        → classify c.tolerance a b ≡ some k
        → CheckStep c s
            (record s { totals = count s.totals k; calls = set s.calls i (scored r a b) })
    sample :
        (i : ℕ) (r : Request) (a b : Reply)
        → get_elem? s.calls i ≡ some (scored r a b)
        → CheckStep c s (record s {
          diffs = sample_pair c.tolerance s.diffs a b;
          calls = set s.calls i (sampled r a b);
        })
    release :
        (i : ℕ) (r : Request) (a b : Reply)
        → get_elem? s.calls i ≡ some (sampled r a b)
        → 0 < s.sem
        → CheckStep c s (record s { sem = s.sem - 1; calls = set s.calls i (ended r a b) })
    drain_slot :
        (k : ℕ)
        → s.stage ≡ draining_slots k
        → k < concurrency_limit
        → s.sem < concurrency_limit
        → CheckStep c s (record s { stage = draining_slots (k + 1); sem = s.sem + 1 })
    report :
        s.stage ≡ draining_slots concurrency_limit → CheckStep c s (record s { stage = concluded })

  -- The states that a number of steps leads to.
  pub data CheckRun (c : Check) (start : Checker) : ℕ → Checker → Type 0 where
    unmoved : CheckRun c start 0 start
    check_moved :
        {n : ℕ} {s t : Checker}
        → CheckRun c start n s
        → CheckStep c s t
        → CheckRun c start (n + 1) t

  unfoldable pub new_checker : Rng → Checker
  new_checker g = record {
    stage = looping;
    sem = 0;
    req_idx = 0;
    calls = [];
    totals = no_totals;
    diffs = new_diff_sampler g;
  }
