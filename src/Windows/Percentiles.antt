-- ===== src/Windows/Percentiles.antt =====
-- The percentiles that are printed: latencyStats.summary and the reporter of main.go, and the
-- diffSampler of cmd/grpc-parity-check/main.go.
use go_replayer.Prelude.Int.{ℤ, pos, negsuc}
use go_replayer.Windows.FloatSort.{sort_floats, at_index}
use go_replayer.Windows.Latency.{LatencyStats, offer}
use go_replayer.Prelude.{
  Option, ℕ, List, some, if◌then◌else◌, length, [], ◌∷◌, ◌==◌, ltb, ◌+◌, is_empty, leb, ◌*◌, ◌||◌,
  ◌-◌, ◌/◌, ◌^◌,
}
use go_replayer.Machine.{Machine, zero_float, of_nat}

abbrev pub max_diff_samples : ℕ
max_diff_samples = 2 ^ 20

module _ ⦃m : Machine⦄ where
  open m use {Float, lt, mul, div, Rng, to_int, decimal}

  pub record Percentiles : Type 0 where
    pub p50 : Option Float
    pub p90 : Option Float
    pub p99 : Option Float

  -- `if idx >= len(s) { idx = len(s) - 1 }`
  abbrev pub clamp_high : ℕ → ℤ → ℤ
  clamp_high n (pos i) = if leb n i then pos (n - 1) else pos i
  clamp_high n (negsuc i) = negsuc i

  -- q(p) over sorted samples that are not empty; `none` is the run-time panic.
  unfoldable pub sample_quantile : List Float → Float → Option Float
  sample_quantile sorted p =
      at_index sorted (clamp_high (length sorted) (to_int (mul p (of_nat (length sorted)))))

  abbrev pub sample_percentiles : List Float → Percentiles
  sample_percentiles sorted = record {
    p50 = sample_quantile sorted (decimal 50 2);
    p90 = sample_quantile sorted (decimal 90 2);
    p99 = sample_quantile sorted (decimal 99 2);
  }

  pub record LatencySummary : Type 0 where
    pub lowest : Float
    pub average : Float
    pub percentiles : Percentiles
    pub highest : Float
    pub count : ℕ

  abbrev pub no_percentiles : Percentiles
  no_percentiles = record { p50 = some zero_float; p90 = some zero_float; p99 = some zero_float }

  unfoldable pub latency_summary : LatencyStats → LatencySummary
  latency_summary l =
      if l.count == 0
      then record {
        lowest = zero_float;
        average = zero_float;
        percentiles = no_percentiles;
        highest = zero_float;
        count = 0;
      }
      else record {
        lowest = l.lowest;
        average = div l.sum (of_nat l.count);
        percentiles = sample_percentiles (sort_floats l.reservoir);
        highest = l.highest;
        count = l.count;
      }

  -- The reporter, over the latencies of its tick.
  unfoldable pub tick_percentiles : List Float → Percentiles
  tick_percentiles lats =
      let sorted = sort_floats lats in
      let n = length sorted in
      if ltb 0 n
      then record {
        p50 = at_index sorted (pos (n * 50 / 100));
        p90 = at_index sorted (pos (n * 90 / 100));
        p99 = at_index sorted (pos (n * 99 / 100));
      }
      else no_percentiles

  pub record DiffSampler : Type 0 where
    pub count : ℕ
    pub lowest : Float
    pub highest : Float
    pub reservoir : List Float
    pub rng : Rng

  unfoldable pub new_diff_sampler : Rng → DiffSampler
  new_diff_sampler g = record {
    count = 0;
    lowest = zero_float;
    highest = zero_float;
    reservoir = [];
    rng = g;
  }

  -- `bound` is max_diff_samples.
  unfoldable pub add_diff : ℕ → DiffSampler → Float → DiffSampler
  add_diff bound d v =
      let (kept, g) = offer bound (d.count + 1) d.reservoir v d.rng in
      record {
        count = d.count + 1;
        lowest = if (d.count == 0) || lt v d.lowest then v else d.lowest;
        highest = if (d.count == 0) || lt d.highest v then v else d.highest;
        reservoir = kept;
        rng = g;
      }

  unfoldable pub add_diffs : ℕ → DiffSampler → List Float → DiffSampler
  add_diffs bound d [] = d
  add_diffs bound d (v ∷ vs) = add_diffs bound (add_diff bound d v) vs

  -- The distribution that is printed where a difference was added.
  unfoldable pub diff_percentiles : DiffSampler → Percentiles
  diff_percentiles d =
      let sorted = sort_floats d.reservoir in
      if is_empty sorted then no_percentiles else sample_percentiles sorted
