-- ===== src/Windows/Analyzer.antt =====
-- Summary of metrics.go's WindowAnalyzer.
use go_replayer.Machine.{Machine, zero_float, of_nat}
use go_replayer.Prelude.{
  ℕ, List, ◌/◌, ◌∷◌, ◌-◌, if◌then◌else◌, get_or, ◌+◌, replicate, [], leb, length, ltb, not, ◌||◌,
  is_empty,
}
use go_replayer.Prelude.Int.{ℤ, pos, negsuc, pos_part, is_positive, Duration}
use go_replayer.Prelude.Sorted.{sort}
use go_replayer.Windows.Bins.{fill, largest, bins_at_least, last_or}

abbrev pub max_summary_bins : ℕ
max_summary_bins = 5_000_000

-- `int((last-first)/winNs) + 1`, clamped. It is at least 1 as it stands.
unfoldable pub bin_count : ℕ → ℕ → ℕ
bin_count span width =
    let n = span / width + 1 in if ltb max_summary_bins n then max_summary_bins else n

unfoldable pub first_or : ℕ → List ℕ → ℕ
first_or d [] = d
first_or d (x ∷ xs) = x

-- `counts` over sorted timestamps that are not empty.
unfoldable pub histogram : ℕ → List ℕ → List ℕ
histogram width ts =
    let first = first_or 0 ts in
    let bins = bin_count (last_or 0 ts - first) width in fill bins first width ts (replicate bins 0)

pub record ThresholdHit : Type 0 where
  pub threshold : ℕ
  pub bins : ℕ

unfoldable pub threshold_hits : List ℕ → List ℕ → List ThresholdHit
threshold_hits counts [] = []
threshold_hits counts (th ∷ ths) =
    record { threshold = th; bins = bins_at_least th counts } ∷ threshold_hits counts ths

module _ ⦃m : Machine⦄ where
  open m use {Float, lt, add, sub, mul, div, nan, of_int, to_int, decimal}

  pub record WindowSummary : Type 0 where
    pub window : Duration
    pub num_bins : ℕ
    pub num_events : ℕ
    pub duration_sec : Float
    pub observed_qps : Float
    pub mean_count : Float
    pub var_count : Float
    pub fano : Float
    pub max_count : ℕ
    pub p50 : ℕ
    pub p90 : ℕ
    pub p99 : ℕ
    pub threshold_crosses : List ThresholdHit

  abbrev pub empty_summary : Duration → WindowSummary
  empty_summary window = record {
    window = window;
    num_bins = 0;
    num_events = 0;
    duration_sec = zero_float;
    observed_qps = zero_float;
    mean_count = zero_float;
    var_count = zero_float;
    fano = zero_float;
    max_count = 0;
    p50 = 0;
    p90 = 0;
    p99 = 0;
    threshold_crosses = [];
  }

  -- The first pass: sum and sum of squares.
  unfoldable pub sum_floats : Float × Float → List ℕ → Float × Float
  sum_floats acc [] = acc
  sum_floats acc (c ∷ cs) =
      sum_floats (add acc.0 (of_nat c), add acc.1 (mul (of_nat c) (of_nat c))) cs

  -- `idx < 0` and `idx >= numBins` are clamped.
  abbrev pub clamp_quantile : ℕ → ℤ → ℕ
  clamp_quantile bins (pos i) = if leb bins i then bins - 1 else i
  clamp_quantile bins (negsuc i) = 0

  -- q(p) over the sorted counts
  unfoldable pub bin_quantile : List ℕ → Float → ℕ
  bin_quantile sorted p =
      get_or sorted (clamp_quantile (length sorted) (to_int (mul p (of_nat (length sorted - 1))))) 0

  unfoldable pub summary : List ℕ → Duration → List ℕ → WindowSummary
  summary samples window thresholds =
      let ts = sort samples in
      let counts = histogram (pos_part window) ts in
      let sums = sum_floats (zero_float, zero_float) counts in
      let n = of_nat (length counts) in
      let mean = div sums.0 n in
      let raw = sub (div sums.1 n) (mul mean mean) in
      let variance = if lt raw zero_float then zero_float else raw in
      let sorted = sort counts in
      let duration = div (of_nat (last_or 0 ts - first_or 0 ts)) (of_nat 1_000_000_000) in
      if not (is_positive window) || is_empty samples then empty_summary window else record {
        window = window;
        num_bins = length counts;
        num_events = length ts;
        duration_sec = duration;
        observed_qps =
            if lt zero_float duration then div (of_nat (length ts)) duration else zero_float;
        mean_count = mean;
        var_count = variance;
        fano = if lt zero_float mean then div variance mean else nan;
        max_count = largest 0 counts;
        p50 = bin_quantile sorted (decimal 50 2);
        p90 = bin_quantile sorted (decimal 90 2);
        p99 = bin_quantile sorted (decimal 99 2);
        threshold_crosses = threshold_hits counts thresholds;
      }
