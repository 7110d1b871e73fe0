-- ===== src/Windows/GapSummary.antt =====
-- quantile, expectedExponentialQuantile, poissonTailProbAtLeast and printSummary of
-- cmd/grpc-gap-target/main.go: what printSummary computes before it prints.
use go_replayer.Windows.FloatSort.{at_index, sort_floats}
use Prim.Native.Nat.{zero}
use go_replayer.Windows.Analyzer.{first_or}
use go_replayer.Windows.Bins.{last_or}
use go_replayer.Prelude.Int.{Duration, ℤ, pos, negsuc}
use go_replayer.Prelude.{
  Bool, List, if◌then◌else◌, ℕ, ◌||◌, ◌∷◌, Option, suc, ◌-◌, length, ◌+◌, ◌==◌, [], is_empty, map,
  zero, none, some, ltb, false,
}
use go_replayer.Machine.{Machine, one_float, zero_float, of_nat}
use go_replayer.Prelude.Sorted.{sort}
use go_replayer.Windows.Gap.{WindowCounts, analyze_windows}
use go_replayer.Scheduler.Burst.{seconds}

module _ ⦃m : Machine⦄ where
  open m use {
    Float, lt, le, add, sub, mul, div, neg, log, exp, sqrt, floor, ceil, is_nan, nan, to_int,
    decimal, of_int,
  }

  -- The elements around the position, and what it is past the lower one.
  abbrev pub interpolate : Float → Float → Float → Float
  interpolate frac a b = add (mul a (sub one_float frac)) (mul b frac)

  abbrev pub both : Option Float → Option Float → (Float → Float → Float) → Option Float
  both none b f = none
  both (some a) none f = none
  both (some a) (some b) f = some (f a b)

  abbrev pub int_eq : ℤ → ℤ → Bool
  int_eq (pos a) (pos b) = a == b
  int_eq (pos a) (negsuc b) = false
  int_eq (negsuc a) (pos b) = false
  int_eq (negsuc a) (negsuc b) = a == b

  unfoldable pub quantile : List Float → Float → Option Float
  quantile sorted p =
      let position = mul p (of_nat (length sorted - 1)) in
      let lo = to_int (floor position) in
      let hi = to_int (ceil position) in
      if is_empty sorted
      then some nan
      else if le p zero_float
      then at_index sorted (pos 0)
      else if le one_float p
      then at_index sorted (pos (length sorted - 1))
      else if int_eq lo hi
      then at_index sorted lo
      else both (at_index sorted lo) (at_index sorted hi) (interpolate (sub position (of_int lo)))

  unfoldable pub expected_exponential_quantile : Float → Float → Float
  expected_exponential_quantile rate p =
      if le rate zero_float || le p zero_float || le one_float p
      then nan
      else div (neg (log (sub one_float p))) rate

  -- The loop from `i` on, for `n` rounds.
  unfoldable pub tail_loop : ℕ → ℕ → Float → Float → Float → Float
  tail_loop zero i mu term total = total
  tail_loop (suc n) i mu term total =
      let next_term = mul term (div mu (of_nat i)) in
      tail_loop n (i + 1) mu next_term (add total next_term)

  unfoldable pub poisson_tail_prob_at_least : Float → ℕ → Float
  poisson_tail_prob_at_least mu k =
      let term = exp (neg mu) in
      let tail = sub one_float (tail_loop (k - 1) 1 mu term term) in
      if k == 0
      then one_float
      else if le mu zero_float
      then zero_float
      else if lt tail zero_float
      then zero_float
      else if lt one_float tail
      then one_float
      else tail

  -- The gaps of ascending timestamps, in seconds.
  unfoldable pub gaps_of : List ℕ → List Float
  gaps_of [] = []
  gaps_of (a ∷ []) = []
  gaps_of (a ∷ b ∷ ts) = div (of_nat (b - a)) (of_nat 1_000_000_000) ∷ gaps_of (b ∷ ts)

  unfoldable pub sum_from : Float → List Float → Float
  sum_from acc [] = acc
  sum_from acc (g ∷ gs) = sum_from (add acc g) gs

  unfoldable pub squares_from : Float → Float → List Float → Float
  squares_from mean acc [] = acc
  squares_from mean acc (g ∷ gs) = let d = sub g mean in squares_from mean (add acc (mul d d)) gs

  pub record WindowLine : Type 0 where
    pub window : Duration
    pub threshold : ℕ
    pub counts : WindowCounts
    pub observed_prob : Float
    pub expected_windows : Float
    pub expected_prob : Float
    pub ratio : Float

  -- No line without a window.
  unfoldable pub window_lines : List ℕ → Float → List (Duration × ℕ) → List WindowLine
  window_lines arrivals rate [] = []
  window_lines arrivals rate ((window, threshold) ∷ cfgs) =
      let counts = analyze_windows arrivals window threshold in
      let expected = poisson_tail_prob_at_least (mul rate (seconds window)) threshold in
      let observed = div (of_nat counts.observed_burst_windows) (of_nat counts.num_windows) in
      let rest = window_lines arrivals rate cfgs in
      if counts.num_windows == 0
      then rest
      else record {
        window = window;
        threshold = threshold;
        counts = counts;
        observed_prob = observed;
        expected_windows = mul expected (of_nat counts.num_windows);
        expected_prob = expected;
        ratio = div observed expected;
      }
        ∷ rest

  pub record GapSummary : Type 0 where
    pub requests : ℕ
    pub duration_sec : Float
    pub observed_rate : Float
    pub mean_gap : Float
    pub std_gap : Float
    pub cv_gap : Float
    pub empirical : List (Option Float)
    pub expected : List Float
    pub windows : List WindowLine

  -- The three ways that printSummary ends.
  pub data Printed : Type 0 where
    too_few : ℕ → Printed
    no_duration : ℕ → Printed
    printed : GapSummary → Printed

  abbrev pub window_configs : List (Duration × ℕ)
  window_configs = (pos 1_000_000, 2) ∷ (pos 5_000_000, 3) ∷ (pos 10_000_000, 5) ∷ []

  abbrev pub percentiles : List Float
  percentiles = decimal 50 2 ∷ decimal 90 2 ∷ decimal 99 2 ∷ []

  unfoldable pub gap_summary : List ℕ → Float → GapSummary
  gap_summary ts duration =
      let gaps = gaps_of ts in
      let rate = div (of_nat (length ts)) duration in
      let mean = div (sum_from zero_float gaps) (of_nat (length gaps)) in
      let std = sqrt (div (squares_from mean zero_float gaps) (of_nat (length gaps))) in
      let sorted = sort_floats gaps in
      record {
        requests = length ts;
        duration_sec = duration;
        observed_rate = rate;
        mean_gap = mean;
        std_gap = std;
        cv_gap = div std mean;
        empirical = map (quantile sorted) percentiles;
        expected = map (expected_exponential_quantile rate) percentiles;
        windows = window_lines ts rate window_configs;
      }

  unfoldable pub print_summary : List ℕ → Printed
  print_summary arrivals =
      let ts = sort arrivals in
      let duration = div (of_nat (last_or 0 ts - first_or 0 ts)) (of_nat 1_000_000_000) in
      if ltb (length ts) 2
      then too_few (length ts)
      else if le duration zero_float
      then no_duration (length ts)
      else printed (gap_summary ts duration)
