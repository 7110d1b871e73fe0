-- ===== src/Windows/Laws.antt =====
-- What the window summaries promise, and that sender and target agree.
use go_replayer.Windows.Largest.{largest-Mem}
use go_replayer.Windows.Ranks.{at_least, bins_at_least-at_least, Ranks, HasRank, sort-HasRank}
use mathlib.Core.List.{Mem}
use go_replayer.Heap.Order.{length-perm}
use go_replayer.Windows.Gap.{analyze_windows, gap_bin_count}
use go_replayer.Machine.{Machine, of_nat}
use go_replayer.Windows.Bins.{
  largest, largest-bound, last_or, bins_at_least-le, bins_at_least, length-fill, sum-fill,
  sum-zeros, fill,
}
use go_replayer.Prelude.{
  ℕ, List, sum, All, ◌≤◌, ◌≡◌, is_empty, length, ◌*◌, false, arith, ◌∷◌, true, [], ◌-◌,
  length-replicate, ◌∙◌, replicate, ◌<◌, refl, ap, sym, map, leb, ◌/◌,
}
use go_replayer.Windows.Analyzer.{
  histogram, threshold_hits, bin_count, ThresholdHit, bin_quantile, WindowSummary, summary,
  max_summary_bins, first_or,
}
use go_replayer.Prelude.Int.{pos_part, is_positive, Duration, pos}
use go_replayer.Prelude.Sorted.{sort, sort-perm}

-- The histogram counts each timestamp in one bin, and has 1 to 5,000,000 bins.
pub histogram_lem :
    (width : ℕ) (ts : List ℕ)
    → (sum (histogram width ts) ≡ length ts)
      × (1 ≤ length (histogram width ts))
      × (length (histogram width ts) ≤ max_summary_bins)
unfolding histogram bin_count
histogram_lem width ts =
    let first = first_or 0 ts in
    let bins = bin_count (last_or 0 ts - first) width in
    let some_bin : (1 ≤ bins) × (bins ≤ max_summary_bins) = (ground arith, ground arith) in
    let zeros : length (replicate {A = ℕ} bins 0) ≡ bins = length-replicate bins 0 in
    let filled = length-fill bins first width ts (replicate bins 0) in
    (
      omega
          (arith, sum-fill bins first width ts (replicate bins 0) some_bin.0 zeros, sum-zeros bins),
      omega (arith, filled, zeros),
      omega (arith, filled, zeros),
    )

-- A threshold's bins are those with that many events, and their events exist.
abbrev pub HitIsExact : ℕ → List ℕ → ThresholdHit → Type 0
HitIsExact events counts h =
    (h.bins ≡ at_least h.threshold counts) × (h.threshold * h.bins ≤ events)

threshold_hits-HitIsExact :
    (counts ths : List ℕ) → All (HitIsExact (sum counts) counts) (threshold_hits counts ths)
unfolding threshold_hits
threshold_hits-HitIsExact counts [] = tt
threshold_hits-HitIsExact counts (th ∷ ths) = (
  (bins_at_least-at_least th counts, bins_at_least-le th counts),
  threshold_hits-HitIsExact counts ths,
)

threshold_hits-thresholds :
    (counts ths : List ℕ)
    → map (λ (h : ThresholdHit). h.threshold) (threshold_hits counts ths) ≡ ths
unfolding threshold_hits
threshold_hits-thresholds counts [] = refl
threshold_hits-thresholds counts (th ∷ ths) = ap (◌∷◌ th) (threshold_hits-thresholds counts ths)

module _ ⦃m : Machine⦄ where
  open m use {Float, decimal, to_int, mul}

  bin_quantile-HasRank :
      (counts : List ℕ) (p : Float) (i : ℕ)
      → to_int (mul p (of_nat (length (sort counts) - 1))) ≡ pos i
      → i < length (sort counts)
      → HasRank i (bin_quantile (sort counts) p) counts
  unfolding bin_quantile
  bin_quantile-HasRank counts p i e inside =
      let low : leb (length (sort counts)) i ≡ false = ground arith in
      rw (e, low) (sort-HasRank counts i inside)

  -- The integer part of a summary is consistent with the counts of the bins that it summarises.
  pub record IsConsistent (events : ℕ) (counts thresholds : List ℕ) (s : WindowSummary)
      : Type 0 where
    pub all_events : s.num_events ≡ events
    pub all_counted : sum counts ≡ events
    pub all_bins : s.num_bins ≡ length counts
    pub some_bin : 1 ≤ s.num_bins
    pub bounded_bins : s.num_bins ≤ 5_000_000
    pub max_is_count : Mem s.max_count counts
    pub max_is_largest : All (λ c. c ≤ s.max_count) counts
    pub median : HasRank ((s.num_bins - 1) * 50 / 100) s.p50 counts
    pub ninetieth : HasRank ((s.num_bins - 1) * 90 / 100) s.p90 counts
    pub ninety_ninth : HasRank ((s.num_bins - 1) * 99 / 100) s.p99 counts
    pub all_thresholds : map (λ (h : ThresholdHit). h.threshold) s.threshold_crosses ≡ thresholds
    pub hits : All (HitIsExact events counts) s.threshold_crosses

  -- Summary over at least one sample and a positive window, with the truncated ranks of Ranks: it covers
  -- all samples in 1 to 5,000,000 bins; its maximum is the largest count of the histogram; its
  -- quantiles are counts of it, each with as many counts not above and not below it as its rank
  -- says; and each threshold has exactly the bins with at least that many events.
  pub summary-IsConsistent :
      Ranks
      → (samples : List ℕ) (window : Duration) (thresholds : List ℕ) → is_empty samples ≡ false
      → is_positive window ≡ true
      → IsConsistent
          (length samples)
          (histogram (pos_part window) (sort samples))
          thresholds
          (summary samples window thresholds)
  unfolding summary
  summary-IsConsistent ranks samples window thresholds some_sample wide =
      let ts = sort samples in
      let counts = histogram (pos_part window) ts in
      let (total, lo, hi) = histogram_lem (pos_part window) ts in
      let same : length ts ≡ length samples = length-perm (sort-perm samples) in
      let whole : sum counts ≡ length samples = total ∙ same in
      let bins : length (sort counts) ≡ length counts = length-perm (sort-perm counts) in
      rw (some_sample, wide)
        (record {
          all_events = same;
          all_counted = whole;
          all_bins = refl;
          some_bin = lo;
          bounded_bins = hi;
          max_is_count = largest-Mem counts lo;
          max_is_largest = (largest-bound 0 counts).1;
          median =
              bin_quantile-HasRank counts (decimal 50 2) _
                (ranks.rank50 _ (omega (arith, bins, hi))
                  ∙ ap (λ (n : ℕ). pos ((n - 1) * 50 / 100)) bins)
                (omega (arith, bins, lo));
          ninetieth =
              bin_quantile-HasRank counts (decimal 90 2) _
                (ranks.rank90 _ (omega (arith, bins, hi))
                  ∙ ap (λ (n : ℕ). pos ((n - 1) * 90 / 100)) bins)
                (omega (arith, bins, lo));
          ninety_ninth =
              bin_quantile-HasRank counts (decimal 99 2) _
                (ranks.rank99 _ (omega (arith, bins, hi))
                  ∙ ap (λ (n : ℕ). pos ((n - 1) * 99 / 100)) bins)
                (omega (arith, bins, lo));
          all_thresholds = threshold_hits-thresholds counts thresholds;
          hits = rw (← whole) (threshold_hits-HitIsExact counts thresholds);
        })

  is_empty-sort : (xs : List ℕ) → is_empty xs ≡ false → is_empty (sort xs) ≡ false
  is_empty-sort xs h =
      not_empty (sort xs) (omega (arith, length-perm (sort-perm xs), some_element xs h))
    where
      not_empty : (ys : List ℕ) → 0 < length ys → is_empty ys ≡ false
      not_empty [] p = absurd (omega arith)
      not_empty (y ∷ ys) p = refl

      some_element : (ys : List ℕ) → is_empty ys ≡ false → 0 < length ys
      some_element [] p = cc
      some_element (y ∷ ys) p = omega arith

  -- The target's counts are the sender's histogram.
  analyze_windows-histogram :
      (ts : List ℕ) (window : Duration) (threshold : ℕ)
      → is_empty ts ≡ false
      → is_positive window ≡ true
      → analyze_windows ts window threshold ≡ record {
        num_windows = length (histogram (pos_part window) ts);
        observed_burst_windows = bins_at_least threshold (histogram (pos_part window) ts);
        max_in_window = largest 0 (histogram (pos_part window) ts);
      }
  unfolding analyze_windows histogram bin_count gap_bin_count
  analyze_windows-histogram ts window threshold some_sample wide =
      let first = first_or 0 ts in
      let bins = bin_count (last_or 0 ts - first) (pos_part window) in
      let size : length (fill bins first (pos_part window) ts (replicate bins 0)) ≡ bins =
        length-fill bins first (pos_part window) ts (replicate bins 0) ∙ length-replicate bins 0 in
      rw (some_sample, wide)
        (ap
          (λ (n : ℕ). record {
            num_windows = n;
            observed_burst_windows =
                bins_at_least threshold (fill bins first (pos_part window) ts (replicate bins 0));
            max_in_window = largest 0 (fill bins first (pos_part window) ts (replicate bins 0));
          })
          (sym size))

  -- The sender's summary and the target's analyzeWindows agree: on the same timestamps, sorted, with
  -- the same positive window and threshold they report the same number of bins, the same largest count
  -- and the same number of bins at the threshold.
  pub summary-analyze_windows :
      (samples : List ℕ) (window : Duration) (threshold : ℕ)
      → is_empty samples ≡ false
      → is_positive window ≡ true
      → ((summary samples window (threshold ∷ [])).num_bins
          ≡ (analyze_windows (sort samples) window threshold).num_windows)
        × ((summary samples window (threshold ∷ [])).max_count
            ≡ (analyze_windows (sort samples) window threshold).max_in_window)
        × ((summary samples window (threshold ∷ [])).threshold_crosses
            ≡ record {
              threshold = threshold;
              bins = (analyze_windows (sort samples) window threshold).observed_burst_windows;
            }
              ∷ [])
  unfolding summary threshold_hits
  summary-analyze_windows samples window threshold some_sample wide =
      let same =
        analyze_windows-histogram (sort samples) window threshold
          (is_empty-sort samples some_sample) wide in
      rw (some_sample, wide, same) (refl, refl, refl)
