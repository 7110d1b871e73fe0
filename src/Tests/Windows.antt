-- ===== src/Tests/Windows.antt =====
-- Five samples, out of order, in windows of ten nanoseconds.
use go_replayer.Tests.Percentiles.{hundredths, hundredths_ranks}
use mathlib.Core.List.{Mem}
use go_replayer.Windows.Latency.{add_latencies, new_latency_stats, add_latencies_sample}
use go_replayer.Windows.Bins.{last_or, fill, bump}
use go_replayer.Windows.Analyzer.{histogram, summary, bin_count, first_or}
use go_replayer.Windows.Gap.{analyze_windows}
use go_replayer.Windows.Laws.{IsConsistent, summary-IsConsistent, summary-analyze_windows}
use go_replayer.Prelude.{ℕ, List, [], ◌∷◌, ◌≡◌, refl, length, min, All}
use go_replayer.Prelude.Int.{pos, ℤ}
use go_replayer.Prelude.Sorted.{sort}
use go_replayer.Tests.Arithmetic.{small_machine}

abbrev samples : List ℕ
samples = 131 ∷ 100 ∷ 104 ∷ 102 ∷ 135 ∷ []

sorted_histogram : histogram 10 (sort samples) ≡ 3 ∷ 0 ∷ 0 ∷ 2 ∷ []
unfolding histogram bin_count first_or last_or fill bump sort
sorted_histogram = refl

summary-IsConsistent_example :
    IsConsistent ⦃m = hundredths⦄
      (length samples)
      (histogram 10 (sort samples))
      (2 ∷ 3 ∷ [])
      (summary ⦃m = hundredths⦄ samples (pos 10) (2 ∷ 3 ∷ []))
summary-IsConsistent_example =
    summary-IsConsistent ⦃m = hundredths⦄ hundredths_ranks samples (pos 10) (2 ∷ 3 ∷ []) refl refl

summary-analyze_windows_example :
    ((summary samples (pos 10) (2 ∷ [])).num_bins
      ≡ (analyze_windows (sort samples) (pos 10) 2).num_windows)
    × ((summary samples (pos 10) (2 ∷ [])).max_count
        ≡ (analyze_windows (sort samples) (pos 10) 2).max_in_window)
    × ((summary samples (pos 10) (2 ∷ [])).threshold_crosses
        ≡ record {
          threshold = 2;
          bins = (analyze_windows (sort samples) (pos 10) 2).observed_burst_windows;
        }
          ∷ [])
summary-analyze_windows_example = summary-analyze_windows samples (pos 10) 2 refl refl

abbrev latencies : List ℤ
latencies = pos 12 ∷ pos 7 ∷ pos 30 ∷ pos 9 ∷ []

add_latencies_sample_example :
    ((add_latencies 3 (new_latency_stats 0) latencies).count ≡ length latencies)
    × (length (add_latencies 3 (new_latency_stats 0) latencies).reservoir
        ≡ min 3 (length latencies))
    × All (λ v. Mem v latencies) (add_latencies 3 (new_latency_stats 0) latencies).reservoir
add_latencies_sample_example = add_latencies_sample 3 0 latencies
