-- ===== src/Windows/Gap.antt =====
-- analyzeWindows of cmd/grpc-gap-target/main.go.
use go_replayer.Windows.Capture.{Capture, record_sample}
use go_replayer.Prelude.{
  ℕ, List, ◌/◌, ◌-◌, ◌+◌, replicate, if◌then◌else◌, ltb, is_empty, ◌||◌, not, ◌∷◌, [],
}
use go_replayer.Prelude.Int.{pos_part, is_positive, Duration}
use go_replayer.Windows.Bins.{fill, largest, bins_at_least, last_or}
use go_replayer.Windows.Analyzer.{first_or}

abbrev pub arrival_sample_cap : ℕ
arrival_sample_cap = 5_000_000

-- recordArrival
abbrev pub record_arrival : Capture → ℕ → Capture
record_arrival s ts = record_sample arrival_sample_cap s ts

-- The handlers' calls of it, one after another.
unfoldable pub record_arrivals : Capture → List ℕ → Capture
record_arrivals s [] = s
record_arrivals s (t ∷ ts) = record_arrivals (record_arrival s t) ts

abbrev pub max_bins : ℕ
max_bins = 5_000_000

pub record WindowCounts : Type 0 where
  pub num_windows : ℕ
  pub observed_burst_windows : ℕ
  pub max_in_window : ℕ

unfoldable pub gap_bin_count : ℕ → ℕ → ℕ
gap_bin_count span width = let n = span / width + 1 in if ltb max_bins n then max_bins else n

-- printSummary sorts the arrivals before the call, so no index is negative.
unfoldable pub analyze_windows : List ℕ → Duration → ℕ → WindowCounts
analyze_windows arrivals window threshold =
    let first = first_or 0 arrivals in
    let bins = gap_bin_count (last_or 0 arrivals - first) (pos_part window) in
    let counts = fill bins first (pos_part window) arrivals (replicate bins 0) in
    if is_empty arrivals || not (is_positive window)
    then record { num_windows = 0; observed_burst_windows = 0; max_in_window = 0 }
    else record {
      num_windows = bins;
      observed_burst_windows = bins_at_least threshold counts;
      max_in_window = largest 0 counts;
    }
