-- ===== src/Tests/Percentiles.antt =====
-- Percentiles and summaries of a few values.
use go_replayer.Windows.Ranks.{Ranks}
use go_replayer.Machine.{Machine}
use go_replayer.Windows.Gap.{record_arrivals}
use go_replayer.Windows.AnyOrder.{print_summary-record_all}
use go_replayer.Windows.Analyzer.{summary}
use go_replayer.Windows.Latency.{add_latencies, new_latency_stats}
use go_replayer.Windows.Capture.{record_all, sample_cap, empty_capture}
use go_replayer.Windows.Percentiles.{
  latency_summary, diff_percentiles, add_diffs, new_diff_sampler, tick_percentiles,
}
use go_replayer.Prelude.Int.{ℤ, pos}
use go_replayer.Windows.GapSummary.{print_summary}
use go_replayer.Windows.Drawn.{AreDrawn, percentiles-AreDrawn}
use go_replayer.Prelude.{List, ℕ, ◌∷◌, [], ◌≡◌, arith, ap, ◌*◌, ◌/◌, ◌^◌}
use mathlib.Core.List.Perm
use go_replayer.Tests.Arithmetic.{small_machine, div_ℤ, mul_ℤ}

-- Numbers with two decimals, as whole hundredths.
abbrev pub hundredths : Machine
hundredths = record small_machine {
  mul = λ a b. div_ℤ (mul_ℤ a b) (pos 100);
  of_int = λ n. mul_ℤ n (pos 100);
  to_int = λ a. div_ℤ a (pos 100);
  decimal = λ m e. pos (m * 100 / 10 ^ e);
}

pub hundredths_ranks : Ranks ⦃m = hundredths⦄
hundredths_ranks = record {
  rank50 = λ k h. ap pos (omega arith);
  rank90 = λ k h. ap pos (omega arith);
  rank99 = λ k h. ap pos (omega arith);
}

abbrev values : List ℤ
values = pos 30 ∷ pos 10 ∷ pos 20 ∷ []

percentiles-AreDrawn_example :
    AreDrawn ⦃m = hundredths⦄ values
      (add_latencies ⦃m = hundredths⦄ 2 (new_latency_stats ⦃m = hundredths⦄ 0) values).reservoir
      (latency_summary ⦃m = hundredths⦄ (
        add_latencies ⦃m = hundredths⦄ 2 (new_latency_stats ⦃m = hundredths⦄ 0) values)).percentiles
    × AreDrawn ⦃m = hundredths⦄ values
        (add_diffs ⦃m = hundredths⦄ 2 (new_diff_sampler ⦃m = hundredths⦄ 0) values).reservoir
        (diff_percentiles ⦃m = hundredths⦄
          (add_diffs ⦃m = hundredths⦄ 2 (new_diff_sampler ⦃m = hundredths⦄ 0) values))
    × AreDrawn ⦃m = hundredths⦄ values values (tick_percentiles ⦃m = hundredths⦄ values)
percentiles-AreDrawn_example =
    percentiles-AreDrawn ⦃m = hundredths⦄ hundredths_ranks 2 0 values (omega arith) (omega arith)
      (omega arith)

abbrev arrivals : List ℕ
arrivals = 1_000_000_000 ∷ 3_000_000_000 ∷ 8_000_000_000 ∷ []

abbrev reordered : List ℕ
reordered = 3_000_000_000 ∷ 1_000_000_000 ∷ 8_000_000_000 ∷ []

print_summary-record_all_example :
    (print_summary (record_arrivals empty_capture arrivals).samples
      ≡ print_summary (record_arrivals empty_capture reordered).samples)
    × (summary (record_all sample_cap empty_capture arrivals).samples (pos 10) []
        ≡ summary (record_all sample_cap empty_capture reordered).samples (pos 10) [])
print_summary-record_all_example =
    print_summary-record_all arrivals reordered (pos 10) [] (Perm.swap _ _ _) (omega arith)
