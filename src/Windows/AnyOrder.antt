-- ===== src/Windows/AnyOrder.antt =====
-- The captures and the summaries of cmd/grpc-gap-target/main.go and metrics.go against the order in
-- which concurrent handlers record.
use go_replayer.Windows.Gap.{record_arrivals, arrival_sample_cap, record_arrival}
use Prim.Native.Nat.{zero}
use go_replayer.Prelude.Sorted.{sort-eq_of_perm, length-eq_of_perm}
use mathlib.Core.List.{Perm}
use go_replayer.Windows.Capture.{record_all, empty_capture, sample_cap, record_all-take, Capture}
use go_replayer.Prelude.Int.{Duration}
use go_replayer.Windows.Analyzer.{summary}
use go_replayer.Windows.GapSummary.{print_summary}
use go_replayer.Machine.{Machine}
use go_replayer.Prelude.{
  ℕ, List, length, ◌≤◌, ◌≡◌, take, is_empty, arith, suc, ◌∙◌, refl, ◌∷◌, ap, [], zero,
}

take-all : (ts : List ℕ) (bound : ℕ) → length ts ≤ bound → take bound ts ≡ ts
take-all [] zero h = refl
take-all [] (suc bound) h = refl
take-all (t ∷ ts) zero h = absurd (omega arith)
take-all (t ∷ ts) (suc bound) h = ap (◌∷◌ t) (take-all ts bound (omega arith))

is_empty-eq_of_length : (ts us : List ℕ) → length ts ≡ length us → is_empty ts ≡ is_empty us
is_empty-eq_of_length [] [] e = refl
is_empty-eq_of_length [] (u ∷ us) e = absurd (omega arith)
is_empty-eq_of_length (t ∷ ts) [] e = absurd (omega arith)
is_empty-eq_of_length (t ∷ ts) (u ∷ us) e = refl

captured :
    (bound : ℕ) (ts : List ℕ) → length ts ≤ bound → (record_all bound empty_capture ts).samples ≡ ts
captured bound ts h = (record_all-take bound ts).0 ∙ take-all ts bound h

record_arrivals-eq :
    (s : Capture) (ts : List ℕ) → record_arrivals s ts ≡ record_all arrival_sample_cap s ts
unfolding record_arrivals record_all
record_arrivals-eq s [] = refl
record_arrivals-eq s (t ∷ ts) = record_arrivals-eq (record_arrival s t) ts

module _ ⦃m : Machine⦄ where
  print_summary-perm : (ts us : List ℕ) → Perm ts us → print_summary ts ≡ print_summary us
  unfolding print_summary
  print_summary-perm ts us p = rw (sort-eq_of_perm ts us p) refl

  summary-perm :
      (ts us : List ℕ) (window : Duration) (thresholds : List ℕ)
      → Perm ts us
      → summary ts window thresholds ≡ summary us window thresholds
  unfolding summary
  summary-perm ts us window thresholds p =
      let empty = is_empty-eq_of_length ts us (length-eq_of_perm ts us p) in
      rw (sort-eq_of_perm ts us p, empty) refl

  -- The handlers of the target take their time before they wait for the mutex, so the same arrivals can
  -- be recorded in any order. Within the capacity of the capture, what printSummary prints at the end
  -- does not depend on it, and neither does Summary of the sender's analyzer.
  pub print_summary-record_all :
      (ts us : List ℕ) (window : Duration) (thresholds : List ℕ)
      → Perm ts us
      → length ts ≤ 5_000_000
      → (print_summary (record_arrivals empty_capture ts).samples
          ≡ print_summary (record_arrivals empty_capture us).samples)
        × (summary (record_all sample_cap empty_capture ts).samples window thresholds
            ≡ summary (record_all sample_cap empty_capture us).samples window thresholds)
  print_summary-record_all ts us window thresholds p h =
      let us_fit : length us ≤ 5_000_000 = omega (arith, length-eq_of_perm ts us p) in
      rw
        (
          record_arrivals-eq empty_capture ts,
          record_arrivals-eq empty_capture us,
          captured sample_cap ts h,
          captured sample_cap us us_fit,
        )
        (print_summary-perm ts us p, summary-perm ts us window thresholds p)
