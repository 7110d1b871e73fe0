-- ===== src/Windows/Drawn.antt =====
-- Each percentile that is printed is one of the values that were added, at its rank in the sample.
use go_replayer.Windows.Ranks.{Ranks}
use mathlib.Core.Path.{subst}
use Prim.Native.Nat.{zero}
use go_replayer.Windows.FloatSort.{All-sort_floats, sort_floats, length-sort_floats}
use go_replayer.Windows.Latency.{
  add_latencies, add_latency, LatencyStats, new_latency_stats, add_latencies_sample, All-Mem,
}
use mathlib.Core.List.{Mem}
use go_replayer.Prelude.Int.{pos}
use go_replayer.Windows.Percentiles.{
  sample_quantile, tick_percentiles, add_diffs, Percentiles, add_diff, sample_percentiles,
  DiffSampler, latency_summary, diff_percentiles, new_diff_sampler, no_percentiles,
}
use go_replayer.Prelude.{
  ℕ, List, Option, All, ◌<◌, some, length, get_elem?, ◌∷◌, none, arith, ltb, suc, ◌≡◌, true, ap, [],
  lt→ltb, zero, leb, ◌*◌, ◌+◌, ◌/◌, refl, ◌==◌, if◌then◌else◌, false, is_empty, sym, ◌^◌, ◌≤◌, ◌∙◌,
}
use go_replayer.Machine.{Machine, of_nat}

module _ ⦃m : Machine⦄ where
  open m use {Float, mul, Rng, to_int, decimal}

  abbrev pub IsFrom : List Float → Option Float → Type 0
  IsFrom vs none = ⊥
  IsFrom vs (some v) = Mem v vs

  pub record AreFrom (vs : List Float) (r : Percentiles) : Type 0 where
    pub from50 : IsFrom vs r.p50
    pub from90 : IsFrom vs r.p90
    pub from99 : IsFrom vs r.p99

  get_elem?-IsFrom :
      (vs xs : List Float) (i : ℕ)
      → All (λ v. Mem v vs) xs
      → i < length xs
      → IsFrom vs (get_elem? xs i)
  get_elem?-IsFrom vs [] i h lt = absurd (omega arith)
  get_elem?-IsFrom vs (x ∷ xs) zero h lt = h.0
  get_elem?-IsFrom vs (x ∷ xs) (suc i) h lt = get_elem?-IsFrom vs xs i h.1 (omega arith)

  -- The percentiles are those at their ranks of the sorted sample.
  pub record AtRanks (sorted : List Float) (r : Percentiles) : Type 0 where
    pub at50 : r.p50 ≡ get_elem? sorted (length sorted * 50 / 100)
    pub at90 : r.p90 ≡ get_elem? sorted (length sorted * 90 / 100)
    pub at99 : r.p99 ≡ get_elem? sorted (length sorted * 99 / 100)

  AtRanks-AreFrom :
      (vs sorted : List Float) (r : Percentiles)
      → All (λ v. Mem v vs) sorted
      → 0 < length sorted
      → AtRanks sorted r
      → AreFrom vs r
  AtRanks-AreFrom vs sorted r h full a = record {
    from50 =
        subst (IsFrom vs) (sym a.at50)
          (get_elem?-IsFrom vs sorted (length sorted * 50 / 100) h (ground arith));
    from90 =
        subst (IsFrom vs) (sym a.at90)
          (get_elem?-IsFrom vs sorted (length sorted * 90 / 100) h (ground arith));
    from99 =
        subst (IsFrom vs) (sym a.at99)
          (get_elem?-IsFrom vs sorted (length sorted * 99 / 100) h (ground arith));
  }

  sample_quantile-rank :
      (sorted : List Float) (p : Float) (i : ℕ)
      → to_int (mul p (of_nat (length sorted))) ≡ pos i
      → i < length sorted
      → sample_quantile sorted p ≡ get_elem? sorted i
  unfolding sample_quantile
  sample_quantile-rank sorted p i e inside =
      let low : leb (length sorted) i ≡ false = ground arith in rw (e, low) refl

  sample-AtRanks :
      (sorted : List Float)
      → Ranks
      → 0 < length sorted
      → length sorted < 2 ^ 23
      → AtRanks sorted (sample_percentiles sorted)
  sample-AtRanks sorted ranks full few =
      let n = length sorted in
      record {
        at50 =
            sample_quantile-rank sorted (decimal 50 2) (n * 50 / 100) (ranks.rank50 n few)
              (ground arith);
        at90 =
            sample_quantile-rank sorted (decimal 90 2) (n * 90 / 100) (ranks.rank90 n few)
              (ground arith);
        at99 =
            sample_quantile-rank sorted (decimal 99 2) (n * 99 / 100) (ranks.rank99 n few)
              (ground arith);
      }

  -- The percentiles of a sample of the values: each is one of the values, at its rank.
  pub record AreDrawn (vs sample : List Float) (r : Percentiles) : Type 0 where
    pub drawn : AreFrom vs r
    pub ranked : AtRanks (sort_floats sample) r

  sample-AreDrawn :
      (vs sample : List Float) (r : Percentiles)
      → All (λ v. Mem v vs) sample
      → 0 < length sample
      → AtRanks (sort_floats sample) r
      → AreDrawn vs sample r
  sample-AreDrawn vs sample r h full a = record {
    drawn =
        AtRanks-AreFrom vs (sort_floats sample) r (All-sort_floats (λ v. Mem v vs) sample h)
          (omega (arith, length-sort_floats sample)) a;
    ranked = a;
  }

  tick-AtRanks : (vs : List Float) → 0 < length vs → AtRanks (sort_floats vs) (tick_percentiles vs)
  unfolding tick_percentiles
  tick-AtRanks vs full =
      let size : ltb 0 (length (sort_floats vs)) ≡ true =
        lt→ltb _ _ (omega (arith, length-sort_floats vs)) in
      rw size (record { at50 = refl; at90 = refl; at99 = refl })

  latency_summary-percentiles :
      (l : LatencyStats)
      → 0 < l.count
      → (latency_summary l).percentiles ≡ sample_percentiles (sort_floats l.reservoir)
  unfolding latency_summary
  latency_summary-percentiles l full =
      let counted : (l.count == 0) ≡ false = ground arith in rw counted refl

  diff_percentiles-sample :
      (d : DiffSampler)
      → 0 < length d.reservoir
      → diff_percentiles d ≡ sample_percentiles (sort_floats d.reservoir)
  unfolding diff_percentiles
  diff_percentiles-sample d full =
      nonempty (sort_floats d.reservoir) (omega (arith, length-sort_floats d.reservoir))
    where
      nonempty :
          (xs : List Float)
          → 0 < length xs
          → (if is_empty xs then no_percentiles else sample_percentiles xs) ≡ sample_percentiles xs
      nonempty [] k = absurd (omega arith)
      nonempty (x ∷ xs) k = refl

  -- The sampler keeps the sample that latencyStats keeps.
  add_diffs-add_latencies :
      (bound : ℕ) (d : DiffSampler) (l : LatencyStats) (vs : List Float)
      → d.count ≡ l.count
      → d.reservoir ≡ l.reservoir
      → d.rng ≡ l.rng
      → (add_diffs bound d vs).reservoir ≡ (add_latencies bound l vs).reservoir
  unfolding add_diffs add_diff add_latencies add_latency
  add_diffs-add_latencies bound d l [] c r g = r
  add_diffs-add_latencies bound d l (v ∷ vs) c r g =
      add_diffs-add_latencies bound (add_diff bound d v) (add_latency bound l v) vs
        (ap (λ (n : ℕ). n + 1) c) (rw (c, r, g) refl) (rw (c, r, g) refl)

  -- For values that are not none, with room for a sample of at most 2^20, and with the truncated ranks of
  -- Ranks: the percentiles that the summary of latencyStats gives, that the parity checker prints of
  -- its differences, and that the reporter gives of a tick are each one of the values, and stand at
  -- 50, 90 and 99 hundredths of the length in the sorted sample (of a tick: in all its values); so no
  -- index is out of range.
  pub percentiles-AreDrawn :
      Ranks
      → (bound : ℕ) (g : Rng) (vs : List Float) → 0 < bound
      → bound ≤ 2 ^ 20
      → 0 < length vs
      → AreDrawn vs
          (add_latencies bound (new_latency_stats g) vs).reservoir
          (latency_summary (add_latencies bound (new_latency_stats g) vs)).percentiles
        × AreDrawn vs
            (add_diffs bound (new_diff_sampler g) vs).reservoir
            (diff_percentiles (add_diffs bound (new_diff_sampler g) vs))
        × AreDrawn vs vs (tick_percentiles vs)
  unfolding new_latency_stats new_diff_sampler
  percentiles-AreDrawn ranks bound g vs room small full =
      let l = add_latencies bound (new_latency_stats g) vs in
      let d = add_diffs bound (new_diff_sampler g) vs in
      let (count, size, kept) = add_latencies_sample bound g vs in
      let some_kept : 0 < length l.reservoir = omega arith in
      let same : d.reservoir ≡ l.reservoir =
        add_diffs-add_latencies bound (new_diff_sampler g) (new_latency_stats g) vs refl refl
          refl in
      let sorted = length-sort_floats l.reservoir in
      let ranked =
        sample-AtRanks (sort_floats l.reservoir) ranks (omega (arith, sorted, some_kept))
          (omega (arith, sorted, size, small)) in
      (
        sample-AreDrawn vs l.reservoir _ kept some_kept (
            subst (AtRanks (sort_floats l.reservoir))
              (sym (latency_summary-percentiles l (omega (arith, count, full)))) ranked),
        subst (λ (xs : List Float). AreDrawn vs xs (diff_percentiles d)) (sym same)
            (sample-AreDrawn vs l.reservoir _ kept some_kept (
              subst (AtRanks (sort_floats l.reservoir))
                (sym (
                  diff_percentiles-sample d (omega (arith, some_kept, ap (length {A = Float}) same))
                  ∙ ap (λ (xs : List Float). sample_percentiles (sort_floats xs)) same))
                ranked)),
        sample-AreDrawn vs vs _ (All-Mem vs) full (tick-AtRanks vs full),
      )
