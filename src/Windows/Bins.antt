-- ===== src/Windows/Bins.antt =====
-- Histograms over bins of equal width, as Summary of metrics.go and analyzeWindows of
-- cmd/grpc-gap-target/main.go fill them.
use native.Mathlib.Nat.{le_trans}
use Prim.Native.Nat.{zero}
use go_replayer.Prelude.{
  List, ℕ, ◌∷◌, if◌then◌else◌, ◌<◌, length, sum, ◌≤◌, ◌*◌, ◌+◌, leb, ◌-◌, ltb, ◌≡◌, replicate, All,
  arith, [], suc, ◌/◌, ◌∙◌, ap, zero, refl,
}

-- counts[idx]++
unfoldable pub bump : List ℕ → ℕ → List ℕ
bump [] i = []
bump (c ∷ cs) zero = (c + 1) ∷ cs
bump (c ∷ cs) (suc i) = c ∷ bump cs i

-- `idx >= numBins` is clamped to the last bin.
abbrev pub clamp_index : ℕ → ℕ → ℕ
clamp_index bins i = if leb bins i then bins - 1 else i

-- The loop over the timestamps. They are sorted, so `t - first` is not negative.
unfoldable pub fill : ℕ → ℕ → ℕ → List ℕ → List ℕ → List ℕ
fill bins first width [] counts = counts
fill bins first width (t ∷ ts) counts =
    fill bins first width ts (bump counts (clamp_index bins ((t - first) / width)))

-- The largest count, from 0 on.
unfoldable pub largest : ℕ → List ℕ → ℕ
largest best [] = best
largest best (c ∷ cs) = largest (if ltb best c then c else best) cs

-- How many bins hold at least `threshold`.
unfoldable pub bins_at_least : ℕ → List ℕ → ℕ
bins_at_least threshold [] = 0
bins_at_least threshold (c ∷ cs) = (if leb threshold c then 1 else 0) + bins_at_least threshold cs

-- The last element of a list, `xs[len(xs)-1]`.
unfoldable pub last_or : ℕ → List ℕ → ℕ
last_or d [] = d
last_or d (x ∷ xs) = last_or x xs

sum-bump : (cs : List ℕ) (i : ℕ) → i < length cs → sum (bump cs i) ≡ sum cs + 1
unfolding bump
sum-bump [] i h = absurd (omega arith)
sum-bump (c ∷ cs) zero h = omega arith
sum-bump (c ∷ cs) (suc i) h = omega (arith, sum-bump cs i (omega arith))

length-bump : (cs : List ℕ) (i : ℕ) → length (bump cs i) ≡ length cs
unfolding bump
length-bump [] i = refl
length-bump (c ∷ cs) zero = refl
length-bump (c ∷ cs) (suc i) = ap suc (length-bump cs i)

pub length-fill :
    (bins first width : ℕ) (ts counts : List ℕ)
    → length (fill bins first width ts counts) ≡ length counts
unfolding fill
length-fill bins first width [] counts = refl
length-fill bins first width (t ∷ ts) counts =
    length-fill bins first width ts _ ∙ length-bump counts _

-- Each timestamp is counted in one bin.
pub sum-fill :
    (bins first width : ℕ) (ts counts : List ℕ)
    → 0 < bins
    → length counts ≡ bins
    → sum (fill bins first width ts counts) ≡ sum counts + length ts
unfolding fill
sum-fill bins first width [] counts p e = omega arith
sum-fill bins first width (t ∷ ts) counts p e =
    let i = clamp_index bins ((t - first) / width) in
    let inside : i < length counts = ground arith in
    omega (
      arith,
      sum-fill bins first width ts (bump counts i) p (length-bump counts i ∙ e),
      sum-bump counts i inside,
    )

pub sum-zeros : (n : ℕ) → sum (replicate n 0) ≡ 0
sum-zeros zero = refl
sum-zeros (suc n) = omega (arith, sum-zeros n)

-- `largest` is a bound of the counts, and one of them.
pub largest-bound :
    (best : ℕ) (cs : List ℕ) → (best ≤ largest best cs) × All (λ c. c ≤ largest best cs) cs
unfolding largest
largest-bound best [] = (omega arith, tt)
largest-bound best (c ∷ cs) =
    let next = if ltb best c then c else best in
    let up : (best ≤ next) × (c ≤ next) = (ground arith, ground arith) in
    let ih = largest-bound next cs in (le_trans up.0 ih.0, (le_trans up.1 ih.0, ih.1))

pub bins_at_least-le :
    (threshold : ℕ) (cs : List ℕ) → threshold * bins_at_least threshold cs ≤ sum cs
unfolding bins_at_least
bins_at_least-le threshold [] = omega arith
bins_at_least-le threshold (c ∷ cs) = grind (arith, bins_at_least-le threshold cs)

pub bins_at_least-antitone :
    (low high : ℕ) (cs : List ℕ) → low ≤ high → bins_at_least high cs ≤ bins_at_least low cs
unfolding bins_at_least
bins_at_least-antitone low high [] h = omega arith
bins_at_least-antitone low high (c ∷ cs) h = ground (arith, bins_at_least-antitone low high cs h)

pub bins_at_least-length : (threshold : ℕ) (cs : List ℕ) → bins_at_least threshold cs ≤ length cs
unfolding bins_at_least
bins_at_least-length threshold [] = omega arith
bins_at_least-length threshold (c ∷ cs) = ground (arith, bins_at_least-length threshold cs)
