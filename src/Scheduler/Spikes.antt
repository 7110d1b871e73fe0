-- ===== src/Scheduler/Spikes.antt =====
-- The spikes of one burst: how many, where, and in which order.
use go_replayer.Heap.Order.{length-perm}
use Prim.Native.Nat.{zero}
use go_replayer.Prelude.Sorted.{IsSorted, sort, sort-perm, sort-IsSorted, All-sort}
use go_replayer.Machine.{Machine, Laws, of_nat}
use native.Mathlib.Nat.{le-div_iff_mul-le, div-lt_iff_lt-mul, div-mul-le_self, le_trans}
use go_replayer.Prelude.{
  ℕ, ◌*◌, ◌<◌, ◌≤◌, ◌^◌, ◌/◌, ◌≡◌, arith, suc, length, ◌+◌, List, ap, All, zero, refl, ◌∙◌, true,
  ltb→lt,
}
use go_replayer.Prelude.Int.{
  pos, pos_part, quo, mul64, Time, Duration, add_time, is_positive, negsuc,
}
use go_replayer.Scheduler.Burst.{
  BurstConfig, IsBurst, BurstShape, other_shape, spike, random, uniform,
}
use go_replayer.Scheduler.Next.{spike_times, uniform_times, random_times, fresh_times}

mul64_small : (a b : ℕ) → a * b < 2 ^ 63 → mul64 (pos a) b ≡ pos (a * b)
mul64_small a b h = ground arith

-- What is asked of a burst so that no int64 product of spawnBurst wraps.
pub record FitsInt64 (c : BurstConfig) : Type 0 where
  pub spike_fits : pos_part c.size * 1_000 < 2 ^ 63
  pub uniform_fits : pos_part c.window * pos_part c.size < 2 ^ 63
  pub window_fits : pos_part c.window < 2 ^ 63
  pub period_fits : pos_part c.period < 2 ^ 57

div_mono : (a b n : ℕ) → a ≤ b → a / n ≤ b / n
div_mono a b zero h = grind arith
div_mono a b (suc n) h =
    (le-div_iff_mul-le (omega arith)).1 (le_trans (div-mul-le_self a (suc n)) h)

div_lt_window : (w i n : ℕ) → 0 < w → i < n → w * i / n < w
div_lt_window w i n p q = (div-lt_iff_lt-mul (omega arith)).1 (grind arith)

-- A time from `lo` on and before `hi`.
abbrev pub Within : Time → Time → Time → Type 0
Within lo hi t = (lo ≤ t) × (t < hi)

module _ ⦃m : Machine⦄ where
  open m use {Rng, float64, of_int, to_int, mul, le}

  length-spike_times : (n i : ℕ) (at : Time) → length (spike_times n i at) ≡ n
  unfolding spike_times
  length-spike_times zero i at = refl
  length-spike_times (suc n) i at = ap suc (length-spike_times n (i + 1) at)

  spike_times-from :
      (n i : ℕ) (at lo : Time)
      → (i + n) * 1_000 < 2 ^ 63
      → lo ≤ at + i * 1_000
      → All (λ t. lo ≤ t) (spike_times n i at)
  unfolding spike_times
  spike_times-from zero i at lo h p = tt
  spike_times-from (suc n) i at lo h p = (
    rw (mul64_small i 1_000 (omega arith)) (omega arith),
    spike_times-from n (i + 1) at lo (omega arith) (omega arith),
  )

  spike_times-IsSorted :
      (n i : ℕ) (at : Time) → (i + n) * 1_000 < 2 ^ 63 → IsSorted (spike_times n i at)
  unfolding spike_times
  spike_times-IsSorted zero i at h = tt
  spike_times-IsSorted (suc n) i at h = (
    spike_times-from n (i + 1) at _ (omega arith)
        (rw (mul64_small i 1_000 (omega arith)) (omega arith)),
    spike_times-IsSorted n (i + 1) at (omega arith),
  )

  length-uniform_times :
      (n i size : ℕ) (w : Duration) (at : Time) → length (uniform_times n i size w at) ≡ n
  unfolding uniform_times
  length-uniform_times zero i size w at = refl
  length-uniform_times (suc n) i size w at = ap suc (length-uniform_times n (i + 1) size w at)

  uniform_step :
      (w i size : ℕ) (at : Time)
      → w * i < 2 ^ 63
      → add_time at (quo (mul64 (pos w) i) size) ≡ at + w * i / size
  uniform_step w i size at h = rw (mul64_small w i h) (omega arith)

  uniform_times-from :
      (n i size w : ℕ) (at lo : Time)
      → i + n ≤ size
      → w * size < 2 ^ 63
      → lo ≤ at + w * i / size
      → All (λ t. lo ≤ t) (uniform_times n i size (pos w) at)
  unfolding uniform_times
  uniform_times-from zero i size w at lo p h q = tt
  uniform_times-from (suc n) i size w at lo p h q = (
    rw (uniform_step w i size at (grind arith)) q,
    uniform_times-from n (i + 1) size w at lo (omega arith) h
        (omega (arith, div_mono (w * i) (w * (i + 1)) size (omega arith))),
  )

  uniform_times-IsSorted :
      (n i size w : ℕ) (at : Time)
      → i + n ≤ size
      → w * size < 2 ^ 63
      → IsSorted (uniform_times n i size (pos w) at)
  unfolding uniform_times
  uniform_times-IsSorted zero i size w at p h = tt
  uniform_times-IsSorted (suc n) i size w at p h = (
    uniform_times-from n (i + 1) size w at _ (omega arith) h (
        rw (uniform_step w i size at (grind arith))
          (omega (arith, div_mono (w * i) (w * (i + 1)) size (omega arith)))),
    uniform_times-IsSorted n (i + 1) size w at (omega arith) h,
  )

  -- The k-th request of a uniform burst fires inside the window.
  uniform_times-Within :
      (n i size w : ℕ) (at : Time)
      → i + n ≤ size
      → 0 < w
      → w * size < 2 ^ 63
      → All (Within at (at + w)) (uniform_times n i size (pos w) at)
  unfolding uniform_times
  uniform_times-Within zero i size w at p q h = tt
  uniform_times-Within (suc n) i size w at p q h = (
    (
      rw (uniform_step w i size at (grind arith)) (omega arith),
      rw (uniform_step w i size at (grind arith))
          (omega (arith, div_lt_window w i size q (omega arith))),
    ),
    uniform_times-Within n (i + 1) size w at (omega arith) q h,
  )

  length-random_times :
      (n : ℕ) (w : Duration) (at : Time) (g : Rng) → length (random_times n w at g).0 ≡ n
  unfolding random_times
  length-random_times zero w at g = refl
  length-random_times (suc n) w at g = ap suc (length-random_times n w at (float64 g).1)

  random_times-from :
      Laws
      → (n w : ℕ) (at : Time) (g : Rng) → 0 < w
      → w < 2 ^ 63
      → All (λ t. at ≤ t) (random_times n (pos w) at g).0
  unfolding random_times
  random_times-from laws zero w at g p h = tt
  random_times-from laws (suc n) w at g p h =
      let offset =
        laws.to_int_nonneg (mul (float64 g).0 (of_nat w))
          (laws.mul_nonneg _ w (laws.draw_nonneg g) p) (laws.draw_scaled g w h) in
      (omega (arith, offset), random_times-from laws n w at (float64 g).1 p h)

  length-sort : (xs : List ℕ) → length (sort xs) ≡ length xs
  length-sort xs = length-perm (sort-perm xs)

  -- The same for a window that is an int64 above 0.
  uniform-from :
      (size : ℕ) (w : Duration) (at : Time)
      → is_positive w ≡ true
      → pos_part w * size < 2 ^ 63
      → All (λ t. at ≤ t) (uniform_times size 0 size w at)
  uniform-from size (pos w) at p h =
      uniform_times-from size 0 size w at at (omega arith) h (omega arith)
  uniform-from size (negsuc w) at p h = cc

  uniform-IsSorted :
      (size : ℕ) (w : Duration) (at : Time)
      → is_positive w ≡ true
      → pos_part w * size < 2 ^ 63
      → IsSorted (uniform_times size 0 size w at)
  uniform-IsSorted size (pos w) at p h = uniform_times-IsSorted size 0 size w at (omega arith) h
  uniform-IsSorted size (negsuc w) at p h = cc

  random-from :
      Laws
      → (n : ℕ) (w : Duration) (at : Time) (g : Rng) → is_positive w ≡ true
      → pos_part w < 2 ^ 63
      → All (λ t. at ≤ t) (random_times n w at g).0
  random-from laws n (pos w) at g p h = random_times-from laws n w at g (ltb→lt 0 w p) h
  random-from laws n (negsuc w) at g p h = cc

  module _ (laws : Laws) (c : BurstConfig) (b : IsBurst c) (f : FitsInt64 c) (at : Time)
      (g : Rng) where
    abbrev pub fresh : BurstShape → List Time
    fresh shape = (fresh_times shape (pos_part c.size) c.window at g).0

    pub fresh_shape-from : (shape : BurstShape) → All (λ t. at ≤ t) (fresh shape)
    unfolding fresh_times
    fresh_shape-from spike = spike_times-from _ 0 at at (omega (arith, f.spike_fits)) (omega arith)
    fresh_shape-from random =
        All-sort (λ t. at ≤ t) _ (random-from laws _ c.window at g b.window_positive f.window_fits)
    fresh_shape-from uniform = uniform-from _ c.window at b.window_positive f.uniform_fits
    fresh_shape-from (other_shape t) = uniform-from _ c.window at b.window_positive f.uniform_fits

    pub fresh_shape-IsSorted : (shape : BurstShape) → IsSorted (fresh shape)
    unfolding fresh_times
    fresh_shape-IsSorted spike = spike_times-IsSorted _ 0 at (omega (arith, f.spike_fits))
    fresh_shape-IsSorted random = sort-IsSorted _
    fresh_shape-IsSorted uniform = uniform-IsSorted _ c.window at b.window_positive f.uniform_fits
    fresh_shape-IsSorted (other_shape t) =
        uniform-IsSorted _ c.window at b.window_positive f.uniform_fits

  -- A burst has as many spikes as its size, whatever its shape.
  pub length-fresh_times :
      (shape : BurstShape) (n : ℕ) (w : Duration) (at : Time) (g : Rng)
      → length (fresh_times shape n w at g).0 ≡ n
  unfolding fresh_times
  length-fresh_times spike n w at g = length-spike_times n 0 at
  length-fresh_times random n w at g = length-sort _ ∙ length-random_times n w at g
  length-fresh_times uniform n w at g = length-uniform_times n 0 n w at
  length-fresh_times (other_shape t) n w at g = length-uniform_times n 0 n w at
