-- ===== src/Machine.antt =====
-- What the program takes from outside the model: float64 arithmetic and math, and math/rand. A
-- `Machine` has the operations; `Laws` states, where a theorem needs them, facts of IEEE 754 and of
-- the documentation of math and math/rand.
use go_replayer.Prelude.{
  Bool, ℕ, ◌^◌, if◌then◌else◌, ◌≡◌, ◌-◌, ◌||◌, true, false, Bool-cases, inl, inr, arith, refl, ◌<◌,
}
use go_replayer.Prelude.Int.{ℤ, pos, IsNonneg, Duration}

pub record Machine : Type 1 where
  pub Float : Type 0
  -- `a < b` and `a <= b`, false where an operand is NaN
  pub lt : Float → Float → Bool
  pub le : Float → Float → Bool
  pub add : Float → Float → Float
  pub sub : Float → Float → Float
  pub mul : Float → Float → Float
  pub div : Float → Float → Float
  pub neg : Float → Float
  -- math.Abs, math.Log, math.Exp, math.Sqrt, math.Floor, math.Ceil
  pub abs : Float → Float
  pub log : Float → Float
  pub exp : Float → Float
  pub sqrt : Float → Float
  pub floor : Float → Float
  pub ceil : Float → Float
  pub is_nan : Float → Bool
  pub is_inf : Float → Bool
  -- math.NaN() and math.SmallestNonzeroFloat64
  pub nan : Float
  pub smallest_nonzero : Float
  -- float64(n), and int64(f), which truncates towards zero
  pub of_int : ℤ → Float
  pub to_int : Float → ℤ
  -- the constant m / 10^e of the source
  pub decimal : ℕ → ℕ → Float
  -- math.Float64frombits, and math.Float32frombits widened to a float64
  pub of_bits64 : ℕ → Float
  pub of_bits32 : ℕ → Float
  -- *rand.Rand, with rng.Float64() and rng.Int63n(n)
  pub Rng : Type 0
  pub float64 : Rng → Float × Rng
  pub int63n : Rng → ℕ → ℕ × Rng

module _ ⦃m : Machine⦄ where
  open m use {
    Float, lt, le, sub, mul, div, neg, log, is_inf, is_nan, smallest_nonzero, of_int, to_int, Rng,
    float64,
  }

  abbrev pub zero_float : Float
  zero_float = of_int (pos 0)

  abbrev pub one_float : Float
  one_float = of_int (pos 1)

  -- `float64(n)` for a length or a counter
  abbrev pub of_nat : ℕ → Float
  of_nat n = of_int (pos n)

  -- `float64(time.Duration(1<<63 - 1))`
  abbrev pub max_duration_float : Float
  max_duration_float = of_int (pos (2 ^ 63 - 1))

  -- `u := 1.0 - rng.Float64(); if u <= 0 { u = math.SmallestNonzeroFloat64 }`
  unfoldable pub positive_draw : Rng → Float × Rng
  positive_draw g =
      let (x, g') = float64 g in
      let u = sub one_float x in (if le u zero_float then smallest_nonzero else u, g')

  -- poissonIntervalFloat of main.go
  unfoldable pub poisson_interval_float : Float → Rng → Duration × Rng
  poisson_interval_float rate g =
      if le rate zero_float
      then (pos 0, g)
      else let (u, g') = positive_draw g in
        let seconds = div (neg (log u)) rate in
        let nanos = mul seconds (of_nat 1_000_000_000) in
        if is_inf nanos || le max_duration_float nanos
        then (pos (2 ^ 63 - 1), g')
        else (to_int nanos, g')

  -- What positive_draw and poissonIntervalFloat rely on.
  pub record Laws : Type 0 where
    -- rng.Float64() is in [0, 1), and 1 - x is then in (0, 1]
    pub draw_positive : (g : Rng) → lt zero_float (positive_draw g).0 ≡ true
    pub draw_le_one : (g : Rng) → le (positive_draw g).0 one_float ≡ true
    pub draw_nonneg : (g : Rng) → le zero_float (float64 g).0 ≡ true
    -- a draw below 1 times a float64 from an int64 stays below 2^63
    pub draw_scaled :
        (g : Rng) (n : ℕ)
        → n < 2 ^ 63
        → le max_duration_float (mul (float64 g).0 (of_nat n)) ≡ false
    -- a draw is a multiple of 2^-53, so its negated logarithm is below 64
    pub log_scaled :
        (g : Rng) (n : ℕ)
        → n < 2 ^ 57
        → le max_duration_float (mul (neg (log (positive_draw g).0)) (of_nat n)) ≡ false
    -- the logarithm of a number in (0, 1] is not positive
    pub log_nonpos :
        (u : Float) → lt zero_float u ≡ true → le u one_float ≡ true → le (log u) zero_float ≡ true
    pub neg_nonneg : (a : Float) → le a zero_float ≡ true → le zero_float (neg a) ≡ true
    pub log_finite : (g : Rng) → is_inf (neg (log (positive_draw g).0)) ≡ false
    -- a quotient of a finite number by a positive one, which may be infinite
    pub div_nonneg :
        (a b : Float)
        → le zero_float a ≡ true
        → is_inf a ≡ false
        → le b zero_float ≡ false
        → is_nan b ≡ false
        → le zero_float (div a b) ≡ true
    pub mul_nonneg :
        (a : Float) (n : ℕ)
        → le zero_float a ≡ true
        → 0 < n
        → le zero_float (mul a (of_nat n)) ≡ true
    -- int64(f) of a number from 0 on and below the largest duration is not negative
    pub to_int_nonneg :
        (a : Float) → le zero_float a ≡ true → le max_duration_float a ≡ false → IsNonneg (to_int a)

  pub minus_log_nonneg : Laws → (g : Rng) → le zero_float (neg (log (positive_draw g).0)) ≡ true
  minus_log_nonneg laws g =
      laws.neg_nonneg _ (laws.log_nonpos _ (laws.draw_positive g) (laws.draw_le_one g))

  -- Under the laws an interval of a Poisson stream is not negative, whatever its rate, if that is not
  -- NaN.
  pub poisson_interval-IsNonneg :
      Laws
      → (rate : Float) (g : Rng) → is_nan rate ≡ false
      → IsNonneg (poisson_interval_float rate g).0
  unfolding poisson_interval_float
  poisson_interval-IsNonneg laws rate g num = elim (Bool-cases (le rate zero_float)) [
    | inl idle ↦ rw idle refl
    | inr busy ↦
        let u = (positive_draw g).0 in
        let nanos = mul (div (neg (log u)) rate) (of_nat 1_000_000_000) in
        let nonneg : le zero_float nanos ≡ true =
          laws.mul_nonneg _ 1_000_000_000
            (laws.div_nonneg _ rate (minus_log_nonneg laws g) (laws.log_finite g) busy num)
            (omega arith) in
        elim (Bool-cases (is_inf nanos || le max_duration_float nanos)) [
          | inl far ↦ rw (busy, far) refl
          | inr near ↦ rw (busy, near) (laws.to_int_nonneg nanos nonneg (ground arith))
        ]
  ]
