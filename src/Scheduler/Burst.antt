-- ===== src/Scheduler/Burst.antt =====
-- BurstConfig of scheduler.go: Enabled, AvgQPS, Validate and the flag parsers.
use go_replayer.Machine.{Machine}
use go_replayer.Prelude.{
  Text, Bool, Option, ◌≡◌, ◌&&◌, false, if◌then◌else◌, true, none, ◌/◌, some, ◌↔◌, not, ◌%◌, ◌⊎◌,
  arith, Bool-cases, inl, inr, suc,
}
use go_replayer.Prelude.Int.{ℤ, pos, is_positive, is_negative, is_zero, Duration, negsuc, sub_ℕ}

-- A BurstShape, BurstJitter or BurstMode is a Go string: one of its constants, or any other text.
pub data BurstShape : Type 0 where
  uniform spike random : BurstShape
  other_shape : Text → BurstShape

pub data BurstJitter : Type 0 where
  fixed poisson : BurstJitter
  other_jitter : Text → BurstJitter

pub data BurstMode : Type 0 where
  additive absorbing : BurstMode
  other_mode : Text → BurstMode

pub record BurstConfig : Type 0 where
  pub size : ℤ
  pub window : Duration
  pub period : Duration
  pub shape : BurstShape
  pub jitter : BurstJitter
  pub mode : BurstMode

-- The messages of Validate.
pub data BurstError : Type 0 where
  negative_size window_not_positive period_not_positive unknown_shape unknown_jitter unknown_mode :
      BurstError

-- Enabled
unfoldable pub enabled : BurstConfig → Bool
enabled c = is_positive c.size && is_positive c.period

abbrev pub known_shape : BurstShape → Bool
known_shape (other_shape t) = false
known_shape uniform = true
known_shape spike = true
known_shape random = true

abbrev pub known_jitter : BurstJitter → Bool
known_jitter (other_jitter t) = false
known_jitter fixed = true
known_jitter poisson = true

abbrev pub known_mode : BurstMode → Bool
known_mode (other_mode t) = false
known_mode additive = true
known_mode absorbing = true

-- Validate; `none` is its nil.
unfoldable pub validate : BurstConfig → Option BurstError
validate c =
    if is_negative c.size
    then some negative_size
    else if is_zero c.size
    then none
    else if not (is_positive c.window)
    then some window_not_positive
    else if not (is_positive c.period)
    then some period_not_positive
    else if not (known_shape c.shape)
    then some unknown_shape
    else if not (known_jitter c.jitter)
    then some unknown_jitter
    else if not (known_mode c.mode)
    then some unknown_mode
    else none

-- A configuration that NewScheduler may be given: bursts are off, or each part makes sense.
pub record IsBurst (c : BurstConfig) : Type 0 where
  pub size_positive : is_positive c.size ≡ true
  pub window_positive : is_positive c.window ≡ true
  pub period_positive : is_positive c.period ≡ true
  pub shape_known : known_shape c.shape ≡ true
  pub jitter_known : known_jitter c.jitter ≡ true
  pub mode_known : known_mode c.mode ≡ true

-- Validate accepts exactly the configurations with size 0 and those whose size, window and period are
-- positive and whose shape, jitter and mode are among the constants.
pub validate-none_iff :
    (c : BurstConfig) → (validate c ≡ none) ↔ ((is_zero c.size ≡ true) ⊎ IsBurst c)
unfolding validate
validate-none_iff c = (
  λ e. elim (Bool-cases (is_zero c.size)) [
    | inl off ↦ inl off
    | inr on ↦ inr (record {
      size_positive = ground arith;
      window_positive = ground arith;
      period_positive = ground arith;
      shape_known = ground arith;
      jitter_known = ground arith;
      mode_known = ground arith;
    })
  ],
  λ o. elim o [
    | inl off ↦ ground arith
    | inr b ↦ ground (
      arith, b.size_positive, b.window_positive, b.period_positive, b.shape_known, b.jitter_known,
      b.mode_known,
    )
  ],
)

-- After Validate, bursts are enabled unless the size is 0.
pub enabled-validate : (c : BurstConfig) → validate c ≡ none → enabled c ≡ not (is_zero c.size)
unfolding validate enabled
enabled-validate c e = ground arith

module _ ⦃m : Machine⦄ where
  open m use {Float, add, div, of_int}

  -- Duration.Seconds: the whole seconds, and the rest over 10^9; both truncate towards zero.
  unfoldable pub seconds : Duration → Float
  seconds (pos d) =
      add (of_int (pos (d / 1_000_000_000)))
        (div (of_int (pos (d % 1_000_000_000))) (of_int (pos 1_000_000_000)))
  seconds (negsuc d) =
      add (of_int (sub_ℕ 0 (suc d / 1_000_000_000)))
        (div (of_int (sub_ℕ 0 (suc d % 1_000_000_000))) (of_int (pos 1_000_000_000)))

  -- AvgQPS
  unfoldable pub avg_qps : BurstConfig → Float
  avg_qps c = if enabled c then div (of_int c.size) (seconds c.period) else of_int (pos 0)
