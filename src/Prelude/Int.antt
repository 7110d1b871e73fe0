-- ===== src/Prelude/Int.antt =====
-- Go's signed 64-bit integers, and int64-based times and durations, over the native numbers.
use Prim.Native.Nat.{ℕ, zero, suc, ◌+◌, ◌-◌, ◌*◌, ◌/◌, ◌%◌, ◌^◌}
use mathlib.Core.Path.{◌≡◌}
use mathlib.Core.Bool.{Bool, true, false}
use go_replayer.Prelude.{ltb, leb, if◌then◌else◌}

-- `negsuc n` is -(n + 1).
pub data ℤ : Type 0 where
  pos : ℕ → ℤ
  negsuc : ℕ → ℤ

abbrev pub pos_part : ℤ → ℕ
pos_part (pos n) = n
pos_part (negsuc n) = 0

abbrev pub neg_part : ℤ → ℕ
neg_part (pos n) = 0
neg_part (negsuc n) = suc n

-- a - b, as an integer.
abbrev pub sub_ℕ : ℕ → ℕ → ℤ
sub_ℕ a b = if leb b a then pos (a - b) else negsuc (b - a - 1)

-- `0 < a`, `a <= 0` and `a == 0`, Go's tests of an int against zero.
abbrev pub is_positive : ℤ → Bool
is_positive (pos n) = ltb 0 n
is_positive (negsuc n) = false

abbrev pub is_negative : ℤ → Bool
is_negative (pos n) = false
is_negative (negsuc n) = true

abbrev pub is_zero : ℤ → Bool
is_zero (pos zero) = true
is_zero (pos (suc n)) = false
is_zero (negsuc n) = false

-- The int64 that a bit pattern stands for.
abbrev pub to_int64 : ℕ → ℤ
to_int64 x =
    if ltb (x % 2 ^ 64) (2 ^ 63) then pos (x % 2 ^ 64) else negsuc (2 ^ 64 - x % 2 ^ 64 - 1)

-- int64 multiplication by a number that is not negative, with its wrap-around.
abbrev pub mul64 : ℤ → ℕ → ℤ
mul64 (pos a) b = to_int64 (a * b)
mul64 (negsuc a) b = to_int64 (2 ^ 64 - (suc a * b) % 2 ^ 64)

-- Go's division truncates towards zero; the divisor here is positive.
abbrev pub quo : ℤ → ℕ → ℤ
quo (pos a) b = pos (a / b)
quo (negsuc a) b = if ltb (suc a) b then pos 0 else negsuc (suc a / b - 1)

-- A `time.Time`, as the nanoseconds since Go's zero time (year 1), which is 0 here.
abbrev pub Time : Type 0
Time = ℕ

-- A `time.Duration`, in nanoseconds.
abbrev pub Duration : Type 0
Duration = ℤ

-- `t.Add(d)`. A present time is above 2 ^ 63 ns, so the subtraction does not stop at 0.
abbrev pub add_time : Time → Duration → Time
add_time t d = t + pos_part d - neg_part d

-- `t.Before(u)`
abbrev pub before : Time → Time → Bool
before t u = ltb t u

abbrev pub IsNonneg : ℤ → Type 0
IsNonneg d = neg_part d ≡ 0
