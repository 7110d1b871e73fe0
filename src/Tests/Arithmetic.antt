-- ===== src/Tests/Arithmetic.antt =====
-- A small machine for the tests: its float64 are the integers, every draw is 0, and the logarithm of a
-- draw is -3, so that the gap of a stream of rate 1 is three seconds.
use go_replayer.Machine.{Machine, Laws, positive_draw}
use go_replayer.Prelude.{
  ℕ, Bool, true, false, not, leb, ◌+◌, ◌*◌, ◌/◌, ◌^◌, ◌%◌, suc, refl, ◌≡◌, arith,
}
use go_replayer.Prelude.Int.{ℤ, pos, negsuc, sub_ℕ, pos_part, neg_part, IsNonneg}

abbrev le_ℤ : ℤ → ℤ → Bool
le_ℤ (pos a) (pos b) = leb a b
le_ℤ (pos a) (negsuc b) = false
le_ℤ (negsuc a) (pos b) = true
le_ℤ (negsuc a) (negsuc b) = leb b a

abbrev neg_ℤ : ℤ → ℤ
neg_ℤ (pos n) = sub_ℕ 0 n
neg_ℤ (negsuc n) = pos (suc n)

abbrev abs_ℤ : ℤ → ℤ
abs_ℤ (pos n) = pos n
abs_ℤ (negsuc n) = pos (suc n)

abbrev add_ℤ : ℤ → ℤ → ℤ
add_ℤ a b = sub_ℕ (pos_part a + pos_part b) (neg_part a + neg_part b)

abbrev pub mul_ℤ : ℤ → ℤ → ℤ
mul_ℤ (pos a) (pos b) = pos (a * b)
mul_ℤ (pos a) (negsuc b) = sub_ℕ 0 (a * suc b)
mul_ℤ (negsuc a) (pos b) = sub_ℕ 0 (suc a * b)
mul_ℤ (negsuc a) (negsuc b) = pos (suc a * suc b)

abbrev pub div_ℤ : ℤ → ℤ → ℤ
div_ℤ (pos a) (pos b) = pos (a / b)
div_ℤ (pos a) (negsuc b) = sub_ℕ 0 (a / suc b)
div_ℤ (negsuc a) (pos b) = sub_ℕ 0 (suc a / b)
div_ℤ (negsuc a) (negsuc b) = pos (suc a / suc b)

instance abbrev pub small_machine : Machine
small_machine = record {
  Float = ℤ;
  lt = λ a b. not (le_ℤ b a);
  le = le_ℤ;
  add = add_ℤ;
  sub = λ a b. add_ℤ a (neg_ℤ b);
  mul = mul_ℤ;
  div = div_ℤ;
  neg = neg_ℤ;
  abs = abs_ℤ;
  log = λ u. negsuc 2;
  exp = λ a. pos 1;
  sqrt = λ a. a;
  floor = λ a. a;
  ceil = λ a. a;
  is_nan = λ a. false;
  is_inf = λ a. false;
  nan = pos 0;
  smallest_nonzero = pos 1;
  of_int = λ n. n;
  to_int = λ a. a;
  decimal = λ m e. pos (m / 10 ^ e);
  of_bits64 = λ n. pos n;
  of_bits32 = λ n. pos n;
  Rng = ℕ;
  float64 = λ g. (pos 0, g + 1);
  int63n = λ g n. (g % n, g + 1);
}

mul_ℤ-nonneg : (a : ℤ) (n : ℕ) → le_ℤ (pos 0) a ≡ true → le_ℤ (pos 0) (mul_ℤ a (pos n)) ≡ true
mul_ℤ-nonneg (pos a) n h = ground arith
mul_ℤ-nonneg (negsuc a) n h = cc

div_ℤ-nonneg :
    (a b : ℤ) → le_ℤ (pos 0) a ≡ true → le_ℤ b (pos 0) ≡ false → le_ℤ (pos 0) (div_ℤ a b) ≡ true
div_ℤ-nonneg (pos a) (pos b) h k = ground arith
div_ℤ-nonneg (pos a) (negsuc b) h k = cc
div_ℤ-nonneg (negsuc a) b h k = cc

neg_ℤ-nonneg : (a : ℤ) → le_ℤ a (pos 0) ≡ true → le_ℤ (pos 0) (neg_ℤ a) ≡ true
neg_ℤ-nonneg (pos a) h = ground arith
neg_ℤ-nonneg (negsuc a) h = ground arith

IsNonneg-le_ℤ : (a : ℤ) → le_ℤ (pos 0) a ≡ true → IsNonneg a
IsNonneg-le_ℤ (pos a) h = refl
IsNonneg-le_ℤ (negsuc a) h = cc

pub small_laws : Laws ⦃m = small_machine⦄
unfolding positive_draw
small_laws = record {
  draw_positive = λ g. refl;
  draw_le_one = λ g. refl;
  draw_nonneg = λ g. refl;
  draw_scaled = λ g n h. ground arith;
  log_scaled = λ g n h. ground arith;
  log_nonpos = λ u h k. refl;
  neg_nonneg = neg_ℤ-nonneg;
  log_finite = λ g. refl;
  div_nonneg = λ a b h fin k num. div_ℤ-nonneg a b h k;
  mul_nonneg = λ a n h p. mul_ℤ-nonneg a n h;
  to_int_nonneg = λ a h k. IsNonneg-le_ℤ a h;
}
