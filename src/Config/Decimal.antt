-- ===== src/Config/Decimal.antt =====
-- itoa and atoi of Strings: the digits of a number, and the number of the digits.
use Prim.Native.Nat.{zero}
use go_replayer.Prelude.Int.{pos}
use go_replayer.Config.Strings.{itoa_from, itoa, atoi, scan_digits, any, scan_number}
use go_replayer.Prelude.{
  ℕ, Bool, Text, is_empty, ◌<◌, leb, not, ◌≡◌, ◌^◌, ◌&&◌, arith, false, some, suc, ◌/◌, Bool-cases,
  [], ◌+◌, ◌∷◌, ltb, ◌%◌, ◌==◌, refl, inl, zero, inr,
}

abbrev pub is_digit : ℕ → Bool
is_digit c = leb b'0' c && leb c b'9'

abbrev pub is_other : ℕ → Bool
is_other c = not (is_digit c)

scan-itoa_from :
    (fuel n : ℕ) (out : Text) → n < fuel → scan_digits (itoa_from fuel n out) 0 ≡ scan_digits out n
unfolding itoa_from scan_digits
scan-itoa_from zero n out h = absurd (omega arith)
scan-itoa_from (suc fuel) n out h = elim (Bool-cases (ltb n 10)) [
  | inl small ↦ ground arith
  | inr large ↦
      let rest = scan-itoa_from fuel (n / 10) ((b'0' + n % 10) ∷ out) (ground arith) in
      ground (arith, rest)
]

itoa_from-digits :
    (fuel n : ℕ) (out : Text)
    → any is_other out ≡ false
    → any is_other (itoa_from fuel n out) ≡ false
unfolding itoa_from
itoa_from-digits zero n out h = h
itoa_from-digits (suc fuel) n out h = elim (Bool-cases (ltb n 10)) [
  | inl small ↦ ground arith
  | inr large ↦ rw large (itoa_from-digits fuel (n / 10) ((b'0' + n % 10) ∷ out) (ground arith))
]

-- The print of a number is one digit or more.
pub itoa-digits : (n : ℕ) → any is_other (itoa n) ≡ false
unfolding itoa
itoa-digits n = itoa_from-digits (suc n) n [] refl

scan-itoa : (n : ℕ) → scan_digits (itoa n) 0 ≡ some n
unfolding itoa scan_digits
scan-itoa n = scan-itoa_from (suc n) n [] (omega arith)

itoa_from-nonempty :
    (fuel n : ℕ) (out : Text) → is_empty out ≡ false → is_empty (itoa_from fuel n out) ≡ false
unfolding itoa_from
itoa_from-nonempty zero n out h = h
itoa_from-nonempty (suc fuel) n out h =
    let rest = itoa_from-nonempty fuel (n / 10) ((b'0' + n % 10) ∷ out) refl in ground (arith, rest)

pub itoa-nonempty : (n : ℕ) → is_empty (itoa n) ≡ false
unfolding itoa itoa_from
itoa-nonempty n =
    let rest = itoa_from-nonempty n (n / 10) ((b'0' + n % 10) ∷ []) refl in ground (arith, rest)

-- Digits are read as one number.
atoi-digits :
    (s : Text) (n : ℕ)
    → is_empty s ≡ false
    → any is_other s ≡ false
    → scan_digits s 0 ≡ some n
    → n < 2 ^ 63
    → atoi s ≡ some (pos n)
unfolding atoi scan_number
atoi-digits [] n full clean e h = cc
atoi-digits (c ∷ s) n full clean e h =
    let minus : (c == b'-') ≡ false = ground arith in
    let plus : (c == b'+') ≡ false = ground arith in rw (minus, plus, e) (ground arith)

-- atoi reads what itoa prints.
pub atoi-itoa : (n : ℕ) → n < 2 ^ 63 → atoi (itoa n) ≡ some (pos n)
atoi-itoa n h = atoi-digits (itoa n) n (itoa-nonempty n) (itoa-digits n) (scan-itoa n) h
