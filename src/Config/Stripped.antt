-- ===== src/Config/Stripped.antt =====
-- stripBalancedWrappers and unquoteToken of main.go leave their loops by the loops' own conditions.
use Prim.Native.Nat.{zero}
use go_replayer.Windows.Bins.{last_or}
use go_replayer.Config.Target.{strip_loop, strip, inner}
use go_replayer.Prelude.{
  ℕ, Bool, Text, length, ◌∷◌, ◌≤◌, arith, ◌≡◌, false, suc, [], Bool-cases, inl, length-take, ◌-◌,
  inr, zero,
}
use go_replayer.Config.Strings.{trim_left, trim_right, trim, trim_space, is_space}

length-trim_left : (gone : ℕ → Bool) (s : Text) → length (trim_left gone s) ≤ length s
unfolding trim_left
length-trim_left gone [] = omega arith
length-trim_left gone (c ∷ s) = let rest = length-trim_left gone s in ground (arith, rest)

length-trim_right : (gone : ℕ → Bool) (s : Text) → length (trim_right gone s) ≤ length s
unfolding trim_right
length-trim_right gone [] = omega arith
length-trim_right gone (c ∷ s) = let rest = length-trim_right gone s in ground (arith, rest)

length-trim : (gone : ℕ → Bool) (s : Text) → length (trim gone s) ≤ length s
unfolding trim
length-trim gone s =
    omega (arith, length-trim_right gone (trim_left gone s), length-trim_left gone s)

-- Nothing is left to strip: the text has less than two bytes, or its ends are no pair.
abbrev pub IsStripped : (ℕ → ℕ → Bool) → Text → Type 0
IsStripped test [] = Unit
IsStripped test (c ∷ []) = Unit
IsStripped test (c ∷ d ∷ s) = test c (last_or 0 (d ∷ s)) ≡ false

strip_loop-IsStripped :
    (test : ℕ → ℕ → Bool) (fuel : ℕ) (s : Text)
    → length s ≤ fuel
    → IsStripped test (strip_loop test fuel s)
unfolding strip_loop
strip_loop-IsStripped test zero [] h = tt
strip_loop-IsStripped test zero (c ∷ s) h = absurd (omega arith)
strip_loop-IsStripped test (suc fuel) [] h = tt
strip_loop-IsStripped test (suc fuel) (c ∷ []) h = tt
strip_loop-IsStripped test (suc fuel) (c ∷ d ∷ s) h =
    elim (Bool-cases (test c (last_or 0 (d ∷ s)))) [
      | inl pair ↦
          let shorter = length-trim is_space (inner (c ∷ d ∷ s)) in
          let taken = length-take (length (c ∷ d ∷ s) - 2) (d ∷ s) in
          rw pair (strip_loop-IsStripped test fuel (trim_space (inner (c ∷ d ∷ s))) (omega arith))
      | inr settled ↦ rw settled settled
    ]

pub strip-IsStripped : (test : ℕ → ℕ → Bool) (s : Text) → IsStripped test (strip test s)
unfolding strip
strip-IsStripped test s =
    strip_loop-IsStripped test (length s) (trim_space s) (length-trim is_space s)
