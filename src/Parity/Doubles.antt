-- ===== src/Parity/Doubles.antt =====
-- The float extraction of cmd/grpc-parity-check/proto_compare.go over a message of double fields.
use mathlib.Core.List.{append-nil, append_assoc}
use Prim.Native.Nat.{zero}
use go_replayer.Parity.Varint.{decode_varint, varint_loop}
use go_replayer.Parity.Floats.{
  append_float, read_double, read_field, extract_loop, Rest, is_comparable, little_endian,
}
use go_replayer.Machine.{Machine, of_nat}
use go_replayer.Prelude.{
  Option, List, ℕ, some, length, All, ◌≤◌, [], ltb, drop, ◌∷◌, ◌≡◌, ◌++◌, arith, true, suc, take,
  zero, ap, false, map, refl, le→ltb, sym, length-append, ◌∙◌, take-append, drop-append,
}

module _ ⦃m : Machine⦄ where
  open m use {Float, lt, abs, is_nan, is_inf, of_bits64}

  -- A finite number of magnitude below 10^15.
  abbrev pub IsInRange : Float → Type 0
  IsInRange v =
      (is_nan v ≡ false) × (is_inf v ≡ false) × (lt (abs v) (of_nat 1_000_000_000_000_000) ≡ true)

  pub is_comparable-IsInRange : (v : Float) → is_comparable v ≡ true → IsInRange v
  unfolding is_comparable
  is_comparable-IsInRange v h = (ground arith, ground arith, ground arith)

  IsInRange-is_comparable : (v : Float) → IsInRange v → is_comparable v ≡ true
  unfolding is_comparable
  IsInRange-is_comparable v (p, q, r) = rw (p, q, r) refl

  -- A message of double fields with the number 1, each with its eight bytes.
  unfoldable pub doubles : List (List ℕ) → List ℕ
  doubles [] = []
  doubles (w ∷ ws) = 9 ∷ w ++ doubles ws

  abbrev pub double_of : List ℕ → Float
  double_of w = of_bits64 (little_endian w)

  read_double-append :
      (again : Rest) (w rest : List ℕ) (floats : List Float)
      → length w ≡ 8
      → IsInRange (double_of w)
      → read_double again (w ++ rest) floats ≡ again rest (floats ++ double_of w ∷ [])
  unfolding read_double append_float
  read_double-append again w rest floats size inside =
      let long : ltb (length (w ++ rest)) 8 ≡ false =
        le→ltb _ _ (omega (arith, length-append w rest, size)) in
      let first : take 8 (w ++ rest) ≡ w =
        ap (λ (n : ℕ). take n (w ++ rest)) (sym size) ∙ take-append w rest in
      let others : drop 8 (w ++ rest) ≡ rest =
        ap (λ (n : ℕ). drop n (w ++ rest)) (sym size) ∙ drop-append w rest in
      rw (long, first, others, IsInRange-is_comparable (double_of w) inside) refl

  pub extract_loop-doubles :
      (inner : List ℕ → Option (List Float)) (fuel : ℕ) (ws : List (List ℕ)) (floats : List Float)
      → All (λ w. length w ≡ 8) ws
      → All (λ w. IsInRange (double_of w)) ws
      → length (doubles ws) ≤ fuel
      → extract_loop inner fuel (doubles ws) floats ≡ some (floats ++ map double_of ws)
  unfolding doubles extract_loop decode_varint varint_loop read_field
  extract_loop-doubles inner fuel [] floats sizes inside enough = ap some (sym (append-nil floats))
  extract_loop-doubles inner zero (w ∷ ws) floats sizes inside enough = absurd (omega arith)
  extract_loop-doubles inner (suc fuel) (w ∷ ws) floats sizes inside enough =
      read_double-append (extract_loop inner fuel) w (doubles ws) floats sizes.0 inside.0
      ∙ extract_loop-doubles inner fuel ws (floats ++ double_of w ∷ []) sizes.1 inside.1
          (omega (arith, enough, length-append w (doubles ws)))
      ∙ ap some (append_assoc floats (double_of w ∷ []) (map double_of ws))
