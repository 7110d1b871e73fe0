-- ===== src/Windows/FloatSort.antt =====
-- sort.Float64s on float64 values, and the indexing of its result.
use go_replayer.Prelude.Int.{ℤ, pos, negsuc}
use go_replayer.Prelude.{
  Bool, List, ◌||◌, ◌∷◌, All, length, ◌&&◌, if◌then◌else◌, Option, Bool-cases, ◌≡◌, [], not, inl,
  ◌+◌, arith, get_elem?, inr, refl, none,
}
use go_replayer.Machine.{Machine}

module _ ⦃m : Machine⦄ where
  open m use {Float, lt, is_nan}

  -- sort.Float64s: a NaN comes first.
  abbrev pub float_before : Float → Float → Bool
  float_before a b = lt a b || (is_nan a && not (is_nan b))

  unfoldable pub insert_float : Float → List Float → List Float
  insert_float x [] = x ∷ []
  insert_float x (y ∷ ys) = if float_before y x then y ∷ insert_float x ys else x ∷ y ∷ ys

  unfoldable pub sort_floats : List Float → List Float
  sort_floats [] = []
  sort_floats (x ∷ xs) = insert_float x (sort_floats xs)

  -- `xs[i]`; `none` is the run-time panic.
  abbrev pub at_index : List Float → ℤ → Option Float
  at_index xs (pos i) = get_elem? xs i
  at_index xs (negsuc i) = none

  All-insert_float {ℓ} :
      (P : Float → Type ℓ) (x : Float) (ys : List Float)
      → P x
      → All P ys
      → All P (insert_float x ys)
  unfolding insert_float
  All-insert_float P x [] h hs = (h, tt)
  All-insert_float P x (y ∷ ys) h hs = elim (Bool-cases (float_before y x)) [
    | inl later ↦ rw later (hs.0, All-insert_float P x ys h hs.1)
    | inr here ↦ rw here (h, hs)
  ]

  pub All-sort_floats {ℓ} :
      (P : Float → Type ℓ) (xs : List Float) → All P xs → All P (sort_floats xs)
  unfolding sort_floats
  All-sort_floats P [] hs = tt
  All-sort_floats P (x ∷ xs) hs =
      All-insert_float P x (sort_floats xs) hs.0 (All-sort_floats P xs hs.1)

  length-insert_float : (x : Float) (ys : List Float) → length (insert_float x ys) ≡ length ys + 1
  unfolding insert_float
  length-insert_float x [] = refl
  length-insert_float x (y ∷ ys) = elim (Bool-cases (float_before y x)) [
    | inl later ↦ rw later (omega (arith, length-insert_float x ys))
    | inr here ↦ rw here (omega arith)
  ]

  pub length-sort_floats : (xs : List Float) → length (sort_floats xs) ≡ length xs
  unfolding sort_floats
  length-sort_floats [] = refl
  length-sort_floats (x ∷ xs) =
      omega (arith, length-insert_float x (sort_floats xs), length-sort_floats xs)
