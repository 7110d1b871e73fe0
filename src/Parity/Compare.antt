-- ===== src/Parity/Compare.antt =====
-- compareProtoFloats of cmd/grpc-parity-check/proto_compare.go. `none` is a model that is out of fuel.
use Option.{none}
use go_replayer.Prelude.{
  ℕ, Bool, List, if◌then◌else◌, ◌∷◌, is_empty, Option, length, ◌≡◌, ◌==◌, ◌+◌, ◌||◌, ltb, ◌↔◌, true,
  not, ◌-◌, ◌<◌, Bool-cases, [], false, ap, arith, inl, suc, ==_iff, inr, refl, some, none,
}
use mathlib.Core.Option
use go_replayer.Machine.{Machine, zero_float}
use go_replayer.Parity.Floats.{extract_top_level_floats}
use go_replayer.Parity.Extraction.{Good, extract_top_level_floats-Good}

unfoldable pub at_least_one : ℕ → ℕ
at_least_one n = if n == 0 then 1 else n

-- A count that is 0 after a test was 0 before, and the test was false.
count_step {ℓ κ} :
    {Z : Type ℓ} {C : Type κ} (far : Bool) (n : ℕ)
    → Z ↔ (((if far then n + 1 else n) ≡ 0) × C)
    → Z ↔ ((n ≡ 0) × ((far ≡ false) × C))
count_step true n h = ((λ z. absurd (omega (arith, (h.0 z).0))), (λ q. cc))
count_step false n h = ((λ z. ((h.0 z).0, (refl, (h.0 z).1))), (λ q. h.1 (q.0, q.1.1)))

module _ ⦃m : Machine⦄ where
  open m use {Float, lt, abs, sub}

  pub record CompareResult : Type 0 where
    pub is_match : Bool
    pub max_diff : Float
    pub total_floats : ℕ
    pub mismatch_count : ℕ

  -- The loop over the pairs, up to the end of the shorter list: `maxDiff` and `mismatchCount`.
  unfoldable pub diff_loop : Float → Float → ℕ → List Float → List Float → Float × ℕ
  diff_loop tolerance max_diff mismatches [] ys = (max_diff, mismatches)
  diff_loop tolerance max_diff mismatches (a ∷ xs) [] = (max_diff, mismatches)
  diff_loop tolerance max_diff mismatches (a ∷ xs) (b ∷ ys) =
      let diff = abs (sub a b) in
      diff_loop tolerance (if lt max_diff diff then diff else max_diff)
        (if lt tolerance diff then mismatches + 1 else mismatches) xs ys

  -- `||` of the three conditions of the first branch.
  unfoldable pub is_uneven : List Float → List Float → Bool
  is_uneven xs ys = is_empty xs || is_empty ys || not (length xs == length ys)

  unfoldable pub compare_floats : Float → List Float → List Float → CompareResult
  compare_floats tolerance xs ys =
      let (max_diff, mismatches) = diff_loop tolerance zero_float 0 xs ys in
      let total = if ltb (length ys) (length xs) then length ys else length xs in
      let gap = (length xs - length ys) + (length ys - length xs) in
      if is_uneven xs ys
      then record {
        is_match = false;
        max_diff = max_diff;
        total_floats = total;
        mismatch_count = at_least_one (mismatches + gap);
      }
      else record {
        is_match = mismatches == 0;
        max_diff = max_diff;
        total_floats = length xs;
        mismatch_count = mismatches;
      }

  unfoldable pub compare_proto_floats : List ℕ → List ℕ → Float → Option CompareResult
  compare_proto_floats a b tolerance =
      Option.bind (extract_top_level_floats a) (λ xs.
        Option.bind (extract_top_level_floats b) (λ ys. some (compare_floats tolerance xs ys)))

  -- The lists are of one length, and no pair is further apart than the tolerance.
  abbrev pub AllClose : Float → List Float → List Float → Type 0
  AllClose tolerance [] [] = Unit
  AllClose tolerance [] (b ∷ ys) = ⊥
  AllClose tolerance (a ∷ xs) [] = ⊥
  AllClose tolerance (a ∷ xs) (b ∷ ys) =
      (lt tolerance (abs (sub a b)) ≡ false) × AllClose tolerance xs ys

  AllClose-length :
      (tolerance : Float) (xs ys : List Float) → AllClose tolerance xs ys → length xs ≡ length ys
  AllClose-length tolerance [] [] h = refl
  AllClose-length tolerance [] (b ∷ ys) h = absurd h
  AllClose-length tolerance (a ∷ xs) [] h = absurd h
  AllClose-length tolerance (a ∷ xs) (b ∷ ys) h = ap suc (AllClose-length tolerance xs ys h.1)

  -- The loop counts nothing exactly when no pair is too far apart.
  diff_loop-zero :
      (tolerance max_diff : Float) (n : ℕ) (xs ys : List Float)
      → length xs ≡ length ys
      → ((diff_loop tolerance max_diff n xs ys).1 ≡ 0) ↔ ((n ≡ 0) × AllClose tolerance xs ys)
  unfolding diff_loop
  diff_loop-zero tolerance max_diff n [] [] h = ((λ p. (p, tt)), (λ q. q.0))
  diff_loop-zero tolerance max_diff n [] (b ∷ ys) h = absurd (omega arith)
  diff_loop-zero tolerance max_diff n (a ∷ xs) [] h = absurd (omega arith)
  diff_loop-zero tolerance max_diff n (a ∷ xs) (b ∷ ys) h =
      let diff = abs (sub a b) in
      count_step (lt tolerance diff) n (
        diff_loop-zero tolerance (if lt max_diff diff then diff else max_diff)
          (if lt tolerance diff then n + 1 else n) xs ys (omega arith))

  compare_floats_iff :
      (tolerance : Float) (xs ys : List Float)
      → ((compare_floats tolerance xs ys).is_match ≡ true)
        ↔ ((0 < length xs) × AllClose tolerance xs ys)
  unfolding compare_floats is_uneven
  compare_floats_iff tolerance [] ys = ((λ h. cc), (λ h. absurd (omega arith)))
  compare_floats_iff tolerance (x ∷ xs) [] = ((λ h. cc), (λ h. absurd h.1))
  compare_floats_iff tolerance (x ∷ xs) (y ∷ ys) =
      elim (Bool-cases (length (x ∷ xs) == length (y ∷ ys))) [
        | inl same ↦
            let zero_iff =
              diff_loop-zero tolerance zero_float 0 (x ∷ xs) (y ∷ ys) ((==_iff _ _).0 same) in
            rw same (
              (λ h. (omega arith, (zero_iff.0 ((==_iff _ _).0 h)).1)),
              (λ h. (==_iff _ _).1 (zero_iff.1 (refl, h.1))),
            )
        | inr other ↦ rw other (
          (λ h. cc),
          (λ h.
              absurd
                (clash other ((==_iff _ _).1 (AllClose-length tolerance (x ∷ xs) (y ∷ ys) h.1)))),
        )
      ]
    where
      clash : {b : Bool} → b ≡ false → b ≡ true → ⊥
      clash p q = cc

  -- A mismatch is always counted, and a match counts none.
  compare_floats-mismatch :
      (tolerance : Float) (xs ys : List Float)
      → ((compare_floats tolerance xs ys).is_match ≡ true)
        ↔ ((compare_floats tolerance xs ys).mismatch_count ≡ 0)
  unfolding compare_floats at_least_one
  compare_floats-mismatch tolerance xs ys = elim (Bool-cases (is_uneven xs ys)) [
    | inl uneven ↦ rw uneven ((λ h. cc), (λ h. ground arith))
    | inr even ↦ rw even (==_iff _ 0)
  ]

  -- On any two responses the comparison ends with a result. It is a match exactly when both have the
  -- same number of comparable floats, one at least, with no pair further apart than the tolerance; and
  -- it counts no mismatch exactly when it is a match.
  pub compare_proto_floats_lem :
      (a b : List ℕ) (tolerance : Float)
      → (xs ys : List Float) × (r : CompareResult) × (extract_top_level_floats a ≡ some xs)
        × (extract_top_level_floats b ≡ some ys)
        × (compare_proto_floats a b tolerance ≡ some r)
        × ((r.is_match ≡ true) ↔ ((0 < length xs) × AllClose tolerance xs ys))
        × ((r.is_match ≡ true) ↔ (r.mismatch_count ≡ 0))
  unfolding compare_proto_floats Option.bind
  compare_proto_floats_lem a b tolerance =
      let (xs, p) = found (extract_top_level_floats a) (extract_top_level_floats-Good a) in
      let (ys, q) = found (extract_top_level_floats b) (extract_top_level_floats-Good b) in
      (
        xs,
        ys,
        compare_floats tolerance xs ys,
        p,
        q,
        pair p q,
        compare_floats_iff tolerance xs ys,
        compare_floats-mismatch tolerance xs ys,
      )
    where
      found : (o : Option (List Float)) → Good o → (xs : List Float) × (o ≡ some xs)
      found none g = absurd g
      found (some xs) g = (xs, refl)

      pair :
          {o w : Option (List Float)} {xs ys : List Float}
          → o ≡ some xs
          → w ≡ some ys
          → Option.bind o (λ us. Option.bind w (λ vs. some (compare_floats tolerance us vs)))
            ≡ some (compare_floats tolerance xs ys)
      pair p q = rw (p, q) refl
