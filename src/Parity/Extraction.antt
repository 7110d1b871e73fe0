-- ===== src/Parity/Extraction.antt =====
-- The float extraction ends on any bytes, yields comparable numbers only, and finds those of double
-- fields.
use go_replayer.Parity.Doubles.{
  IsInRange, is_comparable-IsInRange, double_of, doubles, extract_loop-doubles,
}
use Prim.Native.Nat.{zero}
use Option.{none}
use native.Mathlib.Nat.{le_refl}
use go_replayer.Parity.Varint.{decode_varint}
use go_replayer.Parity.Floats.{
  append_float, skip_varint, read_double, read_float, read_bytes, read_field, extract_loop,
  extract_shallow_floats, extract_top_level_floats, Rest, is_comparable,
}
use go_replayer.Machine.{Machine}
use mathlib.Core.Option
use go_replayer.Prelude.{
  Option, List, ℕ, some, length, All, Bool-cases, ◌<◌, ◌≤◌, [], ltb, drop, ◌==◌, ◌∷◌, ◌≡◌, inl,
  ◌++◌, arith, All-append, inr, length-drop, suc, take, ◌≢◌, none, zero, map,
}

module _ ⦃m : Machine⦄ where
  open m use {Float}

  -- A result is there, and holds such numbers only.
  abbrev pub Good : Option (List Float) → Type 0
  Good none = ⊥
  Good (some floats) = All IsInRange floats

  append_float-Good :
      (floats : List Float) (v : Float) → Good (some floats) → Good (some (append_float floats v))
  unfolding append_float
  append_float-Good floats v g = elim (Bool-cases (is_comparable v)) [
    | inl fine ↦ rw fine (All-append _ floats (v ∷ []) g (is_comparable-IsInRange v fine, tt))
    | inr odd ↦ rw odd g
  ]

  -- The loop goes on well with fewer bytes than `k`.
  abbrev GoesOn : ℕ → Rest → Type 0
  GoesOn k again =
      (bs : List ℕ) (floats : List Float)
      → length bs < k
      → Good (some floats)
      → Good (again bs floats)

  skip_varint-Good :
      (k : ℕ) (again : Rest) (bs : List ℕ) (floats : List Float)
      → GoesOn k again
      → length bs < k
      → Good (some floats)
      → Good (skip_varint again bs floats)
  unfolding skip_varint
  skip_varint-Good k again bs floats h p g = elim (Bool-cases ((decode_varint bs).1 == 0)) [
    | inl bad ↦ rw bad g
    | inr fine ↦ rw fine (
        h (drop (decode_varint bs).1 bs) floats (omega (arith, length-drop (decode_varint bs).1 bs))
          g)
  ]

  read_double-Good :
      (k : ℕ) (again : Rest) (bs : List ℕ) (floats : List Float)
      → GoesOn k again
      → length bs < k
      → Good (some floats)
      → Good (read_double again bs floats)
  unfolding read_double
  read_double-Good k again bs floats h p g = elim (Bool-cases (ltb (length bs) 8)) [
    | inl short ↦ rw short g
    | inr fits ↦
        rw fits (h (drop 8 bs) _ (omega (arith, length-drop 8 bs)) (append_float-Good floats _ g))
  ]

  read_float-Good :
      (k : ℕ) (again : Rest) (bs : List ℕ) (floats : List Float)
      → GoesOn k again
      → length bs < k
      → Good (some floats)
      → Good (read_float again bs floats)
  unfolding read_float
  read_float-Good k again bs floats h p g = elim (Bool-cases (ltb (length bs) 4)) [
    | inl short ↦ rw short g
    | inr fits ↦
        rw fits (h (drop 4 bs) _ (omega (arith, length-drop 4 bs)) (append_float-Good floats _ g))
  ]

  read_bytes-Good :
      (k : ℕ) (inner : List ℕ → Option (List Float)) (again : Rest) (bs : List ℕ)
      (floats : List Float)
      → ((sub : List ℕ) → Good (inner sub))
      → GoesOn k again
      → length bs < k
      → Good (some floats)
      → Good (read_bytes inner again bs floats)
  unfolding read_bytes Option.bind
  read_bytes-Good k inner again bs floats total h p g =
      let size = (decode_varint bs).0 in
      let n = (decode_varint bs).1 in
      let body = drop n bs in
      elim (Bool-cases (n == 0)) [
        | inl bad ↦ rw bad g
        | inr fine ↦ elim (Bool-cases (ltb (length body) size)) [
          | inl long ↦ rw (fine, long) g
          | inr fits ↦ rw (fine, fits) (go (inner (take size body)) (total (take size body)))
        ]
      ]
    where
      body : List ℕ
      body = drop (decode_varint bs).1 bs

      go :
          (found : Option (List Float))
          → Good found
          → Good (Option.bind found (λ sub. again (drop (decode_varint bs).0 body) (floats ++ sub)))
      go none f = absurd f
      go (some sub) f =
          h (drop (decode_varint bs).0 body) (floats ++ sub)
            (omega
              (arith, length-drop (decode_varint bs).0 body, length-drop (decode_varint bs).1 bs))
            (All-append _ floats sub g f)

  read_field-Good :
      (k : ℕ) (inner : List ℕ → Option (List Float)) (again : Rest) (wire : ℕ) (bs : List ℕ)
      (floats : List Float)
      → ((sub : List ℕ) → Good (inner sub))
      → GoesOn k again
      → length bs < k
      → Good (some floats)
      → Good (read_field inner again wire bs floats)
  unfolding read_field
  read_field-Good k inner again wire bs floats total h p g = elim (Bool-cases (wire == 0)) [
    | inl a ↦ rw a (skip_varint-Good k again bs floats h p g)
    | inr a ↦ elim (Bool-cases (wire == 1)) [
      | inl b ↦ rw (a, b) (read_double-Good k again bs floats h p g)
      | inr b ↦ elim (Bool-cases (wire == 2)) [
        | inl c ↦ rw (a, b, c) (read_bytes-Good k inner again bs floats total h p g)
        | inr c ↦ elim (Bool-cases (wire == 5)) [
          | inl d ↦ rw (a, b, c, d) (read_float-Good k again bs floats h p g)
          | inr d ↦ rw (a, b, c, d) g
        ]
      ]
    ]
  ]

  extract_loop-Good :
      (inner : List ℕ → Option (List Float)) (fuel : ℕ) (bs : List ℕ) (floats : List Float)
      → ((sub : List ℕ) → Good (inner sub))
      → length bs ≤ fuel
      → Good (some floats)
      → Good (extract_loop inner fuel bs floats)
  unfolding extract_loop
  extract_loop-Good inner fuel [] floats total p g = g
  extract_loop-Good inner zero (b ∷ bs) floats total p g = absurd (omega arith)
  extract_loop-Good inner (suc fuel) (b ∷ bs) floats total p g =
      let n = (decode_varint (b ∷ bs)).1 in
      let again = λ (cs : List ℕ) (fs : List Float) (q : length cs < suc fuel) (w : Good (some fs)).
        extract_loop-Good inner fuel cs fs total (omega arith) w in
      elim (Bool-cases (n == 0)) [
        | inl bad ↦ rw bad g
        | inr fine ↦ rw fine (
            read_field-Good (suc fuel) inner (extract_loop inner fuel) _ (drop n (b ∷ bs)) floats
              total again (shorter n (ground arith)) g)
      ]
    where
      shorter : (n : ℕ) → n ≢ 0 → length (drop n (b ∷ bs)) < suc fuel
      shorter n q = omega (arith, length-drop n (b ∷ bs))

  extract_shallow_floats-Good : (bs : List ℕ) → Good (extract_shallow_floats bs)
  unfolding extract_shallow_floats
  extract_shallow_floats-Good bs = extract_loop-Good _ (length bs) bs [] (λ _. tt) (le_refl _) tt

  pub extract_top_level_floats-Good : (bs : List ℕ) → Good (extract_top_level_floats bs)
  unfolding extract_top_level_floats
  extract_top_level_floats-Good bs =
      extract_loop-Good extract_shallow_floats (length bs) bs [] extract_shallow_floats-Good
        (le_refl _) tt

  -- On any bytes the extraction ends with a list of floats, and each of them is a finite number of
  -- magnitude below 10^15; so for the top level with its submessages and for one submessage. And of a
  -- message of double fields with such numbers both give exactly these numbers, in their order.
  pub extract_floats_total :
      (bs : List ℕ) (ws : List (List ℕ))
      → All (λ w. length w ≡ 8) ws
      → All (λ w. IsInRange (double_of w)) ws
      → Good (extract_top_level_floats bs)
        × Good (extract_shallow_floats bs)
        × (extract_top_level_floats (doubles ws) ≡ some (map double_of ws))
        × (extract_shallow_floats (doubles ws) ≡ some (map double_of ws))
  unfolding extract_top_level_floats extract_shallow_floats
  extract_floats_total bs ws sizes inside = (
    extract_top_level_floats-Good bs,
    extract_shallow_floats-Good bs,
    extract_loop-doubles extract_shallow_floats _ ws [] sizes inside (le_refl _),
    extract_loop-doubles (λ _. some []) _ ws [] sizes inside (le_refl _),
  )
