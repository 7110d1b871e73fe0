-- ===== src/Parity/Acceptance.antt =====
-- When a run of cmd/grpc-parity-check/main.go passes.
use go_replayer.Parity.Compare.{CompareResult, compare_proto_floats, compare_proto_floats_lem}
use go_replayer.Prelude.{
  none, Option, some, Bool, ◌≡◌, ◌&&◌, List, false, true, ℕ, ◌↔◌, ◌⊎◌, ◌+◌, length, All, refl, inl,
  arith, inr, ◌∷◌, ap, ◌∙◌, Bool-cases, sym, [], ◌==◌, ==_iff,
}
use mathlib.Core.Option
use go_replayer.Machine.{Machine}
use go_replayer.Parity.Verdict.{
  Class, both_failed, a_failed, b_failed, identical, float_match, mismatched, Totals, Reply,
  bytes_equal, classify, count_all, passes, is_fine, IsBalanced, no_totals, count, count-IsBalanced,
  count-sent, count-passes,
}

different : {b : Bool} → b ≡ false → b ≡ true → ⊥
different p q = cc

&&_iff : (a b : Bool) → (a && b ≡ true) ↔ ((a ≡ true) × (b ≡ true))
&&_iff true b = ((λ h. (refl, h)), (λ h. h.1))
&&_iff false b = ((λ h. cc), (λ h. h.0))

bytes_equal_iff : (xs ys : List ℕ) → (bytes_equal xs ys ≡ true) ↔ (xs ≡ ys)
unfolding bytes_equal
bytes_equal_iff [] [] = ((λ h. refl), (λ h. refl))
bytes_equal_iff [] (b ∷ ys) = ((λ h. cc), (λ h. cc))
bytes_equal_iff (a ∷ xs) [] = ((λ h. cc), (λ h. cc))
bytes_equal_iff (a ∷ xs) (b ∷ ys) = (
  (λ h. heads ((==_iff a b).0 (ground arith)) ((bytes_equal_iff xs ys).0 (ground arith))),
  (λ h. tests ((==_iff a b).1 (ap (get_or_first a) h)) ((bytes_equal_iff xs ys).1 (ap rest_of h))),
)
  where
    heads : a ≡ b → xs ≡ ys → ◌≡◌ {A = List ℕ} (a ∷ xs) (b ∷ ys)
    heads p q = cc

    tests : (a == b) ≡ true → bytes_equal xs ys ≡ true → (a == b) && bytes_equal xs ys ≡ true
    tests p q = rw (p, q) refl

    get_or_first : ℕ → List ℕ → ℕ
    get_or_first d [] = d
    get_or_first d (x ∷ _) = x

    rest_of : List ℕ → List ℕ
    rest_of [] = []
    rest_of (_ ∷ us) = us

module _ ⦃m : Machine⦄ where
  open m use {Float}

  -- What a pair of replies must be for the run to pass: two equal responses, two that the comparison
  -- finds equivalent, or an error when errors are allowed.
  abbrev pub Accepted : Bool → Float → Reply × Reply → Type 0
  Accepted allow_errors tolerance (none, r) = allow_errors ≡ true
  Accepted allow_errors tolerance (some a, none) = allow_errors ≡ true
  Accepted allow_errors tolerance (some a, some b) =
      (a ≡ b)
      ⊎ ((r : CompareResult) × (compare_proto_floats a b tolerance ≡ some r) × (r.is_match ≡ true))

  one_result : {r w : CompareResult} {o : Option CompareResult} → o ≡ some r → o ≡ some w → r ≡ w
  one_result p q = cc

  -- A pair of replies has a class, and it is fine exactly when the pair is accepted.
  pub classify_lem :
      (allow_errors : Bool) (tolerance : Float) (a b : Reply)
      → (c : Class) × (classify tolerance a b ≡ some c)
        × ((is_fine allow_errors c ≡ true) ↔ Accepted allow_errors tolerance (a, b))
  unfolding classify
  classify_lem allow_errors tolerance none none = (both_failed, refl, ((λ h. h), (λ h. h)))
  classify_lem allow_errors tolerance none (some b) = (a_failed, refl, ((λ h. h), (λ h. h)))
  classify_lem allow_errors tolerance (some a) none = (b_failed, refl, ((λ h. h), (λ h. h)))
  classify_lem allow_errors tolerance (some a) (some b) =
      let (xs, ys, r, p, q, found, iff, counted) = compare_proto_floats_lem a b tolerance in
      elim (Bool-cases (bytes_equal a b)) [
        | inl same ↦
            (identical, rw same refl, ((λ h. inl ((bytes_equal_iff a b).0 same)), (λ h. refl)))
        | inr other ↦ elim (Bool-cases r.is_match) [
          | inl close ↦ (
            float_match,
            rw (other, found, close) refl,
            ((λ h. inr (r, found, close)), (λ h. refl)),
          )
          | inr far ↦ (
            mismatched,
            rw (other, found, far) refl,
            ((λ h. cc), (λ h. absurd (refuted other found far h))),
          )
        ]
      ]
    where
      refuted :
          {r : CompareResult}
          → bytes_equal a b ≡ false
          → compare_proto_floats a b tolerance ≡ some r
          → r.is_match ≡ false
          → Accepted allow_errors tolerance (some a, some b)
          → ⊥
      refuted other found far (inl same) = different other ((bytes_equal_iff a b).1 same)
      refuted other found far (inr (w, found', close)) =
          different far (ap CompareResult.is_match (one_result found found') ∙ close)

  count_all_lem :
      (allow_errors : Bool) (tolerance : Float) (t : Totals) (replies : List (Reply × Reply))
      → IsBalanced t
      → (end : Totals) × (count_all tolerance t replies ≡ some end)
        × (end.sent ≡ t.sent + length replies)
        × IsBalanced end
        × ((passes allow_errors end ≡ true)
            ↔ ((passes allow_errors t ≡ true) × All (Accepted allow_errors tolerance) replies))
  unfolding count_all Option.bind
  count_all_lem allow_errors tolerance t [] h =
      (t, refl, omega arith, h, ((λ q. (q, tt)), (λ q. q.0)))
  count_all_lem allow_errors tolerance t (p ∷ replies) h =
      let (c, found, fine) = classify_lem allow_errors tolerance p.0 p.1 in
      let (end, run, sent, balanced, passing) =
        count_all_lem allow_errors tolerance (count t c) replies (count-IsBalanced t c h) in
      (
        end,
        rw found run,
        omega (arith, sent, count-sent t c),
        balanced,
        (
          (λ q.
              let (before, after) = passing.0 q in
              let (start, ok) = (&&_iff _ _).0 (sym (count-passes allow_errors t c) ∙ before) in
              (start, (fine.0 ok, after))),
          (λ q.
              passing.1
                (count-passes allow_errors t c ∙ (&&_iff _ _).1 (q.0, fine.1 q.1.0), q.1.1)),
        ),
      )

  -- Whatever the replies, the run ends with counters in which every request is a match, a mismatch or
  -- an error once, every match and mismatch is byte-identical or byte-different, and the float matches
  -- that are printed are not negative; and it passes exactly when every pair of replies is accepted.
  pub parity_run-passes :
      (allow_errors : Bool) (tolerance : Float) (replies : List (Reply × Reply))
      → (end : Totals) × (count_all tolerance no_totals replies ≡ some end)
        × (end.sent ≡ length replies)
        × IsBalanced end
        × ((passes allow_errors end ≡ true) ↔ All (Accepted allow_errors tolerance) replies)
  unfolding passes
  parity_run-passes allow_errors tolerance replies =
      let (end, run, sent, balanced, passing) =
        count_all_lem allow_errors tolerance no_totals replies (refl, refl, omega arith) in
      (end, run, omega arith, balanced, ((λ q. (passing.0 q).1), (λ q. passing.1 (refl, q))))
