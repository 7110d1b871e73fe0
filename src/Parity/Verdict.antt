-- ===== src/Parity/Verdict.antt =====
-- The counters and the verdict of main in cmd/grpc-parity-check/main.go: how a request's two replies
-- are classified, and the exit status.
use go_replayer.Prelude.{
  none, Option, ℕ, List, ◌+◌, Bool, if◌then◌else◌, some, ltb, false, ◌&&◌, not, true, ◌∷◌, ◌≡◌,
  arith, ◌≤◌, [], ◌==◌, refl,
}
use go_replayer.Machine.{Machine}
use go_replayer.Parity.Compare.{CompareResult, compare_proto_floats}
use mathlib.Core.Option

-- The response of `Invoke`, or none for an error.
abbrev pub Reply : Type 0
Reply = Option (List ℕ)

-- The cases of the switch; the last one has two, by `match`.
pub data Class : Type 0 where
  both_failed : Class
  a_failed : Class
  b_failed : Class
  identical : Class
  float_match : Class
  mismatched : Class

pub record Totals : Type 0 where
  pub sent : ℕ
  pub matches : ℕ
  pub mismatches : ℕ
  pub err_a : ℕ
  pub err_b : ℕ
  pub both_err : ℕ
  pub byte_diff : ℕ
  pub byte_identical : ℕ

abbrev pub no_totals : Totals
no_totals = record {
  sent = 0;
  matches = 0;
  mismatches = 0;
  err_a = 0;
  err_b = 0;
  both_err = 0;
  byte_diff = 0;
  byte_identical = 0;
}

-- bytes.Equal
unfoldable pub bytes_equal : List ℕ → List ℕ → Bool
bytes_equal [] [] = true
bytes_equal [] (b ∷ bs) = false
bytes_equal (a ∷ xs) [] = false
bytes_equal (a ∷ xs) (b ∷ ys) = (a == b) && bytes_equal xs ys

-- The atomic additions of a case, with that of totalSent.
unfoldable pub count : Totals → Class → Totals
count t both_failed = record t { sent = t.sent + 1; both_err = t.both_err + 1 }
count t a_failed = record t { sent = t.sent + 1; err_a = t.err_a + 1 }
count t b_failed = record t { sent = t.sent + 1; err_b = t.err_b + 1 }
count t identical = record t {
  sent = t.sent + 1;
  matches = t.matches + 1;
  byte_identical = t.byte_identical + 1;
}
count t float_match = record t {
  sent = t.sent + 1;
  byte_diff = t.byte_diff + 1;
  matches = t.matches + 1;
}
count t mismatched = record t {
  sent = t.sent + 1;
  byte_diff = t.byte_diff + 1;
  mismatches = t.mismatches + 1;
}

-- The switch at the end of main: exit status 0.
unfoldable pub passes : Bool → Totals → Bool
passes allow_errors t =
    let total_errors = t.err_a + t.err_b + t.both_err in
    if ltb 0 t.mismatches
    then false
    else if ltb 0 total_errors && not allow_errors
    then false
    else true

module _ ⦃m : Machine⦄ where
  open m use {Float}

  unfoldable pub classify : Float → Reply → Reply → Option Class
  classify tolerance none none = some both_failed
  classify tolerance none (some b) = some a_failed
  classify tolerance (some a) none = some b_failed
  classify tolerance (some a) (some b) =
      let compared =
        Option.map (λ r. if CompareResult.is_match r then float_match else mismatched)
          (compare_proto_floats a b tolerance) in
      if bytes_equal a b then some identical else compared

  -- The replies to the requests, in the order in which they are counted.
  unfoldable pub count_all : Float → Totals → List (Reply × Reply) → Option Totals
  count_all tolerance t [] = some t
  count_all tolerance t (p ∷ replies) =
      Option.bind (classify tolerance p.0 p.1) (λ c. count_all tolerance (count t c) replies)

-- What the counters keep in step.
abbrev pub IsBalanced : Totals → Type 0
IsBalanced t =
    (t.sent ≡ t.matches + t.mismatches + t.err_a + t.err_b + t.both_err)
    × (t.matches + t.mismatches ≡ t.byte_identical + t.byte_diff)
    × (t.mismatches ≤ t.byte_diff)

-- What a case must be for the run to pass.
abbrev pub is_fine : Bool → Class → Bool
is_fine allow_errors both_failed = allow_errors
is_fine allow_errors a_failed = allow_errors
is_fine allow_errors b_failed = allow_errors
is_fine allow_errors identical = true
is_fine allow_errors float_match = true
is_fine allow_errors mismatched = false

pub count-IsBalanced : (t : Totals) (c : Class) → IsBalanced t → IsBalanced (count t c)
unfolding count
count-IsBalanced t both_failed h = (omega arith, omega arith, omega arith)
count-IsBalanced t a_failed h = (omega arith, omega arith, omega arith)
count-IsBalanced t b_failed h = (omega arith, omega arith, omega arith)
count-IsBalanced t identical h = (omega arith, omega arith, omega arith)
count-IsBalanced t float_match h = (omega arith, omega arith, omega arith)
count-IsBalanced t mismatched h = (omega arith, omega arith, omega arith)

pub count-sent : (t : Totals) (c : Class) → (count t c).sent ≡ t.sent + 1
unfolding count
count-sent t both_failed = refl
count-sent t a_failed = refl
count-sent t b_failed = refl
count-sent t identical = refl
count-sent t float_match = refl
count-sent t mismatched = refl

pub count-passes :
    (allow_errors : Bool) (t : Totals) (c : Class)
    → passes allow_errors (count t c) ≡ passes allow_errors t && is_fine allow_errors c
unfolding count passes
count-passes true t both_failed = ground arith
count-passes false t both_failed = ground arith
count-passes true t a_failed = ground arith
count-passes false t a_failed = ground arith
count-passes true t b_failed = ground arith
count-passes false t b_failed = ground arith
count-passes allow_errors t identical = ground arith
count-passes allow_errors t float_match = ground arith
count-passes allow_errors t mismatched = ground arith
