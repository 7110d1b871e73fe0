-- ===== src/Parity/Outcome.antt =====
-- What a run of cmd/grpc-parity-check/main.go has done when it comes to its verdict.
use go_replayer.Parity.Requests.{requests_upto-take, take_whole}
use go_replayer.Parity.Tracked.{Tracked, Step-Tracked, holds, slots_of}
use go_replayer.Parity.Replies.{replies_of, requests_upto, request_of, waiting_request, HasLeft}
use mathlib.Core.List.{append-nil}
use go_replayer.Parity.Acceptance.{Accepted, parity_run-passes}
use mathlib.Core.Path.{subst}
use go_replayer.Machine.{Machine}
use go_replayer.Prelude.{
  List, Option, sum_of, All, ◌≡◌, Bool, ℕ, length, some, arith, none, ◌∷◌, ap, ◌≤◌, suc, map, [],
  true, refl, ◌↔◌, sym, ◌∙◌, ◌++◌,
}
use go_replayer.Parity.Verdict.{Totals, count_all, passes, IsBalanced}
use go_replayer.Parity.System.{
  Check, Call, ended, new_checker, calling, Checker, both_replied, CheckRun, scored, concluded,
  sampled, check_moved, unmoved,
}

abbrev pub IsEnded : Call → Type 0
IsEnded (ended r a b) = Unit
IsEnded (calling r) = ⊥
IsEnded (both_replied r a b) = ⊥
IsEnded (scored r a b) = ⊥
IsEnded (sampled r a b) = ⊥

none_held : (gs : List Call) → sum_of holds gs ≡ 0 → All IsEnded gs
none_held [] h = tt
none_held (ended r a b ∷ gs) h = (tt, none_held gs (omega arith))
none_held (calling r ∷ gs) h = absurd (omega arith)
none_held (both_replied r a b ∷ gs) h = absurd (omega arith)
none_held (scored r a b ∷ gs) h = absurd (omega arith)
none_held (sampled r a b ∷ gs) h = absurd (omega arith)

-- The two Invokes of a request have not both returned.
abbrev pub in_calls : Call → ℕ
in_calls (calling r) = 1
in_calls (both_replied r a b) = 0
in_calls (scored r a b) = 0
in_calls (sampled r a b) = 0
in_calls (ended r a b) = 0

in_calls-le-holds : (gs : List Call) → sum_of in_calls gs ≤ sum_of holds gs
in_calls-le-holds [] = omega arith
in_calls-le-holds (calling r ∷ gs) = omega (arith, in_calls-le-holds gs)
in_calls-le-holds (both_replied r a b ∷ gs) = omega (arith, in_calls-le-holds gs)
in_calls-le-holds (scored r a b ∷ gs) = omega (arith, in_calls-le-holds gs)
in_calls-le-holds (sampled r a b ∷ gs) = omega (arith, in_calls-le-holds gs)
in_calls-le-holds (ended r a b ∷ gs) = omega (arith, in_calls-le-holds gs)

length-replies_of : (gs : List Call) → All IsEnded gs → length (replies_of gs) ≡ length gs
length-replies_of [] h = refl
length-replies_of (ended r a b ∷ gs) h = ap suc (length-replies_of gs h.1)
length-replies_of (calling r ∷ gs) h = absurd h.0
length-replies_of (both_replied r a b ∷ gs) h = absurd h.0
length-replies_of (scored r a b ∷ gs) h = absurd h.0
length-replies_of (sampled r a b ∷ gs) h = absurd h.0

one_total : {t u : Totals} {o : Option Totals} → o ≡ some t → o ≡ some u → t ≡ u
one_total p q = cc

module _ ⦃m : Machine⦄ where
  open m use {Float, Rng}

  pub CheckRun-Tracked :
      (g : Rng) {c : Check} {n : ℕ} {s : Checker} → CheckRun c (new_checker g) n s → Tracked c s
  unfolding new_checker count_all requests_upto
  CheckRun-Tracked g unmoved = record {
    requested = refl;
    issued = refl;
    in_totals = refl;
    taken = refl;
    limited = omega arith;
    within = λ d. omega arith;
    through = λ left d. absurd left;
  }
  CheckRun-Tracked g (check_moved run st) = Step-Tracked st (CheckRun-Tracked g run)

  -- Of a checker that has come to its verdict, however its goroutines interleaved: every goroutine has
  -- ended, each was started for one request, in the order of the loop; the totals count each of them
  -- once and are balanced; and the run passes exactly when the replies to every request are accepted.
  pub check_verdict :
      (g : Rng) (allow_errors : Bool) {c : Check} {n : ℕ} {s : Checker}
      → CheckRun c (new_checker g) n s
      → s.stage ≡ concluded
      → All IsEnded s.calls
        × (map request_of s.calls ≡ requests_upto c.reqs s.req_idx)
        × (s.totals.sent ≡ s.req_idx)
        × IsBalanced s.totals
        × ((passes allow_errors s.totals ≡ true)
            ↔ All (Accepted allow_errors c.tolerance) (replies_of s.calls))
  check_verdict g allow_errors {c} {n} {s} run e =
      let v = CheckRun-Tracked g run in
      let all_ended = none_held s.calls (omega (arith, v.limited, v.taken, ap slots_of e)) in
      let (end, found, sent, balanced, passing) =
        parity_run-passes allow_errors c.tolerance (replies_of s.calls) in
      let same : end ≡ s.totals = one_total found v.in_totals in
      (
        all_ended,
        sym (append-nil _)
            ∙ ap (λ w. map request_of s.calls ++ w) (sym (ap waiting_request e))
            ∙ v.requested,
        subst (λ (u : Totals). u.sent ≡ s.req_idx) same
            (omega (
              arith,
              sent,
              length-replies_of s.calls all_ended,
              v.issued,
              ap (λ st. length (waiting_request st)) e,
            )),
        subst IsBalanced same balanced,
        subst
            (λ (u : Totals).
              (passes allow_errors u ≡ true)
              ↔ All (Accepted allow_errors c.tolerance) (replies_of s.calls))
            same passing,
      )

  -- A run without a duration sends each request of the file once, in their order.
  pub check_single_pass :
      (g : Rng) {c : Check} {n : ℕ} {s : Checker}
      → c.deadline ≡ none
      → CheckRun c (new_checker g) n s
      → s.stage ≡ concluded
      → map request_of s.calls ≡ c.reqs
  check_single_pass g {c} {n} {s} d run e =
      let v = CheckRun-Tracked g run in
      let (all_ended, requested, sent, balanced, passing) = check_verdict g true run e in
      let all_taken : s.req_idx ≡ length c.reqs =
        omega (arith, v.within d, v.through (subst HasLeft (sym e) tt) d) in
      requested
      ∙ ap (requests_upto c.reqs) all_taken
      ∙ requests_upto-take c.reqs (length c.reqs) (omega arith)
      ∙ take_whole c.reqs

  -- However the goroutines interleave, at no time are more than 32 requests between the start of their
  -- goroutine and the return of both Invokes.
  pub check_limited :
      (g : Rng) {c : Check} {n : ℕ} {s : Checker}
      → CheckRun c (new_checker g) n s
      → sum_of in_calls s.calls ≤ 32
  check_limited g {s = s} run =
      let v = CheckRun-Tracked g run in omega (arith, v.taken, v.limited, in_calls-le-holds s.calls)
