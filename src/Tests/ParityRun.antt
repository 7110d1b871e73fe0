-- ===== src/Tests/ParityRun.antt =====
-- A run of the parity checker over one request, and a launch of it.
use go_replayer.Replay.Dispatch.{round_robin_request}
use Prim.Native.Nat.{zero}
use go_replayer.Parity.Acceptance.{Accepted}
use go_replayer.Parity.Ends.{CanCheck, check_ends}
use mathlib.Core.Path.{subst}
use go_replayer.Parity.Replies.{request_of, requests_upto, replies_of}
use go_replayer.Parity.Outcome.{IsEnded, check_limited, check_single_pass, check_verdict, in_calls}
use go_replayer.Prelude.Int.{pos}
use go_replayer.Prelude.{
  ◌∷◌, ℕ, codes, [], ◌≡◌, none, sum_of, ◌≤◌, arith, All, map, ◌*◌, ◌+◌, length, suc, false, refl,
  some, true, ◌⊎◌, ◌↔◌, zero,
}
use go_replayer.Replay.Reader.{Request}
use go_replayer.Parity.System.{
  Check, new_checker, Checker, is_over, sample_pair, draining_slots, CheckRun, check_moved, unmoved,
  take_request, concurrency_limit, report, spawn, both_reply, concluded, tally, drain_slot, sample,
  release, leave_loop,
}
use go_replayer.Parity.Verdict.{classify, passes, IsBalanced, bytes_equal, identical}
use native.Mathlib.Numerals.{add-one}
use go_replayer.Tests.Arithmetic.{small_machine}

abbrev one_request : Request
one_request = record { method = codes "/svc/Call"; payload = 7 ∷ [] }

abbrev one_check : Check
one_check = record { reqs = one_request ∷ []; tolerance = pos 1; deadline = none }

served_run : (s : Checker) × CheckRun one_check (new_checker 0) 7 s
unfolding new_checker is_over classify bytes_equal sample_pair round_robin_request
served_run = (
  _,
  check_moved
      (check_moved
        (check_moved
          (check_moved
            (check_moved
              (check_moved (check_moved unmoved (take_request 0 one_request refl refl refl))
                (spawn one_request refl (omega arith)))
              (both_reply 0 one_request (some (9 ∷ [])) (some (9 ∷ [])) refl))
            (tally 0 one_request (some (9 ∷ [])) (some (9 ∷ [])) identical refl refl))
          (sample 0 one_request (some (9 ∷ [])) (some (9 ∷ [])) refl))
        (release 0 one_request (some (9 ∷ [])) (some (9 ∷ [])) refl (omega arith)))
      (leave_loop 0 refl refl),
)

abbrev served_one : Checker
served_one = served_run.0

-- Main takes the 32 slots.
slots_taken :
    (k : ℕ)
    → k ≤ concurrency_limit
    → CheckRun one_check
        (new_checker 0)
        (7 + k)
        (record served_one { stage = draining_slots k; sem = k })
unfolding served_run
slots_taken zero h = served_run.1
slots_taken (suc k) h =
    subst
      (λ n.
        CheckRun one_check (new_checker 0) n
          (record served_one { stage = draining_slots (suc k); sem = suc k }))
      (steps k)
      (subst
        (λ j.
          CheckRun one_check (new_checker 0) (7 + k + 1)
            (record served_one { stage = draining_slots j; sem = j }))
        (add-one k)
        (check_moved (slots_taken k (omega (arith, h)))
          (drain_slot k refl (omega (arith, h)) (omega (arith, h)))))
  where
    steps : (k : ℕ) → 7 + k + 1 ≡ 7 + suc k
    steps k = omega arith

concluded_run : (s : Checker) × CheckRun one_check (new_checker 0) 40 s
unfolding served_run
concluded_run = (_, check_moved (slots_taken 32 (omega arith)) (report refl))

abbrev judged : Checker
judged = concluded_run.0

check_verdict_example :
    All IsEnded judged.calls
    × (map request_of judged.calls ≡ requests_upto one_check.reqs judged.req_idx)
    × (judged.totals.sent ≡ judged.req_idx)
    × IsBalanced judged.totals
    × ((passes false judged.totals ≡ true)
        ↔ All (Accepted false one_check.tolerance) (replies_of judged.calls))
unfolding concluded_run
check_verdict_example = check_verdict 0 false concluded_run.1 refl

check_single_pass_example : map request_of judged.calls ≡ one_check.reqs
unfolding concluded_run
check_single_pass_example = check_single_pass 0 refl concluded_run.1 refl

check_ends_example :
    (40 ≤ 6 * length one_check.reqs + 34) × ((judged.stage ≡ concluded) ⊎ CanCheck one_check judged)
check_ends_example = check_ends 0 refl refl concluded_run.1

check_limited_example : sum_of in_calls judged.calls ≤ 32
check_limited_example = check_limited 0 concluded_run.1
