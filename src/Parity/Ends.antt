-- ===== src/Parity/Ends.antt =====
-- A run of cmd/grpc-parity-check/main.go without a duration ends.
use go_replayer.Replay.Dispatch.{round_robin_request_total}
use go_replayer.Parity.Tracked.{Tracked, is_over-false, holds, slots_of}
use native.Mathlib.Decide.{dec_lt}
use go_replayer.Run.Workers.{sum_of-set}
use go_replayer.Parity.Outcome.{CheckRun-Tracked}
use go_replayer.Parity.Acceptance.{classify_lem}
use go_replayer.Machine.{Machine}
use go_replayer.Prelude.{
  List, ◌<◌, ℕ, sum_of, ◌*◌, ◌≡◌, get_elem?, is_empty, length, none, some, false, arith, ◌-◌, ◌∷◌,
  ◌+◌, ◌≤◌, true, ◌⊎◌, suc, ap, inl, Bool-cases, [], refl, inr, sum_of-append, ◌∙◌,
}
use go_replayer.Parity.System.{
  Check, Stage, Call, Checker, new_checker, acquiring, calling, CheckStep, draining_slots,
  both_replied, scored, both_reply, CheckRun, sampled, concluded, looping, ended, take_request,
  check_moved, tally, sample, unmoved, leave_loop, release, is_over, spawn, drain_slot,
  concurrency_limit, report,
}

find_call :
    (gs : List Call)
    → 0 < sum_of holds gs
    → (i : ℕ) × (g : Call) × (get_elem? gs i ≡ some g) × (holds g ≡ 1)
find_call [] h = absurd (omega arith)
find_call (ended r a b ∷ gs) h =
    let (i, g, found, busy) = find_call gs (omega arith) in (suc i, g, found, busy)
find_call (calling r ∷ gs) h = (0, calling r, refl, refl)
find_call (both_replied r a b ∷ gs) h = (0, both_replied r a b, refl, refl)
find_call (scored r a b ∷ gs) h = (0, scored r a b, refl, refl)
find_call (sampled r a b ∷ gs) h = (0, sampled r a b, refl, refl)

-- What is left of a single pass: six steps for each request that is not taken yet.
abbrev pub stage_left : Stage → ℕ
stage_left looping = 34
stage_left (acquiring r) = 39
stage_left (draining_slots k) = 33 - k
stage_left concluded = 0

abbrev pub call_left : Call → ℕ
call_left (calling r) = 4
call_left (both_replied r a b) = 3
call_left (scored r a b) = 2
call_left (sampled r a b) = 1
call_left (ended r a b) = 0

module _ ⦃m : Machine⦄ where
  open m use {Float, Rng}

  abbrev pub checks_left : Check → Checker → ℕ
  checks_left c s = 6 * (length c.reqs - s.req_idx) + stage_left s.stage + sum_of call_left s.calls

  check-left :
      {c : Check} {s t : Checker}
      → c.deadline ≡ none
      → Tracked c s
      → CheckStep c s t
      → checks_left c t + 1 ≡ checks_left c s
  check-left {c} {s} d v (take_request now r e p g) =
      omega (arith, ap stage_left e, is_over-false c.deadline _ _ now d p)
  check-left {c} {s} d v (leave_loop now e p) = omega (arith, ap stage_left e)
  check-left {c} {s} d v (spawn r e p) =
      omega (arith, ap stage_left e, sum_of-append call_left s.calls (calling r ∷ []))
  check-left {c} {s} d v (both_reply i r a b e) =
      omega (arith, sum_of-set call_left s.calls i (calling r) (both_replied r a b) e)
  check-left {c} {s} d v (tally i r a b k e p) =
      omega (arith, sum_of-set call_left s.calls i (both_replied r a b) (scored r a b) e)
  check-left {c} {s} d v (sample i r a b e) =
      omega (arith, sum_of-set call_left s.calls i (scored r a b) (sampled r a b) e)
  check-left {c} {s} d v (release i r a b e p) =
      omega (arith, sum_of-set call_left s.calls i (sampled r a b) (ended r a b) e)
  check-left {c} {s} d v (drain_slot k e p q) = omega (arith, ap stage_left e)
  check-left {c} {s} d v (report e) = omega (arith, ap stage_left e)

  pub CanCheck : Check → Checker → Type 0
  CanCheck c s = (t : Checker) × CheckStep c s t

  call_checks :
      (c : Check) (s : Checker) (i : ℕ) (g : Call)
      → get_elem? s.calls i ≡ some g
      → holds g ≡ 1
      → 0 < s.sem
      → CanCheck c s
  unfolding CanCheck
  call_checks c s i (calling r) e h p = (_, both_reply i r none none e)
  call_checks c s i (both_replied r a b) e h p =
      let (k, found, fine) = classify_lem true c.tolerance a b in (_, tally i r a b k e found)
  call_checks c s i (scored r a b) e h p = (_, sample i r a b e)
  call_checks c s i (sampled r a b) e h p = (_, release i r a b e p)
  call_checks c s i (ended r a b) e h p = absurd (omega arith)

  held_checks : (c : Check) (s : Checker) → Tracked c s → 0 < sum_of holds s.calls → CanCheck c s
  held_checks c s v h =
      let (i, g, found, held) = find_call s.calls h in
      call_checks c s i g found held (omega (arith, v.taken))

  check_goes_on :
      (c : Check) (s : Checker)
      → is_empty c.reqs ≡ false
      → Tracked c s
      → (stage : Stage) → s.stage ≡ stage
      → (s.stage ≡ concluded) ⊎ CanCheck c s
  unfolding CanCheck
  check_goes_on c s given v concluded e = inl e
  check_goes_on c s given v looping e =
      elim (Bool-cases (is_over c.deadline (length c.reqs) s.req_idx 0)) [
        | inl over ↦ inr (_, leave_loop 0 e over)
        | inr on ↦
            let (r, found) = round_robin_request_total c.reqs s.req_idx given in
            inr (_, take_request 0 r e on found)
      ]
  check_goes_on c s given v (acquiring r) e = elim (dec_lt s.sem concurrency_limit) [
    | yes free ↦ inr (_, spawn r e free)
    | no full ↦ inr (held_checks c s v (omega (arith, v.taken, ap slots_of e)))
  ]
  check_goes_on c s given v (draining_slots k) e = elim (dec_lt k concurrency_limit) [
    | yes more ↦ elim (dec_lt s.sem concurrency_limit) [
      | yes free ↦ inr (_, drain_slot k e more free)
      | no full ↦ inr (held_checks c s v (omega (arith, v.taken, ap slots_of e)))
    ]
    | no all ↦
        let limit : k ≡ concurrency_limit = omega (arith, v.limited, v.taken, ap slots_of e) in
        inr (_, report (e ∙ ap draining_slots limit))
  ]

  run-left :
      (g : Rng) {c : Check} {n : ℕ} {s : Checker}
      → c.deadline ≡ none
      → CheckRun c (new_checker g) n s
      → n + checks_left c s ≡ 6 * length c.reqs + 34
  unfolding new_checker
  run-left g d unmoved = omega arith
  run-left g d (check_moved run st) =
      omega (arith, run-left g d run, check-left d (CheckRun-Tracked g run) st)

  -- A run without a duration over a file with requests ends: it has at most six steps for each request
  -- and 34 more, however its goroutines interleave, and until it has come to its verdict some goroutine
  -- can make a step.
  pub check_ends :
      (g : Rng) {c : Check} {n : ℕ} {s : Checker}
      → c.deadline ≡ none
      → is_empty c.reqs ≡ false
      → CheckRun c (new_checker g) n s
      → (n ≤ 6 * length c.reqs + 34) × ((s.stage ≡ concluded) ⊎ CanCheck c s)
  check_ends g {c} {n} {s} d given run = (
    omega (arith, run-left g d run),
    check_goes_on c s given (CheckRun-Tracked g run) s.stage refl,
  )
