-- ===== src/Parity/Tracked.antt =====
-- The invariant of the loop of main in cmd/grpc-parity-check/main.go: which requests were called, in
-- which order, with what replies, and how many are in flight.
use go_replayer.Parity.Replies.{
  request_of, waiting_request, requests_upto, reply_of, requests_upto_step, replies_of, map-set,
  replies_of-set, map-append, HasLeft, replies_of-append, count_all-scored,
}
use go_replayer.Prelude.Int.{Time}
use go_replayer.Run.Workers.{sum_of-set}
use mathlib.Core.Path.{subst}
use mathlib.Core.List.{append-nil}
use go_replayer.Machine.{Machine}
use go_replayer.Prelude.{
  List, ◌∷◌, ℕ, map, ◌++◌, [], get_elem?, ◌≡◌, some, ap, ◌+◌, set, ◌∙◌, none, refl, arith, sym,
  true, length, sum_of, ◌≤◌, length-set, Option, length-append, sum_of-append, false, leb→le, ◌<◌,
  le→leb,
}
use go_replayer.Parity.System.{
  Call, Stage, calling, both_replied, scored, sampled, ended, Check, Checker, CheckStep,
  take_request, concurrency_limit, leave_loop, spawn, both_reply, tally, sample, release,
  drain_slot, report, is_over, acquiring, draining_slots, looping, concluded,
}
use go_replayer.Parity.Verdict.{no_totals, Totals, count_all}

-- A goroutine from its start until it gives its slot back.
abbrev pub holds : Call → ℕ
holds (ended r a b) = 0
holds (calling r) = 1
holds (both_replied r a b) = 1
holds (scored r a b) = 1
holds (sampled r a b) = 1

-- The slots that main takes while it waits for the goroutines.
abbrev pub slots_of : Stage → ℕ
slots_of looping = 0
slots_of (acquiring r) = 0
slots_of (draining_slots k) = k
slots_of concluded = concurrency_limit

module _ ⦃m : Machine⦄ where
  open m use {Float, Rng}

  pub record IsTracked (c : Check) (stage : Stage) (sem req_idx : ℕ) (calls : List Call)
      (totals : Totals) : Type 0 where
    pub requested : map request_of calls ++ waiting_request stage ≡ requests_upto c.reqs req_idx
    pub issued : length calls + length (waiting_request stage) ≡ req_idx
    pub in_totals : count_all c.tolerance no_totals (replies_of calls) ≡ some totals
    pub taken : sem ≡ sum_of holds calls + slots_of stage
    pub limited : sem ≤ concurrency_limit
    pub within : c.deadline ≡ none → req_idx ≤ length c.reqs
    pub through : HasLeft stage → c.deadline ≡ none → length c.reqs ≤ req_idx

  abbrev pub Tracked : Check → Checker → Type 0
  Tracked c s = IsTracked c s.stage s.sem s.req_idx s.calls s.totals

  none_waiting :
      {c : Check} {stage : Stage} {k n : ℕ} {gs : List Call} {t : Totals}
      → IsTracked c stage k n gs t
      → waiting_request stage ≡ []
      → map request_of gs ≡ requests_upto c.reqs n
  none_waiting {gs = gs} v e =
      sym (append-nil _) ∙ ap (λ w. map request_of gs ++ w) (sym e) ∙ v.requested

  pub is_over-false :
      (deadline : Option Time) (n i : ℕ) (now : Time)
      → deadline ≡ none
      → is_over deadline n i now ≡ false
      → i < n
  unfolding is_over
  is_over-false (some d) n i now e h = cc
  is_over-false none n i now e h = ground (arith, le→leb n i)

  is_over-true :
      (deadline : Option Time) (n i : ℕ) (now : Time)
      → deadline ≡ none
      → is_over deadline n i now ≡ true
      → n ≤ i
  unfolding is_over
  is_over-true (some d) n i now e h = cc
  is_over-true none n i now e h = leb→le n i h

  -- A step of a goroutine leaves the requests in their order and takes no slot.
  same_call :
      {c : Check} {stage : Stage} {k n : ℕ} {gs : List Call} {t : Totals} (i : ℕ) (old new : Call)
      → get_elem? gs i ≡ some old
      → request_of old ≡ request_of new
      → holds old ≡ holds new
      → IsTracked c stage k n gs t
      → (map request_of (set gs i new) ++ waiting_request stage ≡ requests_upto c.reqs n)
        × (length (set gs i new) + length (waiting_request stage) ≡ n)
        × (k ≡ sum_of holds (set gs i new) + slots_of stage)
  same_call {c} {stage} {n} {gs} i old new e same_request less v = (
    ap (λ rs. rs ++ waiting_request stage) (map-set request_of gs i old new e same_request)
        ∙ v.requested,
    omega (arith, v.issued, length-set gs i new),
    omega (arith, v.taken, sum_of-set holds gs i old new e),
  )

  -- A step of a goroutine that counts nothing.
  with_call :
      {c : Check} {stage : Stage} {k n : ℕ} {gs : List Call} {t : Totals} (i : ℕ) (old new : Call)
      → get_elem? gs i ≡ some old
      → request_of old ≡ request_of new
      → reply_of old ≡ reply_of new
      → holds old ≡ holds new
      → IsTracked c stage k n gs t
      → IsTracked c stage k n (set gs i new) t
  with_call {gs = gs} i old new e same_request same_reply less v =
      let (requested, issued, taken) = same_call i old new e same_request less v in
      record {
        requested = requested;
        issued = issued;
        in_totals = rw (replies_of-set gs i old new e same_reply) v.in_totals;
        taken = taken;
        limited = v.limited;
        within = v.within;
        through = v.through;
      }

  pub Step-Tracked : {c : Check} {s t : Checker} → CheckStep c s t → Tracked c s → Tracked c t
  Step-Tracked {c} {s} (take_request now r e p g) v = record {
    requested =
        ap (λ q. q ++ r ∷ []) (none_waiting v (ap waiting_request e))
        ∙ sym (requests_upto_step c.reqs s.req_idx r g);
    issued = omega (arith, v.issued, ap (λ st. length (waiting_request st)) e);
    in_totals = v.in_totals;
    taken = omega (arith, v.taken, ap slots_of e);
    limited = v.limited;
    within = λ d. omega (arith, is_over-false c.deadline _ _ now d p);
    through = λ left d. absurd left;
  }
  Step-Tracked {c} {s} (leave_loop now e p) v = record {
    requested = append-nil _ ∙ none_waiting v (ap waiting_request e);
    issued = omega (arith, v.issued, ap (λ st. length (waiting_request st)) e);
    in_totals = v.in_totals;
    taken = omega (arith, v.taken, ap slots_of e);
    limited = v.limited;
    within = v.within;
    through = λ left d. is_over-true c.deadline _ _ now d p;
  }
  Step-Tracked {c} {s} (spawn r e p) v = record {
    requested =
        append-nil _
        ∙ map-append request_of s.calls (calling r ∷ [])
        ∙ ap (λ st. map request_of s.calls ++ waiting_request st) (sym e)
        ∙ v.requested;
    issued = omega (
      arith,
      v.issued,
      ap (λ st. length (waiting_request st)) e,
      length-append s.calls (calling r ∷ []),
    );
    in_totals =
        rw (replies_of-append s.calls (calling r ∷ []), append-nil (replies_of s.calls))
          v.in_totals;
    taken = omega (arith, v.taken, ap slots_of e, sum_of-append holds s.calls (calling r ∷ []));
    limited = omega (arith, p);
    within = v.within;
    through = λ left d. absurd left;
  }
  Step-Tracked {c} {s} (both_reply i r a b e) v =
      with_call i (calling r) (both_replied r a b) e refl refl refl v
  Step-Tracked {c} {s} (tally i r a b k e p) v =
      let (requested, issued, taken) =
        same_call i (both_replied r a b) (scored r a b) e refl refl v in
      record {
        requested = requested;
        issued = issued;
        in_totals =
            count_all-scored c.tolerance no_totals s.calls i r a b k s.totals e p v.in_totals;
        taken = taken;
        limited = v.limited;
        within = v.within;
        through = v.through;
      }
  Step-Tracked {c} {s} (sample i r a b e) v =
      with_call i (scored r a b) (sampled r a b) e refl refl refl v
  Step-Tracked {c} {s} (release i r a b e p) v = record {
    requested =
        ap (λ rs. rs ++ waiting_request s.stage)
          (map-set request_of s.calls i (sampled r a b) (ended r a b) e refl)
        ∙ v.requested;
    issued = omega (arith, v.issued, length-set s.calls i (ended r a b));
    in_totals = rw (replies_of-set s.calls i (sampled r a b) (ended r a b) e refl) v.in_totals;
    taken = omega (arith, v.taken, p, sum_of-set holds s.calls i (sampled r a b) (ended r a b) e);
    limited = omega (arith, v.limited);
    within = v.within;
    through = v.through;
  }
  Step-Tracked {c} {s} (drain_slot k e p q) v = record {
    requested = ap (λ w. map request_of s.calls ++ w) (sym (ap waiting_request e)) ∙ v.requested;
    issued = omega (arith, v.issued, ap (λ st. length (waiting_request st)) e);
    in_totals = v.in_totals;
    taken = omega (arith, v.taken, ap slots_of e);
    limited = omega (arith, q);
    within = v.within;
    through = λ left d. v.through (subst HasLeft (sym e) tt) d;
  }
  Step-Tracked {c} {s} (report e) v = record {
    requested = ap (λ w. map request_of s.calls ++ w) (sym (ap waiting_request e)) ∙ v.requested;
    issued = omega (arith, v.issued, ap (λ st. length (waiting_request st)) e);
    in_totals = v.in_totals;
    taken = omega (arith, v.taken, ap slots_of e);
    limited = v.limited;
    within = v.within;
    through = λ left d. v.through (subst HasLeft (sym e) tt) d;
  }
