-- ===== src/Run/Refine.antt =====
-- Every run of main.go's goroutines is a run of the ledger.
use go_replayer.Prelude.Int.{Time}
use go_replayer.Run.Step.{
  Reach, begin, later, main_run, new_run, Step, choose, enqueue, count_sent, count_second, close,
  finish, receive, invoke, answer, tally_second, tally_total, log, exit, swap_sent, swap_ok,
  swap_err, take_latencies, drain,
}
use go_replayer.Run.Kept.{sum_of-length, sum_of-replicate, main_run-Kept}
use mathlib.Core.List.{append-nil, append_assoc}
use go_replayer.Run.Jobs.{jobs_upto_step}
use go_replayer.Run.Workers.{sum_of-set, sum_of-le}
use go_replayer.Run.Ledger.{
  Ledger, Entry, submit, shut, hand_out, succeed, fail, empty_ledger, Ledgers, opened, entered,
}
use go_replayer.Replay.Dispatch.{make_dispatch_job}
use go_replayer.Prelude.{
  true, ℕ, ◌∷◌, ◌≡◌, ◌⊎◌, [], length, ◌++◌, ◌+◌, inl, ◌∙◌, ap, arith, sym, set, inr, ltb→lt,
  length-set, ◌-◌, refl,
}
use go_replayer.Machine.{Machine}
use go_replayer.Run.State.{
  Worker, Setup, System, received, answered, invoking, tallied, jobs_upto, finished, choosing,
  counted, tally_reply, idle, replied, failed, totalled, exited,
}
use go_replayer.Run.Shown.{
  in_hand, is_closing, busy, pending_ok, pending_err, Shows, with_sender, with_worker,
  log_reply-same, busy-le, tally_ok, tally_err,
}

module _ ⦃m : Machine⦄ where
  open m use {Rng}

  -- A step that shows no entry, or one.
  Answers : Setup → System → Ledger → Type 0
  Answers setup t l =
      Shows setup t l
      ⊎ ((l' : Ledger) × Entry setup.queue_capacity setup.num_workers l l' × Shows setup t l')

  Step-Answers :
      {setup : Setup} {s t : System} (l : Ledger)
      → Step setup s t
      → length s.workers ≡ setup.num_workers
      → Shows setup s l
      → Answers setup t l
  unfolding Answers
  Step-Answers {setup} {s} l (choose fuel now t k sched req e p g) n v = inl (record {
    waiting = v.waiting;
    chosen =
        jobs_upto_step setup s.req_idx req g
        ∙ ap (λ js. js ++ make_dispatch_job req setup.method ∷ [])
            (v.chosen ∙ ap (λ q. (l.handed ++ l.waiting) ++ in_hand q) e ∙ append-nil _);
    serving = v.serving;
    succeeded = v.succeeded;
    failures = v.failures;
    closed = ap is_closing (sym e) ∙ v.closed;
  })
  Step-Answers {setup} {s} l (enqueue job e p) n v = inr (
    record l { waiting = l.waiting ++ job ∷ [] },
    submit job (sym v.closed ∙ ap is_closing e) (rw⁻¹ v.waiting (ltb→lt _ _ p)),
    record {
      waiting = ap (λ q. q ++ job ∷ []) v.waiting;
      chosen =
          v.chosen
          ∙ ap (λ q. (l.handed ++ l.waiting) ++ in_hand q) e
          ∙ append_assoc l.handed l.waiting (job ∷ [])
          ∙ sym (append-nil _);
      serving = v.serving;
      succeeded = v.succeeded;
      failures = v.failures;
      closed = ap is_closing (sym e) ∙ v.closed;
    },
  )
  Step-Answers l (count_sent e) n v = inl (with_sender counted (ap in_hand e) (ap is_closing e) v)
  Step-Answers l (count_second e) n v =
      inl (with_sender choosing (ap in_hand e) (ap is_closing e) v)
  Step-Answers l (close fuel sched e p) n v = inr (
    record l { closed = true },
    shut (sym v.closed ∙ ap is_closing e),
    record {
      waiting = v.waiting;
      chosen = v.chosen ∙ ap (λ q. (l.handed ++ l.waiting) ++ in_hand q) e;
      serving = v.serving;
      succeeded = v.succeeded;
      failures = v.failures;
      closed = refl;
    },
  )
  Step-Answers l (finish e p g) n v = inl (with_sender finished (ap in_hand e) (ap is_closing e) v)
  Step-Answers {setup} {s} l (receive i job rest e p) n v =
      let front : l.waiting ≡ job ∷ rest = sym v.waiting ∙ p in
      let more = sum_of-set busy s.workers i idle (received job) e in
      let few = sum_of-length busy (set s.workers i (received job)) busy-le in
      inr (
        record l { waiting = rest; handed = l.handed ++ job ∷ []; serving = l.serving + 1 },
        hand_out job rest front (omega (arith, v.serving, length-set s.workers i (received job))),
        record {
          waiting = refl;
          chosen =
              v.chosen
              ∙ ap (λ q. (l.handed ++ q) ++ in_hand s.sender) front
              ∙ ap (λ q. q ++ in_hand s.sender) (sym (append_assoc l.handed (job ∷ []) rest));
          serving = omega (arith, v.serving);
          succeeded =
              omega (arith, v.succeeded, sum_of-set pending_ok s.workers i idle (received job) e);
          failures =
              omega (arith, v.failures, sum_of-set pending_err s.workers i idle (received job) e);
          closed = v.closed;
        },
      )
  Step-Answers {setup} {s} l (invoke i job e) n v =
      inl (with_worker i (received job) invoking s.totals.ok s.totals.err e refl refl refl v)
  Step-Answers {setup} {s} l (answer i (replied lat) e p) n v =
      let less = sum_of-set busy s.workers i invoking (answered (replied lat)) e in
      let some_busy = sum_of-le busy s.workers i invoking e in
      inr (
        record l { serving = l.serving - 1; succeeded = l.succeeded + 1 },
        succeed (omega (arith, v.serving)),
        record {
          waiting = v.waiting;
          chosen = v.chosen;
          serving = omega (arith, v.serving);
          succeeded = omega (
            arith,
            v.succeeded,
            sum_of-set pending_ok s.workers i invoking (answered (replied lat)) e,
          );
          failures = omega (
            arith,
            v.failures,
            sum_of-set pending_err s.workers i invoking (answered (replied lat)) e,
          );
          closed = v.closed;
        },
      )
  Step-Answers {setup} {s} l (answer i (failed lat msg) e p) n v =
      let less = sum_of-set busy s.workers i invoking (answered (failed lat msg)) e in
      let some_busy = sum_of-le busy s.workers i invoking e in
      inr (
        record l { serving = l.serving - 1; failures = l.failures + 1 },
        fail (omega (arith, v.serving)),
        record {
          waiting = v.waiting;
          chosen = v.chosen;
          serving = omega (arith, v.serving);
          succeeded = omega (
            arith,
            v.succeeded,
            sum_of-set pending_ok s.workers i invoking (answered (failed lat msg)) e,
          );
          failures = omega (
            arith,
            v.failures,
            sum_of-set pending_err s.workers i invoking (answered (failed lat msg)) e,
          );
          closed = v.closed;
        },
      )
  Step-Answers {setup} {s} l (tally_second i r e) n v =
      inl (with_worker i (answered r) (tallied r) s.totals.ok s.totals.err e refl refl refl v)
  Step-Answers {setup} {s} l (tally_total i r e) n v = inl (
      with_worker i (tallied r) (totalled r) (tally_reply s.totals r).ok
        (tally_reply s.totals r).err e refl (omega (arith, tally_ok s.totals r))
        (omega (arith, tally_err s.totals r)) v)
  Step-Answers {setup} {s} l (log i r e) n v =
      let (same_queue, same_sender, same_idx, same_totals) = log_reply-same s r in
      rw (same_queue, same_sender, same_idx, same_totals)
        (inl (with_worker i (totalled r) idle s.totals.ok s.totals.err e refl refl refl v))
  Step-Answers {setup} {s} l (exit i e p g) n v =
      inl (with_worker i idle exited s.totals.ok s.totals.err e refl refl refl v)
  Step-Answers l (swap_sent e p) n v = inl v
  Step-Answers l (swap_ok e) n v = inl v
  Step-Answers l (swap_err e) n v = inl v
  Step-Answers l (take_latencies e) n v = inl v
  Step-Answers l (drain e) n v = inl v

  Reach-Shows :
      {setup : Setup} {start s : System}
      → ((t : System) → Reach setup start t → length t.workers ≡ setup.num_workers)
      → Shows setup start empty_ledger
      → Reach setup start s
      → (l : Ledger) × Ledgers setup.queue_capacity setup.num_workers l × Shows setup s l
  unfolding Answers
  Reach-Shows staffed shown begin = (empty_ledger, opened, shown)
  Reach-Shows staffed shown (later r st) =
      let (l, ls, v) = Reach-Shows staffed shown r in
      elim (Step-Answers l st (staffed _ r) v) [
        | inl same ↦ (l, ls, same)
        | inr (l', entry, v') ↦ (l', entered ls entry, v')
      ]

  -- However the goroutines interleave, each state of a run shows a ledger that a run of the ledger
  -- reaches: a first-in first-out queue of the capacity of the channel, from which no more jobs are
  -- served than there are workers. The queue is that of the ledger; the jobs that workers took, those
  -- that wait and the one that the sender holds are, in this order, the jobs of the requests that the
  -- round robin chose; and the replies that are in the totals or on their way there are the ledger's
  -- successes and failures.
  pub run_refines :
      {setup : Setup} {s : System} (start : Time) (seed g : Rng)
      → Reach setup (main_run setup start seed g) s
      → (l : Ledger) × Ledgers setup.queue_capacity setup.num_workers l × Shows setup s l
  unfolding main_run new_run jobs_upto
  run_refines {setup} start seed g r =
      let none = λ (f : Worker → ℕ) (h : f idle ≡ 0). sum_of-replicate f setup.num_workers idle h in
      Reach-Shows (λ t r'. (main_run-Kept start seed g r').orderly.staffed)
        (record {
          waiting = refl;
          chosen = refl;
          serving = none busy refl;
          succeeded = omega (arith, none pending_ok refl);
          failures = omega (arith, none pending_err refl);
          closed = refl;
        })
        r
