-- ===== src/Run/Exit.antt =====
-- How the workers stop: behind close(jobs), with the queue empty.
use mathlib.Core.Path.{subst}
use go_replayer.Prelude.{
  length, List, ℕ, All, ◌≡◌, get_elem?, inl, sum_of, some, inr, ◌⊎◌, ◌≢◌, [], set, length-set, ◌∙◌,
  arith, sym, refl,
}
use go_replayer.Machine.{Machine}
use go_replayer.Replay.Dispatch.{DispatchJob}
use go_replayer.Run.State.{
  Setup, System, Worker, Sender, offering, log_reply, draining, exited, finished, choosing,
  enqueued, counted, Reply, idle,
}
use go_replayer.Run.Step.{
  Step, choose, enqueue, count_sent, count_second, close, finish, receive, invoke, answer,
  tally_second, tally_total, log, exit, swap_sent, swap_ok, swap_err, take_latencies, drain,
}
use go_replayer.Run.Workers.{sum_of-set, gone, All-get_elem?}

-- The channel is closed.
abbrev pub IsClosing : Sender → Type 0
IsClosing draining = Unit
IsClosing finished = Unit
IsClosing choosing = ⊥
IsClosing (offering job) = ⊥
IsClosing enqueued = ⊥
IsClosing counted = ⊥

module _ ⦃m : Machine⦄ where
  abbrev pub Done : Sender → List Worker → Type 0
  Done finished ws = All (λ w. w ≡ exited) ws
  Done choosing ws = Unit
  Done (offering job) ws = Unit
  Done enqueued ws = Unit
  Done counted ws = Unit
  Done draining ws = Unit

  -- A worker has left its loop only behind close(jobs) and with the queue empty; at the end all have.
  pub record IsOrderly (num_workers : ℕ) (queue : List DispatchJob) (sender : Sender)
      (workers : List Worker) : Type 0 where
    pub staffed : length workers ≡ num_workers
    pub leaving : (sum_of gone workers ≡ 0) ⊎ ((queue ≡ []) × IsClosing sender)
    pub all_left : Done sender workers

  abbrev pub Orderly : ℕ → System → Type 0
  Orderly n s = IsOrderly n s.queue s.sender s.workers

  Done-set :
      (sender : Sender) (ws : List Worker) (i : ℕ) (old new : Worker)
      → get_elem? ws i ≡ some old
      → old ≢ exited
      → Done sender ws
      → Done sender (set ws i new)
  Done-set finished ws i old new e h d = absurd (h (All-get_elem? (λ w. w ≡ exited) ws i old d e))
  Done-set choosing ws i old new e h d = tt
  Done-set (offering job) ws i old new e h d = tt
  Done-set enqueued ws i old new e h d = tt
  Done-set counted ws i old new e h d = tt
  Done-set draining ws i old new e h d = tt

  -- A worker that does not leave, and a queue that stays empty.
  move-IsOrderly :
      (n : ℕ) (q q' : List DispatchJob) (sender : Sender) (ws : List Worker) (i : ℕ)
      (old new : Worker)
      → get_elem? ws i ≡ some old
      → gone old ≡ 0
      → gone new ≡ 0
      → old ≢ exited
      → (q ≡ [] → q' ≡ [])
      → IsOrderly n q sender ws
      → IsOrderly n q' sender (set ws i new)
  move-IsOrderly n q q' sender ws i old new e go gn h empty v = record {
    staffed = length-set ws i new ∙ v.staffed;
    leaving = elim v.leaving [
      | inl none_gone ↦ inl (omega (arith, sum_of-set gone ws i old new e))
      | inr closing ↦ inr (empty closing.0, closing.1)
    ];
    all_left = Done-set sender ws i old new e h v.all_left;
  }

  -- A step of the sender before the channel is closed.
  sender-IsOrderly :
      (n : ℕ) (q q' : List DispatchJob) (sender sender' : Sender) (ws : List Worker)
      → ¬ (IsClosing sender)
      → Done sender' ws
      → IsOrderly n q sender ws
      → IsOrderly n q' sender' ws
  sender-IsOrderly n q q' sender sender' ws h d v = record {
    staffed = v.staffed;
    leaving = elim v.leaving [ inl none_gone ↦ inl none_gone | inr closing ↦ absurd (h closing.1) ];
    all_left = d;
  }

  log_reply-keeps :
      (s : System) (r : Reply)
      → ((log_reply s r).queue ≡ s.queue) × ((log_reply s r).sender ≡ s.sender)
  unfolding log_reply
  log_reply-keeps s r = ground arith

  pub Step-IsOrderly :
      {setup : Setup} {n : ℕ} {s t : System} → Step setup s t → Orderly n s → Orderly n t
  Step-IsOrderly (choose fuel now t k sched req e p g) v =
      sender-IsOrderly _ _ _ _ _ _ (λ c. subst IsClosing e c) tt v
  Step-IsOrderly (enqueue job e p) v = sender-IsOrderly _ _ _ _ _ _ (λ c. subst IsClosing e c) tt v
  Step-IsOrderly (count_sent e) v = sender-IsOrderly _ _ _ _ _ _ (λ c. subst IsClosing e c) tt v
  Step-IsOrderly (count_second e) v = sender-IsOrderly _ _ _ _ _ _ (λ c. subst IsClosing e c) tt v
  Step-IsOrderly (close fuel sched e p) v =
      sender-IsOrderly _ _ _ _ _ _ (λ c. subst IsClosing e c) tt v
  Step-IsOrderly (finish e p g) v = record {
    staffed = v.staffed;
    leaving = elim v.leaving [ inl none_gone ↦ inl none_gone | inr closing ↦ inr (closing.0, tt) ];
    all_left = p;
  }
  Step-IsOrderly (receive i job rest e p) v =
      move-IsOrderly _ _ _ _ _ i _ _ e refl refl (λ q. cc) (λ q. cc) v
  Step-IsOrderly (invoke i job e) v =
      move-IsOrderly _ _ _ _ _ i _ _ e refl refl (λ q. cc) (λ q. q) v
  Step-IsOrderly (answer i r e p) v =
      move-IsOrderly _ _ _ _ _ i _ _ e refl refl (λ q. cc) (λ q. q) v
  Step-IsOrderly (tally_second i r e) v =
      move-IsOrderly _ _ _ _ _ i _ _ e refl refl (λ q. cc) (λ q. q) v
  Step-IsOrderly (tally_total i r e) v =
      move-IsOrderly _ _ _ _ _ i _ _ e refl refl (λ q. cc) (λ q. q) v
  Step-IsOrderly {setup} {n} {s} (log i r e) v =
      let moved : IsOrderly n s.queue s.sender (set s.workers i idle) =
        move-IsOrderly n s.queue s.queue s.sender s.workers i _ idle e refl refl (λ q. cc) (λ q. q)
          v in
      rw ((log_reply-keeps s r).0, (log_reply-keeps s r).1) moved
  Step-IsOrderly {setup} {n} {s} (exit i e p g) v = record {
    staffed = length-set s.workers i exited ∙ v.staffed;
    leaving = inr (p, subst IsClosing (sym g) tt);
    all_left = Done-set s.sender s.workers i idle exited e (λ q. cc) v.all_left;
  }
  Step-IsOrderly (swap_sent e p) v = v
  Step-IsOrderly (swap_ok e) v = v
  Step-IsOrderly (swap_err e) v = v
  Step-IsOrderly (take_latencies e) v = v
  Step-IsOrderly (drain e) v = v
