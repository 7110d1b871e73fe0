-- ===== src/Run/Shown.antt =====
-- The ledger that a state of main.go's goroutines shows.
use go_replayer.Run.Workers.{ok_weight, err_weight, sum_of-set}
use go_replayer.Run.Ledger.{Ledger}
use go_replayer.Replay.Dispatch.{DispatchJob}
use go_replayer.Prelude.{
  List, Bool, true, ℕ, false, ◌∷◌, ◌≡◌, [], ◌++◌, sum_of, ◌+◌, ◌∙◌, get_elem?, ◌≤◌, ap, some, arith,
  sym, set,
}
use go_replayer.Machine.{Machine}
use go_replayer.Run.State.{
  Sender, Worker, Setup, log_reply, System, offering, received, answered, draining, invoking,
  tallied, jobs_upto, finished, choosing, enqueued, counted, Reply, tally_reply, Tally,
}

-- The job that the sender holds.
abbrev pub in_hand : Sender → List DispatchJob
in_hand (offering job) = job ∷ []
in_hand choosing = []
in_hand enqueued = []
in_hand counted = []
in_hand draining = []
in_hand finished = []

abbrev pub is_closing : Sender → Bool
is_closing draining = true
is_closing finished = true
is_closing choosing = false
is_closing (offering job) = false
is_closing enqueued = false
is_closing counted = false

module _ ⦃m : Machine⦄ where
  -- A worker between its receive and the reply.
  abbrev pub busy : Worker → ℕ
  busy (received job) = 1
  busy invoking = 1
  busy _ = 0

  -- A reply that is not in the totals yet.
  abbrev pub pending_ok : Worker → ℕ
  pending_ok (answered r) = ok_weight r
  pending_ok (tallied r) = ok_weight r
  pending_ok _ = 0

  abbrev pub pending_err : Worker → ℕ
  pending_err (answered r) = err_weight r
  pending_err (tallied r) = err_weight r
  pending_err _ = 0

  -- The parts of a state that show a ledger.
  pub record IsShown (setup : Setup) (queue : List DispatchJob) (sender : Sender) (req_idx : ℕ)
      (workers : List Worker) (ok_total err_total : ℕ) (l : Ledger) : Type 0 where
    pub waiting : queue ≡ l.waiting
    pub chosen : jobs_upto setup req_idx ≡ (l.handed ++ l.waiting) ++ in_hand sender
    pub serving : sum_of busy workers ≡ l.serving
    pub succeeded : ok_total + sum_of pending_ok workers ≡ l.succeeded
    pub failures : err_total + sum_of pending_err workers ≡ l.failures
    pub closed : is_closing sender ≡ l.closed

  abbrev pub Shows : Setup → System → Ledger → Type 0
  Shows setup s l = IsShown setup s.queue s.sender s.req_idx s.workers s.totals.ok s.totals.err l

  -- A step of the sender that no entry shows.
  pub with_sender :
      {setup : Setup} {q : List DispatchJob} {p : Sender} {n : ℕ} {ws : List Worker} {a b : ℕ}
      {l : Ledger} (p' : Sender)
      → in_hand p ≡ in_hand p'
      → is_closing p ≡ is_closing p'
      → IsShown setup q p n ws a b l
      → IsShown setup q p' n ws a b l
  with_sender {l = l} p' same_hand same_state v = record {
    waiting = v.waiting;
    chosen = v.chosen ∙ ap (λ (h : List DispatchJob). (l.handed ++ l.waiting) ++ h) same_hand;
    serving = v.serving;
    succeeded = v.succeeded;
    failures = v.failures;
    closed = sym same_state ∙ v.closed;
  }

  -- A step of a worker that no entry shows.
  pub with_worker :
      {setup : Setup} {q : List DispatchJob} {p : Sender} {n : ℕ} {ws : List Worker} {a b : ℕ}
      {l : Ledger} (i : ℕ) (old new : Worker) (a' b' : ℕ)
      → get_elem? ws i ≡ some old
      → busy old ≡ busy new
      → a + pending_ok old ≡ a' + pending_ok new
      → b + pending_err old ≡ b' + pending_err new
      → IsShown setup q p n ws a b l
      → IsShown setup q p n (set ws i new) a' b' l
  with_worker {ws = ws} i old new a' b' e same_busy same_ok same_err v = record {
    waiting = v.waiting;
    chosen = v.chosen;
    serving = omega (arith, v.serving, sum_of-set busy ws i old new e);
    succeeded = omega (arith, v.succeeded, sum_of-set pending_ok ws i old new e);
    failures = omega (arith, v.failures, sum_of-set pending_err ws i old new e);
    closed = v.closed;
  }

  pub log_reply-same :
      (s : System) (r : Reply)
      → ((log_reply s r).queue ≡ s.queue)
        × ((log_reply s r).sender ≡ s.sender)
        × ((log_reply s r).req_idx ≡ s.req_idx)
        × ((log_reply s r).totals ≡ s.totals)
  unfolding log_reply
  log_reply-same s r = ground arith

  pub busy-le : (w : Worker) → busy w ≤ 1
  busy-le w = ground arith

  pub tally_ok : (t : Tally) (r : Reply) → t.ok + ok_weight r ≡ (tally_reply t r).ok
  unfolding tally_reply
  tally_ok t r = ground arith

  pub tally_err : (t : Tally) (r : Reply) → t.err + err_weight r ≡ (tally_reply t r).err
  unfolding tally_reply
  tally_err t r = ground arith
