-- ===== src/Run/Ledger.antt =====
-- What main.go promises of a run, without its goroutines: a bounded first-in first-out queue of jobs
-- that are handed out in order, at most one for each worker, and that end in success or failure.
use go_replayer.Replay.Dispatch.{DispatchJob}
use go_replayer.Prelude.{List, [], ℕ, false, Bool, ◌≡◌, length, ◌<◌, ◌++◌, ◌∷◌, ◌+◌, ◌-◌, true}

-- `handed` lists the jobs that workers have taken, oldest first.
pub record Ledger : Type 0 where
  pub waiting : List DispatchJob
  pub handed : List DispatchJob
  pub serving : ℕ
  pub succeeded : ℕ
  pub failures : ℕ
  pub closed : Bool

abbrev pub empty_ledger : Ledger
empty_ledger = record {
  waiting = [];
  handed = [];
  serving = 0;
  succeeded = 0;
  failures = 0;
  closed = false;
}

pub data Entry (capacity workers : ℕ) (l : Ledger) : Ledger → Type 0 where
  submit :
      (job : DispatchJob)
      → l.closed ≡ false
      → length l.waiting < capacity
      → Entry capacity workers l (record l { waiting = l.waiting ++ job ∷ [] })
  hand_out :
      (job : DispatchJob) (rest : List DispatchJob)
      → l.waiting ≡ job ∷ rest
      → l.serving < workers
      → Entry capacity workers l
          (record l { waiting = rest; handed = l.handed ++ job ∷ []; serving = l.serving + 1 })
  succeed :
      0 < l.serving
      → Entry capacity workers l (record l { serving = l.serving - 1; succeeded = l.succeeded + 1 })
  fail :
      0 < l.serving
      → Entry capacity workers l (record l { serving = l.serving - 1; failures = l.failures + 1 })
  shut : l.closed ≡ false → Entry capacity workers l (record l { closed = true })

pub data Ledgers (capacity workers : ℕ) : Ledger → Type 0 where
  opened : Ledgers capacity workers empty_ledger
  entered :
      {l l' : Ledger}
      → Ledgers capacity workers l
      → Entry capacity workers l l'
      → Ledgers capacity workers l'
