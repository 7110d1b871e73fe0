-- ===== src/Run/Reported.antt =====
-- What main of main.go says at its end adds up.
use go_replayer.Telemetry.Rows.{Json, Row, int, text, number, other}
use go_replayer.Prelude.Int.{pos, negsuc}
use go_replayer.Windows.Percentiles.{LatencySummary}
use go_replayer.Prelude.{
  ℕ, Text, Option, ◌∷◌, ◌≤◌, ◌≡◌, some, All, ◌+◌, [], none, if◌then◌else◌, text_eq, codes,
}
use go_replayer.Machine.{Machine}
use go_replayer.Run.State.{ErrorCounts}

-- The most frequent message comes first.
abbrev pub IsFalling : ErrorCounts → Type 0
IsFalling [] = Unit
IsFalling (e ∷ es) = All (λ x. x.1 ≤ e.1) es × IsFalling es

module _ ⦃m : Machine⦄ where
  open m use {Rng}

  abbrev pub number_of : Option ℕ → ℕ
  number_of none = 0
  number_of (some n) = n

  abbrev pub latency_count : Option LatencySummary → ℕ
  latency_count none = 0
  latency_count (some l) = l.count

  -- The count under a key of the row, where there is one.
  abbrev pub count_of_json : Json → Option ℕ
  count_of_json (int (pos n)) = some n
  count_of_json (int (negsuc n)) = none
  count_of_json (text t) = none
  count_of_json (number x) = none
  count_of_json (other t) = none

  unfoldable pub row_count : Text → Row → Option ℕ
  row_count key [] = none
  row_count key (e ∷ row) = if text_eq e.0 key then count_of_json e.1 else row_count key row

  -- The counts of the row, each under its key, with what they add up to.
  pub record RowAddsUp (row : Row) (sent bursts : ℕ) : Type 0 where
    pub row_ok : ℕ
    pub row_err : ℕ
    pub row_spikes : ℕ
    pub row_base : ℕ
    pub total_sent : row_count (codes "total_sent") row ≡ some sent
    pub total_ok : row_count (codes "total_ok") row ≡ some row_ok
    pub total_err : row_count (codes "total_err") row ≡ some row_err
    pub bursts_fired : row_count (codes "bursts_fired") row ≡ some bursts
    pub spikes_fired : row_count (codes "spikes_fired") row ≡ some row_spikes
    pub base_fired : row_count (codes "base_fired") row ≡ some row_base
    pub all_replied : row_ok + row_err ≡ sent
    pub all_fired : row_spikes + row_base ≡ sent
