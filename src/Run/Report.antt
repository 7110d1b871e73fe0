-- ===== src/Run/Report.antt =====
-- What main of main.go says at its end: the summary, the errors by their counts, and the row for
-- WriteSummary. Formatting is a parameter.
use go_replayer.Telemetry.Rows.{Row, int, number, text, summary_row, other, set_key}
use go_replayer.Scheduler.State.{SchedulerCounters, snapshot_counters, per_replica_base_rate}
use go_replayer.Windows.Percentiles.{LatencySummary, latency_summary}
use go_replayer.Windows.Analyzer.{WindowSummary, summary}
use go_replayer.Scheduler.Burst.{BurstConfig, enabled, avg_qps, seconds}
use go_replayer.Prelude.Int.{Duration, pos}
use go_replayer.Machine.{Machine, of_nat}
use go_replayer.Run.State.{ErrorCounts, Setup, System}
use go_replayer.Prelude.{
  Text, ℕ, List, ◌∷◌, if◌then◌else◌, Option, ltb, [], some, codes, none, is_empty,
}

-- The messages by their counts, the most frequent first; sort.Slice and the order of a map leave open
-- which of two messages with the same count comes first.
unfoldable pub insert_count : Text × ℕ → ErrorCounts → ErrorCounts
insert_count e [] = e ∷ []
insert_count e (x ∷ xs) =
    let rest = insert_count e xs in if ltb x.1 e.1 then e ∷ x ∷ xs else x ∷ rest

unfoldable pub top_errors : ErrorCounts → ErrorCounts
top_errors [] = []
top_errors (e ∷ es) = insert_count e (top_errors es)

-- maxInt64, on counters
abbrev pub max_count_of : ℕ → ℕ → ℕ
max_count_of a b = if ltb b a then a else b

abbrev pub summary_thresholds : List ℕ
summary_thresholds = 8 ∷ 10 ∷ 12 ∷ 30 ∷ []

module _ ⦃m : Machine⦄ where
  open m use {Float, mul, div, of_int}

  -- elapsed.Round(time.Second).String(), the format of BurstConfig.String with its average, and the JSON
  -- of the two values that are structs or maps.
  pub record Printer : Type 0 where
    pub duration_text : Duration → Text
    pub burst_format : BurstConfig → Float → Text
    pub window_value : WindowSummary → Text
    pub latency_value : LatencySummary → Text

  -- BurstConfig.String
  unfoldable pub burst_string : Printer → BurstConfig → Text
  burst_string p c = if enabled c then p.burst_format c (avg_qps c) else codes "disabled"

  pub record Report : Type 0 where
    pub total_sent : ℕ
    pub total_ok : ℕ
    pub total_err : ℕ
    pub error_rate : Float
    pub achieved_send_qps : Float
    pub achieved_ok_qps : Float
    -- the lines that are printed where there is something to say
    pub latencies : Option LatencySummary
    pub top : ErrorCounts
    pub other_messages : Option ℕ
    pub windows : Option WindowSummary
    pub not_analyzed : Option ℕ
    pub emitted : SchedulerCounters
    pub row : Row

  abbrev pub some_positive : ℕ → Option ℕ
  some_positive n = if ltb 0 n then some n else none

  -- The row's keys; `latency_ms` is there where a reply was good.
  unfoldable pub summary_entries :
      Printer → Setup → Duration → System → LatencySummary → WindowSummary → Row
  summary_entries p setup elapsed s lat windows =
      let fired = snapshot_counters s.scheduler in
      let entries : Row =
        (codes "target_qps", int setup.target_qps)
        ∷ (codes "replicas", int s.scheduler.replicas)
        ∷ (codes "per_replica_base_qps", number (per_replica_base_rate s.scheduler))
        ∷ (codes "effective_base_qps", number s.scheduler.base_rate)
        ∷ (codes "duration", text (p.duration_text elapsed))
        ∷ (codes "total_sent", int (pos s.totals.sent))
        ∷ (codes "total_ok", int (pos s.totals.ok))
        ∷ (codes "total_err", int (pos s.totals.err))
        ∷ (codes "achieved_send_qps", number (div (of_nat s.totals.sent) (seconds elapsed)))
        ∷ (codes "achieved_ok_qps", number (div (of_nat s.totals.ok) (seconds elapsed)))
        ∷ (codes "bursts_fired", int (pos fired.bursts_fired))
        ∷ (codes "spikes_fired", int (pos fired.spikes_fired))
        ∷ (codes "base_fired", int (pos fired.base_fired))
        ∷ (codes "burst_config", text (burst_string p setup.burst))
        ∷ (codes "window_summary", other (p.window_value windows))
        ∷ [] in
      if ltb 0 lat.count
      then set_key (codes "latency_ms") (other (p.latency_value lat)) entries
      else entries

  -- `width` is --analyzer-window, and `elapsed` the time since the start.
  unfoldable pub report : Printer → Setup → Duration → Duration → System → Report
  report p setup width elapsed s =
      let lat = latency_summary s.ok_lat in
      let windows = summary s.analyzer.samples width summary_thresholds in
      record {
        total_sent = s.totals.sent;
        total_ok = s.totals.ok;
        total_err = s.totals.err;
        error_rate =
            mul (div (of_nat s.totals.err) (of_nat (max_count_of s.totals.sent 1))) (of_nat 100);
        achieved_send_qps = div (of_nat s.totals.sent) (seconds elapsed);
        achieved_ok_qps = div (of_nat s.totals.ok) (seconds elapsed);
        latencies = if ltb 0 lat.count then some lat else none;
        top = top_errors s.error_counts;
        other_messages = if is_empty s.error_counts then none else some_positive s.other_errors;
        windows = if ltb 0 windows.num_events then some windows else none;
        not_analyzed = some_positive s.analyzer.dropped;
        emitted = snapshot_counters s.scheduler;
        row = summary_row (summary_entries p setup elapsed s lat windows);
      }
