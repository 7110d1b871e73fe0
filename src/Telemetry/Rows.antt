-- ===== src/Telemetry/Rows.antt =====
-- The rows of JSONLWriter of metrics.go: WriteTick, WriteBurstEvent and WriteSummary before Emit.
use go_replayer.Scheduler.Burst.{
  BurstShape, BurstJitter, BurstMode, other_shape, other_jitter, other_mode, BurstConfig, uniform,
  fixed, additive, spike, poisson, absorbing, random,
}
use go_replayer.Prelude.Int.{Time, Duration, ℤ}
use go_replayer.Prelude.{Text, List, codes, ◌∷◌, [], if◌then◌else◌, text_eq}
use go_replayer.Machine.{Machine, of_nat}

-- The values of a row, and a row as its keys and values.
module _ ⦃m : Machine⦄ where
  open m use {Float, div, of_int}

  pub data Json : Type 0 where
    text : Text → Json
    int : ℤ → Json
    number : Float → Json
    -- a value that the caller of WriteSummary built
    other : Text → Json

  abbrev pub Row : Type 0
  Row = List (Text × Json)

  pub record EmitTick : Type 0 where
    pub ts : Time
    pub sec : ℤ
    pub target_qps : ℤ
    pub replicas : ℤ
    pub per_replica_base_qps : Float
    pub sent : ℤ
    pub ok : ℤ
    pub err : ℤ
    pub drift : Float
    pub p50 : Float
    pub p90 : Float
    pub p99 : Float
    pub inflight : ℤ
    pub queue : ℤ
    pub sched_blocked_ms : Float
    pub sched_lag_ms : Float
    pub bursts_fired : ℤ
    pub spikes_fired : ℤ
    pub base_fired : ℤ

  abbrev pub shape_text : BurstShape → Text
  shape_text uniform = codes "uniform"
  shape_text spike = codes "spike"
  shape_text random = codes "random"
  shape_text (other_shape t) = t

  abbrev pub jitter_text : BurstJitter → Text
  jitter_text fixed = codes "fixed"
  jitter_text poisson = codes "poisson"
  jitter_text (other_jitter t) = t

  abbrev pub mode_text : BurstMode → Text
  mode_text additive = codes "additive"
  mode_text absorbing = codes "absorbing"
  mode_text (other_mode t) = t

  -- `t.UTC().Format(time.RFC3339Nano)` is the parameter `format`.
  unfoldable pub tick_row : (Time → Text) → EmitTick → Row
  tick_row format t =
      (codes "event", text (codes "tick"))
      ∷ (codes "ts", text (format t.ts))
      ∷ (codes "sec", int t.sec)
      ∷ (codes "target_qps", int t.target_qps)
      ∷ (codes "replicas", int t.replicas)
      ∷ (codes "per_replica_base_qps", number t.per_replica_base_qps)
      ∷ (codes "sent", int t.sent)
      ∷ (codes "ok", int t.ok)
      ∷ (codes "err", int t.err)
      ∷ (codes "drift", number t.drift)
      ∷ (codes "p50_ms", number t.p50)
      ∷ (codes "p90_ms", number t.p90)
      ∷ (codes "p99_ms", number t.p99)
      ∷ (codes "inflight", int t.inflight)
      ∷ (codes "queue", int t.queue)
      ∷ (codes "sched_blocked_ms", number t.sched_blocked_ms)
      ∷ (codes "sched_lag_ms", number t.sched_lag_ms)
      ∷ (codes "bursts_fired", int t.bursts_fired)
      ∷ (codes "spikes_fired", int t.spikes_fired)
      ∷ (codes "base_fired", int t.base_fired)
      ∷ []

  -- `float64(d) / float64(time.Millisecond)`
  abbrev pub millis : Duration → Float
  millis d = div (of_int d) (of_nat 1_000_000)

  unfoldable pub burst_row : (Time → Text) → Time → BurstConfig → Row
  burst_row format at cfg =
      (codes "event", text (codes "burst_onset"))
      ∷ (codes "ts", text (format at))
      ∷ (codes "size", int cfg.size)
      ∷ (codes "window_ms", number (millis cfg.window))
      ∷ (codes "period_ms", number (millis cfg.period))
      ∷ (codes "shape", text (shape_text cfg.shape))
      ∷ (codes "jitter", text (jitter_text cfg.jitter))
      ∷ (codes "mode", text (mode_text cfg.mode))
      ∷ []

  -- `row[key] = value`
  unfoldable pub set_key : Text → Json → Row → Row
  set_key key value [] = (key, value) ∷ []
  set_key key value (e ∷ row) =
      if text_eq e.0 key then (key, value) ∷ row else e ∷ set_key key value row

  unfoldable pub summary_row : Row → Row
  summary_row row = set_key (codes "event") (text (codes "summary")) row

  pub data Event : Type 0 where
    tick : EmitTick → Event
    burst_onset : Time → BurstConfig → Event
    summarised : Row → Event

  abbrev pub row_of : (Time → Text) → Event → Row
  row_of format (tick t) = tick_row format t
  row_of format (burst_onset at cfg) = burst_row format at cfg
  row_of format (summarised row) = summary_row row
