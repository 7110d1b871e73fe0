-- ===== src/Tests/Telemetry.antt =====
-- Telemetry to a sink that is full after one row.
use go_replayer.Telemetry.Rows.{Event, burst_onset, summarised}
use go_replayer.Prelude.Int.{pos}
use go_replayer.Prelude.{
  List, ℕ, codes, ◌+◌, ◌≡◌, some, if◌then◌else◌, ◌∷◌, ok, refl, leb, none, [],
}
use go_replayer.Scheduler.Burst.{BurstConfig, uniform, fixed, additive}
use go_replayer.Telemetry.Writer.{
  Encoder, open_jsonl_writer, jsonl_err, first_failure, write_all, answers, new_jsonl_writer,
  jsonl_err-write_all,
}
use go_replayer.Tests.Arithmetic.{small_machine}

abbrev small_encoder : Encoder
small_encoder = record {
  Sink = ℕ;
  encode = λ n row. (n + 1, if leb 1 n then some (codes "disk full") else none);
  create = λ path. ok 0;
  format = λ t. [];
}

abbrev plain : BurstConfig
plain = record {
  size = pos 3;
  window = pos 20_000_000;
  period = pos 1_000_000_000;
  shape = uniform;
  jitter = fixed;
  mode = additive;
}

abbrev events : List Event
events = burst_onset 7 plain ∷ summarised [] ∷ burst_onset 9 plain ∷ []

opened :
    open_jsonl_writer small_encoder (codes "out.jsonl")
    ≡ ok (some (new_jsonl_writer small_encoder 0))
unfolding open_jsonl_writer
opened = refl

jsonl_err-write_all_example :
    jsonl_err small_encoder
      (write_all small_encoder (some (new_jsonl_writer small_encoder 0)) events)
    ≡ first_failure small_encoder (answers small_encoder (codes "out.jsonl") events)
jsonl_err-write_all_example =
    jsonl_err-write_all small_encoder (codes "out.jsonl") (some (new_jsonl_writer small_encoder 0))
      events opened

disk_full :
    first_failure small_encoder (answers small_encoder (codes "out.jsonl") events)
    ≡ some (codes "disk full")
disk_full = refl
