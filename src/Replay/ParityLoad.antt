-- ===== src/Replay/ParityLoad.antt =====
-- loadRequests of cmd/grpc-parity-check/main.go, which caps the total before it reads the payload,
-- keeps empty payloads and refuses a file with no record.
use go_replayer.Prelude.{
  ℕ, zero, suc, ◌+◌, ◌||◌, List, [], ◌∷◌, ◌++◌, Option, none, some, ltb, ◌==◌, if◌then◌else◌,
  length, Outcome, ok, err, stuck, ◌>>=◌,
}
use go_replayer.Replay.Reader.{
  Request, ReadError, eof, unexpected_eof, failed, got, read_full, read_u32,
}
use go_replayer.Replay.Load.{or_fail, max_payload_len, max_total_replay_bytes, per_record_overhead}

abbrev pub parity_max_method_len : ℕ
parity_max_method_len = 1024

pub data ParityLoadError : Type 0 where
  open_failed : ParityLoadError
  reading_method_length : ℕ → ReadError → ParityLoadError
  invalid_method_length : ℕ → ℕ → ParityLoadError
  truncated_method : ℕ → ReadError → ParityLoadError
  reading_payload_length : ℕ → ReadError → ParityLoadError
  invalid_payload_length : ℕ → ℕ → ParityLoadError
  over_cap : ℕ → ParityLoadError
  truncated_payload : ℕ → ReadError → ParityLoadError
  no_requests : ParityLoadError

pub record ParityLoaded : Type 0 where
  pub reqs : List Request
  pub total_bytes : ℕ

unfoldable pub parity_load_record :
    ℕ → List ℕ → ParityLoaded → Outcome ParityLoadError (ParityLoaded × List ℕ)
parity_load_record method_len bs st =
    let record_no = length st.reqs in
    if method_len == 0 || ltb parity_max_method_len method_len
    then err (invalid_method_length method_len record_no)
    else do
      (method, bs1) ← or_fail (read_full method_len bs) (truncated_method record_no)
      (payload_len, bs2) ← or_fail (read_u32 bs1) (reading_payload_length record_no)
      if ltb max_payload_len payload_len
          then err (invalid_payload_length payload_len record_no)
          else let total = st.total_bytes + method_len + payload_len + per_record_overhead in
            if ltb max_total_replay_bytes total then err (over_cap record_no) else do
              (payload, bs3) ← or_fail (read_full payload_len bs2) (truncated_payload record_no)
              ok (
                record {
                  reqs = st.reqs ++ record { method = method; payload = payload } ∷ [];
                  total_bytes = total;
                },
                bs3,
              )

unfoldable pub parity_load_loop : ℕ → List ℕ → ParityLoaded → Outcome ParityLoadError ParityLoaded
parity_load_loop zero bs st = stuck
parity_load_loop (suc fuel) bs st = elim (read_u32 bs) [
  | failed eof ↦ ok st
  | failed unexpected_eof ↦ err (reading_method_length (length st.reqs) unexpected_eof)
  | got n rest ↦ parity_load_record n rest st >>= λ (st', rest'). parity_load_loop fuel rest' st'
]

unfoldable pub parity_load_requests : Option (List ℕ) → Outcome ParityLoadError (List Request)
parity_load_requests none = err open_failed
parity_load_requests (some bs) =
    parity_load_loop (length bs + 1) bs (record { reqs = []; total_bytes = 0 }) >>= λ st.
    elim st.reqs [ [] ↦ err no_requests | _ ∷ _ ↦ ok st.reqs ]
