-- ===== src/Replay/Load.antt =====
-- loadRequests and validateLoadedRequest of main.go.
use go_replayer.Prelude.{
  ℕ, zero, suc, ◌+◌, ◌*◌, ◌^◌, Bool, true, false, ◌||◌, List, [], ◌∷◌, ◌++◌, Option, none, some,
  ltb, ◌==◌, if◌then◌else◌, is_empty, length, Outcome, ok, err, stuck, ◌>>=◌,
}
use go_replayer.Replay.Reader.{
  Request, ReadError, eof, unexpected_eof, Read, failed, got, read_full, read_u32,
}

abbrev pub max_method_len : ℕ
max_method_len = 64 * 1024

abbrev pub max_payload_len : ℕ
max_payload_len = 256 * 1024 * 1024

abbrev pub max_total_replay_bytes : ℕ
max_total_replay_bytes = 8 * 2 ^ 30

abbrev pub per_record_overhead : ℕ
per_record_overhead = 64

-- The errors that loadRequests returns, with the numbers that their messages print.
pub data LoadError : Type 0 where
  open_failed : LoadError
  reading_method_length : ReadError → LoadError
  invalid_method_length : ℕ → ℕ → LoadError
  reading_method_name : ℕ → ReadError → LoadError
  reading_payload_length : ReadError → LoadError
  invalid_payload_length : ℕ → ℕ → LoadError
  reading_request_body : ℕ → ReadError → LoadError
  over_cap : ℕ → LoadError

-- The variables of the loop. `total_bytes` is an int64; the cap ends the loop long before it wraps.
pub record Loaded : Type 0 where
  pub reqs : List Request
  pub total_bytes : ℕ
  pub skipped_invalid : ℕ

-- validateLoadedRequest(method, payload) == nil
unfoldable pub validate_loaded_request : Request → Bool
validate_loaded_request r = elim (is_empty r.payload) [ true ↦ false | false ↦ true ]

-- A read whose failure is wrapped in an error of the caller's.
abbrev pub or_fail {ℓ} :
    {A : Type ℓ} {E : Type 0} → Read A → (ReadError → E) → Outcome E (A × List ℕ)
or_fail (failed e) wrap = err (wrap e)
or_fail (got a rest) wrap = ok (a, rest)

-- The end of a round: an invalid record is counted and left out.
unfoldable pub keep_valid : Loaded → Request → ℕ → Loaded
unfolding validate_loaded_request
keep_valid st r total =
    if validate_loaded_request r
    then record st { reqs = st.reqs ++ r ∷ []; total_bytes = total }
    else record st { total_bytes = total; skipped_invalid = st.skipped_invalid + 1 }

-- One round of the loop, from the method's length on.
unfoldable pub load_record : ℕ → List ℕ → Loaded → Outcome LoadError (Loaded × List ℕ)
load_record method_len bs st =
    let record_no = length st.reqs in
    if method_len == 0 || ltb max_method_len method_len
    then err (invalid_method_length method_len record_no)
    else do
      (method, bs1) ← or_fail (read_full method_len bs) (reading_method_name method_len)
      (payload_len, bs2) ← or_fail (read_u32 bs1) reading_payload_length
      if ltb max_payload_len payload_len
          then err (invalid_payload_length payload_len record_no)
          else do
            (payload, bs3) ← or_fail (read_full payload_len bs2) (reading_request_body payload_len)
            let total = st.total_bytes + method_len + payload_len + per_record_overhead
            if ltb max_total_replay_bytes total
                then err (over_cap record_no)
                else ok (keep_valid st (record { method = method; payload = payload }) total, bs3)

unfoldable pub load_loop : ℕ → List ℕ → Loaded → Outcome LoadError Loaded
load_loop zero bs st = stuck
load_loop (suc fuel) bs st = elim (read_u32 bs) [
  | failed eof ↦ ok st
  | failed unexpected_eof ↦ err (reading_method_length unexpected_eof)
  | got n rest ↦ load_record n rest st >>= λ (st', rest'). load_loop fuel rest' st'
]

abbrev pub nothing_loaded : Loaded
nothing_loaded = record { reqs = []; total_bytes = 0; skipped_invalid = 0 }

-- `none` stands for a file that os.Open does not open. A round takes a byte at least.
unfoldable pub load_requests : Option (List ℕ) → Outcome LoadError Loaded
load_requests none = err open_failed
load_requests (some bs) = load_loop (length bs + 1) bs nothing_loaded
