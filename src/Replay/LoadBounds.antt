-- ===== src/Replay/LoadBounds.antt =====
-- What main.go's loadRequests promises of a file that it accepts, and that it always ends.
use go_replayer.Prelude.{
  ℕ, zero, suc, ◌+◌, ◌*◌, ◌≤◌, ◌<◌, ◌≡◌, ◌≢◌, inl, inr, List, [], ◌∷◌, Option, none, some, arith,
  length, All, All-append, sum_of, sum_of-append, ok, err, stuck, ◌>>=◌, >>=-eq-ok, Bool-cases,
  is_empty, ok-injective, >>=-eq-stuck, sym, ◌∙◌,
}
use go_replayer.Replay.Reader.{
  Request, eof, unexpected_eof, failed, got, read_full, read_u32, Parsed, Parsed_sizes, Read-cases,
  read_u32_takes,
}
use go_replayer.Replay.Load.{
  reading_method_length, keep_valid, Loaded, load_record, load_loop, load_requests,
  validate_loaded_request, max_method_len, max_payload_len, max_total_replay_bytes,
  per_record_overhead, nothing_loaded,
}

-- A request that may be replayed.
pub record IsReplayable (r : Request) : Type 0 where
  pub method_given : 0 < length r.method
  pub method_short : length r.method ≤ max_method_len
  pub payload_given : 0 < length r.payload
  pub payload_short : length r.payload ≤ max_payload_len

-- What a request is counted for.
abbrev pub weight : Request → ℕ
weight r = length r.method + length r.payload + per_record_overhead

pub record IsBounded (st : Loaded) : Type 0 where
  pub replayable : All IsReplayable st.reqs
  pub accounted :
      sum_of weight st.reqs + (1 + per_record_overhead) * st.skipped_invalid ≤ st.total_bytes
  pub capped : st.total_bytes ≤ max_total_replay_bytes

-- What is known of a record that a round of the loop takes.
pub record Taken (n : ℕ) (bs : List ℕ) (st st' : Loaded) (rest : List ℕ) : Type 0 where
  pub request : Request
  pub parsed : Parsed n bs request rest
  pub method_given : 0 < n
  pub method_short : n ≤ max_method_len
  pub payload_short : parsed.payload_len ≤ max_payload_len
  pub capped :
      st.total_bytes + n + parsed.payload_len + per_record_overhead ≤ max_total_replay_bytes
  pub result :
      st' ≡ keep_valid st request (st.total_bytes + n + parsed.payload_len + per_record_overhead)

pub load_record-Taken :
    (n : ℕ) (bs : List ℕ) (st st' : Loaded) (rest : List ℕ)
    → load_record n bs st ≡ ok (st', rest)
    → Taken n bs st st' rest
unfolding load_record
load_record-Taken n bs st st' rest e = elim (Read-cases (read_full n bs)) [
  | inl (x, e1) ↦ absurd (ground arith)
  | inr (method, bs1, e1) ↦ elim (Read-cases (read_u32 bs1)) [
    | inl (x, e2) ↦ absurd (ground arith)
    | inr (p, bs2, e2) ↦ elim (Read-cases (read_full p bs2)) [
      | inl (x, e3) ↦ absurd (ground arith)
      | inr (payload, bs3, e3) ↦ record {
        request = record { method = method; payload = payload };
        parsed = record {
          after_method = bs1;
          payload_len = p;
          after_length = bs2;
          method_read = e1;
          length_read = e2;
          payload_read = ground arith;
        };
        method_given = ground arith;
        method_short = ground arith;
        payload_short = ground arith;
        capped = ground arith;
        result = ground arith;
      }
    ]
  ]
]

keep_valid-IsBounded :
    (st : Loaded) (r : Request) (total : ℕ)
    → IsBounded st
    → 0 < length r.method
    → length r.method ≤ max_method_len
    → length r.payload ≤ max_payload_len
    → total ≡ st.total_bytes + weight r
    → total ≤ max_total_replay_bytes
    → IsBounded (keep_valid st r total)
unfolding keep_valid
keep_valid-IsBounded st r total b mg ms ps te tc = elim (Bool-cases (is_empty r.payload)) [
  | inl e ↦
      let empty : length r.payload ≡ 0 = ground arith in
      rw (e, validate_loaded_request)
        (record { replayable = b.replayable; accounted = omega (arith, b.accounted); capped = tc })
  | inr e ↦
      let given : 0 < length r.payload = grind arith in
      rw (e, validate_loaded_request)
        (record {
          replayable = All-append IsReplayable st.reqs (r ∷ []) b.replayable (
            record {
              method_given = mg;
              method_short = ms;
              payload_given = given;
              payload_short = ps;
            },
            tt,
          );
          accounted = omega (arith, b.accounted, sum_of-append weight st.reqs (r ∷ []));
          capped = tc;
        })
]

load_record-IsBounded :
    (n : ℕ) (bs : List ℕ) (st st' : Loaded) (rest : List ℕ)
    → load_record n bs st ≡ ok (st', rest)
    → IsBounded st
    → IsBounded st'
load_record-IsBounded n bs st st' rest e b =
    let t = load_record-Taken n bs st st' rest e in
    let (m, p, _) = Parsed_sizes t.parsed in
    rw t.result (
      keep_valid-IsBounded st t.request _ b (omega arith) (omega arith) (omega arith) (omega arith)
        t.capped)

pub load_record_shorter :
    (n : ℕ) (bs : List ℕ) (st st' : Loaded) (rest : List ℕ)
    → load_record n bs st ≡ ok (st', rest)
    → length rest < length bs
load_record_shorter n bs st st' rest e =
    omega (arith, (Parsed_sizes (load_record-Taken n bs st st' rest e).parsed).2)

-- The loop, one round at a time.
pub load_loop-eof :
    (fuel : ℕ) (bs : List ℕ) (st : Loaded)
    → read_u32 bs ≡ failed eof
    → load_loop (suc fuel) bs st ≡ ok st
unfolding load_loop
load_loop-eof fuel bs st r = rw (r, load_loop)

pub load_loop-unexpected :
    (fuel : ℕ) (bs : List ℕ) (st : Loaded)
    → read_u32 bs ≡ failed unexpected_eof
    → load_loop (suc fuel) bs st ≡ err (reading_method_length unexpected_eof)
unfolding load_loop
load_loop-unexpected fuel bs st r = rw (r, load_loop)

pub load_loop-got :
    (fuel : ℕ) (bs : List ℕ) (st : Loaded) (n : ℕ) (rest : List ℕ)
    → read_u32 bs ≡ got n rest
    → load_loop (suc fuel) bs st
      ≡ (load_record n rest st >>= λ (st', rest'). load_loop fuel rest' st')
unfolding load_loop
load_loop-got fuel bs st n rest r = rw (r, load_loop)

load_loop-IsBounded :
    (fuel : ℕ) (bs : List ℕ) (st st' : Loaded)
    → load_loop fuel bs st ≡ ok st'
    → IsBounded st
    → IsBounded st'
load_loop-IsBounded zero bs st st' e b = unfold load_loop in cc
load_loop-IsBounded (suc fuel) bs st st' e b = elim (Read-cases (read_u32 bs)) [
  | inl (eof, r) ↦ rw (← ok-injective (sym (load_loop-eof fuel bs st r) ∙ e)) b
  | inl (unexpected_eof, r) ↦ cc (load_loop-unexpected fuel bs st r)
  | inr (n, rest, r) ↦
      let ((st1, rest1), taken, more) =
        >>=-eq-ok (load_record n rest st) _ (sym (load_loop-got fuel bs st n rest r) ∙ e) in
      load_loop-IsBounded fuel rest1 st1 st' more
        (load_record-IsBounded n rest st st1 rest1 taken b)
]

-- A file that loadRequests accepts is loaded within its bounds: each request has a method of 1 to
-- 64 KiB and a payload of 1 byte to 256 MiB, all that is retained is accounted for, an empty payload
-- with its overhead too, and the account is at most 8 GiB.
pub load_requests-IsBounded :
    (file : Option (List ℕ)) (st : Loaded) → load_requests file ≡ ok st → IsBounded st
unfolding load_requests
load_requests-IsBounded none st e = cc
load_requests-IsBounded (some bs) st e =
    load_loop-IsBounded (length bs + 1) bs nothing_loaded st e
      (record { replayable = tt; accounted = omega arith; capped = omega arith })

pub load_record-ne-stuck : (n : ℕ) (bs : List ℕ) (st : Loaded) → load_record n bs st ≢ stuck
unfolding load_record
load_record-ne-stuck n bs st e = elim (Read-cases (read_full n bs)) [
  | inl (x, e1) ↦ ground arith
  | inr (method, bs1, e1) ↦ elim (Read-cases (read_u32 bs1)) [
    | inl (x, e2) ↦ ground arith
    | inr (p, bs2, e2) ↦ elim (Read-cases (read_full p bs2)) [
      | inl (x, e3) ↦ ground arith
      | inr (payload, bs3, e3) ↦ ground arith
    ]
  ]
]

load_loop-ne-stuck :
    (fuel : ℕ) (bs : List ℕ) (st : Loaded) → length bs < fuel → load_loop fuel bs st ≢ stuck
load_loop-ne-stuck zero bs st h e = absurd (omega arith)
load_loop-ne-stuck (suc fuel) bs st h e = elim (Read-cases (read_u32 bs)) [
  | inl (eof, r) ↦ cc (load_loop-eof fuel bs st r)
  | inl (unexpected_eof, r) ↦ cc (load_loop-unexpected fuel bs st r)
  | inr (n, rest, r) ↦
      elim (>>=-eq-stuck (load_record n rest st) _ (sym (load_loop-got fuel bs st n rest r) ∙ e)) [
        | inl never ↦ load_record-ne-stuck n rest st never
        | inr ((st1, rest1), taken, more) ↦
            load_loop-ne-stuck fuel rest1 st1
              (omega
                (arith, load_record_shorter n rest st st1 rest1 taken, read_u32_takes bs n rest r))
              more
      ]
]

-- Whatever the file holds, loadRequests returns: its loop never runs out of fuel.
pub load_requests-ne-stuck : (file : Option (List ℕ)) → load_requests file ≢ stuck
unfolding load_requests
load_requests-ne-stuck none e = cc
load_requests-ne-stuck (some bs) e =
    load_loop-ne-stuck (length bs + 1) bs nothing_loaded (omega arith) e
