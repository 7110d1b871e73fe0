-- ===== src/Replay/RoundTrip.antt =====
-- main.go's loadRequests on files in the documented layout, whole and cut short.
use mathlib.Core.Path.{subst}
use go_replayer.Replay.Records.{
  body, Parsed-body, read_u32-eof, Parsed-append, read_u32-append, Parsed_unique,
}
use Prim.Native.Nat.{suc}
use mathlib.Core.List.{append_assoc, append-nil}
use Prim.Native.Nat.add
use go_replayer.Replay.LoadBounds.{
  weight, load_loop-got, load_loop-eof, load_loop-unexpected, load_record-Taken,
  load_record-ne-stuck,
}
use go_replayer.Prelude.{
  ℕ, List, ◌<◌, if◌then◌else◌, ◌++◌, ◌≡◌, All, length, ◌≤◌, keep, ◌+◌, sum_of, ◌∷◌, ok, Bool-cases,
  arith, [], is_empty, ◌∙◌, suc, inl, ap, inr, length-append, some, err, ◌-◌, ◌≢◌, refl,
  Outcome-cases, ok_is, err_is, sym, stuck_is,
}
use go_replayer.Replay.Reader.{
  Request, encode_records, Parsed, encode_record, u32_bytes, read_u32-u32_bytes, read_u32, Read,
  Read-cases, failed, got, eof, unexpected_eof,
}
use go_replayer.Replay.Load.{
  LoadError, Loaded, load_record, load_loop, keep_valid, validate_loaded_request, max_method_len,
  max_payload_len, max_total_replay_bytes, per_record_overhead, load_requests, nothing_loaded,
}

-- A record that the layout can hold and loadRequests does not refuse.
pub record IsWritable (r : Request) : Type 0 where
  pub method_given : 0 < length r.method
  pub method_short : length r.method ≤ max_method_len
  pub payload_short : length r.payload ≤ max_payload_len

-- A round on reads that succeed within the bounds.
pub load_record-Parsed :
    (n : ℕ) (bs : List ℕ) (st : Loaded) (r : Request) (rest : List ℕ) (p : Parsed n bs r rest)
    → 0 < n
    → n ≤ max_method_len
    → p.payload_len ≤ max_payload_len
    → st.total_bytes + n + p.payload_len + per_record_overhead ≤ max_total_replay_bytes
    → load_record n bs st
      ≡ ok (keep_valid st r (st.total_bytes + n + p.payload_len + per_record_overhead), rest)
unfolding load_record
load_record-Parsed n bs st r rest p h1 h2 h3 h4 =
    ground (arith, p.method_read, p.length_read, p.payload_read)

-- The state behind the records `rs`.
abbrev pub skips : Request → ℕ
skips r = if validate_loaded_request r then 0 else 1

unfoldable pub after_records : List Request → Loaded → Loaded
after_records rs st = record {
  reqs = st.reqs ++ keep validate_loaded_request rs;
  total_bytes = st.total_bytes + sum_of weight rs;
  skipped_invalid = st.skipped_invalid + sum_of skips rs;
}

keep_valid-after_records :
    (r : Request) (rs : List Request) (st : Loaded) (total : ℕ)
    → total ≡ st.total_bytes + weight r
    → after_records rs (keep_valid st r total) ≡ after_records (r ∷ rs) st
unfolding keep_valid after_records
keep_valid-after_records r rs st total e = elim (Bool-cases (is_empty r.payload)) [
  | inl none_given ↦ rw (none_given, validate_loaded_request) (ground arith)
  | inr given ↦
      rw (given, validate_loaded_request)
        (ground (arith, append_assoc st.reqs (r ∷ []) (keep validate_loaded_request rs)))
]

keep_valid-total :
    (st : Loaded) (r : Request) (total : ℕ) → (keep_valid st r total).total_bytes ≡ total
unfolding keep_valid
keep_valid-total st r total = ground arith

after_records-nil : (st : Loaded) → after_records [] st ≡ st
unfolding after_records
after_records-nil st = ground (arith, append-nil st.reqs)

after_records-start :
    (rs : List Request)
    → after_records rs nothing_loaded ≡ record {
      reqs = keep validate_loaded_request rs;
      total_bytes = sum_of weight rs;
      skipped_invalid = sum_of skips rs;
    }
unfolding after_records
after_records-start rs = ground arith

load_loop-encode_record :
    (r : Request) (fuel : ℕ) (tail : List ℕ) (st : Loaded)
    → IsWritable r
    → st.total_bytes + weight r ≤ max_total_replay_bytes
    → load_loop (suc fuel) (encode_record r ++ tail) st
      ≡ load_loop fuel tail (
          keep_valid st r
            (st.total_bytes + length r.method + length r.payload + per_record_overhead))
unfolding encode_record Parsed-body
load_loop-encode_record r fuel tail st w h =
    load_loop-got fuel _ st (length r.method) (body r ++ tail) (
      rw (append_assoc (u32_bytes (length r.method)) (body r) tail)
        (read_u32-u32_bytes (length r.method) (body r ++ tail) (omega arith)))
    ∙ rw (
        load_record-Parsed (length r.method) (body r ++ tail) st r tail
          (Parsed-body r tail w.payload_short) w.method_given w.method_short w.payload_short
          (omega arith))

pub load_loop-encode_records :
    (rs : List Request) (fuel : ℕ) (tail : List ℕ) (st : Loaded)
    → All IsWritable rs
    → st.total_bytes + sum_of weight rs ≤ max_total_replay_bytes
    → load_loop (length rs + fuel) (encode_records rs ++ tail) st
      ≡ load_loop fuel tail (after_records rs st)
unfolding encode_records
load_loop-encode_records [] fuel tail st w h = rw (after_records-nil st, add.zero fuel)
load_loop-encode_records (r ∷ rs) fuel tail st w h =
    let total = st.total_bytes + length r.method + length r.payload + per_record_overhead in
    let st' = keep_valid st r total in
    rw (append_assoc (encode_record r) (encode_records rs) tail, add.suc (length rs) fuel)
      (load_loop-encode_record r (length rs + fuel) (encode_records rs ++ tail) st w.0 (omega arith)
        ∙ load_loop-encode_records rs fuel tail st' w.1 (omega (arith, keep_valid-total st r total))
        ∙ ap (load_loop fuel tail) (keep_valid-after_records r rs st total (omega arith)))

encode_records-longer : (rs : List Request) → length rs ≤ length (encode_records rs)
unfolding encode_records encode_record
encode_records-longer [] = omega arith
encode_records-longer (r ∷ rs) =
    omega (arith, length-append (encode_record r) (encode_records rs), encode_records-longer rs)

-- loadRequests reads back a file in the documented layout: given records with a method of 1 byte to
-- 64 KiB, payloads of at most 256 MiB and a total weight of at most 8 GiB, it returns the records
-- with a non-empty payload, in order, counts the others as skipped, and accounts for the weight of all.
pub load_requests-encode_records :
    (rs : List Request)
    → All IsWritable rs
    → sum_of weight rs ≤ max_total_replay_bytes
    → load_requests (some (encode_records rs))
      ≡ ok (record {
        reqs = keep validate_loaded_request rs;
        total_bytes = sum_of weight rs;
        skipped_invalid = sum_of skips rs;
      })
unfolding load_requests read_u32
load_requests-encode_records rs w h =
    let k = length (encode_records rs) - length rs in
    let fuel : length (encode_records rs) + 1 ≡ length rs + suc k =
      omega (arith, encode_records-longer rs) in
    let whole = load_loop-encode_records rs (suc k) [] nothing_loaded w (omega arith) in
    rw fuel (
      rw (append-nil (encode_records rs)) at whole
      ∙ load_loop-eof k [] _ refl
      ∙ ap ok (after_records-start rs))

-- What `Parsed` says, of the value of the read of the method's length.
abbrev ParsedAt : Read ℕ → Request → Type 0
ParsedAt (failed e) r = ⊥
ParsedAt (got n bs) r = Parsed n bs r []

-- A round on a front part of a record does not succeed.
front_refused :
    (r : Request) (front : List ℕ) (x : ℕ) (back : List ℕ) (n : ℕ) (rest : List ℕ) (st st' : Loaded)
    (rest' : List ℕ)
    → IsWritable r
    → encode_record r ≡ front ++ (x ∷ back)
    → read_u32 front ≡ got n rest
    → load_record n rest st ≢ ok (st', rest')
unfolding encode_record
front_refused r front x back n rest st st' rest' w split read taken =
    let t = load_record-Taken n rest st st' rest' taken in
    let more = Parsed-append n rest t.request rest' (x ∷ back) t.parsed in
    let longer = read_u32-append front (x ∷ back) n rest read in
    let whole = read_u32-u32_bytes (length r.method) (body r) (omega (arith, w.method_short)) in
    let same : got n (rest ++ (x ∷ back)) ≡ got (length r.method) (body r) =
      sym longer ∙ ap read_u32 (sym split) ∙ whole in
    let parsed : Parsed n (rest ++ (x ∷ back)) r [] =
      subst (λ (g : Read ℕ). ParsedAt g r) (sym same)
        (rw (append-nil (body r)) at (Parsed-body r [] w.payload_short)) in
    let ended = Parsed_unique n _ t.request r _ [] more parsed in
    absurd (omega (arith, ap length ended, length-append rest' (x ∷ back)))

front_errs :
    (r : Request) (front : List ℕ) (x : ℕ) (back : List ℕ) (k : ℕ) (st : Loaded)
    → IsWritable r
    → encode_record r ≡ front ++ (x ∷ back)
    → 0 < length front
    → (e : LoadError) × (load_loop (suc k) front st ≡ err e)
front_errs r front x back k st w split nonempty = elim (Read-cases (read_u32 front)) [
  | inl (eof, read) ↦ absurd (omega (arith, read_u32-eof front read))
  | inl (unexpected_eof, read) ↦ (_, load_loop-unexpected k front st read)
  | inr (n, rest, read) ↦ elim (Outcome-cases (load_record n rest st)) [
    | ok_is (st', rest') e ↦
        absurd (front_refused r front x back n rest st st' rest' w split read e)
    | err_is e e' ↦ (e, load_loop-got k front st n rest read ∙ rw e')
    | stuck_is e ↦ absurd (load_record-ne-stuck n rest st e)
  ]
]

-- A file that ends inside a record is refused: loadRequests returns an error on any file of whole
-- records followed by a proper, non-empty front part of one more.
pub load_requests_truncated :
    (rs : List Request) (r : Request) (front : List ℕ) (x : ℕ) (back : List ℕ)
    → All IsWritable rs
    → IsWritable r
    → sum_of weight rs ≤ max_total_replay_bytes
    → encode_record r ≡ front ++ (x ∷ back)
    → 0 < length front
    → (e : LoadError) × (load_requests (some (encode_records rs ++ front)) ≡ err e)
unfolding load_requests
load_requests_truncated rs r front x back ws w h split nonempty =
    let file = encode_records rs ++ front in
    let k = length file - length rs in
    let fuel : length file + 1 ≡ length rs + suc k =
      omega (arith, length-append (encode_records rs) front, encode_records-longer rs) in
    let whole = load_loop-encode_records rs (suc k) front nothing_loaded ws (omega arith) in
    let (e, refused) =
      front_errs r front x back k (after_records rs nothing_loaded) w split nonempty in
    (e, rw fuel (whole ∙ refused))
