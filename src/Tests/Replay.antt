-- ===== src/Tests/Replay.antt =====
-- Replay files of two and three records.
use go_replayer.Replay.Takeover.{
  TakeoverArtifacts, resolve_takeover_artifacts, resolve_takeover_install_root, choose_path,
  Resolved, choose_ca, resolve_takeover_artifacts-Resolved, first_existing,
}
use go_replayer.Prelude.{
  List, [], ◌∷◌, ◌++◌, ◌≡◌, refl, some, ok, err, ◌≢◌, stuck, sum_of, arith, codes, keep, Option, ℕ,
  Text, Bool, true, ◌||◌, false, ◌==◌, ◌&&◌,
}
use go_replayer.Replay.Reader.{Request, encode_record, encode_records, read_full, read_u32}
use go_replayer.Replay.Load.{
  Loaded, LoadError, load_requests, validate_loaded_request, load_loop, load_record, keep_valid,
}
use go_replayer.Replay.LoadBounds.{
  IsBounded, weight, load_requests-IsBounded, load_requests-ne-stuck,
}
use go_replayer.Replay.ParityLoad.{parity_load_requests, parity_load_loop, parity_load_record}
use go_replayer.Replay.Agreement.{load_requests-parity}
use go_replayer.Replay.RoundTrip.{
  IsWritable, skips, load_requests-encode_records, load_requests_truncated,
}

-- A request, one whose payload is empty, and another request.
abbrev score : Request
score = record { method = codes "/a.S/Score"; payload = 8 ∷ 1 ∷ 255 ∷ [] }

abbrev blank : Request
blank = record { method = codes "/a.S/Blank"; payload = [] }

abbrev rank : Request
rank = record { method = codes "/a.S/Rank"; payload = 10 ∷ [] }

abbrev requests : List Request
requests = score ∷ blank ∷ rank ∷ []

abbrev file : Option (List ℕ)
unfolding encode_records encode_record
file = some (encode_records requests)

abbrev loaded : Loaded
loaded = record { reqs = score ∷ rank ∷ []; total_bytes = 225; skipped_invalid = 1 }

score-IsWritable : IsWritable score
score-IsWritable = record {
  method_given = omega arith;
  method_short = omega arith;
  payload_short = omega arith;
}

blank-IsWritable : IsWritable blank
blank-IsWritable = record {
  method_given = omega arith;
  method_short = omega arith;
  payload_short = omega arith;
}

rank-IsWritable : IsWritable rank
rank-IsWritable = record {
  method_given = omega arith;
  method_short = omega arith;
  payload_short = omega arith;
}

file_loads : load_requests file ≡ ok loaded
unfolding load_requests load_loop load_record read_full read_u32 encode_records encode_record
    keep_valid validate_loaded_request
file_loads = refl

file_parity_loads : parity_load_requests file ≡ ok requests
unfolding parity_load_requests parity_load_loop parity_load_record read_full read_u32 encode_records
    encode_record
file_parity_loads = refl

load_requests-encode_records_example :
    load_requests (some (encode_records requests))
    ≡ ok (record {
      reqs = keep validate_loaded_request requests;
      total_bytes = sum_of weight requests;
      skipped_invalid = sum_of skips requests;
    })
load_requests-encode_records_example =
    load_requests-encode_records requests
      (score-IsWritable, (blank-IsWritable, (rank-IsWritable, tt))) (omega arith)

load_requests_truncated_example :
    (e : LoadError) × (load_requests (some (encode_records (blank ∷ []) ++ (0 ∷ 0 ∷ []))) ≡ err e)
unfolding encode_record
load_requests_truncated_example =
    load_requests_truncated (blank ∷ []) rank (0 ∷ 0 ∷ []) 0 _ (blank-IsWritable, tt)
      rank-IsWritable (omega arith) refl (omega arith)

load_requests-IsBounded_example : IsBounded loaded
load_requests-IsBounded_example = load_requests-IsBounded file loaded file_loads

load_requests-ne-stuck_example : load_requests file ≢ stuck
load_requests-ne-stuck_example = load_requests-ne-stuck file

load_requests-parity_example :
    (st : Loaded) × (load_requests file ≡ ok st) × (st.reqs ≡ keep validate_loaded_request requests)
load_requests-parity_example = load_requests-parity file requests file_parity_loads

-- A host with a recording, a certificate and a key under the install root, and no CA file.
abbrev slash : Text → Text → Text
slash a b = a ++ 47 ∷ b

abbrev same_text : Text → Text → Bool
same_text [] [] = true
same_text [] (b ∷ bs) = false
same_text (a ∷ xs) [] = false
same_text (a ∷ xs) (b ∷ ys) = (a == b) && same_text xs ys

abbrev on_host : Text → Bool
on_host p =
    same_text p (codes "/i")
    || same_text p (codes "/i/recorded_requests.bin")
    || same_text p (codes "/i/var/identity.cert")
    || same_text p (codes "/other/key")

abbrev artifacts : TakeoverArtifacts
artifacts = record {
  install_root = codes "/i";
  replay_file = codes "/i/recorded_requests.bin";
  cert_file = codes "/i/var/identity.cert";
  key_file = codes "/other/key";
  ca_file = [];
}

host_resolves :
    resolve_takeover_artifacts slash (codes "/i") [] [] (codes "/other/key") [] on_host
    ≡ ok artifacts
unfolding resolve_takeover_artifacts choose_path choose_ca first_existing
host_resolves = refl

root_resolves : resolve_takeover_install_root (codes "/i") on_host ≡ ok (codes "/i")
unfolding resolve_takeover_install_root
root_resolves = refl

resolve_takeover_artifacts-Resolved_example :
    Resolved slash (codes "/i") [] [] (codes "/other/key") [] on_host artifacts
resolve_takeover_artifacts-Resolved_example =
    resolve_takeover_artifacts-Resolved slash (codes "/i") [] [] (codes "/other/key") [] on_host
      artifacts host_resolves
