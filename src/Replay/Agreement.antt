-- ===== src/Replay/Agreement.antt =====
-- The parity checker's loadRequests against main.go's.
use go_replayer.Replay.RoundTrip.{load_record-Parsed}
use mathlib.Core.Path.{subst}
use go_replayer.Replay.LoadBounds.{load_loop-eof, load_loop-got}
use mathlib.Core.List.{append-nil}
use Prim.Native.Nat.{zero}
use go_replayer.Replay.Reader.{
  Request, Parsed, Read-cases, read_full, read_u32, eof, unexpected_eof,
}
use go_replayer.Prelude.{
  ℕ, ◌≡◌, Bool, Option, List, keep, ok, ◌++◌, ◌<◌, ◌∷◌, suc, some, ◌≤◌, arith, [], zero, none, inl,
  Bool-cases, refl, inr, is_empty, ◌+◌, sym, true, false, ok-injective, Outcome, >>=-eq-ok, ap, err,
  length, ◌∙◌,
}
use go_replayer.Replay.Load.{
  Loaded, load_loop, load_requests, keep_valid, validate_loaded_request, max_payload_len,
  per_record_overhead, max_total_replay_bytes, nothing_loaded, reading_method_length,
}
use go_replayer.Replay.ParityLoad.{
  ParityLoadError, ParityLoaded, parity_load_record, parity_load_loop, parity_load_requests,
  parity_max_method_len, no_requests, reading_method_length,
}

-- What is known of a record that a round of the parity checker's loop takes.
record ParityTaken (n : ℕ) (bs : List ℕ) (st st' : ParityLoaded) (rest : List ℕ) : Type 0 where
  request : Request
  parsed : Parsed n bs request rest
  method_given : 0 < n
  method_short : n ≤ parity_max_method_len
  payload_short : parsed.payload_len ≤ max_payload_len
  capped : st.total_bytes + n + parsed.payload_len + per_record_overhead ≤ max_total_replay_bytes
  kept : st'.reqs ≡ st.reqs ++ request ∷ []
  counted : st'.total_bytes ≡ st.total_bytes + n + parsed.payload_len + per_record_overhead

parity_load_record-Taken :
    (n : ℕ) (bs : List ℕ) (st st' : ParityLoaded) (rest : List ℕ)
    → parity_load_record n bs st ≡ ok (st', rest)
    → ParityTaken n bs st st' rest
unfolding parity_load_record
parity_load_record-Taken n bs st st' rest e = elim (Read-cases (read_full n bs)) [
  | inl (x, e1) ↦ absurd (ground arith)
  | inr (method, bs1, e1) ↦ elim (Read-cases (read_u32 bs1)) [
    | inl (x, e2) ↦ absurd (ground arith)
    | inr (p, bs2, e2) ↦ elim (Read-cases (read_full p bs2)) [
      | inl (x, e3) ↦ absurd (ground arith)
      | inr (payload, bs3, e3) ↦ record {
        request = record { method = method; payload = payload };
        parsed = record {
          after_method = bs1;
          payload_len = p;
          after_length = bs2;
          method_read = e1;
          length_read = e2;
          payload_read = ground arith;
        };
        method_given = ground arith;
        method_short = ground arith;
        payload_short = ground arith;
        capped = ground arith;
        kept = ground arith;
        counted = ground arith;
      }
    ]
  ]
]

-- The sender's state that goes with the parity checker's: the same account, and the requests whose
-- payload is not empty.
record Agree (st : Loaded) (ps : ParityLoaded) : Type 0 where
  same_total : st.total_bytes ≡ ps.total_bytes
  same_reqs : st.reqs ≡ keep validate_loaded_request ps.reqs

keep-append {ℓ} :
    {A : Type ℓ} (p : A → Bool) (xs ys : List A) → keep p (xs ++ ys) ≡ keep p xs ++ keep p ys
keep-append p [] ys = refl
keep-append p (x ∷ xs) ys = ground (arith, keep-append p xs ys)

no_keep : (r : Request) → is_empty r.payload ≡ true → keep validate_loaded_request (r ∷ []) ≡ []
unfolding validate_loaded_request
no_keep r e = rw (e, keep, validate_loaded_request)

keeps : (r : Request) → is_empty r.payload ≡ false → keep validate_loaded_request (r ∷ []) ≡ r ∷ []
unfolding validate_loaded_request
keeps r e = rw (e, keep, validate_loaded_request)

keep_valid-Agree :
    (st : Loaded) (ps : ParityLoaded) (r : Request) (total : ℕ) (ps' : ParityLoaded)
    → Agree st ps
    → ps'.reqs ≡ ps.reqs ++ r ∷ []
    → ps'.total_bytes ≡ total
    → Agree (keep_valid st r total) ps'
unfolding keep_valid
keep_valid-Agree st ps r total ps' a kept counted = elim (Bool-cases (is_empty r.payload)) [
  | inl none_given ↦
      rw (none_given, validate_loaded_request)
        (record {
          same_total = sym counted;
          same_reqs =
              rw (kept, keep-append validate_loaded_request ps.reqs (r ∷ []), no_keep r none_given)
                (rw append-nil a.same_reqs);
        })
  | inr given ↦
      rw (given, validate_loaded_request)
        (record {
          same_total = sym counted;
          same_reqs =
              rw (kept, keep-append validate_loaded_request ps.reqs (r ∷ []), keeps r given)
                (ap (λ l. l ++ r ∷ []) a.same_reqs);
        })
]

parity_load_loop-Agree :
    (fuel : ℕ) (bs : List ℕ) (ps ps' : ParityLoaded) (st : Loaded)
    → parity_load_loop fuel bs ps ≡ ok ps'
    → Agree st ps
    → (st' : Loaded) × (load_loop fuel bs st ≡ ok st') × Agree st' ps'
unfolding parity_load_loop
parity_load_loop-Agree zero bs ps ps' st e a = cc
parity_load_loop-Agree (suc fuel) bs ps ps' st e a = elim (Read-cases (read_u32 bs)) [
  | inl (eof, r) ↦
      let done : ps ≡ ps' = ok-injective (rw (r, parity_load_loop) at e) in
      (st, load_loop-eof fuel bs st r, subst (Agree st) done a)
  | inl (unexpected_eof, r) ↦
      let failed : err (reading_method_length (length ps.reqs) unexpected_eof) ≡ ok ps' =
        rw (r, parity_load_loop) at e in
      cc
  | inr (n, rest, r) ↦
      let ((ps1, rest1), taken, more) =
        >>=-eq-ok (parity_load_record n rest ps) _ (rw (r, parity_load_loop) at e) in
      let t = parity_load_record-Taken n rest ps ps1 rest1 taken in
      let total = st.total_bytes + n + t.parsed.payload_len + per_record_overhead in
      let sender =
        load_record-Parsed n rest st t.request rest1 t.parsed t.method_given
          (omega (arith, t.method_short)) t.payload_short (omega (arith, t.capped, a.same_total)) in
      let agree =
        keep_valid-Agree st ps t.request total ps1 a t.kept
          (omega (arith, t.counted, a.same_total)) in
      let (st', loaded, agree') =
        parity_load_loop-Agree fuel rest1 ps1 ps' (keep_valid st t.request total) more agree in
      (st', load_loop-got fuel bs st n rest r ∙ rw sender loaded, agree')
]

some_reqs :
    (ps : ParityLoaded) (rs : List Request)
    → elim ps.reqs as (λ _. Outcome ParityLoadError (List Request)) [
      | [] ↦ err no_requests
      | _ ∷ _ ↦ ok ps.reqs
    ]
      ≡ ok rs
    → ps.reqs ≡ rs
some_reqs ps rs e = ground arith

-- A file that the parity checker accepts is accepted by the sender, which keeps exactly the parity
-- checker's requests with a non-empty payload, in the same order.
pub load_requests-parity :
    (file : Option (List ℕ)) (rs : List Request)
    → parity_load_requests file ≡ ok rs
    → (st : Loaded) × (load_requests file ≡ ok st) × (st.reqs ≡ keep validate_loaded_request rs)
unfolding parity_load_requests load_requests
load_requests-parity none rs e = cc
load_requests-parity (some bs) rs e =
    let start : ParityLoaded = record { reqs = []; total_bytes = 0 } in
    let (ps, loaded, given) = >>=-eq-ok (parity_load_loop (length bs + 1) bs start) _ e in
    let (st, sender, agree) =
      parity_load_loop-Agree (length bs + 1) bs start ps nothing_loaded loaded
        (record { same_total = refl; same_reqs = refl }) in
    (st, sender, rw (← some_reqs ps rs given) agree.same_reqs)
