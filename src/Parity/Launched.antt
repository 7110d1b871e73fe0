-- ===== src/Parity/Launched.antt =====
-- What a run of cmd/grpc-parity-check/main.go starts with.
use go_replayer.Config.Dialled.{or_refuse-ok}
use mathlib.Core.List.{append-nil}
use Prim.Native.Nat.{zero}
use mathlib.Core.Path.{subst}
use go_replayer.Config.Dial.{Trust, DialOption, parity_dial_options}
use go_replayer.Machine.{Machine}
use go_replayer.Replay.Reader.{Request}
use go_replayer.Parity.Launch.{
  limit_requests, LaunchError, or_abort, ParityFlags, Launched, launch, parity_dial, demand, usage,
  parity_qps_not_positive,
}
use go_replayer.Prelude.Int.{ℤ, is_positive, pos_part, Time}
use go_replayer.Replay.ParityLoad.{parity_load_requests, ParityLoadError, parity_load_loop}
use go_replayer.Prelude.{
  Outcome, Option, List, ℕ, ◌≡◌, ◌<◌, ok, length, err, some, ◌++◌, stuck, false, [], ◌⊎◌, ◌≤◌,
  >>=-eq-ok, true, take, Bool-cases, arith, drop, ◌&&◌, none, suc, ltb, Text, ◌∷◌, inl, ap,
  length-take, ok-injective, inr, zero, refl, ◌∙◌, sym, not, is_empty, ◌||◌, ◌+◌,
}

or_abort-ok :
    {E A : Type 0} (o : Outcome E A) (wrap : E → LaunchError) {a : A}
    → or_abort o wrap ≡ ok a
    → o ≡ ok a
or_abort-ok (ok b) wrap h = cc
or_abort-ok (err e) wrap h = cc
or_abort-ok stuck wrap h = cc

given :
    (xs ys reqs : List Request)
    → xs ≡ ys
    → ◌≡◌ {A = Outcome ParityLoadError (List Request)}
        (elim xs [ [] ↦ err ParityLoadError.no_requests | _ ∷ _ ↦ ok ys ])
        (ok reqs)
    → 0 < length reqs
given [] ys reqs e h = cc
given (x ∷ xs) ys reqs e h =
    subst (λ (rs : List Request). 0 < length rs) (e ∙ ok-injective h) (omega arith)

parity_load_requests-given :
    (file : Option (List ℕ)) (reqs : List Request)
    → parity_load_requests file ≡ ok reqs
    → 0 < length reqs
unfolding parity_load_requests
parity_load_requests-given none reqs h = cc
parity_load_requests-given (some bs) reqs h =
    let (st, run, h1) =
      >>=-eq-ok (parity_load_loop (length bs + 1) bs (record { reqs = []; total_bytes = 0 })) _ h in
    given st.reqs st.reqs reqs refl h1

-- The requests of a run, out of those of the file.
pub record IsLimited (num_requests : ℤ) (loaded reqs : List Request) : Type 0 where
  pub some_left : 0 < length reqs
  pub behind : List Request
  pub first_ones : reqs ++ behind ≡ loaded
  pub bounded : (is_positive num_requests ≡ false) ⊎ (length reqs ≤ pos_part num_requests)
  pub all_or_bound : (reqs ≡ loaded) ⊎ (length reqs ≡ pos_part num_requests)

positive : (n : ℤ) → is_positive n ≡ true → 0 < pos_part n
positive n h = ground arith

take-drop {ℓ} : {A : Type ℓ} (n : ℕ) (xs : List A) → take n xs ++ drop n xs ≡ xs
take-drop zero xs = refl
take-drop (suc n) [] = refl
take-drop (suc n) (x ∷ xs) = ap (◌∷◌ x) (take-drop n xs)

limit_requests-IsLimited :
    (n : ℤ) (loaded : List Request)
    → 0 < length loaded
    → IsLimited n loaded (limit_requests n loaded)
unfolding limit_requests
limit_requests-IsLimited n loaded h =
    elim (Bool-cases (is_positive n && ltb (pos_part n) (length loaded))) [
      | inl cut ↦
          let few : pos_part n < length loaded = ground arith in
          let some_asked : 0 < pos_part n = positive n (ground arith) in
          rw cut (record {
            some_left = omega (arith, length-take (pos_part n) loaded);
            behind = drop (pos_part n) loaded;
            first_ones = take-drop (pos_part n) loaded;
            bounded = inr (omega (arith, length-take (pos_part n) loaded));
            all_or_bound = inr (omega (arith, length-take (pos_part n) loaded));
          })
      | inr all ↦ rw all (record {
        some_left = h;
        behind = [];
        first_ones = append-nil loaded;
        bounded = ground arith;
        all_or_bound = inl refl;
      })
    ]

module _ ⦃m : Machine⦄ ⦃trust : Trust⦄ where
  open m use {Float}

  -- A run that starts, with the options of its clients and the requests of its file.
  pub record IsLaunched {Conn : Type 0} (open_file : Text → Option (List ℕ))
      (new_client : Text → List DialOption → Option Conn) (f : ParityFlags) (p : Launched Conn)
      : Type 0 where
    pub loaded : List Request
    pub read : parity_load_requests (open_file f.file) ≡ ok loaded
    pub limited : IsLimited f.num_requests loaded p.check.reqs
    pub options : List DialOption
    pub built : parity_dial_options f.use_tls f.insecure f.cert f.key ≡ ok options
    pub dialled_a : new_client f.target_a options ≡ some p.conn_a
    pub dialled_b : new_client f.target_b options ≡ some p.conn_b

  -- A run of the parity checker that starts has two clients of the same options, and at least one
  -- request: those of the file in their order, all of them or the first ones, as many as --n asks for.
  pub launch-IsLaunched :
      {Conn : Type 0} (open_file : Text → Option (List ℕ))
      (new_client : Text → List DialOption → Option Conn) (start : Time) (tolerance : Float)
      (f : ParityFlags) (p : Launched Conn)
      → launch open_file new_client start tolerance f ≡ ok p
      → IsLaunched open_file new_client f p
  unfolding launch parity_dial
  launch-IsLaunched open_file new_client start tolerance f p h =
      let (u, named, h1) =
        >>=-eq-ok
          (demand (not (is_empty f.file || is_empty f.target_a || is_empty f.target_b)) usage) _
          h in
      let (u', rate, h2) = >>=-eq-ok (demand (is_positive f.qps) parity_qps_not_positive) _ h1 in
      let (loaded, read, h3) = >>=-eq-ok _ _ h2 in
      let (conn_a, dialled_a, h4) = >>=-eq-ok _ _ h3 in
      let (conn_b, dialled_b, h5) = >>=-eq-ok _ _ h4 in
      let was_read = or_abort-ok _ _ read in
      let (opts, built, one) = >>=-eq-ok _ _ (or_abort-ok _ _ dialled_a) in
      let (opts', built', other) = >>=-eq-ok _ _ (or_abort-ok _ _ dialled_b) in
      let same : opts' ≡ opts = ok-injective (sym built' ∙ built) in
      subst (IsLaunched open_file new_client f) (ok-injective h5) (record {
        loaded = loaded;
        read = was_read;
        limited =
            limit_requests-IsLimited f.num_requests loaded
              (parity_load_requests-given _ loaded was_read);
        options = opts;
        built = built;
        dialled_a = or_refuse-ok _ _ one;
        dialled_b = ap (new_client f.target_b) (sym same) ∙ or_refuse-ok _ _ other;
      })
