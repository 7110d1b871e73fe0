-- ===== src/Parity/Replies.antt =====
-- The requests and the replies of the goroutines of main in cmd/grpc-parity-check/main.go, as their
-- steps change them.
use Prim.Native.Nat.{zero}
use go_replayer.Parity.Concurrent.{count_comm}
use go_replayer.Parity.Acceptance.{classify_lem}
use go_replayer.Replay.Reader.{Request}
use go_replayer.Machine.{Machine}
use go_replayer.Parity.System.{
  Call, Stage, calling, acquiring, both_replied, draining_slots, parity_request, scored, looping,
  sampled, concluded, ended,
}
use go_replayer.Prelude.{
  List, ◌∷◌, ℕ, map, ◌++◌, ◌≡◌, [], get_elem?, ap, some, suc, ◌+◌, set, ◌∙◌, refl, arith, sym, true,
  none, zero,
}
use mathlib.Core.Path.{subst}
use mathlib.Core.List.{append_assoc}
use mathlib.Core.Option
use native.Mathlib.Numerals.{add-one}
use go_replayer.Parity.Verdict.{Reply, count, Totals, Class, classify, count_all}

-- The request of a goroutine.
abbrev pub request_of : Call → Request
request_of (calling r) = r
request_of (both_replied r a b) = r
request_of (scored r a b) = r
request_of (sampled r a b) = r
request_of (ended r a b) = r

-- The replies that are in the totals.
abbrev pub reply_of : Call → List (Reply × Reply)
reply_of (calling r) = []
reply_of (both_replied r a b) = []
reply_of (scored r a b) = (a, b) ∷ []
reply_of (sampled r a b) = (a, b) ∷ []
reply_of (ended r a b) = (a, b) ∷ []

abbrev pub replies_of : List Call → List (Reply × Reply)
replies_of [] = []
replies_of (g ∷ gs) = reply_of g ++ replies_of gs

-- The request that waits for a slot.
abbrev pub waiting_request : Stage → List Request
waiting_request looping = []
waiting_request (acquiring r) = r ∷ []
waiting_request (draining_slots k) = []
waiting_request concluded = []

abbrev pub HasLeft : Stage → Type 0
HasLeft looping = ⊥
HasLeft (acquiring r) = ⊥
HasLeft (draining_slots k) = Unit
HasLeft concluded = Unit

-- The first `n` requests that the loop takes.
unfoldable pub requests_upto : List Request → ℕ → List Request
requests_upto reqs zero = []
requests_upto reqs (suc n) = elim (parity_request reqs n) [
  | none ↦ requests_upto reqs n
  | some r ↦ requests_upto reqs n ++ r ∷ []
]

pub requests_upto_step :
    (reqs : List Request) (n : ℕ) (r : Request)
    → parity_request reqs n ≡ some r
    → requests_upto reqs (n + 1) ≡ requests_upto reqs n ++ r ∷ []
unfolding requests_upto
requests_upto_step reqs n r e = ap (requests_upto reqs) (add-one n) ∙ rw (e, requests_upto) refl

pub map-set {ℓ κ} :
    {A : Type ℓ} {B : Type κ} (f : A → B) (xs : List A) (i : ℕ) (old new : A)
    → get_elem? xs i ≡ some old
    → f old ≡ f new
    → map f (set xs i new) ≡ map f xs
map-set f [] i old new e h = refl
map-set f (x ∷ xs) zero old new e h = let same : x ≡ old = ground arith in rw (same, h) refl
map-set f (x ∷ xs) (suc i) old new e h = ap (◌∷◌ (f x)) (map-set f xs i old new e h)

pub map-append {ℓ κ} :
    {A : Type ℓ} {B : Type κ} (f : A → B) (xs ys : List A) → map f (xs ++ ys) ≡ map f xs ++ map f ys
map-append f [] ys = refl
map-append f (x ∷ xs) ys = ap (◌∷◌ (f x)) (map-append f xs ys)

pub replies_of-set :
    (xs : List Call) (i : ℕ) (old new : Call)
    → get_elem? xs i ≡ some old
    → reply_of old ≡ reply_of new
    → replies_of (set xs i new) ≡ replies_of xs
replies_of-set [] i old new e h = refl
replies_of-set (x ∷ xs) zero old new e h = let same : x ≡ old = ground arith in rw (same, h) refl
replies_of-set (x ∷ xs) (suc i) old new e h =
    ap (λ (ps : List (Reply × Reply)). reply_of x ++ ps) (replies_of-set xs i old new e h)

pub replies_of-append : (xs ys : List Call) → replies_of (xs ++ ys) ≡ replies_of xs ++ replies_of ys
replies_of-append [] ys = refl
replies_of-append (x ∷ xs) ys =
    ap (λ (ps : List (Reply × Reply)). reply_of x ++ ps) (replies_of-append xs ys)
    ∙ sym (append_assoc (reply_of x) (replies_of xs) (replies_of ys))

module _ ⦃m : Machine⦄ where
  open m use {Float, Rng}

  -- A pair that is counted first could be counted last.
  count_all-count :
      (tolerance : Float) (t : Totals) (k : Class) (rs : List (Reply × Reply)) (u : Totals)
      → count_all tolerance t rs ≡ some u
      → count_all tolerance (count t k) rs ≡ some (count u k)
  unfolding count_all Option.bind
  count_all-count tolerance t k [] u h = ap (Option.map (λ v. count v k)) h
  count_all-count tolerance t k (p ∷ rs) u h =
      let (d, found, fine) = classify_lem true tolerance p.0 p.1 in
      let tail : count_all tolerance (count t d) rs ≡ some u = ground arith in
      rw (found, count_comm t k d) (count_all-count tolerance (count t d) k rs u tail)

  -- What holds behind a list of pairs holds with it.
  count_all-after :
      (tolerance : Float) (k : Class) (ps qs qs' : List (Reply × Reply)) (t u : Totals)
      → ((v w : Totals)
          → count_all tolerance v qs ≡ some w
          → count_all tolerance v qs' ≡ some (count w k))
      → count_all tolerance t (ps ++ qs) ≡ some u
      → count_all tolerance t (ps ++ qs') ≡ some (count u k)
  unfolding count_all Option.bind
  count_all-after tolerance k [] qs qs' t u step h = step t u h
  count_all-after tolerance k (p ∷ ps) qs qs' t u step h =
      let (d, found, fine) = classify_lem true tolerance p.0 p.1 in
      let rest : count_all tolerance (count t d) (ps ++ qs) ≡ some u = ground arith in
      rw found (count_all-after tolerance k ps qs qs' (count t d) u step rest)

  pub count_all-scored :
      (tolerance : Float) (t : Totals) (xs : List Call) (i : ℕ) (r : Request) (a b : Reply)
      (k : Class) (u : Totals)
      → get_elem? xs i ≡ some (both_replied r a b)
      → classify tolerance a b ≡ some k
      → count_all tolerance t (replies_of xs) ≡ some u
      → count_all tolerance t (replies_of (set xs i (scored r a b))) ≡ some (count u k)
  unfolding count_all Option.bind
  count_all-scored tolerance t [] i r a b k u e f h = cc
  count_all-scored tolerance t (x ∷ xs) zero r a b k u e f h =
      let same : x ≡ both_replied r a b = ground arith in
      let tail : count_all tolerance t (replies_of xs) ≡ some u =
        subst (λ y. count_all tolerance t (reply_of y ++ replies_of xs) ≡ some u) same h in
      rw f (count_all-count tolerance t k (replies_of xs) u tail)
  count_all-scored tolerance t (x ∷ xs) (suc i) r a b k u e f h =
      count_all-after tolerance k (reply_of x) (replies_of xs) _ t u
        (λ v w q. count_all-scored tolerance v xs i r a b k w e f q) h
