-- ===== src/Parity/Requests.antt =====
-- The requests that the loop of main in cmd/grpc-parity-check/main.go takes.
use go_replayer.Parity.Replies.{requests_upto}
use Prim.Native.Nat.{zero}
use go_replayer.Replay.Dispatch.{get_elem?-lt, round_robin_request_lem}
use go_replayer.Parity.System.{parity_request}
use go_replayer.Replay.Reader.{Request}
use go_replayer.Prelude.{
  List, ℕ, take, get_elem?, length, ◌≡◌, ◌<◌, ◌≤◌, some, ◌∷◌, suc, ◌++◌, ap, arith, [], sym, ◌∙◌,
  refl, zero,
}
use native.Mathlib.Nat.{mod-eq_of_lt}

take_snoc {ℓ} :
    {A : Type ℓ} (xs : List A) (n : ℕ) (x : A)
    → get_elem? xs n ≡ some x
    → take n xs ++ x ∷ [] ≡ take (suc n) xs
take_snoc [] n x e = cc
take_snoc (y ∷ ys) zero x e = let same : y ≡ x = ground arith in ap (λ z. z ∷ []) (sym same)
take_snoc (y ∷ ys) (suc n) x e = ap (◌∷◌ y) (take_snoc ys n x e)

pub take_whole {ℓ} : {A : Type ℓ} (xs : List A) → take (length xs) xs ≡ xs
take_whole [] = refl
take_whole (x ∷ xs) = ap (◌∷◌ x) (take_whole xs)

parity_request-lt :
    (reqs : List Request) (i : ℕ)
    → i < length reqs
    → (r : Request) × (parity_request reqs i ≡ some r) × (get_elem? reqs i ≡ some r)
parity_request-lt reqs i h =
    let (r, found) = get_elem?-lt reqs i h in
    (r, round_robin_request_lem reqs i ∙ ap (get_elem? reqs) (mod-eq_of_lt h) ∙ found, found)

pub requests_upto-take :
    (reqs : List Request) (n : ℕ) → n ≤ length reqs → requests_upto reqs n ≡ take n reqs
unfolding requests_upto
requests_upto-take reqs zero h = refl
requests_upto-take reqs (suc n) h =
    let (r, taken, found) = parity_request-lt reqs n (omega arith) in
    rw (taken, requests_upto)
      (ap (λ q. q ++ r ∷ []) (requests_upto-take reqs n (omega arith)) ∙ take_snoc reqs n r found)
