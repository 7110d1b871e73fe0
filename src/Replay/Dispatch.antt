-- ===== src/Replay/Dispatch.antt =====
-- roundRobinRequest and makeDispatchJob of main.go.
use Prim.Native.Nat.{zero}
use native.Mathlib.Nat.{mod-eq_of_lt, mod-lt, mul-add-mod_self_right}
use go_replayer.Prelude.{
  ℕ, ◌%◌, List, [], ◌∷◌, Option, none, if◌then◌else◌, is_empty, length, get_elem?, Text, ◌<◌, suc,
  ◌≡◌, ◌+◌, ◌*◌, some, map, zero, arith, drop, refl, false, ◌∙◌,
}
use go_replayer.Replay.Reader.{Request}

pub record DispatchJob : Type 0 where
  pub payload : List ℕ
  pub method : Text

-- `reqs[idx%len(reqs)]`; `none` is the run-time panic on an empty slice.
unfoldable pub round_robin_request : List Request → ℕ → Option Request
round_robin_request [] idx = none
round_robin_request (r ∷ rs) idx = get_elem? (r ∷ rs) (idx % length (r ∷ rs))

-- The payload is copied; a list is never shared.
unfoldable pub make_dispatch_job : Request → Text → DispatchJob
make_dispatch_job req fallback_method = record {
  payload = req.payload;
  method = if is_empty req.method then fallback_method else req.method;
}

pub get_elem?-lt {ℓ} :
    {A : Type ℓ} (xs : List A) (i : ℕ) → i < length xs → (x : A) × (get_elem? xs i ≡ some x)
get_elem?-lt [] i h = absurd (omega arith)
get_elem?-lt (x ∷ xs) zero h = (x, refl)
get_elem?-lt (x ∷ xs) (suc i) h = get_elem?-lt xs i (omega arith)

-- The `n` requests that the sender's loop takes from index `idx` on.
unfoldable pub dispatched : List Request → ℕ → ℕ → List (Option Request)
dispatched reqs idx zero = []
dispatched reqs idx (suc n) = round_robin_request reqs idx ∷ dispatched reqs (idx + 1) n

mod_shift : (k i n : ℕ) → i < n → (k * n + i) % n ≡ i
mod_shift k i n h = rw mul-add-mod_self_right (mod-eq_of_lt h)

drop-length {ℓ} : {A : Type ℓ} (xs : List A) → drop (length xs) xs ≡ []
drop-length [] = refl
drop-length (x ∷ xs) = drop-length xs

pub round_robin_request_lem :
    (reqs : List Request) (idx : ℕ)
    → round_robin_request reqs idx ≡ get_elem? reqs (idx % length reqs)
unfolding round_robin_request
round_robin_request_lem [] idx = refl
round_robin_request_lem (r ∷ rs) idx = refl

drop_step {ℓ} :
    {A : Type ℓ} (xs : List A) (i : ℕ) (x : A)
    → get_elem? xs i ≡ some x
    → drop i xs ≡ x ∷ drop (suc i) xs
drop_step [] i x e = cc
drop_step (y ∷ xs) zero x e = ground arith
drop_step (y ∷ xs) (suc i) x e = drop_step xs i x e

dispatched_from :
    (reqs : List Request) (k i n : ℕ)
    → i + n ≡ length reqs
    → dispatched reqs (k * length reqs + i) n ≡ map some (drop i reqs)
unfolding dispatched
dispatched_from reqs k i zero e =
    let whole : i ≡ length reqs = omega arith in rw (whole, drop-length reqs)
dispatched_from reqs k i (suc n) e =
    let (x, found) = get_elem?-lt reqs i (omega arith) in
    let next : k * length reqs + i + 1 ≡ k * length reqs + suc i = omega arith in
    rw (
      round_robin_request_lem reqs (k * length reqs + i),
      mod_shift k i (length reqs) (omega arith),
      found,
      next,
      dispatched_from reqs k (suc i) n (omega arith),
      drop_step reqs i x found,
    )

length_given : {A : Type 0} (xs : List A) → is_empty xs ≡ false → 0 < length xs
length_given [] h = cc
length_given (x ∷ xs) h = omega arith

pub round_robin_request_total :
    (reqs : List Request) (i : ℕ)
    → is_empty reqs ≡ false
    → (r : Request) × (round_robin_request reqs i ≡ some r)
round_robin_request_total reqs i h =
    let (r, found) = get_elem?-lt reqs (i % length reqs) (mod-lt i (length_given reqs h)) in
    (r, round_robin_request_lem reqs i ∙ found)

-- One pass over the loaded requests dispatches each of them once, in the order of the file, and so
-- does every later pass.
pub dispatched_pass :
    (reqs : List Request) (k : ℕ) → dispatched reqs (k * length reqs) (length reqs) ≡ map some reqs
dispatched_pass reqs k =
    let start : k * length reqs ≡ k * length reqs + 0 = omega arith in
    rw start (dispatched_from reqs k 0 (length reqs) (omega arith))
