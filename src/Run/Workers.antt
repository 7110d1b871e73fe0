-- ===== src/Run/Workers.antt =====
-- Sums over the workers, and what a worker's step changes in them.
use Prim.Native.Nat.{zero}
use mathlib.Core.Path.{subst}
use go_replayer.Prelude.{
  ℕ, List, get_elem?, All, sum_of, ◌≡◌, set, some, ◌∷◌, ◌+◌, arith, suc, [], zero, ◌≤◌,
}
use go_replayer.Machine.{Machine}
use go_replayer.Run.State.{
  Worker, Reply, replied, answered, tallied, totalled, invoking, exited, failed,
}

pub sum_of-set {ℓ} :
    {A : Type ℓ} (f : A → ℕ) (xs : List A) (i : ℕ) (old new : A)
    → get_elem? xs i ≡ some old
    → sum_of f (set xs i new) + f old ≡ sum_of f xs + f new
sum_of-set f [] i old new e = cc
sum_of-set f (x ∷ xs) zero old new e = let same : x ≡ old = ground arith in rw same (omega arith)
sum_of-set f (x ∷ xs) (suc i) old new e = omega (arith, sum_of-set f xs i old new e)

pub sum_of-le {ℓ} :
    {A : Type ℓ} (f : A → ℕ) (xs : List A) (i : ℕ) (x : A)
    → get_elem? xs i ≡ some x
    → f x ≤ sum_of f xs
sum_of-le f [] i x e = cc
sum_of-le f (y ∷ ys) zero x e = let same : y ≡ x = ground arith in rw same (omega arith)
sum_of-le f (y ∷ ys) (suc i) x e = omega (arith, sum_of-le f ys i x e)

pub All-set {ℓ κ} :
    {A : Type ℓ} (P : A → Type κ) (xs : List A) (i : ℕ) (v : A)
    → All P xs
    → P v
    → All P (set xs i v)
All-set P [] i v h p = tt
All-set P (x ∷ xs) zero v h p = (p, h.1)
All-set P (x ∷ xs) (suc i) v h p = (h.0, All-set P xs i v h.1 p)

pub All-get_elem? {ℓ κ} :
    {A : Type ℓ} (P : A → Type κ) (xs : List A) (i : ℕ) (x : A)
    → All P xs
    → get_elem? xs i ≡ some x
    → P x
All-get_elem? P [] i x h e = cc
All-get_elem? P (y ∷ ys) zero x h e = let same : y ≡ x = ground arith in subst P same h.0
All-get_elem? P (y ∷ ys) (suc i) x h e = All-get_elem? P ys i x h.1 e

module _ ⦃m : Machine⦄ where
  abbrev pub ok_weight : Reply → ℕ
  ok_weight (replied lat) = 1
  ok_weight (failed lat msg) = 0

  abbrev pub err_weight : Reply → ℕ
  err_weight (replied lat) = 0
  err_weight (failed lat msg) = 1

  -- The part that a worker has in each of the sums.
  abbrev pub flying : Worker → ℕ
  flying invoking = 1
  flying _ = 0

  -- in a call of Invoke that is not in the totals
  abbrev pub uncounted : Worker → ℕ
  uncounted invoking = 1
  uncounted (answered r) = 1
  uncounted (tallied r) = 1
  uncounted _ = 0

  -- in the per-second counters and not in the totals
  abbrev pub half_ok : Worker → ℕ
  half_ok (tallied r) = ok_weight r
  half_ok _ = 0

  abbrev pub half_err : Worker → ℕ
  half_err (tallied r) = err_weight r
  half_err _ = 0

  -- in the totals and not in what the mutex guards
  abbrev pub unlogged_ok : Worker → ℕ
  unlogged_ok (totalled r) = ok_weight r
  unlogged_ok _ = 0

  abbrev pub unlogged_err : Worker → ℕ
  unlogged_err (totalled r) = err_weight r
  unlogged_err _ = 0

  abbrev pub gone : Worker → ℕ
  gone exited = 1
  gone _ = 0

  -- What the change of one worker does to each sum.
  abbrev pub Moved : List Worker → ℕ → Worker → Worker → Type 0
  Moved ws i old new =
      let changed = λ (f : Worker → ℕ). sum_of f (set ws i new) + f old ≡ sum_of f ws + f new in
      changed flying
      × changed uncounted
      × changed half_ok
      × changed half_err
      × changed unlogged_ok
      × changed unlogged_err
      × changed gone

  pub moved :
      (ws : List Worker) (i : ℕ) (old new : Worker) → get_elem? ws i ≡ some old → Moved ws i old new
  moved ws i old new e =
      let change = λ (f : Worker → ℕ). sum_of-set f ws i old new e in
      (
        change flying,
        change uncounted,
        change half_ok,
        change half_err,
        change unlogged_ok,
        change unlogged_err,
        change gone,
      )
