-- ===== src/Heap/Slice.antt =====
-- The methods of poissonHeap (Len is `length`), and the functions of container/heap over them.
use Prim.Native.Nat.{zero}
use go_replayer.Prelude.Int.{before}
use go_replayer.Prelude.{
  ℕ, List, get_or, Bool, set, ◌-◌, suc, ◌+◌, if◌then◌else◌, length, ◌++◌, Option, ◌/◌, ◌==◌, ltb,
  ◌*◌, ◌∷◌, none, zero, ◌||◌, ◌&&◌, leb, [], some, not, take,
}

abbrev pub parent : ℕ → ℕ
parent j = (j - 1) / 2

pub record Keyed {ℓ} (A : Type ℓ) : Type ℓ where
  pub key : A → ℕ
  -- what a slice is read as past its end, where Go would panic; no call reads there
  pub filler : A

module _ {ℓ} {A : Type ℓ} ⦃k : Keyed A⦄ where
  unfoldable pub get : List A → ℕ → A
  get h i = get_or h i k.filler

  abbrev pub key_at : List A → ℕ → ℕ
  key_at h i = k.key (get h i)

  -- Less, by `Before`
  unfoldable pub less : List A → ℕ → ℕ → Bool
  less h i j = before (key_at h i) (key_at h j)

  -- Swap
  unfoldable pub swap : List A → ℕ → ℕ → List A
  swap h i j = set (set h i (get h j)) j (get h i)

  -- heap.up; a parent is below its child, so `j + 1` rounds are enough
  unfoldable pub up_loop : ℕ → List A → ℕ → List A
  up_loop zero h j = h
  up_loop (suc fuel) h j =
      let i = parent j in
      let rest = up_loop fuel (swap h i j) i in if i == j || not (less h j i) then h else rest

  unfoldable pub up : List A → ℕ → List A
  up h j = up_loop (j + 1) h j

  unfoldable pub smaller_child : List A → ℕ → ℕ → ℕ
  smaller_child h j1 n = if ltb (j1 + 1) n && less h (j1 + 1) j1 then j1 + 1 else j1

  -- heap.down; a child is above its parent, so `n + 1` rounds are enough
  unfoldable pub down_loop : ℕ → List A → ℕ → ℕ → List A
  down_loop zero h i n = h
  down_loop (suc fuel) h i n =
      let j = smaller_child h (2 * i + 1) n in
      let rest = down_loop fuel (swap h i j) j n in
      if leb n (2 * i + 1) || not (less h j i) then h else rest

  unfoldable pub down : List A → ℕ → ℕ → List A
  down h i n = down_loop (n + 1) h i n

  -- heap.Init counts down from the last parent
  unfoldable pub init_loop : ℕ → List A → List A
  init_loop zero h = h
  init_loop (suc i) h = init_loop i (down h i (length h))

  unfoldable pub init : List A → List A
  init h = init_loop (length h / 2) h

  -- heap.Push with poissonHeap.Push
  unfoldable pub push : List A → A → List A
  push h x = up (h ++ x ∷ []) (length (h ++ x ∷ []) - 1)

  -- heap.Pop with poissonHeap.Pop; `none` is the panic on an empty heap
  unfoldable pub pop : List A → Option (A × List A)
  pop [] = none
  pop (x ∷ h) =
      let n = length (x ∷ h) - 1 in
      let sunk = down (swap (x ∷ h) 0 n) 0 n in some (get sunk n, take n sunk)
