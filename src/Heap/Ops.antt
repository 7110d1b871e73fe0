-- ===== src/Heap/Ops.antt =====
-- heap.Push and heap.Pop.
use go_replayer.Heap.Sink.{down-Sifted}
use go_replayer.Heap.Rise.{up-Sifted}
use Prim.Native.Nat.{zero}
use go_replayer.Heap.Order.{
  IsHeap, length-perm, snoc-perm, get-swap, length-swap, swap-perm, HeapFrom,
}
use go_replayer.Prelude.{
  List, ℕ, ◌≡◌, ◌<◌, length, take, arith, suc, ◌++◌, ◌∷◌, [], some, zero, ap, ◌+◌, refl,
  length-append, ◌-◌, ◌∙◌, length-take,
}
use mathlib.Core.List.{List, Perm}
use go_replayer.Heap.Slice.{Keyed, get, push, pop, parent, swap, down}
use mathlib.Core.List.Perm

module _ {ℓ} {A : Type ℓ} ⦃k : Keyed A⦄ where
  get-append : (h t : List A) (i : ℕ) → i < length h → get (h ++ t) i ≡ get h i
  unfolding get
  get-append [] t i p = absurd (omega arith)
  get-append (x ∷ h) t zero p = refl
  get-append (x ∷ h) t (suc i) p = get-append h t i (omega arith)

  get-take : (n : ℕ) (h : List A) (i : ℕ) → i < n → get (take n h) i ≡ get h i
  unfolding get
  get-take zero h i p = absurd (omega arith)
  get-take (suc n) [] i p = refl
  get-take (suc n) (x ∷ h) zero p = refl
  get-take (suc n) (x ∷ h) (suc i) p = get-take n h i (omega arith)

  -- A slice is its last element behind the others.
  take-get : (n : ℕ) (h : List A) → length h ≡ suc n → take n h ++ get h n ∷ [] ≡ h
  unfolding get
  take-get n [] e = absurd (omega arith)
  take-get zero (x ∷ []) e = refl
  take-get zero (x ∷ y ∷ h) e = absurd (omega arith)
  take-get (suc n) (x ∷ h) e = ap (◌∷◌ x) (take-get n h (omega arith))

  -- heap.Push adds the element, and keeps the heap order.
  pub push-IsHeap : (h : List A) (x : A) → IsHeap h → IsHeap (push h x) × Perm (push h x) (x ∷ h)
  unfolding push
  push-IsHeap h x o =
      let grown = h ++ x ∷ [] in
      let size : length grown ≡ length h + 1 = length-append h (x ∷ []) in
      let s = up-Sifted (length grown - 1) (length grown) grown (record {
        inside = omega (arith, size);
        fits = omega arith;
        edges = λ c c1 c2 c3.
            ground (arith, size, o c, get-append h (x ∷ []) c, get-append h (x ∷ []) (parent c));
        over = λ c c1 c2 c3 c4. absurd (omega (arith, size));
      }) in
      (rw (length-perm s.same) s.ordered, Perm.trans s.same (snoc-perm h x))

  take-IsHeap : (n : ℕ) (h : List A) → HeapFrom 0 n h → length (take n h) ≡ n → IsHeap (take n h)
  take-IsHeap n h o e c c1 c2 c3 = ground (arith, o c, get-take n h c, get-take n h (parent c))

  -- What heap.Pop takes off a heap: an earliest element, which leaves a heap of the others.
  pub record Popped (h : List A) (x : A) (rest : List A) : Type ℓ where
    pub is_root : x ≡ get h 0
    pub ordered : IsHeap rest
    pub same : Perm (x ∷ rest) h

  -- heap.Pop of a heap that is not empty returns its first element and leaves a heap of the others.
  pub pop-Popped :
      (h : List A)
      → 0 < length h
      → IsHeap h
      → (x : A) × (rest : List A) × (pop h ≡ some (x, rest)) × Popped h x rest
  unfolding pop
  pop-Popped [] p o = absurd (omega arith)
  pop-Popped (y ∷ h) p o =
      let all = y ∷ h in
      let n = length all - 1 in
      let swapped = swap all 0 n in
      let sunk = down swapped 0 n in
      let at = λ (c : ℕ). get-swap all 0 n c (omega arith) (omega arith) in
      let size = length-swap all 0 n in
      let s =
        down-Sifted 0 0 n swapped (omega (arith, size))
          (λ c c1 c2 c3 c4. ground (arith, at c, at (parent c), o c))
          (λ c c1 c2 c3 c4 c5. absurd (omega arith)) in
      let size' : length sunk ≡ suc n = omega (arith, length-perm s.same, size) in
      let root : get sunk n ≡ get all 0 = s.tail n (omega arith) ∙ ground (arith, at n) in
      let short : length (take n sunk) ≡ n = omega (arith, length-take n sunk) in
      let back : Perm (get sunk n ∷ take n sunk) all =
        Perm.trans (Perm.symm (snoc-perm (take n sunk) (get sunk n))) (
          rw (take-get n sunk size')
            (Perm.trans s.same (swap-perm all 0 n (omega arith) (omega arith)))) in
      (
        get sunk n,
        take n sunk,
        refl,
        record { is_root = root; ordered = take-IsHeap n sunk s.ordered short; same = back },
      )
