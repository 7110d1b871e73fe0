-- ===== src/Heap/Sink.antt =====
-- heap.down and heap.Init restore the heap order.
use Prim.Native.Nat.{zero}
use go_replayer.Heap.Order.{
  get-swap, Sifted, length-swap, HeapFrom, IsHeap, Sifted-swap, length-perm,
}
use go_replayer.Prelude.{
  ℕ, List, ◌≤◌, ◌<◌, length, ◌≡◌, ◌*◌, ◌+◌, ◌⊎◌, ◌≢◌, arith, suc, zero, refl, inl, Bool-cases, inr,
  leb, ltb, ◌/◌, ltb→lt,
}
use mathlib.Core.List.{List, Perm}
use go_replayer.Heap.Slice.{
  Keyed, smaller_child, down_loop, less, key_at, swap, parent, down, init_loop, init,
}
use mathlib.Core.List.Perm

module _ {ℓ} {A : Type ℓ} ⦃k : Keyed A⦄ where
  -- Only the edges below `i` may be out of order.
  record Sinking (lo i n : ℕ) (h : List A) : Type ℓ where
    inside : n ≤ length h
    edges :
        (c : ℕ) → 0 < c → c < n → lo ≤ parent c → parent c ≢ i → key_at h (parent c) ≤ key_at h c
    over :
        (c : ℕ)
        → 0 < c
        → c < n
        → parent c ≡ i
        → 0 < i
        → lo ≤ parent i
        → key_at h (parent i) ≤ key_at h c

  -- `j` is the child of `i` that is not later than the other.
  record Earliest (h : List A) (i j n : ℕ) : Type ℓ where
    within : j < n
    child : (j ≡ 2 * i + 1) ⊎ (j ≡ 2 * i + 2)
    least : (c : ℕ) → 0 < c → c < n → parent c ≡ i → key_at h j ≤ key_at h c

  smaller_child-Earliest :
      (h : List A) (i n : ℕ) → 2 * i + 1 < n → Earliest h i (smaller_child h (2 * i + 1) n) n
  unfolding smaller_child less
  smaller_child-Earliest h i n p = record {
    within = ground arith;
    child = ground arith;
    least = λ c c1 c2 c3.
        let which : (c ≡ 2 * i + 1) ⊎ (c ≡ 2 * i + 1 + 1) = omega arith in
        elim which [ inl e ↦ rw e (ground arith) | inr e ↦ rw e (ground arith) ];
  }

  swap-Sinking :
      (lo i j n : ℕ) (h : List A)
      → Sinking lo i n h
      → Earliest h i j n
      → key_at h j < key_at h i
      → Sinking lo j n (swap h i j)
  swap-Sinking lo i j n h s e p =
      let at = λ (c : ℕ).
        get-swap h i j c (omega (arith, s.inside, e.child, e.within))
          (omega (arith, s.inside, e.within)) in
      record {
        inside = omega (arith, s.inside, length-swap h i j);
        edges = λ c c1 c2 c3 c4.
            ground (arith, at c, at (parent c), s.edges c, s.over j, e.least c, e.child);
        over = λ c c1 c2 c3 c4 c5. ground (arith, at c, at (parent j), s.edges c, e.child);
      }

  down_loop-Sifted :
      (fuel lo i n : ℕ) (h : List A)
      → n < fuel + i
      → Sinking lo i n h
      → Sifted lo n h (down_loop fuel h i n)
  unfolding down_loop less
  down_loop-Sifted zero lo i n h p s = record {
    ordered = λ c c1 c2 c3. s.edges c c1 c2 c3 (omega arith);
    same = Perm.rfl;
    tail = λ c q. refl;
  }
  down_loop-Sifted (suc fuel) lo i n h p s = elim (Bool-cases (leb n (2 * i + 1))) [
    | inl leaf ↦ rw leaf (record {
      ordered = λ c c1 c2 c3. s.edges c c1 c2 c3 (ground arith);
      same = Perm.rfl;
      tail = λ c q. refl;
    })
    | inr inner ↦
        let j = smaller_child h (2 * i + 1) n in
        let e = smaller_child-Earliest h i n (ground arith) in
        elim (Bool-cases (ltb (key_at h j) (key_at h i))) [
          | inl below ↦
              rw (inner, below)
                (Sifted-swap lo i j n h (omega (arith, s.inside, e.child, e.within)) e.within
                  s.inside
                  (down_loop-Sifted fuel lo j n (swap h i j) (omega (arith, e.child))
                    (swap-Sinking lo i j n h s e (ltb→lt _ _ below))))
          | inr settled ↦
              rw (inner, settled)
                (record {
                  ordered = λ c c1 c2 c3. ground (arith, s.edges c, e.least c);
                  same = Perm.rfl;
                  tail = λ c q. refl;
                })
        ]
  ]

  -- heap.down turns a slice with one element too early in the tree into a heap of the same
  -- elements, and leaves the slice past `n` alone.
  pub down-Sifted :
      (lo i n : ℕ) (h : List A)
      → n ≤ length h
      → ((c : ℕ) → 0 < c → c < n → lo ≤ parent c → parent c ≢ i → key_at h (parent c) ≤ key_at h c)
      → ((c : ℕ)
          → 0 < c
          → c < n
          → parent c ≡ i
          → 0 < i
          → lo ≤ parent i
          → key_at h (parent i) ≤ key_at h c)
      → Sifted lo n h (down h i n)
  unfolding down
  down-Sifted lo i n h p q r =
      down_loop-Sifted (n + 1) lo i n h (omega arith) (record { inside = p; edges = q; over = r })

  init_loop-IsHeap :
      (i : ℕ) (h : List A)
      → HeapFrom i (length h) h
      → IsHeap (init_loop i h) × Perm (init_loop i h) h
  unfolding init_loop
  init_loop-IsHeap zero h o = (o, Perm.rfl)
  init_loop-IsHeap (suc i) h o =
      let s =
        down-Sifted i i (length h) h (omega arith) (λ c c1 c2 c3 c4. o c c1 c2 (omega arith))
          (λ c c1 c2 c3 c4 c5. absurd (omega arith)) in
      let same = length-perm s.same in
      let (o', p') = init_loop-IsHeap i (down h i (length h)) (rw same s.ordered) in
      (o', Perm.trans p' s.same)

  -- heap.Init orders any slice into a heap of the same elements.
  pub init-IsHeap : (h : List A) → IsHeap (init h) × Perm (init h) h
  unfolding init
  init-IsHeap h = init_loop-IsHeap (length h / 2) h (λ c c1 c2 c3. absurd (omega arith))
