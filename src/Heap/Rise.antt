-- ===== src/Heap/Rise.antt =====
-- heap.up restores the heap order.
use Prim.Native.Nat.{zero}
use go_replayer.Heap.Order.{Sifted, get-swap, length-swap, Sifted-swap}
use go_replayer.Prelude.{
  ℕ, List, ◌<◌, ◌≤◌, arith, ◌+◌, length, suc, ◌≢◌, Bool-cases, ◌≡◌, ◌==◌, inl, inr, ltb, ltb→lt,
  zero, refl,
}
use go_replayer.Heap.Slice.{Keyed, up_loop, up, less, key_at, parent, swap}
use mathlib.Core.List.Perm

module _ {ℓ} {A : Type ℓ} ⦃k : Keyed A⦄ where
  -- Only the edge above `j` may be out of order.
  pub record Rising (j n : ℕ) (h : List A) : Type ℓ where
    pub inside : j < n
    pub fits : n ≤ length h
    pub edges : (c : ℕ) → 0 < c → c < n → c ≢ j → key_at h (parent c) ≤ key_at h c
    pub over : (c : ℕ) → 0 < c → c < n → parent c ≡ j → 0 < j → key_at h (parent j) ≤ key_at h c

  swap-Rising :
      (j n : ℕ) (h : List A)
      → Rising j n h
      → 0 < j
      → key_at h j < key_at h (parent j)
      → Rising (parent j) n (swap h (parent j) j)
  swap-Rising j n h s pos below =
      let at = λ (c : ℕ).
        get-swap h (parent j) j c (omega (arith, s.inside, s.fits))
          (omega (arith, s.inside, s.fits)) in
      record {
        inside = omega (arith, s.inside);
        fits = omega (arith, s.fits, length-swap h (parent j) j);
        edges = λ c c1 c2 c3. ground (arith, at c, at (parent c), s.edges c, s.over c);
        over = λ c c1 c2 c3 c4.
            ground (arith, at c, at (parent (parent j)), s.edges c, s.edges (parent j));
      }

  up_loop-Sifted :
      (fuel j n : ℕ) (h : List A) → j < fuel → Rising j n h → Sifted 0 n h (up_loop fuel h j)
  unfolding up_loop less
  up_loop-Sifted zero j n h p s = absurd (omega arith)
  up_loop-Sifted (suc fuel) j n h p s = elim (Bool-cases (parent j == j)) [
    | inl root ↦ rw root (record {
      ordered = λ c c1 c2 c3. s.edges c c1 c2 (ground arith);
      same = Perm.rfl;
      tail = λ c q. refl;
    })
    | inr inner ↦ elim (Bool-cases (ltb (key_at h j) (key_at h (parent j)))) [
      | inl below ↦
          rw (inner, below)
            (Sifted-swap 0 (parent j) j n h (omega (arith, s.inside)) s.inside s.fits (
              up_loop-Sifted fuel (parent j) n (swap h (parent j) j) (ground arith)
                (swap-Rising j n h s (ground arith) (ltb→lt _ _ below))))
      | inr settled ↦
          rw (inner, settled)
            (record {
              ordered = λ c c1 c2 c3. ground (arith, s.edges c);
              same = Perm.rfl;
              tail = λ c q. refl;
            })
    ]
  ]

  -- heap.up turns a slice with one element too late in the tree into a heap of the same elements.
  pub up-Sifted : (j n : ℕ) (h : List A) → Rising j n h → Sifted 0 n h (up h j)
  unfolding up
  up-Sifted j n h s = up_loop-Sifted (j + 1) j n h (omega arith) s
