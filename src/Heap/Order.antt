-- ===== src/Heap/Order.antt =====
-- Slices under Swap, and the heap order.
use Prim.Native.Nat.{zero}
use native.Mathlib.Bridge.{le_prop}
use go_replayer.Prelude.{
  ℕ, List, ◌<◌, length, set, ◌≡◌, ◌≤◌, ◌∷◌, if◌then◌else◌, length-set, arith, suc, ◌==◌, ◌∙◌,
  get_or, zero, [], refl, ap, ◌++◌,
}
use mathlib.Core.List.{List, Mem, Perm, not-mem-nil, mem-cons, Permᴰ}
use go_replayer.Heap.Slice.{Keyed, get, swap, key_at, parent}
use mathlib.Core.List.Perm
use mathlib.Core.Logic.{∥∥₁_elim}
use native.Mathlib.Nat.{ℕ_set}
use mathlib.Core.Logic.Or

module _ {ℓ} {A : Type ℓ} ⦃k : Keyed A⦄ where
  pub get-set :
      (h : List A) (i j : ℕ) (v : A)
      → i < length h
      → get (set h i v) j ≡ (if i == j then v else get h j)
  unfolding get
  get-set [] i j v p = absurd (omega arith)
  get-set (x ∷ h) zero zero v p = refl
  get-set (x ∷ h) zero (suc j) v p = ground arith
  get-set (x ∷ h) (suc i) zero v p = ground arith
  get-set (x ∷ h) (suc i) (suc j) v p = ground (arith, get-set h i j v)

  pub length-swap : (h : List A) (i j : ℕ) → length (swap h i j) ≡ length h
  unfolding swap
  length-swap h i j = length-set (set h i (get h j)) j (get h i) ∙ length-set h i (get h j)

  pub get-swap :
      (h : List A) (i j c : ℕ)
      → i < length h
      → j < length h
      → get (swap h i j) c ≡ (if j == c then get h i else if i == c then get h j else get h c)
  unfolding swap
  get-swap h i j c p q = rw (
    get-set (set h i (get h j)) j c (get h i) (omega (arith, length-set h i (get h j))),
    get-set h i c (get h j) p,
  )

  -- A write puts one element in the place of another.
  set-perm : (h : List A) (i : ℕ) (v : A) → i < length h → Perm (get h i ∷ set h i v) (v ∷ h)
  unfolding get
  set-perm [] i v p = absurd (omega arith)
  set-perm (x ∷ h) zero v p = Perm.swap v x h
  set-perm (x ∷ h) (suc i) v p =
      Perm.trans (Perm.swap x (get_or h i k.filler) (set h i v))
        (Perm.trans (Perm.cons x (set-perm h i v (omega arith))) (Perm.swap v x h))

  pub swap-perm : (h : List A) (i j : ℕ) → i < length h → j < length h → Perm (swap h i j) h
  unfolding swap
  swap-perm h i j p q =
      let mid = set h i (get h j) in
      let mid_j : get mid j ≡ get h j = ground (arith, get-set h i j (get h j)) in
      let last = set-perm mid j (get h i) (omega (arith, length-set h i (get h j))) in
      Perm.cons_inv (Perm.trans (rw mid_j at last) (set-perm h i (get h j) p))

-- Every parent from `lo` on is no later than its children below `n`.
module _ {ℓ} {A : Type ℓ} ⦃k : Keyed A⦄ where
  abbrev pub HeapFrom : ℕ → ℕ → List A → Type 0
  HeapFrom lo n h = (c : ℕ) → 0 < c → c < n → lo ≤ parent c → key_at h (parent c) ≤ key_at h c

  abbrev pub IsHeap : List A → Type 0
  IsHeap h = HeapFrom 0 (length h) h

  root_le_below :
      (b : ℕ) (h : List A) (c : ℕ) → IsHeap h → c < b → c < length h → key_at h 0 ≤ key_at h c
  root_le_below zero h c o p q = absurd (omega arith)
  root_le_below (suc b) h zero o p q = omega arith
  root_le_below (suc b) h (suc c) o p q =
      let i = parent (suc c) in
      let below = root_le_below b h i o (omega arith) (omega arith) in
      omega (arith, below, o (suc c) (omega arith) q (omega arith))

  index_of_mem :
      (h : List A) (b : ℕ)
      → ((c : ℕ) → c < length h → b ≤ key_at h c)
      → (x : A) → Mem x h
      → b ≤ k.key x
  unfolding get
  index_of_mem [] b f x m = absurd (not-mem-nil m)
  index_of_mem (y ∷ h) b f x m =
      Or.elim le_prop (mem-cons.0 m) (λ e. rw e (f 0 (omega arith)))
        (index_of_mem h b (λ c p. f (suc c) (omega arith)) x)

  -- The root of a heap is an earliest element.
  pub root_le : (h : List A) → IsHeap h → (x : A) → Mem x h → key_at h 0 ≤ k.key x
  root_le h o = index_of_mem h (key_at h 0) (λ c p. root_le_below (suc c) h c o (omega arith) p)

  -- What a sift leaves: order from `lo` on below `n`, the same elements, the same end.
  pub record Sifted (lo n : ℕ) (h h' : List A) : Type ℓ where
    pub ordered : HeapFrom lo n h'
    pub same : Perm h' h
    pub tail : (c : ℕ) → n ≤ c → get h' c ≡ get h c

  pub Sifted-swap :
      (lo i j n : ℕ) (h : List A) {h' : List A}
      → i < n
      → j < n
      → n ≤ length h
      → Sifted lo n (swap h i j) h'
      → Sifted lo n h h'
  Sifted-swap lo i j n h p q r s = record {
    ordered = s.ordered;
    same = Perm.trans s.same (swap-perm h i j (omega arith) (omega arith));
    tail = λ c t. s.tail c t ∙ ground (arith, get-swap h i j c);
  }

module _ {ℓ} {A : Type ℓ} where
  Permᴰ-length : (xs ys : List A) → Permᴰ xs ys → length xs ≡ length ys
  Permᴰ-length _ _ (Permᴰ.trans p q) = Permᴰ-length _ _ p ∙ Permᴰ-length _ _ q
  Permᴰ-length _ _ (Permᴰ.swap x y) = refl
  Permᴰ-length _ _ (Permᴰ.cons x p) = ap suc (Permᴰ-length _ _ p)
  Permᴰ-length _ _ Permᴰ.nil = refl

  pub length-perm : {xs ys : List A} → Perm xs ys → length xs ≡ length ys
  length-perm {xs} {ys} same =
      ∥∥₁_elim same (ℕ_set (length xs) (length ys)) (λ d. Permᴰ-length xs ys d)

  pub snoc-perm : (h : List A) (x : A) → Perm (h ++ x ∷ []) (x ∷ h)
  snoc-perm [] x = Perm.rfl
  snoc-perm (y ∷ h) x = Perm.trans (Perm.cons y (snoc-perm h x)) (Perm.swap x y h)
