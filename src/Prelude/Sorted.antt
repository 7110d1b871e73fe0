-- ===== src/Prelude/Sorted.antt =====
-- Ascending lists of numbers, and the stable sort of times and samples.
use Prim.Native.Nat.{ℕ, ◌≤◌}
use mathlib.Core.List.{is_set, List, [], ◌∷◌, Perm, Permᴰ}
use native.Mathlib.Nat.{ℕ_set}
use mathlib.Core.List.Perm
use native.Mathlib.Omega.{arith}
use mathlib.Core.Logic.{inl, inr, ∥∥₁_elim}
use go_replayer.Prelude.{
  leb, leb→le, Bool-cases, if◌then◌else◌, All, All-map, ◌≡◌, ◌∙◌, refl, length, sym, ◌+◌, ap,
  sum_of,
}

abbrev pub IsSorted : List ℕ → Type 0
IsSorted [] = Unit
IsSorted (x ∷ xs) = All (λ y. x ≤ y) xs × IsSorted xs

-- `sort.Slice(xs, <)`, `sort.Ints`: equal numbers cannot be told apart, so the result is the same
-- whatever the algorithm.
insert_sorted : ℕ → List ℕ → List ℕ
insert_sorted x [] = x ∷ []
insert_sorted x (y ∷ ys) = if leb x y then x ∷ y ∷ ys else y ∷ insert_sorted x ys

unfoldable pub sort : List ℕ → List ℕ
unfolding insert_sorted
sort [] = []
sort (x ∷ xs) = insert_sorted x (sort xs)

All-insert_sorted {ℓ} :
    (P : ℕ → Type ℓ) (x : ℕ) (xs : List ℕ) → P x → All P xs → All P (insert_sorted x xs)
unfolding insert_sorted
All-insert_sorted P x [] h hs = (h, tt)
All-insert_sorted P x (y ∷ ys) h hs = elim (Bool-cases (leb x y)) [
  | inl below ↦ rw below (h, hs)
  | inr above ↦ rw above (hs.0, All-insert_sorted P x ys h hs.1)
]

insert_sorted-IsSorted : (x : ℕ) (xs : List ℕ) → IsSorted xs → IsSorted (insert_sorted x xs)
unfolding insert_sorted
insert_sorted-IsSorted x [] h = (tt, tt)
insert_sorted-IsSorted x (y ∷ ys) h = elim (Bool-cases (leb x y)) [
  | inl below ↦
      let le = leb→le x y below in
      rw below ((le, All-map (λ z. y ≤ z) (λ z. x ≤ z) ys (λ z q. omega arith) h.0), h)
  | inr above ↦
      rw above
        (All-insert_sorted (λ z. y ≤ z) x ys (ground arith) h.0, insert_sorted-IsSorted x ys h.1)
]

pub All-sort {ℓ} : (P : ℕ → Type ℓ) (xs : List ℕ) → All P xs → All P (sort xs)
unfolding sort
All-sort P [] h = tt
All-sort P (x ∷ xs) h = All-insert_sorted P x (sort xs) h.0 (All-sort P xs h.1)

pub sort-IsSorted : (xs : List ℕ) → IsSorted (sort xs)
unfolding sort
sort-IsSorted [] = tt
sort-IsSorted (x ∷ xs) = insert_sorted-IsSorted x (sort xs) (sort-IsSorted xs)

insert_sorted-perm : (x : ℕ) (xs : List ℕ) → Perm (insert_sorted x xs) (x ∷ xs)
unfolding insert_sorted
insert_sorted-perm x [] = Perm.rfl
insert_sorted-perm x (y ∷ ys) = elim (Bool-cases (leb x y)) [
  | inl below ↦ rw below Perm.rfl
  | inr above ↦ rw above (Perm.trans (Perm.cons y (insert_sorted-perm x ys)) (Perm.swap x y ys))
]

pub sort-perm : (xs : List ℕ) → Perm (sort xs) xs
unfolding sort
sort-perm [] = Perm.rfl
sort-perm (x ∷ xs) = Perm.trans (insert_sorted-perm x (sort xs)) (Perm.cons x (sort-perm xs))

insert_sorted_comm :
    (x y : ℕ) (zs : List ℕ)
    → insert_sorted x (insert_sorted y zs) ≡ insert_sorted y (insert_sorted x zs)
unfolding insert_sorted
insert_sorted_comm x y [] = ground arith
insert_sorted_comm x y (z ∷ zs) = let rest = insert_sorted_comm x y zs in ground (arith, rest)

sort-permᴰ : {xs ys : List ℕ} → Permᴰ xs ys → sort xs ≡ sort ys
unfolding sort
sort-permᴰ Permᴰ.nil = refl
sort-permᴰ (Permᴰ.cons e d) = rw (e, sort-permᴰ d) refl
sort-permᴰ (Permᴰ.swap {a} {b} {a'} {b'} {l} e f) = rw (e, f) (insert_sorted_comm b' a' (sort l))
sort-permᴰ (Permᴰ.trans d d') = sort-permᴰ d ∙ sort-permᴰ d'

-- The sort forgets the order of its input.
pub sort-eq_of_perm : (xs ys : List ℕ) → Perm xs ys → sort xs ≡ sort ys
sort-eq_of_perm xs ys p = ∥∥₁_elim p (is_set ℕ_set (sort xs) (sort ys)) sort-permᴰ

length-insert_sorted : (x : ℕ) (ys : List ℕ) → length (insert_sorted x ys) ≡ length ys + 1
unfolding insert_sorted
length-insert_sorted x [] = refl
length-insert_sorted x (y ∷ ys) = let rest = length-insert_sorted x ys in ground (arith, rest)

length-sort : (xs : List ℕ) → length (sort xs) ≡ length xs
unfolding sort
length-sort [] = refl
length-sort (x ∷ xs) = omega (arith, length-insert_sorted x (sort xs), length-sort xs)

pub length-eq_of_perm : (xs ys : List ℕ) → Perm xs ys → length xs ≡ length ys
length-eq_of_perm xs ys p =
    sym (length-sort xs) ∙ ap length (sort-eq_of_perm xs ys p) ∙ length-sort ys

sum_of-insert_sorted :
    (f : ℕ → ℕ) (x : ℕ) (ys : List ℕ) → sum_of f (insert_sorted x ys) ≡ f x + sum_of f ys
unfolding insert_sorted
sum_of-insert_sorted f x [] = refl
sum_of-insert_sorted f x (y ∷ ys) = elim (Bool-cases (leb x y)) [
  | inl below ↦ rw below refl
  | inr above ↦ rw above (omega (arith, sum_of-insert_sorted f x ys))
]

pub sum_of-sort : (f : ℕ → ℕ) (xs : List ℕ) → sum_of f (sort xs) ≡ sum_of f xs
unfolding sort
sum_of-sort f [] = refl
sum_of-sort f (x ∷ xs) = omega (arith, sum_of-insert_sorted f x (sort xs), sum_of-sort f xs)
