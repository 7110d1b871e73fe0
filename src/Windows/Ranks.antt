-- ===== src/Windows/Ranks.antt =====
-- The ranks that the quantiles of the summaries stand for, and what it is to have a rank among counts.
use Prim.Native.Nat.{zero}
use go_replayer.Machine.{Machine, of_nat}
use mathlib.Core.List.{Mem, mem-cons_self, mem-cons_of_mem}
use go_replayer.Prelude.Sorted.{IsSorted, sort, sort-IsSorted, All-sort, sum_of-sort}
use go_replayer.Windows.Bins.{bins_at_least}
use go_replayer.Prelude.{
  ℕ, List, ◌≡◌, ◌≤◌, ◌<◌, ◌*◌, ◌/◌, ◌+◌, ◌^◌, get_or, length, sum_of, if◌then◌else◌, leb, arith,
  All, All-map, [], ◌∷◌, zero, suc, le→leb, refl,
}
use go_replayer.Prelude.Int.{pos}

module _ ⦃m : Machine⦄ where
  open m use {mul, to_int, decimal}

  -- Of the lengths that occur, which are below 2^23, the truncated product with one of the three
  -- constants is the exact rank: the nearest float64 to 0.5, 0.9 or 0.99 times such a number is rounded
  -- to the whole number where there is one, and else lies between the same two whole numbers.
  pub record Ranks : Type 0 where
    pub rank50 : (k : ℕ) → k < 2 ^ 23 → to_int (mul (decimal 50 2) (of_nat k)) ≡ pos (k * 50 / 100)
    pub rank90 : (k : ℕ) → k < 2 ^ 23 → to_int (mul (decimal 90 2) (of_nat k)) ≡ pos (k * 90 / 100)
    pub rank99 : (k : ℕ) → k < 2 ^ 23 → to_int (mul (decimal 99 2) (of_nat k)) ≡ pos (k * 99 / 100)

-- How many numbers are `v` at most, and how many at least.
abbrev pub at_most : ℕ → List ℕ → ℕ
at_most v cs = sum_of (λ c. if leb c v then 1 else 0) cs

abbrev pub at_least : ℕ → List ℕ → ℕ
at_least v cs = sum_of (λ c. if leb v c then 1 else 0) cs

-- `v` is one of the numbers, more than `i` of them are not above it, and all but `i` not below it.
pub record HasRank (i v : ℕ) (cs : List ℕ) : Type 0 where
  pub member : Mem v cs
  pub low : i + 1 ≤ at_most v cs
  pub high : length cs ≤ at_least v cs + i

all_least : (v : ℕ) (cs : List ℕ) → All (λ c. v ≤ c) cs → length cs ≤ at_least v cs
all_least v [] h = omega arith
all_least v (c ∷ cs) h = rw (le→leb v c h.0) (omega (arith, all_least v cs h.1))

get_or-least :
    (v : ℕ) (cs : List ℕ) (i : ℕ) → All (λ c. v ≤ c) cs → i < length cs → v ≤ get_or cs i 0
get_or-least v [] i h p = absurd (omega arith)
get_or-least v (c ∷ cs) zero h p = h.0
get_or-least v (c ∷ cs) (suc i) h p = get_or-least v cs i h.1 (omega (arith, p))

sorted-low :
    (cs : List ℕ) (i : ℕ) → IsSorted cs → i < length cs → i + 1 ≤ at_most (get_or cs i 0) cs
sorted-low [] i h p = absurd (omega arith)
sorted-low (c ∷ cs) zero h p = ground arith
sorted-low (c ∷ cs) (suc i) h p =
    let least = get_or-least c cs i h.0 (omega (arith, p)) in
    rw (le→leb c (get_or cs i 0) least) (omega (arith, sorted-low cs i h.1 (omega (arith, p))))

sorted-high :
    (cs : List ℕ) (i : ℕ)
    → IsSorted cs
    → i < length cs
    → length cs ≤ at_least (get_or cs i 0) cs + i
sorted-high [] i h p = absurd (omega arith)
sorted-high (c ∷ cs) zero h p = let rest = all_least c cs h.0 in ground (arith, rest)
sorted-high (c ∷ cs) (suc i) h p =
    let rest = sorted-high cs i h.1 (omega (arith, p)) in ground (arith, rest)

get_or-All {ℓ} :
    (P : ℕ → Type ℓ) (xs : List ℕ) (i : ℕ) → All P xs → i < length xs → P (get_or xs i 0)
get_or-All P [] i h p = absurd (omega arith)
get_or-All P (x ∷ xs) zero h p = h.0
get_or-All P (x ∷ xs) (suc i) h p = get_or-All P xs i h.1 (omega (arith, p))

All-Mem : (xs : List ℕ) → All (λ x. Mem x xs) xs
All-Mem [] = tt
All-Mem (x ∷ xs) = (
  mem-cons_self,
  All-map (λ y. Mem y xs) (λ y. Mem y (x ∷ xs)) xs (λ y i. mem-cons_of_mem x i) (All-Mem xs),
)

-- An element of the sorted numbers has its index as a rank.
pub sort-HasRank :
    (cs : List ℕ) (i : ℕ) → i < length (sort cs) → HasRank i (get_or (sort cs) i 0) cs
sort-HasRank cs i p =
    let v = get_or (sort cs) i 0 in
    let size = sum_of-sort (λ _. 1) cs in
    let whole = sum_of-one (sort cs) in
    let whole' = sum_of-one cs in
    record {
      member = get_or-All (λ x. Mem x cs) (sort cs) i (All-sort (λ x. Mem x cs) cs (All-Mem cs)) p;
      low = omega (
        arith,
        sorted-low (sort cs) i (sort-IsSorted cs) p,
        sum_of-sort (λ c. if leb c v then 1 else 0) cs,
      );
      high = omega (
        arith,
        size,
        whole,
        whole',
        sorted-high (sort cs) i (sort-IsSorted cs) p,
        sum_of-sort (λ c. if leb v c then 1 else 0) cs,
      );
    }
  where
    sum_of-one : (xs : List ℕ) → sum_of (λ _. 1) xs ≡ length xs
    sum_of-one [] = refl
    sum_of-one (x ∷ xs) = omega (arith, sum_of-one xs)

pub bins_at_least-at_least : (th : ℕ) (cs : List ℕ) → bins_at_least th cs ≡ at_least th cs
unfolding bins_at_least
bins_at_least-at_least th [] = refl
bins_at_least-at_least th (c ∷ cs) = omega (arith, bins_at_least-at_least th cs)
