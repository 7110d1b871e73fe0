-- ===== src/Windows/Largest.antt =====
-- The largest count of a histogram.
use mathlib.Core.List.{Mem, mem-cons_self, mem-cons_of_mem}
use Prim.Native.Nat.{zero}
use go_replayer.Windows.Bins.{largest}
use go_replayer.Prelude.{
  ℕ, List, ◌≤◌, ◌≡◌, length, arith, ◌∷◌, suc, [], ltb, zero, refl, ◌⊎◌, inl, inr, Bool-cases,
  lt→ltb,
}

first_or_later :
    (c : ℕ) (cs : List ℕ) → (largest c cs ≡ c) ⊎ Mem (largest c cs) cs → Mem (largest c cs) (c ∷ cs)
first_or_later c cs (inl e) = rw e mem-cons_self
first_or_later c cs (inr i) = mem-cons_of_mem c i

largest_from : (best : ℕ) (cs : List ℕ) → (largest best cs ≡ best) ⊎ Mem (largest best cs) cs
unfolding largest
largest_from best [] = inl refl
largest_from best (c ∷ cs) = elim (Bool-cases (ltb best c)) [
  | inl more ↦ rw more (inr (first_or_later c cs (largest_from c cs)))
  | inr less ↦ rw less (kept (largest_from best cs))
]
  where
    kept :
        (largest best cs ≡ best) ⊎ Mem (largest best cs) cs
        → (largest best cs ≡ best) ⊎ Mem (largest best cs) (c ∷ cs)
    kept (inl e) = inl e
    kept (inr h) = inr (mem-cons_of_mem c h)

-- The largest count is one of the counts.
pub largest-Mem : (cs : List ℕ) → 1 ≤ length cs → Mem (largest 0 cs) cs
unfolding largest
largest-Mem [] h = absurd (omega arith)
largest-Mem (zero ∷ cs) h = first_or_later zero cs (largest_from zero cs)
largest-Mem (suc c ∷ cs) h =
    rw (lt→ltb 0 (suc c) (omega arith)) (first_or_later (suc c) cs (largest_from (suc c) cs))
