-- ===== src/Scheduler/Merge.antt =====
-- The merge of a burst's spikes into the pending ones, at the end of spawnBurst.
use go_replayer.Prelude.{List, ℕ, ◌∷◌, All, ◌≤◌, ◌++◌, [], All-append}
use mathlib.Core.List.{List, Perm}
use go_replayer.Scheduler.Next.{merge_spikes}
use mathlib.Core.List.Perm
use go_replayer.Prelude.Sorted.{IsSorted, sort-IsSorted, All-sort, sort-perm}

-- The merge keeps the pending spikes sorted, and loses none.
pub merge_spikes-IsSorted :
    (old fresh : List ℕ) → IsSorted fresh → IsSorted (merge_spikes old fresh)
unfolding merge_spikes
merge_spikes-IsSorted [] fresh h = h
merge_spikes-IsSorted (t ∷ ts) fresh h = sort-IsSorted ((t ∷ ts) ++ fresh)

pub merge_spikes-from :
    (lo : ℕ) (old fresh : List ℕ)
    → All (λ t. lo ≤ t) old
    → All (λ t. lo ≤ t) fresh
    → All (λ t. lo ≤ t) (merge_spikes old fresh)
unfolding merge_spikes
merge_spikes-from lo [] fresh h k = k
merge_spikes-from lo (t ∷ ts) fresh h k =
    All-sort (λ u. lo ≤ u) ((t ∷ ts) ++ fresh) (All-append (λ u. lo ≤ u) (t ∷ ts) fresh h k)

pub merge_spikes-perm : (old fresh : List ℕ) → Perm (merge_spikes old fresh) (old ++ fresh)
unfolding merge_spikes
merge_spikes-perm [] fresh = Perm.rfl
merge_spikes-perm (t ∷ ts) fresh = sort-perm ((t ∷ ts) ++ fresh)
