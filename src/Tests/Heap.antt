-- ===== src/Tests/Heap.antt =====
-- A heap of four numbers.
use mathlib.Core.Path.{subst}
use go_replayer.Prelude.{ℕ, List, [], ◌∷◌, ◌≡◌, refl, some, arith}
use go_replayer.Heap.Slice.{
  Keyed, init, push, pop, init_loop, down, down_loop, smaller_child, less, swap, get,
}
use go_replayer.Heap.Order.{IsHeap}
use go_replayer.Heap.Sink.{init-IsHeap}
use go_replayer.Heap.Ops.{Popped, push-IsHeap, pop-Popped}
use mathlib.Core.List.{Perm}

instance abbrev number_keyed : Keyed ℕ
number_keyed = record { key = λ n. n; filler = 0 }

abbrev numbers : List ℕ
numbers = 7 ∷ 3 ∷ 9 ∷ 1 ∷ []

abbrev heap : List ℕ
heap = 1 ∷ 3 ∷ 9 ∷ 7 ∷ []

numbers-init : init numbers ≡ heap
unfolding init init_loop down down_loop smaller_child less swap get
numbers-init = refl

heap-IsHeap : IsHeap heap
heap-IsHeap = subst IsHeap numbers-init (init-IsHeap numbers).0

push-IsHeap_example : IsHeap (push heap 2) × Perm (push heap 2) (2 ∷ heap)
push-IsHeap_example = push-IsHeap heap 2 heap-IsHeap

pop-Popped_example : (x : ℕ) × (rest : List ℕ) × (pop heap ≡ some (x, rest)) × Popped heap x rest
pop-Popped_example = pop-Popped heap (omega arith) heap-IsHeap
