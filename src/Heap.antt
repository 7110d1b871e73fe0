-- ===== src/Heap.antt =====
-- container/heap of Go's standard library over a slice, as scheduler.go's poissonHeap uses it:
-- `Less` compares one time of each element, `Swap`, `Push` and `Pop` are the slice's.
pub mod Slice
pub mod Order
pub mod Sink
pub mod Rise
pub mod Ops
