-- ===== src/Windows/Capture.antt =====
-- The bounded captures of timestamps: WindowAnalyzer.Record, Dropped and Snapshot of metrics.go,
-- which stats.recordArrival and stats.snapshot of cmd/grpc-gap-target/main.go repeat. A call holds
-- the mutex for its whole length, so calls follow one another.
use Prim.Native.Nat.{zero}
use native.Mathlib.Decide.{dec_lt}
use mathlib.Core.List.{append-nil, append_assoc}
use go_replayer.Prelude.{
  ℕ, List, [], if◌then◌else◌, ◌∷◌, ◌<◌, ◌≡◌, ltb, take, length, ◌-◌, ◌++◌, ◌+◌, lt→ltb, ◌≤◌, suc,
  arith, le→ltb, length-append, ◌∙◌, zero, refl,
}

abbrev pub sample_cap : ℕ
sample_cap = 5_000_000

pub record Capture : Type 0 where
  pub samples : List ℕ
  pub dropped : ℕ

abbrev pub empty_capture : Capture
empty_capture = record { samples = []; dropped = 0 }

-- Record, and recordArrival: `bound` is analyzerSampleCap, and arrivalSampleCap there.
unfoldable pub record_sample : ℕ → Capture → ℕ → Capture
record_sample bound a t =
    if ltb (length a.samples) bound
    then record a { samples = a.samples ++ t ∷ [] }
    else record a { dropped = a.dropped + 1 }

unfoldable pub record_all : ℕ → Capture → List ℕ → Capture
record_all bound a [] = a
record_all bound a (t ∷ ts) = record_all bound (record_sample bound a t) ts

record_sample-room :
    (bound : ℕ) (a : Capture) (t : ℕ)
    → length a.samples < bound
    → record_sample bound a t ≡ record a { samples = a.samples ++ t ∷ [] }
unfolding record_sample
record_sample-room bound a t h = rw (lt→ltb _ _ h)

record_sample-full :
    (bound : ℕ) (a : Capture) (t : ℕ)
    → bound ≤ length a.samples
    → record_sample bound a t ≡ record a { dropped = a.dropped + 1 }
unfolding record_sample
record_sample-full bound a t h = rw (le→ltb _ _ h)

take-nil : (n : ℕ) → ◌≡◌ {A = List ℕ} (take n []) []
take-nil zero = refl
take-nil (suc n) = refl

record_all-from :
    (bound : ℕ) (ts : List ℕ) (a : Capture)
    → ((record_all bound a ts).samples ≡ a.samples ++ take (bound - length a.samples) ts)
      × ((record_all bound a ts).dropped ≡ a.dropped + (length ts - (bound - length a.samples)))
unfolding record_all
record_all-from bound [] a = (rw (take-nil (bound - length a.samples), append-nil), omega arith)
record_all-from bound (t ∷ ts) a = elim (dec_lt (length a.samples) bound) [
  | yes room ↦
      let a' : Capture = record a { samples = a.samples ++ t ∷ [] } in
      let grown : length a'.samples ≡ length a.samples + 1 = length-append a.samples (t ∷ []) in
      let left : bound - length a.samples ≡ suc (bound - length a'.samples) =
        omega (arith, grown) in
      let ih = record_all-from bound ts a' in
      rw (record_sample-room bound a t room, record_all, left)
        (ih.0 ∙ append_assoc a.samples (t ∷ []) _, omega (arith, ih.1))
  | no full ↦
      let none_left : bound - length a.samples ≡ 0 = omega arith in
      let ih = record_all-from bound ts (record a { dropped = a.dropped + 1 }) in
      rw (record_sample-full bound a t (omega arith), record_all, none_left)
        (rw none_left at ih.0, omega (arith, ih.1))
]

-- A capture keeps the first `bound` timestamps in the order of the calls, and counts each later one
-- as dropped.
pub record_all-take :
    (bound : ℕ) (ts : List ℕ)
    → ((record_all bound empty_capture ts).samples ≡ take bound ts)
      × ((record_all bound empty_capture ts).dropped ≡ length ts - bound)
record_all-take bound ts =
    let whole = record_all-from bound ts empty_capture in
    let all : bound - 0 ≡ bound = omega arith in (rw all at whole.0, omega (arith, whole.1))
