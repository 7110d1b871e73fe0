-- ===== src/Windows/Latency.antt =====
-- latencyStats and its add of main.go: exact extremes, count and sum, with a bounded reservoir of the
-- values. `bound` is maxLatencySamples. The callers hold a mutex.
use mathlib.Core.Path.{subst}
use go_replayer.Machine.{Machine, zero_float}
use go_replayer.Prelude.{
  zero, suc, min, ℕ, [], ◌^◌, List, ◌+◌, if◌then◌else◌, ◌∷◌, length, All, ltb, ◌==◌, ◌≤◌,
  Bool-cases, ◌||◌, ◌≡◌, inl, ◌++◌, set, arith, All-append, length-append, inr, ltb→lt, length-set,
  not_ltb→le, All-map, sym, true, lt→ltb, ◌∙◌, ap, refl,
}
use mathlib.Core.List.{Mem, mem-cons_self, mem-cons_of_mem, append-nil, append_assoc}

abbrev pub max_latency_samples : ℕ
max_latency_samples = 2 ^ 20

module _ ⦃m : Machine⦄ where
  open m use {Float, lt, add, Rng, int63n}

  pub record LatencyStats : Type 0 where
    pub count : ℕ
    pub sum : Float
    pub lowest : Float
    pub highest : Float
    pub reservoir : List Float
    pub rng : Rng

  unfoldable pub new_latency_stats : Rng → LatencyStats
  new_latency_stats g = record {
    count = 0;
    sum = zero_float;
    lowest = zero_float;
    highest = zero_float;
    reservoir = [];
    rng = g;
  }

  -- The end of `add` on `count` values: the reservoir takes the value while it has room, and later in
  -- place of a random one.
  unfoldable pub offer : ℕ → ℕ → List Float → Float → Rng → List Float × Rng
  offer bound count reservoir v g =
      let (j, g') = int63n g count in
      if ltb (length reservoir) bound
      then (reservoir ++ v ∷ [], g)
      else if ltb j (length reservoir)
      then (set reservoir j v, g')
      else (reservoir, g')

  unfoldable pub add_latency : ℕ → LatencyStats → Float → LatencyStats
  add_latency bound l v =
      let (kept, g) = offer bound (l.count + 1) l.reservoir v l.rng in
      record {
        count = l.count + 1;
        sum = add l.sum v;
        lowest = if (l.count == 0) || lt v l.lowest then v else l.lowest;
        highest = if (l.count == 0) || lt l.highest v then v else l.highest;
        reservoir = kept;
        rng = g;
      }

  unfoldable pub add_latencies : ℕ → LatencyStats → List Float → LatencyStats
  add_latencies bound l [] = l
  add_latencies bound l (v ∷ vs) = add_latencies bound (add_latency bound l v) vs

  length-offer :
      (bound count : ℕ) (kept : List Float) (v : Float) (g : Rng)
      → length kept ≤ bound
      → length (offer bound count kept v g).0 ≡ min bound (length kept + 1)
  unfolding offer
  length-offer bound count kept v g h = elim (Bool-cases (ltb (length kept) bound)) [
    | inl room ↦ rw room (omega (arith, length-append kept (v ∷ []), ltb→lt _ _ room))
    | inr full ↦ elim (Bool-cases (ltb (int63n g count).0 (length kept))) [
      | inl hit ↦
          rw (full, hit) (omega (arith, length-set kept (int63n g count).0 v, not_ltb→le _ _ full))
      | inr miss ↦ rw (full, miss) (omega (arith, not_ltb→le _ _ full))
    ]
  ]

  All-set :
      (P : Float → Type 0) (xs : List Float) (i : ℕ) (v : Float)
      → All P xs
      → P v
      → All P (set xs i v)
  All-set P [] i v h p = tt
  All-set P (x ∷ xs) zero v h p = (p, h.1)
  All-set P (x ∷ xs) (suc i) v h p = (h.0, All-set P xs i v h.1 p)

  All-offer :
      (P : Float → Type 0) (bound count : ℕ) (kept : List Float) (v : Float) (g : Rng)
      → All P kept
      → P v
      → All P (offer bound count kept v g).0
  unfolding offer
  All-offer P bound count kept v g h p = elim (Bool-cases (ltb (length kept) bound)) [
    | inl room ↦ rw room (All-append P kept (v ∷ []) h (p, tt))
    | inr full ↦ elim (Bool-cases (ltb (int63n g count).0 (length kept))) [
      | inl hit ↦ rw (full, hit) (All-set P kept (int63n g count).0 v h p)
      | inr miss ↦ rw (full, miss) h
    ]
  ]

  -- The counter and the reservoir agree.
  abbrev IsFull : ℕ → LatencyStats → Type 0
  IsFull bound l = length l.reservoir ≡ min bound l.count

  add_latency-IsFull :
      (bound : ℕ) (l : LatencyStats) (v : Float)
      → IsFull bound l
      → IsFull bound (add_latency bound l v)
  unfolding add_latency
  add_latency-IsFull bound l v h =
      let grown = length-offer bound (l.count + 1) l.reservoir v l.rng (omega arith) in omega arith

  add_latencies-IsFull :
      (bound : ℕ) (l : LatencyStats) (vs : List Float)
      → IsFull bound l
      → ((add_latencies bound l vs).count ≡ l.count + length vs)
        × IsFull bound (add_latencies bound l vs)
  unfolding add_latencies add_latency
  add_latencies-IsFull bound l [] h = (omega arith, h)
  add_latencies-IsFull bound l (v ∷ vs) h =
      let rest =
        add_latencies-IsFull bound (add_latency bound l v) vs (add_latency-IsFull bound l v h) in
      (omega (arith, rest.0), rest.1)

  All-add_latencies :
      (P : Float → Type 0) (bound : ℕ) (l : LatencyStats) (vs : List Float)
      → All P l.reservoir
      → All P vs
      → All P (add_latencies bound l vs).reservoir
  unfolding add_latencies add_latency
  All-add_latencies P bound l [] h hs = h
  All-add_latencies P bound l (v ∷ vs) h hs =
      All-add_latencies P bound (add_latency bound l v) vs
        (All-offer P bound (l.count + 1) l.reservoir v l.rng h hs.0) hs.1

  pub All-Mem : (vs : List Float) → All (λ v. Mem v vs) vs
  All-Mem [] = tt
  All-Mem (v ∷ vs) = (
    mem-cons_self,
    All-map (λ u. Mem u vs) (λ u. Mem u (v ∷ vs)) vs (λ u i. mem-cons_of_mem v i) (All-Mem vs),
  )

  -- After any latencies the count is exact, and the reservoir holds as many of them as there are, up to
  -- its bound, and nothing else.
  pub add_latencies_sample :
      (bound : ℕ) (g : Rng) (vs : List Float)
      → ((add_latencies bound (new_latency_stats g) vs).count ≡ length vs)
        × (length (add_latencies bound (new_latency_stats g) vs).reservoir ≡ min bound (length vs))
        × All (λ v. Mem v vs) (add_latencies bound (new_latency_stats g) vs).reservoir
  unfolding new_latency_stats
  add_latencies_sample bound g vs =
      let full = add_latencies-IsFull bound (new_latency_stats g) vs (omega arith) in
      (
        omega (arith, full.0),
        omega (arith, full.0, full.1),
        All-add_latencies (λ v. Mem v vs) bound (new_latency_stats g) vs tt (All-Mem vs),
      )

  add_latencies_from :
      (bound : ℕ) (l : LatencyStats) (vs : List Float)
      → length l.reservoir + length vs ≤ bound
      → (add_latencies bound l vs).reservoir ≡ l.reservoir ++ vs
  unfolding add_latencies add_latency offer
  add_latencies_from bound l [] h = sym (append-nil l.reservoir)
  add_latencies_from bound l (v ∷ vs) h =
      let room : ltb (length l.reservoir) bound ≡ true = lt→ltb _ _ (omega arith) in
      let kept : (add_latency bound l v).reservoir ≡ l.reservoir ++ v ∷ [] = rw room refl in
      add_latencies_from bound (add_latency bound l v) vs (
        subst (λ r. length r + length vs ≤ bound) (sym kept)
          (omega (arith, length-append l.reservoir (v ∷ []))))
      ∙ ap (λ r. r ++ vs) kept
      ∙ append_assoc l.reservoir (v ∷ []) vs

  -- Up to the bound the reservoir is exact: it holds all latencies, in order.
  pub add_latencies_exact :
      (bound : ℕ) (g : Rng) (vs : List Float)
      → length vs ≤ bound
      → (add_latencies bound (new_latency_stats g) vs).reservoir ≡ vs
  unfolding new_latency_stats
  add_latencies_exact bound g vs h = add_latencies_from bound (new_latency_stats g) vs (omega arith)
