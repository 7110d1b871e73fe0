-- ===== src/Scheduler/Emission.antt =====
-- The arrivals that Next emits: in time order, before the deadline, and after finitely many rounds.
use go_replayer.Prelude.Sorted.{IsSorted}
use Prim.Native.Nat.{zero}
use go_replayer.Scheduler.Order.{Peeked-Advanced}
use go_replayer.Scheduler.Invariant.{IsReady, Peeked, peek_candidates-Peeked}
use native.Mathlib.Nat.{le_trans, le_refl}
use go_replayer.Scheduler.Steps.{
  Ordered, fire_poisson-Ordered, fire_spike-Ordered, advance_burst_onset-IsReady,
  spawn_burst-IsReady,
}
use go_replayer.Prelude.{
  ◌≤◌, ◌≡◌, ℕ, true, suc, ◌<◌, ltb→lt, zero, Bool-cases, inl, inr, List, All, refl, [], map, ◌∷◌,
  All-map,
}
use go_replayer.Machine.{Machine, Laws}
use go_replayer.Prelude.Int.{Time, before}
use go_replayer.Scheduler.State.{stream_keyed, Scheduler, ArrivalKind}
use go_replayer.Scheduler.Next.{
  SchedulerEvent, ev_none, ev_poisson, ev_spike, ev_burst_onset, NextResult, arrival, exhausted,
  crashed, out_of_fuel, dispatch, next, peek_earliest, advance_burst_onset, spawn_burst,
}

module _ ⦃m : Machine⦄ where
  Ordered-weaken :
      (now t deadline : Time) (r : NextResult)
      → now ≤ t
      → Ordered t deadline r
      → Ordered now deadline r
  Ordered-weaken now t deadline (arrival u k s') h o = (le_trans h o.0, o.1, o.2, o.3)
  Ordered-weaken now t deadline (exhausted s') h o = (o.0, o.1, le_trans h o.2, o.3)
  Ordered-weaken now t deadline crashed h o = o
  Ordered-weaken now t deadline out_of_fuel h o = o

  early : (t : Time) (s : Scheduler) → before t s.deadline ≡ true → t < s.deadline
  early t s h = ltb→lt t s.deadline h

  dispatch-Ordered :
      Laws
      → (again : Scheduler → NextResult)
      → ((t : Time) (s : Scheduler) → IsReady t s → Ordered t s.deadline (again s))
      → (now : Time) (s : Scheduler) (k : SchedulerEvent) (t : Time) → IsReady now s
      → Peeked s.poisson_streams s.pending_spikes s.burst_sched s.next_burst_onset (k, t)
      → Ordered now s.deadline (dispatch again s k t)
  unfolding dispatch
  dispatch-Ordered laws again ih now s ev_none t r p = (now, refl, le_refl now, r)
  dispatch-Ordered laws again ih now s ev_poisson t r p =
      let a = Peeked-Advanced now s ev_poisson t r p (λ e. cc) in
      elim (Bool-cases (before t s.deadline)) [
        | inl soon ↦ rw soon (
            Ordered-weaken now t s.deadline _ a.later
              (fire_poisson-Ordered laws t s a.ready (early t s soon) p.source))
        | inr late ↦ rw late (now, refl, le_refl now, r)
      ]
  dispatch-Ordered laws again ih now s ev_spike t r p =
      let a = Peeked-Advanced now s ev_spike t r p (λ e. cc) in
      elim (Bool-cases (before t s.deadline)) [
        | inl soon ↦ rw soon (
            Ordered-weaken now t s.deadline _ a.later
              (fire_spike-Ordered t s a.ready (early t s soon) p.source))
        | inr late ↦ rw late (now, refl, le_refl now, r)
      ]
  dispatch-Ordered laws again ih now s ev_burst_onset t r p =
      let a = Peeked-Advanced now s ev_burst_onset t r p (λ e. cc) in
      let on = p.source.0 in
      elim (Bool-cases (before t s.deadline)) [
        | inl soon ↦ rw soon (
            Ordered-weaken now t s.deadline _ a.later (
              unfold advance_burst_onset spawn_burst in
              ih t (advance_burst_onset (spawn_burst s t)) (
                advance_burst_onset-IsReady laws t (spawn_burst s t) on
                  (spawn_burst-IsReady laws t s on a.ready))))
        | inr late ↦ rw late (now, refl, le_refl now, r)
      ]

  -- Under the laws, from a scheduler that is ready at `now`, Next never panics; an arrival is at `now` or later and
  -- before the deadline, and leaves a scheduler that is ready at that arrival.
  pub next-Ordered :
      Laws
      → (fuel : ℕ) (now : Time) (s : Scheduler) → IsReady now s
      → Ordered now s.deadline (next fuel s)
  unfolding next peek_earliest
  next-Ordered laws zero now s r = tt
  next-Ordered laws (suc fuel) now s r =
      dispatch-Ordered laws (next fuel) (λ t s'. next-Ordered laws fuel t s') now s _ _ r
        (peek_candidates-Peeked s.poisson_streams s.pending_spikes s.burst_sched s.next_burst_onset)

  -- The sender's loop over Next, at most `n` arrivals long: what it dispatches, with the times.
  unfoldable pub arrivals : ℕ → ℕ → Scheduler → List (Time × ArrivalKind)
  arrivals zero fuel s = []
  arrivals (suc n) fuel s = elim (next fuel s) [
    | arrival t k s' ↦ (t, k) ∷ arrivals n fuel s'
    | _ ↦ []
  ]

  abbrev pub times : List (Time × ArrivalKind) → List Time
  times = map (λ a. a.0)

  pub arrivals-from :
      Laws
      → (n fuel : ℕ) (now : Time) (s : Scheduler) → IsReady now s
      → All (λ t. (now ≤ t) × (t < s.deadline)) (times (arrivals n fuel s))
        × IsSorted (times (arrivals n fuel s))
  unfolding arrivals
  arrivals-from laws zero fuel now s r = (tt, tt)
  arrivals-from laws (suc n) fuel now s r =
      go (next fuel s) (next-Ordered laws fuel now s r) λ t s' r'. arrivals-from laws n fuel t s' r'
    where
      go :
          (res : NextResult)
          → Ordered now s.deadline res
          → ((t : Time) (s' : Scheduler)
              → IsReady t s'
              → All (λ u. (t ≤ u) × (u < s'.deadline)) (times (arrivals n fuel s'))
                × IsSorted (times (arrivals n fuel s')))
          → All
              (λ t. (now ≤ t) × (t < s.deadline))
              (times (elim res as (λ _. List (Time × ArrivalKind)) [
                | arrival t k s' ↦ (t, k) ∷ arrivals n fuel s'
                | _ ↦ []
              ]))
            × IsSorted (
                times (elim res as (λ _. List (Time × ArrivalKind)) [
                  | arrival t k s' ↦ (t, k) ∷ arrivals n fuel s'
                  | _ ↦ []
                ]))
      go (arrival t k s') o ih =
          let (bounds, ordered) = ih t s' o.3 in
          (
            (
              (o.0, o.1),
              All-map _ (λ u. (now ≤ u) × (u < s.deadline)) (times (arrivals n fuel s'))
                  (λ u b. (le_trans o.0 b.0, rw (← o.2) b.1)) bounds,
            ),
            (All-map _ (λ u. t ≤ u) (times (arrivals n fuel s')) (λ u b. b.0) bounds, ordered),
          )
      go (exhausted s') o ih = (tt, tt)
      go crashed o ih = (tt, tt)
      go out_of_fuel o ih = (tt, tt)
