-- ===== src/Parity/Concurrent.antt =====
-- The goroutines of main in cmd/grpc-parity-check/main.go end in any order, so the replies are counted
-- in any order.
use go_replayer.Machine.{Machine}
use go_replayer.Prelude.{Option, List, ◌≡◌, arith, ◌∙◌, true, refl, ap, ◌∷◌}
use go_replayer.Parity.Verdict.{Totals, Class, count_all, Reply, count, no_totals}
use go_replayer.Parity.Acceptance.{classify_lem}
use mathlib.Core.List.{Perm, Permᴰ}
use mathlib.Core.Logic.{∥∥₁_elim}
use mathlib.Core.Option
use native.Mathlib.Nat.{ℕ_set}

Totals-set : IsSet Totals
Totals-set = hlevel ℕ_set

Option_Totals-set : IsSet (Option Totals)
Option_Totals-set = hlevel Totals-set

pub count_comm : (t : Totals) (c d : Class) → count (count t c) d ≡ count (count t d) c
unfolding count
count_comm t c d = ground arith

module _ ⦃m : Machine⦄ where
  open m use {Float}

  count_all_swap :
      (tolerance : Float) (t : Totals) (p q : Reply × Reply) (replies : List (Reply × Reply))
      → count_all tolerance t (p ∷ q ∷ replies) ≡ count_all tolerance t (q ∷ p ∷ replies)
  unfolding count_all Option.bind
  count_all_swap tolerance t p q replies =
      let (c, found_c, fine_c) = classify_lem true tolerance p.0 p.1 in
      let (d, found_d, fine_d) = classify_lem true tolerance q.0 q.1 in
      rw (found_c, found_d) (ap (λ u. count_all tolerance u replies) (count_comm t c d))

  count_all-permᴰ :
      (tolerance : Float) {rs qs : List (Reply × Reply)}
      → Permᴰ rs qs
      → (t : Totals) → count_all tolerance t rs ≡ count_all tolerance t qs
  unfolding count_all Option.bind
  count_all-permᴰ tolerance Permᴰ.nil t = refl
  count_all-permᴰ tolerance (Permᴰ.cons {a} {b} e d) t =
      let (c, found, fine) = classify_lem true tolerance b.0 b.1 in
      rw (e, found) (count_all-permᴰ tolerance d (count t c))
  count_all-permᴰ tolerance (Permᴰ.swap {a} {b} {a'} {b'} {l} e f) t =
      rw (e, f) (count_all_swap tolerance t b' a' l)
  count_all-permᴰ tolerance (Permᴰ.trans d d') t =
      count_all-permᴰ tolerance d t ∙ count_all-permᴰ tolerance d' t

  -- In whatever order the goroutines count the pairs of replies, the totals at the end are the same.
  pub count_all-perm :
      (tolerance : Float) (rs qs : List (Reply × Reply))
      → Perm rs qs
      → count_all tolerance no_totals rs ≡ count_all tolerance no_totals qs
  count_all-perm tolerance rs qs p =
      ∥∥₁_elim p
        (Option_Totals-set (count_all tolerance no_totals rs) (count_all tolerance no_totals qs))
        (λ d. count_all-permᴰ tolerance d no_totals)
