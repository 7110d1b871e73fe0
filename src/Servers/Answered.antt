-- ===== src/Servers/Answered.antt =====
-- Which calls of a target were answered, and with what.
use mathlib.Core.Path.{subst}
use go_replayer.Servers.Handler.{
  ServerCall, opened_by, PeerCert, logged, Line, arrived, Server, has_request, ServerStep, Serves,
  refused, accept, new_server, served, serving_goes_on, serving_starts, log_peer, arrive,
  receive_fails, receive_request, send,
}
use go_replayer.Prelude.{
  ℕ, Option, List, suc, Text, some, get_elem?, ◌∷◌, ◌++◌, ◌≡◌, none, [], set, ◌+◌, arith, All, ◌*◌,
  refl, ap, codes, ◌∙◌, sym, All-append,
}
use Prim.Native.Nat.{zero}
use go_replayer.Servers.Logged.{log_once_same}

-- 1 for the same index, else 0.
abbrev pub hits : ℕ → ℕ → ℕ
hits zero zero = 1
hits zero (suc j) = 0
hits (suc i) zero = 0
hits (suc i) (suc j) = hits i j

-- How many messages were sent to the call with index `j`.
abbrev pub sends_to : ℕ → List (ℕ × Text) → ℕ
sends_to j [] = 0
sends_to j (x ∷ xs) = hits x.0 j + sends_to j xs

-- How many a call should have got: one, if it is behind SendMsg.
abbrev pub sends_of : ServerCall → ℕ
sends_of (opened_by p) = 0
sends_of (logged p) = 0
sends_of (arrived p) = 0
sends_of (has_request p req) = 0
sends_of (refused p e) = 0
sends_of (served p failure) = 1

abbrev pub sends_due : Option ServerCall → ℕ
sends_due none = 0
sends_due (some g) = sends_of g

sends_to-append :
    (j i : ℕ) (text : Text) (xs : List (ℕ × Text))
    → sends_to j (xs ++ (i, text) ∷ []) ≡ sends_to j xs + hits i j
sends_to-append j i text [] = omega arith
sends_to-append j i text (x ∷ xs) = omega (arith, sends_to-append j i text xs)

sends_due-append :
    (gs : List ServerCall) (p : Option PeerCert) (j : ℕ)
    → sends_due (get_elem? (gs ++ opened_by p ∷ []) j) ≡ sends_due (get_elem? gs j)
sends_due-append [] p zero = refl
sends_due-append [] p (suc j) = refl
sends_due-append (g ∷ gs) p zero = refl
sends_due-append (g ∷ gs) p (suc j) = sends_due-append gs p j

sends_due-set :
    (gs : List ServerCall) (i j : ℕ) (old new : ServerCall) (n : ℕ)
    → get_elem? gs i ≡ some old
    → sends_of new ≡ sends_of old + n
    → sends_due (get_elem? (set gs i new) j) ≡ sends_due (get_elem? gs j) + n * hits i j
sends_due-set [] i j old new n e h = cc
sends_due-set (g ∷ gs) zero zero old new n e h =
    let same : g ≡ old = ground arith in omega (arith, h, ap sends_of same)
sends_due-set (g ∷ gs) zero (suc j) old new n e h = omega arith
sends_due-set (g ∷ gs) (suc i) zero old new n e h = omega arith
sends_due-set (g ∷ gs) (suc i) (suc j) old new n e h = sends_due-set gs i j old new n e h

-- A step that sends nothing.
unsent_step :
    (gs : List ServerCall) (i j : ℕ) (old new : ServerCall)
    → get_elem? gs i ≡ some old
    → sends_of new ≡ sends_of old
    → sends_due (get_elem? (set gs i new) j) ≡ sends_due (get_elem? gs j)
unsent_step gs i j old new e h = omega (arith, sends_due-set gs i j old new 0 e (omega (arith, h)))

module _ {Kept : Type 0} (print_peer : Option PeerCert → List Line)
    (keep_arrival : ℕ → Kept → Kept) where
  -- Each call behind SendMsg got one message, the others none, and each message is "ok".
  pub record IsAnswered (s : Server print_peer keep_arrival) : Type 0 where
    pub once : (j : ℕ) → sends_to j s.sent ≡ sends_due (get_elem? s.calls j)
    pub all_ok : All (λ x. x.1 ≡ codes "ok") s.sent

  Step-IsAnswered :
      {s t : Server print_peer keep_arrival}
      → ServerStep print_peer keep_arrival s t
      → IsAnswered s
      → IsAnswered t
  Step-IsAnswered {s} (accept p) v = record {
    once = λ j. v.once j ∙ sym (sends_due-append s.calls p j);
    all_ok = v.all_ok;
  }
  Step-IsAnswered {s} (log_peer i p e) v =
      let (same_kept, same_arrivals, same_sent) = log_once_same print_peer keep_arrival s p in
      record {
        once = λ j.
            ap (sends_to j) same_sent
            ∙ v.once j
            ∙ sym (unsent_step s.calls i j (opened_by p) (logged p) e refl);
        all_ok = subst (All (λ (x : ℕ × Text). x.1 ≡ codes "ok")) (sym same_sent) v.all_ok;
      }
  Step-IsAnswered {s} (arrive i p now e) v = record {
    once = λ j. v.once j ∙ sym (unsent_step s.calls i j (logged p) (arrived p) e refl);
    all_ok = v.all_ok;
  }
  Step-IsAnswered {s} (receive_fails i p x e) v = record {
    once = λ j. v.once j ∙ sym (unsent_step s.calls i j (arrived p) (refused p x) e refl);
    all_ok = v.all_ok;
  }
  Step-IsAnswered {s} (receive_request i p req e) v = record {
    once = λ j. v.once j ∙ sym (unsent_step s.calls i j (arrived p) (has_request p req) e refl);
    all_ok = v.all_ok;
  }
  Step-IsAnswered {s} (send i p req x e) v = record {
    once = λ j. omega (
      arith,
      v.once j,
      sends_to-append j i (codes "ok") s.sent,
      sends_due-set s.calls i j (has_request p req) (served p x) 1 e refl,
    );
    all_ok = All-append (λ y. y.1 ≡ codes "ok") s.sent ((i, codes "ok") ∷ []) v.all_ok (refl, tt);
  }

  pub Serves-IsAnswered :
      {kept : Kept} {s : Server print_peer keep_arrival}
      → Serves print_peer keep_arrival (new_server print_peer keep_arrival kept) s
      → IsAnswered s
  Serves-IsAnswered serving_starts = record { once = λ j. refl; all_ok = tt }
  Serves-IsAnswered (serving_goes_on run st) = Step-IsAnswered st (Serves-IsAnswered run)
