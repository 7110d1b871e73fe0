-- ===== src/Servers/Logged.antt =====
-- What the two targets have printed and kept, whatever the calls and their interleaving.
use go_replayer.Run.Workers.{sum_of-set}
use mathlib.Core.Path.{subst}
use go_replayer.Prelude.{
  List, Option, ℕ, ◌∷◌, ◌++◌, ◌⊎◌, inl, get_elem?, some, inr, ◌≡◌, Bool, [], set, false, sum_of,
  arith, true, sum_of-append, length, ap, ◌∙◌, refl, length-append, sym, Some, Some-set,
  Some-append, Some-set_new,
}
use go_replayer.Servers.Handler.{
  log_once, ServerCall, PeerCert, opened_by, served, Line, logged, Server, arrived, ServerStep,
  has_request, accept, log_peer, arrive, receive_fails, receive_request, send, Serves, new_server,
  serving_goes_on, serving_starts, refused,
}

abbrev pub peer_of : ServerCall → Option PeerCert
peer_of (opened_by p) = p
peer_of (logged p) = p
peer_of (arrived p) = p
peer_of (has_request p req) = p
peer_of (refused p e) = p
peer_of (served p failure) = p

-- A call that is behind Once, and behind recordArrival.
abbrev pub past_log : ServerCall → ℕ
past_log (opened_by p) = 0
past_log (logged p) = 1
past_log (arrived p) = 1
past_log (has_request p req) = 1
past_log (refused p e) = 1
past_log (served p failure) = 1

abbrev pub past_arrival : ServerCall → ℕ
past_arrival (opened_by p) = 0
past_arrival (logged p) = 0
past_arrival (arrived p) = 1
past_arrival (has_request p req) = 1
past_arrival (refused p e) = 1
past_arrival (served p failure) = 1

module _ {Kept : Type 0} (print_peer : Option PeerCert → List Line)
    (keep_arrival : ℕ → Kept → Kept) where
  -- Nothing was printed and no call is behind Once, or the lines are those of one call that is.
  unfoldable pub HasLogged : Bool → List Line → List ServerCall → Type 0
  HasLogged once_done lines calls =
      (once_done ≡ false) × (lines ≡ []) × (sum_of past_log calls ≡ 0)
      ⊎ (once_done ≡ true) × Some (λ g. (past_log g ≡ 1) × (lines ≡ print_peer (peer_of g))) calls

  -- A call goes on behind Once.
  HasLogged-set :
      (b : Bool) (lines : List Line) (calls : List ServerCall) (i : ℕ) (old new : ServerCall)
      → get_elem? calls i ≡ some old
      → peer_of old ≡ peer_of new
      → past_log old ≡ 1
      → past_log new ≡ 1
      → HasLogged b lines calls
      → HasLogged b lines (set calls i new)
  unfolding HasLogged
  HasLogged-set b lines calls i old new e same was is (inl (off, empty, unlogged)) =
      inl (off, empty, omega (arith, sum_of-set past_log calls i old new e))
  HasLogged-set b lines calls i old new e same was is (inr (on, one)) =
      inr (on, Some-set _ calls i old new e (λ h. (is, h.1 ∙ ap print_peer same)) one)

  Step-HasLogged :
      {s t : Server print_peer keep_arrival}
      → ServerStep print_peer keep_arrival s t
      → HasLogged s.once_done s.lines s.calls
      → HasLogged t.once_done t.lines t.calls
  unfolding HasLogged log_once
  Step-HasLogged {s} (accept p) (inl (off, empty, unlogged)) =
      inl (off, empty, omega (arith, sum_of-append past_log s.calls (opened_by p ∷ [])))
  Step-HasLogged {s} (accept p) (inr (on, one)) =
      inr (on, Some-append _ s.calls (opened_by p ∷ []) one)
  Step-HasLogged {s} (log_peer i p e) (inl (off, empty, unlogged)) = rw off (
      inr (
        refl,
        Some-set_new _ s.calls i (opened_by p) (logged p) e
            (refl, ap (λ ls. ls ++ print_peer p) empty),
      ))
  Step-HasLogged {s} (log_peer i p e) (inr (on, one)) =
      rw on (inr (refl, Some-set _ s.calls i (opened_by p) (logged p) e (λ h. (refl, h.1)) one))
  Step-HasLogged {s} (arrive i p now e) h =
      HasLogged-set s.once_done s.lines s.calls i (logged p) (arrived p) e refl refl refl h
  Step-HasLogged {s} (receive_fails i p x e) h =
      HasLogged-set s.once_done s.lines s.calls i (arrived p) (refused p x) e refl refl refl h
  Step-HasLogged {s} (receive_request i p req e) h =
      HasLogged-set s.once_done s.lines s.calls i (arrived p) (has_request p req) e refl refl refl h
  Step-HasLogged {s} (send i p req x e) h =
      HasLogged-set s.once_done s.lines s.calls i (has_request p req) (served p x) e refl refl refl
        h

  pub log_once_same :
      (s : Server print_peer keep_arrival) (p : Option PeerCert)
      → ((log_once print_peer keep_arrival s p).kept ≡ s.kept)
        × ((log_once print_peer keep_arrival s p).arrivals ≡ s.arrivals)
        × ((log_once print_peer keep_arrival s p).sent ≡ s.sent)
  unfolding log_once
  log_once_same s p = ground arith

  pub Serves-HasLogged :
      {kept : Kept} {s : Server print_peer keep_arrival}
      → Serves print_peer keep_arrival (new_server print_peer keep_arrival kept) s
      → HasLogged s.once_done s.lines s.calls
  unfolding HasLogged
  Serves-HasLogged serving_starts = inl (refl, refl, refl)
  Serves-HasLogged (serving_goes_on run st) = Step-HasLogged st (Serves-HasLogged run)

  -- Each arrival is that of one call.
  Step-arrivals :
      {s t : Server print_peer keep_arrival}
      → ServerStep print_peer keep_arrival s t
      → length s.arrivals ≡ sum_of past_arrival s.calls
      → length t.arrivals ≡ sum_of past_arrival t.calls
  Step-arrivals {s} (accept p) h =
      omega (arith, h, sum_of-append past_arrival s.calls (opened_by p ∷ []))
  Step-arrivals {s} (log_peer i p e) h = omega (
    arith,
    h,
    ap (length {A = ℕ}) (log_once_same s p).1,
    sum_of-set past_arrival s.calls i (opened_by p) (logged p) e,
  )
  Step-arrivals {s} (arrive i p now e) h = omega (
    arith,
    h,
    length-append s.arrivals (now ∷ []),
    sum_of-set past_arrival s.calls i (logged p) (arrived p) e,
  )
  Step-arrivals {s} (receive_fails i p x e) h =
      omega (arith, h, sum_of-set past_arrival s.calls i (arrived p) (refused p x) e)
  Step-arrivals {s} (receive_request i p req e) h =
      omega (arith, h, sum_of-set past_arrival s.calls i (arrived p) (has_request p req) e)
  Step-arrivals {s} (send i p req x e) h =
      omega (arith, h, sum_of-set past_arrival s.calls i (has_request p req) (served p x) e)

  pub Serves-arrivals :
      {kept : Kept} {s : Server print_peer keep_arrival}
      → Serves print_peer keep_arrival (new_server print_peer keep_arrival kept) s
      → length s.arrivals ≡ sum_of past_arrival s.calls
  Serves-arrivals serving_starts = refl
  Serves-arrivals (serving_goes_on run st) = Step-arrivals st (Serves-arrivals run)

  -- What every arrival keeps of the state and the arrivals so far, every state has.
  pub Serves-Kept :
      (P : List ℕ → Kept → Type 0)
      → ((t : ℕ) (ts : List ℕ) (k : Kept) → P ts k → P (ts ++ t ∷ []) (keep_arrival t k))
      → {kept : Kept} → P [] kept
      → {s : Server print_peer keep_arrival}
      → Serves print_peer keep_arrival (new_server print_peer keep_arrival kept) s
      → P s.arrivals s.kept
  Serves-Kept P keeps h serving_starts = h
  Serves-Kept P keeps h (serving_goes_on run st) = go st (Serves-Kept P keeps h run)
    where
      go :
          {s t : Server print_peer keep_arrival}
          → ServerStep print_peer keep_arrival s t
          → P s.arrivals s.kept
          → P t.arrivals t.kept
      go (accept p) k = k
      go {s} (log_peer i p e) k =
          let (same_kept, same_arrivals, same_sent) = log_once_same s p in
          subst (λ ts. P ts (log_once print_peer keep_arrival s p).kept) (sym same_arrivals)
            (subst (λ kept. P s.arrivals kept) (sym same_kept) k)
      go {s} (arrive i p now e) k = keeps now s.arrivals s.kept k
      go (receive_fails i p x e) k = k
      go (receive_request i p req e) k = k
      go (send i p req x e) k = k
