-- ===== src/Servers/Gap.antt =====
-- The two targets of the repository: the dummy target keeps nothing of an arrival, the gap target
-- records it.
use go_replayer.Servers.Answered.{IsAnswered, Serves-IsAnswered}
use go_replayer.Servers.Logged.{
  past_arrival, past_log, HasLogged, Serves-Kept, Serves-HasLogged, peer_of, Serves-arrivals,
}
use go_replayer.Machine.{Machine}
use go_replayer.Windows.GapSummary.{Printed, print_summary}
use go_replayer.Windows.Capture.{Capture, record_sample, empty_capture, record_all, record_all-take}
use go_replayer.Servers.Handler.{
  Server, dummy_lines, gap_lines, Serves, new_server, Line, ServerCall, PeerCert,
}
use go_replayer.Prelude.{
  ℕ, length, ◌≡◌, Option, if◌then◌else◌, ltb, some, none, inl, arith, ◌<◌, sum_of, ◌∷◌, [], ◌-◌,
  inr, refl, List, ap, ◌∙◌, Some, ◌++◌, take, sym,
}
use go_replayer.Windows.Gap.{record_arrival, arrival_sample_cap}

abbrev pub ignore_arrival : ℕ → Unit {0} → Unit {0}
ignore_arrival now kept = kept

abbrev pub DummyTarget : Type 0
DummyTarget = Server dummy_lines ignore_arrival

abbrev pub keep_gap_arrival : ℕ → Capture → Capture
keep_gap_arrival now kept = record_arrival kept now

abbrev pub GapTarget : Type 0
GapTarget = Server gap_lines keep_gap_arrival

-- What is kept is what the arrivals, one after the other, have left.
abbrev pub IsRecorded : List ℕ → Capture → Type 0
IsRecorded ts kept = record_all arrival_sample_cap empty_capture ts ≡ kept

record_all-last :
    (a : Capture) (ts : List ℕ) (t : ℕ)
    → record_all arrival_sample_cap a (ts ++ t ∷ [])
      ≡ record_sample arrival_sample_cap (record_all arrival_sample_cap a ts) t
unfolding record_all
record_all-last a [] t = refl
record_all-last a (u ∷ ts) t = record_all-last (record_sample arrival_sample_cap a u) ts t

keep_gap_arrival-IsRecorded :
    (t : ℕ) (ts : List ℕ) (kept : Capture)
    → IsRecorded ts kept
    → IsRecorded (ts ++ t ∷ []) (keep_gap_arrival t kept)
keep_gap_arrival-IsRecorded t ts kept h =
    record_all-last empty_capture ts t ∙ ap (λ k. keep_gap_arrival t k) h

none-IsRecorded : IsRecorded [] empty_capture
unfolding record_all
none-IsRecorded = refl

-- There is a note exactly where there are more arrivals than samples.
rest_said :
    (bound n : ℕ)
    → (if ltb 0 (n - bound) then some (n - bound) else none)
      ≡ (if ltb bound n then some (n - bound) else none)
rest_said bound n = ground arith

-- What the gap target says when it has stopped: the note on dropped arrivals, if any were, and the
-- summary of the others.
module _ ⦃m : Machine⦄ where
  unfoldable pub gap_report : Capture → Option ℕ × Printed
  gap_report kept =
      (if ltb 0 kept.dropped then some kept.dropped else none, print_summary kept.samples)

  -- Whatever calls come in and however they interleave, the gap target has recorded each call that is
  -- behind recordArrival once: its samples are the first 5,000,000 of the arrivals, in their order, and
  -- its last note gives the number of the others, if there are any. It has printed the certificate of
  -- one peer at most, which is that of a call behind Once. SendMsg was called with "ok" once for each
  -- call that has come so far, and for no other call.
  pub gap_served :
      {s : GapTarget}
      → Serves gap_lines keep_gap_arrival (new_server gap_lines keep_gap_arrival empty_capture) s
      → (length s.arrivals ≡ sum_of past_arrival s.calls)
        × (s.kept.samples ≡ take 5_000_000 s.arrivals)
        × ((gap_report s.kept).0 ≡ (
            if ltb 5_000_000 (length s.arrivals)
            then some (length s.arrivals - 5_000_000)
            else none))
        × HasLogged gap_lines keep_gap_arrival s.once_done s.lines s.calls
        × IsAnswered gap_lines keep_gap_arrival s
  unfolding gap_report
  gap_served {s} run =
      let recorded =
        Serves-Kept gap_lines keep_gap_arrival IsRecorded keep_gap_arrival-IsRecorded
          none-IsRecorded run in
      let (first, others) = record_all-take arrival_sample_cap s.arrivals in
      let dropped : s.kept.dropped ≡ length s.arrivals - arrival_sample_cap =
        ap Capture.dropped (sym recorded) ∙ others in
      (
        Serves-arrivals gap_lines keep_gap_arrival run,
        ap Capture.samples (sym recorded) ∙ first,
        rw dropped (rest_said arrival_sample_cap (length s.arrivals)),
        Serves-HasLogged gap_lines keep_gap_arrival run,
        Serves-IsAnswered gap_lines keep_gap_arrival run,
      )

one_line :
    (lines : List Line) (calls : List ServerCall)
    → Some (λ g. (past_log g ≡ 1) × (lines ≡ dummy_lines (peer_of g))) calls
    → length lines ≡ 1
one_line lines [] h = absurd h
one_line lines (g ∷ gs) (inl h) = ap (length {A = Line}) h.1 ∙ of_peer (peer_of g)
  where
    of_peer : (p : Option PeerCert) → length (dummy_lines p) ≡ 1
    of_peer (some cert) = refl
    of_peer none = refl
one_line lines (g ∷ gs) (inr h) = one_line lines gs h

-- Once a call of the dummy target is behind Once, the target has printed one line, and no more.
pub dummy_served :
    {s : DummyTarget}
    → Serves dummy_lines ignore_arrival (new_server dummy_lines ignore_arrival tt) s
    → 0 < sum_of past_log s.calls
    → length s.lines ≡ 1
unfolding HasLogged
dummy_served {s} run some_call = elim (Serves-HasLogged dummy_lines ignore_arrival run) [
  | inl (off, empty, unlogged) ↦ absurd (omega arith)
  | inr (on, one) ↦ one_line s.lines s.calls one
]
