-- ===== src/Run/Filled.antt =====
-- What the bounded lists of a run of main.go leave out: the samples of the analyzer and the messages of
-- errors are full before anything is left out.
use go_replayer.Prelude.Int.{Time}
use mathlib.Core.Path.{subst}
use go_replayer.Windows.Capture.{record_sample, Capture, sample_cap}
use go_replayer.Prelude.{
  ℕ, Text, ◌≡◌, ◌⊎◌, ◌≤◌, length, arith, ◌<◌, ◌∷◌, inl, Bool-cases, ◌+◌, ◌++◌, inr, is_empty, sym,
  min, [], refl, ltb, ◌||◌, ◌-◌, ltb→lt, length-append, not_ltb→le,
}
use go_replayer.Machine.{Machine}
use go_replayer.Run.State.{
  ErrorCounts, bump_error, count_error, System, log_reply, Setup, max_distinct_errors, Reply,
  is_seen, error_summary,
}
use go_replayer.Run.Step.{
  begin, later, Reach, Step, choose, enqueue, count_sent, count_second, close, finish, receive,
  invoke, answer, tally_second, tally_total, log, exit, swap_sent, swap_ok, swap_err,
  take_latencies, drain, main_run, new_run,
}

-- A sample is dropped only behind `sample_cap` others.
abbrev pub CaptureIsFilled : Capture → Type 0
CaptureIsFilled a =
    (length a.samples ≤ sample_cap) × ((a.dropped ≡ 0) ⊎ (length a.samples ≡ sample_cap))

record_sample-CaptureIsFilled :
    (a : Capture) (t : ℕ) → CaptureIsFilled a → CaptureIsFilled (record_sample sample_cap a t)
unfolding record_sample
record_sample-CaptureIsFilled a t (few, h) = elim (Bool-cases (ltb (length a.samples) sample_cap)) [
  | inl room ↦
      let below = ltb→lt (length a.samples) sample_cap room in
      rw room (omega (arith, below, length-append a.samples (t ∷ [])), none_dropped below h)
  | inr full ↦ rw full (few, inr (omega (arith, few, not_ltb→le (length a.samples) _ full)))
]
  where
    none_dropped :
        length a.samples < sample_cap
        → (a.dropped ≡ 0) ⊎ (length a.samples ≡ sample_cap)
        → (a.dropped ≡ 0) ⊎ (length (a.samples ++ t ∷ []) ≡ sample_cap)
    none_dropped below (inl k) = inl k
    none_dropped below (inr k) = absurd (omega (arith, below, k))

-- An error is counted without its message only beside `max_distinct_errors` messages.
abbrev pub AreListed : ErrorCounts → ℕ → Type 0
AreListed counts others = (others ≡ 0) ⊎ (max_distinct_errors ≤ length counts)

bump_error-longer : (msg : Text) (es : ErrorCounts) → length es ≤ length (bump_error msg es)
unfolding bump_error
bump_error-longer msg [] = omega arith
bump_error-longer msg (e ∷ es) = ground (arith, bump_error-longer msg es)

count_error-AreListed :
    (msg : Text) (es : ErrorCounts) (others : ℕ)
    → AreListed es others
    → AreListed (count_error msg es others).0 (count_error msg es others).1
unfolding count_error
count_error-AreListed msg es others h =
    elim (Bool-cases (is_seen msg es || ltb (length es) max_distinct_errors)) [
      | inl kept ↦ rw kept (longer h)
      | inr over ↦ rw over (inr (ground arith))
    ]
  where
    longer : AreListed es others → AreListed (bump_error msg es) others
    longer (inl k) = inl k
    longer (inr k) = inr (omega (arith, k, bump_error-longer msg es))

module _ ⦃m : Machine⦄ where
  open m use {Rng}

  pub record IsFilled (s : System) : Type 0 where
    pub captured : CaptureIsFilled s.analyzer
    pub listed : AreListed s.error_counts s.other_errors

  log_reply-AreListed :
      (s : System) (r : Reply)
      → AreListed s.error_counts s.other_errors
      → AreListed (log_reply s r).error_counts (log_reply s r).other_errors
  unfolding log_reply
  log_reply-AreListed s r h = elim (Bool-cases (is_empty (error_summary r))) [
    | inl good ↦ rw good h
    | inr bad ↦ rw bad (count_error-AreListed (error_summary r) s.error_counts s.other_errors h)
  ]

  log_reply-analyzer : (s : System) (r : Reply) → (log_reply s r).analyzer ≡ s.analyzer
  unfolding log_reply
  log_reply-analyzer s r = ground arith

  Reach-IsFilled :
      {setup : Setup} {start s : System} → IsFilled start → Reach setup start s → IsFilled s
  Reach-IsFilled h begin = h
  Reach-IsFilled h (later r st) = go st (Reach-IsFilled h r)
    where
      go : {setup : Setup} {s t : System} → Step setup s t → IsFilled s → IsFilled t
      go {s = s} (choose fuel now t k sched req e p g) v = record {
        captured = record_sample-CaptureIsFilled s.analyzer now v.captured;
        listed = v.listed;
      }
      go {s = s} (log i r e) v = record {
        captured = subst CaptureIsFilled (sym (log_reply-analyzer s r)) v.captured;
        listed = log_reply-AreListed s r v.listed;
      }
      go (enqueue job e p) v = record { captured = v.captured; listed = v.listed }
      go (count_sent e) v = record { captured = v.captured; listed = v.listed }
      go (count_second e) v = record { captured = v.captured; listed = v.listed }
      go (close fuel sched e p) v = record { captured = v.captured; listed = v.listed }
      go (finish e p g) v = record { captured = v.captured; listed = v.listed }
      go (receive i job rest e p) v = record { captured = v.captured; listed = v.listed }
      go (invoke i job e) v = record { captured = v.captured; listed = v.listed }
      go (answer i r e p) v = record { captured = v.captured; listed = v.listed }
      go (tally_second i r e) v = record { captured = v.captured; listed = v.listed }
      go (tally_total i r e) v = record { captured = v.captured; listed = v.listed }
      go (exit i e p g) v = record { captured = v.captured; listed = v.listed }
      go (swap_sent e p) v = record { captured = v.captured; listed = v.listed }
      go (swap_ok e) v = record { captured = v.captured; listed = v.listed }
      go (swap_err e) v = record { captured = v.captured; listed = v.listed }
      go (take_latencies e) v = record { captured = v.captured; listed = v.listed }
      go (drain e) v = record { captured = v.captured; listed = v.listed }

  pub main_run-IsFilled :
      {setup : Setup} {s : System} (start : Time) (seed g : Rng)
      → Reach setup (main_run setup start seed g) s
      → IsFilled s
  unfolding main_run new_run
  main_run-IsFilled start seed g r =
      Reach-IsFilled (record { captured = (omega arith, inl refl); listed = inl refl }) r

  -- What is dropped of `n` samples.
  pub filled_capture :
      (a : Capture) (n : ℕ)
      → CaptureIsFilled a
      → length a.samples + a.dropped ≡ n
      → (length a.samples ≡ min n sample_cap) × (a.dropped ≡ n - sample_cap)
  filled_capture a n (few, inl h) e = (omega (arith, few, h, e), omega (arith, few, h, e))
  filled_capture a n (few, inr h) e = (omega (arith, few, h, e), omega (arith, few, h, e))
