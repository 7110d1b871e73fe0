-- ===== src/Run/Account.antt =====
-- The workers: every call of Invoke is counted once, in each of the accounts.
use go_replayer.Windows.Latency.{add_latency, max_latency_samples}
use go_replayer.Replay.Reader.{failed}
use go_replayer.Prelude.{
  length, ℕ, Text, All, sum_of, ◌≡◌, ◌+◌, ◌≤◌, arith, true, is_empty, ◌∷◌, false, [], length-append,
  ◌++◌, get_elem?, some, refl, set,
}
use go_replayer.Machine.{Machine}
use go_replayer.Run.State.{
  Setup, System, Reply, Worker, ErrorCounts, bump_error, count_error, max_distinct_errors, is_seen,
  answered, error_summary, tally_reply, tallied, totalled, failed, idle, received, invoking,
  replied, exited, log_reply,
}
use go_replayer.Run.Step.{
  Step, HasText, choose, enqueue, count_sent, count_second, close, finish, receive, invoke, answer,
  tally_second, tally_total, log, exit, swap_sent, swap_ok, swap_err, take_latencies, drain,
}
use go_replayer.Run.Workers.{
  moved, All-set, All-get_elem?, uncounted, flying, half_ok, half_err, unlogged_ok, unlogged_err,
}

-- How often the messages were seen.
abbrev pub seen : ErrorCounts → ℕ
seen counts = sum_of (λ e. e.1) counts

seen-bump_error : (msg : Text) (es : ErrorCounts) → seen (bump_error msg es) ≡ seen es + 1
unfolding bump_error
seen-bump_error msg [] = omega arith
seen-bump_error msg (e ∷ es) = ground (arith, seen-bump_error msg es)

seen-count_error :
    (msg : Text) (es : ErrorCounts) (others : ℕ)
    → seen (count_error msg es others).0 + (count_error msg es others).1 ≡ seen es + others + 1
unfolding count_error
seen-count_error msg es others = ground (arith, seen-bump_error msg es)

-- A message that is there takes no room.
bump_error-seen :
    (msg : Text) (es : ErrorCounts) → is_seen msg es ≡ true → length (bump_error msg es) ≡ length es
unfolding bump_error is_seen
bump_error-seen msg [] h = cc
bump_error-seen msg (e ∷ es) h = ground (arith, bump_error-seen msg es)

bump_error-new : (msg : Text) (es : ErrorCounts) → length (bump_error msg es) ≤ length es + 1
unfolding bump_error
bump_error-new msg [] = omega arith
bump_error-new msg (e ∷ es) = ground (arith, bump_error-new msg es)

length-count_error :
    (msg : Text) (es : ErrorCounts) (others : ℕ)
    → length es ≤ max_distinct_errors
    → length (count_error msg es others).0 ≤ max_distinct_errors
unfolding count_error
length-count_error msg es others h = ground (arith, bump_error-seen msg es, bump_error-new msg es)

module _ ⦃m : Machine⦄ where
  open m use {Float}

  -- The reply that a worker carries is one that Invoke may return.
  abbrev pub CarriesText : Worker → Type 0
  CarriesText (answered r) = HasText r
  CarriesText (tallied r) = HasText r
  CarriesText (totalled r) = HasText r
  CarriesText _ = Unit

  pub record IsAccounted (s : System) : Type 0 where
    pub texts : All CarriesText s.workers
    pub calls : s.totals.ok + s.totals.err + sum_of uncounted s.workers ≡ length s.invoked
    pub in_flight : s.inflight ≡ sum_of flying s.workers
    pub ok_second : s.second.ok + s.reported.ok ≡ s.totals.ok + sum_of half_ok s.workers
    pub err_second : s.second.err + s.reported.err ≡ s.totals.err + sum_of half_err s.workers
    pub ok_logged : s.ok_lat.count + sum_of unlogged_ok s.workers ≡ s.totals.ok
    pub err_logged :
        seen s.error_counts + s.other_errors + sum_of unlogged_err s.workers ≡ s.totals.err
    pub latencies :
        length s.sec_latencies
          + s.reported_latencies
          + sum_of unlogged_ok s.workers
          + sum_of unlogged_err s.workers
        ≡ s.totals.ok + s.totals.err
    pub few_errors : length s.error_counts ≤ max_distinct_errors

  error_summary-text :
      (lat : Float) (msg : Text)
      → is_empty msg ≡ false
      → is_empty (error_summary (failed lat msg)) ≡ false
  unfolding error_summary
  error_summary-text lat [] h = cc
  error_summary-text lat (c ∷ msg) h = ground arith

  log_reply-failed :
      (s : System) (lat : Float) (msg : Text)
      → is_empty msg ≡ false
      → log_reply s (failed lat msg) ≡ record s {
        sec_latencies = s.sec_latencies ++ lat ∷ [];
        error_counts =
            (count_error (error_summary (failed lat msg)) s.error_counts s.other_errors).0;
        other_errors =
            (count_error (error_summary (failed lat msg)) s.error_counts s.other_errors).1;
      }
  unfolding log_reply
  log_reply-failed s lat msg h = rw (error_summary-text lat msg h, log_reply) refl

  log-IsAccounted :
      (s : System) (i : ℕ) (r : Reply)
      → get_elem? s.workers i ≡ some (totalled r)
      → IsAccounted s
      → IsAccounted (record (log_reply s r) { workers = set s.workers i idle })
  unfolding log_reply
  log-IsAccounted s i (replied lat) e v =
      let d = moved s.workers i (totalled (replied lat)) idle e in
      let w = All-set CarriesText s.workers i idle v.texts tt in
      let n = length-append s.sec_latencies (lat ∷ []) in
      let c : (add_latency max_latency_samples s.ok_lat lat).count ≡ s.ok_lat.count + 1 =
        unfold add_latency in refl in
      record {
        texts = w;
        calls = omega arith;
        in_flight = omega arith;
        ok_second = omega arith;
        err_second = omega arith;
        ok_logged = omega arith;
        err_logged = omega arith;
        latencies = omega arith;
        few_errors = v.few_errors;
      }
  log-IsAccounted s i (failed lat msg) e v =
      let d = moved s.workers i (totalled (failed lat msg)) idle e in
      let w = All-set CarriesText s.workers i idle v.texts tt in
      let text = All-get_elem? CarriesText s.workers i (totalled (failed lat msg)) v.texts e in
      let n = length-append s.sec_latencies (lat ∷ []) in
      let summary = error_summary (failed lat msg) in
      let c = seen-count_error summary s.error_counts s.other_errors in
      let few = length-count_error summary s.error_counts s.other_errors v.few_errors in
      rw (log_reply-failed s lat msg text) (record {
        texts = w;
        calls = omega arith;
        in_flight = omega arith;
        ok_second = omega arith;
        err_second = omega arith;
        ok_logged = omega arith;
        err_logged = omega arith;
        latencies = omega arith;
        few_errors = few;
      })

  pub Step-IsAccounted :
      {setup : Setup} {s t : System} → Step setup s t → IsAccounted s → IsAccounted t
  unfolding tally_reply
  Step-IsAccounted (choose fuel now t k sched req e f g) v = ground arith
  Step-IsAccounted (enqueue job e f) v = ground arith
  Step-IsAccounted (count_sent e) v = ground arith
  Step-IsAccounted (count_second e) v = ground arith
  Step-IsAccounted (close fuel sched e f) v = ground arith
  Step-IsAccounted (finish e f g) v = ground arith
  Step-IsAccounted {setup} {s} (receive i job rest e f) v =
      let d = moved s.workers i (idle) (received job) e in
      let w = All-set CarriesText s.workers i (received job) v.texts tt in ground arith
  Step-IsAccounted {setup} {s} (invoke i job e) v =
      let d = moved s.workers i (received job) (invoking) e in
      let w = All-set CarriesText s.workers i (invoking) v.texts tt in
      let n = length-append s.invoked (job ∷ []) in ground arith
  Step-IsAccounted {setup} {s} (answer i r e f) v =
      let d = moved s.workers i (invoking) (answered r) e in
      let w = All-set CarriesText s.workers i (answered r) v.texts f in ground arith
  Step-IsAccounted {setup} {s} (tally_second i (replied lat) e) v =
      let d = moved s.workers i (answered (replied lat)) (tallied (replied lat)) e in
      let w = All-set CarriesText s.workers i (tallied (replied lat)) v.texts tt in ground arith
  Step-IsAccounted {setup} {s} (tally_second i (failed lat msg) e) v =
      let d = moved s.workers i (answered (failed lat msg)) (tallied (failed lat msg)) e in
      let text = All-get_elem? CarriesText s.workers i (answered (failed lat msg)) v.texts e in
      let w = All-set CarriesText s.workers i (tallied (failed lat msg)) v.texts text in
      ground arith
  Step-IsAccounted {setup} {s} (tally_total i (replied lat) e) v =
      let d = moved s.workers i (tallied (replied lat)) (totalled (replied lat)) e in
      let w = All-set CarriesText s.workers i (totalled (replied lat)) v.texts tt in ground arith
  Step-IsAccounted {setup} {s} (tally_total i (failed lat msg) e) v =
      let d = moved s.workers i (tallied (failed lat msg)) (totalled (failed lat msg)) e in
      let text = All-get_elem? CarriesText s.workers i (tallied (failed lat msg)) v.texts e in
      let w = All-set CarriesText s.workers i (totalled (failed lat msg)) v.texts text in
      ground arith
  Step-IsAccounted {setup} {s} (log i r e) v = log-IsAccounted s i r e v
  Step-IsAccounted {setup} {s} (exit i e f g) v =
      let d = moved s.workers i (idle) (exited) e in
      let w = All-set CarriesText s.workers i (exited) v.texts tt in ground arith
  Step-IsAccounted (swap_sent e f) v = ground arith
  Step-IsAccounted (swap_ok e) v = ground arith
  Step-IsAccounted (swap_err e) v = ground arith
  Step-IsAccounted (take_latencies e) v = ground arith
  Step-IsAccounted (drain e) v = ground arith
