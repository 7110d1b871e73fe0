-- ===== src/Tests/Servers.antt =====
-- A call of the gap target.
use go_replayer.Servers.Answered.{IsAnswered}
use go_replayer.Servers.Logged.{past_arrival, HasLogged}
use go_replayer.Prelude.{
  length, ◌≡◌, codes, sum_of, ◌∷◌, [], refl, if◌then◌else◌, some, ltb, ◌-◌, none, take,
}
use go_replayer.Windows.Capture.{record_sample, empty_capture}
use go_replayer.Servers.Gap.{GapTarget, keep_gap_arrival, gap_report, gap_served}
use go_replayer.Tests.Arithmetic.{small_machine}
use go_replayer.Servers.Handler.{
  log_once, PeerCert, new_server, Serves, peer_cert, gap_lines, serving_goes_on, serving_starts,
  accept, log_peer, arrive, receive_request, send,
}

abbrev client : PeerCert
client = record {
  subject = codes "CN=a";
  issuer = codes "CN=b";
  serial = codes "1f";
  fingerprint = codes "00";
}

abbrev gap_start : GapTarget
gap_start = new_server gap_lines keep_gap_arrival empty_capture

gap_run : (s : GapTarget) × Serves gap_lines keep_gap_arrival gap_start s
unfolding log_once record_sample
gap_run = (
  _,
  serving_goes_on
      (serving_goes_on
        (serving_goes_on
          (serving_goes_on (serving_goes_on serving_starts (accept (some client)))
            (log_peer 0 (some client) refl))
          (arrive 0 (some client) 77 refl))
        (receive_request 0 (some client) (7 ∷ []) refl))
      (send 0 (some client) (7 ∷ []) none refl),
)

abbrev gap_end : GapTarget
gap_end = gap_run.0

gap_served_example :
    (length gap_end.arrivals ≡ sum_of past_arrival gap_end.calls)
    × (gap_end.kept.samples ≡ take 5_000_000 gap_end.arrivals)
    × ((gap_report gap_end.kept).0 ≡ (
        if ltb 5_000_000 (length gap_end.arrivals)
        then some (length gap_end.arrivals - 5_000_000)
        else none))
    × HasLogged gap_lines keep_gap_arrival gap_end.once_done gap_end.lines gap_end.calls
    × IsAnswered gap_lines keep_gap_arrival gap_end
gap_served_example = gap_served gap_run.1

peer_printed : gap_end.lines ≡ peer_cert client ∷ []
unfolding gap_run log_once
peer_printed = refl
