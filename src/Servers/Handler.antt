-- ===== src/Servers/Handler.antt =====
-- The handler of the two targets, with any number of calls at once: a step is one of its parts, and
-- sync.Once lets no call pass before the first one has printed.
use go_replayer.Prelude.{
  Text, Option, List, some, ℕ, ◌∷◌, Bool, if◌then◌else◌, ◌++◌, false, [], true, get_elem?, none,
  ◌≡◌, set, codes,
}

-- The certificate that a client presented, with the texts that are printed of it.
pub record PeerCert : Type 0 where
  pub subject : Text
  pub issuer : Text
  pub serial : Text
  pub fingerprint : Text

pub data Line : Type 0 where
  peer_cert : PeerCert → Line
  not_presented : Line

-- What the function under Once prints for a call: `none` is a peer without a certificate.
abbrev pub dummy_lines : Option PeerCert → List Line
dummy_lines (some cert) = peer_cert cert ∷ []
dummy_lines none = not_presented ∷ []

abbrev pub gap_lines : Option PeerCert → List Line
gap_lines (some cert) = peer_cert cert ∷ []
gap_lines none = []

-- A call: before Once, behind it, behind recordArrival, behind RecvMsg, ended with the error of RecvMsg,
-- and ended behind SendMsg, with its error, if any.
pub data ServerCall : Type 0 where
  opened_by : Option PeerCert → ServerCall
  logged : Option PeerCert → ServerCall
  arrived : Option PeerCert → ServerCall
  has_request : Option PeerCert → List ℕ → ServerCall
  refused : Option PeerCert → Text → ServerCall
  served : Option PeerCert → Option Text → ServerCall

-- The two targets differ in what they print and in what they keep of an arrival, which the dummy
-- target does not.
module _ {Kept : Type 0} (print_peer : Option PeerCert → List Line)
    (keep_arrival : ℕ → Kept → Kept) where
  pub record Server : Type 0 where
    pub once_done : Bool
    pub lines : List Line
    pub kept : Kept
    pub calls : List ServerCall
    -- what has happened: the times of the arrivals, and the messages with the index of their call
    pub arrivals : List ℕ
    pub sent : List (ℕ × Text)

  -- `peerCertLogOnce.Do(...)`
  unfoldable pub log_once : Server → Option PeerCert → Server
  log_once s p =
      if s.once_done then s else record s { once_done = true; lines = s.lines ++ print_peer p }

  pub data ServerStep (s : Server) : Server → Type 0 where
    accept : (p : Option PeerCert) → ServerStep s (record s { calls = s.calls ++ opened_by p ∷ [] })
    log_peer :
        (i : ℕ) (p : Option PeerCert)
        → get_elem? s.calls i ≡ some (opened_by p)
        → ServerStep s (record (log_once s p) { calls = set s.calls i (logged p) })
    arrive :
        (i : ℕ) (p : Option PeerCert) (now : ℕ)
        → get_elem? s.calls i ≡ some (logged p)
        → ServerStep s (record s {
          kept = keep_arrival now s.kept;
          calls = set s.calls i (arrived p);
          arrivals = s.arrivals ++ now ∷ [];
        })
    receive_fails :
        (i : ℕ) (p : Option PeerCert) (e : Text)
        → get_elem? s.calls i ≡ some (arrived p)
        → ServerStep s (record s { calls = set s.calls i (refused p e) })
    receive_request :
        (i : ℕ) (p : Option PeerCert) (req : List ℕ)
        → get_elem? s.calls i ≡ some (arrived p)
        → ServerStep s (record s { calls = set s.calls i (has_request p req) })
    send :
        (i : ℕ) (p : Option PeerCert) (req : List ℕ) (failure : Option Text)
        → get_elem? s.calls i ≡ some (has_request p req)
        → ServerStep s (record s {
          sent = s.sent ++ (i, codes "ok") ∷ [];
          calls = set s.calls i (served p failure);
        })

  pub data Serves (start : Server) : Server → Type 0 where
    serving_starts : Serves start start
    serving_goes_on : {s t : Server} → Serves start s → ServerStep s t → Serves start t

  abbrev pub new_server : Kept → Server
  new_server kept = record {
    once_done = false;
    lines = [];
    kept = kept;
    calls = [];
    arrivals = [];
    sent = [];
  }
