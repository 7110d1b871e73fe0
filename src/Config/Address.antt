-- ===== src/Config/Address.antt =====
-- What normalizeTargetArg of main.go accepts.
use go_replayer.Prelude.Int.{pos, negsuc}
use go_replayer.Config.Bytes.{split_first-some, split_last-some, trim_self, any-or, any-left}
use go_replayer.Config.Strings.{
  split_bracketed, split_plain, split_host_port, any, join_host_port, atoi, trim, split_first,
  split_last, itoa, trim_brackets, has, split,
}
use go_replayer.Config.Target.{
  parse_port, join_port, normalize_pair, normalize_host_port, normalize_target_arg,
  strip_balanced_wrappers, unquote_token,
}
use go_replayer.Prelude.{
  Text, ℕ, is_empty, ◌≡◌, List, Bool, false, some, ok, ◌==◌, ◌≤◌, Option-cases, ◌∷◌, ◌||◌, inl,
  Bool-cases, arith, inr, [], ◌++◌,
}

-- A host and a port, joined by net.JoinHostPort.
pub record IsAddress (target : Text) : Type 0 where
  pub host : Text
  pub port : ℕ
  pub host_nonempty : is_empty host ≡ false
  pub port_positive : 1 ≤ port
  pub port_16_bit : port ≤ 65535
  pub joined : target ≡ join_host_port host (itoa port)

parse_port-some : (s : Text) (n : ℕ) → parse_port s ≡ some n → (1 ≤ n) × (n ≤ 65535)
unfolding parse_port
parse_port-some s n e = elim (Option-cases (atoi s)) [
  | inl bad ↦ absurd (ground arith)
  | inr (negsuc k, read) ↦ absurd (ground arith)
  | inr (pos k, read) ↦ ground arith
]

join_port-IsAddress :
    (host port t : Text) → is_empty host ≡ false → join_port host port ≡ ok t → IsAddress t
unfolding join_port
join_port-IsAddress host port t full e = elim (Option-cases (parse_port port)) [
  | inl bad ↦ absurd (ground arith)
  | inr (n, read) ↦
      let (low, high) = parse_port-some port n read in
      record {
        host = host;
        port = n;
        host_nonempty = full;
        port_positive = low;
        port_16_bit = high;
        joined = ground arith;
      }
]

normalize_pair-IsAddress :
    (parts : List Text) (t : Text) → normalize_pair parts ≡ ok t → IsAddress t
unfolding normalize_pair
normalize_pair-IsAddress [] t e = cc
normalize_pair-IsAddress (a ∷ []) t e = cc
normalize_pair-IsAddress (a ∷ b ∷ []) t e =
    let host = trim (λ c. c == b' ') (trim_brackets (unquote_token a)) in
    let port = unquote_token b in
    elim (Bool-cases (is_empty host || is_empty port)) [
      | inl bad ↦ absurd (ground arith)
      | inr full ↦ join_port-IsAddress host port t (ground arith) (ground arith)
    ]
normalize_pair-IsAddress (a ∷ b ∷ c ∷ parts) t e = cc

abbrev pub is_bracket : ℕ → Bool
is_bracket c = (c == b'[') || (c == b']')

-- net.SplitHostPort leaves no bracket in the host.
split_bracketed-host :
    (s host port : Text) → split_bracketed s ≡ some (host, port) → any is_bracket host ≡ false
unfolding split_bracketed
split_bracketed-host s host port e = elim (Option-cases (split_first b']' s)) [
  | inl missing ↦ absurd (ground arith)
  | inr ((a, []), found) ↦ absurd (ground arith)
  | inr ((a, c ∷ b), found) ↦
      let (closed, joined) = split_first-some b']' s a (c ∷ b) found in
      let opened : has b'[' s ≡ false = ground arith in
      let same : a ≡ host = ground arith in
      let opened' : has b'[' (a ++ b']' ∷ c ∷ b) ≡ false = rw⁻¹ joined opened in
      rw⁻¹ same (any-or _ _ a (any-left _ a _ opened') closed)
]

split_plain-host :
    (s host port : Text) → split_plain s ≡ some (host, port) → any is_bracket host ≡ false
unfolding split_plain
split_plain-host s host port e = elim (Option-cases (split_last b':' s)) [
  | inl missing ↦ absurd (ground arith)
  | inr ((a, b), found) ↦
      let joined = split_last-some b':' s a b found in
      let opened : has b'[' s ≡ false = ground arith in
      let closed : has b']' s ≡ false = ground arith in
      let same : a ≡ host = ground arith in
      let opened' : has b'[' (a ++ b':' ∷ b) ≡ false = rw⁻¹ joined opened in
      let closed' : has b']' (a ++ b':' ∷ b) ≡ false = rw⁻¹ joined closed in
      rw⁻¹ same (any-or _ _ a (any-left _ a _ opened') (any-left _ a _ closed'))
]

split_host_port-host :
    (s host port : Text) → split_host_port s ≡ some (host, port) → any is_bracket host ≡ false
unfolding split_host_port
split_host_port-host [] host port e = cc
split_host_port-host (c ∷ s) host port e = elim (Bool-cases (c == b'[')) [
  | inl bracket ↦ split_bracketed-host s host port (ground arith)
  | inr plain ↦ split_plain-host (c ∷ s) host port (ground arith)
]

normalize_host_port-IsAddress : (target t : Text) → normalize_host_port target ≡ ok t → IsAddress t
unfolding normalize_host_port
normalize_host_port-IsAddress target t e =
    elim (Option-cases (split_host_port (unquote_token target))) [
      | inl missing ↦ absurd (ground arith)
      | inr ((host, port), found) ↦ elim (Bool-cases (is_empty host || is_empty port)) [
        | inl bad ↦ absurd (ground arith)
        | inr full ↦
            let clean = split_host_port-host (unquote_token target) host port found in
            let same : trim_brackets host ≡ host = trim_self is_bracket host clean in
            join_port-IsAddress (trim_brackets host) port t (rw same (ground arith)) (ground arith)
      ]
    ]

-- A target that normalizeTargetArg accepts is the join of a host that is not empty and a port from 1
-- to 65535, whatever the form that it is given in.
pub normalize_target_arg-IsAddress : (raw t : Text) → normalize_target_arg raw ≡ ok t → IsAddress t
unfolding normalize_target_arg
normalize_target_arg-IsAddress raw t e =
    let target = strip_balanced_wrappers raw in
    elim (Bool-cases (is_empty target)) [
      | inl none_given ↦ absurd (ground arith)
      | inr given ↦ elim (Bool-cases (has b',' target)) [
        | inl pair ↦ normalize_pair-IsAddress (split b',' target) t (ground arith)
        | inr single ↦ normalize_host_port-IsAddress target t (ground arith)
      ]
    ]
