-- ===== src/Config/Target.antt =====
-- normalizeTargetArg of main.go, with stripBalancedWrappers and unquoteToken.
use Prim.Native.Nat.{zero}
use go_replayer.Prelude.{
  Text, ℕ, List, take, Bool, Option, Outcome, length, ◌==◌, suc, if◌then◌else◌, ◌-◌, ◌&&◌, ◌∷◌,
  is_empty, drop, ◌||◌, err, zero, [], none, some, ltb, ok,
}
use go_replayer.Prelude.Int.{pos, negsuc}
use go_replayer.Windows.Bins.{last_or}
use go_replayer.Config.Strings.{
  trim, trim_space, trim_brackets, split, split_host_port, join_host_port, atoi, itoa, has,
}

-- The messages.
pub data TargetError : Type 0 where
  empty_target : TargetError
  not_a_pair : TargetError
  empty_part : TargetError
  bad_port : TargetError
  not_host_port : TargetError
  host_and_port_required : TargetError

-- `out[1 : len(out)-1]`, of a text of two bytes or more
abbrev pub inner : Text → Text
inner s = take (length s - 2) (drop 1 s)

abbrev pub is_wrapped : ℕ → ℕ → Bool
is_wrapped first last =
    (first == b'(') && (last == b')')
    || (first == b'[') && (last == b']')
    || (first == b'{') && (last == b'}')

abbrev pub is_quoted : ℕ → ℕ → Bool
is_quoted first last = (first == b'"') && (last == b'"') || (first == 39) && (last == 39)

-- The loop of stripBalancedWrappers and of unquoteToken, which differ in the test. A round takes two
-- bytes at least.
unfoldable pub strip_loop : (ℕ → ℕ → Bool) → ℕ → Text → Text
strip_loop test zero out = out
strip_loop test (suc fuel) [] = []
strip_loop test (suc fuel) (c ∷ s) =
    let rest = strip_loop test fuel (trim_space (inner (c ∷ s))) in
    if is_empty s then c ∷ s else if test c (last_or 0 s) then rest else c ∷ s

unfoldable pub strip : (ℕ → ℕ → Bool) → Text → Text
strip test input = strip_loop test (length input) (trim_space input)

abbrev pub strip_balanced_wrappers : Text → Text
strip_balanced_wrappers = strip is_wrapped

abbrev pub unquote_token : Text → Text
unquote_token = strip is_quoted

-- `err != nil || portNum < 1 || portNum > 65535`, and the number
unfoldable pub parse_port : Text → Option ℕ
parse_port port = elim (atoi port) [
  | none ↦ none
  | some (negsuc n) ↦ none
  | some (pos n) ↦ if ltb n 1 || ltb 65535 n then none else some n
]

unfoldable pub join_port : Text → Text → Outcome TargetError Text
join_port host port = elim (parse_port port) [
  | none ↦ err bad_port
  | some n ↦ ok (join_host_port host (itoa n))
]

unfoldable pub normalize_pair : List Text → Outcome TargetError Text
normalize_pair (a ∷ b ∷ []) =
    let host = trim (λ c. c == b' ') (trim_brackets (unquote_token a)) in
    let port = unquote_token b in
    if is_empty host || is_empty port then err empty_part else join_port host port
normalize_pair _ = err not_a_pair

unfoldable pub normalize_host_port : Text → Outcome TargetError Text
normalize_host_port target = elim (split_host_port (unquote_token target)) [
  | none ↦ err not_host_port
  | some (host, port) ↦
      if is_empty host || is_empty port
      then err host_and_port_required
      else join_port (trim_brackets host) port
]

unfoldable pub normalize_target_arg : Text → Outcome TargetError Text
normalize_target_arg raw =
    let target = strip_balanced_wrappers raw in
    if is_empty target
    then err empty_target
    else if has b',' target
    then normalize_pair (split b',' target)
    else normalize_host_port target
