-- ===== src/Config/Strings.antt =====
-- What main.go uses of Go's strings, strconv and net on texts of ASCII bytes.
use go_replayer.Prelude.{
  ℕ, Text, Bool, ◌==◌, map, List, Option, suc, if◌then◌else◌, ◌||◌, false, ◌∷◌, leb, none, some, [],
  ◌/◌, ◌&&◌, is_empty, ltb, ◌++◌, not, ◌+◌, ◌*◌, ◌^◌, ◌%◌, ◌-◌,
}
use Prim.Native.Nat.{zero}
use go_replayer.Prelude.Int.{ℤ, pos, sub_ℕ}

-- unicode.IsSpace on ASCII: space, and tab to carriage return
abbrev pub is_space : ℕ → Bool
is_space c = (c == b' ') || (leb 9 c && leb c 13)

abbrev pub any : (ℕ → Bool) → Text → Bool
any test [] = false
any test (c ∷ s) = test c || any test s

abbrev pub has : ℕ → Text → Bool
has c s = any (λ x. x == c) s

-- What a trim leaves: the test says which bytes go.
unfoldable pub trim_left : (ℕ → Bool) → Text → Text
trim_left gone [] = []
trim_left gone (c ∷ s) = if gone c then trim_left gone s else c ∷ s

unfoldable pub trim_right : (ℕ → Bool) → Text → Text
trim_right gone [] = []
trim_right gone (c ∷ s) =
    let rest = trim_right gone s in if is_empty rest && gone c then [] else c ∷ rest

unfoldable pub trim : (ℕ → Bool) → Text → Text
trim gone s = trim_right gone (trim_left gone s)

-- strings.TrimSpace
abbrev pub trim_space : Text → Text
trim_space s = trim is_space s

-- `strings.Trim(s, "[]")`
abbrev pub trim_brackets : Text → Text
trim_brackets s = trim (λ c. (c == b'[') || (c == b']')) s

-- strings.ToLower
abbrev pub to_lower : Text → Text
to_lower s = map (λ c. if leb b'A' c && leb c b'Z' then c + 32 else c) s

-- strings.Split by one byte
unfoldable pub split : ℕ → Text → List Text
split sep [] = [] ∷ []
split sep (c ∷ s) = elim (split sep s) [
  | [] ↦ [] ∷ []
  | part ∷ parts ↦ if c == sep then [] ∷ part ∷ parts else (c ∷ part) ∷ parts
]

-- The text before and behind the first and the last of a byte.
unfoldable pub split_first : ℕ → Text → Option (Text × Text)
split_first sep [] = none
split_first sep (c ∷ s) =
    if c == sep
    then some ([], s)
    else elim (split_first sep s) [ none ↦ none | some (a, b) ↦ some (c ∷ a, b) ]

unfoldable pub split_last : ℕ → Text → Option (Text × Text)
split_last sep [] = none
split_last sep (c ∷ s) = elim (split_last sep s) [
  | some (a, b) ↦ some (c ∷ a, b)
  | none ↦ if c == sep then some ([], s) else none
]

-- The digits of strconv.Atoi, behind the number `n`; `none` is its error.
unfoldable pub scan_digits : Text → ℕ → Option ℕ
scan_digits [] n = some n
scan_digits (c ∷ s) n =
    if leb b'0' c && leb c b'9' then scan_digits s (n * 10 + (c - b'0')) else none

unfoldable pub scan_number : Text → Option ℕ
unfolding scan_digits
scan_number [] = none
scan_number (c ∷ s) = scan_digits (c ∷ s) 0

-- strconv.Atoi: an optional sign, and digits; out of the int64 range it is an error.
unfoldable pub atoi : Text → Option ℤ
atoi [] = none
atoi (c ∷ s) =
    if c == b'-'
    then elim (scan_number s) [
      | none ↦ none
      | some n ↦ if ltb (2 ^ 63) n then none else some (sub_ℕ 0 n)
    ]
    else elim (scan_number (if c == b'+' then s else c ∷ s)) [
      | none ↦ none
      | some n ↦ if leb (2 ^ 63) n then none else some (pos n)
    ]

-- strconv.Itoa of a number that is not negative: the digits of `n` before `out`.
unfoldable pub itoa_from : ℕ → ℕ → Text → Text
itoa_from zero n out = out
itoa_from (suc fuel) n out =
    let rest = itoa_from fuel (n / 10) ((b'0' + n % 10) ∷ out) in
    if ltb n 10 then (b'0' + n) ∷ out else rest

-- A round divides by ten, so `n + 1` rounds are enough.
unfoldable pub itoa : ℕ → Text
itoa n = itoa_from (suc n) n []

-- net.JoinHostPort
unfoldable pub join_host_port : Text → Text → Text
join_host_port host port =
    if has b':' host then b'[' ∷ (host ++ b']' ∷ b':' ∷ port) else host ++ b':' ∷ port

-- net.SplitHostPort; `none` is its error. The bracket form wants the last colon right behind the
-- first `]`.
unfoldable pub split_bracketed : Text → Option (Text × Text)
split_bracketed s = elim (split_first b']' s) [
  | none ↦ none
  | some (host, []) ↦ none
  | some (host, c ∷ port) ↦
      if not (c == b':') || has b':' port
      then none
      else if has b'[' s || has b']' port
      then none
      else some (host, port)
]

unfoldable pub split_plain : Text → Option (Text × Text)
split_plain s = elim (split_last b':' s) [
  | none ↦ none
  | some (host, port) ↦
      if has b':' host then none else if has b'[' s || has b']' s then none else some (host, port)
]

unfoldable pub split_host_port : Text → Option (Text × Text)
unfolding split_bracketed split_plain
split_host_port [] = none
split_host_port (c ∷ s) = if c == b'[' then split_bracketed s else split_plain (c ∷ s)
