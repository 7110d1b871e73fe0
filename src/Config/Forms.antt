-- ===== src/Config/Forms.antt =====
-- A plain host and a port, joined: what the parts of normalizeTargetArg of main.go make of it.
use mathlib.Core.List.{append_assoc}
use go_replayer.Windows.Bins.{last_or}
use go_replayer.Config.Bytes.{
  split_first-append, split_last-append, any_mono, last_or-append, strip_self, any-append,
  last_or-any,
}
use go_replayer.Config.Address.{is_bracket}
use go_replayer.Config.Decimal.{is_other, atoi-itoa, itoa-digits, itoa-nonempty}
use go_replayer.Config.Strings.{
  split_bracketed, split_plain, split_host_port, has, join_host_port, is_space, itoa, any,
}
use go_replayer.Config.Target.{join_port, parse_port, strip}
use go_replayer.Prelude.{
  ℕ, Text, Bool, is_empty, ◌++◌, ◌≡◌, ◌==◌, ◌≤◌, ◌∷◌, ◌||◌, false, ok, some, arith, [], Bool-cases,
  refl, inl, inr,
}

-- The bytes that the trims, the splits and the wrappers take for more than a part of a host.
abbrev pub is_special : ℕ → Bool
is_special c = is_space c || is_bracket c || (c == b',') || (c == b'"') || (c == 39)

-- A host that a command line holds as it is: a name, an IPv4 or an IPv6 address.
pub record IsHost (host : Text) : Type 0 where
  pub nonempty : is_empty host ≡ false
  pub plain : any is_special host ≡ false

pub itoa-any :
    (test : ℕ → Bool) (n : ℕ)
    → ((c : ℕ) → is_other c ≡ false → test c ≡ false)
    → any test (itoa n) ≡ false
itoa-any test n sub = any_mono test is_other (itoa n) sub (itoa-digits n)

pub host-any :
    (test : ℕ → Bool) (host : Text)
    → IsHost host
    → ((c : ℕ) → is_special c ≡ false → test c ≡ false)
    → any test host ≡ false
host-any test host h sub = any_mono test is_special host sub h.plain

pub join_port-itoa :
    (host : Text) (p : ℕ)
    → 1 ≤ p
    → p ≤ 65535
    → join_port host (itoa p) ≡ ok (join_host_port host (itoa p))
unfolding join_port parse_port
join_port-itoa host p low high = let read = atoi-itoa p (omega arith) in ground (arith, read)

pub last_or-digits :
    (d : ℕ) (a b : Text)
    → is_empty b ≡ false
    → any is_other b ≡ false
    → is_other (last_or d (a ++ b)) ≡ false
last_or-digits d a [] full h = cc
last_or-digits d a (c ∷ b) full h =
    rw (last_or-append d a c b) (last_or-any is_other c b (ground arith) (ground arith))

-- A text that ends in digits is not wrapped or quoted.
strip-ends_in_digits :
    (test : ℕ → ℕ → Bool) (first : ℕ) (front : Text) (p : ℕ)
    → ((a b : ℕ) → is_other b ≡ false → test a b ≡ false)
    → any is_space (first ∷ front) ≡ false
    → strip test (first ∷ front ++ itoa p) ≡ first ∷ front ++ itoa p
strip-ends_in_digits test first front p sub clean =
    strip_self test first (front ++ itoa p)
      (any-append is_space (first ∷ front) (itoa p) clean
        (itoa-any is_space p (λ c h. ground arith)))
      (sub first _ (last_or-digits 0 front (itoa p) (itoa-nonempty p) (itoa-digits p)))

split_bracketed-join :
    (host : Text) (p : ℕ)
    → IsHost host
    → split_bracketed (host ++ b']' ∷ b':' ∷ itoa p) ≡ some (host, itoa p)
unfolding split_bracketed
split_bracketed-join host p h =
    let cut =
      split_first-append b']' host (b':' ∷ itoa p) (host-any _ host h (λ c k. ground arith)) in
    let colon : has b':' (itoa p) ≡ false = itoa-any _ p (λ c k. ground arith) in
    let closed : has b']' (itoa p) ≡ false = itoa-any _ p (λ c k. ground arith) in
    let opened : has b'[' (host ++ b']' ∷ b':' ∷ itoa p) ≡ false =
      any-append _ host _ (host-any _ host h (λ c k. ground arith))
        (itoa-any _ p (λ c k. ground arith)) in
    ground (arith, cut, colon, closed, opened)

split_plain-join :
    (host : Text) (p : ℕ)
    → IsHost host
    → has b':' host ≡ false
    → split_plain (host ++ b':' ∷ itoa p) ≡ some (host, itoa p)
unfolding split_plain
split_plain-join host p h none_there =
    let cut = split_last-append b':' host (itoa p) (itoa-any _ p (λ c k. ground arith)) in
    let opened : has b'[' (host ++ b':' ∷ itoa p) ≡ false =
      any-append _ host _ (host-any _ host h (λ c k. ground arith))
        (itoa-any _ p (λ c k. ground arith)) in
    let closed : has b']' (host ++ b':' ∷ itoa p) ≡ false =
      any-append _ host _ (host-any _ host h (λ c k. ground arith))
        (itoa-any _ p (λ c k. ground arith)) in
    ground (arith, cut, none_there, opened, closed)

pub split_host_port-join :
    (host : Text) (p : ℕ)
    → IsHost host
    → split_host_port (join_host_port host (itoa p)) ≡ some (host, itoa p)
unfolding split_host_port join_host_port
split_host_port-join [] p h = let full = h.nonempty in cc
split_host_port-join (c ∷ s) p h = elim (Bool-cases (has b':' (c ∷ s))) [
  | inl colon ↦ rw colon (split_bracketed-join (c ∷ s) p h)
  | inr none_there ↦
      let letter : (c == b'[') ≡ false = ground (arith, h.plain) in
      rw (none_there, letter) (split_plain-join (c ∷ s) p h none_there)
]

-- A joined address is `front ++ digits`, with no space and no comma in front.
join_host_port-parts :
    (host port : Text)
    → IsHost host
    → (first : ℕ) × (front : Text) × (any is_space (first ∷ front) ≡ false)
      × (has b',' (first ∷ front) ≡ false)
      × (join_host_port host port ≡ first ∷ front ++ port)
unfolding join_host_port
join_host_port-parts [] port h = let full = h.nonempty in cc
join_host_port-parts (c ∷ s) port h =
    let spaces : any is_space (c ∷ s) ≡ false = host-any is_space (c ∷ s) h (λ x k. ground arith) in
    let commas : has b',' (c ∷ s) ≡ false =
      host-any (λ x. x == b',') (c ∷ s) h (λ x k. ground arith) in
    elim (Bool-cases (has b':' (c ∷ s))) [
      | inl colon ↦ (
        b'[',
        c ∷ s ++ b']' ∷ b':' ∷ [],
        any-append is_space (c ∷ s) _ spaces refl,
        any-append (λ x. x == b',') (c ∷ s) _ commas refl,
        rw (colon, append_assoc s (b']' ∷ b':' ∷ []) port) refl,
      )
      | inr none_there ↦ (
        c,
        s ++ b':' ∷ [],
        any-append is_space (c ∷ s) _ spaces refl,
        any-append (λ x. x == b',') (c ∷ s) _ commas refl,
        rw (none_there, append_assoc s (b':' ∷ []) port) refl,
      )
    ]

pub strip-join :
    (test : ℕ → ℕ → Bool) (host : Text) (p : ℕ)
    → ((a b : ℕ) → is_other b ≡ false → test a b ≡ false)
    → IsHost host
    → strip test (join_host_port host (itoa p)) ≡ join_host_port host (itoa p)
strip-join test host p sub h =
    let (first, front, spaces, commas, joined) = join_host_port-parts host (itoa p) h in
    rw joined (strip-ends_in_digits test first front p sub spaces)

pub join-has_comma :
    (host : Text) (p : ℕ) → IsHost host → has b',' (join_host_port host (itoa p)) ≡ false
join-has_comma host p h =
    let (first, front, spaces, commas, joined) = join_host_port-parts host (itoa p) h in
    rw joined (
      any-append (λ x. x == b',') (first ∷ front) (itoa p) commas
        (itoa-any (λ x. x == b',') p (λ c k. ground arith)))

pub join-nonempty :
    (host : Text) (p : ℕ) → IsHost host → is_empty (join_host_port host (itoa p)) ≡ false
join-nonempty host p h =
    let (first, front, spaces, commas, joined) = join_host_port-parts host (itoa p) h in
    rw joined refl
