-- ===== src/Config/RoundTrip.antt =====
-- normalizeTargetArg of main.go on the forms that a target is given in.
use go_replayer.Windows.Bins.{last_or}
use go_replayer.Config.Bytes.{
  any_mono, last_or-append, strip_self, any-append, trim_self, strip-wrap, any-middle, split-append,
}
use go_replayer.Config.Address.{is_bracket}
use go_replayer.Config.Decimal.{is_other, itoa-digits, itoa-nonempty}
use go_replayer.Config.Strings.{join_host_port, is_space, itoa, any}
use go_replayer.Config.Target.{
  normalize_target_arg, normalize_host_port, is_wrapped, is_quoted, normalize_pair, unquote_token,
}
use go_replayer.Prelude.{ℕ, Text, is_empty, ◌++◌, ◌≡◌, ◌==◌, ◌≤◌, ◌∷◌, false, ok, arith, [], refl}
use go_replayer.Config.Forms.{
  itoa-any, host-any, join_port-itoa, last_or-digits, split_host_port-join, strip-join,
  join-has_comma, join-nonempty, IsHost,
}

normalize_host_port-join :
    (host : Text) (p : ℕ)
    → IsHost host
    → 1 ≤ p
    → p ≤ 65535
    → normalize_host_port (join_host_port host (itoa p)) ≡ ok (join_host_port host (itoa p))
unfolding normalize_host_port
normalize_host_port-join host p h low high =
    let quoted = strip-join is_quoted host p (λ a b k. ground arith) h in
    let parts = split_host_port-join host p h in
    let plain = trim_self is_bracket host (host-any is_bracket host h (λ c k. ground arith)) in
    let host_given = h.nonempty in
    let port_given = itoa-nonempty p in
    rw (normalize_host_port, quoted, parts, host_given, port_given, plain)
      (join_port-itoa host p low high)

normalize-join :
    (host : Text) (p : ℕ)
    → IsHost host
    → 1 ≤ p
    → p ≤ 65535
    → normalize_target_arg (join_host_port host (itoa p)) ≡ ok (join_host_port host (itoa p))
unfolding normalize_target_arg
normalize-join host p h low high =
    let wrapped = strip-join is_wrapped host p (λ a b k. ground arith) h in
    rw (wrapped, join-nonempty host p h, join-has_comma host p h)
      (normalize_host_port-join host p h low high)

strip-digits : (t : Text) → is_empty t ≡ false → any is_other t ≡ false → unquote_token t ≡ t
strip-digits [] full h = cc
strip-digits (c ∷ t) full h =
    strip_self is_quoted c t (any_mono is_space is_other (c ∷ t) (λ x k. ground arith) h)
      (ground arith)

unquote-itoa : (p : ℕ) → unquote_token (itoa p) ≡ itoa p
unquote-itoa p = strip-digits (itoa p) (itoa-nonempty p) (itoa-digits p)

unquote-host : (c : ℕ) (s : Text) → IsHost (c ∷ s) → unquote_token (c ∷ s) ≡ c ∷ s
unquote-host c s h =
    let plain = h.plain in
    strip_self is_quoted c s (host-any is_space (c ∷ s) h (λ x k. ground arith))
      (ground (arith, plain))

-- The pair form, behind its wrappers.
normalize_pair-join :
    (host : Text) (p : ℕ)
    → IsHost host
    → 1 ≤ p
    → p ≤ 65535
    → normalize_pair (host ∷ itoa p ∷ []) ≡ ok (join_host_port host (itoa p))
unfolding normalize_pair
normalize_pair-join [] p h low high = let full = h.nonempty in cc
normalize_pair-join (c ∷ s) p h low high =
    let brackets =
      trim_self is_bracket (c ∷ s) (host-any is_bracket (c ∷ s) h (λ x k. ground arith)) in
    let blanks =
      trim_self (λ x. x == b' ') (c ∷ s)
        (host-any (λ x. x == b' ') (c ∷ s) h (λ x k. ground arith)) in
    rw (unquote-host c s h, unquote-itoa p, brackets, blanks, itoa-nonempty p)
      (join_port-itoa (c ∷ s) p low high)

unfoldable pub pair_text : Text → ℕ → Text
pair_text host p = b'(' ∷ (host ++ b',' ∷ itoa p) ++ b')' ∷ []

normalize-pair :
    (host : Text) (p : ℕ)
    → IsHost host
    → 1 ≤ p
    → p ≤ 65535
    → normalize_target_arg (pair_text host p) ≡ ok (join_host_port host (itoa p))
unfolding normalize_target_arg pair_text
normalize-pair [] p h low high = let full = h.nonempty in cc
normalize-pair (c ∷ s) p h low high =
    let body = s ++ b',' ∷ itoa p in
    let spaces : any is_space (c ∷ body) ≡ false =
      any-append is_space (c ∷ s) (b',' ∷ itoa p)
        (host-any is_space (c ∷ s) h (λ x k. ground arith))
        (itoa-any is_space p (λ x k. ground arith)) in
    let digit : is_other (last_or 0 body) ≡ false =
      rw (last_or-append 0 s b',' (itoa p))
        (last_or-digits b',' [] (itoa p) (itoa-nonempty p) (itoa-digits p)) in
    let bare : is_wrapped c (last_or 0 body) ≡ false = ground (arith, digit) in
    let wrapped = strip-wrap is_wrapped b'(' b')' c body refl refl refl spaces bare in
    let comma = any-middle (λ x. x == b',') (c ∷ s) b',' (itoa p) refl in
    let parts =
      split-append b',' (c ∷ s) (itoa p) (host-any (λ x. x == b',') (c ∷ s) h (λ x k. ground arith))
        (itoa-any (λ x. x == b',') p (λ x k. ground arith)) in
    rw (wrapped, comma, parts) (normalize_pair-join (c ∷ s) p h low high)

-- For a host without spaces, commas, brackets and quotes that is not empty, and a port from 1 to
-- 65535, the joined form `host:port`, with brackets around an IPv6 host, and the pair form
-- `(host,port)` are both accepted as that joined address, which is thus its own normal form.
pub normalize_target_arg-forms :
    (host : Text) (p : ℕ)
    → IsHost host
    → 1 ≤ p
    → p ≤ 65535
    → (normalize_target_arg (join_host_port host (itoa p)) ≡ ok (join_host_port host (itoa p)))
      × (normalize_target_arg (pair_text host p) ≡ ok (join_host_port host (itoa p)))
normalize_target_arg-forms host p h low high =
    (normalize-join host p h low high, normalize-pair host p h low high)
