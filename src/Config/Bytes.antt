-- ===== src/Config/Bytes.antt =====
-- Texts without a kind of bytes: the loops of Strings and Target leave them, or split them, as they are.
use Prim.Native.Nat.{zero}
use go_replayer.Config.Target.{strip_loop, strip, inner}
use go_replayer.Windows.Bins.{last_or}
use go_replayer.Config.Strings.{
  trim_left, trim_right, trim, split_last, split_first, split, any, has, is_space,
}
use go_replayer.Prelude.{
  ℕ, Bool, Text, ◌≡◌, ◌++◌, false, ◌∷◌, some, arith, [], suc, length, none, Option-cases, ◌-◌, inl,
  zero, refl, length-append, Bool-cases, take-append, ◌==◌, inr, ap, ◌||◌, true,
}

pub any-append :
    (test : ℕ → Bool) (a b : Text)
    → any test a ≡ false
    → any test b ≡ false
    → any test (a ++ b) ≡ false
any-append test [] b ha hb = hb
any-append test (c ∷ a) b ha hb =
    let rest = any-append test a b (ground arith) hb in ground (arith, rest)

pub any-left : (test : ℕ → Bool) (a b : Text) → any test (a ++ b) ≡ false → any test a ≡ false
any-left test [] b h = refl
any-left test (c ∷ a) b h = let rest = any-left test a b (ground arith) in ground (arith, rest)

pub any-middle :
    (test : ℕ → Bool) (a : Text) (c : ℕ) (b : Text) → test c ≡ true → any test (a ++ c ∷ b) ≡ true
any-middle test [] c b h = ground arith
any-middle test (x ∷ a) c b h = let rest = any-middle test a c b h in ground (arith, rest)

-- A kind of bytes that lies in another.
pub any_mono :
    (test wider : ℕ → Bool) (s : Text)
    → ((c : ℕ) → wider c ≡ false → test c ≡ false)
    → any wider s ≡ false
    → any test s ≡ false
any_mono test wider [] sub h = refl
any_mono test wider (c ∷ s) sub h =
    let here = sub c (ground arith) in
    let rest = any_mono test wider s sub (ground arith) in ground (arith, here, rest)

trim_left_self : (gone : ℕ → Bool) (s : Text) → any gone s ≡ false → trim_left gone s ≡ s
unfolding trim_left
trim_left_self gone [] h = refl
trim_left_self gone (c ∷ s) h = ground arith

trim_right_self : (gone : ℕ → Bool) (s : Text) → any gone s ≡ false → trim_right gone s ≡ s
unfolding trim_right
trim_right_self gone [] h = refl
trim_right_self gone (c ∷ s) h =
    let kept : gone c ≡ false = ground arith in
    rw (kept, trim_right_self gone s (ground arith)) (ground arith)

pub trim_self : (gone : ℕ → Bool) (s : Text) → any gone s ≡ false → trim gone s ≡ s
unfolding trim
trim_self gone s h = rw (trim_left_self gone s h) (trim_right_self gone s h)

pub last_or-append : (d : ℕ) (a : Text) (c : ℕ) (b : Text) → last_or d (a ++ c ∷ b) ≡ last_or c b
unfolding last_or
last_or-append d [] c b = refl
last_or-append d (x ∷ a) c b = last_or-append x a c b

pub last_or-any :
    (test : ℕ → Bool) (d : ℕ) (s : Text)
    → test d ≡ false
    → any test s ≡ false
    → test (last_or d s) ≡ false
unfolding last_or
last_or-any test d [] hd hs = hd
last_or-any test d (c ∷ s) hd hs = last_or-any test c s (ground arith) (ground arith)

pub inner-wrap : (first last : ℕ) (s : Text) → inner (first ∷ s ++ last ∷ []) ≡ s
inner-wrap first last s =
    let size : length (first ∷ s ++ last ∷ []) - 2 ≡ length s =
      omega (arith, length-append s (last ∷ [])) in
    rw size (take-append s (last ∷ []))

pub strip_loop_self :
    (test : ℕ → ℕ → Bool) (fuel c : ℕ) (s : Text)
    → test c (last_or 0 s) ≡ false
    → strip_loop test fuel (c ∷ s) ≡ c ∷ s
unfolding strip_loop
strip_loop_self test zero c s h = refl
strip_loop_self test (suc fuel) c s h = rw h (ground arith)

pub strip_self :
    (test : ℕ → ℕ → Bool) (c : ℕ) (s : Text)
    → any is_space (c ∷ s) ≡ false
    → test c (last_or 0 s) ≡ false
    → strip test (c ∷ s) ≡ c ∷ s
unfolding strip
strip_self test c s clean h =
    rw (trim_self is_space (c ∷ s) clean) (strip_loop_self test (length (c ∷ s)) c s h)

-- One pair of wrappers goes.
pub strip-wrap :
    (test : ℕ → ℕ → Bool) (first last c : ℕ) (s : Text)
    → is_space first ≡ false
    → is_space last ≡ false
    → test first last ≡ true
    → any is_space (c ∷ s) ≡ false
    → test c (last_or 0 s) ≡ false
    → strip test (first ∷ (c ∷ s) ++ last ∷ []) ≡ c ∷ s
unfolding strip strip_loop last_or
strip-wrap test first last c s hf hl wraps clean bare =
    let all_clean : any is_space (first ∷ (c ∷ s) ++ last ∷ []) ≡ false =
      (let tail = any-append is_space (c ∷ s) (last ∷ []) clean (ground arith) in
        ground (arith, tail)) in
    let whole = trim_self is_space (first ∷ (c ∷ s) ++ last ∷ []) all_clean in
    let closing = last_or-append 0 (c ∷ s) last [] in
    rw (whole, closing, wraps, inner-wrap first last (c ∷ s), trim_self is_space (c ∷ s) clean)
      (strip_loop_self test (suc (length (s ++ last ∷ []))) c s bare)

split_last-none : (sep : ℕ) (s : Text) → has sep s ≡ false → split_last sep s ≡ none
unfolding split_last
split_last-none sep [] h = refl
split_last-none sep (c ∷ s) h =
    let rest = split_last-none sep s (ground arith) in rw rest (ground arith)

pub split_last-append :
    (sep : ℕ) (a b : Text) → has sep b ≡ false → split_last sep (a ++ sep ∷ b) ≡ some (a, b)
unfolding split_last
split_last-append sep [] b h = rw (split_last-none sep b h) (ground arith)
split_last-append sep (c ∷ a) b h = rw (split_last-append sep a b h) refl

pub split_first-append :
    (sep : ℕ) (a b : Text) → has sep a ≡ false → split_first sep (a ++ sep ∷ b) ≡ some (a, b)
unfolding split_first
split_first-append sep [] b h = ground arith
split_first-append sep (c ∷ a) b h =
    let rest = split_first-append sep a b (ground arith) in rw rest (ground arith)

-- A text that is cut comes from its parts.
pub split_last-some : (sep : ℕ) (s a b : Text) → split_last sep s ≡ some (a, b) → s ≡ a ++ sep ∷ b
unfolding split_last
split_last-some sep [] a b e = cc
split_last-some sep (c ∷ s) a b e = elim (Option-cases (split_last sep s)) [
  | inl missing ↦ elim (Bool-cases (c == sep)) [
    | inl here ↦
        let same : sep ≡ c = ground arith in
        let front : a ≡ [] = ground arith in
        let back : b ≡ s = ground arith in rw (same, front, back) refl
    | inr other ↦ absurd (ground arith)
  ]
  | inr ((a', b'), found) ↦
      let front : a ≡ c ∷ a' = ground arith in
      let back : b ≡ b' = ground arith in
      rw (front, back) (ap (◌∷◌ c) (split_last-some sep s a' b' found))
]

pub split_first-some :
    (sep : ℕ) (s a b : Text)
    → split_first sep s ≡ some (a, b)
    → (has sep a ≡ false) × (s ≡ a ++ sep ∷ b)
unfolding split_first
split_first-some sep [] a b e = cc
split_first-some sep (c ∷ s) a b e = elim (Bool-cases (c == sep)) [
  | inl here ↦
      let same : sep ≡ c = ground arith in
      let front : a ≡ [] = ground arith in
      let back : b ≡ s = ground arith in rw (same, front, back) (refl, refl)
  | inr other ↦ elim (Option-cases (split_first sep s)) [
    | inl missing ↦ absurd (ground arith)
    | inr ((a', b'), found) ↦
        let front : a ≡ c ∷ a' = ground arith in
        let back : b ≡ b' = ground arith in
        let (clean, joined) = split_first-some sep s a' b' found in
        rw (front, back) (ground arith, ap (◌∷◌ c) joined)
  ]
]

pub any-or :
    (test other : ℕ → Bool) (s : Text)
    → any test s ≡ false
    → any other s ≡ false
    → any (λ c. test c || other c) s ≡ false
any-or test other [] h k = refl
any-or test other (c ∷ s) h k =
    let rest = any-or test other s (ground arith) (ground arith) in ground (arith, rest)

split-none : (sep : ℕ) (s : Text) → has sep s ≡ false → split sep s ≡ s ∷ []
unfolding split
split-none sep [] h = refl
split-none sep (c ∷ s) h = rw (split-none sep s (ground arith)) (ground arith)

pub split-append :
    (sep : ℕ) (a b : Text)
    → has sep a ≡ false
    → has sep b ≡ false
    → split sep (a ++ sep ∷ b) ≡ a ∷ b ∷ []
unfolding split
split-append sep [] b ha hb = rw (split-none sep b hb) (ground arith)
split-append sep (c ∷ a) b ha hb = rw (split-append sep a b (ground arith) hb) (ground arith)
