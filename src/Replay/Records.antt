-- ===== src/Replay/Records.antt =====
-- The record reads on bytes that the documented layout wrote, and on longer input.
use mathlib.Core.List.{append_assoc}
use go_replayer.Prelude.{
  ℕ, List, ◌≡◌, ◌≤◌, ◌++◌, length, take, drop, Bool-cases, leb, ◌∷◌, suc, inl, arith, leb→le, ap,
  le→leb, [], zero, length-append, refl, inr,
}
use go_replayer.Replay.Reader.{
  read_u32, read_full, Request, Parsed, got, u32_bytes, read_full-append, read_u32-u32_bytes,
  failed, eof,
}
use go_replayer.Replay.Load.{max_payload_len}

-- Bytes added behind the input join the rest.
pub read_u32-append :
    (bs more : List ℕ) (n : ℕ) (rest : List ℕ)
    → read_u32 bs ≡ got n rest
    → read_u32 (bs ++ more) ≡ got n (rest ++ more)
unfolding read_u32
read_u32-append [] more n rest e = cc
read_u32-append (a ∷ []) more n rest e = cc
read_u32-append (a ∷ b ∷ []) more n rest e = cc
read_u32-append (a ∷ b ∷ c ∷ []) more n rest e = cc
read_u32-append (a ∷ b ∷ c ∷ d ∷ bs) more n rest e = ground arith

take_append_short {ℓ} :
    {A : Type ℓ} (n : ℕ) (xs ys : List A) → n ≤ length xs → take n (xs ++ ys) ≡ take n xs
take_append_short zero xs ys h = refl
take_append_short (suc n) [] ys h = absurd (omega arith)
take_append_short (suc n) (x ∷ xs) ys h = ap (◌∷◌ x) (take_append_short n xs ys (omega arith))

drop_append_short {ℓ} :
    {A : Type ℓ} (n : ℕ) (xs ys : List A) → n ≤ length xs → drop n (xs ++ ys) ≡ drop n xs ++ ys
drop_append_short zero xs ys h = refl
drop_append_short (suc n) [] ys h = absurd (omega arith)
drop_append_short (suc n) (x ∷ xs) ys h = drop_append_short n xs ys (omega arith)

pub read_full-append_more :
    (n : ℕ) (bs more xs rest : List ℕ)
    → read_full n bs ≡ got xs rest
    → read_full n (bs ++ more) ≡ got xs (rest ++ more)
unfolding read_full
read_full-append_more n bs more xs rest e = elim (Bool-cases (leb n (length bs))) [
  | inl fits ↦
      let le = leb→le n (length bs) fits in
      rw
        (
          le→leb n (length (bs ++ more)) (omega (arith, length-append bs more)),
          take_append_short n bs more le,
          drop_append_short n bs more le,
        )
        (ground arith)
  | inr short ↦ ground arith
]

pub Parsed-append :
    (n : ℕ) (bs : List ℕ) (r : Request) (rest more : List ℕ)
    → Parsed n bs r rest
    → Parsed n (bs ++ more) r (rest ++ more)
Parsed-append n bs r rest more p = record {
  after_method = p.after_method ++ more;
  payload_len = p.payload_len;
  after_length = p.after_length ++ more;
  method_read = read_full-append_more n bs more r.method p.after_method p.method_read;
  length_read = read_u32-append p.after_method more p.payload_len p.after_length p.length_read;
  payload_read =
      read_full-append_more p.payload_len p.after_length more r.payload rest p.payload_read;
}

-- Reading what was written.
abbrev pub body : Request → List ℕ
body r = r.method ++ (u32_bytes (length r.payload) ++ r.payload)

unfoldable pub Parsed-body :
    (r : Request) (rest : List ℕ)
    → length r.payload ≤ max_payload_len
    → Parsed (length r.method) (body r ++ rest) r rest
Parsed-body r rest h = record {
  after_method = u32_bytes (length r.payload) ++ (r.payload ++ rest);
  payload_len = length r.payload;
  after_length = r.payload ++ rest;
  method_read =
      rw (append_assoc r.method (u32_bytes (length r.payload) ++ r.payload) rest)
        (read_full-append r.method (u32_bytes (length r.payload) ++ (r.payload ++ rest)));
  length_read = read_u32-u32_bytes (length r.payload) (r.payload ++ rest) (omega arith);
  payload_read = read_full-append r.payload rest;
}

pub Parsed_unique :
    (n : ℕ) (bs : List ℕ) (r s : Request) (rest rest' : List ℕ)
    → Parsed n bs r rest
    → Parsed n bs s rest'
    → rest ≡ rest'
Parsed_unique n bs r s rest rest' p q =
    cc (p.method_read, q.method_read, p.length_read, q.length_read, p.payload_read, q.payload_read)

pub read_u32-eof : (bs : List ℕ) → read_u32 bs ≡ failed eof → length bs ≡ 0
unfolding read_u32
read_u32-eof [] e = refl
read_u32-eof (a ∷ []) e = cc
read_u32-eof (a ∷ b ∷ []) e = cc
read_u32-eof (a ∷ b ∷ c ∷ []) e = cc
read_u32-eof (a ∷ b ∷ c ∷ d ∷ bs) e = cc
