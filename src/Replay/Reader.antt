-- ===== src/Replay/Reader.antt =====
-- Reads from the replay file, as main.go and cmd/grpc-parity-check/main.go make them. The file is
-- the list of the bytes that are still to be read.
use go_replayer.Prelude.{
  ℕ, ◌+◌, ◌*◌, ◌/◌, ◌%◌, ◌^◌, ◌<◌, ◌≡◌, List, [], ◌∷◌, ◌++◌, arith, leb, if◌then◌else◌, length,
  le→leb, length-append, length-take, length-drop, take, drop, Text, take-append, drop-append, ap,
  ◌⊎◌, ◌≤◌, inl, inr, refl,
}

pub record Request : Type 0 where
  pub method : Text
  pub payload : List ℕ

-- `io.EOF`: no byte was there; `io.ErrUnexpectedEOF`: some were, and too few.
pub data ReadError : Type 0 where
  eof unexpected_eof : ReadError

-- What a read gives: an error, or the value and the bytes behind it.
pub data Read {ℓ} (A : Type ℓ) : Type ℓ where
  failed : ReadError → Read A
  got : A → List ℕ → Read A

-- `io.ReadFull` into a buffer of `n` bytes. An empty buffer is full at once.
unfoldable pub read_full : ℕ → List ℕ → Read (List ℕ)
read_full n bs =
    if leb n (length bs)
    then got (take n bs) (drop n bs)
    else elim bs [ [] ↦ failed eof | _ ∷ _ ↦ failed unexpected_eof ]

-- `binary.Read(f, binary.BigEndian, &v)` with `v` a uint32.
unfoldable pub read_u32 : List ℕ → Read ℕ
read_u32 [] = failed eof
read_u32 (a ∷ b ∷ c ∷ d ∷ rest) = got (((a * 256 + b) * 256 + c) * 256 + d) rest
read_u32 bs = failed unexpected_eof

-- The documented record layout, which the files are written in: big-endian length prefixes.
abbrev pub u32_bytes : ℕ → List ℕ
u32_bytes n = n / 2 ^ 24 % 256 ∷ n / 2 ^ 16 % 256 ∷ n / 2 ^ 8 % 256 ∷ n % 256 ∷ []

unfoldable pub encode_record : Request → List ℕ
encode_record r =
    u32_bytes (length r.method) ++ (r.method ++ (u32_bytes (length r.payload) ++ r.payload))

unfoldable pub encode_records : List Request → List ℕ
encode_records [] = []
encode_records (r ∷ rs) = encode_record r ++ encode_records rs

pub read_u32-u32_bytes :
    (n : ℕ) (rest : List ℕ) → n < 2 ^ 32 → read_u32 (u32_bytes n ++ rest) ≡ got n rest
unfolding read_u32
read_u32-u32_bytes n rest h =
    let e : ((n / 2 ^ 24 % 256 * 256 + n / 2 ^ 16 % 256) * 256 + n / 2 ^ 8 % 256) * 256 + n % 256
        ≡ n =
      omega arith in
    ap (λ (k : ℕ). got k rest) e

pub read_full-append : (xs rest : List ℕ) → read_full (length xs) (xs ++ rest) ≡ got xs rest
unfolding read_full
read_full-append xs rest = rw (
  le→leb (length xs) (length (xs ++ rest)) (omega (arith, length-append xs rest)),
  take-append xs rest,
  drop-append xs rest,
)

-- A read that succeeds takes its bytes off the front.
pub read_u32_takes :
    (bs : List ℕ) (n : ℕ) (rest : List ℕ) → read_u32 bs ≡ got n rest → length bs ≡ length rest + 4
unfolding read_u32
read_u32_takes [] n rest e = cc
read_u32_takes (a ∷ []) n rest e = cc
read_u32_takes (a ∷ b ∷ []) n rest e = cc
read_u32_takes (a ∷ b ∷ c ∷ []) n rest e = cc
read_u32_takes (a ∷ b ∷ c ∷ d ∷ bs) n rest e = ground arith

pub read_full_takes :
    (n : ℕ) (bs xs rest : List ℕ)
    → read_full n bs ≡ got xs rest
    → (length bs ≡ length rest + n) × (length xs ≡ n)
unfolding read_full
read_full_takes n bs xs rest e = ground (arith, length-take n bs, length-drop n bs)

pub Read-cases {ℓ} :
    {A : Type ℓ} (r : Read A)
    → ((e : ReadError) × (r ≡ failed e)) ⊎ ((a : A) × (rest : List ℕ) × (r ≡ got a rest))
Read-cases (failed e) = inl (e, refl)
Read-cases (got a rest) = inr (a, rest, refl)

-- The reads of one record that follow its method's length `n`.
pub record Parsed (n : ℕ) (bs : List ℕ) (r : Request) (rest : List ℕ) : Type 0 where
  pub after_method : List ℕ
  pub payload_len : ℕ
  pub after_length : List ℕ
  pub method_read : read_full n bs ≡ got r.method after_method
  pub length_read : read_u32 after_method ≡ got payload_len after_length
  pub payload_read : read_full payload_len after_length ≡ got r.payload rest

pub Parsed_sizes :
    {n : ℕ} {bs : List ℕ} {r : Request} {rest : List ℕ} (p : Parsed n bs r rest)
    → (length r.method ≡ n) × (length r.payload ≡ p.payload_len) × (length rest + 4 ≤ length bs)
Parsed_sizes {n} {bs} {r} {rest} p =
    let m = read_full_takes n bs r.method p.after_method p.method_read in
    let l = read_u32_takes p.after_method p.payload_len p.after_length p.length_read in
    let b = read_full_takes p.payload_len p.after_length r.payload rest p.payload_read in
    (m.1, b.1, omega arith)
