-- ===== src/Parity/Varint.antt =====
-- decodeVarint of cmd/grpc-parity-check/proto_compare.go. Bytes are numbers below 256.
use go_replayer.Prelude.{
  ℕ, List, ◌∷◌, ◌≡◌, ◌≢◌, ◌*◌, ◌⊎◌, ◌++◌, ◌^◌, ◌+◌, if◌then◌else◌, arith, ◌%◌, ◌<◌, leb, [], ◌≤◌,
  ◌==◌, length, refl, inl,
}
use Prim.Native.Nat.{bit_and, bit_or}

-- `val |= uint64(b&0x7F) << (7 * uint(i))`; the shift drops what passes 64 bits.
abbrev pub add_group : ℕ → ℕ → ℕ → ℕ
add_group val b i = bit_or val (bit_and b 0x7f * 2 ^ (7 * i) % 2 ^ 64)

-- The loop from index `i` on: the value and the number of bytes read, 0 for a malformed number.
unfoldable pub varint_loop : List ℕ → ℕ → ℕ → ℕ × ℕ
varint_loop [] i val = (0, 0)
varint_loop (b ∷ bs) i val =
    let more = varint_loop bs (i + 1) (add_group val b i) in
    if leb 10 i then (0, 0) else if bit_and b 0x80 == 0 then (add_group val b i, i + 1) else more

unfoldable pub decode_varint : List ℕ → ℕ × ℕ
decode_varint bs = varint_loop bs 0 0

varint_loop_takes :
    (bs : List ℕ) (i val : ℕ)
    → ((varint_loop bs i val).1 ≡ 0)
      ⊎ ((i < (varint_loop bs i val).1)
          × ((varint_loop bs i val).1 ≤ 10)
          × ((varint_loop bs i val).1 ≤ i + length bs))
unfolding varint_loop
varint_loop_takes [] i val = inl refl
varint_loop_takes (b ∷ bs) i val = ground (arith, varint_loop_takes bs (i + 1) (add_group val b i))

-- A number that is read takes 1 to 10 bytes, and no more than there are.
pub decode_varint_takes :
    (bs : List ℕ)
    → ((decode_varint bs).1 ≡ 0)
      ⊎ ((0 < (decode_varint bs).1)
          × ((decode_varint bs).1 ≤ 10)
          × ((decode_varint bs).1 ≤ length bs))
unfolding decode_varint
decode_varint_takes bs = ground (arith, varint_loop_takes bs 0 0)

varint_loop-append :
    (bs more : List ℕ) (i val : ℕ)
    → (varint_loop bs i val).1 ≢ 0
    → varint_loop (bs ++ more) i val ≡ varint_loop bs i val
unfolding varint_loop
varint_loop-append [] more i val h = absurd (h refl)
varint_loop-append (b ∷ bs) more i val h =
    ground (arith, varint_loop-append bs more (i + 1) (add_group val b i))

-- decodeVarint does not look past the number that it reads.
pub decode_varint-append :
    (bs more : List ℕ) → (decode_varint bs).1 ≢ 0 → decode_varint (bs ++ more) ≡ decode_varint bs
unfolding decode_varint
decode_varint-append bs more h = varint_loop-append bs more 0 0 h
