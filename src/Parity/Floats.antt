-- ===== src/Parity/Floats.antt =====
-- extractTopLevelFloats and extractShallowFloats of cmd/grpc-parity-check/proto_compare.go. The bytes
-- from `offset` on are the list that is left.
use Prim.Native.Nat.{zero}
use go_replayer.Machine.{Machine, of_nat}
use go_replayer.Prelude.{
  List, ℕ, Bool, if◌then◌else◌, Option, some, ◌∷◌, not, ◌++◌, drop, ◌==◌, [], length, ◌+◌, ◌&&◌,
  take, none, ◌*◌, ltb, suc, ◌%◌, zero,
}
use mathlib.Core.Option
use go_replayer.Parity.Varint.{decode_varint}

-- binary.LittleEndian.Uint32 and Uint64
unfoldable pub little_endian : List ℕ → ℕ
little_endian [] = 0
little_endian (b ∷ bs) = b + 256 * little_endian bs

module _ ⦃m : Machine⦄ where
  open m use {Float, lt, abs, is_nan, is_inf, of_int, of_bits64, of_bits32}

  -- `!IsNaN(val) && !IsInf(val, 0) && Abs(val) < 1e15`
  unfoldable pub is_comparable : Float → Bool
  is_comparable v = not (is_nan v) && not (is_inf v) && lt (abs v) (of_nat 1_000_000_000_000_000)

  unfoldable pub append_float : List Float → Float → List Float
  append_float floats v = if is_comparable v then floats ++ v ∷ [] else floats

  -- What goes on after a field; `none` is a model that is out of fuel.
  abbrev pub Rest : Type 0
  Rest = List ℕ → List Float → Option (List Float)

  unfoldable pub skip_varint : Rest → List ℕ → List Float → Option (List Float)
  skip_varint again bs floats =
      let n = (decode_varint bs).1 in
      let rest = again (drop n bs) floats in if n == 0 then some floats else rest

  unfoldable pub read_double : Rest → List ℕ → List Float → Option (List Float)
  read_double again bs floats =
      let rest = again (drop 8 bs) (append_float floats (of_bits64 (little_endian (take 8 bs)))) in
      if ltb (length bs) 8 then some floats else rest

  unfoldable pub read_float : Rest → List ℕ → List Float → Option (List Float)
  read_float again bs floats =
      let rest = again (drop 4 bs) (append_float floats (of_bits32 (little_endian (take 4 bs)))) in
      if ltb (length bs) 4 then some floats else rest

  -- A length-delimited field; `inner` finds the floats of its bytes.
  unfoldable pub read_bytes :
      (List ℕ → Option (List Float)) → Rest → List ℕ → List Float → Option (List Float)
  read_bytes inner again bs floats =
      let (size, n) = decode_varint bs in
      let body = drop n bs in
      let rest =
        Option.bind (inner (take size body)) (λ sub. again (drop size body) (floats ++ sub)) in
      if n == 0 then some floats else if ltb (length body) size then some floats else rest

  -- The switch on the wire type.
  unfoldable pub read_field :
      (List ℕ → Option (List Float)) → Rest → ℕ → List ℕ → List Float → Option (List Float)
  read_field inner again wire bs floats =
      if wire == 0
      then skip_varint again bs floats
      else if wire == 1
      then read_double again bs floats
      else if wire == 2
      then read_bytes inner again bs floats
      else if wire == 5
      then read_float again bs floats
      else some floats

  unfoldable pub extract_loop :
      (List ℕ → Option (List Float)) → ℕ → List ℕ → List Float → Option (List Float)
  extract_loop inner fuel [] floats = some floats
  extract_loop inner zero (b ∷ bs) floats = none
  extract_loop inner (suc fuel) (b ∷ bs) floats =
      let (tag, n) = decode_varint (b ∷ bs) in
      let rest = read_field inner (extract_loop inner fuel) (tag % 8) (drop n (b ∷ bs)) floats in
      if n == 0 then some floats else rest

  -- Each field takes a byte at least. A submessage of a shallow message is skipped.
  unfoldable pub extract_shallow_floats : List ℕ → Option (List Float)
  extract_shallow_floats bs = extract_loop (λ _. some []) (length bs) bs []

  unfoldable pub extract_top_level_floats : List ℕ → Option (List Float)
  extract_top_level_floats bs = extract_loop extract_shallow_floats (length bs) bs []
