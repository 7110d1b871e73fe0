-- ===== src/Tests/Parity.antt =====
-- Two messages with one double field each.
use go_replayer.Parity.Doubles.{doubles, double_of}
use go_replayer.Prelude.{
  ℕ, List, [], ◌∷◌, ◌≡◌, ◌<◌, ◌≢◌, ◌↔◌, refl, length, some, none, true, arith, map,
}
use go_replayer.Prelude.Int.{ℤ, pos}
use go_replayer.Parity.Varint.{decode_varint, varint_loop}
use go_replayer.Parity.Floats.{
  extract_top_level_floats, extract_shallow_floats, extract_loop, read_field, read_double,
  append_float, is_comparable, little_endian,
}
use go_replayer.Parity.Extraction.{Good, extract_floats_total}
use go_replayer.Parity.Compare.{
  CompareResult, AllClose, compare_proto_floats, compare_proto_floats_lem,
}
use go_replayer.Parity.Verdict.{Reply}
use go_replayer.Tests.Arithmetic.{small_machine}

abbrev number : List ℕ
number = 0xac ∷ 0x02 ∷ []

number_300 : decode_varint number ≡ (300, 2)
unfolding decode_varint varint_loop
number_300 = refl

number_read : (decode_varint number).1 ≢ 0
unfolding decode_varint varint_loop
number_read h = omega arith

-- Field 1, a double; in the small machine its bits are its value.
abbrev message : ℕ → List ℕ
message v = 0x09 ∷ v ∷ 0 ∷ 0 ∷ 0 ∷ 0 ∷ 0 ∷ 0 ∷ 0 ∷ []

message_floats : extract_top_level_floats (message 5) ≡ some (pos 5 ∷ [])
unfolding extract_top_level_floats extract_loop read_field read_double append_float is_comparable
    little_endian decode_varint varint_loop
message_floats = refl

abbrev octets : List (List ℕ)
octets = (5 ∷ 0 ∷ 0 ∷ 0 ∷ 0 ∷ 0 ∷ 0 ∷ 0 ∷ []) ∷ (0 ∷ 1 ∷ 0 ∷ 0 ∷ 0 ∷ 0 ∷ 0 ∷ 0 ∷ []) ∷ []

extract_floats_total_example :
    Good (extract_top_level_floats (message 5))
    × Good (extract_shallow_floats (message 5))
    × (extract_top_level_floats (doubles octets) ≡ some (map double_of octets))
    × (extract_shallow_floats (doubles octets) ≡ some (map double_of octets))
unfolding little_endian
extract_floats_total_example =
    extract_floats_total (message 5) octets (refl, (refl, tt))
      ((refl, refl, refl), ((refl, refl, refl), tt))

compare_proto_floats_lem_example :
    (xs ys : List ℤ) × (r : CompareResult) × (extract_top_level_floats (message 5) ≡ some xs)
    × (extract_top_level_floats (message 7) ≡ some ys)
    × (compare_proto_floats (message 5) (message 7) (pos 2) ≡ some r)
    × ((r.is_match ≡ true) ↔ ((0 < length xs) × AllClose (pos 2) xs ys))
    × ((r.is_match ≡ true) ↔ (r.mismatch_count ≡ 0))
compare_proto_floats_lem_example = compare_proto_floats_lem (message 5) (message 7) (pos 2)

-- An equal pair, a close pair, one that is too far apart, and an error.
-- The first two pairs change places.
abbrev reordered : List (Reply × Reply)
reordered =
    (some (message 5), some (message 7))
    ∷ (some (message 5), some (message 5))
    ∷ (some (message 5), some (message 9))
    ∷ (none, some (message 1))
    ∷ []
