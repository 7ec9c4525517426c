-- ===== src/Tests/Formats.antt =====
-- The binary formats: the cases of the tests in crates/common/src/format.
use snarkops.Common.{
  suc, ℕ, ◌≡◌, ◌≤◌, ◌<◌, ◌^◌, refl, Bool, true, List, [], ◌∷◌, ◌++◌, ok, err, arith,
}
use snarkops.Format.{read_exact, io}
use snarkops.Format.Laws.{IsLawful}
use snarkops.Format.Ints.{read_uint, from_le_bytes, to_le_bytes, uint_format, unit_format}
use snarkops.Format.Ints.RoundTrip.{IsUint, uint_format-IsLawful, unit_format-IsLawful}
use snarkops.Format.Packed.{num_bytes, leading_zeros, bit_length, write_packed, read_packed}
use snarkops.Format.Packed.RoundTrip.{read_packed-write_packed, write_packed_shape}
use snarkops.Format.Collections.{vec_format}
use snarkops.Format.Collections.RoundTrip.{IsVec, vec_format-IsLawful}

packed_runs : (write_packed 0x12345678).bytes ≡ 4 ∷ 0x78 ∷ 0x56 ∷ 0x34 ∷ 0x12 ∷ []
unfolding write_packed to_le_bytes num_bytes leading_zeros bit_length
packed_runs = refl

packed_zero : (write_packed 0).bytes ≡ 0 ∷ []
unfolding write_packed to_le_bytes num_bytes leading_zeros bit_length
packed_zero = refl

packed_cut : read_packed (2 ∷ 1 ∷ []) ≡ err io
unfolding read_packed read_uint read_exact from_le_bytes
packed_cut = refl

read_packed-write_packed_example :
    read_packed ((write_packed 0x10001).bytes ++ 7 ∷ []) ≡ ok (0x10001, 7 ∷ [])
read_packed-write_packed_example = read_packed-write_packed 0x10001 (7 ∷ []) (omega arith)

write_packed_shape_example :
    (n : ℕ) × ((write_packed 256).bytes ≡ n ∷ to_le_bytes n 256)
    × (n ≤ 8)
    × (256 < 256 ^ n)
    × ((m : ℕ) → n ≡ suc m → 256 ^ m ≤ 256)
write_packed_shape_example = write_packed_shape 256 (omega arith)

vec_format-IsLawful_example : IsLawful (vec_format unit_format (uint_format 2)) (IsVec (IsUint 2))
vec_format-IsLawful_example =
    vec_format-IsLawful unit_format (uint_format 2) unit_format-IsLawful tt (uint_format-IsLawful 2)

any_text : List ℕ → Bool
any_text _ = true
