-- ===== src/Format/Packed.antt =====
-- crates/common/src/format/packed_int.rs: `PackedUint`, a u64 as the number of its significant
-- bytes followed by those bytes, and `usize`, which is written as one.
pub mod Bytes
pub mod RoundTrip
use snarkops.Common.{
  ℕ, zero, suc, ◌+◌, ◌-◌, ◌/◌, List, [], ◌∷◌, ◌++◌, ◌==◌, ltb, if◌then◌else◌, take, replicate,
}
use snarkops.Format.Trait.{
  DataFormat, Reader, Output, ◌>>=◌, ◌⊕◌, pure, fail, custom, read_exact, write,
  default_write_header, default_read_header,
}
use snarkops.Format.Ints.{to_le_bytes, from_le_bytes, unit_format, read_uint}

-- The number of binary digits, for a number below 2 ^ fuel.
unfoldable pub bit_length : ℕ → ℕ → ℕ
bit_length zero v = 0
bit_length (suc fuel) v = if v == 0 then 0 else suc (bit_length fuel (v / 2))

-- `v.leading_zeros()` of a u64.
unfoldable pub leading_zeros : ℕ → ℕ
leading_zeros v = 64 - bit_length 64 v

-- `8u8.saturating_sub((zeroes / 8) as u8)`
unfoldable pub num_bytes : ℕ → ℕ
num_bytes v = 8 - leading_zeros v / 8

unfoldable pub write_packed : ℕ → Output
write_packed v = write (num_bytes v ∷ []) ⊕ write (take (num_bytes v) (to_le_bytes 8 v))

-- The bytes that are read go to the front of eight zeros.
unfoldable pub read_packed : Reader ℕ
read_packed = do
  n ← read_uint 1
  if ltb 8 n
      then fail (custom "PackedUint received a length which is greater than 8")
      else do bytes ← read_exact n; pure (from_le_bytes (bytes ++ replicate (8 - n) 0))

-- `PackedUint`, and `usize` on a 64-bit machine.
abbrev pub packed_format : DataFormat Unit ℕ
packed_format = record {
  latest_header = tt;
  write_header = default_write_header unit_format tt;
  read_header = default_read_header unit_format;
  write_data = write_packed;
  read_data = λ _. read_packed;
}
