-- ===== src/Format/Ints.antt =====
-- crates/common/src/format/impl_ints.rs and the `()` of impl_tuples.rs: fixed-width integers,
-- little-endian, `bool` and `NonZeroU8`.
pub mod RoundTrip
use snarkops.Common.{
  ℕ, zero, suc, ◌+◌, ◌-◌, ◌*◌, ◌/◌, ◌%◌, ◌^◌, ◌<◌, ◌≡◌, List, [], ◌∷◌, ◌++◌, Bool, not, ◌==◌, ltb,
  if◌then◌else◌, ok, err, length,
}
use snarkops.Common.Int.{ℤ, pos, negsuc}
use snarkops.Format.Trait.{
  DataFormat, Reader, Output, ◌>>=◌, pure, fail, custom, read_exact, write, default_write_header,
  default_read_header,
}

-- `v.to_le_bytes()` for an unsigned integer of `size` bytes.
unfoldable pub to_le_bytes : ℕ → ℕ → List ℕ
to_le_bytes zero v = []
to_le_bytes (suc size) v = v % 256 ∷ to_le_bytes size (v / 256)

-- `from_le_bytes(bytes)`
unfoldable pub from_le_bytes : List ℕ → ℕ
from_le_bytes [] = 0
from_le_bytes (b ∷ bs) = b + 256 * from_le_bytes bs

-- The bit pattern of a signed integer of `size` bytes, and the integer of a bit pattern.
unfoldable pub to_bits : ℕ → ℤ → ℕ
to_bits size (pos n) = n
to_bits size (negsuc n) = 256 ^ size - (n + 1)

unfoldable pub from_bits : ℕ → ℕ → ℤ
from_bits size v = if ltb (2 * v) (256 ^ size) then pos v else negsuc (256 ^ size - (v + 1))

-- `()`, whose header and data are empty.
abbrev pub unit_format : DataFormat Unit Unit
unit_format = record {
  latest_header = tt;
  write_header = λ _. write [];
  read_header = pure tt;
  write_data = λ _. write [];
  read_data = λ _. pure tt;
}

unfoldable pub write_uint : ℕ → ℕ → Output
write_uint size v = write (to_le_bytes size v)

unfoldable pub read_uint : ℕ → Reader ℕ
read_uint size = do bytes ← read_exact size; pure (from_le_bytes bytes)

-- `impl_integer_dataformat!` at an unsigned type of `size` bytes.
abbrev pub uint_format : ℕ → DataFormat Unit ℕ
uint_format size = record {
  latest_header = tt;
  write_header = default_write_header unit_format tt;
  read_header = default_read_header unit_format;
  write_data = write_uint size;
  read_data = λ _. read_uint size;
}

abbrev pub u8_format : DataFormat Unit ℕ
u8_format = uint_format 1

unfoldable pub write_int : ℕ → ℤ → Output
unfolding write_uint
write_int size v = write_uint size (to_bits size v)

unfoldable pub read_int : ℕ → Reader ℤ
unfolding read_uint
read_int size = do v ← read_uint size; pure (from_bits size v)

-- `impl_integer_dataformat!` at a signed type of `size` bytes.
abbrev pub int_format : ℕ → DataFormat Unit ℤ
int_format size = record {
  latest_header = tt;
  write_header = default_write_header unit_format tt;
  read_header = default_read_header unit_format;
  write_data = write_int size;
  read_data = λ _. read_int size;
}

unfoldable pub write_bool : Bool → Output
write_bool b = write ((if b then 1 else 0) ∷ [])

-- `byte[0] != 0`, with the byte read as a u8.
unfoldable pub read_bool : Reader Bool
unfolding read_uint
read_bool = do byte ← read_uint 1; pure (not (byte == 0))

abbrev pub bool_format : DataFormat Unit Bool
bool_format = record {
  latest_header = tt;
  write_header = default_write_header unit_format tt;
  read_header = default_read_header unit_format;
  write_data = write_bool;
  read_data = λ _. read_bool;
}

-- A `NonZeroU8` is a number from 1 to 255.
unfoldable pub read_nonzero : Reader ℕ
unfolding read_uint
read_nonzero = do n ← read_uint 1; if n == 0 then fail (custom "invalid NonZeroU8") else pure n

abbrev pub nonzero_u8_format : DataFormat Unit ℕ
nonzero_u8_format = record {
  latest_header = tt;
  write_header = default_write_header unit_format tt;
  read_header = default_read_header unit_format;
  write_data = λ n. write (n ∷ []);
  read_data = λ _. read_nonzero;
}
