-- ===== src/Format/Ints/RoundTrip.antt =====
-- The integer formats of crates/common/src/format/impl_ints.rs: bytes and values.
use snarkops.Format.{◌>>=◌, DataReadError, Reader}
use native.Mathlib.Nat.{pow-suc}
use snarkops.Common.{
  and_then_nested, and_then, Result, ℕ, zero, suc, ◌+◌, ◌*◌, ◌/◌, ◌^◌, ◌<◌, ◌≡◌, refl, ap, List, [],
  ◌∷◌, ◌++◌, Bool, true, false, ok, length, arith,
}
use snarkops.Common.Int.{ℤ, pos, negsuc}
use snarkops.Format.Trait.{read_exact, default_write_header, default_read_header}
use snarkops.Format.Ints.{
  to_le_bytes, from_le_bytes, to_bits, from_bits, unit_format, write_uint, read_uint, uint_format,
  write_int, read_int, int_format, write_bool, read_bool, bool_format, read_nonzero,
  nonzero_u8_format,
}
use snarkops.Format.Laws.{IsLawful, IsCounted}

pub length-to_le_bytes : (size v : ℕ) → length (to_le_bytes size v) ≡ size
unfolding to_le_bytes
length-to_le_bytes zero v = refl
length-to_le_bytes (suc size) v = ap suc (length-to_le_bytes size (v / 256))

-- Any bytes are read off the front by their number.
pub read_exact-append : (bs rest : List ℕ) → read_exact (length bs) (bs ++ rest) ≡ ok (bs, rest)
unfolding read_exact
read_exact-append [] rest = refl
read_exact-append (b ∷ bs) rest = rw (read_exact-append bs rest)

pub read_exact-append_of_length :
    (n : ℕ) (bs rest : List ℕ) → length bs ≡ n → read_exact n (bs ++ rest) ≡ ok (bs, rest)
read_exact-append_of_length n bs rest e = rw (← e) (read_exact-append bs rest)

pub from_le_bytes-to_le_bytes :
    (size v : ℕ) → v < 256 ^ size → from_le_bytes (to_le_bytes size v) ≡ v
unfolding from_le_bytes to_le_bytes
from_le_bytes-to_le_bytes zero v h = omega arith
from_le_bytes-to_le_bytes (suc size) v h =
    let fits : v / 256 < 256 ^ size = omega (arith, pow-suc 256 size) in
    omega (arith, from_le_bytes-to_le_bytes size (v / 256) fits)

pub read_uint-write_uint :
    (size v : ℕ) (rest : List ℕ)
    → v < 256 ^ size
    → read_uint size ((write_uint size v).bytes ++ rest) ≡ ok (v, rest)
unfolding read_uint write_uint
read_uint-write_uint size v rest h = rw (
  read_exact-append_of_length size (to_le_bytes size v) rest (length-to_le_bytes size v),
  from_le_bytes-to_le_bytes size v h,
)

abbrev pub IsUint : ℕ → ℕ → Type 0
IsUint size v = v < 256 ^ size

-- From -(2 ^ (w - 1)) to 2 ^ (w - 1) - 1, at w = 8 * size.
abbrev pub IsInt : ℕ → ℤ → Type 0
IsInt size (pos n) = 2 * n < 256 ^ size
IsInt size (negsuc n) = 2 * n + 1 < 256 ^ size

abbrev pub IsNonzeroU8 : ℕ → Type 0
IsNonzeroU8 n = (0 < n) × (n < 256)

pub to_bits_fits : (size : ℕ) (v : ℤ) → IsInt size v → to_bits size v < 256 ^ size
unfolding to_bits
to_bits_fits size (pos n) h = omega arith
to_bits_fits size (negsuc n) h = omega arith

pub from_bits-to_bits : (size : ℕ) (v : ℤ) → IsInt size v → from_bits size (to_bits size v) ≡ v
unfolding from_bits to_bits
from_bits-to_bits size (pos n) h = ground arith
from_bits-to_bits size (negsuc n) h = ground arith

pub read_int-write_int :
    (size : ℕ) (v : ℤ) (rest : List ℕ)
    → IsInt size v
    → read_int size ((write_int size v).bytes ++ rest) ≡ ok (v, rest)
unfolding read_int write_int
read_int-write_int size v rest h = rw (
  read_uint-write_uint size (to_bits size v) rest (to_bits_fits size v h),
  from_bits-to_bits size v h,
)

pub unit_format-IsLawful : IsLawful unit_format (λ _. Unit {0})
unit_format-IsLawful = record { data_round_trip = λ _ _ _. refl; header_round_trip = λ _ _. refl }

pub uint_format-IsLawful : (size : ℕ) → IsLawful (uint_format size) (IsUint size)
unfolding default_write_header default_read_header
uint_format-IsLawful size = record {
  data_round_trip = read_uint-write_uint size;
  header_round_trip = λ _ _. refl;
}

pub int_format-IsLawful : (size : ℕ) → IsLawful (int_format size) (IsInt size)
unfolding default_write_header default_read_header
int_format-IsLawful size = record {
  data_round_trip = read_int-write_int size;
  header_round_trip = λ _ _. refl;
}

pub bool_format-IsLawful : IsLawful bool_format (λ _. Unit {0})
unfolding default_write_header default_read_header write_bool read_bool read_exact from_le_bytes
bool_format-IsLawful = record {
  data_round_trip = λ b rest _. cases b rest;
  header_round_trip = λ _ _. refl;
}
  where
    cases : (b : Bool) (rest : List ℕ) → read_bool ((write_bool b).bytes ++ rest) ≡ ok (b, rest)
    cases true rest = refl
    cases false rest = refl

pub nonzero_u8_format-IsLawful : IsLawful nonzero_u8_format IsNonzeroU8
unfolding default_write_header default_read_header read_nonzero read_exact from_le_bytes
nonzero_u8_format-IsLawful = record {
  data_round_trip = λ n rest h. ground arith;
  header_round_trip = λ _ _. refl;
}

pub unit_format-IsCounted : IsCounted unit_format
unit_format-IsCounted = record { data_count = λ _. refl; header_count = λ _. refl }

pub uint_format-IsCounted : (size : ℕ) → IsCounted (uint_format size)
unfolding default_write_header write_uint
uint_format-IsCounted size = record { data_count = λ _. refl; header_count = λ _. refl }

pub int_format-IsCounted : (size : ℕ) → IsCounted (int_format size)
unfolding default_write_header write_int
int_format-IsCounted size = record { data_count = λ _. refl; header_count = λ _. refl }

-- A discriminant with what it stands for, which are read back together, and what follows them.
pub tagged_ok {ℓ} :
    {A : Type 0} {B : Type ℓ} (of_tag : ℕ → Reader A) (f : A × List ℕ → Result DataReadError B)
    (input : List ℕ) {rest : List ℕ} {a : A} {r : Result DataReadError B}
    → (read_uint 1 >>= of_tag) input ≡ ok (a, rest)
    → f (a, rest) ≡ r
    → and_then (read_uint 1 input) (λ x. and_then (of_tag x.0 x.1) f) ≡ r
tagged_ok of_tag f input h e = and_then_nested (read_uint 1 input) (λ x. of_tag x.0 x.1) f h e
