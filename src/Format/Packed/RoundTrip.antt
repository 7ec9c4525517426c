-- ===== src/Format/Packed/RoundTrip.antt =====
-- `PackedUint` of crates/common/src/format/packed_int.rs: values and bytes.
use snarkops.Common.{
  ℕ, zero, suc, ◌-◌, ◌/◌, ◌%◌, ◌^◌, ◌≤◌, ◌<◌, ◌≡◌, refl, ap, List, [], ◌∷◌, ◌++◌, le→not_ltb, take,
  replicate, ok, arith,
}
use snarkops.Format.Trait.{read_exact, default_write_header, default_read_header}
use snarkops.Format.Laws.{IsLawful, IsCounted}
use snarkops.Format.Ints.{to_le_bytes, from_le_bytes, read_uint}
use snarkops.Format.Ints.RoundTrip.{
  length-to_le_bytes, read_exact-append_of_length, from_le_bytes-to_le_bytes,
}
use snarkops.Format.Packed.{num_bytes, write_packed, read_packed, packed_format}
use snarkops.Format.Packed.Bytes.{num_bytes_enough, num_bytes_needed, num_bytes-le}

take-to_le_bytes : (n m v : ℕ) → n ≤ m → take n (to_le_bytes m v) ≡ to_le_bytes n v
unfolding to_le_bytes
take-to_le_bytes zero m v h = refl
take-to_le_bytes (suc n) zero v h = elim h [ ]
take-to_le_bytes (suc n) (suc m) v h =
    ap (λ bs. v % 256 ∷ bs) (take-to_le_bytes n m (v / 256) (omega arith))

from_le_bytes-replicate : (n : ℕ) → from_le_bytes (replicate n 0) ≡ 0
unfolding from_le_bytes
from_le_bytes-replicate zero = refl
from_le_bytes-replicate (suc n) = omega (arith, from_le_bytes-replicate n)

-- Zeros behind the last byte change nothing.
from_le_bytes-append :
    (bs : List ℕ) (n : ℕ) → from_le_bytes (bs ++ replicate n 0) ≡ from_le_bytes bs
unfolding from_le_bytes
from_le_bytes-append [] n = from_le_bytes-replicate n
from_le_bytes-append (b ∷ bs) n = omega (arith, from_le_bytes-append bs n)

-- The bytes that `write_data` appends: their number, and the significant bytes.
pub write_packed_bytes :
    (v : ℕ) → (write_packed v).bytes ≡ num_bytes v ∷ to_le_bytes (num_bytes v) v
unfolding write_packed
write_packed_bytes v = ap (λ bs. num_bytes v ∷ bs) (take-to_le_bytes _ 8 v (num_bytes-le v))

read_length : (n : ℕ) (rest : List ℕ) → n < 256 → read_uint 1 (n ∷ rest) ≡ ok (n, rest)
unfolding read_uint read_exact from_le_bytes
read_length n rest h = ground arith

-- A u64 is read back from its packed form, whatever follows it.
pub read_packed-write_packed :
    (v : ℕ) (rest : List ℕ)
    → v < 2 ^ 64
    → read_packed ((write_packed v).bytes ++ rest) ≡ ok (v, rest)
unfolding read_packed
read_packed-write_packed v rest h =
    let n = num_bytes v in
    let digits = to_le_bytes n v in
    let n_le = num_bytes-le v in
    rw (write_packed_bytes v, read_length n (digits ++ rest) (omega arith), le→not_ltb 8 n n_le)
      (rw (
        read_exact-append_of_length n digits rest (length-to_le_bytes n v),
        from_le_bytes-append digits (8 - n),
        from_le_bytes-to_le_bytes n v (num_bytes_enough v h),
      ))

-- A u64 is written as a byte `n`, at most 8, and the `n` bytes of its value, the last not zero.
pub write_packed_shape :
    (v : ℕ)
    → v < 2 ^ 64
    → (n : ℕ) × ((write_packed v).bytes ≡ n ∷ to_le_bytes n v)
      × (n ≤ 8)
      × (v < 256 ^ n)
      × ((m : ℕ) → n ≡ suc m → 256 ^ m ≤ v)
write_packed_shape v h =
    (num_bytes v, write_packed_bytes v, num_bytes-le v, num_bytes_enough v h, num_bytes_needed v)

abbrev pub IsU64 : ℕ → Type 0
IsU64 v = v < 2 ^ 64

pub packed_format-IsLawful : IsLawful packed_format IsU64
unfolding default_write_header default_read_header
packed_format-IsLawful = record {
  data_round_trip = read_packed-write_packed;
  header_round_trip = λ _ _. refl;
}

pub packed_format-IsCounted : IsCounted packed_format
unfolding default_write_header write_packed
packed_format-IsCounted = record { data_count = λ v. omega arith; header_count = λ _. refl }
