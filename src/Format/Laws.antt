-- ===== src/Format/Laws.antt =====
-- What an implementation of `DataFormat` promises, and what the default methods of
-- crates/common/src/format/mod.rs make of it.
use snarkops.Common.{ℕ, ◌≡◌, List, ◌++◌, append_assoc, length, length-append, ok, arith}
use snarkops.Format.Trait.{
  DataFormat, Output, ◌⊕◌, default_write_header, default_read_header, write_dataformat,
  read_dataformat,
}

-- Reading what was written gives the value back and leaves the bytes behind it.
pub record IsLawful {H A : Type 0} (F : DataFormat H A) (IsValid : A → Type 0) : Type 0 where
  pub data_round_trip :
      (a : A) (rest : List ℕ)
      → IsValid a
      → F.read_data F.latest_header ((F.write_data a).bytes ++ rest) ≡ ok (a, rest)
  pub header_round_trip :
      (a : A) (rest : List ℕ)
      → F.read_header ((F.write_header a).bytes ++ rest) ≡ ok (F.latest_header, rest)

-- The counts that the writes return are the numbers of bytes that they append.
pub record IsCounted {H A : Type 0} (F : DataFormat H A) : Type 0 where
  pub data_count : (a : A) → (F.write_data a).count ≡ length (F.write_data a).bytes
  pub header_count : (a : A) → (F.write_header a).count ≡ length (F.write_header a).bytes

pub ⊕_count :
    (a b : Output)
    → a.count ≡ length a.bytes
    → b.count ≡ length b.bytes
    → (a ⊕ b).count ≡ length (a ⊕ b).bytes
⊕_count a b h k = omega (arith, length-append a.bytes b.bytes)

module _ {K H A : Type 0} (header_format : DataFormat K H) where
  pub default_read_header-default_write_header :
      {IsValid : H → Type 0} (latest : H) (a : A) (rest : List ℕ)
      → IsLawful header_format IsValid
      → IsValid latest
      → default_read_header header_format
          ((default_write_header header_format latest a).bytes ++ rest)
        ≡ ok (latest, rest)
  unfolding default_write_header default_read_header
  default_read_header-default_write_header latest a rest law v =
      simp (append_assoc, law.header_round_trip latest, law.data_round_trip latest rest v)

  pub default_write_header_count :
      (latest : H) (a : A)
      → IsCounted header_format
      → (default_write_header header_format latest a).count
        ≡ length (default_write_header header_format latest a).bytes
  unfolding default_write_header
  default_write_header_count latest a law =
      ⊕_count (header_format.write_header latest) (header_format.write_data latest)
        (law.header_count latest) (law.data_count latest)

module _ {H A : Type 0} (F : DataFormat H A) {IsValid : A → Type 0} where
  -- For a lawful format, a valid value that is written with its header is read back with its header,
  -- and the bytes behind it are left.
  pub read_dataformat-write_dataformat :
      (a : A) (rest : List ℕ)
      → IsLawful F IsValid
      → IsValid a
      → read_dataformat F ((write_dataformat F a).bytes ++ rest) ≡ ok (a, rest)
  unfolding read_dataformat write_dataformat
  read_dataformat-write_dataformat a rest law v =
      simp (append_assoc, law.header_round_trip a, law.data_round_trip a rest v)
