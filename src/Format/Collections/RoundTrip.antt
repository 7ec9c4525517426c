-- ===== src/Format/Collections/RoundTrip.antt =====
-- The formats of crates/common/src/format/impl_collections.rs and its neighbours: values and bytes.
use snarkops.Common.{
  drop-append, take-append, ℕ, ◌≡◌, refl, Bool, true, List, [], ◌∷◌, ◌++◌, Option, none, some,
  length, ok, append_assoc, All, arith,
}
use snarkops.Format.Trait.{DataFormat, read_exact}
use snarkops.Format.Laws.{IsLawful, default_read_header-default_write_header}
use snarkops.Format.Ints.{unit_format, read_uint, from_le_bytes}
use snarkops.Format.Ints.RoundTrip.{read_exact-append, unit_format-IsLawful}
use snarkops.Format.Packed.RoundTrip.{read_packed-write_packed, IsU64}
use snarkops.Format.Collections.{
  write_vec, read_vec, write_bytes, read_bytes, read_string, write_items, read_items, vec_format,
  array_format, write_option, read_option, option_format, pair_format, bytes_format, read_to_string,
  string_format,
}

abbrev pub OptionIsValid {ℓ} : {A : Type ℓ} → (A → Type 0) → Option A → Type 0
OptionIsValid IsValid none = Unit
OptionIsValid IsValid (some x) = IsValid x

abbrev pub IsVec {ℓ} : {A : Type ℓ} → (A → Type 0) → List A → Type 0
IsVec IsValid xs = IsU64 (length xs) × All IsValid xs

module _ {H A : Type 0} (F : DataFormat H A) {IsValid : A → Type 0} (law : IsLawful F IsValid) where
  pub read_items-write_items :
      (xs : List A) (rest : List ℕ)
      → All IsValid xs
      → read_items F F.latest_header (length xs) ((write_items F xs).bytes ++ rest) ≡ ok (xs, rest)
  unfolding read_items write_items
  read_items-write_items [] rest h = refl
  read_items-write_items (x ∷ xs) rest h = simp (
    append_assoc,
    law.data_round_trip x ((write_items F xs).bytes ++ rest) h.0,
    read_items-write_items xs rest h.1,
  )

  pub read_vec-write_vec :
      (xs : List A) (rest : List ℕ)
      → IsVec IsValid xs
      → read_vec F F.latest_header ((write_vec F xs).bytes ++ rest) ≡ ok (xs, rest)
  unfolding write_vec read_vec
  read_vec-write_vec xs rest (len, h) = simp (
    append_assoc,
    read_packed-write_packed (length xs) ((write_items F xs).bytes ++ rest) len,
    read_items-write_items xs rest h,
  )

  read_option-write_option :
      (o : Option A) (rest : List ℕ)
      → OptionIsValid IsValid o
      → read_option F F.latest_header ((write_option F o).bytes ++ rest) ≡ ok (o, rest)
  unfolding read_option write_option read_uint read_exact from_le_bytes
  read_option-write_option none rest h = refl
  read_option-write_option (some x) rest h = simp (law.data_round_trip x rest h)

-- A container of items is lawful if the format of its items and that of their header are.
module _ {K H A : Type 0} (header_format : DataFormat K H) (F : DataFormat H A)
    {IsHeader : H → Type 0} {IsValid : A → Type 0} (header_law : IsLawful header_format IsHeader)
    (latest : IsHeader F.latest_header) (law : IsLawful F IsValid) where
  -- Given lawful formats of the items and of their header: a vector of fewer than 2^64 valid items is
  -- read back from its bytes, with and without its header.
  pub vec_format-IsLawful : IsLawful (vec_format header_format F) (IsVec IsValid)
  vec_format-IsLawful = record {
    data_round_trip = read_vec-write_vec F law;
    header_round_trip = λ xs rest.
        default_read_header-default_write_header header_format F.latest_header xs rest header_law
          latest;
  }

  pub array_format-IsLawful :
      (n : ℕ) → IsLawful (array_format header_format F n) (λ xs. (length xs ≡ n) × All IsValid xs)
  array_format-IsLawful n = record {
    data_round_trip = λ xs rest (len, h). rw (← len) (read_items-write_items F law xs rest h);
    header_round_trip = λ xs rest.
        default_read_header-default_write_header header_format F.latest_header xs rest header_law
          latest;
  }

  -- Given lawful formats of the item and of its header: no item, or a valid one, is read back from its
  -- bytes, with and without its header.
  pub option_format-IsLawful : IsLawful (option_format header_format F) (OptionIsValid IsValid)
  option_format-IsLawful = record {
    data_round_trip = read_option-write_option F law;
    header_round_trip = λ o rest.
        default_read_header-default_write_header header_format F.latest_header o rest header_law
          latest;
  }

module _ {H K A B : Type 0} (F : DataFormat H A) (G : DataFormat K B) {IsLeft : A → Type 0}
    {IsRight : B → Type 0} (left : IsLawful F IsLeft) (right : IsLawful G IsRight) where
  -- Given lawful formats of both parts: a pair of valid parts is read back from its bytes, with and
  -- without its header.
  pub pair_format-IsLawful : IsLawful (pair_format F G) (λ p. IsLeft p.0 × IsRight p.1)
  pair_format-IsLawful = record {
    data_round_trip = λ p rest h. simp (
      append_assoc,
      left.data_round_trip p.0 ((G.write_data p.1).bytes ++ rest) h.0,
      right.data_round_trip p.1 rest h.1,
    );
    header_round_trip = λ p rest. simp (
      append_assoc,
      left.header_round_trip p.0 ((G.write_header p.1).bytes ++ rest),
      right.header_round_trip p.1 rest,
    );
  }

pub bytes_format-IsLawful : IsLawful bytes_format (λ bs. IsU64 (length bs))
unfolding write_bytes read_bytes
bytes_format-IsLawful = record {
  data_round_trip = λ bs rest h. simp (
    append_assoc,
    read_packed-write_packed (length bs) (bs ++ rest) h,
    read_exact-append bs rest,
  );
  header_round_trip = λ bs rest.
      default_read_header-default_write_header unit_format tt bs rest unit_format-IsLawful tt;
}

module _ (is_utf8 : List ℕ → Bool) where
  abbrev pub IsText : List ℕ → Type 0
  IsText bs = IsU64 (length bs) × (is_utf8 bs ≡ true)

  read_to_string-append :
      (bs rest : List ℕ)
      → is_utf8 bs ≡ true
      → read_to_string is_utf8 (length bs) (bs ++ rest) ≡ ok (bs, rest)
  unfolding read_to_string
  read_to_string-append bs rest h =
      rw (take-append (length bs) bs rest refl, drop-append (length bs) bs rest refl, h)
        (ground arith)

  -- A string of fewer than 2^64 bytes, which are UTF-8, is read back from its bytes, with and without
  -- its header.
  pub string_format-IsLawful : IsLawful (string_format is_utf8) IsText
  unfolding write_bytes read_string
  string_format-IsLawful = record {
    data_round_trip = λ bs rest (len, text). simp (
      append_assoc,
      read_packed-write_packed (length bs) (bs ++ rest) len,
      read_to_string-append bs rest text,
    );
    header_round_trip = λ bs rest.
        default_read_header-default_write_header unit_format tt bs rest unit_format-IsLawful tt;
  }
