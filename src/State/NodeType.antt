-- ===== src/State/NodeType.antt =====
-- crates/common/src/state/node_type.rs, with the mask bits of crates/common/src/set.rs.
use snarkops.Common.{
  ℕ, ◌≡◌, refl, Bool, true, false, List, [], ◌∷◌, ◌++◌, ◌==◌, ◌↔◌, arith, if◌then◌else◌, ok,
}
use snarkops.Format.{
  DataFormat, Reader, Output, ◌>>=◌, pure, fail, custom, unsupported_version, read_exact, write,
  default_write_header, default_read_header,
}
use snarkops.Format.Ints.{u8_format, read_uint, from_le_bytes}
use snarkops.Format.Ints.RoundTrip.{uint_format-IsLawful}
use snarkops.Format.Laws.{IsLawful, default_read_header-default_write_header}

pub data NodeType : Type 0 where
  client validator prover : NodeType

-- `PartialEq`
unfoldable pub type_eq : NodeType → NodeType → Bool
type_eq client client = true
type_eq validator validator = true
type_eq prover prover = true
type_eq _ _ = false

-- `MaskBit`: the positions before those of the labels.
pub data MaskBit : Type 0 where
  validator prover client compute local_private_key : MaskBit

abbrev pub mask_prefix_len : ℕ
mask_prefix_len = 5

unfoldable pub mask_bit : MaskBit → ℕ
mask_bit validator = 0
mask_bit prover = 1
mask_bit client = 2
mask_bit compute = 3
mask_bit local_private_key = 4

-- `NodeType::bit`
unfoldable pub bit : NodeType → ℕ
unfolding mask_bit
bit validator = mask_bit MaskBit.validator
bit prover = mask_bit MaskBit.prover
bit client = mask_bit MaskBit.client

unfoldable pub write_node_type : NodeType → Output
write_node_type client = write (0 ∷ [])
write_node_type validator = write (1 ∷ [])
write_node_type prover = write (2 ∷ [])

unfoldable pub node_type_of_tag : ℕ → Reader NodeType
node_type_of_tag n =
    if n == 0
    then pure client
    else if n == 1
    then pure validator
    else if n == 2
    then pure prover
    else fail (custom "invalid NodeType tag, expected 0, 1, or 2")

unfoldable pub read_node_type : ℕ → Reader NodeType
unfolding node_type_of_tag
read_node_type header =
    if header == 1
    then (do byte ← read_uint 1; node_type_of_tag byte)
    else fail (unsupported_version "NodeType" 1 header)

abbrev pub node_type_format : DataFormat ℕ NodeType
node_type_format = record {
  latest_header = 1;
  write_header = default_write_header u8_format 1;
  read_header = default_read_header u8_format;
  write_data = write_node_type;
  read_data = read_node_type;
}

pub type_eq_iff : (a b : NodeType) → (type_eq a b ≡ true) ↔ (a ≡ b)
unfolding type_eq
type_eq_iff a b = ground arith

read_node_type-write_node_type :
    (ty : NodeType) (rest : List ℕ)
    → read_node_type 1 ((write_node_type ty).bytes ++ rest) ≡ ok (ty, rest)
unfolding read_node_type write_node_type read_uint read_exact from_le_bytes
read_node_type-write_node_type client rest = refl
read_node_type-write_node_type validator rest = refl
read_node_type-write_node_type prover rest = refl

pub node_type_format-IsLawful : IsLawful node_type_format (λ _. Unit {0})
node_type_format-IsLawful = record {
  data_round_trip = λ ty rest _. read_node_type-write_node_type ty rest;
  header_round_trip = λ ty rest.
      default_read_header-default_write_header u8_format 1 ty rest (uint_format-IsLawful 1)
        (omega arith);
}
