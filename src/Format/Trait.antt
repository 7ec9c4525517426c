-- ===== src/Format/Trait.antt =====
-- crates/common/src/format/mod.rs: the `DataFormat` trait and its default methods.
use Prim.Native.String.{String}
use snarkops.Common.{ℕ, zero, suc, ◌+◌, List, [], ◌∷◌, ◌++◌, length, Result, ok, err, and_then}

-- `io` is an error of the reader (here: the input has ended), `custom` has the message without the
-- values that it shows, `unsupported_version` the name with the expected and the found version.
pub data DataReadError : Type 0 where
  io utf8 : DataReadError
  upgrade_unavailable : String → DataReadError
  unsupported_version : String → ℕ → ℕ → DataReadError
  custom : String → DataReadError

abbrev pub Reader {ℓ} : Type ℓ → Type ℓ
Reader A = List ℕ → Result DataReadError (A × List ℕ)

module _ {ℓ κ} {A : Type ℓ} {B : Type κ} where
  infixl 5 ◌>>=◌
  abbrev pub ◌>>=◌ : Reader A → (A → Reader B) → Reader B
  ◌>>=◌ m f input = and_then (m input) λ (a, rest). f a rest

abbrev pub pure {ℓ} : {A : Type ℓ} → A → Reader A
pure a input = ok (a, input)

abbrev pub fail {ℓ} : {A : Type ℓ} → DataReadError → Reader A
fail e input = err e

-- `reader.read_exact(&mut [0u8; n])`
unfoldable pub read_exact : ℕ → Reader (List ℕ)
read_exact zero input = ok ([], input)
read_exact (suc n) [] = err io
read_exact (suc n) (b ∷ input) = and_then (read_exact n input) λ (bs, rest). ok (b ∷ bs, rest)

-- What a write appends to the writer, and the count that it returns.
pub record Output : Type 0 where
  pub count : ℕ
  pub bytes : List ℕ

-- `writer.write(bytes)`
abbrev pub write : List ℕ → Output
write bs = record { count = length bs; bytes = bs }

-- `Ok(first? + second?)`
infixl 60 ◌⊕◌
abbrev pub ◌⊕◌ : Output → Output → Output
a ⊕ b = record { count = a.count + b.count; bytes = a.bytes ++ b.bytes }

pub record DataFormat (H A : Type 0) : Type 0 where
  pub latest_header : H
  pub write_header : A → Output
  pub read_header : Reader H
  pub write_data : A → Output
  pub read_data : H → Reader A

module _ {K H A : Type 0} (header_format : DataFormat K H) where
  -- The default `write_header` of a type with the given latest header.
  unfoldable pub default_write_header : H → A → Output
  default_write_header latest _ =
      header_format.write_header latest ⊕ header_format.write_data latest

module _ {K H : Type 0} (header_format : DataFormat K H) where
  -- The default `read_header`.
  unfoldable pub default_read_header : Reader H
  default_read_header = do
    header_header ← header_format.read_header
    header_format.read_data header_header

module _ {H A : Type 0} (F : DataFormat H A) where
  unfoldable pub write_dataformat : A → Output
  write_dataformat x = F.write_header x ⊕ F.write_data x

  unfoldable pub read_dataformat : Reader A
  read_dataformat = do header ← F.read_header; F.read_data header

  -- `to_byte_vec_headered`
  unfoldable pub to_byte_vec_headered : A → List ℕ
  to_byte_vec_headered x = (F.write_header x).bytes ++ (F.write_data x).bytes
