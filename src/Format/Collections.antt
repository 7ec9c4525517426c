-- ===== src/Format/Collections.antt =====
-- crates/common/src/format/impl_collections.rs, impl_containers.rs, impl_tuples.rs and
-- impl_strings.rs: vectors, arrays, byte vectors, options, pairs and strings.
-- `Box` and `Arc` write and read what they point to, so they have the format of their content.
pub mod RoundTrip
use snarkops.Common.{
  ℕ, zero, suc, Bool, List, [], ◌∷◌, ◌++◌, Option, none, some, ◌==◌, if◌then◌else◌, take, drop,
  length, ok, err,
}
use snarkops.Format.Trait.{
  DataFormat, Reader, Output, ◌>>=◌, ◌⊕◌, pure, fail, io, custom, read_exact, write,
  default_write_header, default_read_header,
}
use snarkops.Format.Ints.{unit_format, read_uint}
use snarkops.Format.Packed.{write_packed, read_packed}

module _ {H A : Type 0} (F : DataFormat H A) where
  -- `for item in self.iter() { written += writer.write_data(item)?; }`
  unfoldable pub write_items : List A → Output
  write_items [] = write []
  write_items (x ∷ xs) = F.write_data x ⊕ write_items xs

  -- `for _ in 0..len { data.push(reader.read_data(header)?); }`
  unfoldable pub read_items : H → ℕ → Reader (List A)
  read_items header zero = pure []
  read_items header (suc len) = do x ← F.read_data header; xs ← read_items header len; pure (x ∷ xs)

  unfoldable pub write_vec : List A → Output
  write_vec xs = write_packed (length xs) ⊕ write_items xs

  unfoldable pub read_vec : H → Reader (List A)
  read_vec header = do len ← read_packed; read_items header len

-- A container whose header is that of its items writes it by the default methods.
module _ {K H A : Type 0} (header_format : DataFormat K H) (F : DataFormat H A) where
  -- `Vec<T>`
  abbrev pub vec_format : DataFormat H (List A)
  vec_format = record {
    latest_header = F.latest_header;
    write_header = default_write_header header_format F.latest_header;
    read_header = default_read_header header_format;
    write_data = write_vec F;
    read_data = read_vec F;
  }

  -- `[T; N]`
  abbrev pub array_format : ℕ → DataFormat H (List A)
  array_format n = record {
    latest_header = F.latest_header;
    write_header = default_write_header header_format F.latest_header;
    read_header = default_read_header header_format;
    write_data = write_items F;
    read_data = λ header. read_items F header n;
  }

module _ {H A : Type 0} (F : DataFormat H A) where
  unfoldable pub write_option : Option A → Output
  write_option none = write (0 ∷ [])
  write_option (some x) = write (1 ∷ []) ⊕ F.write_data x

  unfoldable pub read_option : H → Reader (Option A)
  read_option header = do
    byte ← read_uint 1
    if byte == 0
        then pure none
        else if byte == 1
        then (do x ← F.read_data header; pure (some x))
        else fail (custom "invalid Option tag")

module _ {K H A : Type 0} (header_format : DataFormat K H) (F : DataFormat H A) where
  abbrev pub option_format : DataFormat H (Option A)
  option_format = record {
    latest_header = F.latest_header;
    write_header = default_write_header header_format F.latest_header;
    read_header = default_read_header header_format;
    write_data = write_option F;
    read_data = read_option F;
  }

-- `(A, B)`, which writes the headers of its parts one after the other.
module _ {H K A B : Type 0} (F : DataFormat H A) (G : DataFormat K B) where
  abbrev pub pair_format : DataFormat (H × K) (A × B)
  pair_format = record {
    latest_header = (F.latest_header, G.latest_header);
    write_header = λ (a, b). F.write_header a ⊕ G.write_header b;
    read_header = (do h ← F.read_header; k ← G.read_header; pure (h, k));
    write_data = λ (a, b). F.write_data a ⊕ G.write_data b;
    read_data = λ (h, k). (do a ← F.read_data h; b ← G.read_data k; pure (a, b));
  }

-- The number of the bytes, and the bytes.
unfoldable pub write_bytes : List ℕ → Output
write_bytes bytes = write_packed (length bytes) ⊕ write bytes

unfoldable pub read_bytes : Reader (List ℕ)
read_bytes = do len ← read_packed; read_exact len

-- `BytesFormat`
abbrev pub bytes_format : DataFormat Unit (List ℕ)
bytes_format = record {
  latest_header = tt;
  write_header = default_write_header unit_format tt;
  read_header = default_read_header unit_format;
  write_data = write_bytes;
  read_data = λ _. read_bytes;
}

-- A `String` is its bytes; `is_utf8` is the standard library's validation of them.
module _ (is_utf8 : List ℕ → Bool) where
  -- `reader.take(len as u64).read_to_string(&mut buf)?`, and the check of what it read.
  unfoldable pub read_to_string : ℕ → Reader (List ℕ)
  read_to_string len input =
      let buf = take len input in
      if is_utf8 buf
      then (if length buf == len
          then ok (buf, drop len input)
          else err (custom "string expected to read more bytes"))
      else err io

  unfoldable pub read_string : Reader (List ℕ)
  unfolding read_to_string
  read_string = do len ← read_packed; read_to_string len

  -- `String`, and `Spur` and the interned identifiers, which write and read their string.
  abbrev pub string_format : DataFormat Unit (List ℕ)
  string_format = record {
    latest_header = tt;
    write_header = default_write_header unit_format tt;
    read_header = default_read_header unit_format;
    write_data = write_bytes;
    read_data = λ _. read_string;
  }
