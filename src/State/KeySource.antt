-- ===== src/State/KeySource.antt =====
-- crates/common/src/key_source.rs: where the private key of a node comes from, as text and as bytes.
-- A text is its bytes; what the regular expressions of the file accept is written out.
pub mod RoundTrip
use snarkops.Common.Decimal.{decimal, is_digit, parse_usize}
use snarkops.Common.Text.{Text, codes, text_eq, all, starts_with, strip_prefix, rsplit_once}
use snarkops.State.InternedId.{is_alphanumeric, is_match}
use snarkops.State.NodeKey.{is_empty}
use snarkops.Format.Ints.{read_uint, write_uint, u8_format}
use snarkops.Format.Packed.{write_packed, read_packed}
use snarkops.Format.Collections.{string_format}
use snarkops.Common.{
  ℕ, Bool, true, false, not, ◌&&◌, ◌||◌, Option, none, some, List, [], ◌∷◌, ◌++◌, ◌==◌, leb,
  if◌then◌else◌, length, Result, ok, err,
}
use snarkops.Format.{
  DataFormat, Reader, Output, ◌>>=◌, ◌⊕◌, pure, fail, custom, unsupported_version,
  default_write_header, default_read_header,
}

pub data KeySource : Type 0 where
  local : KeySource
  private_key_literal public_key_literal program_literal : Text → KeySource
  committee : Option ℕ → KeySource
  named : Text → Option ℕ → KeySource

pub data KeySourceError : Type 0 where
  invalid_key_source invalid_committee_index : KeySourceError

-- `KeySource::with_index`
unfoldable pub with_index : KeySource → ℕ → KeySource
with_index (committee none) i = committee (some i)
with_index (named name none) i = named name (some i)
with_index (committee (some j)) i = committee (some j)
with_index (named name (some j)) i = named name (some j)
with_index local i = local
with_index (private_key_literal key) i = private_key_literal key
with_index (public_key_literal key) i = public_key_literal key
with_index (program_literal key) i = program_literal key

abbrev pub is_private_key : Text → Bool
is_private_key s = length s == 59 && starts_with (codes "APrivateKey1") s

abbrev pub is_public_key : Text → Bool
is_public_key s = length s == 63 && starts_with (codes "aleo1") s

-- `[A-Za-z0-9_]`
unfoldable pub is_program_char : ℕ → Bool
unfolding is_alphanumeric
is_program_char c = is_alphanumeric c || c == b'_'

-- NAMED_PROGRAM_REGEX, `^[A-Za-z0-9_]{1,256}\.aleo$`
unfoldable pub is_program : Text → Bool
unfolding is_program_char is_empty
is_program s = elim (rsplit_once b'.' s) [
  | none ↦ false
  | some (name, ending) ↦
      all is_program_char name
      && (not (is_empty name) && (leb (length name) 256 && text_eq ending (codes "aleo")))
]

-- The index behind the last dot: `$`, or digits.
unfoldable pub parse_index : Text → Result KeySourceError (Option ℕ)
parse_index s =
    if text_eq s (codes "$")
    then ok none
    else elim (parse_usize s) [ none ↦ err invalid_committee_index | some i ↦ ok (some i) ]

-- The groups of NAMED_KEYSOURCE_REGEX, `^(?P<name>[A-Za-z0-9][A-Za-z0-9\-_.]{0,63})\.(?P<idx>\d+|\$)$`,
-- where the name is as INTERNED_ID_REGEX wants it.
unfoldable pub named_groups : Text → Option (Text × Text)
unfolding is_match is_empty
named_groups s = elim (rsplit_once b'.' s) [
  | none ↦ none
  | some (name, idx) ↦
      if is_match name && (text_eq idx (codes "$") || all is_digit idx && not (is_empty idx))
      then some (name, idx)
      else none
]

unfoldable pub parse_named : Text → Result KeySourceError KeySource
unfolding named_groups parse_index
parse_named s = elim (named_groups s) [
  | none ↦ err invalid_key_source
  | some (name, idx) ↦ elim (parse_index idx) [ err e ↦ err e | ok i ↦ ok (named name i) ]
]

unfoldable pub parse_committee : Text → Result KeySourceError KeySource
unfolding parse_index
parse_committee index = elim (parse_index index) [ err e ↦ err e | ok i ↦ ok (committee i) ]

-- `KeySource::from_str`
unfoldable pub key_source_from_str : Text → Result KeySourceError KeySource
unfolding is_program parse_named parse_committee
key_source_from_str s =
    if text_eq s (codes "local")
    then ok local
    else if is_private_key s
    then ok (private_key_literal s)
    else if is_public_key s
    then ok (public_key_literal s)
    else elim (strip_prefix (codes "committee.") s) [
      | some index ↦ parse_committee index
      | none ↦ if is_program s then ok (program_literal s) else parse_named s
    ]

unfoldable pub index_text : Option ℕ → Text
index_text none = codes "$"
index_text (some i) = decimal i

-- `Display`
unfoldable pub key_source_text : KeySource → Text
unfolding index_text
key_source_text local = codes "local"
key_source_text (private_key_literal key) = key
key_source_text (public_key_literal key) = key
key_source_text (program_literal key) = key
key_source_text (committee i) = codes "committee." ++ index_text i
key_source_text (named name i) = name ++ (b'.' ∷ index_text i)

module _ (is_utf8 : List ℕ → Bool) where
  unfoldable pub write_key_source : KeySource → Output
  write_key_source source =
      let text = string_format is_utf8 in
      elim source [
        | local ↦ write_uint 1 0
        | private_key_literal key ↦ write_uint 1 1 ⊕ text.write_data key
        | committee none ↦ write_uint 1 2
        | committee (some i) ↦ write_uint 1 3 ⊕ write_packed i
        | named name none ↦ write_uint 1 4 ⊕ text.write_data name
        | named name (some i) ↦ write_uint 1 5 ⊕ text.write_data name ⊕ write_packed i
        | public_key_literal key ↦ write_uint 1 6 ⊕ text.write_data key
        | program_literal key ↦ write_uint 1 7 ⊕ text.write_data key
      ]

  unfoldable pub key_source_of_tag : ℕ → Reader KeySource
  key_source_of_tag n =
      let text = string_format is_utf8 in
      if n == 0
      then pure local
      else if n == 1
      then (do key ← text.read_data tt; pure (private_key_literal key))
      else if n == 2
      then pure (committee none)
      else if n == 3
      then (do i ← read_packed; pure (committee (some i)))
      else if n == 4
      then (do name ← text.read_data tt; pure (named name none))
      else if n == 5
      then (do name ← text.read_data tt; i ← read_packed; pure (named name (some i)))
      else if n == 6
      then (do key ← text.read_data tt; pure (public_key_literal key))
      else if n == 7
      then (do key ← text.read_data tt; pure (program_literal key))
      else fail (custom "invalid KeySource tag")

  unfoldable pub read_key_source : ℕ → Reader KeySource
  unfolding key_source_of_tag
  read_key_source header =
      if header == 1
      then (do n ← read_uint 1; key_source_of_tag n)
      else fail (unsupported_version "KeySource" 1 header)

  abbrev pub key_source_format : DataFormat ℕ KeySource
  key_source_format = record {
    latest_header = 1;
    write_header = default_write_header u8_format 1;
    read_header = default_read_header u8_format;
    write_data = write_key_source;
    read_data = read_key_source;
  }
