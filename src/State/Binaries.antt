-- ===== src/State/Binaries.antt =====
-- crates/common/src/binaries.rs: where the binary of a node is, and its format. The `url` crate,
-- which is not part of the repository, is a parameter: `parse_url` gives a url as its text.
use snarkops.Common.{
  ℕ, ◌≡◌, refl, Bool, true, false, Option, none, some, List, ◌++◌, ◌==◌, ◌&&◌, ◌||◌, leb,
  if◌then◌else◌, ok, arith, and_then_ok, append_assoc, length,
}
use snarkops.Common.Text.{Text, codes, text_eq, all, starts_with}
use snarkops.State.NetworkId.{NetworkId, network_text}
use snarkops.Format.Ints.{u8_format, unit_format, uint_format}
use snarkops.Format.Ints.RoundTrip.{IsUint, uint_format-IsLawful, unit_format-IsLawful}
use snarkops.Format.Collections.{string_format, option_format}
use snarkops.Format.Collections.RoundTrip.{
  IsText, OptionIsValid, string_format-IsLawful, option_format-IsLawful,
}
use snarkops.Format.Laws.{IsLawful, default_read_header-default_write_header}
use snarkops.Format.{
  DataFormat, Reader, Output, ◌>>=◌, ◌⊕◌, pure, fail, custom, unsupported_version,
  default_write_header, default_read_header,
}

-- A url is its text.
pub data BinarySource : Type 0 where
  url path : Text → BinarySource

pub record BinaryEntry : Type 0 where
  pub source : BinarySource
  pub sha256 : Option Text
  pub size : Option ℕ

-- The derived equalities.
unfoldable pub source_eq : BinarySource → BinarySource → Bool
source_eq (url a) (url b) = text_eq a b
source_eq (path a) (path b) = text_eq a b
source_eq _ _ = false

abbrev size_eq : Option ℕ → Option ℕ → Bool
size_eq none none = true
size_eq (some a) (some b) = a == b
size_eq _ _ = false

abbrev sha256_eq : Option Text → Option Text → Bool
sha256_eq none none = true
sha256_eq (some a) (some b) = text_eq a b
sha256_eq _ _ = false

unfoldable pub entry_eq : BinaryEntry → BinaryEntry → Bool
unfolding source_eq
entry_eq a b = source_eq a.source b.source && (sha256_eq a.sha256 b.sha256 && size_eq a.size b.size)

-- `BinaryEntry::with_api_path`
unfoldable pub with_api_path : BinaryEntry → NetworkId → Text → Text → BinaryEntry
unfolding network_text
with_api_path entry network storage_id binary_id = elim entry.source [
  | url u ↦ entry
  | path p ↦ record entry {
    source = path (
        codes "/content/storage/"
        ++ network_text network
        ++ codes "/"
        ++ storage_id
        ++ codes "/binaries/"
        ++ binary_id);
  }
]

-- `BinaryEntry::is_api_file`
unfoldable pub is_api_file : BinaryEntry → Bool
is_api_file entry = elim entry.source [ url u ↦ false | path p ↦ true ]

unfoldable pub is_ascii_hexdigit : ℕ → Bool
is_ascii_hexdigit c =
    leb b'0' c && leb c b'9' || (leb b'a' c && leb c b'f' || leb b'A' c && leb c b'F')

-- `BinaryEntry::check_sha256`
unfoldable pub check_sha256 : BinaryEntry → Bool
unfolding is_ascii_hexdigit
check_sha256 entry = elim entry.sha256 [
  | none ↦ false
  | some s ↦ length s == 32 && all is_ascii_hexdigit s
]

-- `Display`
unfoldable pub source_text : BinarySource → Text
source_text (url u) = u
source_text (path p) = p

abbrev pub is_http : Text → Bool
is_http s = starts_with (codes "http://") s || starts_with (codes "https://") s

module _ (parse_url : Text → Option Text) where
  -- `BinarySource::from_str`; the error of the parser of urls is `none`.
  unfoldable pub parse_source : Text → Option BinarySource
  parse_source s =
      if is_http s
      then elim (parse_url s) [ none ↦ none | some u ↦ some (url u) ]
      else some (path s)

  -- A url that is read again from its text, or a path whose text does not begin like a url.
  abbrev pub IsSource : BinarySource → Type 0
  IsSource (url u) = (is_http u ≡ true) × (parse_url u ≡ some u)
  IsSource (path p) = is_http p ≡ false

  pub parse_source-source_text :
      (s : BinarySource) → IsSource s → parse_source (source_text s) ≡ some s
  unfolding parse_source source_text
  parse_source-source_text (url u) (h, k) = rw (h, k)
  parse_source-source_text (path p) h = rw h

  -- `.parse::<BinarySource>().map_err(..)?`
  unfoldable pub source_of_text : Text → Reader BinarySource
  unfolding parse_source
  source_of_text s = elim (parse_source s) [
    | none ↦ fail (custom "invalid url")
    | some source ↦ pure source
  ]

  module _ (is_utf8 : List ℕ → Bool) where
    abbrev pub optional_text_format : DataFormat Unit (Option Text)
    optional_text_format = option_format unit_format (string_format is_utf8)

    abbrev pub optional_u64_format : DataFormat Unit (Option ℕ)
    optional_u64_format = option_format unit_format (uint_format 8)

    unfoldable pub write_binary_entry : BinaryEntry → Output
    unfolding source_text
    write_binary_entry entry =
        (string_format is_utf8).write_data (source_text entry.source)
        ⊕ optional_text_format.write_data entry.sha256
        ⊕ optional_u64_format.write_data entry.size

    unfoldable pub read_binary_entry : ℕ → Reader BinaryEntry
    unfolding source_of_text
    read_binary_entry header =
        if header == 1
        then (do
          text ← (string_format is_utf8).read_data tt
          source ← source_of_text text
          sha256 ← optional_text_format.read_data tt
          size ← optional_u64_format.read_data tt
          pure (record { source = source; sha256 = sha256; size = size }))
        else fail (unsupported_version "BinaryEntry" 1 header)

    abbrev pub binary_entry_format : DataFormat ℕ BinaryEntry
    binary_entry_format = record {
      latest_header = 1;
      write_header = default_write_header u8_format 1;
      read_header = default_read_header u8_format;
      write_data = write_binary_entry;
      read_data = read_binary_entry;
    }

    pub record IsBinaryEntry (entry : BinaryEntry) : Type 0 where
      pub source_valid : IsSource entry.source
      pub source_is_text : IsText is_utf8 (source_text entry.source)
      pub sha256_valid : OptionIsValid (IsText is_utf8) entry.sha256
      pub size_fits : OptionIsValid (IsUint 8) entry.size

    source_of_text-source_text :
        (s : BinarySource) (rest : List ℕ)
        → IsSource s
        → source_of_text (source_text s) rest ≡ ok (s, rest)
    unfolding source_of_text
    source_of_text-source_text s rest h = rw (parse_source-source_text s h, source_of_text)

    -- The entry of a binary whose source is read again from its text, with texts in UTF-8 and a size
    -- that is a u64, is read back from its bytes, with and without its header.
    pub binary_entry_format-IsLawful : IsLawful binary_entry_format IsBinaryEntry
    unfolding write_binary_entry read_binary_entry
    binary_entry_format-IsLawful =
        let text = string_format-IsLawful is_utf8 in
        let optional_text =
          option_format-IsLawful unit_format (string_format is_utf8) unit_format-IsLawful tt text in
        let optional_u64 =
          option_format-IsLawful unit_format (uint_format 8) unit_format-IsLawful tt
            (uint_format-IsLawful 8) in
        record {
          data_round_trip = λ entry rest v. simp append_assoc (
              and_then_ok _ (text.data_round_trip (source_text entry.source) _ v.source_is_text) (
                and_then_ok _ (source_of_text-source_text entry.source _ v.source_valid) (
                  and_then_ok _ (optional_text.data_round_trip entry.sha256 _ v.sha256_valid) (
                    and_then_ok _ (optional_u64.data_round_trip entry.size rest v.size_fits)
                      refl))));
          header_round_trip = λ entry rest.
              default_read_header-default_write_header u8_format 1 entry rest
                (uint_format-IsLawful 1) (omega arith);
        }
