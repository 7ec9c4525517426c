-- ===== src/Controlplane/Persist/Storage.antt =====
-- crates/controlplane/src/persist/storage.rs: the format of the metadata of a storage.
use snarkops.Common.Dict.{Dict}
use snarkops.Common.Text.{Text, text_eq}
use snarkops.Checkpoint.Retention.{RetentionPolicy}
use snarkops.Checkpoint.Formats.{policy_format}
use snarkops.Checkpoint.Formats.RoundTrip.{policy_format-IsLawful, IsPolicy}
use snarkops.State.Binaries.{BinaryEntry, binary_entry_format, binary_entry_format-IsLawful}
use snarkops.State.NetworkId.{NetworkId, mainnet, network_format, network_format-IsLawful}
use snarkops.Format.Headers.{write_u8_pair, read_u8_pair, IsU8Pair, read_u8_pair-write_u8_pair}
use snarkops.Format.Ints.{read_uint, write_uint, u8_format, bool_format}
use snarkops.Format.Ints.RoundTrip.{
  IsUint, read_uint-write_uint, uint_format-IsLawful, bool_format-IsLawful,
}
use snarkops.Format.Collections.{string_format, option_format, pair_format, write_vec, read_vec}
use snarkops.Format.Collections.RoundTrip.{
  IsText, IsVec, OptionIsValid, string_format-IsLawful, option_format-IsLawful,
  pair_format-IsLawful, read_vec-write_vec,
}
use snarkops.Format.Maps.{write_map, read_map, IsIndexMap, read_map-write_map}
use snarkops.Format.Laws.{IsLawful, default_read_header-default_write_header}
use snarkops.Format.{
  DataFormat, Reader, Output, ◌>>=◌, ◌⊕◌, pure, fail, unsupported_version, default_write_header,
  default_read_header,
}
use snarkops.Common.{
  ℕ, refl, Bool, Option, List, [], ◌==◌, ◌||◌, leb, ltb, if◌then◌else◌, arith, and_then_ok,
  append_assoc,
}

pub record PersistStorage : Type 0 where
  pub id : Text
  pub network : NetworkId
  pub version : ℕ
  pub persist : Bool
  pub accounts : List Text
  pub retention_policy : Option RetentionPolicy
  pub native_genesis : Bool
  pub binaries : Dict Text BinaryEntry

pub record PersistStorageFormatHeader : Type 0 where
  pub version : ℕ
  pub policy_header : ℕ × ℕ
  pub network_header : ℕ
  pub binaries_header : ℕ

unfoldable pub write_storage_header : PersistStorageFormatHeader → Output
write_storage_header h =
    write_uint 1 h.version
    ⊕ write_u8_pair h.policy_header
    ⊕ write_uint 1 h.network_header
    ⊕ write_uint 1 h.binaries_header

-- A part of the header that the given version has; it is 0 in those before it.
unfoldable pub read_since : ℕ → ℕ → Reader ℕ
read_since first header = if leb first header then read_uint 1 else pure 0

unfoldable pub read_storage_header : ℕ → Reader PersistStorageFormatHeader
unfolding read_since
read_storage_header header =
    if ltb 3 header || ltb header 2
    then fail (unsupported_version "PersistStorageFormatHeader" 3 header)
    else (do
      version ← read_uint 1
      policy ← read_u8_pair
      network ← read_since 2 header
      binaries ← read_since 3 header
      pure (record {
        version = version;
        policy_header = policy;
        network_header = network;
        binaries_header = binaries;
      }))

abbrev pub storage_header_format : DataFormat ℕ PersistStorageFormatHeader
storage_header_format = record {
  latest_header = 3;
  write_header = default_write_header u8_format 3;
  read_header = default_read_header u8_format;
  write_data = write_storage_header;
  read_data = read_storage_header;
}

abbrev pub latest_storage_header : PersistStorageFormatHeader
latest_storage_header = record {
  version = 1;
  policy_header = (1, 1);
  network_header = 1;
  binaries_header = 1;
}

abbrev pub IsStorageHeader : PersistStorageFormatHeader → Type 0
IsStorageHeader h =
    IsUint 1 h.version
    × IsU8Pair h.policy_header
    × IsUint 1 h.network_header
    × IsUint 1 h.binaries_header

storage_header_format-IsLawful : IsLawful storage_header_format IsStorageHeader
unfolding write_storage_header read_storage_header read_since
storage_header_format-IsLawful = record {
  data_round_trip = λ h rest (version, policy, network, binaries). simp append_assoc (
      and_then_ok _ (read_uint-write_uint 1 h.version _ version) (
        and_then_ok _ (read_u8_pair-write_u8_pair h.policy_header _ policy) (
          and_then_ok _ (read_uint-write_uint 1 h.network_header _ network)
            (and_then_ok _ (read_uint-write_uint 1 h.binaries_header rest binaries) refl))));
  header_round_trip = λ h rest.
      default_read_header-default_write_header u8_format 3 h rest (uint_format-IsLawful 1)
        (omega arith);
}

abbrev optional_policy_format : DataFormat (ℕ × ℕ) (Option RetentionPolicy)
optional_policy_format = option_format (pair_format u8_format u8_format) policy_format

module _ (parse_url : Text → Option Text) (is_utf8 : List ℕ → Bool) where
  unfoldable pub write_storage : PersistStorage → Output
  write_storage s =
      let text = string_format is_utf8 in
      text.write_data s.id
      ⊕ network_format.write_data s.network
      ⊕ write_uint 2 s.version
      ⊕ bool_format.write_data s.persist
      ⊕ write_vec text s.accounts
      ⊕ optional_policy_format.write_data s.retention_policy
      ⊕ bool_format.write_data s.native_genesis
      ⊕ write_map text (binary_entry_format parse_url is_utf8) text_eq s.binaries

  -- What a header without the version of a part has not written is its default.
  unfoldable pub read_storage_network : ℕ → Reader NetworkId
  read_storage_network header =
      if ltb 0 header then network_format.read_data header else pure mainnet

  unfoldable pub read_storage_binaries : ℕ → Reader (Dict Text BinaryEntry)
  read_storage_binaries header =
      if ltb 0 header
      then read_map (string_format is_utf8) (binary_entry_format parse_url is_utf8) text_eq
          (tt, header)
      else pure []

  unfoldable pub read_storage : PersistStorageFormatHeader → Reader PersistStorage
  unfolding read_storage_network read_storage_binaries
  read_storage header =
      let text = string_format is_utf8 in
      if header.version == 0 || ltb 1 header.version
      then fail (unsupported_version "PersistStorage" 1 header.version)
      else (do
        id ← text.read_data tt
        network ← read_storage_network header.network_header
        version ← read_uint 2
        persist ← bool_format.read_data tt
        accounts ← read_vec text tt
        retention_policy ← optional_policy_format.read_data header.policy_header
        native_genesis ← bool_format.read_data tt
        binaries ← read_storage_binaries header.binaries_header
        pure (record {
          id = id;
          network = network;
          version = version;
          persist = persist;
          accounts = accounts;
          retention_policy = retention_policy;
          native_genesis = native_genesis;
          binaries = binaries;
        }))

  abbrev pub storage_format : DataFormat PersistStorageFormatHeader PersistStorage
  storage_format = record {
    latest_header = latest_storage_header;
    write_header = default_write_header storage_header_format latest_storage_header;
    read_header = default_read_header storage_header_format;
    write_data = write_storage;
    read_data = read_storage;
  }

  abbrev pub IsBinaries : Dict Text BinaryEntry → Type 0
  IsBinaries binaries =
      IsIndexMap (string_format is_utf8) (binary_entry_format parse_url is_utf8) text_eq
        (string_format-IsLawful is_utf8) (binary_entry_format-IsLawful parse_url is_utf8) binaries

  pub record IsStorage (s : PersistStorage) : Type 0 where
    pub id_valid : IsText is_utf8 s.id
    pub version_fits : IsUint 2 s.version
    pub accounts_valid : IsVec (IsText is_utf8) s.accounts
    pub policy_valid : OptionIsValid IsPolicy s.retention_policy
    pub binaries_valid : IsBinaries s.binaries

  -- The metadata of a storage, with a u16 as its version, texts in UTF-8, binaries whose sources are
  -- read again from their texts and no binary twice, is read back from its bytes, with and without its
  -- header.
  pub storage_format-IsLawful : IsLawful storage_format IsStorage
  unfolding write_storage read_storage read_storage_network read_storage_binaries
  storage_format-IsLawful =
      let text = string_format-IsLawful is_utf8 in
      let policy =
        option_format-IsLawful (pair_format u8_format u8_format) policy_format
          (pair_format-IsLawful u8_format u8_format (uint_format-IsLawful 1)
            (uint_format-IsLawful 1))
          (omega arith, omega arith) policy_format-IsLawful in
      let binaries =
        read_map-write_map (string_format is_utf8) (binary_entry_format parse_url is_utf8) text_eq
          text (binary_entry_format-IsLawful parse_url is_utf8) in
      record {
        data_round_trip = λ s rest v. simp append_assoc (
            and_then_ok _ (text.data_round_trip s.id _ v.id_valid) (
              and_then_ok _ (network_format-IsLawful.data_round_trip s.network _ tt) (
                and_then_ok _ (read_uint-write_uint 2 s.version _ v.version_fits) (
                  and_then_ok _ (bool_format-IsLawful.data_round_trip s.persist _ tt) (
                    and_then_ok _
                      (read_vec-write_vec (string_format is_utf8) text s.accounts _
                        v.accounts_valid)
                      (and_then_ok _ (policy.data_round_trip s.retention_policy _ v.policy_valid) (
                        and_then_ok _ (bool_format-IsLawful.data_round_trip s.native_genesis _ tt)
                          (and_then_ok _ (binaries s.binaries rest v.binaries_valid) refl))))))));
        header_round_trip = λ s rest.
            default_read_header-default_write_header storage_header_format latest_storage_header s
              rest storage_header_format-IsLawful
              (omega arith, (omega arith, omega arith), omega arith, omega arith);
      }
