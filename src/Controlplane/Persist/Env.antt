-- ===== src/Controlplane/Persist/Env.antt =====
-- crates/controlplane/src/persist/env.rs: the format of an environment in the database.
use snarkops.Common.Text.{Text}
use snarkops.Controlplane.Persist.Node.{
  PersistNode, PersistNodeFormatHeader, persist_node_header_format, latest_persist_node_header,
  persist_node_format, IsPersistNodeHeader, IsPersistNode, persist_node_header_format-IsLawful,
  persist_node_format-IsLawful,
}
use snarkops.Controlplane.Persist.Cannons.{
  TxSource, TxSink, TargetsHeader, source_header_format, sink_header_format, latest_source_header,
  latest_sink_header, source_format, sink_format,
}
use snarkops.Controlplane.Persist.Cannons.RoundTrip.{
  IsTargetsHeader, IsSource, IsSink, source_header_format-IsLawful, sink_header_format-IsLawful,
  source_format-IsLawful, sink_format-IsLawful,
}
use snarkops.State.NetworkId.{NetworkId, mainnet, network_format, network_format-IsLawful}
use snarkops.State.NodeKey.{NodeKey, node_key_format}
use snarkops.State.NodeKey.RoundTrip.{IsKeyText, node_key_format-IsLawful}
use snarkops.State.NodeTarget.{WildMatch}
use snarkops.Format.Ints.{read_uint, write_uint, u8_format}
use snarkops.Format.Ints.RoundTrip.{IsUint, read_uint-write_uint, uint_format-IsLawful}
use snarkops.Format.Collections.{string_format, pair_format, write_vec, read_vec}
use snarkops.Format.Collections.RoundTrip.{
  IsText, IsVec, string_format-IsLawful, pair_format-IsLawful, read_vec-write_vec,
}
use snarkops.Format.Laws.{
  IsLawful, default_read_header-default_write_header, read_dataformat-write_dataformat,
}
use snarkops.Format.{
  DataFormat, Reader, Output, ◌>>=◌, ◌⊕◌, pure, fail, unsupported_version, default_write_header,
  default_read_header, write_dataformat, read_dataformat,
}
use snarkops.Common.{
  ℕ, refl, Bool, List, ◌++◌, ◌==◌, ◌||◌, not, ltb, if◌then◌else◌, arith, and_then_ok, append_assoc,
}

pub record PersistEnvFormatHeader : Type 0 where
  pub version : ℕ
  pub nodes_header : PersistNodeFormatHeader
  pub source_header : TargetsHeader
  pub sink_header : TargetsHeader
  pub network_header : ℕ

unfoldable pub write_persist_env_header : PersistEnvFormatHeader → Output
write_persist_env_header h =
    write_uint 1 h.version
    ⊕ write_dataformat persist_node_header_format h.nodes_header
    ⊕ write_dataformat source_header_format h.source_header
    ⊕ write_dataformat sink_header_format h.sink_header
    ⊕ write_uint 1 h.network_header

-- Version 1 had no network.
unfoldable pub read_network_header : ℕ → Reader ℕ
read_network_header header = if ltb 1 header then read_uint 1 else pure 0

unfoldable pub read_persist_env_header : ℕ → Reader PersistEnvFormatHeader
unfolding read_network_header
read_persist_env_header header =
    if ltb 2 header || ltb header 1
    then fail (unsupported_version "PersistEnvHeader" 2 header)
    else (do
      version ← read_uint 1
      nodes ← read_dataformat persist_node_header_format
      tx_source ← read_dataformat source_header_format
      tx_sink ← read_dataformat sink_header_format
      network ← read_network_header header
      pure (record {
        version = version;
        nodes_header = nodes;
        source_header = tx_source;
        sink_header = tx_sink;
        network_header = network;
      }))

abbrev pub persist_env_header_format : DataFormat ℕ PersistEnvFormatHeader
persist_env_header_format = record {
  latest_header = 2;
  write_header = default_write_header u8_format 2;
  read_header = default_read_header u8_format;
  write_data = write_persist_env_header;
  read_data = read_persist_env_header;
}

abbrev pub latest_persist_env_header : PersistEnvFormatHeader
latest_persist_env_header = record {
  version = 1;
  nodes_header = latest_persist_node_header;
  source_header = latest_source_header;
  sink_header = latest_sink_header;
  network_header = 1;
}

abbrev pub IsPersistEnvHeader : PersistEnvFormatHeader → Type 0
IsPersistEnvHeader h =
    IsUint 1 h.version
    × IsPersistNodeHeader h.nodes_header
    × IsTargetsHeader h.source_header
    × IsTargetsHeader h.sink_header
    × IsUint 1 h.network_header

pub record PersistEnv (P : Type 0) : Type 0 where
  pub id : Text
  pub storage_id : Text
  pub network : NetworkId
  pub nodes : List (NodeKey × PersistNode P)
  pub cannons : List (Text × (TxSource P × TxSink P))

persist_env_header_format-IsLawful : IsLawful persist_env_header_format IsPersistEnvHeader
unfolding write_persist_env_header read_persist_env_header read_network_header
persist_env_header_format-IsLawful = record {
  data_round_trip = λ h rest (version, nodes, source, sink, network).
      let network_bytes = (write_uint 1 h.network_header).bytes ++ rest in
      let sink_bytes = (write_dataformat sink_header_format h.sink_header).bytes ++ network_bytes in
      let source_bytes =
        (write_dataformat source_header_format h.source_header).bytes ++ sink_bytes in
      simp append_assoc (
        and_then_ok _ (read_uint-write_uint 1 h.version _ version) (
          and_then_ok _
            (read_dataformat-write_dataformat persist_node_header_format h.nodes_header source_bytes
              persist_node_header_format-IsLawful nodes)
            (and_then_ok _
              (read_dataformat-write_dataformat source_header_format h.source_header sink_bytes
                source_header_format-IsLawful source)
              (and_then_ok _
                (read_dataformat-write_dataformat sink_header_format h.sink_header network_bytes
                  sink_header_format-IsLawful sink)
                (and_then_ok _ (read_uint-write_uint 1 h.network_header rest network) refl)))));
  header_round_trip = λ h rest.
      default_read_header-default_write_header u8_format 2 h rest (uint_format-IsLawful 1)
        (omega arith);
}

module _ {P : Type 0} (W : WildMatch P) (is_utf8 : List ℕ → Bool) where
  abbrev pub node_entry_format :
      DataFormat ((ℕ × ℕ) × PersistNodeFormatHeader) (NodeKey × PersistNode P)
  node_entry_format = pair_format (node_key_format is_utf8) (persist_node_format W is_utf8)

  -- A triple is written like a pair with a pair.
  abbrev pub cannon_format :
      DataFormat (Unit {0} × (TargetsHeader × TargetsHeader)) (Text × (TxSource P × TxSink P))
  cannon_format =
      pair_format (string_format is_utf8)
        (pair_format (source_format W is_utf8) (sink_format W is_utf8))

  unfoldable pub write_persist_env : PersistEnv P → Output
  write_persist_env env =
      (string_format is_utf8).write_data env.id
      ⊕ (string_format is_utf8).write_data env.storage_id
      ⊕ write_vec node_entry_format env.nodes
      ⊕ write_vec cannon_format env.cannons
      ⊕ network_format.write_data env.network

  unfoldable pub read_env_network : ℕ → Reader NetworkId
  read_env_network header = if ltb 0 header then network_format.read_data header else pure mainnet

  -- The keys of the nodes are read with the header of the node targets of the sources.
  unfoldable pub read_persist_env : PersistEnvFormatHeader → Reader (PersistEnv P)
  unfolding read_env_network
  read_persist_env header =
      if not (header.version == 1)
      then fail (unsupported_version "PersistEnv" 1 header.version)
      else (do
        id ← (string_format is_utf8).read_data tt
        storage_id ← (string_format is_utf8).read_data tt
        nodes ← read_vec node_entry_format (header.source_header.node_targets, header.nodes_header)
        cannons ← read_vec cannon_format (tt, (header.source_header, header.sink_header))
        network ← read_env_network header.network_header
        pure (record {
          id = id;
          storage_id = storage_id;
          network = network;
          nodes = nodes;
          cannons = cannons;
        }))

  abbrev pub persist_env_format : DataFormat PersistEnvFormatHeader (PersistEnv P)
  persist_env_format = record {
    latest_header = latest_persist_env_header;
    write_header = default_write_header persist_env_header_format latest_persist_env_header;
    read_header = default_read_header persist_env_header_format;
    write_data = write_persist_env;
    read_data = read_persist_env;
  }

  pub record IsPersistEnv (env : PersistEnv P) : Type 0 where
    pub id_valid : IsText is_utf8 env.id
    pub storage_valid : IsText is_utf8 env.storage_id
    pub nodes_valid : IsVec (λ e. IsKeyText is_utf8 e.0 × IsPersistNode W is_utf8 e.1) env.nodes
    pub cannons_valid :
        IsVec
          (λ c. IsText is_utf8 c.0 × (IsSource W is_utf8 c.1.0 × IsSink W is_utf8 c.1.1))
          env.cannons

  -- An environment with its nodes and cannons, with numbers in their widths, texts in UTF-8, neither a
  -- label nor an environment variable of a node twice, targets that are `Many` only with two or more
  -- of them, patterns of targets that are compiled again from their texts, and external nodes whose
  -- IPv6 addresses have neither flow info nor a scope, is read back from its bytes, with and without
  -- its header.
  pub persist_env_format-IsLawful : IsLawful persist_env_format IsPersistEnv
  unfolding write_persist_env read_persist_env read_env_network
  persist_env_format-IsLawful =
      let text = string_format-IsLawful is_utf8 in
      let node =
        pair_format-IsLawful (node_key_format is_utf8) (persist_node_format W is_utf8)
          (node_key_format-IsLawful is_utf8) (persist_node_format-IsLawful W is_utf8) in
      let cannon =
        pair_format-IsLawful (string_format is_utf8)
          (pair_format (source_format W is_utf8) (sink_format W is_utf8)) text
          (pair_format-IsLawful (source_format W is_utf8) (sink_format W is_utf8)
            (source_format-IsLawful W is_utf8) (sink_format-IsLawful W is_utf8)) in
      record {
        data_round_trip = λ env rest v. simp append_assoc (
            and_then_ok _ (text.data_round_trip env.id _ v.id_valid) (
              and_then_ok _ (text.data_round_trip env.storage_id _ v.storage_valid) (
                and_then_ok _ (read_vec-write_vec node_entry_format node env.nodes _ v.nodes_valid)
                  (and_then_ok _
                    (read_vec-write_vec cannon_format cannon env.cannons _ v.cannons_valid)
                    (and_then_ok _ (network_format-IsLawful.data_round_trip env.network rest tt)
                      refl)))));
        header_round_trip = λ env rest.
            default_read_header-default_write_header persist_env_header_format
              latest_persist_env_header env rest persist_env_header_format-IsLawful
              (
                omega arith,
                (
                  (omega arith, (omega arith, omega arith), (omega arith, omega arith), refl),
                  omega arith,
                ),
                (omega arith, (omega arith, omega arith)),
                (omega arith, (omega arith, omega arith)),
                omega arith,
              );
      }
