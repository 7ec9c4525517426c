-- ===== src/Controlplane/Persist/Cannons.antt =====
-- crates/controlplane/src/persist/source.rs and sink.rs: the formats of what a cannon fires with and
-- to, which are declared in crates/controlplane/src/cannon/source.rs and sink.rs.
pub mod RoundTrip
use snarkops.Common.Text.{Text}
use snarkops.State.NodeTarget.{WildMatch, NodeTargets}
use snarkops.State.NodeTarget.Formats.{targets_format}
use snarkops.Format.Headers.{write_u8_pair, read_u8_pair, read_u8_pair_header}
use snarkops.Format.Ints.{read_uint, write_uint, u8_format, unit_format, uint_format}
use snarkops.Format.Collections.{string_format, option_format, pair_format, vec_format}
use snarkops.Common.{ℕ, Bool, true, false, Option, none, some, List, [], ◌∷◌, ◌==◌, if◌then◌else◌}
use snarkops.Format.{
  DataFormat, Reader, Output, ◌>>=◌, ◌⊕◌, pure, fail, custom, unsupported_version,
  default_write_header, default_read_header, write_dataformat, read_dataformat,
}

-- `local_query` has the `sync_from` of its `LocalService`.
pub data QueryTarget (P : Type 0) : Type 0 where
  node_query : NodeTargets P → QueryTarget P
  local_query : Option (NodeTargets P) → QueryTarget P

pub data ComputeTarget : Type 0 where
  agent_compute : Option (List Text) → ComputeTarget
  demox : Text → ComputeTarget

pub record TxSource (P : Type 0) : Type 0 where
  pub query : QueryTarget P
  pub compute : ComputeTarget

pub record TxSink (P : Type 0) : Type 0 where
  pub file_name : Option Text
  pub target : Option (NodeTargets P)
  pub broadcast_attempts : Option ℕ
  pub broadcast_timeout : ℕ
  pub authorize_attempts : Option ℕ
  pub authorize_timeout : ℕ

-- `TxSink::default_retry_timeout`
abbrev pub default_retry_timeout : ℕ
default_retry_timeout = 60

-- `TxSourceFormatHeader`, and `TxSinkFormatHeader`, which has the same fields.
pub record TargetsHeader : Type 0 where
  pub version : ℕ
  pub node_targets : ℕ × ℕ

unfoldable pub write_source_header : TargetsHeader → Output
write_source_header h = write_uint 1 h.version ⊕ write_u8_pair h.node_targets

unfoldable pub read_source_header : ℕ → Reader TargetsHeader
read_source_header header =
    if header == 1
    then (do
      version ← read_uint 1
      node_targets ← read_u8_pair
      pure (record { version = version; node_targets = node_targets }))
    else fail (unsupported_version "LocalServiceFormatHeader" 1 header)

abbrev pub source_header_format : DataFormat ℕ TargetsHeader
source_header_format = record {
  latest_header = 1;
  write_header = default_write_header u8_format 1;
  read_header = default_read_header u8_format;
  write_data = write_source_header;
  read_data = read_source_header;
}

-- The header of node targets is written with its own, which is empty.
unfoldable pub write_sink_header : TargetsHeader → Output
write_sink_header h =
    write_uint 1 h.version ⊕ write_dataformat (pair_format u8_format u8_format) h.node_targets

unfoldable pub read_sink_header : ℕ → Reader TargetsHeader
read_sink_header header =
    if header == 1
    then (do
      version ← read_uint 1
      node_targets ← read_dataformat (pair_format u8_format u8_format)
      pure (record { version = version; node_targets = node_targets }))
    else fail (unsupported_version "TxSinkFormatHeader" 1 header)

abbrev pub sink_header_format : DataFormat ℕ TargetsHeader
sink_header_format = record {
  latest_header = 1;
  write_header = default_write_header u8_format 1;
  read_header = default_read_header u8_format;
  write_data = write_sink_header;
  read_data = read_sink_header;
}

abbrev pub latest_source_header : TargetsHeader
latest_source_header = record { version = 1; node_targets = (1, 1) }

abbrev pub latest_sink_header : TargetsHeader
latest_sink_header = record { version = 2; node_targets = (1, 1) }

module _ {P : Type 0} (W : WildMatch P) (is_utf8 : List ℕ → Bool) where
  abbrev pub optional_targets_format : DataFormat (ℕ × ℕ) (Option (NodeTargets P))
  optional_targets_format =
      option_format (pair_format u8_format u8_format) (targets_format W is_utf8)

  abbrev pub labels_format : DataFormat Unit (List Text)
  labels_format = vec_format unit_format (string_format is_utf8)

  abbrev pub optional_labels_format : DataFormat Unit (Option (List Text))
  optional_labels_format = option_format unit_format labels_format

  unfoldable pub write_query : QueryTarget P → Output
  write_query (local_query sync_from) =
      write_uint 1 0 ⊕ optional_targets_format.write_data sync_from
  write_query (node_query targets) = write_uint 1 1 ⊕ (targets_format W is_utf8).write_data targets

  unfoldable pub query_of_tag : ℕ × ℕ → ℕ → Reader (QueryTarget P)
  query_of_tag node_targets n =
      if n == 0
      then (do
        sync_from ← optional_targets_format.read_data node_targets
        pure (local_query sync_from))
      else if n == 1
      then (do
        targets ← (targets_format W is_utf8).read_data node_targets
        pure (node_query targets))
      else fail (custom "invalid QueryTarget discriminant")

  unfoldable pub write_compute : ComputeTarget → Output
  write_compute (agent_compute labels) = write_uint 1 0 ⊕ optional_labels_format.write_data labels
  write_compute (demox demox_api) = write_uint 1 1 ⊕ (string_format is_utf8).write_data demox_api

  unfoldable pub compute_of_tag : ℕ → Reader ComputeTarget
  compute_of_tag n =
      if n == 0
      then (do labels ← optional_labels_format.read_data tt; pure (agent_compute labels))
      else if n == 1
      then (do demox_api ← (string_format is_utf8).read_data tt; pure (demox demox_api))
      else fail (custom "invalid ComputeTarget discriminant")

  unfoldable pub write_source : TxSource P → Output
  write_source source = write_query source.query ⊕ write_compute source.compute

  unfoldable pub read_source : TargetsHeader → Reader (TxSource P)
  read_source header =
      if header.version == 1
      then (do
        query_tag ← read_uint 1
        query ← query_of_tag header.node_targets query_tag
        compute_tag ← read_uint 1
        compute ← compute_of_tag compute_tag
        pure (record { query = query; compute = compute }))
      else fail (unsupported_version "TxSource" 1 header.version)

  abbrev pub source_format : DataFormat TargetsHeader (TxSource P)
  source_format = record {
    latest_header = latest_source_header;
    write_header = default_write_header source_header_format latest_source_header;
    read_header = default_read_header source_header_format;
    write_data = write_source;
    read_data = read_source;
  }

  abbrev pub optional_u32_format : DataFormat Unit (Option ℕ)
  optional_u32_format = option_format unit_format (uint_format 4)

  abbrev pub file_name_format : DataFormat Unit (Option Text)
  file_name_format = option_format unit_format (string_format is_utf8)

  unfoldable pub write_sink : TxSink P → Output
  write_sink sink =
      file_name_format.write_data sink.file_name
      ⊕ optional_targets_format.write_data sink.target
      ⊕ optional_u32_format.write_data sink.broadcast_attempts
      ⊕ optional_u32_format.write_data sink.authorize_attempts
      ⊕ write_uint 4 sink.broadcast_timeout
      ⊕ write_uint 4 sink.authorize_timeout

  -- Version 1 was a file name or targets.
  abbrev pub old_sink : Option Text → Option (NodeTargets P) → TxSink P
  old_sink file_name target = record {
    file_name = file_name;
    target = target;
    broadcast_attempts = none;
    broadcast_timeout = default_retry_timeout;
    authorize_attempts = none;
    authorize_timeout = default_retry_timeout;
  }

  unfoldable pub old_sink_of_tag : ℕ × ℕ → ℕ → Reader (TxSink P)
  old_sink_of_tag node_targets n =
      if n == 0
      then (do
        file_name ← (string_format is_utf8).read_data tt
        pure (old_sink (some file_name) none))
      else if n == 1
      then (do
        target ← (targets_format W is_utf8).read_data node_targets
        pure (old_sink none (some target)))
      else fail (custom "invalid TxSink discriminant")

  unfoldable pub read_sink : TargetsHeader → Reader (TxSink P)
  unfolding old_sink_of_tag
  read_sink header =
      if header.version == 1
      then (do n ← read_uint 1; old_sink_of_tag header.node_targets n)
      else if header.version == 2
      then (do
        file_name ← file_name_format.read_data tt
        target ← optional_targets_format.read_data header.node_targets
        broadcast_attempts ← optional_u32_format.read_data tt
        authorize_attempts ← optional_u32_format.read_data tt
        broadcast_timeout ← read_uint 4
        authorize_timeout ← read_uint 4
        pure (record {
          file_name = file_name;
          target = target;
          broadcast_attempts = broadcast_attempts;
          broadcast_timeout = broadcast_timeout;
          authorize_attempts = authorize_attempts;
          authorize_timeout = authorize_timeout;
        }))
      else fail (unsupported_version "TxSink" 2 header.version)

  abbrev pub sink_format : DataFormat TargetsHeader (TxSink P)
  sink_format = record {
    latest_header = latest_sink_header;
    write_header = default_write_header sink_header_format latest_sink_header;
    read_header = default_read_header sink_header_format;
    write_data = write_sink;
    read_data = read_sink;
  }
