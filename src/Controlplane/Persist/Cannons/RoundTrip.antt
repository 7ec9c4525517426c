-- ===== src/Controlplane/Persist/Cannons/RoundTrip.antt =====
-- The sources and sinks of crates/controlplane/src/persist: values and bytes.
use snarkops.Controlplane.Persist.Cannons.{
  QueryTarget, node_query, local_query, ComputeTarget, agent_compute, demox, TxSource, TxSink,
  TargetsHeader, write_source_header, read_source_header, source_header_format, write_sink_header,
  read_sink_header, sink_header_format, latest_source_header, latest_sink_header,
  optional_targets_format, optional_labels_format, labels_format, write_query, query_of_tag,
  write_compute, compute_of_tag, write_source, read_source, source_format, write_sink, read_sink,
  sink_format,
}
use snarkops.State.NodeTarget.{WildMatch}
use snarkops.State.NodeTarget.Formats.{IsNodeTargets, targets_format, targets_format-IsLawful}
use snarkops.Format.Headers.{IsU8Pair, read_u8_pair-write_u8_pair}
use snarkops.Format.Ints.{write_uint, read_uint, u8_format, unit_format, uint_format}
use snarkops.Format.Ints.RoundTrip.{
  IsUint, read_uint-write_uint, uint_format-IsLawful, unit_format-IsLawful, tagged_ok,
}
use snarkops.Format.Collections.{string_format, pair_format}
use snarkops.Format.Collections.RoundTrip.{
  IsText, IsVec, OptionIsValid, string_format-IsLawful, option_format-IsLawful,
  pair_format-IsLawful, vec_format-IsLawful,
}
use snarkops.Format.Laws.{
  IsLawful, default_read_header-default_write_header, read_dataformat-write_dataformat,
}
use snarkops.Format.{write_dataformat, ◌>>=◌}
use snarkops.Common.{ℕ, ◌≡◌, refl, Bool, List, ◌++◌, ok, arith, and_then_ok, append_assoc}

abbrev pub IsTargetsHeader : TargetsHeader → Type 0
IsTargetsHeader h = IsUint 1 h.version × IsU8Pair h.node_targets

pub source_header_format-IsLawful : IsLawful source_header_format IsTargetsHeader
unfolding write_source_header read_source_header
source_header_format-IsLawful = record {
  data_round_trip = λ h rest (version, targets). simp append_assoc (
      and_then_ok _ (read_uint-write_uint 1 h.version _ version)
        (and_then_ok _ (read_u8_pair-write_u8_pair h.node_targets rest targets) refl));
  header_round_trip = λ h rest.
      default_read_header-default_write_header u8_format 1 h rest (uint_format-IsLawful 1)
        (omega arith);
}

pub two_headers-IsLawful : IsLawful (pair_format u8_format u8_format) IsU8Pair
two_headers-IsLawful =
    pair_format-IsLawful u8_format u8_format (uint_format-IsLawful 1) (uint_format-IsLawful 1)

pub sink_header_format-IsLawful : IsLawful sink_header_format IsTargetsHeader
unfolding write_sink_header read_sink_header
sink_header_format-IsLawful = record {
  data_round_trip = λ h rest (version, targets).
      let behind =
        read_dataformat-write_dataformat (pair_format u8_format u8_format) h.node_targets rest
          two_headers-IsLawful targets in
      rw
        (append_assoc (write_uint 1 h.version).bytes
          (write_dataformat (pair_format u8_format u8_format) h.node_targets).bytes rest)
        (and_then_ok _ (read_uint-write_uint 1 h.version _ version) (and_then_ok _ behind refl));
  header_round_trip = λ h rest.
      default_read_header-default_write_header u8_format 1 h rest (uint_format-IsLawful 1)
        (omega arith);
}

module _ {P : Type 0} (W : WildMatch P) (is_utf8 : List ℕ → Bool) where
  abbrev pub IsQuery : QueryTarget P → Type 0
  IsQuery (node_query targets) = IsNodeTargets W is_utf8 targets
  IsQuery (local_query sync_from) = OptionIsValid (IsNodeTargets W is_utf8) sync_from

  abbrev pub IsCompute : ComputeTarget → Type 0
  IsCompute (agent_compute labels) = OptionIsValid (IsVec (IsText is_utf8)) labels
  IsCompute (demox demox_api) = IsText is_utf8 demox_api

  abbrev pub IsSource : TxSource P → Type 0
  IsSource source = IsQuery source.query × IsCompute source.compute

  pub record IsSink (sink : TxSink P) : Type 0 where
    pub file_name_valid : OptionIsValid (IsText is_utf8) sink.file_name
    pub target_valid : OptionIsValid (IsNodeTargets W is_utf8) sink.target
    pub broadcasts_fit : OptionIsValid (IsUint 4) sink.broadcast_attempts
    pub authorizes_fit : OptionIsValid (IsUint 4) sink.authorize_attempts
    pub broadcast_fits : IsUint 4 sink.broadcast_timeout
    pub authorize_fits : IsUint 4 sink.authorize_timeout

  optional_targets-IsLawful :
      IsLawful (optional_targets_format W is_utf8) (OptionIsValid (IsNodeTargets W is_utf8))
  optional_targets-IsLawful =
      option_format-IsLawful (pair_format u8_format u8_format) (targets_format W is_utf8)
        two_headers-IsLawful (omega arith, omega arith) (targets_format-IsLawful W is_utf8)

  read_query :
      (query : QueryTarget P) (rest : List ℕ)
      → IsQuery query
      → (read_uint 1 >>= query_of_tag W is_utf8 (1, 1))
          ((write_query W is_utf8 query).bytes ++ rest)
        ≡ ok (query, rest)
  unfolding write_query query_of_tag
  read_query (local_query sync_from) rest h = simp append_assoc (
      and_then_ok _ (read_uint-write_uint 1 0 _ (omega arith))
        (and_then_ok _ (optional_targets-IsLawful.data_round_trip sync_from rest h) refl))
  read_query (node_query targets) rest h = simp append_assoc (
      and_then_ok _ (read_uint-write_uint 1 1 _ (omega arith))
        (and_then_ok _ ((targets_format-IsLawful W is_utf8).data_round_trip targets rest h) refl))

  optional_labels-IsLawful :
      IsLawful (optional_labels_format W is_utf8) (OptionIsValid (IsVec (IsText is_utf8)))
  optional_labels-IsLawful =
      let unit = unit_format-IsLawful in
      option_format-IsLawful unit_format (labels_format W is_utf8) unit tt (
        vec_format-IsLawful unit_format (string_format is_utf8) unit tt
          (string_format-IsLawful is_utf8))

  read_compute :
      (compute : ComputeTarget) (rest : List ℕ)
      → IsCompute compute
      → (read_uint 1 >>= compute_of_tag W is_utf8) ((write_compute W is_utf8 compute).bytes ++ rest)
        ≡ ok (compute, rest)
  unfolding write_compute compute_of_tag
  read_compute (agent_compute labels) rest h = simp append_assoc (
      and_then_ok _ (read_uint-write_uint 1 0 _ (omega arith))
        (and_then_ok _ (optional_labels-IsLawful.data_round_trip labels rest h) refl))
  read_compute (demox demox_api) rest h = simp append_assoc (
      and_then_ok _ (read_uint-write_uint 1 1 _ (omega arith))
        (and_then_ok _ ((string_format-IsLawful is_utf8).data_round_trip demox_api rest h) refl))

  pub source_format-IsLawful : IsLawful (source_format W is_utf8) IsSource
  unfolding write_source read_source
  source_format-IsLawful = record {
    data_round_trip = λ source rest (query, compute). simp append_assoc (
        tagged_ok (query_of_tag W is_utf8 (1, 1)) _ _ (read_query source.query _ query) (
          tagged_ok (compute_of_tag W is_utf8) _ _ (read_compute source.compute rest compute)
            refl));
    header_round_trip = λ source rest.
        default_read_header-default_write_header source_header_format latest_source_header source
          rest source_header_format-IsLawful (omega arith, (omega arith, omega arith));
  }

  pub sink_format-IsLawful : IsLawful (sink_format W is_utf8) IsSink
  unfolding write_sink read_sink
  sink_format-IsLawful =
      let unit = unit_format-IsLawful in
      let name =
        option_format-IsLawful unit_format (string_format is_utf8) unit tt
          (string_format-IsLawful is_utf8) in
      let attempts =
        option_format-IsLawful unit_format (uint_format 4) unit tt (uint_format-IsLawful 4) in
      record {
        data_round_trip = λ sink rest v. simp append_assoc (
            and_then_ok _ (name.data_round_trip sink.file_name _ v.file_name_valid) (
              and_then_ok _ (optional_targets-IsLawful.data_round_trip sink.target _ v.target_valid)
                (and_then_ok _ (attempts.data_round_trip sink.broadcast_attempts _ v.broadcasts_fit)
                  (and_then_ok _
                    (attempts.data_round_trip sink.authorize_attempts _ v.authorizes_fit)
                    (and_then_ok _
                      (read_uint-write_uint 4 sink.broadcast_timeout _ v.broadcast_fits)
                      (and_then_ok _
                        (read_uint-write_uint 4 sink.authorize_timeout rest v.authorize_fits)
                        refl))))));
        header_round_trip = λ sink rest.
            default_read_header-default_write_header sink_header_format latest_sink_header sink rest
              sink_header_format-IsLawful (omega arith, (omega arith, omega arith));
      }
