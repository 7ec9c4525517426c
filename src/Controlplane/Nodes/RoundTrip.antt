-- ===== src/Controlplane/Nodes/RoundTrip.antt =====
-- The nodes of crates/controlplane/src/schema/nodes.rs: values and bytes.
use snarkops.Common.Dict.{Dict}
use snarkops.Common.Index.{IsFreshSet, IsFreshMap, set_extend-fresh, index_extend-fresh}
use snarkops.Common.Text.{Text, text_eq}
use snarkops.Controlplane.Nodes.{
  ExternalNode, write_external_node, read_external_node, external_node_format, Node,
  NodeFormatHeader, write_node_header, read_node_header, node_header_format, latest_node_header,
  text_pair, write_node, read_node, read_binary, node_format,
}
use snarkops.State.KeySource.{key_source_format}
use snarkops.State.KeySource.RoundTrip.{IsKeySourceText, key_source_format-IsLawful}
use snarkops.State.HeightRequest.{IsHeightRequest, height_request_format-IsLawful}
use snarkops.State.NodeTarget.{WildMatch}
use snarkops.State.NodeTarget.Formats.{IsNodeTargets, targets_format-IsLawful}
use snarkops.Format.Headers.{IsU8Pair, read_u8_header-write_uint, read_u8_pair_header-write_u8_pair}
use snarkops.Format.Net.{IsSocketAddr, socket_addr_format, socket_addr_format-IsLawful}
use snarkops.Format.Ints.{u8_format, unit_format}
use snarkops.Format.Ints.RoundTrip.{
  IsUint, uint_format-IsLawful, unit_format-IsLawful, bool_format-IsLawful,
}
use snarkops.Format.Packed.{packed_format}
use snarkops.Format.Packed.RoundTrip.{packed_format-IsLawful, IsU64}
use snarkops.Format.Collections.{pair_format, string_format, write_vec, write_items}
use snarkops.Format.Collections.RoundTrip.{
  IsText, IsVec, OptionIsValid, string_format-IsLawful, option_format-IsLawful,
  pair_format-IsLawful, vec_format-IsLawful,
}
use snarkops.Format.Maps.{write_map, write_entries}
use snarkops.Format.Laws.{IsLawful, default_read_header-default_write_header}
use snarkops.Common.{ℕ, ◌≡◌, refl, Bool, true, List, [], ◌∷◌, arith, and_then_ok, append_assoc}

pub record IsExternalNode (n : ExternalNode) : Type 0 where
  pub bft_valid : OptionIsValid IsSocketAddr n.bft
  pub node_valid : OptionIsValid IsSocketAddr n.node_addr
  pub rest_valid : OptionIsValid IsSocketAddr n.rest

pub external_node_format-IsLawful : IsLawful external_node_format IsExternalNode
unfolding write_external_node read_external_node
external_node_format-IsLawful =
    let addr =
      option_format-IsLawful unit_format socket_addr_format unit_format-IsLawful tt
        socket_addr_format-IsLawful in
    record {
      data_round_trip = λ n behind v. simp append_assoc (
          and_then_ok _ (addr.data_round_trip n.bft _ v.bft_valid) (
            and_then_ok _ (addr.data_round_trip n.node_addr _ v.node_valid)
              (and_then_ok _ (addr.data_round_trip n.rest behind v.rest_valid) refl)));
      header_round_trip = λ n behind.
          default_read_header-default_write_header u8_format 1 n behind (uint_format-IsLawful 1)
            (omega arith);
    }

-- Versions that are u8s; the latest format of the header has binaries.
abbrev pub IsNodeHeader : NodeFormatHeader → Type 0
IsNodeHeader h =
    IsUint 1 h.key_source_header
    × IsU8Pair h.height_request_header
    × IsU8Pair h.node_targets_header
    × (h.has_binaries ≡ true)

pub node_header_format-IsLawful : IsLawful node_header_format IsNodeHeader
unfolding write_node_header read_node_header
node_header_format-IsLawful = record {
  data_round_trip = λ h rest (source, request, targets, binaries). simp append_assoc (
      and_then_ok _ (read_u8_header-write_uint h.key_source_header _ source) (
        and_then_ok _ (read_u8_pair_header-write_u8_pair h.height_request_header _ request) (
          and_then_ok _ (read_u8_pair_header-write_u8_pair h.node_targets_header rest targets)
            (rw binaries))));
  header_round_trip = λ h rest.
      default_read_header-default_write_header u8_format 2 h rest (uint_format-IsLawful 1)
        (omega arith);
}

module _ {P : Type 0} (W : WildMatch P) (is_utf8 : List ℕ → Bool) where
  -- A map is written like the vector of its entries.
  write_entries-eq :
      (d : Dict Text Text)
      → write_entries (string_format is_utf8) (string_format is_utf8) text_eq d
        ≡ write_items (text_pair W is_utf8) d
  unfolding write_entries write_items
  write_entries-eq [] = refl
  write_entries-eq ((k, v) ∷ d) = rw (write_entries-eq d)

  write_map-eq :
      (d : Dict Text Text)
      → write_map (string_format is_utf8) (string_format is_utf8) text_eq d
        ≡ write_vec (text_pair W is_utf8) d
  unfolding write_map write_vec
  write_map-eq d = rw (write_entries-eq d)

  -- Counts that are u64s, texts in UTF-8, no label and no environment variable twice.
  pub record IsNode (n : Node P) : Type 0 where
    pub replicas_fit : OptionIsValid IsU64 n.replicas
    pub key_valid : OptionIsValid (IsKeySourceText is_utf8) n.key
    pub height_valid : IsHeightRequest n.height
    pub labels_valid : IsVec (IsText is_utf8) n.labels
    pub labels_fresh : IsFreshSet text_eq [] n.labels
    pub agent_valid : OptionIsValid (IsText is_utf8) n.agent
    pub validators_valid : IsNodeTargets W is_utf8 n.validators
    pub peers_valid : IsNodeTargets W is_utf8 n.peers
    pub env_valid : IsVec (λ e. IsText is_utf8 e.0 × IsText is_utf8 e.1) n.env
    pub env_fresh : IsFreshMap text_eq [] n.env
    pub binary_valid : OptionIsValid (IsText is_utf8) n.binary

  -- The configuration of a node, with numbers in their widths, texts in UTF-8, neither a label nor an
  -- environment variable twice, targets that are `Many` only with two or more of them, and patterns
  -- that are compiled again from their texts, is read back from its bytes, with and without its
  -- header.
  pub node_format-IsLawful : IsLawful (node_format W is_utf8) IsNode
  unfolding write_node read_node read_binary
  node_format-IsLawful =
      let text = string_format-IsLawful is_utf8 in
      let unit = unit_format-IsLawful in
      let optional = option_format-IsLawful unit_format (string_format is_utf8) unit tt text in
      let count = option_format-IsLawful unit_format packed_format unit tt packed_format-IsLawful in
      let key =
        option_format-IsLawful u8_format (key_source_format is_utf8) (uint_format-IsLawful 1)
          (omega arith) (key_source_format-IsLawful is_utf8) in
      let labels = vec_format-IsLawful unit_format (string_format is_utf8) unit tt text in
      let targets = targets_format-IsLawful W is_utf8 in
      let pairs =
        vec_format-IsLawful (pair_format unit_format unit_format) (text_pair W is_utf8)
          (pair_format-IsLawful unit_format unit_format unit unit) (tt, tt)
          (pair_format-IsLawful (string_format is_utf8) (string_format is_utf8) text text) in
      record {
        data_round_trip = λ n rest v.
            simp (append_assoc, write_map-eq n.env)
              (and_then_ok _ (bool_format-IsLawful.data_round_trip n.online _ tt) (
                and_then_ok _ (count.data_round_trip n.replicas _ v.replicas_fit) (
                  and_then_ok _ (key.data_round_trip n.key _ v.key_valid) (
                    and_then_ok _
                      (height_request_format-IsLawful.data_round_trip n.height _ v.height_valid)
                      (and_then_ok _ (labels.data_round_trip n.labels _ v.labels_valid) (
                        and_then_ok _ (optional.data_round_trip n.agent _ v.agent_valid) (
                          and_then_ok _ (targets.data_round_trip n.validators _ v.validators_valid)
                            (and_then_ok _ (targets.data_round_trip n.peers _ v.peers_valid) (
                              and_then_ok _ (pairs.data_round_trip n.env _ v.env_valid) (
                                and_then_ok _
                                  (optional.data_round_trip n.binary rest v.binary_valid)
                                  (rw (
                                    set_extend-fresh text_eq [] n.labels v.labels_fresh,
                                    index_extend-fresh text_eq [] n.env v.env_fresh,
                                  ))))))))))));
        header_round_trip = λ n rest.
            default_read_header-default_write_header node_header_format latest_node_header n rest
              node_header_format-IsLawful
              (omega arith, (omega arith, omega arith), (omega arith, omega arith), refl);
      }
