-- ===== src/Controlplane/Nodes.antt =====
-- crates/controlplane/src/schema/nodes.rs: the nodes of a document, and their formats. The `wildmatch`
-- crate is the interface `WildMatch`, and `P` its patterns.
pub mod RoundTrip
use snarkops.Common.Dict.{Dict}
use snarkops.Common.Index.{set_extend, index_extend}
use snarkops.Common.Text.{Text, text_eq}
use snarkops.State.KeySource.{KeySource, local, key_source_format}
use snarkops.State.HeightRequest.{HeightRequest, height_request_format}
use snarkops.State.NodeKey.{NodeKey}
use snarkops.State.NodeState.{NodeState, no_key}
use snarkops.State.NodeTarget.{WildMatch, NodeTargets}
use snarkops.State.NodeTarget.Formats.{targets_format}
use snarkops.Format.Headers.{write_u8_pair, read_u8_header, read_u8_pair_header}
use snarkops.Format.Net.{SocketAddr, socket_addr_format}
use snarkops.Format.Ints.{read_uint, write_uint, u8_format, unit_format, bool_format}
use snarkops.Format.Packed.{packed_format}
use snarkops.Format.Collections.{string_format, option_format, pair_format, write_vec, read_vec}
use snarkops.Format.Maps.{write_map}
use snarkops.Common.{
  ℕ, Bool, true, false, Option, none, some, List, [], ◌∷◌, ◌==◌, ◌||◌, ltb, if◌then◌else◌,
}
use snarkops.Format.{
  DataFormat, Reader, Output, ◌>>=◌, ◌⊕◌, pure, fail, custom, unsupported_version,
  default_write_header, default_read_header,
}

pub record ExternalNode : Type 0 where
  pub bft : Option SocketAddr
  pub node_addr : Option SocketAddr
  pub rest : Option SocketAddr

abbrev pub optional_addr_format : DataFormat Unit (Option SocketAddr)
optional_addr_format = option_format unit_format socket_addr_format

unfoldable pub write_external_node : ExternalNode → Output
write_external_node n =
    optional_addr_format.write_data n.bft
    ⊕ optional_addr_format.write_data n.node_addr
    ⊕ optional_addr_format.write_data n.rest

unfoldable pub read_external_node : ℕ → Reader ExternalNode
read_external_node header =
    if header == 1
    then (do
      bft ← optional_addr_format.read_data tt
      node_addr ← optional_addr_format.read_data tt
      rest ← optional_addr_format.read_data tt
      pure (record { bft = bft; node_addr = node_addr; rest = rest }))
    else fail (custom "unsupported version")

abbrev pub external_node_format : DataFormat ℕ ExternalNode
external_node_format = record {
  latest_header = 1;
  write_header = default_write_header u8_format 1;
  read_header = default_read_header u8_format;
  write_data = write_external_node;
  read_data = read_external_node;
}

pub record Node (P : Type 0) : Type 0 where
  pub online : Bool
  pub replicas : Option ℕ
  pub key : Option KeySource
  pub height : HeightRequest
  pub labels : List Text
  pub agent : Option Text
  pub validators : NodeTargets P
  pub peers : NodeTargets P
  pub env : Dict Text Text
  pub binary : Option Text

-- `Node::into_state`
unfoldable pub into_state : {P : Type 0} → Node P → NodeKey → NodeState
into_state node node_key = record {
  node_key = node_key;
  private_key = no_key;
  height = (0, node.height);
  online = node.online;
  peers = [];
  validators = [];
  env = node.env;
  binary = node.binary;
}

pub record NodeFormatHeader : Type 0 where
  pub key_source_header : ℕ
  pub height_request_header : ℕ × ℕ
  pub node_targets_header : ℕ × ℕ
  pub has_binaries : Bool

-- `has_binaries` is told by the version.
unfoldable pub write_node_header : NodeFormatHeader → Output
write_node_header h =
    write_uint 1 h.key_source_header
    ⊕ write_u8_pair h.height_request_header
    ⊕ write_u8_pair h.node_targets_header

unfoldable pub read_node_header : ℕ → Reader NodeFormatHeader
read_node_header header =
    if header == 0 || ltb 2 header
    then fail (unsupported_version "NodeFormatHeader" 2 header)
    else (do
      key_source ← read_u8_header
      height_request ← read_u8_pair_header
      node_targets ← read_u8_pair_header
      pure (record {
        key_source_header = key_source;
        height_request_header = height_request;
        node_targets_header = node_targets;
        has_binaries = ltb 1 header;
      }))

abbrev pub node_header_format : DataFormat ℕ NodeFormatHeader
node_header_format = record {
  latest_header = 2;
  write_header = default_write_header u8_format 2;
  read_header = default_read_header u8_format;
  write_data = write_node_header;
  read_data = read_node_header;
}

-- `Node::LATEST_HEADER`
abbrev pub latest_node_header : NodeFormatHeader
latest_node_header = record {
  key_source_header = 1;
  height_request_header = (1, 1);
  node_targets_header = (1, 1);
  has_binaries = true;
}

module _ {P : Type 0} (W : WildMatch P) (is_utf8 : List ℕ → Bool) where
  abbrev pub optional_text : DataFormat Unit (Option Text)
  optional_text = option_format unit_format (string_format is_utf8)

  abbrev pub text_pair : DataFormat (Unit {0} × Unit {0}) (Text × Text)
  text_pair = pair_format (string_format is_utf8) (string_format is_utf8)

  abbrev pub optional_key_format : DataFormat ℕ (Option KeySource)
  optional_key_format = option_format u8_format (key_source_format is_utf8)

  abbrev pub optional_count_format : DataFormat Unit (Option ℕ)
  optional_count_format = option_format unit_format packed_format

  unfoldable pub write_node : Node P → Output
  write_node n =
      bool_format.write_data n.online
      ⊕ optional_count_format.write_data n.replicas
      ⊕ optional_key_format.write_data n.key
      ⊕ height_request_format.write_data n.height
      ⊕ write_vec (string_format is_utf8) n.labels
      ⊕ optional_text.write_data n.agent
      ⊕ (targets_format W is_utf8).write_data n.validators
      ⊕ (targets_format W is_utf8).write_data n.peers
      ⊕ write_map (string_format is_utf8) (string_format is_utf8) text_eq n.env
      ⊕ optional_text.write_data n.binary

  unfoldable pub read_binary : Bool → Reader (Option Text)
  read_binary has_binaries = if has_binaries then optional_text.read_data tt else pure none

  -- The labels and the environment are read as vectors and collected.
  unfoldable pub read_node : NodeFormatHeader → Reader (Node P)
  unfolding read_binary
  read_node header = do
    online ← bool_format.read_data tt
    replicas ← optional_count_format.read_data tt
    key ← optional_key_format.read_data header.key_source_header
    height ← height_request_format.read_data header.height_request_header
    labels ← read_vec (string_format is_utf8) tt
    agent ← optional_text.read_data tt
    validators ← (targets_format W is_utf8).read_data header.node_targets_header
    peers ← (targets_format W is_utf8).read_data header.node_targets_header
    env ← read_vec text_pair (tt, tt)
    binary ← read_binary header.has_binaries
    pure (record {
      online = online;
      replicas = replicas;
      key = key;
      height = height;
      labels = set_extend text_eq [] labels;
      agent = agent;
      validators = validators;
      peers = peers;
      env = index_extend text_eq [] env;
      binary = binary;
    })

  abbrev pub node_format : DataFormat NodeFormatHeader (Node P)
  node_format = record {
    latest_header = latest_node_header;
    write_header = default_write_header node_header_format latest_node_header;
    read_header = default_read_header node_header_format;
    write_data = write_node;
    read_data = read_node;
  }
