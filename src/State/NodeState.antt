-- ===== src/State/NodeState.antt =====
-- crates/common/src/state/node_state.rs and agent_state.rs: what an agent is to run, and its format.
pub mod RoundTrip
use snarkops.Common.Dict.{Dict}
use snarkops.Common.Text.{Text, text_eq}
use snarkops.State.NodeKey.{NodeKey, node_key_format}
use snarkops.State.HeightRequest.{HeightRequest, height_request_format}
use snarkops.Format.Headers.{write_u8_pair, read_u8_pair}
use snarkops.Format.Net.{SocketAddr, socket_addr_format}
use snarkops.Format.Ints.{read_uint, write_uint, u8_format, unit_format, bool_format}
use snarkops.Format.Packed.{write_packed, read_packed}
use snarkops.Format.Collections.{string_format, option_format, pair_format, write_vec, read_vec}
use snarkops.Format.Maps.{write_map, read_map}
use snarkops.Common.{
  ℕ, Bool, true, false, Option, none, some, List, [], ◌∷◌, ◌==◌, ◌||◌, ltb, if◌then◌else◌,
}
use snarkops.Format.{
  DataFormat, Reader, Output, ◌>>=◌, ◌⊕◌, pure, fail, custom, unsupported_version,
  default_write_header, default_read_header,
}

pub data KeyState : Type 0 where
  no_key local_key : KeyState
  literal_key : Text → KeyState

-- `From<Option<String>>`
unfoldable pub key_state_of : Option Text → KeyState
key_state_of none = no_key
key_state_of (some s) = literal_key s

pub data AgentPeer : Type 0 where
  internal_peer : Text → ℕ → AgentPeer
  external_peer : SocketAddr → AgentPeer

pub record NodeState : Type 0 where
  pub node_key : NodeKey
  pub private_key : KeyState
  pub height : ℕ × HeightRequest
  pub online : Bool
  pub peers : List AgentPeer
  pub validators : List AgentPeer
  pub env : Dict Text Text
  pub binary : Option Text

pub data AgentState : Type 0 where
  inventory : AgentState
  node : Text → NodeState → AgentState

-- `AgentState::map_node`
unfoldable pub map_node : (NodeState → NodeState) → AgentState → AgentState
map_node f inventory = inventory
map_node f (node id s) = node id (f s)

-- `AgentState::env`
unfoldable pub env_of : AgentState → Option Text
env_of inventory = none
env_of (node id s) = some id

pub record NodeStateFormatHeader : Type 0 where
  pub version : ℕ
  pub node_key_header : ℕ × ℕ
  pub key_state_header : ℕ
  pub height_header : ℕ × ℕ
  pub peer_header : ℕ

unfoldable pub write_node_state_header : NodeStateFormatHeader → Output
write_node_state_header h =
    write_uint 1 h.version
    ⊕ write_u8_pair h.node_key_header
    ⊕ write_uint 1 h.key_state_header
    ⊕ write_u8_pair h.height_header
    ⊕ write_uint 1 h.peer_header

unfoldable pub read_node_state_header : ℕ → Reader NodeStateFormatHeader
read_node_state_header header =
    if header == 1
    then (do
      version ← read_uint 1
      node_key ← read_u8_pair
      key_state ← read_uint 1
      height ← read_u8_pair
      peer ← read_uint 1
      pure (record {
        version = version;
        node_key_header = node_key;
        key_state_header = key_state;
        height_header = height;
        peer_header = peer;
      }))
    else fail (unsupported_version "NodeStateFormatHeader" 1 header)

abbrev pub node_state_header_format : DataFormat ℕ NodeStateFormatHeader
node_state_header_format = record {
  latest_header = 1;
  write_header = default_write_header u8_format 1;
  read_header = default_read_header u8_format;
  write_data = write_node_state_header;
  read_data = read_node_state_header;
}

-- `NodeState::LATEST_HEADER`
abbrev pub latest_node_state_header : NodeStateFormatHeader
latest_node_state_header = record {
  version = 2;
  node_key_header = (1, 1);
  key_state_header = 1;
  height_header = (1, 1);
  peer_header = 1;
}

module _ (is_utf8 : List ℕ → Bool) where
  unfoldable pub write_key_state : KeyState → Output
  write_key_state no_key = write_uint 1 0
  write_key_state local_key = write_uint 1 1
  write_key_state (literal_key s) = write_uint 1 2 ⊕ (string_format is_utf8).write_data s

  unfoldable pub key_state_of_tag : ℕ → Reader KeyState
  key_state_of_tag n =
      if n == 0
      then pure no_key
      else if n == 1
      then pure local_key
      else if n == 2
      then (do s ← (string_format is_utf8).read_data tt; pure (literal_key s))
      else fail (custom "Invalid KeyState discriminant")

  unfoldable pub read_key_state : ℕ → Reader KeyState
  unfolding key_state_of_tag
  read_key_state header =
      if header == 1
      then (do n ← read_uint 1; key_state_of_tag n)
      else fail (unsupported_version "KeyState" 1 header)

  unfoldable pub write_agent_peer : AgentPeer → Output
  write_agent_peer (internal_peer id port) =
      write_uint 1 0 ⊕ (string_format is_utf8).write_data id ⊕ write_uint 2 port
  write_agent_peer (external_peer addr) = write_uint 1 1 ⊕ socket_addr_format.write_data addr

  unfoldable pub agent_peer_of_tag : ℕ → Reader AgentPeer
  agent_peer_of_tag n =
      if n == 0
      then (do
        id ← (string_format is_utf8).read_data tt
        port ← read_uint 2
        pure (internal_peer id port))
      else if n == 1
      then (do addr ← socket_addr_format.read_data tt; pure (external_peer addr))
      else fail (custom "Invalid AgentPeer discriminant")

  unfoldable pub read_agent_peer : ℕ → Reader AgentPeer
  unfolding agent_peer_of_tag
  read_agent_peer header =
      if header == 1
      then (do n ← read_uint 1; agent_peer_of_tag n)
      else fail (unsupported_version "AgentPeer" 1 header)

  abbrev pub agent_peer_format : DataFormat ℕ AgentPeer
  agent_peer_format = record {
    latest_header = 1;
    write_header = default_write_header u8_format 1;
    read_header = default_read_header u8_format;
    write_data = write_agent_peer;
    read_data = read_agent_peer;
  }

  unfoldable pub write_node_state : NodeState → Output
  unfolding write_key_state
  write_node_state s =
      (node_key_format is_utf8).write_data s.node_key
      ⊕ write_key_state s.private_key
      ⊕ write_packed s.height.0
      ⊕ height_request_format.write_data s.height.1
      ⊕ bool_format.write_data s.online
      ⊕ write_vec agent_peer_format s.peers
      ⊕ write_vec agent_peer_format s.validators
      ⊕ write_map (string_format is_utf8) (string_format is_utf8) text_eq s.env
      ⊕ (option_format unit_format (string_format is_utf8)).write_data s.binary

  -- What version 1 has not written is read as none.
  unfoldable pub read_node_binary : ℕ → Reader (Option Text)
  read_node_binary version =
      if ltb 1 version
      then (option_format unit_format (string_format is_utf8)).read_data tt
      else pure none

  unfoldable pub read_node_state : NodeStateFormatHeader → Reader NodeState
  unfolding read_key_state read_node_binary
  read_node_state header =
      if header.version == 0 || ltb 2 header.version
      then fail (unsupported_version "NodeState" 2 header.version)
      else (do
        node_key ← (node_key_format is_utf8).read_data header.node_key_header
        private_key ← read_key_state header.key_state_header
        height_inc ← read_packed
        height_req ← height_request_format.read_data header.height_header
        online ← bool_format.read_data tt
        peers ← read_vec agent_peer_format header.peer_header
        validators ← read_vec agent_peer_format header.peer_header
        env ← read_map (string_format is_utf8) (string_format is_utf8) text_eq (tt, tt)
        binary ← read_node_binary header.version
        pure (record {
          node_key = node_key;
          private_key = private_key;
          height = (height_inc, height_req);
          online = online;
          peers = peers;
          validators = validators;
          env = env;
          binary = binary;
        }))

  abbrev pub node_state_format : DataFormat NodeStateFormatHeader NodeState
  node_state_format = record {
    latest_header = latest_node_state_header;
    write_header = default_write_header node_state_header_format latest_node_state_header;
    read_header = default_read_header node_state_header_format;
    write_data = write_node_state;
    read_data = read_node_state;
  }

  unfoldable pub write_agent_state : AgentState → Output
  write_agent_state inventory = write_uint 1 0
  write_agent_state (node id s) =
      write_uint 1 1 ⊕ (string_format is_utf8).write_data id ⊕ write_node_state s

  unfoldable pub agent_state_of_tag : NodeStateFormatHeader → ℕ → Reader AgentState
  agent_state_of_tag header n =
      if n == 0
      then pure inventory
      else if n == 1
      then (do
        id ← (string_format is_utf8).read_data tt
        s ← read_node_state header
        pure (node id s))
      else fail (custom "Invalid AgentState variant")

  unfoldable pub read_agent_state : ℕ × NodeStateFormatHeader → Reader AgentState
  unfolding agent_state_of_tag
  read_agent_state (version, header) =
      if version == 1
      then (do n ← read_uint 1; agent_state_of_tag header n)
      else fail (unsupported_version "AgentState" 1 version)
