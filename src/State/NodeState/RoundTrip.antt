-- ===== src/State/NodeState/RoundTrip.antt =====
-- The states of nodes and agents of crates/common/src/state: values and bytes.
use snarkops.Common.Text.{text_eq, Text}
use snarkops.State.NodeState.{
  KeyState, no_key, local_key, literal_key, AgentPeer, internal_peer, external_peer, NodeState,
  AgentState, inventory, node, NodeStateFormatHeader, write_node_state_header,
  read_node_state_header, node_state_header_format, latest_node_state_header, write_key_state,
  read_key_state, write_agent_peer, read_agent_peer, agent_peer_format, write_node_state,
  read_node_binary, read_node_state, node_state_format, write_agent_state, read_agent_state,
}
use snarkops.State.NodeKey.RoundTrip.{IsKeyText, node_key_format-IsLawful}
use snarkops.State.HeightRequest.{IsHeightRequest, height_request_format-IsLawful}
use snarkops.Format.Headers.{read_u8_pair-write_u8_pair}
use snarkops.Format.Net.{IsSocketAddr, socket_addr_format-IsLawful}
use snarkops.Format.Ints.{u8_format, unit_format}
use snarkops.Format.Ints.RoundTrip.{
  IsUint, read_uint-write_uint, uint_format-IsLawful, unit_format-IsLawful, bool_format-IsLawful,
}
use snarkops.Format.Packed.RoundTrip.{read_packed-write_packed, IsU64}
use snarkops.Format.Collections.{string_format}
use snarkops.Format.Collections.RoundTrip.{
  IsText, IsVec, OptionIsValid, string_format-IsLawful, option_format-IsLawful, vec_format-IsLawful,
}
use snarkops.Format.Maps.{IsIndexMap, read_map-write_map}
use snarkops.Format.Laws.{IsLawful, default_read_header-default_write_header}
use snarkops.Common.{ℕ, ◌≡◌, refl, Bool, List, ◌++◌, ok, arith, and_then_ok, append_assoc}

-- Each part of the header is a u8.
abbrev pub IsNodeStateHeader : NodeStateFormatHeader → Type 0
IsNodeStateHeader h =
    IsUint 1 h.version
    × (IsUint 1 h.node_key_header.0 × IsUint 1 h.node_key_header.1)
    × IsUint 1 h.key_state_header
    × (IsUint 1 h.height_header.0 × IsUint 1 h.height_header.1)
    × IsUint 1 h.peer_header

pub node_state_header_format-IsLawful : IsLawful node_state_header_format IsNodeStateHeader
unfolding write_node_state_header read_node_state_header
node_state_header_format-IsLawful = record {
  data_round_trip = λ h rest (version, key, key_state, height, peer). simp append_assoc (
      and_then_ok _ (read_uint-write_uint 1 h.version _ version) (
        and_then_ok _ (read_u8_pair-write_u8_pair h.node_key_header _ key) (
          and_then_ok _ (read_uint-write_uint 1 h.key_state_header _ key_state) (
            and_then_ok _ (read_u8_pair-write_u8_pair h.height_header _ height)
              (and_then_ok _ (read_uint-write_uint 1 h.peer_header rest peer) refl)))));
  header_round_trip = λ h rest.
      default_read_header-default_write_header u8_format 1 h rest (uint_format-IsLawful 1)
        (omega arith);
}

module _ (is_utf8 : List ℕ → Bool) where
  abbrev pub IsKeyState : KeyState → Type 0
  IsKeyState (literal_key s) = IsText is_utf8 s
  IsKeyState _ = Unit

  abbrev pub IsAgentPeer : AgentPeer → Type 0
  IsAgentPeer (internal_peer id port) = IsText is_utf8 id × IsUint 2 port
  IsAgentPeer (external_peer addr) = IsSocketAddr addr

  read_key_state-write_key_state :
      (k : KeyState) (rest : List ℕ)
      → IsKeyState k
      → read_key_state is_utf8 1 ((write_key_state is_utf8 k).bytes ++ rest) ≡ ok (k, rest)
  unfolding read_key_state write_key_state
  read_key_state-write_key_state no_key rest h =
      and_then_ok _ (read_uint-write_uint 1 0 rest (omega arith)) refl
  read_key_state-write_key_state local_key rest h =
      and_then_ok _ (read_uint-write_uint 1 1 rest (omega arith)) refl
  read_key_state-write_key_state (literal_key s) rest h = simp append_assoc (
      and_then_ok _ (read_uint-write_uint 1 2 _ (omega arith))
        (and_then_ok _ ((string_format-IsLawful is_utf8).data_round_trip s rest h) refl))

  read_agent_peer-write_agent_peer :
      (p : AgentPeer) (rest : List ℕ)
      → IsAgentPeer p
      → read_agent_peer is_utf8 1 ((write_agent_peer is_utf8 p).bytes ++ rest) ≡ ok (p, rest)
  unfolding read_agent_peer write_agent_peer
  read_agent_peer-write_agent_peer (internal_peer id port) rest (h, k) = simp append_assoc (
      and_then_ok _ (read_uint-write_uint 1 0 _ (omega arith)) (
        and_then_ok _ ((string_format-IsLawful is_utf8).data_round_trip id _ h)
          (and_then_ok _ (read_uint-write_uint 2 port rest k) refl)))
  read_agent_peer-write_agent_peer (external_peer addr) rest h = simp append_assoc (
      and_then_ok _ (read_uint-write_uint 1 1 _ (omega arith))
        (and_then_ok _ (socket_addr_format-IsLawful.data_round_trip addr rest h) refl))

  pub agent_peer_format-IsLawful : IsLawful (agent_peer_format is_utf8) IsAgentPeer
  agent_peer_format-IsLawful = record {
    data_round_trip = read_agent_peer-write_agent_peer;
    header_round_trip = λ p rest.
        default_read_header-default_write_header u8_format 1 p rest (uint_format-IsLawful 1)
          (omega arith);
  }

  abbrev pub IsEnvMap : List (Text × Text) → Type 0
  IsEnvMap env =
      let text = string_format-IsLawful is_utf8 in
      IsIndexMap (string_format is_utf8) (string_format is_utf8) text_eq text text env

  -- The counter of heights is a u64, ports and heights fit their widths, texts are UTF-8, and no
  -- variable of the environment is set twice.
  pub record IsNodeState (s : NodeState) : Type 0 where
    pub key_valid : IsKeyText is_utf8 s.node_key
    pub private_key_valid : IsKeyState s.private_key
    pub counter_fits : IsU64 s.height.0
    pub height_valid : IsHeightRequest s.height.1
    pub peers_valid : IsVec IsAgentPeer s.peers
    pub validators_valid : IsVec IsAgentPeer s.validators
    pub env_valid : IsEnvMap s.env
    pub binary_valid : OptionIsValid (IsText is_utf8) s.binary

  -- The state of a node in its widths, with texts in UTF-8, no environment variable twice, and no
  -- external peer or validator whose IPv6 address has flow info or a scope, is read back from its
  -- bytes, with and without its header.
  pub node_state_format-IsLawful : IsLawful (node_state_format is_utf8) IsNodeState
  unfolding write_node_state read_node_state read_node_binary
  node_state_format-IsLawful =
      let text = string_format-IsLawful is_utf8 in
      let peers =
        vec_format-IsLawful u8_format (agent_peer_format is_utf8) (uint_format-IsLawful 1)
          (omega arith) agent_peer_format-IsLawful in
      let optional =
        option_format-IsLawful unit_format (string_format is_utf8) unit_format-IsLawful tt text in
      let env =
        read_map-write_map (string_format is_utf8) (string_format is_utf8) text_eq text text in
      record {
        data_round_trip = λ s rest v. simp append_assoc (
            and_then_ok _
              ((node_key_format-IsLawful is_utf8).data_round_trip s.node_key _ v.key_valid)
              (and_then_ok _ (read_key_state-write_key_state s.private_key _ v.private_key_valid) (
                and_then_ok _ (read_packed-write_packed s.height.0 _ v.counter_fits) (
                  and_then_ok _
                    (height_request_format-IsLawful.data_round_trip s.height.1 _ v.height_valid)
                    (and_then_ok _ (bool_format-IsLawful.data_round_trip s.online _ tt) (
                      and_then_ok _ (peers.data_round_trip s.peers _ v.peers_valid) (
                        and_then_ok _ (peers.data_round_trip s.validators _ v.validators_valid) (
                          and_then_ok _ (env s.env _ v.env_valid) (
                            and_then_ok _ (optional.data_round_trip s.binary rest v.binary_valid)
                              refl)))))))));
        header_round_trip = λ s rest.
            default_read_header-default_write_header node_state_header_format
              latest_node_state_header s rest node_state_header_format-IsLawful
              (
                omega arith,
                (omega arith, omega arith),
                omega arith,
                (omega arith, omega arith),
                omega arith,
              );
      }

  abbrev pub IsAgentState : AgentState → Type 0
  IsAgentState inventory = Unit
  IsAgentState (node id s) = IsText is_utf8 id × IsNodeState s

  pub read_agent_state-write_agent_state :
      (s : AgentState) (rest : List ℕ)
      → IsAgentState s
      → read_agent_state is_utf8
          (1, latest_node_state_header)
          ((write_agent_state is_utf8 s).bytes ++ rest)
        ≡ ok (s, rest)
  unfolding read_agent_state write_agent_state
  read_agent_state-write_agent_state inventory rest h =
      and_then_ok _ (read_uint-write_uint 1 0 rest (omega arith)) refl
  read_agent_state-write_agent_state (node id s) rest (h, k) = simp append_assoc (
      and_then_ok _ (read_uint-write_uint 1 1 _ (omega arith)) (
        and_then_ok _ ((string_format-IsLawful is_utf8).data_round_trip id _ h)
          (and_then_ok _ (node_state_format-IsLawful.data_round_trip s rest k) refl)))
