-- ===== src/Controlplane/Persist/Agent.antt =====
-- crates/controlplane/src/persist/agent.rs: the format of an agent in the database.
use snarkops.Common.Text.{Text, text_eq}
use snarkops.Controlplane.Agents.{Agent, AgentAddrs, from_components}
use snarkops.Controlplane.Env.Mask.{AgentFlags}
use snarkops.State.AgentMode.{mode_to_u8, mode_from_u8, mode_from_u8-mode_to_u8}
use snarkops.State.NodeState.{
  AgentState, inventory, node, NodeStateFormatHeader, node_state_header_format, node_state_format,
  latest_node_state_header,
}
use snarkops.State.NodeState.RoundTrip.{
  IsNodeStateHeader, IsAgentState, node_state_header_format-IsLawful, node_state_format-IsLawful,
}
use snarkops.State.PortConfig.{
  PortConfig, port_config_format, IsPortConfig, port_config_format-IsLawful,
}
use snarkops.Format.Net.{IsIpAddr, ip_addr_format, ip_addr_format-IsLawful}
use snarkops.Format.Ints.{read_uint, write_uint, u8_format, unit_format, bool_format}
use snarkops.Format.Ints.RoundTrip.{
  IsUint, read_uint-write_uint, uint_format-IsLawful, unit_format-IsLawful, bool_format-IsLawful,
  tagged_ok,
}
use snarkops.Format.Collections.{string_format, option_format, vec_format}
use snarkops.Format.Collections.RoundTrip.{
  IsText, IsVec, OptionIsValid, string_format-IsLawful, option_format-IsLawful, vec_format-IsLawful,
}
use snarkops.Format.Maps.{set_format, IsIndexSet, set_format-IsLawful}
use snarkops.Format.Laws.{
  IsLawful, default_read_header-default_write_header, read_dataformat-write_dataformat,
}
use snarkops.Format.{
  DataFormat, Reader, Output, ◌>>=◌, ◌⊕◌, pure, fail, custom, unsupported_version,
  default_write_header, default_read_header, write_dataformat, read_dataformat,
}
use snarkops.Common.{
  ℕ, ◌≡◌, refl, Bool, Option, List, ◌++◌, ◌==◌, not, if◌then◌else◌, ok, arith, and_then_ok,
  append_assoc,
}

unfoldable pub write_addrs : AgentAddrs → Output
write_addrs addrs =
    (option_format unit_format ip_addr_format).write_data addrs.external
    ⊕ (vec_format unit_format ip_addr_format).write_data addrs.internal

unfoldable pub read_addrs : ℕ → Reader AgentAddrs
read_addrs header =
    if header == 1
    then (do
      external ← (option_format unit_format ip_addr_format).read_data tt
      internal ← (vec_format unit_format ip_addr_format).read_data tt
      pure (record { external = external; internal = internal }))
    else fail (unsupported_version "AgentAddrs" 1 header)

abbrev pub addrs_format : DataFormat ℕ AgentAddrs
addrs_format = record {
  latest_header = 1;
  write_header = default_write_header u8_format 1;
  read_header = default_read_header u8_format;
  write_data = write_addrs;
  read_data = read_addrs;
}

abbrev pub IsAddrs : AgentAddrs → Type 0
IsAddrs addrs = OptionIsValid IsIpAddr addrs.external × IsVec IsIpAddr addrs.internal

pub addrs_format-IsLawful : IsLawful addrs_format IsAddrs
unfolding write_addrs read_addrs
addrs_format-IsLawful =
    let unit = unit_format-IsLawful in
    let external =
      option_format-IsLawful unit_format ip_addr_format unit tt ip_addr_format-IsLawful in
    let internal = vec_format-IsLawful unit_format ip_addr_format unit tt ip_addr_format-IsLawful in
    record {
      data_round_trip = λ addrs rest (h, k). simp append_assoc (
          and_then_ok _ (external.data_round_trip addrs.external _ h)
            (and_then_ok _ (internal.data_round_trip addrs.internal rest k) refl));
      header_round_trip = λ addrs rest.
          default_read_header-default_write_header u8_format 1 addrs rest (uint_format-IsLawful 1)
            (omega arith);
    }

pub record AgentFormatHeader : Type 0 where
  pub version : ℕ
  pub addrs_header : ℕ
  pub node_header : NodeStateFormatHeader
  pub flags_header : ℕ
  pub ports_header : ℕ

unfoldable pub write_agent_header : AgentFormatHeader → Output
write_agent_header h =
    write_uint 1 h.version
    ⊕ write_uint 1 h.addrs_header
    ⊕ write_dataformat node_state_header_format h.node_header
    ⊕ write_uint 1 h.flags_header
    ⊕ write_uint 1 h.ports_header

unfoldable pub read_agent_header : ℕ → Reader AgentFormatHeader
read_agent_header header =
    if header == 1
    then (do
      version ← read_uint 1
      addrs ← read_uint 1
      node_state ← read_dataformat node_state_header_format
      flags ← read_uint 1
      ports ← read_uint 1
      pure (record {
        version = version;
        addrs_header = addrs;
        node_header = node_state;
        flags_header = flags;
        ports_header = ports;
      }))
    else fail (unsupported_version "AgentFormatHeader" 1 header)

abbrev pub agent_header_format : DataFormat ℕ AgentFormatHeader
agent_header_format = record {
  latest_header = 1;
  write_header = default_write_header u8_format 1;
  read_header = default_read_header u8_format;
  write_data = write_agent_header;
  read_data = read_agent_header;
}

abbrev pub latest_agent_header : AgentFormatHeader
latest_agent_header = record {
  version = 1;
  addrs_header = 1;
  node_header = latest_node_state_header;
  flags_header = 1;
  ports_header = 1;
}

abbrev pub IsAgentHeader : AgentFormatHeader → Type 0
IsAgentHeader h =
    IsUint 1 h.version
    × IsUint 1 h.addrs_header
    × IsNodeStateHeader h.node_header
    × IsUint 1 h.flags_header
    × IsUint 1 h.ports_header

pub agent_header_format-IsLawful : IsLawful agent_header_format IsAgentHeader
unfolding write_agent_header read_agent_header
agent_header_format-IsLawful = record {
  data_round_trip = λ h rest (version, addrs, node_state, flags, ports).
      let ports_bytes = (write_uint 1 h.ports_header).bytes ++ rest in
      let flags_bytes = (write_uint 1 h.flags_header).bytes ++ ports_bytes in
      simp append_assoc (
        and_then_ok _ (read_uint-write_uint 1 h.version _ version) (
          and_then_ok _ (read_uint-write_uint 1 h.addrs_header _ addrs) (
            and_then_ok _
              (read_dataformat-write_dataformat node_state_header_format h.node_header flags_bytes
                node_state_header_format-IsLawful node_state)
              (and_then_ok _ (read_uint-write_uint 1 h.flags_header _ flags)
                (and_then_ok _ (read_uint-write_uint 1 h.ports_header rest ports) refl)))));
  header_round_trip = λ h rest.
      default_read_header-default_write_header u8_format 1 h rest (uint_format-IsLawful 1)
        (omega arith);
}

module _ (is_utf8 : List ℕ → Bool) where
  abbrev pub labels_set_format : DataFormat Unit (List Text)
  labels_set_format = set_format unit_format (string_format is_utf8) text_eq

  unfoldable pub write_flags : AgentFlags → Output
  write_flags flags =
      write_uint 1 (mode_to_u8 flags.mode)
      ⊕ labels_set_format.write_data flags.labels
      ⊕ bool_format.write_data flags.local_pk

  unfoldable pub read_flags : ℕ → Reader AgentFlags
  read_flags header =
      if header == 1
      then (do
        mode ← read_uint 1
        labels ← labels_set_format.read_data tt
        local_pk ← bool_format.read_data tt
        pure (record { mode = mode_from_u8 mode; labels = labels; local_pk = local_pk }))
      else fail (unsupported_version "AgentFlags" 1 header)

  -- A set of fewer than 2^64 labels, which are UTF-8.
  abbrev pub IsLabels : List Text → Type 0
  IsLabels labels =
      IsIndexSet unit_format (string_format is_utf8) text_eq unit_format-IsLawful tt
        (string_format-IsLawful is_utf8) labels

  read_flags-write_flags :
      (flags : AgentFlags) (rest : List ℕ)
      → IsLabels flags.labels
      → read_flags 1 ((write_flags flags).bytes ++ rest) ≡ ok (flags, rest)
  unfolding read_flags write_flags
  read_flags-write_flags flags rest h =
      let labels =
        set_format-IsLawful unit_format (string_format is_utf8) text_eq unit_format-IsLawful tt
          (string_format-IsLawful is_utf8) in
      let (mode, small) = mode_from_u8-mode_to_u8 flags.mode in
      simp append_assoc (
        and_then_ok _ (read_uint-write_uint 1 (mode_to_u8 flags.mode) _ (omega (arith, small))) (
          and_then_ok _ (labels.data_round_trip flags.labels _ h) (
            and_then_ok _ (bool_format-IsLawful.data_round_trip flags.local_pk rest tt) (rw mode))))

  -- The state is written like an `AgentState`, without its header.
  unfoldable pub write_stored_state : AgentState → Output
  write_stored_state inventory = write_uint 1 0
  write_stored_state (node env_id s) =
      write_uint 1 1
      ⊕ (string_format is_utf8).write_data env_id
      ⊕ (node_state_format is_utf8).write_data s

  unfoldable pub stored_state_of_tag : NodeStateFormatHeader → ℕ → Reader AgentState
  stored_state_of_tag header n =
      if n == 0
      then pure inventory
      else if n == 1
      then (do
        env_id ← (string_format is_utf8).read_data tt
        s ← (node_state_format is_utf8).read_data header
        pure (node env_id s))
      else fail (custom "invalid AgentState discriminant")

  read_stored_state :
      (s : AgentState) (rest : List ℕ)
      → IsAgentState is_utf8 s
      → (read_uint 1 >>= stored_state_of_tag latest_node_state_header)
          ((write_stored_state s).bytes ++ rest)
        ≡ ok (s, rest)
  unfolding write_stored_state stored_state_of_tag
  read_stored_state inventory rest h = and_then_ok _ (read_uint-write_uint 1 0 _ (omega arith)) refl
  read_stored_state (node env_id s) rest (h, k) = simp append_assoc (
      and_then_ok _ (read_uint-write_uint 1 1 _ (omega arith)) (
        and_then_ok _ ((string_format-IsLawful is_utf8).data_round_trip env_id _ h)
          (and_then_ok _ ((node_state_format-IsLawful is_utf8).data_round_trip s rest k) refl)))

  abbrev optional_ports_format : DataFormat ℕ (Option PortConfig)
  optional_ports_format = option_format u8_format port_config_format

  abbrev optional_addrs_format : DataFormat ℕ (Option AgentAddrs)
  optional_addrs_format = option_format u8_format addrs_format

  module _ {C : Type 0} where
    unfoldable pub write_agent : Agent C → Output
    write_agent a =
        (string_format is_utf8).write_data a.id
        ⊕ write_uint 2 a.claims.nonce
        ⊕ write_stored_state a.state
        ⊕ write_flags a.flags
        ⊕ optional_ports_format.write_data a.ports
        ⊕ optional_addrs_format.write_data a.addrs

    unfoldable pub read_agent : AgentFormatHeader → Reader (Agent C)
    read_agent header =
        if not (header.version == 1)
        then fail (unsupported_version "Agent" 1 header.version)
        else (do
          id ← (string_format is_utf8).read_data tt
          nonce ← read_uint 2
          state_tag ← read_uint 1
          state ← stored_state_of_tag header.node_header state_tag
          flags ← read_flags header.flags_header
          ports ← optional_ports_format.read_data header.ports_header
          addrs ← optional_addrs_format.read_data header.addrs_header
          pure (from_components (record { claims_id = id; nonce = nonce }) state flags ports addrs))

    pub record IsAgent (a : Agent C) : Type 0 where
      pub id_valid : IsText is_utf8 a.id
      pub nonce_fits : IsUint 2 a.claims.nonce
      pub state_valid : IsAgentState is_utf8 a.state
      pub labels_valid : IsLabels a.flags.labels
      pub ports_valid : OptionIsValid IsPortConfig a.ports
      pub addrs_valid : OptionIsValid IsAddrs a.addrs

    -- An agent, with numbers in their widths, texts in UTF-8, neither a label nor an environment
    -- variable of its node twice, and no external peer of its node or validator whose IPv6 address has
    -- flow info or a scope, is read back from its bytes with the same claims, state, flags, ports and
    -- addresses: offline, and claimed by nothing.
    pub read_agent-write_agent :
        (a : Agent C) (rest : List ℕ)
        → IsAgent a
        → read_agent latest_agent_header ((write_agent a).bytes ++ rest)
          ≡ ok (
            from_components
                (record { claims_id = a.id; nonce = a.claims.nonce })
                a.state
                a.flags
                a.ports
                a.addrs,
            rest,
          )
    unfolding read_agent write_agent
    read_agent-write_agent a rest v =
        let header = uint_format-IsLawful 1 in
        let ports =
          option_format-IsLawful u8_format port_config_format header (omega arith)
            port_config_format-IsLawful in
        let addrs =
          option_format-IsLawful u8_format addrs_format header (omega arith)
            addrs_format-IsLawful in
        simp append_assoc (
          and_then_ok _ ((string_format-IsLawful is_utf8).data_round_trip a.id _ v.id_valid) (
            and_then_ok _ (read_uint-write_uint 2 a.claims.nonce _ v.nonce_fits) (
              tagged_ok (stored_state_of_tag latest_node_state_header) _ _
                (read_stored_state a.state _ v.state_valid)
                (and_then_ok _ (read_flags-write_flags a.flags _ v.labels_valid) (
                  and_then_ok _ (ports.data_round_trip a.ports _ v.ports_valid)
                    (and_then_ok _ (addrs.data_round_trip a.addrs rest v.addrs_valid) refl))))))
