-- ===== src/Controlplane/Agents.antt =====
-- crates/controlplane/src/state/agent.rs: an agent that the control plane knows. `C` is the client by
-- which it is called; when an agent went offline and the status that it last told are left out.
use snarkops.Common.Text.{Text, text_eq}
use snarkops.Controlplane.Env.BitSet.{BitSet}
use snarkops.Controlplane.Env.Mask.{AgentFlags, agent_mask, has_label}
use snarkops.Controlplane.Env.Pairing.{AgentMapping}
use snarkops.State.NodeKey.{NodeKey}
use snarkops.State.NodeState.{NodeState, AgentState, inventory, node}
use snarkops.State.PortConfig.{PortConfig}
use snarkops.Format.Net.{IpAddr, ip_v4, ip_v6}
use snarkops.Common.{
  ℕ, Bool, true, false, Option, none, some, List, [], ◌∷◌, ◌==◌, ◌||◌, ◌&&◌, not, ltb, length,
  filter, is_some, if◌then◌else◌,
}

pub record Claims : Type 0 where
  pub claims_id : Text
  pub nonce : ℕ

pub record AgentAddrs : Type 0 where
  pub external : Option IpAddr
  pub internal : List IpAddr

-- `AgentAddrs::usable`: the external address, or the first internal one.
unfoldable pub usable : AgentAddrs → Option IpAddr
usable addrs = elim addrs.external [
  | some ip ↦ some ip
  | none ↦ elim addrs.internal [ [] ↦ none | ip ∷ ips ↦ some ip ]
]

-- `AgentAddrs::is_some`
unfoldable pub has_addr : AgentAddrs → Bool
has_addr addrs = is_some addrs.external || (elim addrs.internal [ [] ↦ false | ip ∷ ips ↦ true ])

-- The derived equalities.
unfoldable pub ip_eq : IpAddr → IpAddr → Bool
ip_eq (ip_v4 a) (ip_v4 b) = text_eq a b
ip_eq (ip_v6 a) (ip_v6 b) = text_eq a b
ip_eq _ _ = false

unfoldable pub ips_eq : List IpAddr → List IpAddr → Bool
unfolding ip_eq
ips_eq [] [] = true
ips_eq (a ∷ rest) (b ∷ bs) = ip_eq a b && ips_eq rest bs
ips_eq _ _ = false

abbrev optional_ip_eq : Option IpAddr → Option IpAddr → Bool
optional_ip_eq none none = true
optional_ip_eq (some a) (some b) = ip_eq a b
optional_ip_eq _ _ = false

unfoldable pub addrs_eq : AgentAddrs → AgentAddrs → Bool
unfolding ip_eq ips_eq
addrs_eq a b = optional_ip_eq a.external b.external && ips_eq a.internal b.internal

unfoldable pub ports_eq : PortConfig → PortConfig → Bool
ports_eq a b =
    (a.node == b.node) && ((a.bft == b.bft) && ((a.rest == b.rest) && (a.metrics == b.metrics)))

-- `compute_claims` and `env_claims` are the strong counts of the claims, the agent's own included.
pub record Agent (C : Type 0) : Type 0 where
  pub id : Text
  pub claims : Claims
  pub connection : Option C
  pub state : AgentState
  pub flags : AgentFlags
  pub compute_claims : ℕ
  pub env_claims : ℕ
  pub ports : Option PortConfig
  pub addrs : Option AgentAddrs

module _ {C : Type 0} where
  -- `Agent::new`, with the nonce that it draws.
  unfoldable pub new_agent : C → Text → AgentFlags → ℕ → Agent C
  new_agent rpc id flags nonce = record {
    id = id;
    claims = record { claims_id = id; nonce = nonce };
    connection = some rpc;
    state = inventory;
    flags = flags;
    compute_claims = 1;
    env_claims = 1;
    ports = none;
    addrs = none;
  }

  -- `Agent::from_components`
  unfoldable pub from_components :
      Claims → AgentState → AgentFlags → Option PortConfig → Option AgentAddrs → Agent C
  from_components claims state flags ports addrs = record {
    id = claims.claims_id;
    claims = claims;
    connection = none;
    state = state;
    flags = flags;
    compute_claims = 1;
    env_claims = 1;
    ports = ports;
    addrs = addrs;
  }

  abbrev pub is_connected : Agent C → Bool
  is_connected a = is_some a.connection

  unfoldable pub is_node_capable : Agent C → Bool
  unfolding has_addr
  is_node_capable a =
      is_connected a && (elim a.addrs [ none ↦ false | some addrs ↦ has_addr addrs ])

  -- `Agent::has_labels`: as many labels in common as are asked for.
  unfoldable pub has_labels : Agent C → List Text → Bool
  has_labels a labels = elim labels [
    | [] ↦ true
    | l ∷ ls ↦ length (filter (has_label (l ∷ ls)) a.flags.labels) == length (l ∷ ls)
  ]

  unfoldable pub is_inventory : Agent C → Bool
  is_inventory a = elim a.state [ inventory ↦ true | node env s ↦ false ]

  unfoldable pub can_compute : Agent C → Bool
  unfolding is_inventory
  can_compute a = is_inventory a && (a.flags.mode.compute && not (ltb 1 a.compute_claims))

  -- `Agent::env` and `Agent::node_key`
  unfoldable pub agent_env : Agent C → Option Text
  agent_env a = elim a.state [ inventory ↦ none | node env s ↦ some env ]

  unfoldable pub agent_node_key : Agent C → Option NodeKey
  agent_node_key a = elim a.state [ inventory ↦ none | node env s ↦ some s.node_key ]

  unfoldable pub mark_disconnected : Agent C → Agent C
  mark_disconnected a = record a { connection = none }

  unfoldable pub mark_connected : Agent C → C → AgentFlags → Agent C
  mark_connected a client flags = record a { connection = some client; flags = flags }

  unfoldable pub set_state : Agent C → AgentState → Agent C
  set_state a state = record a { state = state }

  -- Whether the ports changed, with the agent.
  unfoldable pub set_ports : Agent C → PortConfig → Bool × Agent C
  unfolding ports_eq
  set_ports a ports =
      let same : Bool = elim a.ports [ none ↦ false | some p ↦ ports_eq p ports ] in
      (not same, record a { ports = some ports })

  unfoldable pub set_addrs : Agent C → Option IpAddr → List IpAddr → Bool × Agent C
  unfolding addrs_eq
  set_addrs a external internal =
      let addrs : AgentAddrs = record { external = external; internal = internal } in
      let same : Bool = elim a.addrs [ none ↦ false | some b ↦ addrs_eq b addrs ] in
      (not same, record a { addrs = some addrs })

  -- A port is 0 while the agent has told none.
  abbrev pub port_or_zero : (PortConfig → ℕ) → Agent C → ℕ
  port_or_zero port a = elim a.ports [ none ↦ 0 | some p ↦ port p ]

  unfoldable pub bft_port : Agent C → ℕ
  bft_port a = port_or_zero (λ p. p.bft) a

  unfoldable pub node_port : Agent C → ℕ
  node_port a = port_or_zero (λ p. p.node) a

  unfoldable pub rest_port : Agent C → ℕ
  rest_port a = port_or_zero (λ p. p.rest) a

  unfoldable pub rest_addr : Agent C → Option (IpAddr × ℕ)
  unfolding usable rest_port
  rest_addr a = elim a.addrs [
    | none ↦ none
    | some addrs ↦ elim (usable addrs) [ none ↦ none | some ip ↦ some (ip, rest_port a) ]
  ]

  -- `map_to_reconcile` and `filter_map_to_reconcile`
  unfoldable pub map_to_reconcile : (NodeState → NodeState) → Agent C → Text × AgentState
  map_to_reconcile f a =
      (a.id, elim a.state [ inventory ↦ inventory | node env s ↦ node env (f s) ])

  unfoldable pub filter_map_to_reconcile :
      (NodeState → Option NodeState) → Agent C → Option (Text × AgentState)
  filter_map_to_reconcile f a = elim a.state [
    | inventory ↦ none
    | node env s ↦ elim (f s) [ none ↦ none | some t ↦ some (a.id, node env t) ]
  ]

-- `BusyMode` of crates/controlplane/src/env/set.rs
pub data BusyMode : Type 0 where
  compute_busy env_busy : BusyMode

-- The mapping of an agent whose claim, if there is one, nobody else holds.
unfoldable pub unclaimed_mapping :
    {S : Type 0} → Option ℕ → AgentMapping S → Option (AgentMapping S)
unclaimed_mapping none m = none
unclaimed_mapping (some count) m = if ltb 1 count then none else some m

module _ {C S : Type 0} (B : BitSet S) where
  -- The claim of a mode, if an agent in the inventory can be used in it.
  unfoldable pub mode_claims : BusyMode → Agent C → Option ℕ
  unfolding can_compute is_node_capable
  mode_claims compute_busy a = if can_compute a then some a.compute_claims else none
  mode_claims env_busy a = if is_node_capable a && is_inventory a then some a.env_claims else none

  -- `AgentMapping::new`
  unfoldable pub new_mapping : BusyMode → Agent C → List Text → Option (AgentMapping S)
  new_mapping mode a labels =
      let mapping : AgentMapping S = record { id = a.id; mask = agent_mask B a.flags labels } in
      if not (is_inventory a) then none else unclaimed_mapping (mode_claims mode a) mapping

  -- `get_agent_mappings`
  unfoldable pub get_agent_mappings : BusyMode → List (Agent C) → List Text → List (AgentMapping S)
  get_agent_mappings mode [] labels = []
  get_agent_mappings mode (a ∷ pool) labels =
      let others = get_agent_mappings mode pool labels in
      elim (new_mapping mode a labels) [ none ↦ others | some m ↦ m ∷ others ]
