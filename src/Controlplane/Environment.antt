-- ===== src/Controlplane/Environment.antt =====
-- `Environment::apply` of crates/controlplane/src/env/mod.rs: the nodes of an environment, the agents
-- that run them, and how a document changes both. The crate `bimap` is the interface `BiMap`.
pub mod Peers
pub mod Replicas
pub mod Merging
pub mod Paired
pub mod Pairs
pub mod Consistent
pub mod Merged
pub mod Effect
use snarkops.Common.Decimal.{decimal}
use snarkops.Common.Dict.{Dict, lookup, remove, insert}
use snarkops.Common.Index.{member, set_insert, set_extend, index_insert}
use snarkops.Common.Text.{Text, text_eq}
use snarkops.Controlplane.Agents.{Agent, env_busy, get_agent_mappings}
use snarkops.Controlplane.Env.BitSet.{BitSet}
use snarkops.Controlplane.Env.Mask.{agent_mask}
use snarkops.Controlplane.Env.Pairing as Pairing
use snarkops.Controlplane.Env.Pairing.{AgentMapping, DelegationError, pair_with_nodes}
use snarkops.Controlplane.Environment.Peers.{
  BiMap, EnvPeer, internal_agent, external_key, insert_all, remove_all,
}
use snarkops.Controlplane.Nodes.{Node, ExternalNode}
use snarkops.State.KeySource.{KeySource, with_index, local}
use snarkops.State.NetworkId.{NetworkId}
use snarkops.State.NodeKey.{NodeKey, key_eq, is_empty}
use snarkops.Common.{
  ℕ, zero, suc, Bool, true, false, not, ◌&&◌, Option, none, some, List, [], ◌∷◌, ◌++◌, map, ◌==◌,
  ltb, if◌then◌else◌, Result, ok, err, map_err, and_then, is_some, unwrap_or,
}
use Prim.Native.Nat.{min}

pub data EnvNodeState (P : Type 0) : Type 0 where
  internal : Node P → EnvNodeState P
  external : ExternalNode → EnvNodeState P

-- `PrepareError` and the delegation errors of `EnvError`, as far as they arise here.
pub data EnvError : Type 0 where
  duplicate_node_key : NodeKey → EnvError
  multiple_storage missing_storage node_has_0_replicas : EnvError
  delegation : List DelegationError → EnvError

abbrev pub States : Type 0 → Type 0
States P = Dict NodeKey (EnvNodeState P)

-- What a nodes document says of the environment.
pub record NodesDocument (P : Type 0) : Type 0 where
  pub external_nodes : Dict NodeKey ExternalNode
  pub nodes : Dict NodeKey (Node P)

-- `agent_keys`, `incoming_states` and `updated_states`.
pub record Flattened (P : Type 0) : Type 0 where
  pub agent_keys : List NodeKey
  pub incoming : States P
  pub updated : States P

-- The key of a replica: its number is appended to the name if there are several.
unfoldable pub replica_key : NodeKey → ℕ → ℕ → Result EnvError NodeKey
unfolding is_empty
replica_key key num i =
    if num == 0
    then err node_has_0_replicas
    else if num == 1
    then ok key
    else (let dash : Text = if is_empty key.id then [] else b'-' ∷ [] in
        ok (record key { id = key.id ++ dash ++ decimal i }))

abbrev pub index_key : ℕ → Option KeySource → Option KeySource
index_key i none = none
index_key i (some source) = some (with_index source i)

unfoldable pub replica_node : {P : Type 0} → Node P → ℕ → Node P
replica_node n i = record n { replicas = none; key = index_key i n.key }

module _ {M P : Type 0} (B : BiMap M) (peers : M) where
  -- A node that has a peer already is updated, any other is incoming.
  unfoldable pub place : NodeKey → Node P → Flattened P → Result EnvError (Flattened P)
  place key n s =
      let keys = set_insert key_eq s.agent_keys key in
      if is_some (B.get_by_left peers key)
      then ok
          (record s { agent_keys = keys; updated = index_insert key_eq s.updated key (internal n) })
      else if is_some (lookup key_eq key s.incoming)
      then err (duplicate_node_key key)
      else ok (record s {
        agent_keys = keys;
        incoming = index_insert key_eq s.incoming key (internal n);
      })

  -- `for i in 0..num_replicas.min(10000)`, for the replicas from `i` on.
  unfoldable pub add_replicas :
      NodeKey → Node P → ℕ → ℕ → ℕ → Flattened P → Result EnvError (Flattened P)
  unfolding replica_key replica_node place
  add_replicas key n num zero i s = ok s
  add_replicas key n num (suc count) i s =
      and_then (replica_key key num i)
        λ k. and_then (place k (replica_node n i) s) λ t. add_replicas key n num count (suc i) t

  unfoldable pub flatten : Dict NodeKey (Node P) → Flattened P → Result EnvError (Flattened P)
  unfolding add_replicas
  flatten [] s = ok s
  flatten ((key, n) ∷ nodes) s =
      let num = unwrap_or 1 n.replicas in
      and_then (add_replicas key n num (min num 10000) 0 s) (flatten nodes)

-- Whether a document leaves a peer out.
unfoldable pub is_left_out : List NodeKey → Dict NodeKey ExternalNode → NodeKey × EnvPeer → Bool
is_left_out agent_keys externals (k, internal_agent a) = not (member key_eq agent_keys k)
is_left_out agent_keys externals (k, external_key j) = not (is_some (lookup key_eq k externals))

-- `nodes_to_remove`, of the peers in the order of an iteration.
unfoldable pub nodes_to_remove :
    (NodeKey × EnvPeer → Bool) → List (NodeKey × EnvPeer) → List NodeKey
nodes_to_remove left_out [] = []
nodes_to_remove left_out (e ∷ es) =
    let others = nodes_to_remove left_out es in if left_out e then e.0 ∷ others else others

-- `removed_agents`
unfoldable pub removed_agents : List NodeKey → List (NodeKey × EnvPeer) → List Text
removed_agents agent_keys [] = []
removed_agents agent_keys ((k, external_key j) ∷ es) = removed_agents agent_keys es
removed_agents agent_keys ((k, internal_agent a) ∷ es) =
    let others = removed_agents agent_keys es in
    if member key_eq agent_keys k then others else a ∷ others

-- `labels_from_nodes` of crates/controlplane/src/env/set.rs, in some order.
unfoldable pub labels_from_nodes : {P : Type 0} → States P → List Text
labels_from_nodes [] = []
labels_from_nodes ((k, internal n) ∷ nodes) = set_extend text_eq (labels_from_nodes nodes) n.labels
labels_from_nodes ((k, external n) ∷ nodes) = labels_from_nodes nodes

abbrev pub is_local_key : Option KeySource → Bool
is_local_key (some local) = true
is_local_key _ = false

-- A node as far as its agent is chosen by it.
unfoldable pub choice_of : {P : Type 0} → EnvNodeState P → Pairing.EnvNodeState
choice_of (internal n) =
    Pairing.EnvNodeState.internal
      (record { local_key = is_local_key n.key; labels = n.labels; agent = n.agent })
choice_of (external n) = Pairing.EnvNodeState.external

unfoldable pub choices_of : {P : Type 0} → States P → List (NodeKey × Pairing.EnvNodeState)
unfolding choice_of
choices_of [] = []
choices_of ((k, n) ∷ nodes) = (k, choice_of n) ∷ choices_of nodes

abbrev pub with_internal : NodeKey × Text → NodeKey × EnvPeer
with_internal (k, a) = (k, internal_agent a)

abbrev pub with_external : NodeKey × ExternalNode → NodeKey × EnvPeer
with_external (k, n) = (k, external_key k)

-- The external nodes behind the incoming ones, none of whose keys they may have.
unfoldable pub add_externals :
    {P : Type 0} → Dict NodeKey ExternalNode → States P → Result EnvError (States P)
add_externals [] s = ok s
add_externals ((k, n) ∷ es) s =
    let rest = add_externals es (index_insert key_eq s k (external n)) in
    if is_some (lookup key_eq k s) then err (duplicate_node_key k) else rest

unfoldable pub insert_states : {P : Type 0} → States P → States P → States P
insert_states s [] = s
insert_states s ((k, n) ∷ es) = insert_states (insert key_eq k n s) es

unfoldable pub remove_states : {P : Type 0} → States P → List NodeKey → States P
remove_states s [] = s
remove_states s (k ∷ ks) = remove_states (remove key_eq k s) ks

-- The agents that are not in the list, in their order.
unfoldable pub without : List Text → List Text → List Text
without ids [] = []
without ids (a ∷ agents) =
    let others = without ids agents in if member text_eq ids a then others else a ∷ others

module _ {C S : Type 0} (bits : BitSet S) (pool : Dict Text (Agent C)) where
  -- `AgentMapping::from_agent_id` of the given agents.
  unfoldable pub mappings_of_ids : List Text → List Text → List (AgentMapping S)
  mappings_of_ids labels [] = []
  mappings_of_ids labels (id ∷ ids) =
      let others = mappings_of_ids labels ids in
      elim (lookup text_eq id pool) [
        | none ↦ others
        | some a ↦ record { id = id; mask = agent_mask bits a.flags labels } ∷ others
      ]

  unfoldable pub free_agents : List Text → List Text → List (AgentMapping S)
  unfolding mappings_of_ids
  free_agents labels removed =
      get_agent_mappings bits env_busy (map (λ e. e.1) pool) labels
      ++ mappings_of_ids labels removed

-- The agents whose claim is held by somebody else.
unfoldable pub claimed_agents : {C : Type 0} → Dict Text (Agent C) → List Text
claimed_agents [] = []
claimed_agents ((id, a) ∷ pool) =
    let others = claimed_agents pool in if ltb 1 a.env_claims then id ∷ others else others

-- What `apply` has changed so far: the peers and the states of the nodes, and the agents that are to
-- go back to the inventory.
pub record Applied (M P : Type 0) : Type 0 where
  pub node_peers : M
  pub node_states : States P
  pub to_inventory : List Text

unfoldable pub incoming_peers :
    {M : Type 0} → BiMap M → List (NodeKey × Text) → Dict NodeKey ExternalNode → M
incoming_peers B pairs externals =
    insert_all B (insert_all B B.new (map with_internal pairs)) (map with_external externals)

module _ {M P C S : Type 0} (B : BiMap M) (bits : BitSet S) (pool : Dict Text (Agent C)) where
  -- The pairs of incoming nodes with agents, and which agents were to be freed.
  unfoldable pub pair_incoming : Applied M P → Flattened P → Result EnvError (List (NodeKey × Text))
  unfolding labels_from_nodes choices_of removed_agents free_agents claimed_agents
  pair_incoming s flat =
      let labels = labels_from_nodes flat.incoming in
      let removed = removed_agents flat.agent_keys (B.entries s.node_peers) in
      map_err delegation (
        pair_with_nodes bits (free_agents bits pool labels removed) (choices_of flat.incoming)
          labels (claimed_agents pool))

  -- What is left of the environment, and what comes to it.
  unfoldable pub merge :
      Applied M P → Flattened P → NodesDocument P → List (NodeKey × Text) → States P → Applied M P
  unfolding is_left_out nodes_to_remove without incoming_peers insert_states remove_states
  merge s flat doc pairs incoming =
      let entries = B.entries s.node_peers in
      let left_out = nodes_to_remove (is_left_out flat.agent_keys doc.external_nodes) entries in
      let unused = without (map (λ p. p.1) pairs) (removed_agents flat.agent_keys entries) in
      record {
        node_peers =
            insert_all B (remove_all B s.node_peers left_out)
              (B.entries (incoming_peers B pairs doc.external_nodes));
        node_states =
            insert_states (insert_states (remove_states s.node_states left_out) incoming)
              flat.updated;
        to_inventory = set_extend text_eq s.to_inventory unused;
      }

  -- What `apply` does with a nodes document.
  unfoldable pub apply_nodes : Applied M P → NodesDocument P → Result EnvError (Applied M P)
  unfolding flatten pair_incoming add_externals merge
  apply_nodes s doc =
      and_then
        (flatten B s.node_peers doc.nodes (record { agent_keys = []; incoming = []; updated = [] }))
        λ flat. and_then (pair_incoming s flat) λ pairs.
          and_then (add_externals doc.external_nodes flat.incoming)
            λ incoming. ok (merge s flat doc pairs incoming)
