-- ===== src/Tests/Environments.antt =====
-- Runs of `Environment::apply` of crates/controlplane/src/env/mod.rs.
use snarkops.State.KeySource.{with_index}
use snarkops.Common.Decimal.{to_decimal}
use snarkops.Controlplane.Env.Mask.{insert_labels, insert_if, has_label, agent_mask, node_mask}
use snarkops.Controlplane.Env.Pairing.{
  want_labels, want_ids, settle, pair_all, finish, find_agent, claim_agent, choose_by_mask,
  choose_by_id, pair_with_nodes,
}
use snarkops.State.NodeType.{mask_bit, bit, type_eq}
use snarkops.Common.Text.{text_eq, Text, codes}
use snarkops.Common.Index.{set_extend, index_insert, set_insert, member}
use snarkops.Common.Dict.{remove, insert, lookup}
use snarkops.Controlplane.Agents.{
  is_node_capable, has_addr, can_compute, mode_claims, unclaimed_mapping, is_inventory, new_mapping,
  get_agent_mappings, Agent,
}
use snarkops.Controlplane.Environment.{
  without, replica_node, replica_key, removed_agents, remove_states, place, pair_incoming,
  nodes_to_remove, merge, mappings_of_ids, labels_from_nodes, is_left_out, insert_states,
  incoming_peers, free_agents, claimed_agents, choices_of, choice_of, add_replicas, add_externals,
  apply_nodes, flatten, Applied, Flattened, NodesDocument, internal, external,
}
use snarkops.Controlplane.Environment.Consistent.{IsConsistent}
use snarkops.Controlplane.Environment.Effect.{IsApplicable, apply_nodes-IsConsistent, no_nodes}
use snarkops.Controlplane.Environment.Replicas.{zero_replicas_skipped}
use snarkops.Controlplane.Environment.Peers.{
  remove_all, peer_eq, insert_all, internal_agent, external_key, key_eq_iff,
}
use snarkops.Controlplane.Nodes.{Node}
use snarkops.State.NodeKey.{namespace_eq, is_empty, key_eq}
use snarkops.Format.Net.{ip_v4}
use snarkops.State.HeightRequest.{top}
use snarkops.State.NodeTarget.{no_target}
use snarkops.State.NodeState.{inventory}
use snarkops.Tests.Controlplane.{list_bits, fast, flags, key_a, key_b}
use snarkops.Tests.PeerLog.{
  key_of, collect, changed_keys, Change, added, logged, peer_of, logged-IsBiMap,
}
use snarkops.Common.{true, none, some, ok, List, [], ◌∷◌, ◌≡◌, refl, inl, inr, Bool-cases}

abbrev pub agent_x : Agent Unit
agent_x = record {
  id = codes "x";
  claims = record { claims_id = codes "x"; nonce = 7 };
  connection = some tt;
  state = inventory;
  flags = flags;
  compute_claims = 1;
  env_claims = 1;
  ports = none;
  addrs = some (record { external = some (ip_v4 (127 ∷ 0 ∷ 0 ∷ 1 ∷ [])); internal = [] });
}

abbrev node_a : Node Text
node_a = record {
  online = true;
  replicas = none;
  key = none;
  height = top;
  labels = fast ∷ [];
  agent = none;
  validators = no_target;
  peers = no_target;
  env = [];
  binary = none;
}

abbrev document : NodesDocument Text
document = record {
  external_nodes = (key_b, record { bft = none; node_addr = none; rest = none }) ∷ [];
  nodes = (key_a, node_a) ∷ (key_b, record node_a { replicas = some 0 }) ∷ [];
}

abbrev nothing_applied : Applied (List Change) Text
nothing_applied = record { node_peers = []; node_states = []; to_inventory = [] }

abbrev flattened : Flattened Text
flattened = record {
  agent_keys = key_a ∷ [];
  incoming = (key_a, internal node_a) ∷ [];
  updated = [];
}

flatten_runs : flatten logged [] document.nodes no_nodes ≡ ok flattened
unfolding flatten logged lookup set_insert index_insert
flatten_runs = refl

abbrev applied : Applied (List Change) Text
applied = record {
  node_peers = added key_a (internal_agent (codes "x")) ∷ added key_b (external_key key_b) ∷ [];
  node_states =
      (key_b, external (record { bft = none; node_addr = none; rest = none }))
      ∷ (key_a, internal node_a)
      ∷ [];
  to_inventory = [];
}

apply_runs :
    apply_nodes logged list_bits ((codes "x", agent_x) ∷ []) nothing_applied document ≡ ok applied
unfolding apply_nodes logged lookup pair_with_nodes get_agent_mappings new_mapping is_inventory
    unclaimed_mapping mode_claims index_insert node_mask set_extend text_eq agent_mask bit key_eq
    type_eq to_decimal insert remove member set_insert can_compute has_addr is_node_capable
    has_label insert_if insert_labels choose_by_id choose_by_mask claim_agent find_agent finish
    pair_all settle want_ids want_labels insert_all peer_eq remove_all add_externals add_replicas
    choice_of choices_of claimed_agents flatten free_agents incoming_peers insert_states is_left_out
    labels_from_nodes mappings_of_ids merge nodes_to_remove pair_incoming place remove_states
    removed_agents replica_key replica_node without with_index is_empty namespace_eq mask_bit
    changed_keys collect key_of peer_of
apply_runs = refl

document-IsApplicable :
    IsApplicable logged list_bits ((codes "x", agent_x) ∷ []) nothing_applied document flattened
unfolding member lookup logged peer_of key_eq type_eq text_eq
document-IsApplicable = record {
  consistent = record {
    internal_has_agent = λ k h. absurd (cc h);
    external_is_own = λ k h. absurd (cc h);
    peer_has_state = λ k h. absurd (cc h);
  };
  one_kind = λ k h. elim (Bool-cases (key_eq key_a k)) [
    | inl e ↦ rw (← (key_eq_iff key_a k).0 e) refl
    | inr e ↦ absurd (cc (rw e at h))
  ];
  same_kind = λ k j h. absurd (cc h);
  none_idle = λ k a h. absurd (cc h);
}

apply_nodes-IsConsistent_example : IsConsistent logged applied.node_peers applied.node_states
apply_nodes-IsConsistent_example =
    apply_nodes-IsConsistent logged list_bits ((codes "x", agent_x) ∷ []) nothing_applied document
      flattened applied logged-IsBiMap flatten_runs document-IsApplicable apply_runs

zero_replicas_skipped_example :
    flatten logged [] ((key_b, record node_a { replicas = some 0 }) ∷ []) no_nodes
    ≡ flatten logged [] [] no_nodes
zero_replicas_skipped_example =
    zero_replicas_skipped logged [] key_b (record node_a { replicas = some 0 }) [] no_nodes refl
