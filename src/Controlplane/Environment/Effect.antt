-- ===== src/Controlplane/Environment/Effect.antt =====
-- `Environment::apply` of crates/controlplane/src/env/mod.rs as a whole, for the nodes of a document.
use snarkops.Common.Dict.{Dict, lookup}
use snarkops.Common.Index.{member}
use snarkops.Common.Text.{Text}
use snarkops.Controlplane.Agents.{Agent}
use snarkops.Controlplane.Env.BitSet.{BitSet}
use snarkops.Controlplane.Env.Pairing.{pair_with_nodes}
use snarkops.Controlplane.Environment.{
  delegation, NodesDocument, Flattened, Applied, add_externals, apply_nodes, choices_of,
  claimed_agents, flatten, free_agents, labels_from_nodes, merge, pair_incoming, removed_agents,
}
use snarkops.Controlplane.Environment.Consistent.{IsConsistent}
use snarkops.Controlplane.Environment.Merged.{merge-IsConsistent}
use snarkops.Controlplane.Environment.Paired.{is_idle, IsPairedWith, pair-IsPairedWith}
use snarkops.Controlplane.Environment.Peers.{IsBiMap, BiMap, internal_agent, external_key}
use snarkops.Controlplane.Environment.Replicas.{IsFlattened, flatten-IsFlattened, nothing_flattened}
use snarkops.State.NodeKey.{NodeKey, key_eq}
use snarkops.Common.{
  ok, and_then, and_then-eq-ok, ok-injective, map_err-eq-ok, true, false, some, List, [], map, ◌≡◌,
  is_some,
}

abbrev pub no_nodes : {P : Type 0} → Flattened P
no_nodes = record { agent_keys = []; incoming = []; updated = [] }

module _ {M P C S : Type 0} (B : BiMap M) (bits : BitSet S) (pool : Dict Text (Agent C))
    (s : Applied M P) (doc : NodesDocument P) where
  -- What applying a document relies on: the environment is consistent, no key of the document is that
  -- of an internal and of an external node, none of its internal nodes was external, and the agents of
  -- the environment are not in the inventory.
  pub record IsApplicable (flat : Flattened P) : Type 0 where
    pub consistent : IsConsistent B s.node_peers s.node_states
    pub one_kind :
        (k : NodeKey)
        → member key_eq flat.agent_keys k ≡ true
        → is_some (lookup key_eq k doc.external_nodes) ≡ false
    pub same_kind :
        (k j : NodeKey)
        → B.get_by_left s.node_peers k ≡ some (external_key j)
        → member key_eq flat.agent_keys k ≡ false
    pub none_idle :
        (k : NodeKey) (a : Text)
        → B.get_by_left s.node_peers k ≡ some (internal_agent a)
        → is_idle (map (λ e. e.1) pool) a ≡ false

  pair_incoming_sound :
      (flat : Flattened P) (pairs : List (NodeKey × Text))
      → IsFlattened B s.node_peers flat
      → pair_incoming B bits pool s flat ≡ ok pairs
      → IsPairedWith bits pool flat.incoming
          (removed_agents flat.agent_keys (B.entries s.node_peers))
          (labels_from_nodes flat.incoming)
          (claimed_agents pool)
          pairs
  unfolding pair_incoming
  pair_incoming_sound flat pairs v h =
      let labels = labels_from_nodes flat.incoming in
      let removed = removed_agents flat.agent_keys (B.entries s.node_peers) in
      let busy = claimed_agents pool in
      pair-IsPairedWith bits pool flat.incoming removed labels busy pairs v.incoming_dict
        v.incoming_internal
        (map_err-eq-ok
          (pair_with_nodes bits (free_agents bits pool labels removed) (choices_of flat.incoming)
            labels busy)
          delegation h)

  -- If a nodes document is applied to a consistent environment, none of whose agents is in the
  -- inventory, no key of the document is that of an internal and of an external node, and none of its
  -- internal nodes was external, the environment is consistent again: every internal node has an
  -- agent, every external one itself, and no peer is without a node.
  pub apply_nodes-IsConsistent :
      (flat : Flattened P) (t : Applied M P)
      → IsBiMap B
      → flatten B s.node_peers doc.nodes no_nodes ≡ ok flat
      → IsApplicable flat
      → apply_nodes B bits pool s doc ≡ ok t
      → IsConsistent B t.node_peers t.node_states
  unfolding apply_nodes
  apply_nodes-IsConsistent flat t law flattens a h =
      let v =
        flatten-IsFlattened B s.node_peers doc.nodes no_nodes flat
          (nothing_flattened B s.node_peers) flattens in
      let (pairs, paired, h1) =
        and_then-eq-ok (pair_incoming B bits pool s flat)
          (λ ps.
            and_then (add_externals doc.external_nodes flat.incoming)
              (λ incoming. ok (merge B bits pool s flat doc ps incoming)))
          (rw flattens at h) in
      let (incoming, added, h2) =
        and_then-eq-ok (add_externals doc.external_nodes flat.incoming)
          (λ i. ok (merge B bits pool s flat doc pairs i)) h1 in
      rw (← ok-injective h2) (
        merge-IsConsistent B law bits pool s flat doc pairs incoming (record {
          before = a.consistent;
          flattened = v;
          paired = pair_incoming_sound flat pairs v paired;
          added = added;
          kinds_differ = a.one_kind;
          kinds_stay = a.same_kind;
          agents_work = a.none_idle;
        }))
