-- ===== src/Controlplane/Environment/Consistent.antt =====
-- What crates/controlplane/src/env/mod.rs keeps of the nodes of an environment: which node has which
-- peer.
use snarkops.Controlplane.Env.BitSet.{BitSet}
use snarkops.Common.Dict.{Dict, lookup}
use snarkops.Common.Index.{member}
use snarkops.Common.Text.{Text, text_eq}
use snarkops.Controlplane.Agents.{Agent}
use snarkops.Controlplane.Environment.{
  add_externals, is_left_out, nodes_to_remove, incoming_peers, NodesDocument, Flattened, Applied,
  States, removed_agents, with_internal, with_external,
}
use snarkops.Controlplane.Environment.Merging.{
  left_out_of_member, member_of_left_out, add_externals_sound,
}
use snarkops.Controlplane.Environment.Paired.{IsPairedWith, is_idle}
use snarkops.Controlplane.Environment.Peers.{
  IsCompatible, found_by_insert_all, kept_by_insert_all, origin_of_insert_all, IsBiMap, BiMap,
  EnvPeer, internal_agent, external_key,
}
use snarkops.Controlplane.Environment.Replicas.{IsFlattened, is_internal, is_present}
use snarkops.Controlplane.Environment.Pairs.{
  has_key_of_pair, one_agent, one_key, internal_origin, internal_of_pair, external_origin,
  external_of_key, removed_origin,
}
use snarkops.State.NodeKey.{NodeKey, key_eq}
use mathlib.Core.Option.{some-injective}
use snarkops.Common.{
  In, ◌⊎◌, ◌↔◌, Bool, true, false, ok, All, ◌||◌, some, List, [], ◌∷◌, map, ◌≡◌, sym, ◌∙◌, inl, inr,
  ap, is_some, Bool-cases,
}

-- An internal node has an agent, an external one is its own peer, and every peer has a node.
pub record IsConsistent {M P : Type 0} (B : BiMap M) (peers : M) (states : States P) : Type 0 where
  pub internal_has_agent :
      (k : NodeKey)
      → is_some (lookup key_eq k states) ≡ true
      → is_internal (lookup key_eq k states) ≡ true
      → (a : Text) × (B.get_by_left peers k ≡ some (internal_agent a))
  pub external_is_own :
      (k : NodeKey)
      → is_internal (lookup key_eq k states) ≡ false
      → B.get_by_left peers k ≡ some (external_key k)
  pub peer_has_state :
      (k : NodeKey) → is_present B peers k ≡ true → is_some (lookup key_eq k states) ≡ true

All-In : {A : Type 0} (p : A → Type 0) (xs : List A) (x : A) → All p xs → In x xs → p x
All-In p [] x h i = elim i [ ]
All-In p (y ∷ xs) x h (inl e) = rw (← e) h.0
All-In p (y ∷ xs) x h (inr i) = All-In p xs x h.1 i

one_key_of :
    {M : Type 0} (B : BiMap M) (law : IsBiMap B) (m : M) (j k : NodeKey) (v : EnvPeer)
    → B.get_by_left m j ≡ some v
    → B.get_by_left m k ≡ some v
    → j ≡ k
one_key_of B law m j k v g h =
    some-injective _ _ (sym ((law.get_by_right_iff m j v).1 g) ∙ (law.get_by_right_iff m k v).1 h)

-- What a peer set has agrees with all of it.
pub entries_agree :
    {M : Type 0} (B : BiMap M) (law : IsBiMap B) (m : M) (k : NodeKey) (v : EnvPeer)
    → B.get_by_left m k ≡ some v
    → IsCompatible B k v (B.entries m)
entries_agree B law m k v h = λ j w i.
    let g = (law.in-entries_iff m j w).0 i in
    (
      λ same. some-injective _ _ (sym g ∙ ap (B.get_by_left m) same ∙ h),
      λ same. one_key_of B law m j k v (g ∙ ap (λ x. some x) same) h,
    )

module _ {M P C S : Type 0} (B : BiMap M) (law : IsBiMap B) (bits : BitSet S)
    (pool : Dict Text (Agent C)) (s : Applied M P) (flat : Flattened P) (doc : NodesDocument P)
    (pairs : List (NodeKey × Text)) (incoming : States P) where
  abbrev peers_before : List (NodeKey × EnvPeer)
  peers_before = B.entries s.node_peers

  abbrev left_out : NodeKey × EnvPeer → Bool
  left_out = is_left_out flat.agent_keys doc.external_nodes

  abbrev pub is_removed : NodeKey → Bool
  is_removed k = member key_eq (nodes_to_remove left_out peers_before) k

  -- What a merge relies on: the environment was consistent, the replicas are flattened and paired, no
  -- name is used for an internal and an external node at once or one after the other, and the agents
  -- of the environment are not in the inventory.
  pub record IsMerging (labels busy : List Text) : Type 0 where
    pub before : IsConsistent B s.node_peers s.node_states
    pub flattened : IsFlattened B s.node_peers flat
    pub paired :
        IsPairedWith bits pool flat.incoming
          (removed_agents flat.agent_keys peers_before)
          labels
          busy
          pairs
    pub added : add_externals doc.external_nodes flat.incoming ≡ ok incoming
    pub kinds_differ :
        (k : NodeKey)
        → member key_eq flat.agent_keys k ≡ true
        → is_some (lookup key_eq k doc.external_nodes) ≡ false
    pub kinds_stay :
        (k j : NodeKey)
        → B.get_by_left s.node_peers k ≡ some (external_key j)
        → member key_eq flat.agent_keys k ≡ false
    pub agents_work :
        (k : NodeKey) (a : Text)
        → B.get_by_left s.node_peers k ≡ some (internal_agent a)
        → is_idle (map (λ e. e.1) pool) a ≡ false

  entry_iff :
      (k : NodeKey) (v : EnvPeer) → In (k, v) peers_before ↔ (B.get_by_left s.node_peers k ≡ some v)
  entry_iff k v = law.in-entries_iff s.node_peers k v

  -- A peer is removed exactly if it is left out.
  pub is_removed-left_out :
      (k : NodeKey) (v : EnvPeer)
      → B.get_by_left s.node_peers k ≡ some v
      → is_removed k ≡ left_out (k, v)
  is_removed-left_out k v h = elim (Bool-cases (is_removed k)) [
    | inl e ↦
        let (w, i, out) = left_out_of_member left_out peers_before k e in
        let same : w ≡ v = some-injective _ _ (sym ((entry_iff k w).0 i) ∙ h) in
        e ∙ sym (rw (← same) out)
    | inr e ↦ elim (Bool-cases (left_out (k, v))) [
      | inr f ↦ e ∙ sym f
      | inl f ↦
          let out = member_of_left_out left_out peers_before k v ((entry_iff k v).1 h) f in
          absurd (cc (e, out))
    ]
  ]

  module _ {labels busy : List Text} (v : IsMerging labels busy) where
    abbrev pub joining : M
    joining = incoming_peers B pairs doc.external_nodes

    pub pair_is_incoming :
        (k : NodeKey) (a : Text) → In (k, a) pairs → is_some (lookup key_eq k flat.incoming) ≡ true
    pair_is_incoming k a i = sym (v.paired.keys_incoming k) ∙ has_key_of_pair pairs k a i

    external_not_incoming :
        (k : NodeKey)
        → is_some (lookup key_eq k doc.external_nodes) ≡ true
        → is_some (lookup key_eq k flat.incoming) ≡ false
    external_not_incoming k h =
        ap is_some ((add_externals_sound doc.external_nodes flat.incoming incoming k v.added).1 h)

    pub pair_joins :
        (k : NodeKey) (a : Text)
        → In (k, a) pairs
        → B.get_by_left joining k ≡ some (internal_agent a)
    unfolding incoming_peers
    pair_joins k a i =
        let among : IsCompatible B k (internal_agent a) (map with_internal pairs) = λ j w h.
          let (b, l, e) = internal_origin pairs j w h in
          (
            λ same.
                e
                ∙ ap internal_agent
                    (one_agent pairs k b a v.paired.keys_distinct (rw (← same) l) i),
            λ same.
                let agents : b ≡ a = cc (e, same) in
                one_key busy pairs j k a v.paired.agents_fresh (rw (← agents) l) i,
          ) in
        let apart : IsCompatible B k (internal_agent a) (map with_external doc.external_nodes) =
          λ j w h.
            let (found, own) = external_origin doc.external_nodes j w h in
            (
              λ same.
                  let no = external_not_incoming k (rw (← same) found) in
                  absurd (cc (no, pair_is_incoming k a i)),
              λ same. absurd (cc (own, same)),
            ) in
        kept_by_insert_all B law _ (map with_external doc.external_nodes) k (internal_agent a)
          (found_by_insert_all B law B.new (map with_internal pairs) k (internal_agent a)
            (internal_of_pair pairs k a i) among)
          apart

    pub external_joins :
        (k : NodeKey)
        → is_some (lookup key_eq k doc.external_nodes) ≡ true
        → B.get_by_left joining k ≡ some (external_key k)
    unfolding incoming_peers
    external_joins k h =
        found_by_insert_all B law _ (map with_external doc.external_nodes) k (external_key k)
          (external_of_key doc.external_nodes k h)
          (λ j w i.
            let (found, own) = external_origin doc.external_nodes j w i in
            (λ same. own ∙ ap external_key same, λ same. cc (own, same)))

    pub joining_origin :
        (k : NodeKey) (w : EnvPeer)
        → B.get_by_left joining k ≡ some w
        → ((a : Text) × In (k, a) pairs × (w ≡ internal_agent a))
          ⊎ ((is_some (lookup key_eq k doc.external_nodes) ≡ true) × (w ≡ external_key k))
    unfolding incoming_peers
    joining_origin k w h =
        elim (origin_of_insert_all B law _ (map with_external doc.external_nodes) k w h) [
          | inl i ↦ inr (external_origin doc.external_nodes k w i)
          | inr g ↦ elim (origin_of_insert_all B law B.new (map with_internal pairs) k w g) [
            | inl i ↦ inl (internal_origin pairs k w i)
            | inr n ↦ absurd (cc (law.get-new k, n))
          ]
        ]

    -- A node that has an agent and is not incoming keeps its agent, if it is wanted.
    pub kept_joins :
        (k : NodeKey) (a : Text)
        → member key_eq flat.agent_keys k ≡ true
        → B.get_by_left s.node_peers k ≡ some (internal_agent a)
        → IsCompatible B k (internal_agent a) (B.entries joining)
    kept_joins k a wanted h = λ j w i.
        elim (joining_origin j w ((law.in-entries_iff joining j w).0 i)) [
          | inl (b, l, e) ↦ (
            λ same. absurd (
                cc (
                  v.flattened.incoming_absent k (rw (← same) (pair_is_incoming j b l)),
                  ap is_some h,
                )),
            λ same.
                let agents : b ≡ a = cc (e, same) in
                let may : (is_idle (map (λ e. e.1) pool) b
                      || member text_eq (removed_agents flat.agent_keys peers_before) b)
                    ≡ true =
                  All-In _ pairs (j, b) v.paired.agents_free l in
                let work = v.agents_work k a h in
                let freed : member text_eq (removed_agents flat.agent_keys peers_before) a ≡ true =
                  rw (agents, work) at may in
                let (m, o, out) = removed_origin flat.agent_keys peers_before a freed in
                let same_key : m ≡ k =
                  one_key_of B law s.node_peers m k (internal_agent a)
                    ((entry_iff m (internal_agent a)).0 o) h in
                absurd (cc (out, ap (member key_eq flat.agent_keys) same_key, wanted)),
          )
          | inr (found, own) ↦ (
            λ same. absurd (
                cc (
                  v.kinds_differ k wanted,
                  ap (λ x. is_some (lookup key_eq x doc.external_nodes)) same,
                  found,
                )),
            λ same. absurd (cc (own, same)),
          )
        ]
