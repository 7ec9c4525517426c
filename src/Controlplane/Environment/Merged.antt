-- ===== src/Controlplane/Environment/Merged.antt =====
-- The peers and the states that `Environment::apply` of crates/controlplane/src/env/mod.rs leaves
-- behind, key by key.
use snarkops.Common.Dict.{Dict, lookup}
use snarkops.Common.Index.{member}
use snarkops.Common.Text.{Text}
use snarkops.Controlplane.Agents.{Agent}
use snarkops.Controlplane.Env.BitSet.{BitSet}
use snarkops.Controlplane.Environment.{
  EnvNodeState, external, is_left_out, NodesDocument, Flattened, Applied, States, merge,
}
use snarkops.Controlplane.Environment.Consistent.{
  IsConsistent, IsMerging, is_removed, is_removed-left_out, joining, pair_is_incoming, pair_joins,
  external_joins, joining_origin, kept_joins, entries_agree,
}
use snarkops.Controlplane.Environment.Merging.{
  or_else, state_of, add_externals_sound, add_externals-IsDict, lookup-remove_states,
  lookup-insert_states,
}
use snarkops.Controlplane.Environment.Pairs.{pair_of_key}
use snarkops.Controlplane.Environment.Peers.{
  found_by_insert_all, kept_by_insert_all, origin_of_insert_all, get-remove_all, IsBiMap, BiMap,
  EnvPeer, internal_agent, external_key,
}
use snarkops.Controlplane.Environment.Replicas.{is_internal}
use snarkops.Controlplane.Nodes.{ExternalNode}
use snarkops.State.NodeKey.{NodeKey, key_eq}
use snarkops.Common.{
  ◌⊎◌, Option, none, Option-cases, Bool, true, false, some, List, ◌≡◌, refl, sym, ◌∙◌, inl, inr, ap,
  is_some, Bool-cases, if◌then◌else◌,
}

-- Where the state of a node comes from.
data Origin {P : Type 0} (updated incoming : Option (EnvNodeState P))
    (externals : Option ExternalNode) (old : Option (EnvNodeState P))
    : Option (EnvNodeState P) → Type 0 where
  from_updated : is_some updated ≡ true → Origin updated incoming externals old updated
  from_incoming : is_some incoming ≡ true → Origin updated incoming externals old incoming
  from_external :
      (n : ExternalNode)
      → externals ≡ some n
      → Origin updated incoming externals old (some (external n))
  from_old :
      updated ≡ none
      → incoming ≡ none
      → externals ≡ none
      → Origin updated incoming externals old old

state_comes :
    {P : Type 0} (updated incoming : Option (EnvNodeState P)) (externals : Option ExternalNode)
    (old : Option (EnvNodeState P))
    → Origin updated incoming externals old
        (or_else updated (or_else (or_else incoming (state_of externals)) old))
state_comes (some u) i e old = from_updated refl
state_comes none (some i) e old = from_incoming refl
state_comes none none (some n) old = from_external n refl
state_comes none none none old = from_old refl refl refl

some_behind :
    {P : Type 0} (u i : Option (EnvNodeState P)) (x : Option ExternalNode)
    (old : Option (EnvNodeState P))
    → (is_some i ≡ true) ⊎ ((is_some x ≡ true) ⊎ (is_some old ≡ true))
    → is_some (or_else u (or_else (or_else i (state_of x)) old)) ≡ true
some_behind (some u) i x old h = refl
some_behind none (some i) x old h = refl
some_behind none none (some n) old h = refl
some_behind none none none old (inl h) = absurd (cc h)
some_behind none none none old (inr (inl h)) = absurd (cc h)
some_behind none none none old (inr (inr h)) = h

module _ {M P C S : Type 0} (B : BiMap M) (law : IsBiMap B) (bits : BitSet S)
    (pool : Dict Text (Agent C)) (s : Applied M P) (flat : Flattened P) (doc : NodesDocument P)
    (pairs : List (NodeKey × Text)) (incoming : States P) {labels busy : List Text}
    (v : IsMerging B law bits pool s flat doc pairs incoming labels busy) where
  abbrev merged : Applied M P
  merged = merge B bits pool s flat doc pairs incoming

  abbrev gone : NodeKey → Bool
  gone = is_removed B law bits pool s flat doc pairs incoming

  abbrev old_state : NodeKey → Option (EnvNodeState P)
  old_state k = if gone k then none else lookup key_eq k s.node_states

  merged_state :
      (k : NodeKey)
      → lookup key_eq k merged.node_states
        ≡ or_else (lookup key_eq k flat.updated) (
            or_else
              (or_else
                (lookup key_eq k flat.incoming)
                (state_of (lookup key_eq k doc.external_nodes)))
              (old_state k))
  unfolding merge
  merged_state k =
      let dict =
        add_externals-IsDict doc.external_nodes flat.incoming incoming v.flattened.incoming_dict
          v.added in
      let found = (add_externals_sound doc.external_nodes flat.incoming incoming k v.added).0 in
      rw
        (
          lookup-insert_states _ flat.updated k v.flattened.updated_dict,
          lookup-insert_states _ incoming k dict,
          lookup-remove_states s.node_states _ k,
          found,
        )
        refl

  pair_has_agent :
      (k : NodeKey)
      → is_some (lookup key_eq k flat.incoming) ≡ true
      → (a : Text) × (B.get_by_left merged.node_peers k ≡ some (internal_agent a))
  unfolding merge
  pair_has_agent k h =
      let (a, i) = pair_of_key pairs k (v.paired.keys_incoming k ∙ h) in
      let joins = pair_joins B law bits pool s flat doc pairs incoming v k a i in
      let m = joining B law bits pool s flat doc pairs incoming v in
      (
        a,
        found_by_insert_all B law _ (B.entries m) k (internal_agent a)
            ((law.in-entries_iff m k (internal_agent a)).1 joins)
            (entries_agree B law m k (internal_agent a) joins),
      )

  external_has_itself :
      (k : NodeKey)
      → is_some (lookup key_eq k doc.external_nodes) ≡ true
      → B.get_by_left merged.node_peers k ≡ some (external_key k)
  unfolding merge
  external_has_itself k h =
      let joins = external_joins B law bits pool s flat doc pairs incoming v k h in
      let m = joining B law bits pool s flat doc pairs incoming v in
      found_by_insert_all B law _ (B.entries m) k (external_key k)
        ((law.in-entries_iff m k (external_key k)).1 joins)
        (entries_agree B law m k (external_key k) joins)

  wanted_not_gone :
      (k : NodeKey) (a : Text)
      → member key_eq flat.agent_keys k ≡ true
      → B.get_by_left s.node_peers k ≡ some (internal_agent a)
      → gone k ≡ false
  unfolding is_left_out
  wanted_not_gone k a wanted h =
      is_removed-left_out B law bits pool s flat doc pairs incoming k (internal_agent a) h
      ∙ rw wanted refl

  kept_agent :
      (k : NodeKey) (a : Text)
      → member key_eq flat.agent_keys k ≡ true
      → B.get_by_left s.node_peers k ≡ some (internal_agent a)
      → B.get_by_left merged.node_peers k ≡ some (internal_agent a)
  unfolding merge
  kept_agent k a wanted h =
      let m = joining B law bits pool s flat doc pairs incoming v in
      kept_by_insert_all B law _ (B.entries m) k (internal_agent a)
        (get-remove_all B law s.node_peers _ k ∙ rw (wanted_not_gone k a wanted h) h)
        (kept_joins B law bits pool s flat doc pairs incoming v k a wanted h)

  -- A node that is updated has its agent from before.
  updated_has_agent :
      (k : NodeKey)
      → is_some (lookup key_eq k flat.updated) ≡ true
      → (a : Text) × (B.get_by_left merged.node_peers k ≡ some (internal_agent a))
  updated_has_agent k h =
      let wanted : member key_eq flat.agent_keys k ≡ true = v.flattened.keys_placed k ∙ rw h refl in
      elim (Option-cases (B.get_by_left s.node_peers k)) [
        | inl e ↦ absurd (cc (ap is_some e, v.flattened.updated_present k h))
        | inr (internal_agent a, e) ↦ (a, kept_agent k a wanted e)
        | inr (external_key j, e) ↦ absurd (cc (v.kinds_stay k j e, wanted))
      ]

  not_wanted :
      (k : NodeKey)
      → lookup key_eq k flat.updated ≡ none
      → lookup key_eq k flat.incoming ≡ none
      → member key_eq flat.agent_keys k ≡ false
  not_wanted k u i = v.flattened.keys_placed k ∙ rw (u, i) refl

  -- A state that was there before and is not overwritten is not removed.
  old_gone :
      (k : NodeKey) (p : EnvPeer)
      → B.get_by_left s.node_peers k ≡ some p
      → lookup key_eq k flat.updated ≡ none
      → lookup key_eq k flat.incoming ≡ none
      → lookup key_eq k doc.external_nodes ≡ none
      → gone k ≡ true
  unfolding is_left_out
  old_gone k (internal_agent a) h u i x =
      is_removed-left_out B law bits pool s flat doc pairs incoming k (internal_agent a) h
      ∙ rw (not_wanted k u i) refl
  old_gone k (external_key j) h u i x =
      is_removed-left_out B law bits pool s flat doc pairs incoming k (external_key j) h ∙ rw x refl

  StateOrigin : NodeKey → Option (EnvNodeState P) → Type 0
  StateOrigin k =
      Origin (lookup key_eq k flat.updated) (lookup key_eq k flat.incoming)
        (lookup key_eq k doc.external_nodes) (old_state k)

  old_not_gone : (k : NodeKey) → is_some (old_state k) ≡ true → gone k ≡ false
  old_not_gone k h = elim (Bool-cases (gone k)) [ inl e ↦ absurd (cc (rw e at h)) | inr e ↦ e ]

  state_has_agent :
      (k : NodeKey) (x : Option (EnvNodeState P))
      → StateOrigin k x
      → is_some x ≡ true
      → is_internal x ≡ true
      → (a : Text) × (B.get_by_left merged.node_peers k ≡ some (internal_agent a))
  unfolding StateOrigin
  state_has_agent k _ (from_updated u) h i = updated_has_agent k u
  state_has_agent k _ (from_incoming u) h i = pair_has_agent k u
  state_has_agent k _ (from_external n e) h i = absurd (cc i)
  state_has_agent k _ (from_old u n x) h i =
      let stays = old_not_gone k h in
      let (a, g) = v.before.internal_has_agent k (rw stays at h) (rw stays at i) in
      absurd (cc (stays, old_gone k (internal_agent a) g u n x))

  state_is_own :
      (k : NodeKey) (x : Option (EnvNodeState P))
      → StateOrigin k x
      → is_internal x ≡ false
      → B.get_by_left merged.node_peers k ≡ some (external_key k)
  unfolding StateOrigin
  state_is_own k _ (from_updated u) i = absurd (cc (v.flattened.updated_internal k, i))
  state_is_own k _ (from_incoming u) i = absurd (cc (v.flattened.incoming_internal k, i))
  state_is_own k _ (from_external n e) i = external_has_itself k (ap is_some e)
  state_is_own k _ (from_old u n x) i = elim (Bool-cases (gone k)) [
    | inl e ↦ absurd (cc (rw e at i))
    | inr e ↦
        let g = v.before.external_is_own k (rw e at i) in
        absurd (cc (e, old_gone k (external_key k) g u n x))
  ]

  state_of_incoming :
      (k : NodeKey)
      → is_some (lookup key_eq k flat.incoming) ≡ true
      → is_some (lookup key_eq k merged.node_states) ≡ true
  state_of_incoming k h = rw (merged_state k) (some_behind _ _ _ _ (inl h))

  state_of_external :
      (k : NodeKey)
      → is_some (lookup key_eq k doc.external_nodes) ≡ true
      → is_some (lookup key_eq k merged.node_states) ≡ true
  state_of_external k h = rw (merged_state k) (some_behind _ _ _ _ (inr (inl h)))

  state_of_old :
      (k : NodeKey) (w : EnvPeer)
      → (if gone k then none else B.get_by_left s.node_peers k) ≡ some w
      → is_some (lookup key_eq k merged.node_states) ≡ true
  state_of_old k w h = elim (Bool-cases (gone k)) [
    | inl e ↦ absurd (cc (rw e at h))
    | inr e ↦
        let found = v.before.peer_has_state k (ap is_some (rw e at h)) in
        let old : is_some (old_state k) ≡ true = rw e found in
        rw (merged_state k) (some_behind _ _ _ _ (inr (inr old)))
  ]

  peer_is_node :
      (k : NodeKey) (w : EnvPeer)
      → B.get_by_left merged.node_peers k ≡ some w
      → is_some (lookup key_eq k merged.node_states) ≡ true
  unfolding merge
  peer_is_node k w h =
      let m = joining B law bits pool s flat doc pairs incoming v in
      elim (origin_of_insert_all B law _ (B.entries m) k w h) [
        | inl o ↦
            elim (joining_origin B law bits pool s flat doc pairs incoming v k w
              ((law.in-entries_iff m k w).0 o)) [
                | inl (a, i, e) ↦
                    state_of_incoming k
                      (pair_is_incoming B law bits pool s flat doc pairs incoming v k a i)
                | inr (found, own) ↦ state_of_external k found
              ]
        | inr o ↦ state_of_old k w (sym (get-remove_all B law s.node_peers _ k) ∙ o)
      ]

  -- A merge leaves an internal node with an agent, an external one with itself, and no peer without a
  -- node.
  pub merge-IsConsistent : IsConsistent B merged.node_peers merged.node_states
  unfolding StateOrigin
  merge-IsConsistent = record {
    internal_has_agent = λ k h i.
        state_has_agent k _ (state_comes _ _ _ _) (rw (merged_state k) at h)
          (rw (merged_state k) at i);
    external_is_own = λ k i. state_is_own k _ (state_comes _ _ _ _) (rw (merged_state k) at i);
    peer_has_state = λ k h. elim (Option-cases (B.get_by_left merged.node_peers k)) [
      | inl e ↦ absurd (cc (ap is_some e, h))
      | inr (w, e) ↦ peer_is_node k w e
    ];
  }
