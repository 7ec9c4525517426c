-- ===== src/Controlplane/Env/Pairing/Every.antt =====
-- The nodes of an environment, one by one, in a pairing by crates/controlplane/src/env/set.rs.
use mathlib.Core.List.{Mem}
use snarkops.Common.Text.{Text}
use snarkops.Controlplane.Env.BitSet.{BitSet}
use snarkops.Controlplane.Env.Mask.{Node, node_mask}
use snarkops.Controlplane.Env.Pairing.{
  AgentMapping, EnvNodeState, Pairs, choose_by_id, choose_by_mask, external, internal, pair_all,
  pair_with_nodes, want_ids, want_labels, find_agent,
}
use snarkops.Controlplane.Env.Pairing.Assigned.{
  pair_with_nodes_sound, finish_ok, find_agent_sound, claim_agent_sound, choose_by_mask_sound,
}
use snarkops.Controlplane.Env.Pairing.Served.{IsFresh, pair_all_keys}
use snarkops.Controlplane.Env.Pairing.Chosen.{claimed_stays, claimed_from, found_for_each}
use snarkops.State.NodeKey.{NodeKey}
use snarkops.State.NodeType.{bit}
use snarkops.Common.{
  In, ltb, length, length-append, Bool-cases, ◌≡◌, ◌∙◌, ◌+◌, map, List, [], ◌∷◌, Option,
  Option-cases, none, some, ok, true, inl, inr, refl, sym, ap, suc, ℕ, arith,
}

length-map : {A C : Type 0} (f : A → C) (xs : List A) → length (map f xs) ≡ length xs
length-map f [] = refl
length-map f (x ∷ xs) = ap suc (length-map f xs)

abbrev node_or : Node → EnvNodeState → Node
node_or m external = m
node_or m (internal n) = n

-- The nodes that are not external.
abbrev pub count_internal : List (NodeKey × EnvNodeState) → ℕ
count_internal [] = 0
count_internal ((key, external) ∷ nodes) = count_internal nodes
count_internal ((key, internal n) ∷ nodes) = suc (count_internal nodes)

module _ {S : Type 0} (B : BitSet S) (agents : List (AgentMapping S)) (labels : List Text) where
  -- An agent suits a node: it is the one that the node asks for, and has the node's mode, or the node
  -- asks for none, and the agent's mask has all that the node's mask has.
  abbrev pub Suits : NodeKey → Node → Option Text → AgentMapping S → Type 0
  Suits key n none a = B.is_subset (node_mask B n key.ty labels) a.mask ≡ true
  Suits key n (some want) a = (a.id ≡ want) × (B.contains a.mask (bit key.ty) ≡ true)

  -- What a pairing of nodes promises.
  pub record IsDelegated (nodes : List (NodeKey × EnvNodeState)) (busy : List Text)
      (pairs : List (NodeKey × Text)) : Type 0 where
    pub each_served :
        (key : NodeKey) (n : Node)
        → In (key, internal n) nodes
        → (a : AgentMapping S) × Mem a agents × Suits key n n.agent a × In (key, a.id) pairs
    pub each_from_node :
        (key : NodeKey) (id : Text)
        → In (key, id) pairs
        → (n : Node) × (a : AgentMapping S) × In (key, internal n) nodes
          × Mem a agents
          × (a.id ≡ id)
          × Suits key n n.agent a
    pub as_many : length pairs ≡ count_internal nodes
    pub agents_fresh : IsFresh busy pairs

  wants_id :
      (nodes : List (NodeKey × EnvNodeState)) (key : NodeKey) (n : Node) (want : Text)
      → In (key, internal n) nodes
      → n.agent ≡ some want
      → In (key, want) (want_ids B nodes)
  unfolding want_ids
  wants_id [] key n want i e = elim i [ ]
  wants_id ((k, external) ∷ nodes) key n want (inl q) e = absurd (cc (ap (λ x. x.1) q))
  wants_id ((k, external) ∷ nodes) key n want (inr i) e = wants_id nodes key n want i e
  wants_id ((k, internal m) ∷ nodes) key n want (inl q) e =
      let own : m.agent ≡ some want = ap (λ x. (node_or m x.1).agent) q ∙ e in
      rw own (inl (ap (λ x. (x.0, want)) q))
  wants_id ((k, internal m) ∷ nodes) key n want (inr i) e =
      let onward = wants_id nodes key n want i e in
      elim (Option-cases m.agent) [ inl f ↦ rw f onward | inr (w, f) ↦ rw f (inr onward) ]

  wants_labels :
      (nodes : List (NodeKey × EnvNodeState)) (key : NodeKey) (n : Node)
      → In (key, internal n) nodes
      → n.agent ≡ none
      → In (key, node_mask B n key.ty labels) (want_labels B labels nodes)
  unfolding want_labels
  wants_labels [] key n i e = elim i [ ]
  wants_labels ((k, external) ∷ nodes) key n (inl q) e = absurd (cc (ap (λ x. x.1) q))
  wants_labels ((k, external) ∷ nodes) key n (inr i) e = wants_labels nodes key n i e
  wants_labels ((k, internal m) ∷ nodes) key n (inl q) e =
      let own : m.agent ≡ none = ap (λ x. (node_or m x.1).agent) q ∙ e in
      rw own (inl (ap (λ x. (x.0, node_mask B (node_or m x.1) x.0.ty labels)) q))
  wants_labels ((k, internal m) ∷ nodes) key n (inr i) e =
      let onward = wants_labels nodes key n i e in
      elim (Option-cases m.agent) [ inl f ↦ rw f (inr onward) | inr (w, f) ↦ rw f onward ]

  want_ids_from :
      (nodes : List (NodeKey × EnvNodeState)) (w : NodeKey × Text)
      → In w (want_ids B nodes)
      → (n : Node) × In (w.0, internal n) nodes × (n.agent ≡ some w.1)
  unfolding want_ids
  want_ids_from [] w i = elim i [ ]
  want_ids_from ((k, external) ∷ nodes) w i =
      let (n, j, e) = want_ids_from nodes w i in (n, inr j, e)
  want_ids_from ((k, internal m) ∷ nodes) w i = elim (Option-cases m.agent) [
    | inl f ↦ let (n, j, e) = want_ids_from nodes w (rw f at i) in (n, inr j, e)
    | inr (id, f) ↦
        let opened : In w ((k, id) ∷ want_ids B nodes) = rw f at i in
        elim opened [
          | inl q ↦ (m, inl (ap (λ x. (x.0, internal m)) q), f ∙ ap (λ x. some x.1) q)
          | inr j ↦ let (n, l, e) = want_ids_from nodes w j in (n, inr l, e)
        ]
  ]

  want_labels_from :
      (nodes : List (NodeKey × EnvNodeState)) (w : NodeKey × S)
      → In w (want_labels B labels nodes)
      → (n : Node) × In (w.0, internal n) nodes
        × (n.agent ≡ none)
        × (w.1 ≡ node_mask B n w.0.ty labels)
  unfolding want_labels
  want_labels_from [] w i = elim i [ ]
  want_labels_from ((k, external) ∷ nodes) w i =
      let (n, j, e, mask) = want_labels_from nodes w i in (n, inr j, e, mask)
  want_labels_from ((k, internal m) ∷ nodes) w i = elim (Option-cases m.agent) [
    | inr (id, f) ↦
        let (n, j, e, mask) = want_labels_from nodes w (rw f at i) in (n, inr j, e, mask)
    | inl f ↦
        let opened : In w ((k, node_mask B m k.ty labels) ∷ want_labels B labels nodes) =
          rw f at i in
        elim opened [
          | inl q ↦ (
            m,
            inl (ap (λ x. (x.0, internal m)) q),
            f,
            sym (ap (λ x. x.1) q) ∙ ap (λ x. node_mask B m x.0.ty labels) q,
          )
          | inr j ↦ let (n, l, e, mask) = want_labels_from nodes w j in (n, inr l, e, mask)
        ]
  ]

  wants_counted :
      (nodes : List (NodeKey × EnvNodeState))
      → length (want_ids B nodes) + length (want_labels B labels nodes) ≡ count_internal nodes
  unfolding want_ids want_labels
  wants_counted [] = refl
  wants_counted ((k, external) ∷ nodes) = wants_counted nodes
  wants_counted ((k, internal m) ∷ nodes) =
      let onward = wants_counted nodes in
      elim (Option-cases m.agent) [
        | inl f ↦ rw f (omega (arith, onward))
        | inr (id, f) ↦ rw f (omega (arith, onward))
      ]

  -- What a choice by an identifier, and one by a mask, gives.
  id_choice :
      (key : NodeKey) (want id : Text) (held : List Text)
      → choose_by_id B agents held (key, want) ≡ ok id
      → (a : AgentMapping S) × Mem a agents
        × (a.id ≡ id)
        × (a.id ≡ want)
        × (B.contains a.mask (bit key.ty) ≡ true)
  unfolding choose_by_id
  id_choice key want id held h = elim (Option-cases (find_agent B want agents)) [
    | inl e ↦ absurd (cc (rw (e, choose_by_id) at h))
    | inr (a, e) ↦
        let (found, named) = find_agent_sound B agents want agents a e in
        let (asked, free, mode) =
          claim_agent_sound B agents held key want id a (rw (e, choose_by_id) at h) in
        (a, found, named ∙ sym asked, named, mode)
  ]

  id_choice_fits :
      (key : NodeKey) (n : Node) (want : Text) (a : AgentMapping S)
      → n.agent ≡ some want
      → a.id ≡ want
      → B.contains a.mask (bit key.ty) ≡ true
      → Suits key n n.agent a
  id_choice_fits key n want a e named mode = rw e (named, mode)

  mask_choice_fits :
      (key : NodeKey) (n : Node) (a : AgentMapping S)
      → n.agent ≡ none
      → B.is_subset (node_mask B n key.ty labels) a.mask ≡ true
      → Suits key n n.agent a
  mask_choice_fits key n a e fits = simp e fits

  module _ (nodes : List (NodeKey × EnvNodeState)) (busy : List Text) where
    abbrev by_id : Pairs
    by_id =
        pair_all (choose_by_id B agents) (want_ids B nodes)
          (record { claimed = []; errors = []; busy = busy })

    abbrev by_mask : Pairs
    by_mask = pair_all (choose_by_mask B agents) (want_labels B labels nodes) by_id

    node_served :
        (key : NodeKey) (n : Node)
        → by_mask.errors ≡ []
        → In (key, internal n) nodes
        → (a : AgentMapping S) × Mem a agents
          × Suits key n n.agent a
          × In (key, a.id) by_mask.claimed
    node_served key n clear i =
        let masks = want_labels B labels nodes in
        let (before, _) = pair_all_keys (choose_by_mask B agents) masks by_id clear in
        elim (Option-cases n.agent) [
          | inr (want, e) ↦
              let (id, c, j) =
                found_for_each (choose_by_id B agents) (want_ids B nodes) _ (key, want) before
                  (wants_id nodes key n want i e) in
              let (a, m, named, asked, mode) = id_choice key want id c.busy c.chosen in
              let claimed = claimed_stays (choose_by_mask B agents) masks by_id (key, id) j in
              (a, m, id_choice_fits key n want a e asked mode, rw named claimed)
          | inl e ↦
              let mask = node_mask B n key.ty labels in
              let (id, c, j) =
                found_for_each (choose_by_mask B agents) masks by_id (key, mask) clear
                  (wants_labels nodes key n i e) in
              let (a, m, named, _, fits) =
                choose_by_mask_sound B agents agents key mask c.busy id c.chosen in
              (a, m, mask_choice_fits key n a e fits, rw named j)
        ]

    pair_from_node :
        (key : NodeKey) (id : Text)
        → In (key, id) by_mask.claimed
        → (n : Node) × (a : AgentMapping S) × In (key, internal n) nodes
          × Mem a agents
          × (a.id ≡ id)
          × Suits key n n.agent a
    pair_from_node key id i =
        elim (claimed_from (choose_by_mask B agents) (want_labels B labels nodes) by_id (key, id)
          i) [
            | inr (w, j, c) ↦
                let (n, l, e, mask) = want_labels_from nodes w j in
                let (a, m, named, _, fits) =
                  choose_by_mask_sound B agents agents w.0 w.1 c.busy id c.chosen in
                let right : Suits w.0 n n.agent a = mask_choice_fits w.0 n a e (rw mask at fits) in
                rw (← c.own_key) (n, a, l, m, named, right)
            | inl j ↦ elim (claimed_from (choose_by_id B agents) (want_ids B nodes) _ (key, id) j) [
              | inl k ↦ elim k [ ]
              | inr (w, k, c) ↦
                  let (n, l, e) = want_ids_from nodes w k in
                  let (a, m, named, asked, mode) = id_choice w.0 w.1 id c.busy c.chosen in
                  let right : Suits w.0 n n.agent a = id_choice_fits w.0 n w.1 a e asked mode in
                  rw (← c.own_key) (n, a, l, m, named, right)
            ]
          ]

    -- If the pairing succeeds, every node that is not external is paired with an agent of the pool
    -- that suits it: the one that it asks for, with its mode, or, if it asks for none, one whose mask
    -- has all that the node's mask has. Every pair comes from such a node, there are as many pairs as
    -- such nodes, no agent is in two pairs, and none was busy before.
    pub pair_with_nodes-IsDelegated :
        (pairs : List (NodeKey × Text))
        → pair_with_nodes B agents nodes labels busy ≡ ok pairs
        → IsDelegated nodes busy pairs
    unfolding pair_with_nodes
    pair_with_nodes-IsDelegated pairs h =
        let ids = want_ids B nodes in
        let masks = want_labels B labels nodes in
        let (keys, fresh, _) = pair_with_nodes_sound B agents nodes labels busy pairs h in
        elim (Bool-cases (ltb (length agents) (length ids + length masks))) [
          | inl few ↦ absurd (cc (rw few at h))
          | inr enough ↦
              let (clear, same) = finish_ok B agents by_mask pairs (rw enough at h) in
              record {
                each_served = λ key n i. rw (← same) (node_served key n clear i);
                each_from_node = λ key id i. pair_from_node key id (rw (← same) at i);
                as_many = omega (
                  arith,
                  ap length keys,
                  length-append (map (λ w. w.0) ids) (map (λ w. w.0) masks),
                  length-map (λ p. p.0) pairs,
                  length-map (λ w. w.0) ids,
                  length-map (λ w. w.0) masks,
                  wants_counted nodes,
                );
                agents_fresh = fresh;
              }
        ]
