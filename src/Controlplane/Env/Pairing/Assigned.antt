-- ===== src/Controlplane/Env/Pairing/Assigned.antt =====
-- Which agents crates/controlplane/src/env/set.rs assigns to which nodes.
use snarkops.Controlplane.Env.Pairing.Served.{pair_all_keys, pair_all-IsPaired, IsPaired, IsFresh}
use snarkops.Common.Text.{text_eq_iff, text_eq, Text}
use snarkops.Controlplane.Env.Pairing.{
  pair_all, want_labels, is_busy, want_ids, EnvNodeState, Pairs, finish, choose_by_id,
  choose_by_mask, find_agent, pair_with_nodes, claim_agent, AgentMapping,
}
use mathlib.Core.List.{Mem, mem-cons_self, mem-cons_of_mem}
use mathlib.Core.Option.{some-injective}
use snarkops.Common.{
  length, ◌||◌, ◌+◌, ltb, All, ◌++◌, not, ap, sym, map, ◌&&◌, ◌∙◌, Bool-cases, Option-cases,
  List-cases, ◌⊎◌, ◌≡◌, List, [], ◌∷◌, refl, some, true, false, arith, ok, inl, inr,
}
use snarkops.State.NodeKey.{NodeKey}
use snarkops.State.NodeType.{bit}
use snarkops.Controlplane.Env.BitSet.{BitSet}
use snarkops.Controlplane.Env.Mask.{has_label}

held_at_start :
    (busy : List Text) (id : Text) → is_busy busy id ≡ (is_busy busy id || is_busy [] id)
unfolding has_label
held_at_start busy id = ground arith

module _ {S : Type 0} (B : BitSet S) (agents : List (AgentMapping S)) where
  pub find_agent_sound :
      (id : Text) (some_agents : List (AgentMapping S)) (a : AgentMapping S)
      → find_agent B id some_agents ≡ some a
      → Mem a some_agents × (a.id ≡ id)
  unfolding find_agent
  find_agent_sound id [] a h = absurd (cc h)
  find_agent_sound id (b ∷ bs) a h = elim (Option-cases (find_agent B id bs)) [
    | inr (c, e) ↦
        let same : c ≡ a = some-injective _ _ (rw e at h) in
        let (m, named) = find_agent_sound id bs a (e ∙ ap some same) in (mem-cons_of_mem b m, named)
    | inl e ↦ elim (Bool-cases (text_eq b.id id)) [
      | inl named ↦
          let same : b ≡ a = some-injective _ _ (rw (e, named) at h) in
          rw (← same) (mem-cons_self, (text_eq_iff b.id id).0 named)
      | inr other ↦ absurd (cc (rw (e, other) at h))
    ]
  ]

  -- An agent of the pool that suits what the node wanted: it is the one that was asked for and has
  -- the node's mode, or its mask has all that the node's mask has.
  abbrev pub Assigned : List (NodeKey × Text) → List (NodeKey × S) → NodeKey × Text → Type 0
  Assigned ids masks (key, id) =
      (a : AgentMapping S) × Mem a agents
      × (a.id ≡ id)
      × ((Mem (key, id) ids × (B.contains a.mask (bit key.ty) ≡ true))
          ⊎ ((mask : S) × Mem (key, mask) masks × (B.is_subset mask a.mask ≡ true)))

  pub claim_agent_sound :
      (held : List Text) (key : NodeKey) (want id : Text) (a : AgentMapping S)
      → claim_agent B held key want a ≡ ok id
      → (id ≡ want) × (is_busy held a.id ≡ false) × (B.contains a.mask (bit key.ty) ≡ true)
  unfolding claim_agent
  claim_agent_sound held key want id a h = ground (arith, h)

  choose_by_id_sound :
      (ids : List (NodeKey × Text)) (masks : List (NodeKey × S)) (w : NodeKey × Text)
      (held : List Text) (id : Text)
      → Mem w ids
      → choose_by_id B agents held w ≡ ok id
      → (is_busy held id ≡ false) × Assigned ids masks (w.0, id)
  unfolding choose_by_id
  choose_by_id_sound ids masks (key, want) held id m h =
      elim (Option-cases (find_agent B want agents)) [
        | inl e ↦ absurd (cc (rw (e, choose_by_id) at h))
        | inr (a, e) ↦
            let (found, named) = find_agent_sound want agents a e in
            let (asked, free, mode) =
              claim_agent_sound held key want id a (rw (e, choose_by_id) at h) in
            (rw (asked, ← named) free, (a, found, named ∙ sym asked, inl (rw asked m, mode)))
      ]

  pub choose_by_mask_sound :
      (some_agents : List (AgentMapping S)) (key : NodeKey) (mask : S) (held : List Text)
      (id : Text)
      → choose_by_mask B some_agents held (key, mask) ≡ ok id
      → (a : AgentMapping S) × Mem a some_agents
        × (a.id ≡ id)
        × (is_busy held a.id ≡ false)
        × (B.is_subset mask a.mask ≡ true)
  unfolding choose_by_mask
  choose_by_mask_sound [] key mask held id h = absurd (cc h)
  choose_by_mask_sound (a ∷ others) key mask held id h =
      elim (Bool-cases (B.is_subset mask a.mask && not (is_busy held a.id))) [
        | inl fits ↦
            (a, mem-cons_self, ground (arith, h, fits), ground (arith, fits), ground (arith, fits))
        | inr other ↦
            let (b, m, named, free, fits) =
              choose_by_mask_sound others key mask held id (rw other at h) in
            (b, mem-cons_of_mem a m, named, free, fits)
      ]

  choose_by_mask_right :
      (ids : List (NodeKey × Text)) (masks : List (NodeKey × S)) (w : NodeKey × S)
      (held : List Text) (id : Text)
      → Mem w masks
      → choose_by_mask B agents held w ≡ ok id
      → (is_busy held id ≡ false) × Assigned ids masks (w.0, id)
  choose_by_mask_right ids masks (key, mask) held id m h =
      let (a, found, named, free, fits) = choose_by_mask_sound agents key mask held id h in
      (rw (← named) free, (a, found, named, inr (mask, m, fits)))

  pub finish_ok :
      (p : Pairs) (pairs : List (NodeKey × Text))
      → finish B p ≡ ok pairs
      → (p.errors ≡ []) × (p.claimed ≡ pairs)
  unfolding finish
  finish_ok p pairs h = elim (List-cases p.errors) [
    | inl e ↦ (e, ground (arith, rw e at h))
    | inr (x, xs, e) ↦ absurd (cc (rw e at h))
  ]

  -- If the pairing succeeds, its keys are those of the nodes that want an agent by its identifier and
  -- then those of the others, no agent has two nodes or was busy before, and each is an agent of the
  -- pool that suits what was wanted for its key.
  pub pair_with_nodes_sound :
      (nodes : List (NodeKey × EnvNodeState)) (labels busy : List Text)
      (pairs : List (NodeKey × Text))
      → pair_with_nodes B agents nodes labels busy ≡ ok pairs
      → let ids = want_ids B nodes in
        let masks = want_labels B labels nodes in
        (map (λ p. p.0) pairs ≡ map (λ w. w.0) ids ++ map (λ w. w.0) masks)
        × IsFresh busy pairs
        × All (Assigned ids masks) pairs
  unfolding pair_with_nodes finish
  pair_with_nodes_sound nodes labels busy pairs h =
      let ids = want_ids B nodes in
      let masks = want_labels B labels nodes in
      let start : Pairs = record { claimed = []; errors = []; busy = busy } in
      let first = pair_all (choose_by_id B agents) ids start in
      let last = pair_all (choose_by_mask B agents) masks first in
      let begun : IsPaired (Assigned ids masks) busy start = record {
        fresh = tt;
        held = λ id. held_at_start busy id;
        serving = tt;
      } in
      let halfway : IsPaired (Assigned ids masks) busy first =
        pair_all-IsPaired (choose_by_id B agents) (Assigned ids masks) busy ids start
          (λ w held id m e. choose_by_id_sound ids masks w held id m e) begun in
      let done : IsPaired (Assigned ids masks) busy last =
        pair_all-IsPaired (choose_by_mask B agents) (Assigned ids masks) busy masks first
          (λ w held id m e. choose_by_mask_right ids masks w held id m e) halfway in
      elim (Bool-cases (ltb (length agents) (length ids + length masks))) [
        | inl few ↦ absurd (cc (rw few at h))
        | inr enough ↦
            let (no_errors, same) = finish_ok last pairs (rw enough at h) in
            let (none_before, keys) =
              pair_all_keys (choose_by_mask B agents) masks first no_errors in
            let (_, first_keys) = pair_all_keys (choose_by_id B agents) ids start none_before in
            rw (← same) (keys ∙ rw first_keys refl, done.fresh, done.serving)
      ]
