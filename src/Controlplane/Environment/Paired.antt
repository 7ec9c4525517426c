-- ===== src/Controlplane/Environment/Paired.antt =====
-- The agents that crates/controlplane/src/env/mod.rs gives to incoming nodes, and where they come
-- from.
use mathlib.Core.Logic.Or
use snarkops.Controlplane.Env.Pairing.Assigned.{pair_with_nodes_sound}
use snarkops.Controlplane.Env.Pairing.Served.{IsFresh}
use mathlib.Core.Option.{some-injective}
use snarkops.Controlplane.Env.Mask.{agent_mask}
use snarkops.Common.Dict.{Dict, lookup, IsDict}
use snarkops.Common.Index.{member}
use snarkops.Common.Text.{Text, text_eq, text_eq_refl}
use snarkops.Controlplane.Agents.{
  Agent, is_inventory, env_busy, mode_claims, unclaimed_mapping, new_mapping, get_agent_mappings,
}
use snarkops.Controlplane.Env.BitSet.{BitSet}
use snarkops.Controlplane.Env.Pairing as Pairing
use snarkops.Controlplane.Env.Pairing.{pair_with_nodes, AgentMapping, want_ids, want_labels}
use snarkops.Controlplane.Environment.{
  internal, external, States, is_local_key, choices_of, choice_of, mappings_of_ids, free_agents,
}
use snarkops.Controlplane.Environment.Peers.{key_eq_iff}
use snarkops.Controlplane.Environment.Replicas.{is_internal}
use snarkops.State.NodeKey.{NodeKey, key_eq}
use mathlib.Core.Bool.{Bool-set}
use mathlib.Core.List.{Mem, not-mem-nil, eq-or-mem_of_mem-cons}
use snarkops.Common.{
  All-map, All, ok, ltb, ℕ, Bool, true, false, ◌&&◌, ◌||◌, Option, none, some, List, [], ◌∷◌, ◌++◌,
  map, ◌≡◌, refl, sym, ◌∙◌, inl, inr, ap, is_some, Bool-cases, Option-cases, arith,
}

abbrev pub Distinct : List NodeKey → Type 0
Distinct [] = Unit
Distinct (k ∷ ks) = (member key_eq ks k ≡ false) × Distinct ks

key_eq_comm : (j k : NodeKey) → key_eq j k ≡ key_eq k j
key_eq_comm j k = elim (Bool-cases (key_eq j k)) [
  | inl e ↦ e ∙ sym ((key_eq_iff k j).1 (sym ((key_eq_iff j k).0 e)))
  | inr e ↦ elim (Bool-cases (key_eq k j)) [
    | inl f ↦ let back = (key_eq_iff j k).1 (sym ((key_eq_iff k j).0 f)) in absurd (cc (e, back))
    | inr f ↦ e ∙ sym f
  ]
]

member-append :
    (a b : List NodeKey) (k : NodeKey)
    → member key_eq (a ++ b) k ≡ (member key_eq a k || member key_eq b k)
unfolding member
member-append [] b k = refl
member-append (x ∷ a) b k = ground (arith, member-append a b k)

member-middle :
    (a c : List NodeKey) (k j : NodeKey)
    → member key_eq (a ++ k ∷ c) j ≡ (key_eq k j || member key_eq (a ++ c) j)
unfolding member
member-middle [] c k j = refl
member-middle (x ∷ a) c k j = ground (arith, member-middle a c k j)

Distinct-middle :
    (a c : List NodeKey) (k : NodeKey)
    → Distinct (a ++ c)
    → member key_eq (a ++ c) k ≡ false
    → Distinct (a ++ k ∷ c)
unfolding member
Distinct-middle [] c k d h = (h, d)
Distinct-middle (x ∷ a) c k d h = (
  member-middle a c k x ∙ ground (arith, d.0, key_eq_comm k x, h),
  Distinct-middle a c k d.1 (ground (arith, h)),
)

module _ {S : Type 0} (bits : BitSet S) (labels : List Text) where
  -- The keys that the pairing works with.
  abbrev pub wanted_keys : List (NodeKey × Pairing.EnvNodeState) → List NodeKey
  wanted_keys nodes =
      map (λ w. w.0) (want_ids bits nodes) ++ map (λ w. w.0) (want_labels bits labels nodes)

  wanted_keys_cons :
      (nodes : List (NodeKey × Pairing.EnvNodeState)) (j : NodeKey) (is_local : Bool)
      (ls : List Text) (agent : Option Text)
      → Distinct (wanted_keys nodes)
      → member key_eq (wanted_keys nodes) j ≡ false
      → let node =
          Pairing.EnvNodeState.internal
            (record { local_key = is_local; labels = ls; agent = agent }) in
        Distinct (wanted_keys ((j, node) ∷ nodes))
        × ((k : NodeKey)
            → member key_eq (wanted_keys ((j, node) ∷ nodes)) k
              ≡ (key_eq j k || member key_eq (wanted_keys nodes) k))
  unfolding want_ids want_labels member
  wanted_keys_cons nodes j is_local ls (some agent) d h = ((h, d), λ k. refl)
  wanted_keys_cons nodes j is_local ls none d h =
      let ids = map (λ w. w.0) (want_ids bits nodes) in
      let others = map (λ w. w.0) (want_labels bits labels nodes) in
      (Distinct-middle ids others j d h, λ k. member-middle ids others j k)

  -- The states of internal nodes, each key once, are all worked with.
  pub wanted_keys_sound :
      {P : Type 0} (d : States P)
      → IsDict key_eq d
      → ((k : NodeKey) → is_internal (lookup key_eq k d) ≡ true)
      → Distinct (wanted_keys (choices_of d))
        × ((k : NodeKey)
            → member key_eq (wanted_keys (choices_of d)) k ≡ is_some (lookup key_eq k d))
  unfolding choices_of choice_of want_ids want_labels lookup member
  wanted_keys_sound [] v all = (tt, λ k. refl)
  wanted_keys_sound ((j, external n) ∷ d) v all =
      let found = (key_eq_iff j j).1 refl in absurd (cc (rw found at (all j)))
  wanted_keys_sound ((j, internal n) ∷ d) v all =
      let others : (k : NodeKey) → is_internal (lookup key_eq k d) ≡ true = λ k.
        elim (Bool-cases (key_eq j k)) [
          | inl e ↦ rw (← (key_eq_iff j k).0 e, v.0) refl
          | inr e ↦ rw e at (all k)
        ] in
      let (distinct, members) = wanted_keys_sound d v.1 others in
      let (one_each, all_of_them) =
        wanted_keys_cons (choices_of d) j (is_local_key n.key) n.labels n.agent distinct
          (members j ∙ ap is_some v.0) in
      (one_each, λ k. all_of_them k ∙ rw (members k) (ground arith))

-- Whether an agent of the pool is in the inventory, by its identifier.
unfoldable pub is_idle : {C : Type 0} → List (Agent C) → Text → Bool
is_idle [] id = false
is_idle (a ∷ pool) id = text_eq a.id id && is_inventory a || is_idle pool id

abbrev pub AllMappings : {S : Type 0} → (Text → Bool) → List (AgentMapping S) → Type 0
AllMappings p [] = Unit
AllMappings p (m ∷ ms) = (p m.id ≡ true) × AllMappings p ms

mapping_of_claim :
    {S : Type 0} (claims : Option ℕ) (r m : AgentMapping S)
    → unclaimed_mapping claims r ≡ some m
    → m ≡ r
unfolding unclaimed_mapping
mapping_of_claim none r m h = absurd (cc h)
mapping_of_claim (some count) r m h = elim (Bool-cases (ltb 1 count)) [
  | inl e ↦ absurd (cc (rw e at h))
  | inr e ↦ sym (some-injective _ _ (rw e at h))
]

module _ {C S : Type 0} (bits : BitSet S) where
  new_mapping_sound :
      (a : Agent C) (labels : List Text) (m : AgentMapping S)
      → new_mapping bits env_busy a labels ≡ some m
      → (m.id ≡ a.id) × (is_inventory a ≡ true)
  unfolding new_mapping
  new_mapping_sound a labels m h = elim (Bool-cases (is_inventory a)) [
    | inr e ↦ absurd (cc (rw e at h))
    | inl e ↦
        let r : AgentMapping S = record { id = a.id; mask = agent_mask bits a.flags labels } in
        (ap (λ x. x.id) (mapping_of_claim (mode_claims bits env_busy a) r m (rw e at h)), e)
  ]

  -- What is mapped is in the inventory.
  get_agent_mappings-idle :
      (p : Text → Bool) (pool : List (Agent C)) (labels : List Text)
      → ((id : Text) → is_idle pool id ≡ true → p id ≡ true)
      → AllMappings p (get_agent_mappings bits env_busy pool labels)
  unfolding get_agent_mappings is_idle is_inventory
  get_agent_mappings-idle p [] labels h = tt
  get_agent_mappings-idle p (a ∷ pool) labels h =
      let onward = get_agent_mappings-idle p pool labels (λ id i. h id (rw i (ground arith))) in
      elim (Option-cases (new_mapping bits env_busy a labels)) [
        | inl e ↦ rw (e, AllMappings) onward
        | inr (m, e) ↦
            let (named, idle) = new_mapping_sound a labels m e in
            rw (e, AllMappings) (h m.id (rw (← named, text_eq_refl m.id, idle)), onward)
      ]

  mappings_of_ids-removed :
      (p : Text → Bool) (pool : Dict Text (Agent C)) (labels ids : List Text)
      → ((id : Text) → member text_eq ids id ≡ true → p id ≡ true)
      → AllMappings p (mappings_of_ids bits pool labels ids)
  unfolding mappings_of_ids member
  mappings_of_ids-removed p pool labels [] h = tt
  mappings_of_ids-removed p pool labels (id ∷ ids) h =
      let onward = mappings_of_ids-removed p pool labels ids (λ i j. h i (rw j (ground arith))) in
      elim (Option-cases (lookup text_eq id pool)) [
        | inl e ↦ rw (e, AllMappings) onward
        | inr (a, e) ↦ rw (e, AllMappings) (h id (rw (text_eq_refl id)), onward)
      ]

mapping-holds :
    {S : Type 0} (p : Text → Bool) (ms : List (AgentMapping S)) (m : AgentMapping S)
    → AllMappings p ms
    → Mem m ms
    → p m.id ≡ true
mapping-holds p [] m h i = absurd (not-mem-nil i)
mapping-holds p (n ∷ ms) m h i =
    Or.elim (Bool-set (p m.id) true) (eq-or-mem_of_mem-cons i) (λ e. rw e h.0)
      (λ j. mapping-holds p ms m h.1 j)

AllMappings-append :
    {S : Type 0} (p : Text → Bool) (ms ns : List (AgentMapping S))
    → AllMappings p ms
    → AllMappings p ns
    → AllMappings p (ms ++ ns)
AllMappings-append p [] ns h k = k
AllMappings-append p (m ∷ ms) ns h k = (h.0, AllMappings-append p ms ns h.1 k)

module _ {C S P : Type 0} (bits : BitSet S) (pool : Dict Text (Agent C)) (incoming : States P)
    (removed labels busy : List Text) where
  -- An agent may be given to a node if it is in the inventory or is freed.
  abbrev pub may_have : Text → Bool
  may_have id = is_idle (map (λ e. e.1) pool) id || member text_eq removed id

  pub record IsPairedWith (pairs : List (NodeKey × Text)) : Type 0 where
    pub keys_distinct : Distinct (map (λ p. p.0) pairs)
    pub keys_incoming :
        (k : NodeKey) → member key_eq (map (λ p. p.0) pairs) k ≡ is_some (lookup key_eq k incoming)
    pub agents_fresh : IsFresh busy pairs
    pub agents_free : All (λ p. may_have p.1 ≡ true) pairs

  pub pair-IsPairedWith :
      (pairs : List (NodeKey × Text))
      → IsDict key_eq incoming
      → ((k : NodeKey) → is_internal (lookup key_eq k incoming) ≡ true)
      → pair_with_nodes bits
          (free_agents bits pool labels removed)
          (choices_of incoming)
          labels
          busy
        ≡ ok pairs
      → IsPairedWith pairs
  unfolding free_agents
  pair-IsPairedWith pairs v all h =
      let agents = free_agents bits pool labels removed in
      let (keys, fresh, assigned) =
        pair_with_nodes_sound bits agents (choices_of incoming) labels busy pairs h in
      let (distinct, members) = wanted_keys_sound bits labels incoming v all in
      let idle =
        get_agent_mappings-idle bits may_have (map (λ e. e.1) pool) labels (λ id i. rw i refl) in
      let freed =
        mappings_of_ids-removed bits may_have pool labels removed (λ id i. rw i (ground arith)) in
      let may = AllMappings-append may_have _ _ idle freed in
      record {
        keys_distinct = rw keys distinct;
        keys_incoming = λ k. rw keys (members k);
        agents_fresh = fresh;
        agents_free =
            All-map _ (λ p. may_have p.1 ≡ true) pairs
              (λ p (m, found, named, fits).
                rw (← named) (mapping-holds may_have agents m may found))
              assigned;
      }
