-- ===== src/Controlplane/Environment/Replicas.antt =====
-- How the replicas of a nodes document become nodes, in crates/controlplane/src/env/mod.rs.
use snarkops.Common.Dict.{Dict, lookup, IsDict}
use snarkops.Common.Index.{member, member-set_insert, lookup-index_insert, index_insert-IsDict}
use snarkops.Controlplane.Environment.{
  EnvNodeState, internal, external, EnvError, Flattened, place, replica_key, replica_node,
  add_replicas, flatten,
}
use snarkops.Controlplane.Environment.Peers.{BiMap, key_eq_iff}
use snarkops.Controlplane.Nodes.{Node}
use snarkops.State.NodeKey.{NodeKey, key_eq}
use snarkops.Common.{
  ℕ, zero, suc, Bool, true, false, Option, none, some, [], ◌∷◌, ◌≡◌, refl, inl, inr, ◌||◌, is_some,
  Result, ok, and_then, and_then-eq-ok, ok-injective, Bool-cases, unwrap_or, arith,
}
use Prim.Native.Nat.{min}

abbrev pub is_internal : {P : Type 0} → Option (EnvNodeState P) → Bool
is_internal none = true
is_internal (some (internal n)) = true
is_internal (some (external n)) = false

abbrev pub is_present : {M : Type 0} → BiMap M → M → NodeKey → Bool
is_present B peers k = is_some (B.get_by_left peers k)

module _ {M P : Type 0} (B : BiMap M) (peers : M) where
  -- A node without replicas adds nothing, and is no error.
  pub zero_replicas_skipped :
      (key : NodeKey) (n : Node P) (nodes : Dict NodeKey (Node P)) (s : Flattened P)
      → n.replicas ≡ some 0
      → flatten B peers ((key, n) ∷ nodes) s ≡ flatten B peers nodes s
  unfolding flatten add_replicas
  zero_replicas_skipped key n nodes s h = rw h refl

  -- The updated nodes have a peer, the incoming ones have none, and both are the keys of agents.
  pub record IsFlattened (s : Flattened P) : Type 0 where
    pub updated_internal : (k : NodeKey) → is_internal (lookup key_eq k s.updated) ≡ true
    pub incoming_internal : (k : NodeKey) → is_internal (lookup key_eq k s.incoming) ≡ true
    pub updated_present :
        (k : NodeKey) → is_some (lookup key_eq k s.updated) ≡ true → is_present B peers k ≡ true
    pub incoming_absent :
        (k : NodeKey) → is_some (lookup key_eq k s.incoming) ≡ true → is_present B peers k ≡ false
    pub keys_placed :
        (k : NodeKey)
        → member key_eq s.agent_keys k
          ≡ (is_some (lookup key_eq k s.updated) || is_some (lookup key_eq k s.incoming))
    pub incoming_dict : IsDict key_eq s.incoming
    pub updated_dict : IsDict key_eq s.updated

  place-IsFlattened :
      (key : NodeKey) (n : Node P) (s t : Flattened P)
      → IsFlattened s
      → place B peers key n s ≡ ok t
      → IsFlattened t
  unfolding place
  place-IsFlattened key n s t v h = elim (Bool-cases (is_present B peers key)) [
    | inl e ↦ rw (← ok-injective (rw e at h)) (record {
      updated_internal = λ k.
          rw (lookup-index_insert key_eq key_eq_iff s.updated key k (internal n))
            (ground (arith, v.updated_internal k));
      incoming_internal = v.incoming_internal;
      updated_present = λ k.
          rw (lookup-index_insert key_eq key_eq_iff s.updated key k (internal n))
            (ground (arith, v.updated_present k, key_eq_iff key k, e));
      incoming_absent = v.incoming_absent;
      keys_placed = λ k.
          rw
            (
              lookup-index_insert key_eq key_eq_iff s.updated key k (internal n),
              member-set_insert key_eq key_eq_iff s.agent_keys key k,
              v.keys_placed k,
            )
            (ground arith);
      incoming_dict = v.incoming_dict;
      updated_dict =
          index_insert-IsDict key_eq key_eq_iff s.updated key (internal n) v.updated_dict;
    })
    | inr e ↦ elim (Bool-cases (is_some (lookup key_eq key s.incoming))) [
      | inl f ↦ absurd (cc (rw (e, f) at h))
      | inr f ↦ rw (← ok-injective (rw (e, f) at h)) (record {
        updated_internal = v.updated_internal;
        incoming_internal = λ k.
            rw (lookup-index_insert key_eq key_eq_iff s.incoming key k (internal n))
              (ground (arith, v.incoming_internal k));
        updated_present = v.updated_present;
        incoming_absent = λ k.
            rw (lookup-index_insert key_eq key_eq_iff s.incoming key k (internal n))
              (ground (arith, v.incoming_absent k, key_eq_iff key k, e));
        keys_placed = λ k.
            rw
              (
                lookup-index_insert key_eq key_eq_iff s.incoming key k (internal n),
                member-set_insert key_eq key_eq_iff s.agent_keys key k,
                v.keys_placed k,
              )
              (ground arith);
        incoming_dict =
            index_insert-IsDict key_eq key_eq_iff s.incoming key (internal n) v.incoming_dict;
        updated_dict = v.updated_dict;
      })
    ]
  ]

  add_replicas-IsFlattened :
      (key : NodeKey) (n : Node P) (num count i : ℕ) (s t : Flattened P)
      → IsFlattened s
      → add_replicas B peers key n num count i s ≡ ok t
      → IsFlattened t
  unfolding add_replicas
  add_replicas-IsFlattened key n num zero i s t v h = rw (← ok-injective h) v
  add_replicas-IsFlattened key n num (suc count) i s t v h =
      let behind : NodeKey → Result EnvError (Flattened P) = λ k.
        and_then (place B peers k (replica_node n i) s)
          (λ t'. add_replicas B peers key n num count (suc i) t') in
      let (k, _, h1) = and_then-eq-ok (replica_key key num i) behind h in
      let (u, placed, h2) =
        and_then-eq-ok (place B peers k (replica_node n i) s)
          (λ t'. add_replicas B peers key n num count (suc i) t') h1 in
      add_replicas-IsFlattened key n num count (suc i) u t
        (place-IsFlattened k (replica_node n i) s u v placed) h2

  -- What flattening the replicas of nodes starts with, it ends with.
  pub flatten-IsFlattened :
      (nodes : Dict NodeKey (Node P)) (s t : Flattened P)
      → IsFlattened s
      → flatten B peers nodes s ≡ ok t
      → IsFlattened t
  unfolding flatten
  flatten-IsFlattened [] s t v h = rw (← ok-injective h) v
  flatten-IsFlattened ((key, n) ∷ nodes) s t v h =
      let num = unwrap_or 1 n.replicas in
      let (u, added, h1) =
        and_then-eq-ok (add_replicas B peers key n num (min num 10000) 0 s)
          (λ t'. flatten B peers nodes t') h in
      flatten-IsFlattened nodes u t
        (add_replicas-IsFlattened key n num (min num 10000) 0 s u v added) h1

  pub nothing_flattened : IsFlattened (record { agent_keys = []; incoming = []; updated = [] })
  unfolding lookup member
  nothing_flattened = record {
    updated_internal = λ k. refl;
    incoming_internal = λ k. refl;
    updated_present = λ k h. absurd (cc h);
    incoming_absent = λ k h. absurd (cc h);
    keys_placed = λ k. refl;
    incoming_dict = tt;
    updated_dict = tt;
  }
