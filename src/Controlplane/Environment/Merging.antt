-- ===== src/Controlplane/Environment/Merging.antt =====
-- The states of nodes that crates/controlplane/src/env/mod.rs removes and adds, key by key.
use snarkops.Common.Dict.{Dict, lookup, remove, insert, IsDict, lookup-remove, lookup-insert}
use snarkops.Common.Index.{member, index_insert, lookup-index_insert, index_insert-IsDict}
use snarkops.Controlplane.Environment.{
  EnvNodeState, external, States, nodes_to_remove, add_externals, insert_states, remove_states,
}
use snarkops.Controlplane.Environment.Peers.{EnvPeer, key_eq_iff}
use snarkops.Controlplane.Nodes.{ExternalNode}
use snarkops.State.NodeKey.{NodeKey, key_eq}
use snarkops.Common.{
  In, Bool, true, false, Option, none, some, List, [], ◌∷◌, ◌≡◌, refl, sym, ◌∙◌, inl, inr, ap,
  is_some, ok, ok-injective, Bool-cases, if◌then◌else◌, arith,
}

abbrev pub or_else : {A : Type 0} → Option A → Option A → Option A
or_else (some a) b = some a
or_else none b = b

-- The state of an external node, if there is one.
abbrev pub state_of : {P : Type 0} → Option ExternalNode → Option (EnvNodeState P)
state_of none = none
state_of (some n) = some (external n)

or_none : {A : Type 0} (x : Option A) → x ≡ or_else x none
or_none none = refl
or_none (some a) = refl

pub is_some-none : {A : Type 0} (x : Option A) → is_some x ≡ false → x ≡ none
is_some-none none h = refl
is_some-none (some a) h = absurd (cc h)

module _ {P : Type 0} where
  pub lookup-remove_states :
      (s : States P) (ks : List NodeKey) (k : NodeKey)
      → lookup key_eq k (remove_states s ks)
        ≡ (if member key_eq ks k then none else lookup key_eq k s)
  unfolding remove_states member
  lookup-remove_states s [] k = refl
  lookup-remove_states s (j ∷ ks) k =
      lookup-remove_states (remove key_eq j s) ks k
      ∙ rw (lookup-remove key_eq key_eq_iff j k s) (ground arith)

  -- The later states win.
  pub lookup-insert_states :
      (s es : States P) (k : NodeKey)
      → IsDict key_eq es
      → lookup key_eq k (insert_states s es) ≡ or_else (lookup key_eq k es) (lookup key_eq k s)
  unfolding insert_states lookup
  lookup-insert_states s [] k h = refl
  lookup-insert_states s ((j, n) ∷ es) k h =
      let onward = lookup-insert_states (insert key_eq j n s) es k h.1 in
      onward
      ∙ rw (lookup-insert key_eq key_eq_iff j k n s) (elim (Bool-cases (key_eq j k)) [
        | inr e ↦ rw e refl
        | inl e ↦
            let absent : lookup key_eq k es ≡ none = rw (← (key_eq_iff j k).0 e) (h.0) in
            rw (e, absent)
      ])

  -- External nodes are added to states that have none of their keys.
  pub add_externals_sound :
      (es : Dict NodeKey ExternalNode) (s t : States P) (k : NodeKey)
      → add_externals es s ≡ ok t
      → (lookup key_eq k t ≡ or_else (lookup key_eq k s) (state_of (lookup key_eq k es)))
        × (is_some (lookup key_eq k es) ≡ true → lookup key_eq k s ≡ none)
  unfolding add_externals lookup
  add_externals_sound [] s t k h =
      (rw (← ok-injective h) (or_none (lookup key_eq k s)), λ f. absurd (cc f))
  add_externals_sound ((j, n) ∷ es) s t k h = elim (Bool-cases (is_some (lookup key_eq j s))) [
    | inl e ↦ absurd (cc (rw e at h))
    | inr e ↦
        let (found, fresh) =
          add_externals_sound es (index_insert key_eq s j (external n)) t k (rw e at h) in
        let same = lookup-index_insert key_eq key_eq_iff s j k (external n) in
        elim (Bool-cases (key_eq j k)) [
          | inl q ↦
              let absent : lookup key_eq k s ≡ none =
                rw (← (key_eq_iff j k).0 q) (is_some-none (lookup key_eq j s) e) in
              (found ∙ rw (same, q, absent), λ f. absent)
          | inr q ↦ (found ∙ rw (same, q) refl, λ f. sym (same ∙ rw q refl) ∙ fresh (rw q at f))
        ]
  ]

  pub add_externals-IsDict :
      (es : Dict NodeKey ExternalNode) (s t : States P)
      → IsDict key_eq s
      → add_externals es s ≡ ok t
      → IsDict key_eq t
  unfolding add_externals
  add_externals-IsDict [] s t v h = rw (← ok-injective h) v
  add_externals-IsDict ((j, n) ∷ es) s t v h = elim (Bool-cases (is_some (lookup key_eq j s))) [
    | inl e ↦ absurd (cc (rw e at h))
    | inr e ↦
        add_externals-IsDict es (index_insert key_eq s j (external n)) t
          (index_insert-IsDict key_eq key_eq_iff s j (external n) v) (rw e at h)
  ]

-- The keys that are removed are those of the pairs that are left out.
pub left_out_of_member :
    (left_out : NodeKey × EnvPeer → Bool) (es : List (NodeKey × EnvPeer)) (k : NodeKey)
    → member key_eq (nodes_to_remove left_out es) k ≡ true
    → (v : EnvPeer) × In (k, v) es × (left_out (k, v) ≡ true)
unfolding nodes_to_remove member
left_out_of_member left_out [] k h = absurd (cc h)
left_out_of_member left_out ((j, w) ∷ es) k h = elim (Bool-cases (left_out (j, w))) [
  | inr e ↦ let (v, i, l) = left_out_of_member left_out es k (rw e at h) in (v, inr i, l)
  | inl e ↦ elim (Bool-cases (key_eq j k)) [
    | inl q ↦ let same = (key_eq_iff j k).0 q in (w, inl (ap (λ x. (x, w)) same), rw (← same) e)
    | inr q ↦ let (v, i, l) = left_out_of_member left_out es k (rw (e, q) at h) in (v, inr i, l)
  ]
]

pub member_of_left_out :
    (left_out : NodeKey × EnvPeer → Bool) (es : List (NodeKey × EnvPeer)) (k : NodeKey)
    (v : EnvPeer)
    → In (k, v) es
    → left_out (k, v) ≡ true
    → member key_eq (nodes_to_remove left_out es) k ≡ true
unfolding nodes_to_remove member
member_of_left_out left_out [] k v i l = elim i [ ]
member_of_left_out left_out (e ∷ es) k v (inl same) l =
    let out : left_out e ≡ true = rw same l in
    let key : key_eq e.0 k ≡ true = (key_eq_iff e.0 k).1 (ap (λ x. x.0) same) in
    rw (out, key) (ground arith)
member_of_left_out left_out (e ∷ es) k v (inr i) l =
    let onward = member_of_left_out left_out es k v i l in
    elim (Bool-cases (left_out e)) [
      | inl out ↦ rw (out, onward) (ground arith)
      | inr out ↦ rw out onward
    ]
