-- ===== src/Controlplane/Environment/Peers.antt =====
-- What crates/controlplane/src/env relies on of the crate `bimap`, for the peers of an environment.
use snarkops.Common.Index.{member}
use snarkops.Common.Text.{Text, text_eq, text_eq_iff}
use snarkops.State.NodeKey.{NodeKey, key_eq, namespace_eq}
use snarkops.State.NodeType.{type_eq_iff}
use mathlib.Core.Option.{some-injective}
use snarkops.Common.{
  In, ◌∙◌, sym, ap, Option-cases, Bool-cases, Bool, true, false, ◌≡◌, ◌↔◌, ◌⊎◌, inl, inr, Option,
  none, some, List, [], ◌∷◌, refl, if◌then◌else◌, arith,
}

-- `EnvPeer`
pub data EnvPeer : Type 0 where
  internal_agent : Text → EnvPeer
  external_key : NodeKey → EnvPeer

unfoldable pub peer_eq : EnvPeer → EnvPeer → Bool
peer_eq (internal_agent a) (internal_agent b) = text_eq a b
peer_eq (external_key j) (external_key k) = key_eq j k
peer_eq _ _ = false

pub record BiMap (M : Type 0) : Type 0 where
  pub new : M
  pub get_by_left : M → NodeKey → Option EnvPeer
  pub get_by_right : M → EnvPeer → Option NodeKey
  pub insert : M → NodeKey → EnvPeer → M
  pub remove_by_left : M → NodeKey → M
  pub entries : M → List (NodeKey × EnvPeer)

-- The pair of a value, if it is the given one, is dropped.
abbrev pub drop_if : EnvPeer → Option EnvPeer → Option EnvPeer
drop_if v none = none
drop_if v (some w) = if peer_eq w v then none else some w

-- An insertion drops the pairs of its key and of its value.
pub record IsBiMap {M : Type 0} (B : BiMap M) : Type 0 where
  pub get-new : (k : NodeKey) → B.get_by_left B.new k ≡ none
  pub get-insert :
      (m : M) (j k : NodeKey) (v : EnvPeer)
      → B.get_by_left (B.insert m j v) k
        ≡ (if key_eq j k then some v else drop_if v (B.get_by_left m k))
  pub get-remove :
      (m : M) (j k : NodeKey)
      → B.get_by_left (B.remove_by_left m j) k ≡ (if key_eq j k then none else B.get_by_left m k)
  pub in-entries_iff :
      (m : M) (k : NodeKey) (v : EnvPeer) → In (k, v) (B.entries m) ↔ (B.get_by_left m k ≡ some v)
  pub get_by_right_iff :
      (m : M) (k : NodeKey) (v : EnvPeer)
      → (B.get_by_right m v ≡ some k) ↔ (B.get_by_left m k ≡ some v)

namespace_eq_iff : (a b : Option Text) → (namespace_eq a b ≡ true) ↔ (a ≡ b)
unfolding namespace_eq
namespace_eq_iff none none = ground arith
namespace_eq_iff (some a) (some b) = ground (arith, text_eq_iff a b)
namespace_eq_iff none (some b) = ground arith
namespace_eq_iff (some a) none = ground arith

pub key_eq_iff : (j k : NodeKey) → (key_eq j k ≡ true) ↔ (j ≡ k)
unfolding key_eq
key_eq_iff j k =
    let types = type_eq_iff j.ty k.ty in
    let ids = text_eq_iff j.id k.id in
    let namespaces = namespace_eq_iff j.ns k.ns in
    (
      λ h.
          let e = types.0 (ground (arith, h)) in
          let i = ids.0 (ground (arith, h)) in
          let n = namespaces.0 (ground (arith, h)) in λ t. record { ty = e t; id = i t; ns = n t },
      λ e.
          rw
            (types.1 (ap (λ x. x.ty) e), ids.1 (ap (λ x. x.id) e), namespaces.1 (ap (λ x. x.ns) e)),
    )

pub peer_eq_iff : (v w : EnvPeer) → (peer_eq v w ≡ true) ↔ (v ≡ w)
unfolding peer_eq
peer_eq_iff (internal_agent a) (internal_agent b) = ground (arith, text_eq_iff a b)
peer_eq_iff (external_key j) (external_key k) = ground (arith, key_eq_iff j k)
peer_eq_iff (internal_agent a) (external_key k) = ground arith
peer_eq_iff (external_key j) (internal_agent b) = ground arith

module _ {M : Type 0} (B : BiMap M) where
  -- `extend`, and a chain of insertions.
  unfoldable pub insert_all : M → List (NodeKey × EnvPeer) → M
  insert_all m [] = m
  insert_all m ((k, v) ∷ es) = insert_all (B.insert m k v) es

  unfoldable pub remove_all : M → List NodeKey → M
  remove_all m [] = m
  remove_all m (k ∷ ks) = remove_all (B.remove_by_left m k) ks

  -- The pair agrees with every pair of the list: the same key means the same value, and back.
  abbrev pub IsCompatible : NodeKey → EnvPeer → List (NodeKey × EnvPeer) → Type 0
  IsCompatible k v es = (j : NodeKey) (w : EnvPeer) → In (j, w) es → (j ≡ k) ↔ (w ≡ v)

  module _ (law : IsBiMap B) where
    kept_by_insert :
        (m : M) (j k : NodeKey) (w v : EnvPeer)
        → B.get_by_left m k ≡ some v
        → (j ≡ k) ↔ (w ≡ v)
        → B.get_by_left (B.insert m j w) k ≡ some v
    kept_by_insert m j k w v h c =
        rw (law.get-insert m j k w, h)
          (elim (Bool-cases (key_eq j k)) [
            | inl e ↦ rw e (ap (λ u. some u) (c.0 ((key_eq_iff j k).0 e)))
            | inr e ↦
                let differs : peer_eq v w ≡ false = elim (Bool-cases (peer_eq v w)) [
                  | inl q ↦
                      let same = (key_eq_iff j k).1 (c.1 (sym ((peer_eq_iff v w).0 q))) in
                      absurd (cc (e, same))
                  | inr q ↦ q
                ] in
                rw (e, differs)
          ])

    pub kept_by_insert_all :
        (m : M) (es : List (NodeKey × EnvPeer)) (k : NodeKey) (v : EnvPeer)
        → B.get_by_left m k ≡ some v
        → IsCompatible k v es
        → B.get_by_left (insert_all m es) k ≡ some v
    unfolding insert_all
    kept_by_insert_all m [] k v h c = h
    kept_by_insert_all m ((j, w) ∷ es) k v h c =
        kept_by_insert_all (B.insert m j w) es k v (kept_by_insert m j k w v h (c j w (inl refl)))
          (λ i u e. c i u (inr e))

    -- What is inserted is found, if it agrees with all that is inserted.
    pub found_by_insert_all :
        (m : M) (es : List (NodeKey × EnvPeer)) (k : NodeKey) (v : EnvPeer)
        → In (k, v) es
        → IsCompatible k v es
        → B.get_by_left (insert_all m es) k ≡ some v
    unfolding insert_all
    found_by_insert_all m [] k v h c = elim h [ ]
    found_by_insert_all m ((j, w) ∷ es) k v (inl e) c =
        let same : key_eq j k ≡ true = (key_eq_iff j k).1 (ap (λ x. x.0) e) in
        kept_by_insert_all (B.insert m j w) es k v
          (law.get-insert m j k w ∙ rw same (ap (λ x. some x.1) e)) (λ i u o. c i u (inr o))
    found_by_insert_all m ((j, w) ∷ es) k v (inr o) c =
        found_by_insert_all (B.insert m j w) es k v o (λ i u q. c i u (inr q))

    origin_of_insert :
        (m : M) (j k : NodeKey) (w v : EnvPeer)
        → B.get_by_left (B.insert m j w) k ≡ some v
        → ((j ≡ k) × (w ≡ v)) ⊎ (B.get_by_left m k ≡ some v)
    origin_of_insert m j k w v h =
        let g : (if key_eq j k then some w else drop_if w (B.get_by_left m k)) ≡ some v =
          rw (← law.get-insert m j k w) h in
        elim (Bool-cases (key_eq j k)) [
          | inl e ↦ inl ((key_eq_iff j k).0 e, some-injective _ _ (rw e at g))
          | inr e ↦ elim (Option-cases (B.get_by_left m k)) [
            | inl n ↦ absurd (cc (rw (e, n) at g))
            | inr (u, n) ↦ elim (Bool-cases (peer_eq u w)) [
              | inl q ↦ absurd (cc (rw (e, n, q) at g))
              | inr q ↦ inr (rw n (rw (e, n, q) at g))
            ]
          ]
        ]

    -- What is found was inserted or there before.
    pub origin_of_insert_all :
        (m : M) (es : List (NodeKey × EnvPeer)) (k : NodeKey) (v : EnvPeer)
        → B.get_by_left (insert_all m es) k ≡ some v
        → In (k, v) es ⊎ (B.get_by_left m k ≡ some v)
    unfolding insert_all
    origin_of_insert_all m [] k v h = inr h
    origin_of_insert_all m ((j, w) ∷ es) k v h =
        elim (origin_of_insert_all (B.insert m j w) es k v h) [
          | inl o ↦ inl (inr o)
          | inr g ↦ elim (origin_of_insert m j k w v g) [
            | inl (key, value) ↦ inl (inl (λ i. (key i, value i)))
            | inr old ↦ inr old
          ]
        ]

    pub get-remove_all :
        (m : M) (ks : List NodeKey) (k : NodeKey)
        → B.get_by_left (remove_all m ks) k
          ≡ (if member key_eq ks k then none else B.get_by_left m k)
    unfolding remove_all member
    get-remove_all m [] k = refl
    get-remove_all m (j ∷ ks) k =
        get-remove_all (B.remove_by_left m j) ks k
        ∙ rw (law.get-remove m j k)
            (elim (Bool-cases (key_eq j k)) [ inl e ↦ rw e (ground arith) | inr e ↦ rw e refl ])
