-- ===== src/Controlplane/Environment/Pairs.antt =====
-- The pairs of nodes with agents and the external nodes of crates/controlplane/src/env/mod.rs, as the
-- lists of peers that they become.
use snarkops.Common.Dict.{Dict, lookup}
use snarkops.Common.Index.{member}
use snarkops.Common.Text.{Text, text_eq, text_eq_iff}
use snarkops.Controlplane.Env.Pairing.Served.{IsFresh}
use snarkops.Controlplane.Env.Mask.{has_label}
use snarkops.Controlplane.Environment.{removed_agents, with_internal, with_external}
use snarkops.Controlplane.Environment.Paired.{Distinct}
use snarkops.Controlplane.Environment.Peers.{EnvPeer, internal_agent, external_key, key_eq_iff}
use snarkops.Controlplane.Nodes.{ExternalNode}
use snarkops.State.NodeKey.{NodeKey, key_eq}
use snarkops.Common.{
  In, true, false, List, [], ◌∷◌, map, ◌≡◌, refl, sym, ◌∙◌, inl, inr, ap, is_some, Bool-cases,
  arith,
}

pub has_key_of_pair :
    (pairs : List (NodeKey × Text)) (k : NodeKey) (a : Text)
    → In (k, a) pairs
    → member key_eq (map (λ p. p.0) pairs) k ≡ true
unfolding member
has_key_of_pair [] k a i = elim i [ ]
has_key_of_pair (p ∷ pairs) k a (inl e) =
    let same : key_eq p.0 k ≡ true = (key_eq_iff p.0 k).1 (ap (λ x. x.0) e) in
    rw same (ground arith)
has_key_of_pair (p ∷ pairs) k a (inr i) = rw (has_key_of_pair pairs k a i) (ground arith)

has_agent_of_pair :
    (pairs : List (NodeKey × Text)) (k : NodeKey) (a : Text)
    → In (k, a) pairs
    → has_label (map (λ p. p.1) pairs) a ≡ true
unfolding has_label
has_agent_of_pair [] k a i = elim i [ ]
has_agent_of_pair (p ∷ pairs) k a (inl e) =
    let same : text_eq p.1 a ≡ true = (text_eq_iff p.1 a).1 (ap (λ x. x.1) e) in
    rw same (ground arith)
has_agent_of_pair (p ∷ pairs) k a (inr i) = rw (has_agent_of_pair pairs k a i) (ground arith)

-- Pairs of different keys and different agents: the key tells the agent, and the agent the key.
pub one_agent :
    (pairs : List (NodeKey × Text)) (k : NodeKey) (a b : Text)
    → Distinct (map (λ p. p.0) pairs)
    → In (k, a) pairs
    → In (k, b) pairs
    → a ≡ b
one_agent [] k a b d i j = elim i [ ]
one_agent (p ∷ pairs) k a b d (inl e) (inl f) = sym (ap (λ x. x.1) e) ∙ ap (λ x. x.1) f
one_agent (p ∷ pairs) k a b d (inr i) (inr j) = one_agent pairs k a b d.1 i j
one_agent (p ∷ pairs) k a b d (inl e) (inr j) =
    let twice : member key_eq (map (λ p. p.0) pairs) p.0 ≡ true =
      rw (ap (λ x. x.0) e) (has_key_of_pair pairs k b j) in
    absurd (cc (twice, d.0))
one_agent (p ∷ pairs) k a b d (inr i) (inl f) =
    let twice : member key_eq (map (λ p. p.0) pairs) p.0 ≡ true =
      rw (ap (λ x. x.0) f) (has_key_of_pair pairs k a i) in
    absurd (cc (twice, d.0))

pub one_key :
    (busy : List Text) (pairs : List (NodeKey × Text)) (j k : NodeKey) (a : Text)
    → IsFresh busy pairs
    → In (j, a) pairs
    → In (k, a) pairs
    → j ≡ k
one_key busy [] j k a f i l = elim i [ ]
one_key busy (p ∷ pairs) j k a f (inl e) (inl g) = sym (ap (λ x. x.0) e) ∙ ap (λ x. x.0) g
one_key busy (p ∷ pairs) j k a f (inr i) (inr l) = one_key busy pairs j k a f.2 i l
one_key busy (p ∷ pairs) j k a f (inl e) (inr l) =
    let twice : has_label (map (λ p. p.1) pairs) p.1 ≡ true =
      rw (ap (λ x. x.1) e) (has_agent_of_pair pairs k a l) in
    absurd (cc (twice, f.1))
one_key busy (p ∷ pairs) j k a f (inr i) (inl g) =
    let twice : has_label (map (λ p. p.1) pairs) p.1 ≡ true =
      rw (ap (λ x. x.1) g) (has_agent_of_pair pairs j a i) in
    absurd (cc (twice, f.1))

-- What a list of pairs becomes as peers.
pub internal_origin :
    (pairs : List (NodeKey × Text)) (k : NodeKey) (v : EnvPeer)
    → In (k, v) (map with_internal pairs)
    → (a : Text) × In (k, a) pairs × (v ≡ internal_agent a)
internal_origin [] k v i = elim i [ ]
internal_origin (p ∷ pairs) k v (inl e) = (p.1, inl (ap (λ x. (x.0, p.1)) e), sym (ap (λ x. x.1) e))
internal_origin (p ∷ pairs) k v (inr i) =
    let (a, j, e) = internal_origin pairs k v i in (a, inr j, e)

pub internal_of_pair :
    (pairs : List (NodeKey × Text)) (k : NodeKey) (a : Text)
    → In (k, a) pairs
    → In (k, internal_agent a) (map with_internal pairs)
internal_of_pair [] k a i = elim i [ ]
internal_of_pair (p ∷ pairs) k a (inl e) = inl (ap with_internal e)
internal_of_pair (p ∷ pairs) k a (inr i) = inr (internal_of_pair pairs k a i)

pub external_origin :
    (es : Dict NodeKey ExternalNode) (k : NodeKey) (v : EnvPeer)
    → In (k, v) (map with_external es)
    → (is_some (lookup key_eq k es) ≡ true) × (v ≡ external_key k)
unfolding lookup
external_origin [] k v i = elim i [ ]
external_origin (p ∷ es) k v (inl e) =
    let key : p.0 ≡ k = ap (λ x. x.0) e in
    let same : key_eq p.0 k ≡ true = (key_eq_iff p.0 k).1 key in
    (rw same refl, sym (ap (λ x. x.1) e) ∙ ap external_key key)
external_origin (p ∷ es) k v (inr i) =
    let (found, own) = external_origin es k v i in
    (elim (Bool-cases (key_eq p.0 k)) [ inl e ↦ rw e refl | inr e ↦ rw e found ], own)

pub external_of_key :
    (es : Dict NodeKey ExternalNode) (k : NodeKey)
    → is_some (lookup key_eq k es) ≡ true
    → In (k, external_key k) (map with_external es)
unfolding lookup
external_of_key [] k h = absurd (cc h)
external_of_key (p ∷ es) k h = elim (Bool-cases (key_eq p.0 k)) [
  | inl e ↦ inl (ap (λ x. (x, external_key x)) ((key_eq_iff p.0 k).0 e))
  | inr e ↦ inr (external_of_key es k (rw e at h))
]

pub pair_of_key :
    (pairs : List (NodeKey × Text)) (k : NodeKey)
    → member key_eq (map (λ p. p.0) pairs) k ≡ true
    → (a : Text) × In (k, a) pairs
unfolding member
pair_of_key [] k h = absurd (cc h)
pair_of_key (p ∷ pairs) k h = elim (Bool-cases (key_eq p.0 k)) [
  | inl e ↦ (p.1, inl (ap (λ x. (x, p.1)) ((key_eq_iff p.0 k).0 e)))
  | inr e ↦ let (a, i) = pair_of_key pairs k (rw e at h) in (a, inr i)
]

pub removed_origin :
    (agent_keys : List NodeKey) (es : List (NodeKey × EnvPeer)) (a : Text)
    → member text_eq (removed_agents agent_keys es) a ≡ true
    → (k : NodeKey) × In (k, internal_agent a) es × (member key_eq agent_keys k ≡ false)
unfolding removed_agents member
removed_origin agent_keys [] a h = absurd (cc h)
removed_origin agent_keys ((k, external_key j) ∷ es) a h =
    let (l, i, out) = removed_origin agent_keys es a h in (l, inr i, out)
removed_origin agent_keys ((k, internal_agent b) ∷ es) a h =
    elim (Bool-cases (member key_eq agent_keys k)) [
      | inl e ↦ let (l, i, out) = removed_origin agent_keys es a (rw e at h) in (l, inr i, out)
      | inr e ↦ elim (Bool-cases (text_eq b a)) [
        | inl q ↦ (k, inl (ap (λ x. (k, internal_agent x)) ((text_eq_iff b a).0 q)), e)
        | inr q ↦
            let (l, i, out) = removed_origin agent_keys es a (rw (e, q) at h) in (l, inr i, out)
      ]
    ]
