-- ===== src/State/NodeTarget/Matching.antt =====
-- Which node keys a target of crates/common/src/node_targets.rs matches.
use snarkops.Common.{sym, ◌≡◌, ◌↔◌, refl, true, Option, none, some, List, [], ◌∷◌, arith}
use snarkops.Common.Text.{Text, codes, text_eq_iff}
use snarkops.State.NodeType.{type_eq_iff}
use snarkops.State.NodeKey.{NodeKey, local_to_none}
use snarkops.State.NodeTarget.{
  WildMatch, NodeTarget, NodeTargets, no_target, one_target, many, namespace_matches,
  namespace_of_key, matches, any_matches, targets_match, from_vec, from_key, is_all_target, any_all,
  is_all,
}

-- The same node: no namespace is the namespace "local".
pub record IsSameNode (a b : NodeKey) : Type 0 where
  pub same_type : a.ty ≡ b.ty
  pub same_id : a.id ≡ b.id
  pub same_namespace : local_to_none a.ns ≡ local_to_none b.ns

namespace_matches_iff :
    (a b : Option Text)
    → (namespace_matches (namespace_of_key a) b ≡ true) ↔ (local_to_none a ≡ local_to_none b)
unfolding namespace_matches namespace_of_key local_to_none
namespace_matches_iff none none = (λ _. refl, λ _. refl)
namespace_matches_iff none (some y) = ground arith
namespace_matches_iff (some x) none = ground arith
namespace_matches_iff (some x) (some y) =
    ground (arith, text_eq_iff y x, text_eq_iff x (codes "local"), text_eq_iff y (codes "local"))

module _ {P : Type 0} (W : WildMatch P) where
  -- The target made of a key matches the keys of the same node, and no other.
  pub matches-from_key : (a b : NodeKey) → (matches W (from_key a) b ≡ true) ↔ IsSameNode a b
  unfolding matches from_key
  matches-from_key a b = (
    λ h. record {
      same_type = ground (arith, type_eq_iff a.ty b.ty);
      same_id = ground (arith, text_eq_iff b.id a.id);
      same_namespace = ground (arith, namespace_matches_iff a.ns b.ns);
    },
    λ s. ground (
      arith,
      (type_eq_iff a.ty b.ty).1 s.same_type,
      (text_eq_iff b.id a.id).1 (sym s.same_id),
      (namespace_matches_iff a.ns b.ns).1 s.same_namespace,
    ),
  )

  -- A list of targets matches what one of them matches, however it is represented.
  pub targets_match-from_vec :
      (ts : List (NodeTarget P)) (k : NodeKey)
      → targets_match W (from_vec ts) k ≡ any_matches W ts k
  unfolding targets_match from_vec any_matches
  targets_match-from_vec [] k = refl
  targets_match-from_vec (t ∷ []) k = ground arith
  targets_match-from_vec (t ∷ u ∷ ts) k = refl

  all_target_matches :
      (t : NodeTarget P) (k : NodeKey) → is_all_target t ≡ true → matches W t k ≡ true
  unfolding is_all_target matches
  all_target_matches t k h = ground arith

  any_all_matches :
      (ts : List (NodeTarget P)) (k : NodeKey) → any_all ts ≡ true → any_matches W ts k ≡ true
  unfolding any_all any_matches
  any_all_matches [] k h = cc
  any_all_matches (t ∷ ts) k h = ground (arith, all_target_matches t k, any_all_matches ts k)

  -- Targets that `is_all` recognises match every node.
  pub is_all-targets_match :
      (ts : NodeTargets P) (k : NodeKey) → is_all ts ≡ true → targets_match W ts k ≡ true
  unfolding is_all targets_match
  is_all-targets_match no_target k h = cc
  is_all-targets_match (one_target t) k h = all_target_matches t k h
  is_all-targets_match (many ts) k h = any_all_matches ts k h
