-- ===== src/State/NodeTarget/RoundTrip.antt =====
-- Node targets of crates/common/src/node_targets.rs, as text and back.
use snarkops.Common.{◌≡◌, refl, true, false, Option, none, some, ◌++◌, append-nil, arith}
use snarkops.Common.Text.{
  Text, codes, text_eq, all, contains, split_once-append, split_once-none, not_contains_of_all,
}
use snarkops.State.NodeType.{client, validator, prover}
use snarkops.State.NodeKey.{is_empty}
use snarkops.State.NodeTarget.{
  WildMatch, NodeTarget, NodeTargetType, all_types, one_type, all_ids, wildcard_pattern,
  all_namespaces, local, NodeTargetNamespace, NodeTargetId, is_target_char, is_target_word,
  parse_target_type, target_groups, namespace_of_group, namespace_text, target_type_text,
  id_of_group, id_text, from_str, to_string,
}

-- The namespace is a word that stands for itself.
abbrev pub IsNamespaceName : NodeTargetNamespace → Type 0
IsNamespaceName all_namespaces = Unit
IsNamespaceName local = Unit
IsNamespaceName (NodeTargetNamespace.literal ns) =
    (is_target_word ns ≡ true)
    × (text_eq ns (codes "*") ≡ false)
    × (text_eq ns (codes "any") ≡ false)
    × (text_eq ns (codes "local") ≡ false)

module _ {P : Type 0} (W : WildMatch P) where
  -- A literal has no wildcard in it and is not the word "any"; a pattern has one, is not "*", and is
  -- what its text compiles to.
  abbrev pub IsIdName : NodeTargetId P → Type 0
  IsIdName all_ids = Unit
  IsIdName (wildcard_pattern p) =
      (W.new (W.to_string p) ≡ p)
      × (is_target_word (W.to_string p) ≡ true)
      × (contains b'*' (W.to_string p) ≡ true)
      × (text_eq (W.to_string p) (codes "*") ≡ false)
      × (text_eq (W.to_string p) (codes "any") ≡ false)
  IsIdName (NodeTargetId.literal id) =
      (is_target_word id ≡ true)
      × (contains b'*' id ≡ false)
      × (text_eq id (codes "*") ≡ false)
      × (text_eq id (codes "any") ≡ false)

no_at : (s : Text) → all is_target_char s ≡ true → contains b'@' s ≡ false
unfolding is_target_char
no_at s h = not_contains_of_all is_target_char b'@' s refl h

parse_target_type-text : (ty : NodeTargetType) → parse_target_type (target_type_text ty) ≡ some ty
unfolding parse_target_type target_type_text text_eq
parse_target_type-text all_types = refl
parse_target_type-text (one_type client) = refl
parse_target_type-text (one_type validator) = refl
parse_target_type-text (one_type prover) = refl

no_slash : (ty : NodeTargetType) → contains b'/' (target_type_text ty) ≡ false
unfolding contains target_type_text
no_slash all_types = refl
no_slash (one_type client) = refl
no_slash (one_type validator) = refl
no_slash (one_type prover) = refl

-- The group that a printed namespace is read as.
group_of : NodeTargetNamespace → Option Text
group_of all_namespaces = some (codes "any")
group_of local = none
group_of (NodeTargetNamespace.literal ns) = some ns

target_groups-text :
    (id : Text) (ns : NodeTargetNamespace)
    → is_target_word id ≡ true
    → IsNamespaceName ns
    → target_groups (id ++ namespace_text ns) ≡ some (id, group_of ns)
unfolding target_groups namespace_text group_of
target_groups-text id all_namespaces h k =
    let chars : all is_target_char id ≡ true = ground arith in
    rw (split_once-append b'@' id (codes "any") (no_at id chars), target_groups)
      (rw h (unfold all is_target_char in refl))
target_groups-text id local h k =
    let chars : all is_target_char id ≡ true = ground arith in
    simp append-nil (rw (split_once-none b'@' id (no_at id chars), target_groups) (rw h))
target_groups-text id (NodeTargetNamespace.literal ns) h k =
    let chars : all is_target_char id ≡ true = ground arith in
    rw (split_once-append b'@' id ns (no_at id chars), target_groups) (rw (h, k.0))

namespace_of_group-group_of :
    (ns : NodeTargetNamespace) → IsNamespaceName ns → namespace_of_group (group_of ns) ≡ ns
unfolding namespace_of_group group_of text_eq
namespace_of_group-group_of all_namespaces h = refl
namespace_of_group-group_of local h = refl
namespace_of_group-group_of (NodeTargetNamespace.literal ns) (word, star, any, here) =
    rw (star, any, here)

module _ {P : Type 0} (W : WildMatch P) where
  id_text_word : (id : NodeTargetId P) → IsIdName W id → is_target_word (id_text W id) ≡ true
  unfolding id_text
  id_text_word all_ids h = unfold all is_target_char is_empty in refl
  id_text_word (wildcard_pattern p) h = h.1
  id_text_word (NodeTargetId.literal id) h = h.0

  id_of_group-id_text : (id : NodeTargetId P) → IsIdName W id → id_of_group W (id_text W id) ≡ id
  unfolding id_of_group id_text
  id_of_group-id_text all_ids h = unfold text_eq in refl
  id_of_group-id_text (wildcard_pattern p) (back, word, wild, star, any) =
      rw (star, any, wild, back)
  id_of_group-id_text (NodeTargetId.literal id) (word, wild, star, any) = rw (star, any, wild)

  -- A node target is parsed back from its text if its name and namespace are words of a target: a
  -- literal one has no wildcard and is no reserved word, and a pattern is what its text compiles to.
  pub target_from_str-to_string :
      (t : NodeTarget P)
      → IsIdName W t.id
      → IsNamespaceName t.ns
      → from_str W (to_string W t) ≡ some t
  unfolding from_str to_string
  target_from_str-to_string t h k =
      rw
        (
          split_once-append b'/' (target_type_text t.ty) (id_text W t.id ++ namespace_text t.ns)
              (no_slash t.ty),
          from_str,
        )
        (rw (
          parse_target_type-text t.ty,
          target_groups-text (id_text W t.id) t.ns (id_text_word t.id h) k,
          id_of_group-id_text t.id h,
          namespace_of_group-group_of t.ns k,
        ))
