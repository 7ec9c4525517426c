-- ===== src/State/NodeTarget.antt =====
-- crates/common/src/node_targets.rs: patterns over node keys, and their text. The `wildmatch`
-- crate, which is not part of the repository, is the interface `WildMatch`.
pub mod Matching
pub mod RoundTrip
pub mod Formats
use snarkops.Common.{
  ℕ, ◌≡◌, ◌&&◌, ◌||◌, Bool, true, false, not, Option, none, some, List, [], ◌∷◌, ◌++◌, ◌==◌,
  if◌then◌else◌,
}
use snarkops.Common.Text.{Text, codes, text_eq, all, contains, split_once, is_id_char}
use snarkops.State.NodeType.{NodeType, client, validator, prover, type_eq}
use snarkops.State.NodeKey.{NodeKey, is_empty, type_text, parse_type}

-- `WildMatch`: a compiled pattern and its text, which is what it was made of.
pub record WildMatch (P : Type 0) : Type 0 where
  pub new : Text → P
  pub to_string : P → Text
  pub matches : P → Text → Bool

pub data NodeTargetType : Type 0 where
  all_types : NodeTargetType
  one_type : NodeType → NodeTargetType

pub data NodeTargetId (P : Type 0) : Type 0 where
  all_ids : NodeTargetId P
  wildcard_pattern : P → NodeTargetId P
  literal : Text → NodeTargetId P

pub data NodeTargetNamespace : Type 0 where
  all_namespaces local : NodeTargetNamespace
  literal : Text → NodeTargetNamespace

pub record NodeTarget (P : Type 0) : Type 0 where
  pub ty : NodeTargetType
  pub id : NodeTargetId P
  pub ns : NodeTargetNamespace

pub data NodeTargets (P : Type 0) : Type 0 where
  no_target : NodeTargets P
  one_target : NodeTarget P → NodeTargets P
  many : List (NodeTarget P) → NodeTargets P

-- `NodeTarget::ALL`
abbrev pub all_target : {P : Type 0} → NodeTarget P
all_target = record { ty = all_types; id = all_ids; ns = all_namespaces }

-- `captures["ty"]`
unfoldable pub parse_target_type : Text → Option NodeTargetType
unfolding parse_type
parse_target_type s =
    if text_eq s (codes "*") || text_eq s (codes "any")
    then some all_types
    else elim (parse_type s) [ none ↦ none | some ty ↦ some (one_type ty) ]

-- `[A-Za-z0-9\-*]`
unfoldable pub is_target_char : ℕ → Bool
unfolding is_id_char
is_target_char c = is_id_char c || c == b'*'

abbrev pub is_target_word : Text → Bool
is_target_word s = all is_target_char s && not (is_empty s)

-- The groups `id` and `ns` of NODE_TARGET_REGEX, behind the slash.
unfoldable pub target_groups : Text → Option (Text × Option Text)
unfolding is_empty
target_groups s = elim (split_once b'@' s) [
  | none ↦ if is_target_word s then some (s, none) else none
  | some (id, ns) ↦ if is_target_word id && is_target_word ns then some (id, some ns) else none
]

unfoldable pub namespace_of_group : Option Text → NodeTargetNamespace
namespace_of_group none = local
namespace_of_group (some ns) =
    if text_eq ns (codes "*") || text_eq ns (codes "any")
    then all_namespaces
    else if text_eq ns (codes "local")
    then local
    else literal ns

unfoldable pub namespace_text : NodeTargetNamespace → Text
namespace_text all_namespaces = codes "@any"
namespace_text local = []
namespace_text (NodeTargetNamespace.literal ns) = b'@' ∷ ns

unfoldable pub target_type_text : NodeTargetType → Text
unfolding type_text
target_type_text all_types = codes "any"
target_type_text (one_type ty) = type_text ty

unfoldable pub namespace_matches : NodeTargetNamespace → Option Text → Bool
namespace_matches all_namespaces key = true
namespace_matches local none = true
namespace_matches local (some key) = text_eq key (codes "local")
namespace_matches (NodeTargetNamespace.literal ns) none = text_eq ns (codes "local")
namespace_matches (NodeTargetNamespace.literal ns) (some key) = text_eq key ns

unfoldable pub type_matches : NodeTargetType → NodeType → Bool
unfolding type_eq
type_matches all_types key = true
type_matches (one_type ty) key = type_eq ty key

module _ {P : Type 0} (W : WildMatch P) where
  unfoldable pub id_of_group : Text → NodeTargetId P
  id_of_group id =
      if text_eq id (codes "*") || text_eq id (codes "any")
      then all_ids
      else if contains b'*' id
      then wildcard_pattern (W.new id)
      else literal id

  unfoldable pub target_of_groups :
      NodeTargetType → Option (Text × Option Text) → Option (NodeTarget P)
  unfolding id_of_group namespace_of_group
  target_of_groups ty none = none
  target_of_groups ty (some (id, ns)) =
      some (record { ty = ty; id = id_of_group id; ns = namespace_of_group ns })

  unfoldable pub target_of_parts : Option NodeTargetType → Text → Option (NodeTarget P)
  unfolding target_of_groups target_groups
  target_of_parts none rest = none
  target_of_parts (some ty) rest = target_of_groups ty (target_groups rest)

  -- `NodeTarget::from_str`
  unfoldable pub from_str : Text → Option (NodeTarget P)
  unfolding target_of_parts parse_target_type
  from_str s = elim (split_once b'/' s) [
    | none ↦ none
    | some (ty, rest) ↦ target_of_parts (parse_target_type ty) rest
  ]

  unfoldable pub id_text : NodeTargetId P → Text
  id_text all_ids = codes "any"
  id_text (wildcard_pattern p) = W.to_string p
  id_text (NodeTargetId.literal id) = id

  -- `Display`
  unfoldable pub to_string : NodeTarget P → Text
  unfolding target_type_text id_text namespace_text
  to_string t = target_type_text t.ty ++ (b'/' ∷ (id_text t.id ++ namespace_text t.ns))

  unfoldable pub id_matches : NodeTargetId P → Text → Bool
  id_matches all_ids key = true
  id_matches (wildcard_pattern p) key = W.matches p key
  id_matches (NodeTargetId.literal id) key = text_eq key id

  -- `NodeTarget::matches`
  unfoldable pub matches : NodeTarget P → NodeKey → Bool
  unfolding type_matches id_matches namespace_matches
  matches t key =
      type_matches t.ty key.ty && (id_matches t.id key.id && namespace_matches t.ns key.ns)

  -- `targets.iter().any(|target| target.matches(key))`
  unfoldable pub any_matches : List (NodeTarget P) → NodeKey → Bool
  unfolding matches
  any_matches [] key = false
  any_matches (t ∷ ts) key = matches t key || any_matches ts key

  -- `NodeTargets::matches`
  unfoldable pub targets_match : NodeTargets P → NodeKey → Bool
  unfolding any_matches
  targets_match no_target key = false
  targets_match (one_target t) key = matches t key
  targets_match (many ts) key = any_matches ts key

unfoldable pub namespace_of_key : Option Text → NodeTargetNamespace
namespace_of_key none = local
namespace_of_key (some ns) = literal ns

unfoldable pub all_type : NodeTargetType → Bool
all_type all_types = true
all_type (one_type _) = false

unfoldable pub all_id : {P : Type 0} → NodeTargetId P → Bool
all_id all_ids = true
all_id _ = false

unfoldable pub all_namespace : NodeTargetNamespace → Bool
all_namespace all_namespaces = true
all_namespace _ = false

module _ {P : Type 0} where
  -- `From<Vec<NodeTarget>>`
  unfoldable pub from_vec : List (NodeTarget P) → NodeTargets P
  from_vec [] = no_target
  from_vec (t ∷ []) = one_target t
  from_vec (t ∷ u ∷ ts) = many (t ∷ u ∷ ts)

  -- `From<NodeKey>`
  unfoldable pub from_key : NodeKey → NodeTarget P
  unfolding namespace_of_key
  from_key k = record { ty = one_type k.ty; id = literal k.id; ns = namespace_of_key k.ns }

  -- `target == &NodeTarget::ALL`
  unfoldable pub is_all_target : NodeTarget P → Bool
  unfolding all_type all_id all_namespace
  is_all_target t = all_type t.ty && (all_id t.id && all_namespace t.ns)

  unfoldable pub any_all : List (NodeTarget P) → Bool
  unfolding is_all_target
  any_all [] = false
  any_all (t ∷ ts) = is_all_target t || any_all ts

  -- `NodeTargets::is_all`
  unfoldable pub is_all : NodeTargets P → Bool
  unfolding any_all
  is_all no_target = false
  is_all (one_target t) = is_all_target t
  is_all (many ts) = any_all ts

  -- `NodeTargets::is_empty`
  unfoldable pub targets_are_empty : NodeTargets P → Bool
  targets_are_empty no_target = true
  targets_are_empty (one_target t) = false
  targets_are_empty (many []) = true
  targets_are_empty (many (_ ∷ _)) = false
