-- ===== src/State/NodeKey.antt =====
-- crates/common/src/state/node_key.rs: a node's type, name and namespace, as text and as bytes.
pub mod RoundTrip
use snarkops.Common.{
  false, true, ℕ, ◌&&◌, Bool, not, Option, none, some, List, [], ◌∷◌, ◌++◌, ◌==◌, if◌then◌else◌,
  Result, ok, err, and_then,
}
use snarkops.Common.Text.{Text, codes, text_eq, all, split_once, is_id_char}
use snarkops.Format.{
  DataFormat, Reader, Output, ◌>>=◌, ◌⊕◌, pure, fail, unsupported_version, default_write_header,
  default_read_header,
}
use snarkops.Format.Ints.{u8_format, unit_format}
use snarkops.Format.Collections.{pair_format, string_format, option_format}
use snarkops.State.NodeType.{
  type_eq, NodeType, client, validator, prover, read_node_type, write_node_type,
}

pub record NodeKey : Type 0 where
  pub ty : NodeType
  pub id : Text
  -- `none` is a local node.
  pub ns : Option Text

-- `NodeType::as_ref`
unfoldable pub type_text : NodeType → Text
type_text client = codes "client"
type_text validator = codes "validator"
type_text prover = codes "prover"

-- `NodeType::from_str`; its error, a message, is `none`.
unfoldable pub parse_type : Text → Option NodeType
parse_type s =
    if text_eq s (codes "client")
    then some client
    else if text_eq s (codes "validator")
    then some validator
    else if text_eq s (codes "prover")
    then some prover
    else none

unfoldable pub is_empty : Text → Bool
is_empty [] = true
is_empty (_ ∷ _) = false

-- The groups `id` and `ns` of NODE_KEY_REGEX, behind the slash.
unfoldable pub key_groups : Text → Option (Text × Option Text)
unfolding is_empty
key_groups s = elim (split_once b'@' s) [
  | none ↦ if all is_id_char s then some (s, none) else none
  | some (id, ns) ↦
      if all is_id_char id && (all is_id_char ns && not (is_empty ns))
      then some (id, some ns)
      else none
]

-- "local" is written out by some, and is the same as no namespace.
unfoldable pub local_to_none : Option Text → Option Text
local_to_none none = none
local_to_none (some ns) = if text_eq ns (codes "local") then none else some ns

unfoldable pub key_of_groups : NodeType → Option (Text × Option Text) → Option NodeKey
unfolding local_to_none
key_of_groups ty none = none
key_of_groups ty (some (id, ns)) = some (record { ty = ty; id = id; ns = local_to_none ns })

unfoldable pub key_of_parts : Option NodeType → Text → Option NodeKey
unfolding key_of_groups key_groups
key_of_parts none rest = none
key_of_parts (some ty) rest = key_of_groups ty (key_groups rest)

-- `NodeKey::from_str`: the type stands before the first slash, which no type contains.
unfoldable pub from_str : Text → Option NodeKey
unfolding key_of_parts parse_type
from_str s = elim (split_once b'/' s) [
  | none ↦ none
  | some (ty, rest) ↦ key_of_parts (parse_type ty) rest
]

unfoldable pub namespace_eq : Option Text → Option Text → Bool
namespace_eq none none = true
namespace_eq none (some _) = false
namespace_eq (some _) none = false
namespace_eq (some s) (some t) = text_eq s t

-- The derived `PartialEq`.
unfoldable pub key_eq : NodeKey → NodeKey → Bool
unfolding namespace_eq
key_eq j k = type_eq j.ty k.ty && (text_eq j.id k.id && namespace_eq j.ns k.ns)

unfoldable pub namespace_suffix : Option Text → Text
namespace_suffix none = []
namespace_suffix (some ns) = b'@' ∷ ns

-- `Display`
unfoldable pub to_string : NodeKey → Text
unfolding type_text namespace_suffix
to_string k = type_text k.ty ++ (b'/' ∷ (k.id ++ namespace_suffix k.ns))

module _ (is_utf8 : List ℕ → Bool) where
  unfoldable pub write_node_key : NodeKey → Output
  write_node_key k =
      let text = string_format is_utf8 in
      write_node_type k.ty ⊕ text.write_data k.id ⊕ (option_format unit_format text).write_data k.ns

  unfoldable pub read_node_key : ℕ × ℕ → Reader NodeKey
  read_node_key (version, type_header) =
      let text = string_format is_utf8 in
      if version == 1
      then (do
        ty ← read_node_type type_header
        id ← text.read_data tt
        ns ← (option_format unit_format text).read_data tt
        pure (record { ty = ty; id = id; ns = ns }))
      else fail (unsupported_version "NodeKey" 1 version)

  abbrev pub node_key_format : DataFormat (ℕ × ℕ) NodeKey
  node_key_format = record {
    latest_header = (1, 1);
    write_header = default_write_header (pair_format u8_format u8_format) (1, 1);
    read_header = default_read_header (pair_format u8_format u8_format);
    write_data = write_node_key;
    read_data = read_node_key;
  }
