-- ===== src/State/NodeKey/RoundTrip.antt =====
-- Node keys of crates/common/src/state/node_key.rs: text and bytes, both ways.
use snarkops.Common.{
  Option-cases, inl, inr, ℕ, ◌≡◌, refl, Bool, true, false, Option, none, some, List, ◌++◌,
  append_assoc, append-nil, arith,
}
use snarkops.Common.Text.{
  Text, codes, text_eq, all, contains, split_once, split_once-append, split_once-none, is_id_char,
  not_contains_of_all,
}
use snarkops.Format.Laws.{IsLawful, default_read_header-default_write_header}
use snarkops.Format.Ints.{u8_format, unit_format}
use snarkops.Format.Ints.RoundTrip.{uint_format-IsLawful, unit_format-IsLawful}
use snarkops.Format.Collections.{write_bytes, write_option, pair_format, string_format}
use snarkops.Format.Collections.RoundTrip.{
  IsText, OptionIsValid, string_format-IsLawful, option_format-IsLawful, pair_format-IsLawful,
}
use snarkops.State.NodeType.{NodeType, client, validator, prover, node_type_format-IsLawful}
use snarkops.State.NodeKey.{
  NodeKey, type_text, parse_type, is_empty, key_groups, local_to_none, key_of_groups, key_of_parts,
  from_str, namespace_suffix, to_string, write_node_key, read_node_key, node_key_format,
}

-- What NODE_KEY_REGEX accepts, with the namespace "local" left out.
abbrev pub IsNamespace : Option Text → Type 0
IsNamespace none = Unit
IsNamespace (some ns) =
    (all is_id_char ns ≡ true) × (is_empty ns ≡ false) × (text_eq ns (codes "local") ≡ false)

pub record IsKey (k : NodeKey) : Type 0 where
  pub id_chars : all is_id_char k.id ≡ true
  pub namespace : IsNamespace k.ns

no_at : (s : Text) → all is_id_char s ≡ true → contains b'@' s ≡ false
unfolding is_id_char
no_at s h = not_contains_of_all is_id_char b'@' s refl h

parse_type-type_text : (ty : NodeType) → parse_type (type_text ty) ≡ some ty
unfolding parse_type type_text text_eq
parse_type-type_text client = refl
parse_type-type_text validator = refl
parse_type-type_text prover = refl

no_slash : (ty : NodeType) → contains b'/' (type_text ty) ≡ false
unfolding contains type_text
no_slash client = refl
no_slash validator = refl
no_slash prover = refl

key_groups-namespace_suffix :
    (id : Text) (ns : Option Text)
    → all is_id_char id ≡ true
    → IsNamespace ns
    → key_groups (id ++ namespace_suffix ns) ≡ some (id, ns)
unfolding key_groups namespace_suffix
key_groups-namespace_suffix id none h k =
    simp append-nil (rw (split_once-none b'@' id (no_at id h), key_groups) (rw h))
key_groups-namespace_suffix id (some ns) h (chars, full, other) =
    rw (split_once-append b'@' id ns (no_at id h), key_groups) (rw (h, chars, full))

local_to_none-IsNamespace : (ns : Option Text) → IsNamespace ns → local_to_none ns ≡ ns
unfolding local_to_none
local_to_none-IsNamespace none h = refl
local_to_none-IsNamespace (some ns) h = rw (h.2)

-- A node key whose name and namespace have characters of identifiers only, and whose namespace is
-- neither empty nor the word for a local node, is parsed back from its text.
pub key_from_str-to_string : (k : NodeKey) → IsKey k → from_str (to_string k) ≡ some k
unfolding from_str to_string
key_from_str-to_string k v =
    rw
      (
        split_once-append b'/' (type_text k.ty) (k.id ++ namespace_suffix k.ns) (no_slash k.ty),
        from_str,
      )
      (rw (
        parse_type-type_text k.ty,
        key_groups-namespace_suffix k.id k.ns v.id_chars v.namespace,
        local_to_none-IsNamespace k.ns v.namespace,
      ))

-- What the groups match is a name and, if there is one, a namespace that is not empty.
key_groups_sound :
    (s id : Text) (ns : Option Text)
    → key_groups s ≡ some (id, ns)
    → (all is_id_char id ≡ true) × IsNamespace (local_to_none ns)
unfolding key_groups local_to_none
key_groups_sound s id ns h = elim (Option-cases (split_once b'@' s)) [
  | inl e ↦ ground (arith, e)
  | inr ((a, b), e) ↦ ground (arith, e)
]

-- Every key that is parsed has a name and a namespace of characters of identifiers only, and a
-- namespace that is neither empty nor the word for a local node.
pub from_str-IsKey : (s : Text) (k : NodeKey) → from_str s ≡ some k → IsKey k
unfolding from_str key_of_parts key_of_groups
from_str-IsKey s k h = elim (Option-cases (split_once b'/' s)) [
  | inl e ↦ ground (arith, e)
  | inr ((a, b), e) ↦ ground (arith, e, key_groups_sound b)
]

module _ (is_utf8 : List ℕ → Bool) where
  abbrev pub IsKeyText : NodeKey → Type 0
  IsKeyText k = IsText is_utf8 k.id × OptionIsValid (IsText is_utf8) k.ns

  -- A node key, with a name and a namespace that are UTF-8 and shorter than 2^64 bytes, is read back
  -- from its bytes, with and without its header.
  pub node_key_format-IsLawful : IsLawful (node_key_format is_utf8) IsKeyText
  unfolding read_node_key write_node_key
  node_key_format-IsLawful =
      let text = string_format-IsLawful is_utf8 in
      let optional =
        option_format-IsLawful unit_format (string_format is_utf8) unit_format-IsLawful tt text in
      record {
        data_round_trip = λ k rest (id, ns).
            let id_bytes = (write_bytes k.id).bytes in
            let ns_bytes = (write_option (string_format is_utf8) k.ns).bytes in
            simp (
              append_assoc,
              node_type_format-IsLawful.data_round_trip k.ty (id_bytes ++ (ns_bytes ++ rest)) tt,
              text.data_round_trip k.id (ns_bytes ++ rest) id,
              optional.data_round_trip k.ns rest ns,
            );
        header_round_trip = λ k rest.
            default_read_header-default_write_header (pair_format u8_format u8_format) (1, 1) k rest
              (pair_format-IsLawful u8_format u8_format (uint_format-IsLawful 1)
                (uint_format-IsLawful 1))
              (omega arith, omega arith);
      }
