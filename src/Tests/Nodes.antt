-- ===== src/Tests/Nodes.antt =====
-- Node keys and node targets.
use snarkops.Common.{ℕ, ◌≡◌, refl, Bool, true, List, none, some}
use snarkops.Common.Text.{Text, codes, text_eq, split_once, all, contains, is_id_char}
use snarkops.State.NodeType.{client, validator}
use snarkops.State.NodeKey.{NodeKey, local_to_none, node_key_format, is_empty}
use snarkops.State.NodeKey
use snarkops.State.NodeKey.RoundTrip.{IsKey, key_from_str-to_string, from_str-IsKey}
use snarkops.State.NodeTarget
use snarkops.State.NodeTarget.{
  WildMatch, NodeTarget, NodeTargetNamespace, NodeTargetId, one_type, all_types, all_ids,
  all_namespaces, local, one_target, is_all, targets_match, from_vec, any_matches, from_key,
  matches, all_target, is_target_char,
}
use snarkops.State.NodeTarget.RoundTrip.{target_from_str-to_string}

abbrev foo : NodeKey
foo = record { ty = client; id = codes "foo-1"; ns = some (codes "main") }

-- A matcher that takes the pattern for the name.
abbrev pub exact : WildMatch Text
exact = record { new = λ s. s; to_string = λ p. p; matches = text_eq }

foo_runs : NodeKey.from_str (codes "client/foo-1@main") ≡ some foo
unfolding NodeKey.from_str split_once all is_id_char text_eq
foo_runs = refl

not_a_key : NodeKey.from_str (codes "miner/foo") ≡ none
unfolding NodeKey.from_str split_once text_eq
not_a_key = refl

foo-IsKey : IsKey foo
unfolding all is_id_char is_empty text_eq
foo-IsKey = record { id_chars = refl; namespace = (refl, refl, refl) }

key_from_str-to_string_example : NodeKey.from_str (NodeKey.to_string foo) ≡ some foo
key_from_str-to_string_example = key_from_str-to_string foo foo-IsKey

from_str-IsKey_example : IsKey foo
from_str-IsKey_example = from_str-IsKey (codes "client/foo-1@main") foo foo_runs

abbrev pub any_text : List ℕ → Bool
any_text _ = true

abbrev some_target : NodeTarget Text
some_target = record {
  ty = one_type validator;
  id = NodeTargetId.literal (codes "3");
  ns = NodeTargetNamespace.literal (codes "main");
}

target_runs : NodeTarget.from_str exact (codes "validator/3@main") ≡ some some_target
unfolding NodeTarget.from_str split_once all text_eq contains is_target_char
target_runs = refl

words : Unit {0}
unfolding all is_target_char is_empty text_eq contains
words = tt

target_from_str-to_string_example :
    NodeTarget.from_str exact (NodeTarget.to_string exact some_target) ≡ some some_target
unfolding words
target_from_str-to_string_example =
    target_from_str-to_string exact some_target (refl, refl, refl, refl) (refl, refl, refl, refl)
