-- ===== src/Controlplane/Env/Mask.antt =====
-- `Node::mask` of crates/controlplane/src/schema/nodes.rs and `AgentFlags::mask` of
-- crates/controlplane/src/state/agent_flags.rs: what a node needs and an agent has, as sets of bits.
pub mod Meaning
use snarkops.Common.Text.{text_eq, Text}
use snarkops.Controlplane.Env.BitSet.{BitSet}
use snarkops.Common.{
  ◌+◌, ◌||◌, length, if◌then◌else◌, Option, suc, Bool, ℕ, List, [], ◌∷◌, refl, none, some, true,
  false,
}
use snarkops.State.AgentMode.{AgentModeOptions}
use snarkops.State.NodeType.{NodeType, MaskBit, mask_bit, bit, mask_prefix_len}

-- `AgentFlags`; a label is an interned text.
pub record AgentFlags : Type 0 where
  pub mode : AgentModeOptions
  pub labels : List Text
  pub local_pk : Bool

-- `Node`, as far as its agent is chosen by it; `local_key` is `matches!(key, Some(KeySource::Local))`.
pub record Node : Type 0 where
  pub local_key : Bool
  pub labels : List Text
  pub agent : Option Text

-- `labels.contains(label)`
unfoldable pub has_label : List Text → Text → Bool
has_label [] label = false
has_label (l ∷ ls) label = text_eq l label || has_label ls label

module _ {S : Type 0} (B : BitSet S) where
  unfoldable pub insert_if : Bool → ℕ → S → S
  insert_if b i mask = if b then B.insert i mask else mask

  -- `for (i, label) in labels.iter().enumerate()`, from the bit of the first label.
  unfoldable pub insert_labels : List Text → ℕ → List Text → S → S
  unfolding has_label insert_if
  insert_labels has i [] mask = mask
  insert_labels has i (label ∷ labels) mask =
      insert_labels has (suc i) labels (insert_if (has_label has label) i mask)

  unfoldable pub node_mask : Node → NodeType → List Text → S
  unfolding insert_if insert_labels
  node_mask node ty labels =
      let empty = B.with_capacity (length labels + mask_prefix_len) in
      insert_labels node.labels mask_prefix_len labels
        (insert_if node.local_key (mask_bit MaskBit.local_private_key) (B.insert (bit ty) empty))

  unfoldable pub agent_mask : AgentFlags → List Text → S
  unfolding insert_if insert_labels
  agent_mask flags labels =
      let empty = B.with_capacity (length labels + mask_prefix_len) in
      let validators = insert_if flags.mode.validator (mask_bit MaskBit.validator) empty in
      let provers = insert_if flags.mode.prover (mask_bit MaskBit.prover) validators in
      let clients = insert_if flags.mode.client (mask_bit MaskBit.client) provers in
      let computing = insert_if flags.mode.compute (mask_bit MaskBit.compute) clients in
      insert_labels flags.labels mask_prefix_len labels
        (insert_if flags.local_pk (mask_bit MaskBit.local_private_key) computing)

-- Whether an agent's modes have the type of a node.
unfoldable pub has_mode : AgentModeOptions → NodeType → Bool
has_mode mode NodeType.validator = mode.validator
has_mode mode NodeType.prover = mode.prover
has_mode mode NodeType.client = mode.client
