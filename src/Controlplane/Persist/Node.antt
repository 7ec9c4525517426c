-- ===== src/Controlplane/Persist/Node.antt =====
-- crates/controlplane/src/persist/node.rs: a node of an environment in the database, with the agent
-- that runs it.
use snarkops.Common.Text.{Text}
use snarkops.Controlplane.Nodes.{
  Node, ExternalNode, NodeFormatHeader, node_header_format, latest_node_header, node_format,
  external_node_format,
}
use snarkops.Controlplane.Nodes.RoundTrip.{
  IsNode, IsExternalNode, IsNodeHeader, node_format-IsLawful, external_node_format-IsLawful,
  node_header_format-IsLawful,
}
use snarkops.State.NodeTarget.{WildMatch}
use snarkops.Format.Ints.{read_uint, write_uint, u8_format}
use snarkops.Format.Ints.RoundTrip.{IsUint, read_uint-write_uint, uint_format-IsLawful}
use snarkops.Format.Collections.{string_format}
use snarkops.Format.Collections.RoundTrip.{IsText, string_format-IsLawful}
use snarkops.Format.Laws.{
  IsLawful, default_read_header-default_write_header, read_dataformat-write_dataformat,
}
use snarkops.Format.{
  DataFormat, Reader, Output, ◌>>=◌, ◌⊕◌, pure, fail, custom, unsupported_version,
  default_write_header, default_read_header, write_dataformat, read_dataformat,
}
use snarkops.Common.{
  ℕ, ◌≡◌, refl, Bool, List, ◌++◌, ◌==◌, if◌then◌else◌, ok, arith, and_then_ok, append_assoc,
}

pub data PersistNode (P : Type 0) : Type 0 where
  internal_node : Text → Node P → PersistNode P
  external_node : ExternalNode → PersistNode P

pub record PersistNodeFormatHeader : Type 0 where
  pub node_header : NodeFormatHeader
  pub external_header : ℕ

unfoldable pub write_persist_node_header : PersistNodeFormatHeader → Output
write_persist_node_header h =
    write_dataformat node_header_format h.node_header ⊕ write_dataformat u8_format h.external_header

unfoldable pub read_persist_node_header : ℕ → Reader PersistNodeFormatHeader
read_persist_node_header header =
    if header == 1
    then (do
      node ← read_dataformat node_header_format
      external ← read_dataformat u8_format
      pure (record { node_header = node; external_header = external }))
    else fail (unsupported_version "PersistNodeFormatHeader" 1 header)

abbrev pub persist_node_header_format : DataFormat ℕ PersistNodeFormatHeader
persist_node_header_format = record {
  latest_header = 1;
  write_header = default_write_header u8_format 1;
  read_header = default_read_header u8_format;
  write_data = write_persist_node_header;
  read_data = read_persist_node_header;
}

abbrev pub latest_persist_node_header : PersistNodeFormatHeader
latest_persist_node_header = record { node_header = latest_node_header; external_header = 1 }

abbrev pub IsPersistNodeHeader : PersistNodeFormatHeader → Type 0
IsPersistNodeHeader h = IsNodeHeader h.node_header × IsUint 1 h.external_header

pub persist_node_header_format-IsLawful : IsLawful persist_node_header_format IsPersistNodeHeader
unfolding write_persist_node_header read_persist_node_header
persist_node_header_format-IsLawful = record {
  data_round_trip = λ h rest (node, external).
      let written = (write_dataformat u8_format h.external_header).bytes in
      rw (append_assoc (write_dataformat node_header_format h.node_header).bytes written rest) (
        and_then_ok _
          (read_dataformat-write_dataformat node_header_format h.node_header (written ++ rest)
            node_header_format-IsLawful node)
          (and_then_ok _
            (read_dataformat-write_dataformat u8_format h.external_header rest
              (uint_format-IsLawful 1) external)
            refl));
  header_round_trip = λ h rest.
      default_read_header-default_write_header u8_format 1 h rest (uint_format-IsLawful 1)
        (omega arith);
}

module _ {P : Type 0} (W : WildMatch P) (is_utf8 : List ℕ → Bool) where
  unfoldable pub write_persist_node : PersistNode P → Output
  write_persist_node (internal_node id n) =
      write_uint 1 0 ⊕ (string_format is_utf8).write_data id ⊕ (node_format W is_utf8).write_data n
  write_persist_node (external_node n) = write_uint 1 1 ⊕ external_node_format.write_data n

  unfoldable pub persist_node_of_tag : PersistNodeFormatHeader → ℕ → Reader (PersistNode P)
  persist_node_of_tag header n =
      if n == 0
      then (do
        id ← (string_format is_utf8).read_data tt
        node ← (node_format W is_utf8).read_data header.node_header
        pure (internal_node id node))
      else if n == 1
      then (do
        node ← external_node_format.read_data header.external_header
        pure (external_node node))
      else fail (custom "invalid PersistNode discriminant")

  unfoldable pub read_persist_node : PersistNodeFormatHeader → Reader (PersistNode P)
  unfolding persist_node_of_tag
  read_persist_node header = do n ← read_uint 1; persist_node_of_tag header n

  abbrev pub persist_node_format : DataFormat PersistNodeFormatHeader (PersistNode P)
  persist_node_format = record {
    latest_header = latest_persist_node_header;
    write_header = default_write_header persist_node_header_format latest_persist_node_header;
    read_header = default_read_header persist_node_header_format;
    write_data = write_persist_node;
    read_data = read_persist_node;
  }

  abbrev pub IsPersistNode : PersistNode P → Type 0
  IsPersistNode (internal_node id n) = IsText is_utf8 id × IsNode W is_utf8 n
  IsPersistNode (external_node n) = IsExternalNode n

  read_persist_node-write_persist_node :
      (n : PersistNode P) (rest : List ℕ)
      → IsPersistNode n
      → read_persist_node latest_persist_node_header ((write_persist_node n).bytes ++ rest)
        ≡ ok (n, rest)
  unfolding read_persist_node write_persist_node
  read_persist_node-write_persist_node (internal_node id n) rest (h, k) = simp append_assoc (
      and_then_ok _ (read_uint-write_uint 1 0 _ (omega arith)) (
        and_then_ok _ ((string_format-IsLawful is_utf8).data_round_trip id _ h)
          (and_then_ok _ ((node_format-IsLawful W is_utf8).data_round_trip n rest k) refl)))
  read_persist_node-write_persist_node (external_node n) rest h = simp append_assoc (
      and_then_ok _ (read_uint-write_uint 1 1 _ (omega arith))
        (and_then_ok _ (external_node_format-IsLawful.data_round_trip n rest h) refl))

  pub persist_node_format-IsLawful : IsLawful persist_node_format IsPersistNode
  persist_node_format-IsLawful = record {
    data_round_trip = read_persist_node-write_persist_node;
    header_round_trip = λ n rest.
        default_read_header-default_write_header persist_node_header_format
          latest_persist_node_header n rest persist_node_header_format-IsLawful
          (
            (omega arith, (omega arith, omega arith), (omega arith, omega arith), refl),
            omega arith,
          );
  }
