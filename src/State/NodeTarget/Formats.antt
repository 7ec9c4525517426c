-- ===== src/State/NodeTarget/Formats.antt =====
-- The formats of `NodeTarget` and `NodeTargets` of crates/common/src/node_targets.rs.
use snarkops.Format.Laws.{default_read_header-default_write_header, IsLawful}
use snarkops.State.NodeTarget.{
  WildMatch, NodeTargetType, all_types, one_type, NodeTargetId, all_ids, wildcard_pattern,
  NodeTargetNamespace, all_namespaces, local, NodeTarget, NodeTargets, no_target, one_target, many,
  from_vec,
}
use snarkops.State.NodeType.{write_node_type, read_node_type, node_type_format-IsLawful}
use snarkops.Format.Ints.{read_uint, write_uint, u8_format}
use snarkops.Format.Ints.RoundTrip.{tagged_ok, uint_format-IsLawful, read_uint-write_uint}
use snarkops.Format.Collections.{string_format, pair_format, write_vec, read_vec}
use snarkops.Format.Collections.RoundTrip.{
  vec_format-IsLawful, pair_format-IsLawful, IsText, IsVec, string_format-IsLawful,
}
use snarkops.Common.{
  ℕ, ◌≡◌, refl, Bool, List, [], ◌∷◌, ◌++◌, ◌==◌, if◌then◌else◌, ok, arith, and_then_ok,
  append_assoc,
}
use snarkops.Format.{
  DataFormat, Reader, Output, ◌>>=◌, ◌⊕◌, pure, fail, custom, unsupported_version,
  default_write_header, default_read_header,
}

unfoldable pub write_target_type : NodeTargetType → Output
write_target_type all_types = write_uint 1 0
write_target_type (one_type ty) = write_uint 1 1 ⊕ write_node_type ty

unfoldable pub target_type_of_tag : ℕ → ℕ → Reader NodeTargetType
target_type_of_tag type_header n =
    if n == 0
    then pure all_types
    else if n == 1
    then (do ty ← read_node_type type_header; pure (one_type ty))
    else fail (custom "invalid NodeTarget type discriminant")

module _ {P : Type 0} (W : WildMatch P) (is_utf8 : List ℕ → Bool) where
  unfoldable pub write_target_id : NodeTargetId P → Output
  write_target_id all_ids = write_uint 1 0
  write_target_id (wildcard_pattern pattern) =
      write_uint 1 1 ⊕ (string_format is_utf8).write_data (W.to_string pattern)
  write_target_id (NodeTargetId.literal id) = write_uint 1 2 ⊕ (string_format is_utf8).write_data id

  unfoldable pub target_id_of_tag : ℕ → Reader (NodeTargetId P)
  target_id_of_tag n =
      let text = string_format is_utf8 in
      if n == 0
      then pure all_ids
      else if n == 1
      then (do pattern ← text.read_data tt; pure (wildcard_pattern (W.new pattern)))
      else if n == 2
      then (do id ← text.read_data tt; pure (NodeTargetId.literal id))
      else fail (custom "invalid NodeTarget ID discriminant")

  unfoldable pub write_namespace : NodeTargetNamespace → Output
  write_namespace all_namespaces = write_uint 1 0
  write_namespace local = write_uint 1 1
  write_namespace (NodeTargetNamespace.literal ns) =
      write_uint 1 2 ⊕ (string_format is_utf8).write_data ns

  unfoldable pub namespace_of_tag : ℕ → Reader NodeTargetNamespace
  namespace_of_tag n =
      if n == 0
      then pure all_namespaces
      else if n == 1
      then pure local
      else if n == 2
      then (do ns ← (string_format is_utf8).read_data tt; pure (NodeTargetNamespace.literal ns))
      else fail (custom "invalid NodeTarget namespace discriminant")

  unfoldable pub write_target : NodeTarget P → Output
  unfolding write_target_type write_target_id write_namespace
  write_target t = write_target_type t.ty ⊕ write_target_id t.id ⊕ write_namespace t.ns

  unfoldable pub read_target : ℕ × ℕ → Reader (NodeTarget P)
  unfolding target_type_of_tag target_id_of_tag namespace_of_tag
  read_target (version, type_header) =
      if version == 1
      then (do
        type_tag ← read_uint 1
        ty ← target_type_of_tag type_header type_tag
        id_tag ← read_uint 1
        id ← target_id_of_tag id_tag
        namespace_tag ← read_uint 1
        ns ← namespace_of_tag namespace_tag
        pure (record { ty = ty; id = id; ns = ns }))
      else fail (unsupported_version "NodeTarget" 1 version)

  abbrev pub target_format : DataFormat (ℕ × ℕ) (NodeTarget P)
  target_format = record {
    latest_header = (1, 1);
    write_header = default_write_header (pair_format u8_format u8_format) (1, 1);
    read_header = default_read_header (pair_format u8_format u8_format);
    write_data = write_target;
    read_data = read_target;
  }

  -- The vector that a set of targets is written as.
  unfoldable pub targets_to_vec : NodeTargets P → List (NodeTarget P)
  targets_to_vec no_target = []
  targets_to_vec (one_target t) = t ∷ []
  targets_to_vec (many ts) = ts

  unfoldable pub write_targets : NodeTargets P → Output
  unfolding targets_to_vec
  write_targets targets = write_vec target_format (targets_to_vec targets)

  unfoldable pub read_targets : ℕ × ℕ → Reader (NodeTargets P)
  unfolding from_vec
  read_targets header = do targets ← read_vec target_format header; pure (from_vec targets)

  abbrev pub targets_format : DataFormat (ℕ × ℕ) (NodeTargets P)
  targets_format = record {
    latest_header = (1, 1);
    write_header = default_write_header (pair_format u8_format u8_format) (1, 1);
    read_header = default_read_header (pair_format u8_format u8_format);
    write_data = write_targets;
    read_data = read_targets;
  }

  -- A pattern that is compiled again from its text, and texts in UTF-8.
  abbrev pub IsTargetId : NodeTargetId P → Type 0
  IsTargetId all_ids = Unit
  IsTargetId (wildcard_pattern p) = (W.new (W.to_string p) ≡ p) × IsText is_utf8 (W.to_string p)
  IsTargetId (NodeTargetId.literal id) = IsText is_utf8 id

  abbrev pub IsTargetNamespace : NodeTargetNamespace → Type 0
  IsTargetNamespace (NodeTargetNamespace.literal ns) = IsText is_utf8 ns
  IsTargetNamespace _ = Unit

  abbrev pub IsNodeTarget : NodeTarget P → Type 0
  IsNodeTarget t = IsTargetId t.id × IsTargetNamespace t.ns

  -- A set of one target, or of none, is not written as `Many`.
  abbrev pub IsNodeTargets : NodeTargets P → Type 0
  IsNodeTargets targets =
      (from_vec (targets_to_vec targets) ≡ targets) × IsVec IsNodeTarget (targets_to_vec targets)

  -- A discriminant and what follows it.
  read_target_type :
      (ty : NodeTargetType) (rest : List ℕ)
      → (read_uint 1 >>= target_type_of_tag 1) ((write_target_type ty).bytes ++ rest)
        ≡ ok (ty, rest)
  unfolding write_target_type target_type_of_tag
  read_target_type all_types rest = and_then_ok _ (read_uint-write_uint 1 0 _ (omega arith)) refl
  read_target_type (one_type ty) rest = simp append_assoc (
      and_then_ok _ (read_uint-write_uint 1 1 _ (omega arith))
        (and_then_ok _ (node_type_format-IsLawful.data_round_trip ty rest tt) refl))

  read_target_id :
      (id : NodeTargetId P) (rest : List ℕ)
      → IsTargetId id
      → (read_uint 1 >>= target_id_of_tag) ((write_target_id id).bytes ++ rest) ≡ ok (id, rest)
  unfolding write_target_id target_id_of_tag
  read_target_id all_ids rest h = and_then_ok _ (read_uint-write_uint 1 0 _ (omega arith)) refl
  read_target_id (wildcard_pattern p) rest (same, h) = simp append_assoc (
      and_then_ok _ (read_uint-write_uint 1 1 _ (omega arith)) (
        and_then_ok _ ((string_format-IsLawful is_utf8).data_round_trip (W.to_string p) rest h)
          (rw same)))
  read_target_id (NodeTargetId.literal id) rest h = simp append_assoc (
      and_then_ok _ (read_uint-write_uint 1 2 _ (omega arith))
        (and_then_ok _ ((string_format-IsLawful is_utf8).data_round_trip id rest h) refl))

  read_namespace :
      (ns : NodeTargetNamespace) (rest : List ℕ)
      → IsTargetNamespace ns
      → (read_uint 1 >>= namespace_of_tag) ((write_namespace ns).bytes ++ rest) ≡ ok (ns, rest)
  unfolding write_namespace namespace_of_tag
  read_namespace all_namespaces rest h =
      and_then_ok _ (read_uint-write_uint 1 0 _ (omega arith)) refl
  read_namespace local rest h = and_then_ok _ (read_uint-write_uint 1 1 _ (omega arith)) refl
  read_namespace (NodeTargetNamespace.literal ns) rest h = simp append_assoc (
      and_then_ok _ (read_uint-write_uint 1 2 _ (omega arith))
        (and_then_ok _ ((string_format-IsLawful is_utf8).data_round_trip ns rest h) refl))

  pub target_format-IsLawful : IsLawful target_format IsNodeTarget
  unfolding write_target read_target
  target_format-IsLawful = record {
    data_round_trip = λ t rest (id, ns). simp append_assoc (
        tagged_ok (target_type_of_tag 1) _ _ (read_target_type t.ty _) (
          tagged_ok target_id_of_tag _ _ (read_target_id t.id _ id)
            (tagged_ok namespace_of_tag _ _ (read_namespace t.ns rest ns) refl)));
    header_round_trip = λ t rest.
        default_read_header-default_write_header (pair_format u8_format u8_format) (1, 1) t rest
          (pair_format-IsLawful u8_format u8_format (uint_format-IsLawful 1)
            (uint_format-IsLawful 1))
          (omega arith, omega arith);
  }

  -- Node targets, with patterns that are compiled again from their text, texts in UTF-8 and fewer
  -- than 2^64 targets, `Many` with two or more of them, are read back from their bytes, with and
  -- without their header.
  pub targets_format-IsLawful : IsLawful targets_format IsNodeTargets
  unfolding write_targets read_targets
  targets_format-IsLawful =
      let bytes_pair = pair_format u8_format u8_format in
      let header_law =
        pair_format-IsLawful u8_format u8_format (uint_format-IsLawful 1)
          (uint_format-IsLawful 1) in
      let vec =
        vec_format-IsLawful bytes_pair target_format header_law (omega arith, omega arith)
          target_format-IsLawful in
      record {
        data_round_trip = λ targets rest (same, h).
            and_then_ok _ (vec.data_round_trip (targets_to_vec targets) rest h) (rw same);
        header_round_trip = λ targets rest.
            default_read_header-default_write_header bytes_pair (1, 1) targets rest header_law
              (omega arith, omega arith);
      }
