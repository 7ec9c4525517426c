-- ===== src/State/BlockInfo.antt =====
-- `LatestBlockInfo` of crates/common/src/state/agent_status.rs: its format, and the score by which
-- nodes are ranked.
pub mod Score
use snarkops.Checkpoint.Retention.{second}
use snarkops.Format.Ints.{read_int, write_int, read_uint, write_uint, u8_format}
use snarkops.Format.Collections.{write_bytes, string_format}
use snarkops.Format.Collections.RoundTrip.{IsText, string_format-IsLawful}
use snarkops.Format.Ints.RoundTrip.{
  uint_format-IsLawful, read_int-write_int, read_uint-write_uint, IsInt, IsUint,
}
use snarkops.Format.Laws.{default_read_header-default_write_header, IsLawful}
use Prim.Native.Nat.{min}
use snarkops.Common.{
  append_assoc, ◌++◌, ◌==◌, ◌+◌, if◌then◌else◌, ◌/◌, ◌-◌, List, Bool, ◌*◌, ℕ, true, arith,
}
use snarkops.Common.Int.{◌-ℤ◌, pos_part, ℤ}
use snarkops.Common.Text.{Text}
use snarkops.State.DateTime.{
  read_date_time-write_date_time, read_date_time, IsDateTime, write_date_time, nanos, DateTime,
}
use snarkops.Format.{
  unsupported_version, ◌⊕◌, default_read_header, Reader, Output, default_write_header, DataFormat,
  pure, fail, ◌>>=◌,
}

pub record LatestBlockInfo : Type 0 where
  pub height : ℕ
  pub state_root : Text
  pub block_hash : Text
  pub previous_hash : Text
  pub block_timestamp : ℤ
  pub update_time : DateTime

abbrev pub max_block_age : ℕ
max_block_age = 3600

abbrev pub max_update_age : ℕ
max_update_age = 60

abbrev pub update_age_indifference : ℕ
update_age_indifference = 5

-- `now.signed_duration_since(t).num_seconds().clamp(0, max)`: a difference below zero is cut to 0.
unfoldable pub age : DateTime → DateTime → ℕ → ℕ
unfolding nanos
age now t max = min (pos_part (nanos now -ℤ nanos t) / second) max

unfoldable pub block_age_score : ℕ → ℕ
block_age_score block_age = max_block_age - block_age

unfoldable pub update_age_score : ℕ → ℕ
update_age_score update_age =
    min (max_update_age - update_age) (max_update_age - update_age_indifference)

-- The products and sums stay below 2^32.
unfoldable pub score_of_parts : ℕ → ℕ → ℕ
score_of_parts block_score update_score =
    block_score * (max_update_age / 2) + update_score - max_update_age / 2

module _ (is_time : ℤ → ℕ → Bool) where
  -- `LatestBlockInfo::score`
  unfoldable pub score : LatestBlockInfo → DateTime → ℕ
  unfolding age block_age_score update_age_score score_of_parts
  score info now =
      let block_time : DateTime = record { timestamp = info.block_timestamp; subsec_nanos = 0 } in
      let block_score =
        if is_time info.block_timestamp 0
        then block_age_score (age now block_time max_block_age)
        else 0 in
      score_of_parts block_score (update_age_score (age now info.update_time max_update_age))

module _ (is_utf8 : List ℕ → Bool) (is_time : ℤ → ℕ → Bool) where
  unfoldable pub write_block_info : LatestBlockInfo → Output
  write_block_info info =
      let text = string_format is_utf8 in
      write_uint 4 info.height
      ⊕ text.write_data info.state_root
      ⊕ text.write_data info.block_hash
      ⊕ text.write_data info.previous_hash
      ⊕ write_int 8 info.block_timestamp
      ⊕ write_date_time info.update_time

  unfoldable pub read_block_info : ℕ → Reader LatestBlockInfo
  read_block_info header =
      let text = string_format is_utf8 in
      if header == 1
      then (do
        height ← read_uint 4
        state_root ← text.read_data tt
        block_hash ← text.read_data tt
        previous_hash ← text.read_data tt
        block_timestamp ← read_int 8
        update_time ← read_date_time is_time
        pure (record {
          height = height;
          state_root = state_root;
          block_hash = block_hash;
          previous_hash = previous_hash;
          block_timestamp = block_timestamp;
          update_time = update_time;
        }))
      else fail (unsupported_version "LatestBlockInfo" 1 header)

  abbrev pub block_info_format : DataFormat ℕ LatestBlockInfo
  block_info_format = record {
    latest_header = 1;
    write_header = default_write_header u8_format 1;
    read_header = default_read_header u8_format;
    write_data = write_block_info;
    read_data = read_block_info;
  }

  -- Fixed widths, texts in UTF-8, and a time that `chrono` accepts.
  pub record IsBlockInfo (info : LatestBlockInfo) : Type 0 where
    pub height_fits : IsUint 4 info.height
    pub root_text : IsText is_utf8 info.state_root
    pub hash_text : IsText is_utf8 info.block_hash
    pub previous_text : IsText is_utf8 info.previous_hash
    pub timestamp_fits : IsInt 8 info.block_timestamp
    pub updated : IsDateTime is_time info.update_time

  -- The info of a block, in its widths, with texts in UTF-8 and a time that `chrono` accepts, is read
  -- back from its bytes, with and without its header.
  pub block_info_format-IsLawful : IsLawful block_info_format IsBlockInfo
  unfolding write_block_info read_block_info
  block_info_format-IsLawful =
      let text = string_format-IsLawful is_utf8 in
      record {
        data_round_trip = λ info rest v.
            let time = (write_date_time info.update_time).bytes ++ rest in
            let timestamp = (write_int 8 info.block_timestamp).bytes ++ time in
            let previous = (write_bytes info.previous_hash).bytes ++ timestamp in
            let hash = (write_bytes info.block_hash).bytes ++ previous in
            simp (
              append_assoc,
              read_uint-write_uint 4 info.height ((write_bytes info.state_root).bytes ++ hash)
                  v.height_fits,
              text.data_round_trip info.state_root hash v.root_text,
              text.data_round_trip info.block_hash previous v.hash_text,
              text.data_round_trip info.previous_hash timestamp v.previous_text,
              read_int-write_int 8 info.block_timestamp time v.timestamp_fits,
              read_date_time-write_date_time is_time info.update_time rest v.updated,
            );
        header_round_trip = λ info rest.
            default_read_header-default_write_header u8_format 1 info rest (uint_format-IsLawful 1)
              (omega arith);
      }
