-- ===== src/State/BlockInfo/Score.antt =====
-- The ranking of nodes by `LatestBlockInfo::score` of crates/common/src/state/agent_status.rs.
use snarkops.State.DateTime.{DateTime}
use snarkops.Common.Int.{ℤ}
use snarkops.State.BlockInfo.{
  max_block_age, max_update_age, LatestBlockInfo, score, age, update_age_score, block_age_score,
  score_of_parts,
}
use snarkops.Common.{inr, inl, true, Bool-cases, ◌≡◌, Bool, ◌<◌, ◌+◌, ◌≤◌, ℕ, arith}

score_of_parts_bounds :
    (block_age update_age : ℕ)
    → score_of_parts (block_age_score block_age) (update_age_score update_age) ≤ 108_025
unfolding score_of_parts block_age_score update_age_score
score_of_parts_bounds block_age update_age = ground arith

newer_parts :
    (newer older update other : ℕ)
    → newer + 2 ≤ older
    → older ≤ 3600
    → score_of_parts (block_age_score older) (update_age_score other)
      < score_of_parts (block_age_score newer) (update_age_score update)
unfolding score_of_parts block_age_score update_age_score
newer_parts newer older update other h k = ground arith

age-le : (now t : DateTime) (max : ℕ) → age now t max ≤ max
unfolding age
age-le now t max = omega arith

module _ (is_time : ℤ → ℕ → Bool) where
  abbrev pub block_age : LatestBlockInfo → DateTime → ℕ
  block_age info now =
      age now (record { timestamp = info.block_timestamp; subsec_nanos = 0 }) max_block_age

  -- A score is at most 108025, far below 2^32.
  score_bounds : (info : LatestBlockInfo) (now : DateTime) → score is_time info now ≤ 108_025
  unfolding score
  score_bounds info now =
      let update = update_age_score (age now info.update_time max_update_age) in
      let known =
        score_of_parts_bounds (block_age info now) (age now info.update_time max_update_age) in
      let unknown = score_of_parts_bounds max_block_age (age now info.update_time max_update_age) in
      elim (Bool-cases (is_time info.block_timestamp 0)) [
        | inl e ↦ rw (e, score) known
        | inr e ↦ rw (e, score) (unfold block_age_score in unknown)
      ]

  -- Of two infos whose blocks have times, the one whose block is newer by two seconds or more, as far
  -- as an hour back, has the higher score, whenever they were updated.
  pub score_newer :
      (newer older : LatestBlockInfo) (now : DateTime)
      → is_time newer.block_timestamp 0 ≡ true
      → is_time older.block_timestamp 0 ≡ true
      → block_age newer now + 2 ≤ block_age older now
      → score is_time older now < score is_time newer now
  unfolding score
  score_newer newer older now a b h =
      rw (a, b)
        (newer_parts (block_age newer now) (block_age older now)
          (age now newer.update_time max_update_age) (age now older.update_time max_update_age) h
          (age-le now (record { timestamp = older.block_timestamp; subsec_nanos = 0 })
            max_block_age))
