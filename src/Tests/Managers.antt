-- ===== src/Tests/Managers.antt =====
-- Checkpoints of crates/checkpoint/src/manager.rs and their headers.
use snarkops.Checkpoint.Retention.Newest.{IsEarlier}
use snarkops.Common.Dict.{remove, lookup, IsDict}
use snarkops.Common.{
  All, if◌then◌else◌, ◌+◌, length, ◌<◌, map, Result, ◌*◌, ◌++◌, Option, ℕ, ◌≡◌, refl, List, [], ◌∷◌,
  none, some, ok, true, arith, replicate,
}
use snarkops.Common.Text.{Text, codes}
use snarkops.Common.Int.{◌-ℤ◌, ◌*ℤ◌, ℤ, pos}
use snarkops.Checkpoint.Retention.{
  next_rule, as_delta, is_ready_with_time, second, reject_with_time, RetentionPolicy, hour, day,
}
use snarkops.Checkpoint.Header.{
  CheckpointHeader, IsHeader, read_bytes-write_bytes, read_bytes, write_bytes, time,
}
use snarkops.Checkpoint.Ledger.{read_ledger, Ledger}
use snarkops.Checkpoint.Manager.{
  nearest_with_timestamp, is_ready, same_time, CheckpointManager, poll, cull_timestamp,
  nearest_with_height,
}
use snarkops.Checkpoint.Manager.Culls.{has_time, cull_timestamp_keeps}
use snarkops.Checkpoint.Manager.Polls.{poll_takes}
use snarkops.Checkpoint.Manager.Nearest.{IsNearest, highest_below}

-- A checkpoint an hour for a day.
abbrev hourly : RetentionPolicy
hourly = record { rules = record { duration = day 1; keep = hour 1 } ∷ [] }

abbrev block : ℕ → ℕ → CheckpointHeader
block height seconds = record {
  block_height = height;
  timestamp = pos seconds;
  block_hash = replicate 32 height;
  genesis_hash = replicate 32 0;
  content_len = 0;
}

abbrev at_second : ℕ → ℤ
at_second n = pos (n * second)

abbrev manager : CheckpointManager Text
manager = record {
  policy = hourly;
  checkpoints =
      (at_second 1000, (block 1 1000, codes "1.checkpoint"))
      ∷ (at_second 1060, (block 2 1060, codes "2.checkpoint"))
      ∷ [];
}

abbrev ledger : Ledger ℕ ℕ (List ℕ)
ledger = record {
  current_height = ok 9;
  get_block_hash = λ height. ok (some height);
  get_block_timestamp = λ hash. ok (some (pos 8000));
  block_bytes = λ hash. replicate 32 hash;
  read_content = ok (7 ∷ []);
}

manager-IsDict : IsDict same_time manager.checkpoints
unfolding lookup
manager-IsDict = (refl, (refl, tt))

cull_timestamp_keeps_example :
    (rejected : List ℤ) × (m' : CheckpointManager Text) × (paths : List Text) × (reject_with_time
        manager.policy
        (at_second 1060)
        (map (λ c. c.0) manager.checkpoints)
      ≡ some rejected)
    × (cull_timestamp manager (at_second 1060) ≡ some (m', paths))
    × (0 < length m'.checkpoints)
    × (length m'.checkpoints + length paths ≡ length manager.checkpoints)
    × ((t : ℤ)
        → lookup same_time t m'.checkpoints
          ≡ (if has_time t rejected then none else lookup same_time t manager.checkpoints))
cull_timestamp_keeps_example =
    cull_timestamp_keeps manager (at_second 1060) manager-IsDict (λ e. absurd (cc e))

block-IsHeader : IsHeader (block 9 8000)
block-IsHeader = record {
  height_fits = omega arith;
  timestamp_fits = omega arith;
  hash_bytes = refl;
  genesis_bytes = refl;
  len_fits = omega arith;
}

read_bytes-write_bytes_example :
    read_bytes (write_bytes (block 9 8000) ++ 1 ∷ []) ≡ ok (block 9 8000, 1 ∷ [])
read_bytes-write_bytes_example = read_bytes-write_bytes (block 9 8000) (1 ∷ []) block-IsHeader

abbrev path_of : ℕ → Option Text
path_of height = some (height ∷ [])

abbrev write_any : Text → CheckpointHeader → List ℕ → Result ℕ (Unit {0})
write_any path header content = ok tt

abbrev after_poll : CheckpointManager Text
after_poll = record manager {
  checkpoints =
      (at_second 1060, (block 2 1060, codes "2.checkpoint"))
      ∷ (at_second 8000, (block 9 8000, 9 ∷ []))
      ∷ [];
}

program : Unit {0}
unfolding poll
program = tt

poll_run :
    poll path_of write_any (ok ledger) manager
    ≡ ok (some (true, after_poll, codes "1.checkpoint" ∷ []))
unfolding poll is_ready_with_time as_delta ◌-ℤ◌ ◌*ℤ◌ reject_with_time next_rule lookup remove
poll_run = refl

read_run : read_ledger (ok ledger) ≡ ok (block 9 8000)
unfolding read_ledger
read_run = refl

earlier : All (IsEarlier (time (block 9 8000))) (map (λ c. c.0) manager.checkpoints)
unfolding time ◌*ℤ◌
earlier = (refl, (refl, tt))

poll_takes_example :
    (is_ready manager (time (block 9 8000)) ≡ true)
    × (path : Text) × (path_of 9 ≡ some path)
    × (lookup same_time (time (block 9 8000)) after_poll.checkpoints ≡ some (block 9 8000, path))
poll_takes_example =
    poll_takes path_of write_any (ok ledger) manager after_poll (block 9 8000)
      (codes "1.checkpoint" ∷ []) read_run earlier poll_run

highest_below_example :
    IsNearest
      (λ h. pos h.block_height)
      (pos 5)
      (map (λ c. c.1) manager.checkpoints)
      (nearest_with_height manager 5)
    × IsNearest
        (λ h. h.timestamp)
        (pos 1050)
        (map (λ c. c.1) manager.checkpoints)
        (nearest_with_timestamp manager (pos 1050))
highest_below_example = highest_below manager 5 (pos 1050)
