-- ===== src/Controlplane/Tracker.antt =====
-- `TransactionTracker` of crates/controlplane/src/cannon/tracker.rs: the attempts of a transaction in
-- the database, a tree of packed integers.
pub mod Attempts
use snarkops.Common.{Option, ℕ, ◌+◌, ◌%◌, ◌^◌, none, some, Result, ok, err, and_then, unwrap_or}
use snarkops.Database.{Sled, DatabaseError, restore, save, delete}
use snarkops.Format.{DataFormat}
use snarkops.Format.Packed.{packed_format}

-- `v.0 as u32`, and 0 where there is nothing that can be read.
unfoldable pub attempts_of : {E : Type 0} → Result (DatabaseError E) (Option ℕ) → ℕ
attempts_of (err e) = 0
attempts_of (ok none) = 0
attempts_of (ok (some v)) = v % 2 ^ 32

module _ {T E : Type 0} (S : Sled T E) {H K : Type 0} (key_format : DataFormat H K) where
  -- The attempts are stored as u64; their increment overflows at the last one.
  unfoldable pub inc_attempts : T → K → Result (DatabaseError E) T
  inc_attempts t key =
      and_then (restore S key_format packed_format t key)
        λ prev. save S key_format packed_format t key (unwrap_or 0 prev + 1)

  unfoldable pub get_attempts : T → K → ℕ
  unfolding attempts_of
  get_attempts t key = attempts_of (restore S key_format packed_format t key)

  unfoldable pub clear_attempts : T → K → Result (DatabaseError E) T
  clear_attempts t key = and_then (delete S key_format packed_format t key) λ (found, t'). ok t'
