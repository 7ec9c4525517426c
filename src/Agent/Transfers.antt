-- ===== src/Agent/Transfers.antt =====
-- The monitor of transfers of crates/agent/src/transfers.rs, a message or a tick at a time.
pub mod Follows
pub mod Run
pub mod Traced
use snarkops.Checkpoint.Retention.{second}
use snarkops.Common.{
  true, ℕ, ◌*◌, ◌==◌, Option, none, some, Bool, not, ◌&&◌, List, [], ◌∷◌, is_some, if◌then◌else◌,
}
use snarkops.Common.Int.{ℤ, pos, ltb_ℤ, ◌-ℤ◌}
use snarkops.Common.Dict.{Dict, lookup, insert, retain}
use snarkops.State.DateTime.{DateTime, nanos}
use snarkops.State.TransferStatus.{
  TransferStatus, TransferStatusUpdate, start, progress, ended, cleanup, handle, started,
  end_transfer, progress_transfer,
}

abbrev pub same_id : ℕ → ℕ → Bool
same_id a b = a == b

-- TRANSFER_CLEANUP_DELAY_OK and TRANSFER_CLEANUP_DELAY_ERR
abbrev pub cleanup_delay_ok : ℤ
cleanup_delay_ok = pos (60 * second)

abbrev pub cleanup_delay_err : ℤ
cleanup_delay_err = pos (60 * 60 * 2 * second)

module _ {A : Type 0} where
  -- A message of the monitor's channel: the transfers, and what is sent to the control plane.
  unfoldable pub monitor_update :
      DateTime
      → ℕ
      → TransferStatusUpdate A
      → Dict ℕ (TransferStatus A)
      → Dict ℕ (TransferStatus A) × Option (TransferStatusUpdate A)
  unfolding end_transfer progress_transfer
  monitor_update now id (start desc total time) d = elim (lookup same_id id d) [
    | none ↦ (insert same_id id (started desc total time time) d, some (start desc total time))
    | some t ↦ (d, none)
  ]
  monitor_update now id (progress downloaded) d = elim (lookup same_id id d) [
    | none ↦ (d, none)
    | some t ↦
        (insert same_id id (progress_transfer now downloaded t) d, some (progress downloaded))
  ]
  monitor_update now id (ended interruption) d = elim (lookup same_id id d) [
    | none ↦ (d, none)
    | some t ↦ (insert same_id id (end_transfer now interruption t) d, some (ended interruption))
  ]
  monitor_update now id cleanup d = (d, none)
  monitor_update now id (handle h) d = elim (lookup same_id id d) [
    | none ↦ (d, none)
    | some t ↦ (insert same_id id (record t { abort_handle = some h }) d, none)
  ]

  -- Whether the cleanup keeps a transfer.
  unfoldable pub is_kept : DateTime → TransferStatus A → Bool
  is_kept now t =
      let is_done = t.total_bytes == t.downloaded_bytes in
      let is_error = is_some t.interruption in
      if not is_done && not is_error
      then true
      else ltb_ℤ (nanos now -ℤ nanos t.updated_at)
          (if is_error then cleanup_delay_err else cleanup_delay_ok)

  -- A tick: the transfers that stay.
  unfoldable pub monitor_tick : DateTime → Dict ℕ (TransferStatus A) → Dict ℕ (TransferStatus A)
  unfolding is_kept
  monitor_tick now d = retain (λ _ t. is_kept now t) d

  -- The ids whose cleanup is sent to the control plane.
  unfoldable pub dropped_ids : DateTime → Dict ℕ (TransferStatus A) → List ℕ
  unfolding is_kept
  dropped_ids now [] = []
  dropped_ids now ((id, t) ∷ d) =
      if is_kept now t then dropped_ids now d else id ∷ dropped_ids now d
