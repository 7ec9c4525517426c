-- ===== src/Controlplane/Rpc.antt =====
-- What the control plane does on the calls of agents, of crates/controlplane/src/server/rpc.rs.
use snarkops.Common.{ℕ, none, some, List, [], ◌∷◌}
use snarkops.Common.Dict.{Dict, lookup, insert}
use snarkops.Agent.Transfers.{same_id}
use snarkops.State.DateTime.{DateTime}
use snarkops.State.TransferStatus.{
  TransferStatus, TransferStatusUpdate, start, progress, ended, cleanup, handle, started,
  end_transfer, progress_transfer,
}

module _ {A : Type 0} where
  -- `post_transfer_status` on the transfers of the agent. `status.take()` of a cleanup clears a local
  -- option of a reference, and leaves the transfer.
  unfoldable pub post_transfer_status :
      DateTime → ℕ → TransferStatusUpdate A → Dict ℕ (TransferStatus A) → Dict ℕ (TransferStatus A)
  unfolding end_transfer progress_transfer
  post_transfer_status now id (start desc total time) d = elim (lookup same_id id d) [
    | none ↦ insert same_id id (started desc total time now) d
    | some t ↦ d
  ]
  post_transfer_status now id (progress downloaded) d = elim (lookup same_id id d) [
    | none ↦ d
    | some t ↦ insert same_id id (progress_transfer now downloaded t) d
  ]
  post_transfer_status now id (ended interruption) d = elim (lookup same_id id d) [
    | none ↦ d
    | some t ↦ insert same_id id (end_transfer now interruption t) d
  ]
  post_transfer_status now id cleanup d = d
  post_transfer_status now id (handle h) d = d

  unfoldable pub collect :
      List (ℕ × TransferStatus A) → Dict ℕ (TransferStatus A) → Dict ℕ (TransferStatus A)
  collect [] d = d
  collect ((id, t) ∷ ts) d = collect ts (insert same_id id t d)

  unfoldable pub post_transfer_statuses : List (ℕ × TransferStatus A) → Dict ℕ (TransferStatus A)
  unfolding collect
  post_transfer_statuses statuses = collect statuses []
