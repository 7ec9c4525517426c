-- ===== src/State/TransferStatus.antt =====
-- The transfers of an agent, of crates/common/src/state/agent_status.rs. `A` is the abort handle of a
-- task.
use snarkops.Common.{if◌then◌else◌, ℕ, Option, none, Bool, not, ltb, is_some, ◌&&◌}
use snarkops.Common.Text.{Text}
use snarkops.State.DateTime.{DateTime}

pub data TransferStatusUpdate (A : Type 0) : Type 0 where
  start : (desc : Text) → (total : ℕ) → (time : DateTime) → TransferStatusUpdate A
  progress : (downloaded : ℕ) → TransferStatusUpdate A
  ended : (interruption : Option Text) → TransferStatusUpdate A
  cleanup : TransferStatusUpdate A
  handle : A → TransferStatusUpdate A

pub record TransferStatus (A : Type 0) : Type 0 where
  pub desc : Text
  pub started_at : DateTime
  pub updated_at : DateTime
  pub downloaded_bytes : ℕ
  pub total_bytes : ℕ
  pub interruption : Option Text
  pub abort_handle : Option A

module _ {A : Type 0} where
  unfoldable pub is_interrupted : TransferStatus A → Bool
  is_interrupted t = is_some t.interruption

  unfoldable pub is_pending : TransferStatus A → Bool
  is_pending t = not (is_some t.interruption) && ltb t.downloaded_bytes t.total_bytes

  unfoldable pub is_complete : TransferStatus A → Bool
  is_complete t = not (ltb t.downloaded_bytes t.total_bytes)

  -- A new transfer.
  abbrev pub started : Text → ℕ → DateTime → DateTime → TransferStatus A
  started desc total time updated = record {
    desc = desc;
    started_at = time;
    updated_at = updated;
    downloaded_bytes = 0;
    total_bytes = total;
    interruption = none;
    abort_handle = none;
  }

  -- The end of a transfer, as both sides note it.
  unfoldable pub end_transfer : DateTime → Option Text → TransferStatus A → TransferStatus A
  end_transfer now interruption t = record t {
    downloaded_bytes = if is_some interruption then t.downloaded_bytes else t.total_bytes;
    interruption = interruption;
    updated_at = now;
  }

  unfoldable pub progress_transfer : DateTime → ℕ → TransferStatus A → TransferStatus A
  progress_transfer now downloaded t = record t { downloaded_bytes = downloaded; updated_at = now }
