-- ===== src/Checkpoint.antt =====
-- crates/checkpoint: which checkpoints of a ledger are taken and which are dropped again.
pub mod Retention
pub mod Formats
pub mod Header
pub mod Ledger
pub mod Manager
