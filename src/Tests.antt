-- ===== src/Tests.antt =====
-- Runs of the definitions on inputs of the program's own tests, and the theorems at concrete inputs.
mod Formats
mod Nodes
mod Checkpoints
mod Filters
mod Controlplane
mod States
mod Transactions
mod Trees
mod Caches
mod Managers
mod Transfers
mod Reconcile
mod Tracking
mod PeerLog
mod Environments
mod Persist
