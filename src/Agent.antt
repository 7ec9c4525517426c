-- ===== src/Agent.antt =====
-- crates/agent: what an agent does.
pub mod Transfers
pub mod Node
pub mod Parts
pub mod Reconcile
pub mod Loop
