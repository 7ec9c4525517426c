-- ===== src/Controlplane.antt =====
-- crates/controlplane: the service that assigns agents to the nodes of environments and follows the
-- transactions that its cannons send.
pub mod Environment
pub mod Agents
pub mod Persist
pub mod Nodes
pub mod Transactions
pub mod Cache
pub mod Rpc
pub mod Tracker
pub mod Tracking
pub mod Env
