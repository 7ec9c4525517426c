-- ===== src/State.antt =====
-- crates/common/src/state and crates/common/src/node_targets.rs: the data that the control plane,
-- the agents and their databases exchange, with its binary formats.
pub mod NetworkId
pub mod Binaries
pub mod KeySource
pub mod NodeState
pub mod NodeType
pub mod NodeKey
pub mod NodeTarget
pub mod InternedId
pub mod AgentMode
pub mod DateTime
pub mod BlockInfo
pub mod HeightRequest
pub mod PortConfig
pub mod TransactionSendState
pub mod TransferStatus
pub mod Reconcile
