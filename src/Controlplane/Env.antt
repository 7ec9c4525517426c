-- ===== src/Controlplane/Env.antt =====
-- crates/controlplane/src/env: how the nodes of an environment get their agents.
pub mod BitSet
pub mod Claim
pub mod Mask
pub mod Pairing
