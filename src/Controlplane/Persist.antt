-- ===== src/Controlplane/Persist.antt =====
-- crates/controlplane/src/persist: the formats of what the control plane keeps in its database.
pub mod Cannons
pub mod Node
pub mod Env
pub mod Storage
pub mod Agent
