-- ===== src/Events.antt =====
-- crates/common/src/events: events, and the filters that clients of the control plane subscribe with.
pub mod Models
pub mod Filter
pub mod Parse
