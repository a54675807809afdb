-- ===== src/Node.antt =====
-- src/veluxnode.rs: the nodes of the gateway as covers, and the cache of them.
pub mod Actuator
pub mod Cover
pub mod State
pub mod Changes
pub mod Toggle
pub mod Requests
pub mod Invariant
pub mod Snapshot
pub mod Cache
