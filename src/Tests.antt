-- ===== src/Tests.antt =====
-- The theorems at concrete inputs.
pub mod Wire
pub mod Caches
pub mod Requests
pub mod Values
pub mod Nodes
pub mod Connections
pub mod Topics
