-- ===== src/Bridge.antt =====
-- src/bridge.rs: of the bridge only the delays between attempts to reconnect.
pub mod Backoff
