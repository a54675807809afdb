-- ===== src/Command.antt =====
-- src/klf200/command.rs: the requests to the gateway.
pub mod Target
pub mod Requests
pub mod Payloads
pub mod Encode
pub mod Packing
