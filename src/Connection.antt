-- ===== src/Connection.antt =====
-- src/klf200/connection.rs: the connection to the gateway. Its state and events are in the modules
-- named for them.
pub mod Commands
pub mod Identity
pub mod State
pub mod Dispatch
pub mod Frames
pub mod Actor
pub mod Run
pub mod Guards
pub mod Timeouts
pub mod Reader
pub mod Client
pub mod Discovery
pub mod Answers
pub mod Outcome
