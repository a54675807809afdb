-- ===== src/Types.antt =====
-- src/klf200/types.rs: the value types of the KLF protocol. The newtypes `NodeId`, `GroupId`,
-- `SessionId`, `RawPosition` and `ProtocolTimestamp` are the numbers that they wrap.
pub mod Sessions
pub mod Position
pub mod Actuators
pub mod Beacons
pub mod FixedString
pub mod Records
