-- ===== src/Mqtt.antt =====
-- src/mqtt.rs: the topics below the base topic, the commands that arrive on them and what is
-- published. The client and its event loop, which are a library's, are not modelled.
pub mod Text
pub mod Topics
pub mod Commands
pub mod Publications
pub mod RoundTrip
pub mod Below
