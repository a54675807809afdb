-- ===== src/Lib.antt =====
-- velux2mqtt: a bridge between a KLF 200 gateway, which speaks a binary protocol over TLS, and MQTT.
--
-- The bytes of the connection are cut into SLIP packets (klf200/slip.rs), a packet is a frame with
-- a length and a checksum (klf200/frame.rs), and the payload of a frame is a request
-- (klf200/command.rs) or a response (klf200/response.rs), made of the values of klf200/types.rs
-- and told apart by a command identifier (klf200/command_id.rs). The connection
-- (klf200/connection.rs) matches responses with requests. veluxnode.rs keeps what is known of each
-- cover, and bridge.rs, mqtt.rs and hassdiscovery.rs publish it.
--
-- Paths are relative to the repository's root; source files are below `src/`.
--
-- - `Slip`, src/klf200/slip.rs. `Decoder::push` changes the decoder and returns what was decoded;
--   `push` returns both. A round of its loop is `push_byte`, made of `push_end`, `push_escaped` and
--   `store`. Laws: Slip/RoundTrip, Slip/Bounds, Slip/Recovery.
-- - `Frame`, src/klf200/frame.rs, `Frame::encode` and `Frame::decode`. Laws: Frame/Checksum,
--   Frame/RoundTrip.
-- - `Types`, src/klf200/types.rs. Types/Sessions is `SessionIdAllocator`, Types/Position is
--   `Percentage` and `StandardParameter`, Types/Actuators and Types/Beacons are the bit sets (the
--   set that the first refines is in Types/Actuators/Refinement),
--   Types/FixedString is the text fields, Types/Records the structs without behaviour.
-- - `CommandId`, src/klf200/command_id.rs; the table of commands is in CommandId/Constants and
--   CommandId/Table, as names and as ASCII bytes.
-- - `Command`, src/klf200/command.rs. Command/Target is `CommandTarget`, Command/Requests the
--   requests, Command/Payloads the functions that write one payload each, and Command/Encode
--   `Request::command_id`, `session_id` and `encode`. Laws: Command/Packing, and below
--   Command/Encode: Protocol, Lengths, Sessions, Framing and Kinds. The source fills a buffer of
--   zeros at fixed offsets; a payload here is its fields from left to right.
-- - `Response`, the types of src/klf200/response.rs, and `Decode`, its `Response::decode`. A `match`
--   on the command is a list of arms, of which the first with the command is taken
--   (Decode/Fields.select). Decode/Protocol is the table of payload lengths. Laws: Decode/Lengths,
--   Decode/GroupRoundTrip and Decode/Sound, by way of Decode/Arms and Decode/Ranges.
-- - `Connection`, src/klf200/connection.rs. Connection/Actor is `run_actor`: a round takes an input,
--   as `select!` does, and gives the next state and what was sent. Connection/Dispatch is
--   `dispatch_next`, Connection/Frames the handlers, Connection/Run whole runs as a relation and the
--   end of the actor, Connection/Reader `read_frames`, Connection/Commands the questions about a
--   response, and Connection/Client the operations of `Klf200Client` as functions of replies and
--   events. What the writer does and what the clock shows each time that it is read are arguments of
--   a round, with nothing assumed of them. Laws: Outcome (from Answers), Guards, Timeouts, Identity,
--   Discovery.
-- - `Node`, src/veluxnode.rs. Node/Actuator is `ActuatorType` and `CoverStrategy`, Node/Cover the
--   values that describe a cover, Node/State is `VeluxNode` with its methods: one that changes the
--   node returns the node and whether it changed, and Node/Cache is `VeluxNodeCache`. Laws:
--   Node/Changes, Node/Toggle, Node/Requests, Node/Snapshot, Node/Invariant, where the updates are a step
--   relation, and below Node/Cache: Laws and Reports.
-- - `Mqtt`, src/mqtt.rs: Mqtt/Topics is `TopicLayout` with its topics, Mqtt/Commands
--   `parse_command`, Mqtt/Publications what is published, and Mqtt/Text what these use of `str`.
--   Laws: Mqtt/RoundTrip, Mqtt/Below.
-- - `Bridge`, src/bridge.rs: Bridge/Backoff is `ReconnectBackoff`.
-- - `Error`, src/klf200/error.rs. Prelude: tests, lists, bytes, bits, integers and UTF-8.
-- - `Tests`, the theorems at concrete inputs.
--
-- Bytes and machine integers are natural numbers. A range that the Rust type guarantees is a
-- hypothesis where a theorem needs it (`IsBytes`, `f.command < 65536`), and wrapping, saturating and
-- failing conversions are written out. A `String` is its UTF-8 bytes, except for texts that are only
-- shown. `BTreeSet` is a list without order, since the allocator only inserts, removes and looks up.
-- `BTreeMap` is the list of its entries in ascending order of the keys (Prelude/Maps).
-- The loop of `SessionIdAllocator::allocate` is bounded in the source: it tries 65535 candidates, as
-- many as there are session ids, and so does `allocate_loop`.
--
-- `HashMap` of the sessions is a list of entries too; the order in which ended sessions are reported
-- is the order of that list. `read_frames`, the runs of the actor and the loops of the client follow
-- the list of their inputs, so no fuel is needed. Where an index of `Response::decode` would be out
-- of range and panic, the model reads zero; every read stands behind a length check.
--
-- Not modelled: TLS, certificates, sockets, tasks and the capacities of channels; the MQTT client and
-- its event loop; the metadata that is published as JSON; the bridge besides its delays, and the
-- discovery documents; error texts, Debug and Display output; command line and logging.
pub mod Prelude
pub mod Error
pub mod Slip
pub mod Frame
pub mod Types
pub mod CommandId
pub mod Response
pub mod Command
pub mod Decode
pub mod Connection
pub mod Node
pub mod Mqtt
pub mod Bridge
pub mod Tests
