-- ===== src/Connection/Client.antt =====
-- The operations of `Klf200Client` in src/klf200/connection.rs, as functions of the replies of the
-- actor and of the events that are received while the gate is held. A list of events that ends
-- without a result stands for the time limit that runs out.
use velux2mqtt.Response.{
  Response, acknowledgement, all_groups_accepted, all_nodes_information_accepted, group_information,
  node_information, node_information_accepted, password_entered,
}
use velux2mqtt.CommandId.Constants.{
  gw_get_all_groups_information_finished_ntf, gw_get_all_groups_information_ntf,
  gw_get_all_groups_information_req, gw_get_all_nodes_information_finished_ntf,
  gw_get_all_nodes_information_req, gw_get_node_information_req,
  gw_house_status_monitor_disable_cfm, gw_reboot_cfm,
}
use velux2mqtt.Error.{
  ◌>>=◌, KlfError, Result, authentication_rejected, connection_closed, discovery_rejected, err,
  invalid_request, ok, client_closed,
}
use velux2mqtt.Response.Gateway.{Version, ProtocolVersion, GatewayState}
use velux2mqtt.Connection.State.{ConnectionEvent, notification, disconnected}
use velux2mqtt.Connection.Commands.{unexpected}
use velux2mqtt.Error.{request_timeout}
use velux2mqtt.Prelude.{
  ◌++◌, ◌==◌, List, [], if◌then◌else◌, ℕ, ◌∷◌, ◌-◌, Bool, Option, none, not, some,
}
use Prim.Native.String.{String}
use velux2mqtt.Response.Nodes.{NodeInformation}
use velux2mqtt.Types.Records.{GroupInformation}
use velux2mqtt.Prelude.Int.{ℤ, pos, negsuc}

-- What `events.recv()` gives.
pub data Received : Type 0 where
  event : ConnectionEvent → Received
  lagged : Received
  ended : Received

-- `login`, `version`, `protocol_version` and `gateway_state`, from the reply to their request.
unfoldable pub login : Result Response → Result (Unit {0})
login reply = do
  response ← reply
  elim response [
    | password_entered accepted ↦ if accepted then ok tt else err authentication_rejected
    | other ↦ err (unexpected "password login" other)
  ]

unfoldable pub version : Result Response → Result Version
version reply = do
  response ← reply
  elim response [
    | Response.version read ↦ ok read
    | other ↦ err (unexpected "version request" other)
  ]

unfoldable pub protocol_version : Result Response → Result ProtocolVersion
protocol_version reply = do
  response ← reply
  elim response [
    | Response.protocol_version read ↦ ok read
    | other ↦ err (unexpected "protocol version request" other)
  ]

unfoldable pub gateway_state : Result Response → Result GatewayState
gateway_state reply = do
  response ← reply
  elim response [
    | Response.gateway_state read ↦ ok read
    | other ↦ err (unexpected "gateway state request" other)
  ]

-- The decision about an event of a discovery.
pub data Verdict (A : Type 0) : Type 0 where
  collect : A → Verdict A
  finished : Verdict A
  fail : KlfError → Verdict A
  skip : Verdict A

-- The loop of a discovery, with what was collected so far.
unfoldable pub collect_loop :
    {A : Type 0} → (Received → Verdict A) → ℕ → List A → List Received → Result (List A)
collect_loop decide request found [] = err (request_timeout request)
collect_loop decide request found (received ∷ events) = elim (decide received) [
  | collect a ↦ collect_loop decide request (found ++ (a ∷ [])) events
  | finished ↦ ok found
  | fail failure ↦ err failure
  | skip ↦ collect_loop decide request found events
]

-- The arms that all three loops share.
unfoldable pub other_event : {A : Type 0} → String → Received → Verdict A
other_event message (event (disconnected reason)) = fail connection_closed
other_event message (event (ConnectionEvent.protocol_error failure)) = fail failure
other_event message (event _) = skip
other_event message ended = fail connection_closed
other_event message lagged = fail (invalid_request message)

unfoldable pub node_event : Received → Verdict NodeInformation
unfolding other_event
node_event (event (notification (node_information node))) = collect node
node_event (event (notification (acknowledgement command))) =
    if command == gw_get_all_nodes_information_finished_ntf then finished else skip
node_event received = other_event "node discovery event receiver lagged" received

unfoldable pub discover_nodes : Result Response → List Received → Result (List NodeInformation)
unfolding collect_loop node_event
discover_nodes reply events = do
  response ← reply
  elim response [
    | all_nodes_information_accepted status total ↦
        if status == 0
        then collect_loop node_event gw_get_all_nodes_information_req [] events
        else err (discovery_rejected status)
    | other ↦ err (unexpected "node discovery" other)
  ]

-- `node_information`, of which only the events about the node count.
unfoldable pub one_node_event : ℕ → Received → Verdict NodeInformation
unfolding other_event
one_node_event node_id (event (notification (node_information node))) =
    if node.node_id == node_id then collect node else skip
one_node_event node_id received = other_event "node information event receiver lagged" received

unfoldable pub first_loop : {A : Type 0} → (Received → Verdict A) → ℕ → List Received → Result A
first_loop decide request [] = err (request_timeout request)
first_loop decide request (received ∷ events) = elim (decide received) [
  | collect a ↦ ok a
  | fail failure ↦ err failure
  | _ ↦ first_loop decide request events
]

unfoldable pub read_node_information : ℕ → Result Response → List Received → Result NodeInformation
unfolding first_loop one_node_event
read_node_information node_id reply events = do
  response ← reply
  elim response [
    | node_information_accepted status confirmed ↦
        if not (status == 0)
        then err (discovery_rejected status)
        else if confirmed == node_id
        then first_loop (one_node_event node_id) gw_get_node_information_req events
        else err (invalid_request "node information confirmation referenced another node")
    | other ↦ err (unexpected "node information request" other)
  ]

unfoldable pub group_event : Received → Verdict GroupInformation
unfolding other_event
group_event (event (notification (group_information found))) =
    if found.command == gw_get_all_groups_information_ntf then collect found.information else skip
group_event (event (notification (acknowledgement command))) =
    if command == gw_get_all_groups_information_finished_ntf then finished else skip
group_event received = other_event "group discovery event receiver lagged" received

-- `i8::to_be_bytes()[0]`
abbrev pub status_byte : ℤ → ℕ
status_byte (pos n) = n
status_byte (negsuc n) = 255 - n

-- The statuses 0 and 2, no groups, are told apart from the others.
unfoldable pub after_groups_accepted : ℤ → List Received → Result (List GroupInformation)
unfolding collect_loop group_event
after_groups_accepted status events =
    if status_byte status == 0
    then collect_loop group_event gw_get_all_groups_information_req [] events
    else if status_byte status == 2
    then ok []
    else err (discovery_rejected (status_byte status))

unfoldable pub discover_groups : Result Response → List Received → Result (List GroupInformation)
unfolding after_groups_accepted
discover_groups reply events = do
  response ← reply
  elim response [
    | all_groups_accepted accepted ↦ after_groups_accepted accepted.status events
    | other ↦ err (unexpected "group discovery" other)
  ]

-- An acknowledgement with the command, as the two requests of `shutdown_inner` want it.
unfoldable pub acknowledged : String → ℕ → Result Response → Result (Unit {0})
acknowledged operation expected reply = do
  response ← reply
  elim response [
    | acknowledgement command ↦
        if command == expected then ok tt else err (unexpected operation (acknowledgement command))
    | other ↦ err (unexpected operation other)
  ]

-- `shutdown_inner`: the replies to the two requests, of which the second is sent only to reboot,
-- and what the actor answers to the shutdown, if it still takes commands.
unfoldable pub shutdown_inner :
    Bool → Result Response → Result Response → Option (Result (Unit {0})) → Result (Unit {0})
unfolding acknowledged
shutdown_inner reboot monitor_reply reboot_reply closing =
    let monitor_result =
      acknowledged "house monitor disable" gw_house_status_monitor_disable_cfm monitor_reply in
    let reboot_result =
      if reboot then acknowledged "gateway reboot" gw_reboot_cfm reboot_reply else ok tt in
    elim closing [
      | none ↦ (do rebooted ← reboot_result; disabled ← monitor_result; err client_closed)
      | some shutdown_result ↦ (do
        shut ← shutdown_result
        rebooted ← reboot_result
        if reboot then ok tt else monitor_result)
    ]
