-- ===== src/Node/State.antt =====
-- src/veluxnode.rs: `VeluxNode` and its methods. A method that changes the node returns the node and
-- whether it differs from before.
use mathlib.Core.Option
use Prim.Native.String.{String}
use velux2mqtt.Prelude.Int.{ℤ}
use velux2mqtt.Types.Position.{Percentage, fully_open, fully_closed, from_percent}
use velux2mqtt.Response.States.{
  OperatingState, waiting_for_power, executing, RunStatus, completed, failed, active,
}
use velux2mqtt.Response.Nodes.{
  NodeInformation, NodeInformationChanged, NodeStatePosition, StatusNotification,
  StatusNotificationDetail, main, CommandRunStatus,
}
use velux2mqtt.Response.{Response, command_accepted}
use velux2mqtt.Command.Target
use velux2mqtt.Command.Requests.{Request, command_send}
use velux2mqtt.Node.Actuator.{ActuatorType, from_code, CoverStrategy, for_actuator}
use velux2mqtt.Node.Cover.{
  CoverState, Availability, available, unavailable, StatusSource, discovery, notification, poll,
  command, StatusFreshness, CoverAction, open_action, close_action, toggle_action, CoverEndpoint,
  open_end, closed_end, parameter, derive_cover_state, relative_position, mqtt_open_percent,
  known_remaining_time, operating_state_from_run_status, operating_state_label, opening, closing,
}
use velux2mqtt.Prelude.{
  ◌%◌, ◌&&◌, ◌/◌, ◌==◌, Bool, Bytes, Option, [], if◌then◌else◌, false, leb, none, not, some, true,
  ℕ, ℕ_discrete, ◌∷◌,
}
use velux2mqtt.Error.{KlfError, err, ok}

pub record VeluxNode : Type 0 where
  pub id : ℕ
  pub name : Bytes
  pub order : ℕ
  pub placement : ℕ
  pub serial_number : Bytes
  pub node_type_sub_type : ℕ
  pub actuator_type : ActuatorType
  pub actuator_subtype : ℕ
  pub product_group : ℤ
  pub product_type : ℤ
  pub velocity : ℕ
  pub variation : ℕ
  pub power_mode : ℕ
  pub build_number : ℕ
  pub cover_strategy : Option CoverStrategy
  pub availability : Availability
  pub operating_state : OperatingState
  pub current_position : Option Percentage
  pub target_position : Option Percentage
  pub remaining_time : Option ℕ
  pub freshness : Option StatusFreshness

-- The derived equality.
unfoldable pub VeluxNode-discrete : Discrete VeluxNode
VeluxNode-discrete = hlevel ℕ_discrete

unfoldable pub is_no {ℓ} : {A : Type ℓ} → Dec A → Bool
is_no (yes _) = false
is_no (no _) = true

-- `*self != previous`
unfoldable pub differs : VeluxNode → VeluxNode → Bool
unfolding is_no VeluxNode-discrete
differs node previous = is_no (VeluxNode-discrete node previous)

abbrev pub changed : VeluxNode → VeluxNode → VeluxNode × Bool
changed previous node = (node, differs node previous)

abbrev pub fresh : StatusSource → Option ℕ → Option StatusFreshness
fresh source timestamp = some (record { source = source; timestamp = timestamp })

-- `VeluxNode::from_information`; `u8::try_from` of six bits does not fail.
unfoldable pub from_information : NodeInformation → VeluxNode
from_information information =
    let actuator_type = from_code (information.node_type_sub_type / 64) in
    record {
      id = information.node_id;
      name = information.name;
      order = information.order;
      placement = information.placement;
      serial_number = information.serial_number;
      node_type_sub_type = information.node_type_sub_type;
      actuator_type = actuator_type;
      actuator_subtype = information.node_type_sub_type % 64;
      product_group = information.product_group;
      product_type = information.product_type;
      velocity = information.velocity;
      variation = information.variation;
      power_mode = information.power_mode;
      build_number = information.build_number;
      cover_strategy = for_actuator actuator_type;
      availability = available;
      operating_state = information.operating_state;
      current_position = relative_position information.current_position;
      target_position = relative_position information.target_position;
      remaining_time = known_remaining_time information.remaining_time;
      freshness = fresh discovery (some information.timestamp);
    }

unfoldable pub is_controllable : VeluxNode → Bool
is_controllable node = elim node.cover_strategy [ some _ ↦ true | none ↦ false ]

-- `VeluxNode::state`
unfoldable pub state : VeluxNode → CoverState
state node = derive_cover_state node.operating_state node.current_position node.target_position

pub record CoverStatusSnapshot : Type 0 where
  pub cover_state : CoverState
  pub position : Option ℕ
  pub target : Option ℕ
  pub operating_state : String
  pub remaining_time : Option ℕ

unfoldable pub snapshot : VeluxNode → CoverStatusSnapshot
snapshot node = record {
  cover_state = state node;
  position = Option.map mqtt_open_percent node.current_position;
  target = Option.map mqtt_open_percent node.target_position;
  operating_state = operating_state_label node.operating_state;
  remaining_time = node.remaining_time;
}

-- `NodeError`; a protocol error holds the error whose text the source keeps.
pub data NodeError : Type 0 where
  unsupported_actuator : (node_id : ℕ) → NodeError
  position_unknown : (node_id : ℕ) → NodeError
  protocol : KlfError → NodeError

pub data NodeResult {ℓ} (A : Type ℓ) : Type ℓ where
  node_ok : A → NodeResult A
  node_err : NodeError → NodeResult A

-- Whether the node moves, or is about to.
unfoldable pub is_busy : OperatingState → Bool
is_busy executing = true
is_busy waiting_for_power = true
is_busy _ = false

abbrev pub position_is : Option Percentage → Percentage → Bool
position_is none q = false
position_is (some p) q = p.raw == q.raw

-- The end of `toggle_endpoint`, which goes by the current position.
unfoldable pub endpoint_by_position : VeluxNode → NodeResult CoverEndpoint
endpoint_by_position node = elim node.current_position [
  | some position ↦
      if leb (from_percent 50).raw position.raw then node_ok open_end else node_ok closed_end
  | none ↦ node_err (position_unknown node.id)
]

unfoldable pub endpoint_by_state : VeluxNode → CoverState → NodeResult CoverEndpoint
unfolding endpoint_by_position
endpoint_by_state node closing = node_ok open_end
endpoint_by_state node opening = node_ok closed_end
endpoint_by_state node _ = endpoint_by_position node

unfoldable pub toggle_endpoint : VeluxNode → NodeResult CoverEndpoint
unfolding is_busy endpoint_by_state
toggle_endpoint node =
    if is_busy node.operating_state
    then if position_is node.target_position fully_closed
      then node_ok open_end
      else if position_is node.target_position fully_open
      then node_ok closed_end
      else endpoint_by_state node (state node)
    else endpoint_by_position node

unfoldable pub resolve_action : VeluxNode → CoverAction → NodeResult CoverEndpoint
resolve_action node open_action = node_ok open_end
resolve_action node close_action = node_ok closed_end
resolve_action node toggle_action = toggle_endpoint node

-- The request for an endpoint.
unfoldable pub endpoint_request : VeluxNode → ℕ → CoverEndpoint → NodeResult Request
endpoint_request node session_id endpoint = elim (Target.new (node.id ∷ [])) [
  | ok target ↦ node_ok (
      command_send (record { session_id = session_id; main_parameter = parameter endpoint }) target)
  | err e ↦ node_err (protocol e)
]

unfoldable pub command_request : VeluxNode → ℕ → CoverAction → NodeResult Request
unfolding endpoint_request
command_request node session_id action = elim node.cover_strategy [
  | none ↦ node_err (unsupported_actuator node.id)
  | some _ ↦ elim (resolve_action node action) [
    | node_ok endpoint ↦ endpoint_request node session_id endpoint
    | node_err e ↦ node_err e
  ]
]

abbrev pub endpoint_position : CoverEndpoint → Percentage
endpoint_position open_end = fully_open
endpoint_position closed_end = fully_closed

unfoldable pub mark_command_accepted : VeluxNode → CoverEndpoint → VeluxNode × Bool
mark_command_accepted node endpoint = changed node (record node {
  target_position = some (endpoint_position endpoint);
  operating_state = executing;
  freshness = fresh command none;
})

unfoldable pub apply_command_confirmation :
    VeluxNode → Response → ℕ → CoverEndpoint → VeluxNode × Bool
apply_command_confirmation node (command_accepted confirmed status) session_id endpoint =
    if status == 1 && confirmed == session_id
    then mark_command_accepted node endpoint
    else (node, false)
apply_command_confirmation node _ session_id endpoint = (node, false)

unfoldable pub apply_information_changed : VeluxNode → NodeInformationChanged → VeluxNode × Bool
apply_information_changed node information =
    if not (information.node_id == node.id)
    then (node, false)
    else changed node (record node {
      name = information.name;
      order = information.order;
      placement = information.placement;
      variation = information.variation;
    })

unfoldable pub apply_state_position :
    VeluxNode → NodeStatePosition → StatusSource → VeluxNode × Bool
apply_state_position node report source =
    if not (report.node_id == node.id)
    then (node, false)
    else changed node (record node {
      availability = available;
      operating_state = report.operating_state;
      current_position = relative_position report.current_position;
      target_position = relative_position report.target_position;
      remaining_time = known_remaining_time report.remaining_time;
      freshness = fresh source (some report.timestamp);
    })

-- The part of `apply_status` behind the `let .. else`.
unfoldable pub apply_status_detail :
    VeluxNode → RunStatus → StatusSource → StatusNotificationDetail → VeluxNode × Bool
apply_status_detail node run_status source (main target_position current_position seconds _ _) =
    changed node (record node {
      availability = available;
      operating_state = operating_state_from_run_status run_status;
      current_position = relative_position current_position;
      target_position = relative_position target_position;
      remaining_time = known_remaining_time seconds;
      freshness = fresh source none;
    })
apply_status_detail node run_status source _ = (node, false)

unfoldable pub apply_status : VeluxNode → StatusNotification → StatusSource → VeluxNode × Bool
unfolding apply_status_detail
apply_status node status source =
    if not (status.node_id == node.id)
    then (node, false)
    else apply_status_detail node status.run_status source status.detail

abbrev pub remaining_after : RunStatus → Option ℕ → Option ℕ
remaining_after completed remaining = some 0
remaining_after failed remaining = none
remaining_after active remaining = remaining
remaining_after (RunStatus.unknown value) remaining = remaining

unfoldable pub apply_run_status : VeluxNode → CommandRunStatus → VeluxNode × Bool
apply_run_status node status =
    if not (status.node_id == node.id)
    then (node, false)
    else changed node (record node {
      operating_state = operating_state_from_run_status status.run_status;
      remaining_time = remaining_after status.run_status node.remaining_time;
      current_position =
          if status.node_parameter == 0
          then relative_position status.parameter_value
          else node.current_position;
      freshness = fresh notification none;
    })

abbrev pub availability_eq : Availability → Availability → Bool
availability_eq available available = true
availability_eq unavailable unavailable = true
availability_eq _ _ = false

unfoldable pub set_available : VeluxNode → Bool → VeluxNode × Bool
set_available node is_available =
    let availability = if is_available then available else unavailable in
    if availability_eq node.availability availability
    then (node, false)
    else (record node { availability = availability }, true)

unfoldable pub mark_status_unknown : VeluxNode → VeluxNode × Bool
mark_status_unknown node = changed node (record node {
  operating_state = OperatingState.unknown 255;
  current_position = none;
  target_position = none;
  remaining_time = none;
  freshness = fresh poll none;
})
