-- ===== src/Tests/Nodes.antt =====
-- The theorems about src/veluxnode.rs at a concrete node.
use velux2mqtt.Node.Invariant.Updates
use velux2mqtt.Node.Invariant.{discovered, updated, Reachable-IsValid, position_reported}
use velux2mqtt.Prelude.{◌&&◌, [], arith, false, none, ◌↔◌, ◌∷◌, ◌≡◌}
use velux2mqtt.Types.Position.{StandardParameter, relative, fully_closed}
use velux2mqtt.Response.Nodes.{NodeInformation, NodeStatePosition}
use velux2mqtt.Node.State.{
  VeluxNode, from_information, toggle_endpoint, apply_state_position, node_err, command_request,
  state, position_unknown, is_busy, node_ok,
}
use velux2mqtt.Node.Requests.{IsRequested, command_request-IsRequested}
use velux2mqtt.Node.Cover.{relative_position}
use velux2mqtt.Node.State.{from_information}
use velux2mqtt.Node.Changes.{IsUpdatedBy, updates-IsUpdate}
use velux2mqtt.Prelude.Int.{pos}
use velux2mqtt.Response.States.{executing, done}
use velux2mqtt.Node.Cover.{
  closed, poll, open_end, close_action, closing, opening, CoverEndpoint, closed_end, parameter,
}
use velux2mqtt.Node.Toggle.{targets_end, toggle-err_iff, toggle_reverses}

abbrev half : StandardParameter
half = relative (record { raw = 25600 })

-- A roller shutter named "A", half open and at rest.
abbrev pub information : NodeInformation
information = record {
  node_id = 3;
  order = 0;
  placement = 0;
  name = 0x41 ∷ [];
  velocity = 0;
  node_type_sub_type = 128;
  product_group = pos 0;
  product_type = pos 0;
  variation = 0;
  power_mode = 0;
  build_number = 0;
  serial_number = [];
  operating_state = done;
  current_position = half;
  target_position = half;
  functional_positions = [];
  remaining_time = 0;
  timestamp = 1700000000;
  aliases = [];
}

abbrev pub shutter : VeluxNode
shutter = from_information information

-- A report that it closes.
abbrev pub closes : NodeStatePosition
closes = record {
  node_id = 3;
  operating_state = executing;
  current_position = half;
  target_position = relative fully_closed;
  functional_positions = [];
  remaining_time = 20;
  timestamp = 1700000010;
}

abbrev closing_shutter : VeluxNode
closing_shutter = (apply_state_position shutter closes poll).0

Reachable-IsValid_example : Updates.IsValid closing_shutter × (closing_shutter.id ≡ 3)
Reachable-IsValid_example =
    Reachable-IsValid information (omega arith) (omega arith)
      (updated discovered (position_reported shutter closes poll (omega arith) (omega arith)))

toggle_reverses_example :
    (state closing_shutter ≡ closing → toggle_endpoint closing_shutter ≡ node_ok open_end)
    × (state closing_shutter ≡ opening → toggle_endpoint closing_shutter ≡ node_ok closed_end)
unfolding from_information apply_state_position velux2mqtt.Node.Cover.relative_position
toggle_reverses_example = toggle_reverses closing_shutter (omega arith)

toggle-err_iff_example : (toggle_endpoint shutter ≡ node_err (position_unknown shutter.id)) ↔ (
    (shutter.current_position ≡ none)
    × ((is_busy shutter.operating_state && targets_end shutter) ≡ false))
toggle-err_iff_example = toggle-err_iff shutter

command_request-IsRequested_example :
    IsRequested shutter 7 close_action (command_request shutter 7 close_action)
unfolding from_information relative_position
command_request-IsRequested_example =
    command_request-IsRequested shutter 7 close_action (omega arith)

updates-IsUpdate_example : IsUpdatedBy shutter
updates-IsUpdate_example = updates-IsUpdate shutter
