-- ===== src/Decode/Nodes.antt =====
-- `decode_node_information`, `decode_node_state`, `decode_command_run_status` and
-- `decode_status_notification` of src/klf200/response.rs.
use velux2mqtt.Error.{◌>>=◌, Result, err, invalid_request, ok}
use velux2mqtt.Prelude.{◌*◌, ◌+◌, ◌==◌, Bytes, List, [], drop, if◌then◌else◌, leb, ltb, ℕ, ◌∷◌}
use velux2mqtt.Types.Records.{Alias}
use velux2mqtt.Types.Position.{StandardParameter}
use velux2mqtt.Response.Nodes.{
  NodeInformation, NodeStatePosition, CommandRunStatus, ParameterStatus, StatusNotificationDetail,
  StatusNotification, parameters, main,
}
use velux2mqtt.Decode.Fields.{
  read_u16, read_parameter, byte_at, require_exact, require, read_i8, session_id, slice, read_u32,
  entries,
}
use velux2mqtt.Response.States.{operating_state, run_status}
use velux2mqtt.Types.FixedString.{decode_fixed_string}

unfoldable pub alias_at : Bytes → ℕ → Alias
alias_at payload offset = record {
  kind = read_u16 payload offset;
  value = read_u16 payload (offset + 2);
}

-- The four functional positions from `offset` on.
abbrev pub positions_at : Bytes → ℕ → List StandardParameter
positions_at payload offset =
    read_parameter payload offset
    ∷ read_parameter payload (offset + 2)
    ∷ read_parameter payload (offset + 4)
    ∷ read_parameter payload (offset + 6)
    ∷ []

unfoldable pub node_information_of : Bytes → Bytes → NodeInformation
node_information_of payload name = record {
  node_id = byte_at payload 0;
  order = read_u16 payload 1;
  placement = byte_at payload 3;
  name = name;
  velocity = byte_at payload 68;
  node_type_sub_type = read_u16 payload 69;
  product_group = read_i8 payload 71;
  product_type = read_i8 payload 72;
  variation = byte_at payload 73;
  power_mode = byte_at payload 74;
  build_number = byte_at payload 75;
  serial_number = slice payload 76 84;
  operating_state = operating_state (byte_at payload 84);
  current_position = read_parameter payload 85;
  target_position = read_parameter payload 87;
  functional_positions = positions_at payload 89;
  remaining_time = read_u16 payload 97;
  timestamp = read_u32 payload 99;
  aliases = entries (alias_at payload) 104 4 (byte_at payload 103);
}

unfoldable pub decode_node_information : Bytes → ℕ → Result NodeInformation
unfolding node_information_of
decode_node_information payload command = do
  checked ← require_exact payload 124 command
  if ltb 5 (byte_at payload 103)
      then err (invalid_request "node information contains more than five aliases")
      else (do
        name ← decode_fixed_string (slice payload 4 68)
        ok (node_information_of payload name))

unfoldable pub decode_node_state : Bytes → ℕ → Result NodeStatePosition
decode_node_state payload command = do
  checked ← require_exact payload 20 command
  ok (record {
    node_id = byte_at payload 0;
    operating_state = operating_state (byte_at payload 1);
    current_position = read_parameter payload 2;
    target_position = read_parameter payload 4;
    functional_positions = positions_at payload 6;
    remaining_time = read_u16 payload 14;
    timestamp = read_u32 payload 16;
  })

unfoldable pub decode_command_run_status : Bytes → ℕ → Result CommandRunStatus
decode_command_run_status payload command = do
  checked ← require_exact payload 13 command
  session ← session_id payload command
  ok (record {
    session_id = session;
    status_id = byte_at payload 2;
    node_id = byte_at payload 3;
    node_parameter = byte_at payload 4;
    parameter_value = read_parameter payload 5;
    run_status = run_status (byte_at payload 7);
    status_reply = byte_at payload 8;
    information_code = read_u32 payload 9;
  })

unfoldable pub parameter_status_at : Bytes → ℕ → ParameterStatus
parameter_status_at payload offset = record {
  node_parameter = byte_at payload offset;
  value = read_u16 payload (offset + 1);
}

-- The three cases of the status type.
unfoldable pub decode_parameters : Bytes → ℕ → Result StatusNotificationDetail
decode_parameters payload command = do
  present ← require payload 8 command
  checked ← require_exact payload (8 + byte_at payload 7 * 3) command
  ok (parameters (entries (parameter_status_at payload) 8 3 (byte_at payload 7)))

unfoldable pub decode_main : Bytes → ℕ → Result StatusNotificationDetail
decode_main payload command = do
  checked ← require_exact payload 18 command
  ok (
      main (read_parameter payload 7) (read_parameter payload 9) (read_u16 payload 11)
        (read_u32 payload 13) (byte_at payload 17))

unfoldable pub decode_detail : Bytes → ℕ → Result StatusNotificationDetail
decode_detail payload command =
    let status_type = byte_at payload 6 in
    if leb status_type 2
    then decode_parameters payload command
    else if status_type == 3
    then decode_main payload command
    else ok (StatusNotificationDetail.unknown status_type (drop 7 payload))

unfoldable pub decode_status_notification : Bytes → ℕ → Result StatusNotification
decode_status_notification payload command = do
  present ← require payload 7 command
  detail ← decode_detail payload command
  session ← session_id payload command
  ok (record {
    session_id = session;
    status_id = byte_at payload 2;
    node_id = byte_at payload 3;
    run_status = run_status (byte_at payload 4);
    status_reply = byte_at payload 5;
    detail = detail;
  })
