-- ===== src/Decode/Core.antt =====
-- `decode_core` and `decode_session_status` of src/klf200/response.rs.
use velux2mqtt.Response.{
  Response, all_nodes_information_accepted, command_accepted, command_remaining_time,
  command_run_status, node_information, node_information_accepted, node_information_changed,
  node_state_position, session_finished, status_accepted, status_notification,
}
use velux2mqtt.CommandId.Constants.{
  gw_command_remaining_time_ntf, gw_command_run_status_ntf, gw_command_send_cfm, gw_error_ntf,
  gw_get_all_nodes_information_cfm, gw_get_all_nodes_information_finished_ntf,
  gw_get_all_nodes_information_ntf, gw_get_local_time_cfm, gw_get_network_setup_cfm,
  gw_get_node_information_cfm, gw_get_node_information_ntf, gw_get_protocol_version_cfm,
  gw_get_state_cfm, gw_get_version_cfm, gw_house_status_monitor_disable_cfm,
  gw_house_status_monitor_enable_cfm, gw_leave_learn_state_cfm, gw_node_information_changed_ntf,
  gw_node_state_position_changed_ntf, gw_password_change_cfm, gw_password_change_ntf,
  gw_password_enter_cfm, gw_reboot_cfm, gw_rtc_set_time_zone_cfm, gw_session_finished_ntf,
  gw_set_factory_default_cfm, gw_set_network_setup_cfm, gw_set_utc_cfm, gw_status_request_cfm,
  gw_status_request_ntf,
}
use velux2mqtt.Error.{◌>>=◌, Result, ok}
use velux2mqtt.Prelude.{Bool, Bytes, List, [], if◌then◌else◌, false, true, ℕ, ◌∷◌}
use velux2mqtt.Decode.Fields.{
  Arms, require_exact, select, session_id, slice, byte_at, read_u16, acknowledge,
}
use velux2mqtt.Types.FixedString.{decode_fixed_string}
use velux2mqtt.Decode.Gateway.{decode_gateway}
use velux2mqtt.Decode.Nodes.{
  decode_node_information, decode_node_state, decode_command_run_status, decode_status_notification,
}

unfoldable pub decode_session_status : Bytes → ℕ → Bool → Result Response
decode_session_status payload command is_command = do
  checked ← require_exact payload 3 command
  session ← session_id payload command
  ok (
      if is_command
      then command_accepted session (byte_at payload 2)
      else status_accepted session (byte_at payload 2))

unfoldable pub decode_information_changed : Bytes → ℕ → Result Response
decode_information_changed payload command = do
  checked ← require_exact payload 69 command
  name ← decode_fixed_string (slice payload 1 65)
  ok (
      node_information_changed (record {
        node_id = byte_at payload 0;
        name = name;
        order = read_u16 payload 65;
        placement = byte_at payload 67;
        variation = byte_at payload 68;
      }))

abbrev pub gateway_commands : List ℕ
gateway_commands =
    gw_error_ntf ∷ gw_set_network_setup_cfm ∷ gw_set_utc_cfm ∷ gw_password_enter_cfm
    ∷ gw_password_change_cfm ∷ gw_password_change_ntf ∷ gw_get_version_cfm
    ∷ gw_get_protocol_version_cfm ∷ gw_get_state_cfm ∷ gw_leave_learn_state_cfm
    ∷ gw_rtc_set_time_zone_cfm ∷ gw_get_network_setup_cfm ∷ gw_get_local_time_cfm ∷ []

abbrev pub core_arms : ℕ → Bytes → Arms
core_arms command payload =
    (
      gw_reboot_cfm ∷ gw_set_factory_default_cfm ∷ gw_house_status_monitor_enable_cfm
          ∷ gw_house_status_monitor_disable_cfm ∷ gw_get_all_nodes_information_finished_ntf ∷ [],
      acknowledge payload command,
    )
    ∷ (gateway_commands, decode_gateway command payload)
    ∷ (
      gw_get_node_information_cfm ∷ [],
      do
        checked ← require_exact payload 2 command
        ok (node_information_accepted (byte_at payload 0) (byte_at payload 1)),
    )
    ∷ (
      gw_get_all_nodes_information_cfm ∷ [],
      do
        checked ← require_exact payload 2 command
        ok (all_nodes_information_accepted (byte_at payload 0) (byte_at payload 1)),
    )
    ∷ (
      gw_get_node_information_ntf ∷ gw_get_all_nodes_information_ntf ∷ [],
      do information ← decode_node_information payload command; ok (node_information information),
    )
    ∷ (gw_node_information_changed_ntf ∷ [], decode_information_changed payload command)
    ∷ (
      gw_node_state_position_changed_ntf ∷ [],
      do report ← decode_node_state payload command; ok (node_state_position report),
    )
    ∷ (gw_command_send_cfm ∷ [], decode_session_status payload command true)
    ∷ (
      gw_command_run_status_ntf ∷ [],
      do report ← decode_command_run_status payload command; ok (command_run_status report),
    )
    ∷ (
      gw_command_remaining_time_ntf ∷ [],
      do
        checked ← require_exact payload 6 command
        session ← session_id payload command
        ok (
            command_remaining_time session (byte_at payload 2) (byte_at payload 3)
              (read_u16 payload 4)),
    )
    ∷ (
      gw_session_finished_ntf ∷ [],
      do
        checked ← require_exact payload 2 command
        session ← session_id payload command
        ok (session_finished session),
    )
    ∷ (gw_status_request_cfm ∷ [], decode_session_status payload command false)
    ∷ (
      gw_status_request_ntf ∷ [],
      do report ← decode_status_notification payload command; ok (status_notification report),
    )
    ∷ []

unfoldable pub decode_core : ℕ → Bytes → Result Response
decode_core command payload =
    select command (core_arms command payload) (ok (Response.unknown command payload))
