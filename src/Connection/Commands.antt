-- ===== src/Connection/Commands.antt =====
-- The questions that src/klf200/connection.rs asks of a response: the command that it came with, the
-- session that it names, whether it accepts that session, and whether it ends one.
use velux2mqtt.Response.{
  Response, acknowledgement, activation_log_entry, activation_log_header, all_groups_accepted,
  all_nodes_information_accepted, command_accepted, command_remaining_time, command_run_status,
  configuration_activation_result, contact_input_links, contact_input_operation_result,
  controller_copy_result, error_notification, gateway_state, group_change, group_deleted,
  group_information, group_operation_result, key_change_result, limitation_status, local_time,
  mode_notification, multiple_activation_log_result, network_setup, node_discovery_result,
  node_information, node_information_accepted, node_information_changed, node_mutation_result,
  node_state_position, nodes_removed, operation_status, password_changed,
  password_changed_notification, password_entered, pgc_job, product_group_notification,
  product_group_result, protocol_version, scene_change, scene_information,
  scene_initialization_result, scene_list, scene_list_accepted, scene_object_result,
  scene_session_result, scene_status_result, session_command_result, session_finished,
  status_accepted, status_notification, system_table_data, system_table_update, wink_finished,
}
use velux2mqtt.CommandId.Constants.{
  gw_activate_productgroup_cfm, gw_activate_productgroup_ntf, gw_command_remaining_time_ntf,
  gw_command_run_status_ntf, gw_command_send_cfm, gw_cs_activate_configuration_mode_cfm,
  gw_cs_controller_copy_ntf, gw_cs_discover_nodes_ntf, gw_cs_get_systemtable_data_ntf,
  gw_cs_pgc_job_ntf, gw_cs_remove_nodes_cfm, gw_cs_system_table_update_ntf, gw_error_ntf,
  gw_get_activation_log_header_cfm, gw_get_all_groups_information_cfm,
  gw_get_all_nodes_information_cfm, gw_get_all_nodes_information_ntf,
  gw_get_contact_input_link_list_cfm, gw_get_limitation_status_cfm, gw_get_local_time_cfm,
  gw_get_multiple_activation_log_lines_cfm, gw_get_network_setup_cfm, gw_get_node_information_cfm,
  gw_get_protocol_version_cfm, gw_get_scene_infoamation_ntf, gw_get_scene_list_cfm,
  gw_get_scene_list_ntf, gw_get_state_cfm, gw_get_version_cfm, gw_group_deleted_ntf,
  gw_group_information_changed_ntf, gw_initialize_scene_ntf, gw_limitation_status_ntf,
  gw_mode_send_cfm, gw_mode_send_ntf, gw_node_information_changed_ntf,
  gw_node_state_position_changed_ntf, gw_password_change_cfm, gw_password_change_ntf,
  gw_password_enter_cfm, gw_scene_information_changed_ntf, gw_session_finished_ntf,
  gw_set_limitation_cfm, gw_status_request_cfm, gw_status_request_ntf, gw_wink_send_cfm,
  gw_wink_send_ntf,
}
use velux2mqtt.Error.{KlfError, unexpected_response}
use velux2mqtt.Prelude.{◌==◌, Bool, Option, [], if◌then◌else◌, false, none, some, true, ℕ, ◌∷◌}
use Prim.Native.String.{String}
use velux2mqtt.Prelude.Maps.{mem}

unfoldable pub response_command : Response → ℕ
response_command (error_notification n) = gw_error_ntf
response_command (acknowledgement command) = command
response_command (Response.unknown command payload) = command
response_command (operation_status command status) = command
response_command (password_entered b) = gw_password_enter_cfm
response_command (password_changed b) = gw_password_change_cfm
response_command (password_changed_notification n) = gw_password_change_ntf
response_command (Response.version v) = gw_get_version_cfm
response_command (protocol_version v) = gw_get_protocol_version_cfm
response_command (gateway_state s) = gw_get_state_cfm
response_command (network_setup s) = gw_get_network_setup_cfm
response_command (local_time t) = gw_get_local_time_cfm
response_command (system_table_data d) = gw_cs_get_systemtable_data_ntf
response_command (node_discovery_result r) = gw_cs_discover_nodes_ntf
response_command (nodes_removed b) = gw_cs_remove_nodes_cfm
response_command (controller_copy_result r) = gw_cs_controller_copy_ntf
response_command (key_change_result r) = r.command
response_command (pgc_job j) = gw_cs_pgc_job_ntf
response_command (system_table_update u) = gw_cs_system_table_update_ntf
response_command (configuration_activation_result r) = gw_cs_activate_configuration_mode_cfm
response_command (node_mutation_result r) = r.command
response_command (group_operation_result r) = r.command
response_command (group_information n) = n.command
response_command (group_change c) = gw_group_information_changed_ntf
response_command (all_groups_accepted a) = gw_get_all_groups_information_cfm
response_command (group_deleted g) = gw_group_deleted_ntf
response_command (session_command_result r) = r.command
response_command (wink_finished s) = gw_wink_send_ntf
response_command (limitation_status l) = gw_limitation_status_ntf
response_command (mode_notification n) = gw_mode_send_ntf
response_command (scene_status_result r) = r.command
response_command (scene_initialization_result r) = gw_initialize_scene_ntf
response_command (scene_object_result r) = r.command
response_command (scene_list_accepted n) = gw_get_scene_list_cfm
response_command (scene_list l) = gw_get_scene_list_ntf
response_command (scene_information i) = gw_get_scene_infoamation_ntf
response_command (scene_session_result r) = r.command
response_command (scene_change c) = gw_scene_information_changed_ntf
response_command (product_group_result r) = gw_activate_productgroup_cfm
response_command (product_group_notification n) = gw_activate_productgroup_ntf
response_command (contact_input_links l) = gw_get_contact_input_link_list_cfm
response_command (contact_input_operation_result r) = r.command
response_command (activation_log_header h) = gw_get_activation_log_header_cfm
response_command (activation_log_entry e) = e.command
response_command (multiple_activation_log_result r) = gw_get_multiple_activation_log_lines_cfm
response_command (node_information_accepted s n) = gw_get_node_information_cfm
response_command (all_nodes_information_accepted s n) = gw_get_all_nodes_information_cfm
response_command (node_information i) = gw_get_all_nodes_information_ntf
response_command (node_information_changed c) = gw_node_information_changed_ntf
response_command (node_state_position p) = gw_node_state_position_changed_ntf
response_command (command_accepted s n) = gw_command_send_cfm
response_command (command_run_status s) = gw_command_run_status_ntf
response_command (command_remaining_time s n p t) = gw_command_remaining_time_ntf
response_command (session_finished s) = gw_session_finished_ntf
response_command (status_accepted s n) = gw_status_request_cfm
response_command (status_notification n) = gw_status_request_ntf

-- `unexpected_response`
unfoldable pub unexpected : String → Response → KlfError
unfolding response_command
unexpected operation response = unexpected_response operation (response_command response)

unfoldable pub response_session_id : Response → Option ℕ
response_session_id (command_accepted session status) = some session
response_session_id (status_accepted session status) = some session
response_session_id (session_command_result result) = some result.session_id
response_session_id (scene_session_result result) = some result.session_id
response_session_id (product_group_result result) = some result.session_id
response_session_id _ = none

-- The inner `match` of `session_was_accepted`, on the command of the result.
unfoldable pub command_was_accepted : ℕ → ℕ → Bool
unfolding mem
command_was_accepted command status =
    if mem (gw_wink_send_cfm ∷ gw_set_limitation_cfm ∷ gw_get_limitation_status_cfm ∷ []) command
    then status == 1
    else if command == gw_mode_send_cfm
    then status == 0
    else false

unfoldable pub session_was_accepted : Response → Bool
unfolding command_was_accepted
session_was_accepted (command_accepted session status) = status == 1
session_was_accepted (status_accepted session status) = status == 1
session_was_accepted (session_command_result result) =
    command_was_accepted result.command result.status
session_was_accepted (scene_session_result result) = result.status == 0
session_was_accepted (product_group_result result) = result.status == 0
session_was_accepted _ = false

unfoldable pub terminal_session_id : Response → Option ℕ
terminal_session_id (session_finished session) = some session
terminal_session_id (wink_finished session) = some session
terminal_session_id _ = none

-- `Option<SessionId>` equality
abbrev pub names_session : Option ℕ → ℕ → Bool
names_session (some session) expected = session == expected
names_session none expected = false

unfoldable pub confirmation_session_matches : Option ℕ → Response → Bool
unfolding response_session_id
confirmation_session_matches none response = true
confirmation_session_matches (some expected) response =
    names_session (response_session_id response) expected
