-- ===== src/Decode/Protocol.antt =====
-- The length that the protocol gives the payload of each response of fixed length, command by command.
use velux2mqtt.CommandId.Constants.{
  gw_activate_productgroup_cfm, gw_activate_scene_cfm, gw_activation_log_updated_ntf,
  gw_clear_activation_log_cfm, gw_command_remaining_time_ntf, gw_command_run_status_ntf,
  gw_command_send_cfm, gw_cs_activate_configuration_mode_cfm, gw_cs_controller_copy_cancel_ntf,
  gw_cs_controller_copy_cfm, gw_cs_controller_copy_ntf, gw_cs_discover_nodes_cfm,
  gw_cs_discover_nodes_ntf, gw_cs_generate_new_key_cfm, gw_cs_generate_new_key_ntf,
  gw_cs_get_systemtable_data_cfm, gw_cs_pgc_job_ntf, gw_cs_receive_key_cfm, gw_cs_receive_key_ntf,
  gw_cs_remove_nodes_cfm, gw_cs_repair_key_cfm, gw_cs_repair_key_ntf, gw_cs_system_table_update_ntf,
  gw_cs_virgin_state_cfm, gw_delete_group_cfm, gw_delete_scene_cfm, gw_error_ntf,
  gw_get_activation_log_header_cfm, gw_get_activation_log_line_cfm,
  gw_get_all_groups_information_cfm, gw_get_all_groups_information_finished_ntf,
  gw_get_all_groups_information_ntf, gw_get_all_nodes_information_cfm,
  gw_get_all_nodes_information_finished_ntf, gw_get_all_nodes_information_ntf,
  gw_get_group_information_cfm, gw_get_group_information_ntf, gw_get_limitation_status_cfm,
  gw_get_local_time_cfm, gw_get_multiple_activation_log_lines_cfm,
  gw_get_multiple_activation_log_lines_ntf, gw_get_network_setup_cfm, gw_get_node_information_cfm,
  gw_get_node_information_ntf, gw_get_protocol_version_cfm, gw_get_scene_infoamation_cfm,
  gw_get_scene_list_cfm, gw_get_state_cfm, gw_get_version_cfm, gw_group_deleted_ntf,
  gw_house_status_monitor_disable_cfm, gw_house_status_monitor_enable_cfm,
  gw_initialize_scene_cancel_cfm, gw_initialize_scene_cfm, gw_initialize_scene_ntf,
  gw_leave_learn_state_cfm, gw_limitation_status_ntf, gw_mode_send_cfm, gw_new_group_cfm,
  gw_node_information_changed_ntf, gw_node_state_position_changed_ntf, gw_password_change_cfm,
  gw_password_change_ntf, gw_password_enter_cfm, gw_reboot_cfm, gw_record_scene_cfm,
  gw_record_scene_ntf, gw_remove_contact_input_link_cfm, gw_rename_scene_cfm,
  gw_rtc_set_time_zone_cfm, gw_scene_information_changed_ntf, gw_session_finished_ntf,
  gw_set_contact_input_link_cfm, gw_set_factory_default_cfm, gw_set_group_information_cfm,
  gw_set_limitation_cfm, gw_set_network_setup_cfm, gw_set_node_name_cfm,
  gw_set_node_order_and_placement_cfm, gw_set_node_variation_cfm, gw_set_utc_cfm,
  gw_status_request_cfm, gw_stop_scene_cfm, gw_wink_send_cfm, gw_wink_send_ntf,
}
use velux2mqtt.Prelude.{ℕ, ◌++◌, List, [], ◌∷◌}

abbrev pub Lengths : Type 0
Lengths = List (ℕ × ℕ)

abbrev pub core_lengths : Lengths
core_lengths =
    (gw_reboot_cfm, 0)
    ∷ (gw_set_factory_default_cfm, 0)
    ∷ (gw_house_status_monitor_enable_cfm, 0)
    ∷ (gw_house_status_monitor_disable_cfm, 0)
    ∷ (gw_get_all_nodes_information_finished_ntf, 0)
    ∷ (gw_set_network_setup_cfm, 0)
    ∷ (gw_set_utc_cfm, 0)
    ∷ (gw_error_ntf, 1)
    ∷ (gw_password_enter_cfm, 1)
    ∷ (gw_password_change_cfm, 1)
    ∷ (gw_leave_learn_state_cfm, 1)
    ∷ (gw_rtc_set_time_zone_cfm, 1)
    ∷ (gw_password_change_ntf, 32)
    ∷ (gw_get_version_cfm, 9)
    ∷ (gw_get_protocol_version_cfm, 4)
    ∷ (gw_get_state_cfm, 6)
    ∷ (gw_get_network_setup_cfm, 13)
    ∷ (gw_get_local_time_cfm, 15)
    ∷ (gw_get_node_information_cfm, 2)
    ∷ (gw_get_all_nodes_information_cfm, 2)
    ∷ (gw_get_node_information_ntf, 124)
    ∷ (gw_get_all_nodes_information_ntf, 124)
    ∷ (gw_node_information_changed_ntf, 69)
    ∷ (gw_node_state_position_changed_ntf, 20)
    ∷ (gw_command_send_cfm, 3)
    ∷ (gw_status_request_cfm, 3)
    ∷ (gw_command_run_status_ntf, 13)
    ∷ (gw_command_remaining_time_ntf, 6)
    ∷ (gw_session_finished_ntf, 2)
    ∷ []

abbrev pub log_lengths : Lengths
log_lengths =
    (gw_get_activation_log_header_cfm, 4)
    ∷ (gw_clear_activation_log_cfm, 0)
    ∷ (gw_activation_log_updated_ntf, 0)
    ∷ (gw_get_activation_log_line_cfm, 17)
    ∷ (gw_get_multiple_activation_log_lines_ntf, 17)
    ∷ (gw_get_multiple_activation_log_lines_cfm, 3)
    ∷ []

abbrev pub scene_lengths : Lengths
scene_lengths =
    (gw_initialize_scene_cfm, 1)
    ∷ (gw_initialize_scene_cancel_cfm, 1)
    ∷ (gw_record_scene_cfm, 1)
    ∷ (gw_get_scene_list_cfm, 1)
    ∷ (gw_initialize_scene_ntf, 26)
    ∷ (gw_record_scene_ntf, 2)
    ∷ (gw_delete_scene_cfm, 2)
    ∷ (gw_rename_scene_cfm, 2)
    ∷ (gw_get_scene_infoamation_cfm, 2)
    ∷ (gw_scene_information_changed_ntf, 2)
    ∷ (gw_set_contact_input_link_cfm, 2)
    ∷ (gw_remove_contact_input_link_cfm, 2)
    ∷ (gw_activate_scene_cfm, 3)
    ∷ (gw_stop_scene_cfm, 3)
    ∷ (gw_activate_productgroup_cfm, 3)
    ∷ []

abbrev pub extension_lengths : Lengths
extension_lengths =
    (gw_wink_send_cfm, 3)
    ∷ (gw_set_limitation_cfm, 3)
    ∷ (gw_get_limitation_status_cfm, 3)
    ∷ (gw_mode_send_cfm, 3)
    ∷ (gw_wink_send_ntf, 2)
    ∷ (gw_limitation_status_ntf, 10)
    ∷ []

abbrev pub group_lengths : Lengths
group_lengths =
    (gw_set_node_variation_cfm, 2)
    ∷ (gw_set_node_name_cfm, 2)
    ∷ (gw_set_node_order_and_placement_cfm, 2)
    ∷ (gw_get_group_information_cfm, 2)
    ∷ (gw_set_group_information_cfm, 2)
    ∷ (gw_new_group_cfm, 2)
    ∷ (gw_delete_group_cfm, 2)
    ∷ (gw_get_all_groups_information_cfm, 2)
    ∷ (gw_get_group_information_ntf, 99)
    ∷ (gw_get_all_groups_information_ntf, 99)
    ∷ (gw_get_all_groups_information_finished_ntf, 0)
    ∷ (gw_group_deleted_ntf, 1)
    ∷ []

abbrev pub configuration_lengths : Lengths
configuration_lengths =
    (gw_cs_get_systemtable_data_cfm, 0)
    ∷ (gw_cs_discover_nodes_cfm, 0)
    ∷ (gw_cs_virgin_state_cfm, 0)
    ∷ (gw_cs_controller_copy_cfm, 0)
    ∷ (gw_cs_controller_copy_cancel_ntf, 0)
    ∷ (gw_cs_receive_key_cfm, 0)
    ∷ (gw_cs_generate_new_key_cfm, 0)
    ∷ (gw_cs_repair_key_cfm, 0)
    ∷ (gw_cs_discover_nodes_ntf, 131)
    ∷ (gw_cs_remove_nodes_cfm, 1)
    ∷ (gw_cs_controller_copy_ntf, 2)
    ∷ (gw_cs_receive_key_ntf, 53)
    ∷ (gw_cs_generate_new_key_ntf, 53)
    ∷ (gw_cs_repair_key_ntf, 53)
    ∷ (gw_cs_pgc_job_ntf, 3)
    ∷ (gw_cs_system_table_update_ntf, 52)
    ∷ (gw_cs_activate_configuration_mode_cfm, 79)
    ∷ []

abbrev pub response_lengths : Lengths
response_lengths =
    core_lengths ++ log_lengths ++ scene_lengths ++ extension_lengths ++ group_lengths
    ++ configuration_lengths
