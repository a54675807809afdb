-- ===== src/CommandId/Table.antt =====
-- The table `ALL_KNOWN_COMMANDS` of src/klf200/command_id.rs, in the order of the source.
use velux2mqtt.Prelude.{ℕ, Bytes, List, [], ◌∷◌, ascii}
use velux2mqtt.CommandId.Constants.{
  gw_error_ntf, gw_reboot_req, gw_reboot_cfm, gw_set_factory_default_req,
  gw_set_factory_default_cfm, gw_get_version_req, gw_get_version_cfm, gw_get_protocol_version_req,
  gw_get_protocol_version_cfm, gw_get_state_req, gw_get_state_cfm, gw_leave_learn_state_req,
  gw_leave_learn_state_cfm, gw_get_network_setup_req, gw_get_network_setup_cfm,
  gw_set_network_setup_req, gw_set_network_setup_cfm, gw_cs_get_systemtable_data_req,
  gw_cs_get_systemtable_data_cfm, gw_cs_get_systemtable_data_ntf, gw_cs_discover_nodes_req,
  gw_cs_discover_nodes_cfm, gw_cs_discover_nodes_ntf, gw_cs_remove_nodes_req,
  gw_cs_remove_nodes_cfm, gw_cs_virgin_state_req, gw_cs_virgin_state_cfm, gw_cs_controller_copy_req,
  gw_cs_controller_copy_cfm, gw_cs_controller_copy_ntf, gw_cs_controller_copy_cancel_ntf,
  gw_cs_receive_key_req, gw_cs_receive_key_cfm, gw_cs_receive_key_ntf, gw_cs_pgc_job_ntf,
  gw_cs_system_table_update_ntf, gw_cs_generate_new_key_req, gw_cs_generate_new_key_cfm,
  gw_cs_generate_new_key_ntf, gw_cs_repair_key_req, gw_cs_repair_key_cfm, gw_cs_repair_key_ntf,
  gw_cs_activate_configuration_mode_req, gw_cs_activate_configuration_mode_cfm,
  gw_get_node_information_req, gw_get_node_information_cfm, gw_get_all_nodes_information_req,
  gw_get_all_nodes_information_cfm, gw_get_all_nodes_information_ntf,
  gw_get_all_nodes_information_finished_ntf, gw_set_node_variation_req, gw_set_node_variation_cfm,
  gw_set_node_name_req, gw_set_node_name_cfm, gw_node_information_changed_ntf,
  gw_set_node_order_and_placement_req, gw_set_node_order_and_placement_cfm,
  gw_get_node_information_ntf, gw_node_state_position_changed_ntf, gw_get_group_information_req,
  gw_get_group_information_cfm, gw_set_group_information_req, gw_set_group_information_cfm,
  gw_group_information_changed_ntf, gw_delete_group_req, gw_delete_group_cfm, gw_new_group_req,
  gw_new_group_cfm, gw_get_all_groups_information_req, gw_get_all_groups_information_cfm,
  gw_get_all_groups_information_ntf, gw_get_all_groups_information_finished_ntf,
  gw_group_deleted_ntf, gw_get_group_information_ntf, gw_house_status_monitor_enable_req,
  gw_house_status_monitor_enable_cfm, gw_house_status_monitor_disable_req,
  gw_house_status_monitor_disable_cfm, gw_command_send_req, gw_command_send_cfm,
  gw_command_run_status_ntf, gw_command_remaining_time_ntf, gw_session_finished_ntf,
  gw_status_request_req, gw_status_request_cfm, gw_status_request_ntf, gw_wink_send_req,
  gw_wink_send_cfm, gw_wink_send_ntf, gw_set_limitation_req, gw_set_limitation_cfm,
  gw_get_limitation_status_req, gw_get_limitation_status_cfm, gw_limitation_status_ntf,
  gw_mode_send_req, gw_mode_send_cfm, gw_mode_send_ntf, gw_initialize_scene_req,
  gw_initialize_scene_cfm, gw_initialize_scene_ntf, gw_initialize_scene_cancel_req,
  gw_initialize_scene_cancel_cfm, gw_record_scene_req, gw_record_scene_cfm, gw_record_scene_ntf,
  gw_delete_scene_req, gw_delete_scene_cfm, gw_rename_scene_req, gw_rename_scene_cfm,
  gw_get_scene_list_req, gw_get_scene_list_cfm, gw_get_scene_list_ntf, gw_get_scene_infoamation_req,
  gw_get_scene_infoamation_cfm, gw_get_scene_infoamation_ntf, gw_activate_scene_req,
  gw_activate_scene_cfm, gw_stop_scene_req, gw_stop_scene_cfm, gw_scene_information_changed_ntf,
  gw_activate_productgroup_req, gw_activate_productgroup_cfm, gw_activate_productgroup_ntf,
  gw_get_contact_input_link_list_req, gw_get_contact_input_link_list_cfm,
  gw_set_contact_input_link_req, gw_set_contact_input_link_cfm, gw_remove_contact_input_link_req,
  gw_remove_contact_input_link_cfm, gw_get_activation_log_header_req,
  gw_get_activation_log_header_cfm, gw_clear_activation_log_req, gw_clear_activation_log_cfm,
  gw_get_activation_log_line_req, gw_get_activation_log_line_cfm, gw_activation_log_updated_ntf,
  gw_get_multiple_activation_log_lines_req, gw_get_multiple_activation_log_lines_ntf,
  gw_get_multiple_activation_log_lines_cfm, gw_set_utc_req, gw_set_utc_cfm,
  gw_rtc_set_time_zone_req, gw_rtc_set_time_zone_cfm, gw_get_local_time_req, gw_get_local_time_cfm,
  gw_password_enter_req, gw_password_enter_cfm, gw_password_change_req, gw_password_change_cfm,
  gw_password_change_ntf,
}

pub record KnownCommand : Type 0 where
  pub id : ℕ
  pub name : Bytes

abbrev known_as : ℕ → Bytes → KnownCommand
known_as id name = record { id = id; name = name }

unfoldable pub all_known_commands : List KnownCommand
all_known_commands =
    known_as gw_error_ntf (ascii "GW_ERROR_NTF")
    ∷ known_as gw_reboot_req (ascii "GW_REBOOT_REQ")
    ∷ known_as gw_reboot_cfm (ascii "GW_REBOOT_CFM")
    ∷ known_as gw_set_factory_default_req (ascii "GW_SET_FACTORY_DEFAULT_REQ")
    ∷ known_as gw_set_factory_default_cfm (ascii "GW_SET_FACTORY_DEFAULT_CFM")
    ∷ known_as gw_get_version_req (ascii "GW_GET_VERSION_REQ")
    ∷ known_as gw_get_version_cfm (ascii "GW_GET_VERSION_CFM")
    ∷ known_as gw_get_protocol_version_req (ascii "GW_GET_PROTOCOL_VERSION_REQ")
    ∷ known_as gw_get_protocol_version_cfm (ascii "GW_GET_PROTOCOL_VERSION_CFM")
    ∷ known_as gw_get_state_req (ascii "GW_GET_STATE_REQ")
    ∷ known_as gw_get_state_cfm (ascii "GW_GET_STATE_CFM")
    ∷ known_as gw_leave_learn_state_req (ascii "GW_LEAVE_LEARN_STATE_REQ")
    ∷ known_as gw_leave_learn_state_cfm (ascii "GW_LEAVE_LEARN_STATE_CFM")
    ∷ known_as gw_get_network_setup_req (ascii "GW_GET_NETWORK_SETUP_REQ")
    ∷ known_as gw_get_network_setup_cfm (ascii "GW_GET_NETWORK_SETUP_CFM")
    ∷ known_as gw_set_network_setup_req (ascii "GW_SET_NETWORK_SETUP_REQ")
    ∷ known_as gw_set_network_setup_cfm (ascii "GW_SET_NETWORK_SETUP_CFM")
    ∷ known_as gw_cs_get_systemtable_data_req (ascii "GW_CS_GET_SYSTEMTABLE_DATA_REQ")
    ∷ known_as gw_cs_get_systemtable_data_cfm (ascii "GW_CS_GET_SYSTEMTABLE_DATA_CFM")
    ∷ known_as gw_cs_get_systemtable_data_ntf (ascii "GW_CS_GET_SYSTEMTABLE_DATA_NTF")
    ∷ known_as gw_cs_discover_nodes_req (ascii "GW_CS_DISCOVER_NODES_REQ")
    ∷ known_as gw_cs_discover_nodes_cfm (ascii "GW_CS_DISCOVER_NODES_CFM")
    ∷ known_as gw_cs_discover_nodes_ntf (ascii "GW_CS_DISCOVER_NODES_NTF")
    ∷ known_as gw_cs_remove_nodes_req (ascii "GW_CS_REMOVE_NODES_REQ")
    ∷ known_as gw_cs_remove_nodes_cfm (ascii "GW_CS_REMOVE_NODES_CFM")
    ∷ known_as gw_cs_virgin_state_req (ascii "GW_CS_VIRGIN_STATE_REQ")
    ∷ known_as gw_cs_virgin_state_cfm (ascii "GW_CS_VIRGIN_STATE_CFM")
    ∷ known_as gw_cs_controller_copy_req (ascii "GW_CS_CONTROLLER_COPY_REQ")
    ∷ known_as gw_cs_controller_copy_cfm (ascii "GW_CS_CONTROLLER_COPY_CFM")
    ∷ known_as gw_cs_controller_copy_ntf (ascii "GW_CS_CONTROLLER_COPY_NTF")
    ∷ known_as gw_cs_controller_copy_cancel_ntf (ascii "GW_CS_CONTROLLER_COPY_CANCEL_NTF")
    ∷ known_as gw_cs_receive_key_req (ascii "GW_CS_RECEIVE_KEY_REQ")
    ∷ known_as gw_cs_receive_key_cfm (ascii "GW_CS_RECEIVE_KEY_CFM")
    ∷ known_as gw_cs_receive_key_ntf (ascii "GW_CS_RECEIVE_KEY_NTF")
    ∷ known_as gw_cs_pgc_job_ntf (ascii "GW_CS_PGC_JOB_NTF")
    ∷ known_as gw_cs_system_table_update_ntf (ascii "GW_CS_SYSTEM_TABLE_UPDATE_NTF")
    ∷ known_as gw_cs_generate_new_key_req (ascii "GW_CS_GENERATE_NEW_KEY_REQ")
    ∷ known_as gw_cs_generate_new_key_cfm (ascii "GW_CS_GENERATE_NEW_KEY_CFM")
    ∷ known_as gw_cs_generate_new_key_ntf (ascii "GW_CS_GENERATE_NEW_KEY_NTF")
    ∷ known_as gw_cs_repair_key_req (ascii "GW_CS_REPAIR_KEY_REQ")
    ∷ known_as gw_cs_repair_key_cfm (ascii "GW_CS_REPAIR_KEY_CFM")
    ∷ known_as gw_cs_repair_key_ntf (ascii "GW_CS_REPAIR_KEY_NTF")
    ∷ known_as gw_cs_activate_configuration_mode_req (ascii "GW_CS_ACTIVATE_CONFIGURATION_MODE_REQ")
    ∷ known_as gw_cs_activate_configuration_mode_cfm (ascii "GW_CS_ACTIVATE_CONFIGURATION_MODE_CFM")
    ∷ known_as gw_get_node_information_req (ascii "GW_GET_NODE_INFORMATION_REQ")
    ∷ known_as gw_get_node_information_cfm (ascii "GW_GET_NODE_INFORMATION_CFM")
    ∷ known_as gw_get_all_nodes_information_req (ascii "GW_GET_ALL_NODES_INFORMATION_REQ")
    ∷ known_as gw_get_all_nodes_information_cfm (ascii "GW_GET_ALL_NODES_INFORMATION_CFM")
    ∷ known_as gw_get_all_nodes_information_ntf (ascii "GW_GET_ALL_NODES_INFORMATION_NTF")
    ∷ known_as gw_get_all_nodes_information_finished_ntf
        (ascii "GW_GET_ALL_NODES_INFORMATION_FINISHED_NTF")
    ∷ known_as gw_set_node_variation_req (ascii "GW_SET_NODE_VARIATION_REQ")
    ∷ known_as gw_set_node_variation_cfm (ascii "GW_SET_NODE_VARIATION_CFM")
    ∷ known_as gw_set_node_name_req (ascii "GW_SET_NODE_NAME_REQ")
    ∷ known_as gw_set_node_name_cfm (ascii "GW_SET_NODE_NAME_CFM")
    ∷ known_as gw_node_information_changed_ntf (ascii "GW_NODE_INFORMATION_CHANGED_NTF")
    ∷ known_as gw_set_node_order_and_placement_req (ascii "GW_SET_NODE_ORDER_AND_PLACEMENT_REQ")
    ∷ known_as gw_set_node_order_and_placement_cfm (ascii "GW_SET_NODE_ORDER_AND_PLACEMENT_CFM")
    ∷ known_as gw_get_node_information_ntf (ascii "GW_GET_NODE_INFORMATION_NTF")
    ∷ known_as gw_node_state_position_changed_ntf (ascii "GW_NODE_STATE_POSITION_CHANGED_NTF")
    ∷ known_as gw_get_group_information_req (ascii "GW_GET_GROUP_INFORMATION_REQ")
    ∷ known_as gw_get_group_information_cfm (ascii "GW_GET_GROUP_INFORMATION_CFM")
    ∷ known_as gw_set_group_information_req (ascii "GW_SET_GROUP_INFORMATION_REQ")
    ∷ known_as gw_set_group_information_cfm (ascii "GW_SET_GROUP_INFORMATION_CFM")
    ∷ known_as gw_group_information_changed_ntf (ascii "GW_GROUP_INFORMATION_CHANGED_NTF")
    ∷ known_as gw_delete_group_req (ascii "GW_DELETE_GROUP_REQ")
    ∷ known_as gw_delete_group_cfm (ascii "GW_DELETE_GROUP_CFM")
    ∷ known_as gw_new_group_req (ascii "GW_NEW_GROUP_REQ")
    ∷ known_as gw_new_group_cfm (ascii "GW_NEW_GROUP_CFM")
    ∷ known_as gw_get_all_groups_information_req (ascii "GW_GET_ALL_GROUPS_INFORMATION_REQ")
    ∷ known_as gw_get_all_groups_information_cfm (ascii "GW_GET_ALL_GROUPS_INFORMATION_CFM")
    ∷ known_as gw_get_all_groups_information_ntf (ascii "GW_GET_ALL_GROUPS_INFORMATION_NTF")
    ∷ known_as gw_get_all_groups_information_finished_ntf
        (ascii "GW_GET_ALL_GROUPS_INFORMATION_FINISHED_NTF")
    ∷ known_as gw_group_deleted_ntf (ascii "GW_GROUP_DELETED_NTF")
    ∷ known_as gw_get_group_information_ntf (ascii "GW_GET_GROUP_INFORMATION_NTF")
    ∷ known_as gw_house_status_monitor_enable_req (ascii "GW_HOUSE_STATUS_MONITOR_ENABLE_REQ")
    ∷ known_as gw_house_status_monitor_enable_cfm (ascii "GW_HOUSE_STATUS_MONITOR_ENABLE_CFM")
    ∷ known_as gw_house_status_monitor_disable_req (ascii "GW_HOUSE_STATUS_MONITOR_DISABLE_REQ")
    ∷ known_as gw_house_status_monitor_disable_cfm (ascii "GW_HOUSE_STATUS_MONITOR_DISABLE_CFM")
    ∷ known_as gw_command_send_req (ascii "GW_COMMAND_SEND_REQ")
    ∷ known_as gw_command_send_cfm (ascii "GW_COMMAND_SEND_CFM")
    ∷ known_as gw_command_run_status_ntf (ascii "GW_COMMAND_RUN_STATUS_NTF")
    ∷ known_as gw_command_remaining_time_ntf (ascii "GW_COMMAND_REMAINING_TIME_NTF")
    ∷ known_as gw_session_finished_ntf (ascii "GW_SESSION_FINISHED_NTF")
    ∷ known_as gw_status_request_req (ascii "GW_STATUS_REQUEST_REQ")
    ∷ known_as gw_status_request_cfm (ascii "GW_STATUS_REQUEST_CFM")
    ∷ known_as gw_status_request_ntf (ascii "GW_STATUS_REQUEST_NTF")
    ∷ known_as gw_wink_send_req (ascii "GW_WINK_SEND_REQ")
    ∷ known_as gw_wink_send_cfm (ascii "GW_WINK_SEND_CFM")
    ∷ known_as gw_wink_send_ntf (ascii "GW_WINK_SEND_NTF")
    ∷ known_as gw_set_limitation_req (ascii "GW_SET_LIMITATION_REQ")
    ∷ known_as gw_set_limitation_cfm (ascii "GW_SET_LIMITATION_CFM")
    ∷ known_as gw_get_limitation_status_req (ascii "GW_GET_LIMITATION_STATUS_REQ")
    ∷ known_as gw_get_limitation_status_cfm (ascii "GW_GET_LIMITATION_STATUS_CFM")
    ∷ known_as gw_limitation_status_ntf (ascii "GW_LIMITATION_STATUS_NTF")
    ∷ known_as gw_mode_send_req (ascii "GW_MODE_SEND_REQ")
    ∷ known_as gw_mode_send_cfm (ascii "GW_MODE_SEND_CFM")
    ∷ known_as gw_mode_send_ntf (ascii "GW_MODE_SEND_NTF")
    ∷ known_as gw_initialize_scene_req (ascii "GW_INITIALIZE_SCENE_REQ")
    ∷ known_as gw_initialize_scene_cfm (ascii "GW_INITIALIZE_SCENE_CFM")
    ∷ known_as gw_initialize_scene_ntf (ascii "GW_INITIALIZE_SCENE_NTF")
    ∷ known_as gw_initialize_scene_cancel_req (ascii "GW_INITIALIZE_SCENE_CANCEL_REQ")
    ∷ known_as gw_initialize_scene_cancel_cfm (ascii "GW_INITIALIZE_SCENE_CANCEL_CFM")
    ∷ known_as gw_record_scene_req (ascii "GW_RECORD_SCENE_REQ")
    ∷ known_as gw_record_scene_cfm (ascii "GW_RECORD_SCENE_CFM")
    ∷ known_as gw_record_scene_ntf (ascii "GW_RECORD_SCENE_NTF")
    ∷ known_as gw_delete_scene_req (ascii "GW_DELETE_SCENE_REQ")
    ∷ known_as gw_delete_scene_cfm (ascii "GW_DELETE_SCENE_CFM")
    ∷ known_as gw_rename_scene_req (ascii "GW_RENAME_SCENE_REQ")
    ∷ known_as gw_rename_scene_cfm (ascii "GW_RENAME_SCENE_CFM")
    ∷ known_as gw_get_scene_list_req (ascii "GW_GET_SCENE_LIST_REQ")
    ∷ known_as gw_get_scene_list_cfm (ascii "GW_GET_SCENE_LIST_CFM")
    ∷ known_as gw_get_scene_list_ntf (ascii "GW_GET_SCENE_LIST_NTF")
    ∷ known_as gw_get_scene_infoamation_req (ascii "GW_GET_SCENE_INFOAMATION_REQ")
    ∷ known_as gw_get_scene_infoamation_cfm (ascii "GW_GET_SCENE_INFOAMATION_CFM")
    ∷ known_as gw_get_scene_infoamation_ntf (ascii "GW_GET_SCENE_INFOAMATION_NTF")
    ∷ known_as gw_activate_scene_req (ascii "GW_ACTIVATE_SCENE_REQ")
    ∷ known_as gw_activate_scene_cfm (ascii "GW_ACTIVATE_SCENE_CFM")
    ∷ known_as gw_stop_scene_req (ascii "GW_STOP_SCENE_REQ")
    ∷ known_as gw_stop_scene_cfm (ascii "GW_STOP_SCENE_CFM")
    ∷ known_as gw_scene_information_changed_ntf (ascii "GW_SCENE_INFORMATION_CHANGED_NTF")
    ∷ known_as gw_activate_productgroup_req (ascii "GW_ACTIVATE_PRODUCTGROUP_REQ")
    ∷ known_as gw_activate_productgroup_cfm (ascii "GW_ACTIVATE_PRODUCTGROUP_CFM")
    ∷ known_as gw_activate_productgroup_ntf (ascii "GW_ACTIVATE_PRODUCTGROUP_NTF")
    ∷ known_as gw_get_contact_input_link_list_req (ascii "GW_GET_CONTACT_INPUT_LINK_LIST_REQ")
    ∷ known_as gw_get_contact_input_link_list_cfm (ascii "GW_GET_CONTACT_INPUT_LINK_LIST_CFM")
    ∷ known_as gw_set_contact_input_link_req (ascii "GW_SET_CONTACT_INPUT_LINK_REQ")
    ∷ known_as gw_set_contact_input_link_cfm (ascii "GW_SET_CONTACT_INPUT_LINK_CFM")
    ∷ known_as gw_remove_contact_input_link_req (ascii "GW_REMOVE_CONTACT_INPUT_LINK_REQ")
    ∷ known_as gw_remove_contact_input_link_cfm (ascii "GW_REMOVE_CONTACT_INPUT_LINK_CFM")
    ∷ known_as gw_get_activation_log_header_req (ascii "GW_GET_ACTIVATION_LOG_HEADER_REQ")
    ∷ known_as gw_get_activation_log_header_cfm (ascii "GW_GET_ACTIVATION_LOG_HEADER_CFM")
    ∷ known_as gw_clear_activation_log_req (ascii "GW_CLEAR_ACTIVATION_LOG_REQ")
    ∷ known_as gw_clear_activation_log_cfm (ascii "GW_CLEAR_ACTIVATION_LOG_CFM")
    ∷ known_as gw_get_activation_log_line_req (ascii "GW_GET_ACTIVATION_LOG_LINE_REQ")
    ∷ known_as gw_get_activation_log_line_cfm (ascii "GW_GET_ACTIVATION_LOG_LINE_CFM")
    ∷ known_as gw_activation_log_updated_ntf (ascii "GW_ACTIVATION_LOG_UPDATED_NTF")
    ∷ known_as gw_get_multiple_activation_log_lines_req
        (ascii "GW_GET_MULTIPLE_ACTIVATION_LOG_LINES_REQ")
    ∷ known_as gw_get_multiple_activation_log_lines_ntf
        (ascii "GW_GET_MULTIPLE_ACTIVATION_LOG_LINES_NTF")
    ∷ known_as gw_get_multiple_activation_log_lines_cfm
        (ascii "GW_GET_MULTIPLE_ACTIVATION_LOG_LINES_CFM")
    ∷ known_as gw_set_utc_req (ascii "GW_SET_UTC_REQ")
    ∷ known_as gw_set_utc_cfm (ascii "GW_SET_UTC_CFM")
    ∷ known_as gw_rtc_set_time_zone_req (ascii "GW_RTC_SET_TIME_ZONE_REQ")
    ∷ known_as gw_rtc_set_time_zone_cfm (ascii "GW_RTC_SET_TIME_ZONE_CFM")
    ∷ known_as gw_get_local_time_req (ascii "GW_GET_LOCAL_TIME_REQ")
    ∷ known_as gw_get_local_time_cfm (ascii "GW_GET_LOCAL_TIME_CFM")
    ∷ known_as gw_password_enter_req (ascii "GW_PASSWORD_ENTER_REQ")
    ∷ known_as gw_password_enter_cfm (ascii "GW_PASSWORD_ENTER_CFM")
    ∷ known_as gw_password_change_req (ascii "GW_PASSWORD_CHANGE_REQ")
    ∷ known_as gw_password_change_cfm (ascii "GW_PASSWORD_CHANGE_CFM")
    ∷ known_as gw_password_change_ntf (ascii "GW_PASSWORD_CHANGE_NTF")
    ∷ []
