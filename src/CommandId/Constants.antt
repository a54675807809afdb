-- ===== src/CommandId/Constants.antt =====
-- The constants of the `known_commands!` table in src/klf200/command_id.rs. A `CommandId` is the
-- 16-bit number that it wraps.
use velux2mqtt.Prelude.{ℕ}

abbrev pub gw_error_ntf : ℕ
gw_error_ntf = 0x0000

abbrev pub gw_reboot_req : ℕ
gw_reboot_req = 0x0001

abbrev pub gw_reboot_cfm : ℕ
gw_reboot_cfm = 0x0002

abbrev pub gw_set_factory_default_req : ℕ
gw_set_factory_default_req = 0x0003

abbrev pub gw_set_factory_default_cfm : ℕ
gw_set_factory_default_cfm = 0x0004

abbrev pub gw_get_version_req : ℕ
gw_get_version_req = 0x0008

abbrev pub gw_get_version_cfm : ℕ
gw_get_version_cfm = 0x0009

abbrev pub gw_get_protocol_version_req : ℕ
gw_get_protocol_version_req = 0x000A

abbrev pub gw_get_protocol_version_cfm : ℕ
gw_get_protocol_version_cfm = 0x000B

abbrev pub gw_get_state_req : ℕ
gw_get_state_req = 0x000C

abbrev pub gw_get_state_cfm : ℕ
gw_get_state_cfm = 0x000D

abbrev pub gw_leave_learn_state_req : ℕ
gw_leave_learn_state_req = 0x000E

abbrev pub gw_leave_learn_state_cfm : ℕ
gw_leave_learn_state_cfm = 0x000F

abbrev pub gw_get_network_setup_req : ℕ
gw_get_network_setup_req = 0x00E0

abbrev pub gw_get_network_setup_cfm : ℕ
gw_get_network_setup_cfm = 0x00E1

abbrev pub gw_set_network_setup_req : ℕ
gw_set_network_setup_req = 0x00E2

abbrev pub gw_set_network_setup_cfm : ℕ
gw_set_network_setup_cfm = 0x00E3

abbrev pub gw_cs_get_systemtable_data_req : ℕ
gw_cs_get_systemtable_data_req = 0x0100

abbrev pub gw_cs_get_systemtable_data_cfm : ℕ
gw_cs_get_systemtable_data_cfm = 0x0101

abbrev pub gw_cs_get_systemtable_data_ntf : ℕ
gw_cs_get_systemtable_data_ntf = 0x0102

abbrev pub gw_cs_discover_nodes_req : ℕ
gw_cs_discover_nodes_req = 0x0103

abbrev pub gw_cs_discover_nodes_cfm : ℕ
gw_cs_discover_nodes_cfm = 0x0104

abbrev pub gw_cs_discover_nodes_ntf : ℕ
gw_cs_discover_nodes_ntf = 0x0105

abbrev pub gw_cs_remove_nodes_req : ℕ
gw_cs_remove_nodes_req = 0x0106

abbrev pub gw_cs_remove_nodes_cfm : ℕ
gw_cs_remove_nodes_cfm = 0x0107

abbrev pub gw_cs_virgin_state_req : ℕ
gw_cs_virgin_state_req = 0x0108

abbrev pub gw_cs_virgin_state_cfm : ℕ
gw_cs_virgin_state_cfm = 0x0109

abbrev pub gw_cs_controller_copy_req : ℕ
gw_cs_controller_copy_req = 0x010A

abbrev pub gw_cs_controller_copy_cfm : ℕ
gw_cs_controller_copy_cfm = 0x010B

abbrev pub gw_cs_controller_copy_ntf : ℕ
gw_cs_controller_copy_ntf = 0x010C

abbrev pub gw_cs_controller_copy_cancel_ntf : ℕ
gw_cs_controller_copy_cancel_ntf = 0x010D

abbrev pub gw_cs_receive_key_req : ℕ
gw_cs_receive_key_req = 0x010E

abbrev pub gw_cs_receive_key_cfm : ℕ
gw_cs_receive_key_cfm = 0x010F

abbrev pub gw_cs_receive_key_ntf : ℕ
gw_cs_receive_key_ntf = 0x0110

abbrev pub gw_cs_pgc_job_ntf : ℕ
gw_cs_pgc_job_ntf = 0x0111

abbrev pub gw_cs_system_table_update_ntf : ℕ
gw_cs_system_table_update_ntf = 0x0112

abbrev pub gw_cs_generate_new_key_req : ℕ
gw_cs_generate_new_key_req = 0x0113

abbrev pub gw_cs_generate_new_key_cfm : ℕ
gw_cs_generate_new_key_cfm = 0x0114

abbrev pub gw_cs_generate_new_key_ntf : ℕ
gw_cs_generate_new_key_ntf = 0x0115

abbrev pub gw_cs_repair_key_req : ℕ
gw_cs_repair_key_req = 0x0116

abbrev pub gw_cs_repair_key_cfm : ℕ
gw_cs_repair_key_cfm = 0x0117

abbrev pub gw_cs_repair_key_ntf : ℕ
gw_cs_repair_key_ntf = 0x0118

abbrev pub gw_cs_activate_configuration_mode_req : ℕ
gw_cs_activate_configuration_mode_req = 0x0119

abbrev pub gw_cs_activate_configuration_mode_cfm : ℕ
gw_cs_activate_configuration_mode_cfm = 0x011A

abbrev pub gw_get_node_information_req : ℕ
gw_get_node_information_req = 0x0200

abbrev pub gw_get_node_information_cfm : ℕ
gw_get_node_information_cfm = 0x0201

abbrev pub gw_get_all_nodes_information_req : ℕ
gw_get_all_nodes_information_req = 0x0202

abbrev pub gw_get_all_nodes_information_cfm : ℕ
gw_get_all_nodes_information_cfm = 0x0203

abbrev pub gw_get_all_nodes_information_ntf : ℕ
gw_get_all_nodes_information_ntf = 0x0204

abbrev pub gw_get_all_nodes_information_finished_ntf : ℕ
gw_get_all_nodes_information_finished_ntf = 0x0205

abbrev pub gw_set_node_variation_req : ℕ
gw_set_node_variation_req = 0x0206

abbrev pub gw_set_node_variation_cfm : ℕ
gw_set_node_variation_cfm = 0x0207

abbrev pub gw_set_node_name_req : ℕ
gw_set_node_name_req = 0x0208

abbrev pub gw_set_node_name_cfm : ℕ
gw_set_node_name_cfm = 0x0209

abbrev pub gw_node_information_changed_ntf : ℕ
gw_node_information_changed_ntf = 0x020C

abbrev pub gw_set_node_order_and_placement_req : ℕ
gw_set_node_order_and_placement_req = 0x020D

abbrev pub gw_set_node_order_and_placement_cfm : ℕ
gw_set_node_order_and_placement_cfm = 0x020E

abbrev pub gw_get_node_information_ntf : ℕ
gw_get_node_information_ntf = 0x0210

abbrev pub gw_node_state_position_changed_ntf : ℕ
gw_node_state_position_changed_ntf = 0x0211

abbrev pub gw_get_group_information_req : ℕ
gw_get_group_information_req = 0x0220

abbrev pub gw_get_group_information_cfm : ℕ
gw_get_group_information_cfm = 0x0221

abbrev pub gw_set_group_information_req : ℕ
gw_set_group_information_req = 0x0222

abbrev pub gw_set_group_information_cfm : ℕ
gw_set_group_information_cfm = 0x0223

abbrev pub gw_group_information_changed_ntf : ℕ
gw_group_information_changed_ntf = 0x0224

abbrev pub gw_delete_group_req : ℕ
gw_delete_group_req = 0x0225

abbrev pub gw_delete_group_cfm : ℕ
gw_delete_group_cfm = 0x0226

abbrev pub gw_new_group_req : ℕ
gw_new_group_req = 0x0227

abbrev pub gw_new_group_cfm : ℕ
gw_new_group_cfm = 0x0228

abbrev pub gw_get_all_groups_information_req : ℕ
gw_get_all_groups_information_req = 0x0229

abbrev pub gw_get_all_groups_information_cfm : ℕ
gw_get_all_groups_information_cfm = 0x022A

abbrev pub gw_get_all_groups_information_ntf : ℕ
gw_get_all_groups_information_ntf = 0x022B

abbrev pub gw_get_all_groups_information_finished_ntf : ℕ
gw_get_all_groups_information_finished_ntf = 0x022C

abbrev pub gw_group_deleted_ntf : ℕ
gw_group_deleted_ntf = 0x022D

abbrev pub gw_get_group_information_ntf : ℕ
gw_get_group_information_ntf = 0x0230

abbrev pub gw_house_status_monitor_enable_req : ℕ
gw_house_status_monitor_enable_req = 0x0240

abbrev pub gw_house_status_monitor_enable_cfm : ℕ
gw_house_status_monitor_enable_cfm = 0x0241

abbrev pub gw_house_status_monitor_disable_req : ℕ
gw_house_status_monitor_disable_req = 0x0242

abbrev pub gw_house_status_monitor_disable_cfm : ℕ
gw_house_status_monitor_disable_cfm = 0x0243

abbrev pub gw_command_send_req : ℕ
gw_command_send_req = 0x0300

abbrev pub gw_command_send_cfm : ℕ
gw_command_send_cfm = 0x0301

abbrev pub gw_command_run_status_ntf : ℕ
gw_command_run_status_ntf = 0x0302

abbrev pub gw_command_remaining_time_ntf : ℕ
gw_command_remaining_time_ntf = 0x0303

abbrev pub gw_session_finished_ntf : ℕ
gw_session_finished_ntf = 0x0304

abbrev pub gw_status_request_req : ℕ
gw_status_request_req = 0x0305

abbrev pub gw_status_request_cfm : ℕ
gw_status_request_cfm = 0x0306

abbrev pub gw_status_request_ntf : ℕ
gw_status_request_ntf = 0x0307

abbrev pub gw_wink_send_req : ℕ
gw_wink_send_req = 0x0308

abbrev pub gw_wink_send_cfm : ℕ
gw_wink_send_cfm = 0x0309

abbrev pub gw_wink_send_ntf : ℕ
gw_wink_send_ntf = 0x030A

abbrev pub gw_set_limitation_req : ℕ
gw_set_limitation_req = 0x0310

abbrev pub gw_set_limitation_cfm : ℕ
gw_set_limitation_cfm = 0x0311

abbrev pub gw_get_limitation_status_req : ℕ
gw_get_limitation_status_req = 0x0312

abbrev pub gw_get_limitation_status_cfm : ℕ
gw_get_limitation_status_cfm = 0x0313

abbrev pub gw_limitation_status_ntf : ℕ
gw_limitation_status_ntf = 0x0314

abbrev pub gw_mode_send_req : ℕ
gw_mode_send_req = 0x0320

abbrev pub gw_mode_send_cfm : ℕ
gw_mode_send_cfm = 0x0321

abbrev pub gw_mode_send_ntf : ℕ
gw_mode_send_ntf = 0x0322

abbrev pub gw_initialize_scene_req : ℕ
gw_initialize_scene_req = 0x0400

abbrev pub gw_initialize_scene_cfm : ℕ
gw_initialize_scene_cfm = 0x0401

abbrev pub gw_initialize_scene_ntf : ℕ
gw_initialize_scene_ntf = 0x0402

abbrev pub gw_initialize_scene_cancel_req : ℕ
gw_initialize_scene_cancel_req = 0x0403

abbrev pub gw_initialize_scene_cancel_cfm : ℕ
gw_initialize_scene_cancel_cfm = 0x0404

abbrev pub gw_record_scene_req : ℕ
gw_record_scene_req = 0x0405

abbrev pub gw_record_scene_cfm : ℕ
gw_record_scene_cfm = 0x0406

abbrev pub gw_record_scene_ntf : ℕ
gw_record_scene_ntf = 0x0407

abbrev pub gw_delete_scene_req : ℕ
gw_delete_scene_req = 0x0408

abbrev pub gw_delete_scene_cfm : ℕ
gw_delete_scene_cfm = 0x0409

abbrev pub gw_rename_scene_req : ℕ
gw_rename_scene_req = 0x040A

abbrev pub gw_rename_scene_cfm : ℕ
gw_rename_scene_cfm = 0x040B

abbrev pub gw_get_scene_list_req : ℕ
gw_get_scene_list_req = 0x040C

abbrev pub gw_get_scene_list_cfm : ℕ
gw_get_scene_list_cfm = 0x040D

abbrev pub gw_get_scene_list_ntf : ℕ
gw_get_scene_list_ntf = 0x040E

abbrev pub gw_get_scene_infoamation_req : ℕ
gw_get_scene_infoamation_req = 0x040F

abbrev pub gw_get_scene_infoamation_cfm : ℕ
gw_get_scene_infoamation_cfm = 0x0410

abbrev pub gw_get_scene_infoamation_ntf : ℕ
gw_get_scene_infoamation_ntf = 0x0411

abbrev pub gw_activate_scene_req : ℕ
gw_activate_scene_req = 0x0412

abbrev pub gw_activate_scene_cfm : ℕ
gw_activate_scene_cfm = 0x0413

abbrev pub gw_stop_scene_req : ℕ
gw_stop_scene_req = 0x0415

abbrev pub gw_stop_scene_cfm : ℕ
gw_stop_scene_cfm = 0x0416

abbrev pub gw_scene_information_changed_ntf : ℕ
gw_scene_information_changed_ntf = 0x0419

abbrev pub gw_activate_productgroup_req : ℕ
gw_activate_productgroup_req = 0x0447

abbrev pub gw_activate_productgroup_cfm : ℕ
gw_activate_productgroup_cfm = 0x0448

abbrev pub gw_activate_productgroup_ntf : ℕ
gw_activate_productgroup_ntf = 0x0449

abbrev pub gw_get_contact_input_link_list_req : ℕ
gw_get_contact_input_link_list_req = 0x0460

abbrev pub gw_get_contact_input_link_list_cfm : ℕ
gw_get_contact_input_link_list_cfm = 0x0461

abbrev pub gw_set_contact_input_link_req : ℕ
gw_set_contact_input_link_req = 0x0462

abbrev pub gw_set_contact_input_link_cfm : ℕ
gw_set_contact_input_link_cfm = 0x0463

abbrev pub gw_remove_contact_input_link_req : ℕ
gw_remove_contact_input_link_req = 0x0464

abbrev pub gw_remove_contact_input_link_cfm : ℕ
gw_remove_contact_input_link_cfm = 0x0465

abbrev pub gw_get_activation_log_header_req : ℕ
gw_get_activation_log_header_req = 0x0500

abbrev pub gw_get_activation_log_header_cfm : ℕ
gw_get_activation_log_header_cfm = 0x0501

abbrev pub gw_clear_activation_log_req : ℕ
gw_clear_activation_log_req = 0x0502

abbrev pub gw_clear_activation_log_cfm : ℕ
gw_clear_activation_log_cfm = 0x0503

abbrev pub gw_get_activation_log_line_req : ℕ
gw_get_activation_log_line_req = 0x0504

abbrev pub gw_get_activation_log_line_cfm : ℕ
gw_get_activation_log_line_cfm = 0x0505

abbrev pub gw_activation_log_updated_ntf : ℕ
gw_activation_log_updated_ntf = 0x0506

abbrev pub gw_get_multiple_activation_log_lines_req : ℕ
gw_get_multiple_activation_log_lines_req = 0x0507

abbrev pub gw_get_multiple_activation_log_lines_ntf : ℕ
gw_get_multiple_activation_log_lines_ntf = 0x0508

abbrev pub gw_get_multiple_activation_log_lines_cfm : ℕ
gw_get_multiple_activation_log_lines_cfm = 0x0509

abbrev pub gw_set_utc_req : ℕ
gw_set_utc_req = 0x2000

abbrev pub gw_set_utc_cfm : ℕ
gw_set_utc_cfm = 0x2001

abbrev pub gw_rtc_set_time_zone_req : ℕ
gw_rtc_set_time_zone_req = 0x2002

abbrev pub gw_rtc_set_time_zone_cfm : ℕ
gw_rtc_set_time_zone_cfm = 0x2003

abbrev pub gw_get_local_time_req : ℕ
gw_get_local_time_req = 0x2004

abbrev pub gw_get_local_time_cfm : ℕ
gw_get_local_time_cfm = 0x2005

abbrev pub gw_password_enter_req : ℕ
gw_password_enter_req = 0x3000

abbrev pub gw_password_enter_cfm : ℕ
gw_password_enter_cfm = 0x3001

abbrev pub gw_password_change_req : ℕ
gw_password_change_req = 0x3002

abbrev pub gw_password_change_cfm : ℕ
gw_password_change_cfm = 0x3003

abbrev pub gw_password_change_ntf : ℕ
gw_password_change_ntf = 0x3004
