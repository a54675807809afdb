-- ===== src/Command/Encode.antt =====
-- src/klf200/command.rs: the command identifier, the session and the encoding of a request.
pub mod Protocol
pub mod Lengths
pub mod Sessions
pub mod Framing
pub mod Kinds
use velux2mqtt.Error.{◌>>=◌, Result, err, ok, unsupported_request}
use velux2mqtt.Command.Requests.{
  wink, set_limitation, get_limitation_status, mode, initialize_scene, cancel_scene_initialization,
  record_scene, delete_scene, rename_scene, get_scene_list, get_scene_information, activate_scene,
  stop_scene, activate_product_group, get_contact_input_links, set_contact_input_link,
  remove_contact_input_link, get_header, clear, get_line, get_lines_since, target_position,
  current_position, remaining_time, main_information, get_system_table_data, discover_nodes,
  remove_nodes, virgin_state, controller_copy, receive_key, generate_new_key, repair_key,
  activate_configuration, set_node_variation, set_node_name, set_node_order_and_placement,
  get_group, set_group, delete_group, new_group, get_all_groups, reboot, set_factory_default,
  get_version, get_protocol_version, get_state, leave_learn_state, get_network_setup,
  set_network_setup, set_utc, set_time_zone, get_local_time, configuration, node_group,
  command_extension, scene_contact, activation_log, get_all_nodes_information,
  house_status_monitor_enable, house_status_monitor_disable, get_node_information, password_enter,
  password_change, command_send, status_request, raw, ConfigurationRequest, NodeGroupRequest,
  CommandExtensionRequest, SceneContactRequest, ActivationLogRequest, Request,
}
use velux2mqtt.CommandId.{request, kind, CommandKind, known}
use velux2mqtt.Frame
use velux2mqtt.Prelude.{
  ◌++◌, Bool, Bytes, Option, [], if◌then◌else◌, false, none, some, to_be_bytes, true, ℕ, ◌∷◌, ◌&&◌,
  not,
}
use velux2mqtt.CommandId.Constants.{
  gw_cs_get_systemtable_data_req, gw_set_node_variation_req, gw_wink_send_req,
  gw_initialize_scene_req, gw_get_activation_log_header_req, gw_reboot_req,
  gw_cs_discover_nodes_req, gw_set_node_name_req, gw_set_limitation_req,
  gw_initialize_scene_cancel_req, gw_clear_activation_log_req, gw_set_factory_default_req,
  gw_cs_remove_nodes_req, gw_set_node_order_and_placement_req, gw_get_limitation_status_req,
  gw_record_scene_req, gw_get_activation_log_line_req, gw_get_version_req, gw_cs_virgin_state_req,
  gw_get_group_information_req, gw_mode_send_req, gw_delete_scene_req,
  gw_get_multiple_activation_log_lines_req, gw_get_protocol_version_req, gw_cs_controller_copy_req,
  gw_set_group_information_req, gw_rename_scene_req, gw_get_state_req, gw_cs_receive_key_req,
  gw_delete_group_req, gw_get_scene_list_req, gw_leave_learn_state_req, gw_cs_generate_new_key_req,
  gw_new_group_req, gw_get_scene_infoamation_req, gw_get_network_setup_req, gw_cs_repair_key_req,
  gw_get_all_groups_information_req, gw_activate_scene_req, gw_set_network_setup_req,
  gw_cs_activate_configuration_mode_req, gw_stop_scene_req, gw_set_utc_req,
  gw_activate_productgroup_req, gw_rtc_set_time_zone_req, gw_get_contact_input_link_list_req,
  gw_get_local_time_req, gw_set_contact_input_link_req, gw_get_all_nodes_information_req,
  gw_remove_contact_input_link_req, gw_house_status_monitor_enable_req,
  gw_house_status_monitor_disable_req, gw_get_node_information_req, gw_password_enter_req,
  gw_password_change_req, gw_command_send_req, gw_status_request_req,
}
use velux2mqtt.Command.Payloads.{
  encode_node_set, encode_wink, u32_to_be_bytes, encode_network_setup, slots, encode_set_limitation,
  encode_group_information, encode_get_limitation_status, encode_activate_scene,
  encode_command_send, encode_new_group_information, encode_mode, encode_stop_scene,
  encode_status_request, bool_byte, encode_activate_product_group, encode_contact_input_link,
}
use velux2mqtt.Types.FixedString.{encode_fixed_string}
use velux2mqtt.Frame.{Frame}
use velux2mqtt.CommandId.Table.{KnownCommand}

-- `ConfigurationRequest::command_id`
unfoldable pub configuration_command_id : ConfigurationRequest → ℕ
configuration_command_id get_system_table_data = gw_cs_get_systemtable_data_req
configuration_command_id (discover_nodes _) = gw_cs_discover_nodes_req
configuration_command_id (remove_nodes _) = gw_cs_remove_nodes_req
configuration_command_id virgin_state = gw_cs_virgin_state_req
configuration_command_id (controller_copy _) = gw_cs_controller_copy_req
configuration_command_id receive_key = gw_cs_receive_key_req
configuration_command_id generate_new_key = gw_cs_generate_new_key_req
configuration_command_id repair_key = gw_cs_repair_key_req
configuration_command_id (activate_configuration _) = gw_cs_activate_configuration_mode_req

-- `NodeGroupRequest::command_id`
unfoldable pub node_group_command_id : NodeGroupRequest → ℕ
node_group_command_id (set_node_variation _ _) = gw_set_node_variation_req
node_group_command_id (set_node_name _ _) = gw_set_node_name_req
node_group_command_id (set_node_order_and_placement _ _ _) = gw_set_node_order_and_placement_req
node_group_command_id (get_group _) = gw_get_group_information_req
node_group_command_id (set_group _) = gw_set_group_information_req
node_group_command_id (delete_group _) = gw_delete_group_req
node_group_command_id (new_group _) = gw_new_group_req
node_group_command_id (get_all_groups _ _) = gw_get_all_groups_information_req

-- `CommandExtensionRequest::command_id`
unfoldable pub command_extension_command_id : CommandExtensionRequest → ℕ
command_extension_command_id (wink _) = gw_wink_send_req
command_extension_command_id (set_limitation _) = gw_set_limitation_req
command_extension_command_id (get_limitation_status _) = gw_get_limitation_status_req
command_extension_command_id (mode _) = gw_mode_send_req

-- `SceneContactRequest::command_id`
unfoldable pub scene_contact_command_id : SceneContactRequest → ℕ
scene_contact_command_id initialize_scene = gw_initialize_scene_req
scene_contact_command_id cancel_scene_initialization = gw_initialize_scene_cancel_req
scene_contact_command_id (record_scene _) = gw_record_scene_req
scene_contact_command_id (delete_scene _) = gw_delete_scene_req
scene_contact_command_id (rename_scene _ _) = gw_rename_scene_req
scene_contact_command_id get_scene_list = gw_get_scene_list_req
scene_contact_command_id (get_scene_information _) = gw_get_scene_infoamation_req
scene_contact_command_id (activate_scene _) = gw_activate_scene_req
scene_contact_command_id (stop_scene _) = gw_stop_scene_req
scene_contact_command_id (activate_product_group _) = gw_activate_productgroup_req
scene_contact_command_id get_contact_input_links = gw_get_contact_input_link_list_req
scene_contact_command_id (set_contact_input_link _) = gw_set_contact_input_link_req
scene_contact_command_id (remove_contact_input_link _) = gw_remove_contact_input_link_req

-- `ActivationLogRequest::command_id`
unfoldable pub activation_log_command_id : ActivationLogRequest → ℕ
activation_log_command_id get_header = gw_get_activation_log_header_req
activation_log_command_id clear = gw_clear_activation_log_req
activation_log_command_id (get_line _) = gw_get_activation_log_line_req
activation_log_command_id (get_lines_since _) = gw_get_multiple_activation_log_lines_req

-- `Request::command_id`
unfoldable pub command_id : Request → ℕ
unfolding configuration_command_id node_group_command_id command_extension_command_id
    scene_contact_command_id activation_log_command_id
command_id reboot = gw_reboot_req
command_id set_factory_default = gw_set_factory_default_req
command_id get_version = gw_get_version_req
command_id get_protocol_version = gw_get_protocol_version_req
command_id get_state = gw_get_state_req
command_id leave_learn_state = gw_leave_learn_state_req
command_id get_network_setup = gw_get_network_setup_req
command_id (set_network_setup _) = gw_set_network_setup_req
command_id (set_utc _) = gw_set_utc_req
command_id (set_time_zone _) = gw_rtc_set_time_zone_req
command_id get_local_time = gw_get_local_time_req
command_id (configuration inner) = configuration_command_id inner
command_id (node_group inner) = node_group_command_id inner
command_id (command_extension inner) = command_extension_command_id inner
command_id (scene_contact inner) = scene_contact_command_id inner
command_id (activation_log inner) = activation_log_command_id inner
command_id get_all_nodes_information = gw_get_all_nodes_information_req
command_id house_status_monitor_enable = gw_house_status_monitor_enable_req
command_id house_status_monitor_disable = gw_house_status_monitor_disable_req
command_id (get_node_information _) = gw_get_node_information_req
command_id (password_enter _) = gw_password_enter_req
command_id (password_change _ _) = gw_password_change_req
command_id (command_send _ _) = gw_command_send_req
command_id (status_request _ _ _) = gw_status_request_req
command_id (raw command _) = command

unfoldable pub command_extension_session : CommandExtensionRequest → ℕ
command_extension_session (wink r) = r.session_id
command_extension_session (set_limitation r) = r.session_id
command_extension_session (get_limitation_status r) = r.session_id
command_extension_session (mode r) = r.session_id

unfoldable pub scene_contact_session : SceneContactRequest → Option ℕ
scene_contact_session (activate_scene r) = some r.session_id
scene_contact_session (stop_scene r) = some r.session_id
scene_contact_session (activate_product_group r) = some r.session_id
scene_contact_session _ = none

-- `Request::session_id`
unfoldable pub request_session : Request → Option ℕ
unfolding command_extension_session scene_contact_session
request_session (command_send command _) = some command.session_id
request_session (status_request session_id _ _) = some session_id
request_session (command_extension r) = some (command_extension_session r)
request_session (scene_contact r) = scene_contact_session r
request_session _ = none

-- `ConfigurationRequest::encode`, and so for the kinds of request below.
unfoldable pub encode_configuration : ConfigurationRequest → Bytes
encode_configuration (discover_nodes node_type) = node_type ∷ []
encode_configuration (controller_copy to) = to ∷ []
encode_configuration (remove_nodes nodes) = encode_node_set nodes
encode_configuration (activate_configuration nodes) = encode_node_set nodes
encode_configuration _ = []

unfoldable pub encode_node_group : NodeGroupRequest → Result Bytes
encode_node_group (set_node_variation node_id variation) = ok (node_id ∷ variation ∷ [])
encode_node_group (set_node_name node_id name) = do
  field ← encode_fixed_string 64 name
  ok (node_id ∷ slots 64 field)
encode_node_group (set_node_order_and_placement node_id order placement) =
    ok (node_id ∷ (to_be_bytes order ++ (placement ∷ [])))
encode_node_group (get_group group_id) = ok (group_id ∷ [])
encode_node_group (set_group group) = encode_group_information group
encode_node_group (delete_group group_id) = ok (group_id ∷ [])
encode_node_group (new_group group) = encode_new_group_information group
encode_node_group (get_all_groups use_filter group_type) =
    ok (bool_byte use_filter ∷ group_type ∷ [])

unfoldable pub encode_command_extension : CommandExtensionRequest → Result Bytes
encode_command_extension (wink r) = ok (encode_wink r)
encode_command_extension (set_limitation r) = ok (encode_set_limitation r)
encode_command_extension (get_limitation_status r) = ok (encode_get_limitation_status r)
encode_command_extension (mode r) = encode_mode r

unfoldable pub encode_scene_contact : SceneContactRequest → Result Bytes
encode_scene_contact (record_scene name) = do
  field ← encode_fixed_string 64 name
  ok (slots 64 field)
encode_scene_contact (delete_scene scene_id) = ok (scene_id ∷ [])
encode_scene_contact (get_scene_information scene_id) = ok (scene_id ∷ [])
encode_scene_contact (remove_contact_input_link scene_id) = ok (scene_id ∷ [])
encode_scene_contact (rename_scene scene_id name) = do
  field ← encode_fixed_string 64 name
  ok (scene_id ∷ slots 64 field)
encode_scene_contact (activate_scene r) = ok (encode_activate_scene r)
encode_scene_contact (stop_scene r) = ok (encode_stop_scene r)
encode_scene_contact (activate_product_group r) = encode_activate_product_group r
encode_scene_contact (set_contact_input_link link) = encode_contact_input_link link
encode_scene_contact _ = ok []

unfoldable pub encode_activation_log : ActivationLogRequest → Bytes
encode_activation_log (get_line line) = to_be_bytes line
encode_activation_log (get_lines_since timestamp) = u32_to_be_bytes timestamp
encode_activation_log _ = []

abbrev pub is_request : CommandKind → Bool
is_request request = true
is_request _ = false

abbrev pub is_known : Option KnownCommand → Bool
is_known (some _) = true
is_known none = false

-- Whether `Request::encode` refuses a raw command: a known one that is no request.
unfoldable pub is_unsupported : ℕ → Bool
is_unsupported command = is_known (known command) && not (is_request (kind command))

-- The payload that `Request::encode` computes.
unfoldable pub encode_payload : Request → Result Bytes
unfolding is_unsupported
encode_payload (set_network_setup setup) = ok (encode_network_setup setup)
encode_payload (set_utc timestamp) = ok (u32_to_be_bytes timestamp)
encode_payload (set_time_zone time_zone) = do
  field ← encode_fixed_string 64 time_zone
  ok (slots 64 field)
encode_payload (configuration r) = ok (encode_configuration r)
encode_payload (node_group r) = encode_node_group r
encode_payload (command_extension r) = encode_command_extension r
encode_payload (scene_contact r) = encode_scene_contact r
encode_payload (activation_log r) = ok (encode_activation_log r)
encode_payload (get_node_information node_id) = ok (node_id ∷ [])
encode_payload (password_enter password) = do
  field ← encode_fixed_string 32 password
  ok (slots 32 field)
encode_payload (password_change current new) = do
  current_field ← encode_fixed_string 32 current
  new_field ← encode_fixed_string 32 new
  ok (slots 32 current_field ++ slots 32 new_field)
encode_payload (command_send command target) = ok (encode_command_send command target)
encode_payload (status_request session_id target status_type) =
    ok (encode_status_request session_id target status_type)
encode_payload (raw command payload) =
    if is_unsupported command then err (unsupported_request command) else ok payload
encode_payload _ = ok []

-- `Request::encode`
unfoldable pub encode_request : Request → Result Frame
encode_request r = do payload ← encode_payload r; ok (Frame.new (command_id r) payload)
