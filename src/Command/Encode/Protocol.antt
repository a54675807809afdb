-- ===== src/Command/Encode/Protocol.antt =====
-- The payload length that the KLF 200 protocol gives each request of src/klf200/command.rs.
use velux2mqtt.Command.Requests.{
  wink, set_limitation, get_limitation_status, mode, record_scene, delete_scene, rename_scene,
  get_scene_information, activate_scene, stop_scene, activate_product_group, set_contact_input_link,
  remove_contact_input_link, get_line, get_lines_since, discover_nodes, remove_nodes,
  controller_copy, activate_configuration, set_node_variation, set_node_name,
  set_node_order_and_placement, set_group, new_group, get_all_groups, set_network_setup, set_utc,
  set_time_zone, configuration, node_group, command_extension, scene_contact, activation_log,
  get_node_information, password_enter, password_change, command_send, status_request, raw,
  ConfigurationRequest, NodeGroupRequest, CommandExtensionRequest, SceneContactRequest,
  ActivationLogRequest, Request,
}
use velux2mqtt.Prelude.{length, ℕ, ◌≤◌}
use velux2mqtt.Command.Target.{CommandTarget, max_targets}

-- A target as `CommandTarget::new` builds it.
abbrev pub IsTarget : CommandTarget → Type 0
IsTarget target = length target.nodes ≤ max_targets

-- The payload lengths of the KLF 200 protocol, request by request.
abbrev pub configuration_length : ConfigurationRequest → ℕ
configuration_length (discover_nodes _) = 1
configuration_length (controller_copy _) = 1
configuration_length (remove_nodes _) = 26
configuration_length (activate_configuration _) = 26
configuration_length _ = 0

abbrev pub node_group_length : NodeGroupRequest → ℕ
node_group_length (set_node_variation _ _) = 2
node_group_length (set_node_name _ _) = 65
node_group_length (set_node_order_and_placement _ _ _) = 4
node_group_length (set_group _) = 99
node_group_length (new_group _) = 96
node_group_length (get_all_groups _ _) = 2
node_group_length _ = 1

abbrev pub command_extension_length : CommandExtensionRequest → ℕ
command_extension_length (wink _) = 27
command_extension_length (set_limitation _) = 31
command_extension_length (get_limitation_status _) = 25
command_extension_length (mode _) = 31

abbrev pub scene_contact_length : SceneContactRequest → ℕ
scene_contact_length (record_scene _) = 64
scene_contact_length (delete_scene _) = 1
scene_contact_length (get_scene_information _) = 1
scene_contact_length (remove_contact_input_link _) = 1
scene_contact_length (rename_scene _ _) = 65
scene_contact_length (activate_scene _) = 6
scene_contact_length (stop_scene _) = 5
scene_contact_length (activate_product_group _) = 13
scene_contact_length (set_contact_input_link _) = 17
scene_contact_length _ = 0

abbrev pub activation_log_length : ActivationLogRequest → ℕ
activation_log_length (get_line _) = 2
activation_log_length (get_lines_since _) = 4
activation_log_length _ = 0

abbrev pub payload_length : Request → ℕ
payload_length (set_network_setup _) = 13
payload_length (set_utc _) = 4
payload_length (set_time_zone _) = 64
payload_length (configuration r) = configuration_length r
payload_length (node_group r) = node_group_length r
payload_length (command_extension r) = command_extension_length r
payload_length (scene_contact r) = scene_contact_length r
payload_length (activation_log r) = activation_log_length r
payload_length (get_node_information _) = 1
payload_length (password_enter _) = 32
payload_length (password_change _ _) = 64
payload_length (command_send _ _) = 66
payload_length (status_request _ _ _) = 26
payload_length (raw _ payload) = length payload
payload_length _ = 0

-- The targets of a request are built by `CommandTarget::new`.
abbrev pub HasTargets : Request → Type 0
HasTargets (command_send _ target) = IsTarget target
HasTargets (status_request _ target _) = IsTarget target
HasTargets _ = Unit
