-- ===== src/Command/Requests.antt =====
-- src/klf200/command.rs: what requests hold. `Debug` of a request is not modelled.
use velux2mqtt.Types.Position.{StandardParameter}
use velux2mqtt.Types.Records.{
  NodeSet, GroupInformation, NewGroupInformation, ContactInputLink, NetworkSetup,
}
use velux2mqtt.Command.Target.{CommandTarget}
use velux2mqtt.Prelude.{Bool, Bytes, ℕ}

pub record CommandRequest : Type 0 where
  pub session_id : ℕ
  pub main_parameter : StandardParameter

pub record WinkRequest : Type 0 where
  pub session_id : ℕ
  pub command_originator : ℕ
  pub priority_level : ℕ
  pub enabled : Bool
  pub wink_time : ℕ
  pub target : CommandTarget

pub record SetLimitationRequest : Type 0 where
  pub session_id : ℕ
  pub command_originator : ℕ
  pub priority_level : ℕ
  pub target : CommandTarget
  pub parameter_id : ℕ
  pub minimum : StandardParameter
  pub maximum : StandardParameter
  pub limitation_time : ℕ

pub record GetLimitationStatusRequest : Type 0 where
  pub session_id : ℕ
  pub target : CommandTarget
  pub parameter_id : ℕ
  pub limitation_type : ℕ

pub record ModeRequest : Type 0 where
  pub session_id : ℕ
  pub command_originator : ℕ
  pub priority_level : ℕ
  pub mode_number : ℕ
  pub mode_parameter : ℕ
  pub target : CommandTarget
  pub priority_level_lock : Bool
  pub priority_level_settings : Bytes
  pub lock_time : ℕ

pub data CommandExtensionRequest : Type 0 where
  wink : WinkRequest → CommandExtensionRequest
  set_limitation : SetLimitationRequest → CommandExtensionRequest
  get_limitation_status : GetLimitationStatusRequest → CommandExtensionRequest
  mode : ModeRequest → CommandExtensionRequest

pub record SceneActivationRequest : Type 0 where
  pub session_id : ℕ
  pub command_originator : ℕ
  pub priority_level : ℕ
  pub scene_id : ℕ
  pub velocity : ℕ

pub record SceneStopRequest : Type 0 where
  pub session_id : ℕ
  pub command_originator : ℕ
  pub priority_level : ℕ
  pub scene_id : ℕ

pub record ProductGroupActivationRequest : Type 0 where
  pub session_id : ℕ
  pub command_originator : ℕ
  pub priority_level : ℕ
  pub product_group_id : ℕ
  pub parameter_id : ℕ
  pub position : StandardParameter
  pub velocity : ℕ
  pub priority_level_lock : Bool
  pub priority_level_settings : Bytes
  pub lock_time : ℕ

pub data SceneContactRequest : Type 0 where
  initialize_scene : SceneContactRequest
  cancel_scene_initialization : SceneContactRequest
  record_scene : Bytes → SceneContactRequest
  delete_scene : ℕ → SceneContactRequest
  rename_scene : (scene_id : ℕ) (name : Bytes) → SceneContactRequest
  get_scene_list : SceneContactRequest
  get_scene_information : ℕ → SceneContactRequest
  activate_scene : SceneActivationRequest → SceneContactRequest
  stop_scene : SceneStopRequest → SceneContactRequest
  activate_product_group : ProductGroupActivationRequest → SceneContactRequest
  get_contact_input_links : SceneContactRequest
  set_contact_input_link : ContactInputLink → SceneContactRequest
  remove_contact_input_link : ℕ → SceneContactRequest

pub data ActivationLogRequest : Type 0 where
  get_header : ActivationLogRequest
  clear : ActivationLogRequest
  get_line : ℕ → ActivationLogRequest
  get_lines_since : ℕ → ActivationLogRequest

-- The status types of a status request, which are numbered from zero.
pub data StatusRequestType : Type 0 where
  target_position current_position remaining_time main_information : StatusRequestType

pub data ConfigurationRequest : Type 0 where
  get_system_table_data : ConfigurationRequest
  discover_nodes : (node_type : ℕ) → ConfigurationRequest
  remove_nodes : NodeSet → ConfigurationRequest
  virgin_state : ConfigurationRequest
  controller_copy : (mode : ℕ) → ConfigurationRequest
  receive_key : ConfigurationRequest
  generate_new_key : ConfigurationRequest
  repair_key : ConfigurationRequest
  activate_configuration : NodeSet → ConfigurationRequest

pub data NodeGroupRequest : Type 0 where
  set_node_variation : (node_id : ℕ) (variation : ℕ) → NodeGroupRequest
  set_node_name : (node_id : ℕ) (name : Bytes) → NodeGroupRequest
  set_node_order_and_placement : (node_id : ℕ) (order : ℕ) (placement : ℕ) → NodeGroupRequest
  get_group : ℕ → NodeGroupRequest
  set_group : GroupInformation → NodeGroupRequest
  delete_group : ℕ → NodeGroupRequest
  new_group : NewGroupInformation → NodeGroupRequest
  get_all_groups : (use_filter : Bool) (group_type : ℕ) → NodeGroupRequest

pub data Request : Type 0 where
  reboot : Request
  set_factory_default : Request
  get_version : Request
  get_protocol_version : Request
  get_state : Request
  leave_learn_state : Request
  get_network_setup : Request
  set_network_setup : NetworkSetup → Request
  set_utc : ℕ → Request
  set_time_zone : Bytes → Request
  get_local_time : Request
  configuration : ConfigurationRequest → Request
  node_group : NodeGroupRequest → Request
  command_extension : CommandExtensionRequest → Request
  scene_contact : SceneContactRequest → Request
  activation_log : ActivationLogRequest → Request
  get_all_nodes_information : Request
  house_status_monitor_enable : Request
  house_status_monitor_disable : Request
  get_node_information : ℕ → Request
  password_enter : Bytes → Request
  password_change : (current_password : Bytes) (new_password : Bytes) → Request
  command_send : (command : CommandRequest) (target : CommandTarget) → Request
  status_request :
      (session_id : ℕ) (target : CommandTarget) (status_type : StatusRequestType) → Request
  raw : (command : ℕ) (payload : Bytes) → Request
