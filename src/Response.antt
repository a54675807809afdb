-- ===== src/Response.antt =====
-- src/klf200/response.rs: the responses of the gateway. What they hold is in the modules named for
-- it; their decoding is in `Decode`. Their `Debug` output is not modelled.
pub mod States
pub mod Gateway
pub mod Configuration
pub mod Groups
pub mod Scenes
pub mod Logs
pub mod Nodes
use velux2mqtt.Types.Records.{ContactInputLink, NetworkSetup}
use velux2mqtt.Response.Gateway.{
  Version, ProtocolVersion, GatewayState, LocalTime, PasswordChangedNotification,
}
use velux2mqtt.Response.Configuration.{
  SystemTableData, NodeDiscoveryResult, ControllerCopyResult, KeyChangeResult, PgcJob,
  SystemTableUpdate, ConfigurationActivationResult,
}
use velux2mqtt.Response.Groups.{
  NodeMutationResult, GroupOperationResult, GroupInformationNotification, GroupChange,
  AllGroupsAccepted,
}
use velux2mqtt.Response.Scenes.{
  SessionCommandResult, LimitationStatus, SceneStatusResult, SceneInitializationResult,
  SceneObjectResult, SceneList, SceneInformation, SceneSessionResult, SceneChange,
  ProductGroupResult, ContactInputOperationResult,
}
use velux2mqtt.Response.Logs.{ActivationLogHeader, ActivationLogEntry, MultipleActivationLogResult}
use velux2mqtt.Response.Nodes.{
  NodeInformation, NodeStatePosition, NodeInformationChanged, CommandRunStatus, StatusNotification,
}
use velux2mqtt.Prelude.{Bool, Bytes, List, ℕ}

pub data Response : Type 0 where
  error_notification : (error_number : ℕ) → Response
  acknowledgement : (command : ℕ) → Response
  password_entered : (accepted : Bool) → Response
  password_changed : (accepted : Bool) → Response
  password_changed_notification : PasswordChangedNotification → Response
  operation_status : (command : ℕ) (status : ℕ) → Response
  version : Version → Response
  protocol_version : ProtocolVersion → Response
  gateway_state : GatewayState → Response
  network_setup : NetworkSetup → Response
  local_time : LocalTime → Response
  system_table_data : SystemTableData → Response
  node_discovery_result : NodeDiscoveryResult → Response
  nodes_removed : (scene_deleted : Bool) → Response
  controller_copy_result : ControllerCopyResult → Response
  key_change_result : KeyChangeResult → Response
  pgc_job : PgcJob → Response
  system_table_update : SystemTableUpdate → Response
  configuration_activation_result : ConfigurationActivationResult → Response
  node_mutation_result : NodeMutationResult → Response
  group_operation_result : GroupOperationResult → Response
  group_information : GroupInformationNotification → Response
  group_change : GroupChange → Response
  all_groups_accepted : AllGroupsAccepted → Response
  group_deleted : ℕ → Response
  session_command_result : SessionCommandResult → Response
  wink_finished : (session_id : ℕ) → Response
  limitation_status : LimitationStatus → Response
  mode_notification : Bytes → Response
  scene_status_result : SceneStatusResult → Response
  scene_initialization_result : SceneInitializationResult → Response
  scene_object_result : SceneObjectResult → Response
  scene_list_accepted : (total_scenes : ℕ) → Response
  scene_list : SceneList → Response
  scene_information : SceneInformation → Response
  scene_session_result : SceneSessionResult → Response
  scene_change : SceneChange → Response
  product_group_result : ProductGroupResult → Response
  product_group_notification : Bytes → Response
  contact_input_links : List ContactInputLink → Response
  contact_input_operation_result : ContactInputOperationResult → Response
  activation_log_header : ActivationLogHeader → Response
  activation_log_entry : ActivationLogEntry → Response
  multiple_activation_log_result : MultipleActivationLogResult → Response
  node_information_accepted : (status : ℕ) (node_id : ℕ) → Response
  all_nodes_information_accepted : (status : ℕ) (total_nodes : ℕ) → Response
  node_information : NodeInformation → Response
  node_information_changed : NodeInformationChanged → Response
  node_state_position : NodeStatePosition → Response
  command_accepted : (session_id : ℕ) (status : ℕ) → Response
  command_run_status : CommandRunStatus → Response
  command_remaining_time :
      (session_id : ℕ) (node_id : ℕ) (node_parameter : ℕ) (seconds : ℕ) → Response
  session_finished : (session_id : ℕ) → Response
  status_accepted : (session_id : ℕ) (status : ℕ) → Response
  status_notification : StatusNotification → Response
  unknown : (command : ℕ) (payload : Bytes) → Response
