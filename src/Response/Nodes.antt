-- ===== src/Response/Nodes.antt =====
-- src/klf200/response.rs: what responses about the nodes and their status hold.
use velux2mqtt.Prelude.Int.{ℤ}
use velux2mqtt.Types.Position.{StandardParameter}
use velux2mqtt.Types.Records.{Alias}
use velux2mqtt.Response.States.{OperatingState, RunStatus}
use velux2mqtt.Prelude.{Bytes, List, ℕ}

pub record NodeInformation : Type 0 where
  pub node_id : ℕ
  pub order : ℕ
  pub placement : ℕ
  pub name : Bytes
  pub velocity : ℕ
  pub node_type_sub_type : ℕ
  pub product_group : ℤ
  pub product_type : ℤ
  pub variation : ℕ
  pub power_mode : ℕ
  pub build_number : ℕ
  pub serial_number : Bytes
  pub operating_state : OperatingState
  pub current_position : StandardParameter
  pub target_position : StandardParameter
  pub functional_positions : List StandardParameter
  pub remaining_time : ℕ
  pub timestamp : ℕ
  pub aliases : List Alias

pub record NodeStatePosition : Type 0 where
  pub node_id : ℕ
  pub operating_state : OperatingState
  pub current_position : StandardParameter
  pub target_position : StandardParameter
  pub functional_positions : List StandardParameter
  pub remaining_time : ℕ
  pub timestamp : ℕ

pub record NodeInformationChanged : Type 0 where
  pub node_id : ℕ
  pub name : Bytes
  pub order : ℕ
  pub placement : ℕ
  pub variation : ℕ

pub record CommandRunStatus : Type 0 where
  pub session_id : ℕ
  pub status_id : ℕ
  pub node_id : ℕ
  pub node_parameter : ℕ
  pub parameter_value : StandardParameter
  pub run_status : RunStatus
  pub status_reply : ℕ
  pub information_code : ℕ

pub record ParameterStatus : Type 0 where
  pub node_parameter : ℕ
  pub value : ℕ

pub data StatusNotificationDetail : Type 0 where
  parameters : List ParameterStatus → StatusNotificationDetail
  main :
      (target_position : StandardParameter) (current_position : StandardParameter)
      (remaining_time : ℕ) (last_master_execution_address : ℕ) (last_command_originator : ℕ)
      → StatusNotificationDetail
  unknown : (status_type : ℕ) (payload : Bytes) → StatusNotificationDetail

pub record StatusNotification : Type 0 where
  pub session_id : ℕ
  pub status_id : ℕ
  pub node_id : ℕ
  pub run_status : RunStatus
  pub status_reply : ℕ
  pub detail : StatusNotificationDetail
