-- ===== src/Types/Records.antt =====
-- The plain structures of src/klf200/types.rs. Arrays are lists.
use velux2mqtt.Types.Actuators.{ActuatorSet}
use velux2mqtt.Types.Beacons.{BeaconSet}
use velux2mqtt.Types.Position.{StandardParameter}
use velux2mqtt.Prelude.{Bool, Bytes, ℕ}

pub record NetworkSetup : Type 0 where
  pub ip_address : Bytes
  pub subnet_mask : Bytes
  pub default_gateway : Bytes
  pub dhcp : Bool

pub record Alias : Type 0 where
  pub kind : ℕ
  pub value : ℕ

pub record NodeSet : Type 0 where
  pub actuators : ActuatorSet
  pub beacons : BeaconSet

pub record GroupInformation : Type 0 where
  pub group_id : ℕ
  pub order : ℕ
  pub placement : ℕ
  pub name : Bytes
  pub velocity : ℕ
  pub node_variation : ℕ
  pub group_type : ℕ
  pub object_count : ℕ
  pub actuators : ActuatorSet
  pub revision : ℕ

pub record NewGroupInformation : Type 0 where
  pub order : ℕ
  pub placement : ℕ
  pub name : Bytes
  pub velocity : ℕ
  pub node_variation : ℕ
  pub group_type : ℕ
  pub object_count : ℕ
  pub actuators : ActuatorSet

pub record ContactInputLink : Type 0 where
  pub contact_input_id : ℕ
  pub assignment : ℕ
  pub action_id : ℕ
  pub command_originator : ℕ
  pub priority_level : ℕ
  pub parameter_id : ℕ
  pub position : StandardParameter
  pub velocity : ℕ
  pub lock_priority_level : ℕ
  pub priority_level_settings : Bytes
  pub success_output_id : ℕ
  pub error_output_id : ℕ
