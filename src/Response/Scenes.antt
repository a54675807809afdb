-- ===== src/Response/Scenes.antt =====
-- src/klf200/response.rs: what responses about sessions, scenes and contact inputs hold.
use velux2mqtt.Types.Position.{StandardParameter}
use velux2mqtt.Prelude.{Bool, Bytes, List, ℕ}

pub record SessionCommandResult : Type 0 where
  pub command : ℕ
  pub session_id : ℕ
  pub status : ℕ

pub record LimitationStatus : Type 0 where
  pub session_id : ℕ
  pub node_id : ℕ
  pub parameter_id : ℕ
  pub minimum : StandardParameter
  pub maximum : StandardParameter
  pub originator : ℕ
  pub limitation_time : ℕ

pub record SceneStatusResult : Type 0 where
  pub command : ℕ
  pub status : ℕ

pub record SceneInitializationResult : Type 0 where
  pub status : ℕ
  pub node_states : List Bool

pub record SceneObjectResult : Type 0 where
  pub command : ℕ
  pub status : ℕ
  pub scene_id : ℕ

pub record SceneSummary : Type 0 where
  pub scene_id : ℕ
  pub name : Bytes

pub record SceneList : Type 0 where
  pub scenes : List SceneSummary
  pub remaining_scenes : ℕ

pub record SceneNode : Type 0 where
  pub node_id : ℕ
  pub parameter_id : ℕ
  pub parameter : StandardParameter

pub record SceneInformation : Type 0 where
  pub scene_id : ℕ
  pub name : Bytes
  pub nodes : List SceneNode
  pub remaining_nodes : ℕ

pub record SceneSessionResult : Type 0 where
  pub command : ℕ
  pub status : ℕ
  pub session_id : ℕ

pub record SceneChange : Type 0 where
  pub change_type : ℕ
  pub scene_id : ℕ

pub record ProductGroupResult : Type 0 where
  pub session_id : ℕ
  pub status : ℕ

pub record ContactInputOperationResult : Type 0 where
  pub command : ℕ
  pub contact_input_id : ℕ
  pub status : ℕ
