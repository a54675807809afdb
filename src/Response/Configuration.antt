-- ===== src/Response/Configuration.antt =====
-- src/klf200/response.rs: what responses about the configuration of the network hold.
use velux2mqtt.Prelude.Int.{ℤ}
use velux2mqtt.Types.Records.{NodeSet}
use velux2mqtt.Prelude.{Bytes, List, ℕ}

pub record SystemTableObject : Type 0 where
  pub index : ℕ
  pub actuator_address : Bytes
  pub actuator_type_sub_type : ℕ
  pub power_mode_and_flags : ℕ
  pub manufacturer_id : ℕ
  pub backbone_reference : Bytes

pub record SystemTableData : Type 0 where
  pub entries : List SystemTableObject
  pub remaining_entries : ℕ

pub record NodeDiscoveryResult : Type 0 where
  pub added : NodeSet
  pub rf_connection_error : NodeSet
  pub key_error_existing_node : NodeSet
  pub removed : NodeSet
  pub open_nodes : NodeSet
  pub status : ℕ

pub record ControllerCopyResult : Type 0 where
  pub mode : ℕ
  pub status : ℕ

pub record KeyChangeResult : Type 0 where
  pub command : ℕ
  pub status : ℤ
  pub changed : NodeSet
  pub unchanged : NodeSet

pub record PgcJob : Type 0 where
  pub state : ℤ
  pub status : ℤ
  pub job_type : ℤ

pub record SystemTableUpdate : Type 0 where
  pub added : NodeSet
  pub removed : NodeSet

pub record ConfigurationActivationResult : Type 0 where
  pub activated : NodeSet
  pub no_contact : NodeSet
  pub other_error : NodeSet
  pub status : ℤ
