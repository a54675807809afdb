-- ===== src/Response/Logs.antt =====
-- src/klf200/response.rs: what responses about the activation log hold.
use velux2mqtt.Types.Position.{StandardParameter}
use velux2mqtt.Response.States.{RunStatus}
use velux2mqtt.Prelude.{ℕ}

pub record ActivationLogHeader : Type 0 where
  pub maximum_lines : ℕ
  pub line_count : ℕ

pub record ActivationLogEntry : Type 0 where
  pub command : ℕ
  pub timestamp : ℕ
  pub session_id : ℕ
  pub status_id : ℕ
  pub node_id : ℕ
  pub node_parameter : ℕ
  pub parameter_value : StandardParameter
  pub run_status : RunStatus
  pub status_reply : ℕ
  pub information_code : ℕ

pub record MultipleActivationLogResult : Type 0 where
  pub line_count : ℕ
  pub status : ℕ
