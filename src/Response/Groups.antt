-- ===== src/Response/Groups.antt =====
-- src/klf200/response.rs: what responses about nodes and groups being changed hold.
use velux2mqtt.Prelude.Int.{ℤ}
use velux2mqtt.Types.Records.{GroupInformation}
use velux2mqtt.Prelude.{Option, ℕ}

pub record NodeMutationResult : Type 0 where
  pub command : ℕ
  pub status : ℕ
  pub node_id : ℕ

pub record GroupOperationResult : Type 0 where
  pub command : ℕ
  pub status : ℕ
  pub group_id : ℕ

pub record GroupInformationNotification : Type 0 where
  pub command : ℕ
  pub information : GroupInformation

pub record GroupChange : Type 0 where
  pub change_type : ℕ
  pub group_id : ℕ
  pub information : Option GroupInformation

pub record AllGroupsAccepted : Type 0 where
  pub status : ℤ
  pub total_groups : ℕ
