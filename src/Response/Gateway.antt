-- ===== src/Response/Gateway.antt =====
-- src/klf200/response.rs: what responses about the gateway itself hold.
use velux2mqtt.Prelude.Int.{ℤ}
use velux2mqtt.Prelude.{Bytes, ℕ}

pub record Version : Type 0 where
  pub software : Bytes
  pub hardware : ℕ
  pub product_group : ℕ
  pub product_type : ℕ

pub record ProtocolVersion : Type 0 where
  pub major : ℕ
  pub minor : ℕ

pub record GatewayState : Type 0 where
  pub state : ℕ
  pub sub_state : ℕ
  pub state_data : Bytes

pub record LocalTime : Type 0 where
  pub utc_time : ℕ
  pub second : ℕ
  pub minute : ℕ
  pub hour : ℕ
  pub day_of_month : ℕ
  pub month_since_january : ℕ
  pub years_since_1900 : ℤ
  pub week_day : ℕ
  pub day_of_year : ℕ
  pub daylight_saving_flag : ℤ

pub record PasswordChangedNotification : Type 0 where
  pub new_password : Bytes
