-- ===== src/Decode/Gateway.antt =====
-- `decode_gateway` and `decode_version` of src/klf200/response.rs.
use velux2mqtt.Response.{
  Response, error_notification, gateway_state, local_time, network_setup, operation_status,
  password_changed, password_changed_notification, password_entered, protocol_version,
}
use velux2mqtt.CommandId.Constants.{
  gw_error_ntf, gw_get_local_time_cfm, gw_get_network_setup_cfm, gw_get_protocol_version_cfm,
  gw_get_state_cfm, gw_get_version_cfm, gw_leave_learn_state_cfm, gw_password_change_cfm,
  gw_password_change_ntf, gw_password_enter_cfm, gw_rtc_set_time_zone_cfm, gw_set_network_setup_cfm,
  gw_set_utc_cfm,
}
use velux2mqtt.Error.{◌>>=◌, Result, ok}
use velux2mqtt.Prelude.{◌==◌, Bytes, [], ℕ, ◌∷◌}
use velux2mqtt.Response.Gateway.{Version}
use velux2mqtt.Decode.Fields.{
  Arms, require_exact, select, slice, byte_at, read_u32, read_i16, read_u16, read_i8, acknowledge,
}
use velux2mqtt.Types.FixedString.{decode_fixed_string}

unfoldable pub decode_version : Bytes → ℕ → Result Version
decode_version payload command = do
  checked ← require_exact payload 9 command
  ok (record {
    software = slice payload 0 6;
    hardware = byte_at payload 6;
    product_group = byte_at payload 7;
    product_type = byte_at payload 8;
  })

unfoldable pub decode_network_setup : Bytes → ℕ → Result Response
decode_network_setup payload command = do
  checked ← require_exact payload 13 command
  ok (
      network_setup (record {
        ip_address = slice payload 0 4;
        subnet_mask = slice payload 4 8;
        default_gateway = slice payload 8 12;
        dhcp = byte_at payload 12 == 1;
      }))

unfoldable pub decode_local_time : Bytes → ℕ → Result Response
decode_local_time payload command = do
  checked ← require_exact payload 15 command
  ok (
      local_time (record {
        utc_time = read_u32 payload 0;
        second = byte_at payload 4;
        minute = byte_at payload 5;
        hour = byte_at payload 6;
        day_of_month = byte_at payload 7;
        month_since_january = byte_at payload 8;
        years_since_1900 = read_i16 payload 9;
        week_day = byte_at payload 11;
        day_of_year = read_u16 payload 12;
        daylight_saving_flag = read_i8 payload 14;
      }))

unfoldable pub decode_password_changed : Bytes → ℕ → Result Response
decode_password_changed payload command = do
  checked ← require_exact payload 32 command
  password ← decode_fixed_string payload
  ok (password_changed_notification (record { new_password = password }))

abbrev pub gateway_arms : ℕ → Bytes → Arms
gateway_arms command payload =
    (
      gw_error_ntf ∷ [],
      do checked ← require_exact payload 1 command; ok (error_notification (byte_at payload 0)),
    )
    ∷ (gw_set_network_setup_cfm ∷ gw_set_utc_cfm ∷ [], acknowledge payload command)
    ∷ (
      gw_password_enter_cfm ∷ [],
      do checked ← require_exact payload 1 command; ok (password_entered (byte_at payload 0 == 0)),
    )
    ∷ (
      gw_password_change_cfm ∷ [],
      do checked ← require_exact payload 1 command; ok (password_changed (byte_at payload 0 == 0)),
    )
    ∷ (gw_password_change_ntf ∷ [], decode_password_changed payload command)
    ∷ (
      gw_get_version_cfm ∷ [],
      do read ← decode_version payload command; ok (Response.version read),
    )
    ∷ (
      gw_get_protocol_version_cfm ∷ [],
      do
        checked ← require_exact payload 4 command
        ok (protocol_version (record { major = read_u16 payload 0; minor = read_u16 payload 2 })),
    )
    ∷ (
      gw_get_state_cfm ∷ [],
      do
        checked ← require_exact payload 6 command
        ok (
            gateway_state (record {
              state = byte_at payload 0;
              sub_state = byte_at payload 1;
              state_data = slice payload 2 6;
            })),
    )
    ∷ (
      gw_leave_learn_state_cfm ∷ gw_rtc_set_time_zone_cfm ∷ [],
      do
        checked ← require_exact payload 1 command
        ok (operation_status command (byte_at payload 0)),
    )
    ∷ (gw_get_network_setup_cfm ∷ [], decode_network_setup payload command)
    ∷ (gw_get_local_time_cfm ∷ [], decode_local_time payload command)
    ∷ []

unfoldable pub decode_gateway : ℕ → Bytes → Result Response
decode_gateway command payload =
    select command (gateway_arms command payload) (ok (Response.unknown command payload))
