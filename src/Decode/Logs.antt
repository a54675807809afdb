-- ===== src/Decode/Logs.antt =====
-- `decode_activation_log` of src/klf200/response.rs.
use velux2mqtt.Response.{
  Response, activation_log_entry, activation_log_header, multiple_activation_log_result,
}
use velux2mqtt.CommandId.Constants.{
  gw_activation_log_updated_ntf, gw_clear_activation_log_cfm, gw_get_activation_log_header_cfm,
  gw_get_activation_log_line_cfm, gw_get_multiple_activation_log_lines_cfm,
  gw_get_multiple_activation_log_lines_ntf,
}
use velux2mqtt.Error.{◌>>=◌, Result, ok}
use velux2mqtt.Prelude.{Bytes, [], ℕ, ◌∷◌}
use velux2mqtt.Decode.Fields.{
  Arms, require_exact, select, session_id_at, read_u16, read_u32, byte_at, read_parameter,
  acknowledge,
}
use velux2mqtt.Response.States.{run_status}

unfoldable pub decode_log_entry : Bytes → ℕ → Result Response
decode_log_entry payload command = do
  checked ← require_exact payload 17 command
  session ← session_id_at payload 4 command
  ok (
      activation_log_entry (record {
        command = command;
        timestamp = read_u32 payload 0;
        session_id = session;
        status_id = byte_at payload 6;
        node_id = byte_at payload 7;
        node_parameter = byte_at payload 8;
        parameter_value = read_parameter payload 9;
        run_status = run_status (byte_at payload 11);
        status_reply = byte_at payload 12;
        information_code = read_u32 payload 13;
      }))

abbrev pub activation_log_arms : ℕ → Bytes → Arms
activation_log_arms command payload =
    (
      gw_get_activation_log_header_cfm ∷ [],
      do
        checked ← require_exact payload 4 command
        ok (
            activation_log_header
              (record { maximum_lines = read_u16 payload 0; line_count = read_u16 payload 2 })),
    )
    ∷ (
      gw_clear_activation_log_cfm ∷ gw_activation_log_updated_ntf ∷ [],
      acknowledge payload command,
    )
    ∷ (
      gw_get_activation_log_line_cfm ∷ gw_get_multiple_activation_log_lines_ntf ∷ [],
      decode_log_entry payload command,
    )
    ∷ (
      gw_get_multiple_activation_log_lines_cfm ∷ [],
      do
        checked ← require_exact payload 3 command
        ok (
            multiple_activation_log_result
              (record { line_count = read_u16 payload 0; status = byte_at payload 2 })),
    )
    ∷ []

unfoldable pub decode_activation_log : ℕ → Bytes → Result Response
decode_activation_log command payload =
    select command (activation_log_arms command payload) (ok (Response.unknown command payload))
