-- ===== src/Decode/Commands.antt =====
-- `decode_command_extension` of src/klf200/response.rs.
use velux2mqtt.Response.{
  Response, limitation_status, mode_notification, session_command_result, wink_finished,
}
use velux2mqtt.CommandId.Constants.{
  gw_get_limitation_status_cfm, gw_limitation_status_ntf, gw_mode_send_cfm, gw_mode_send_ntf,
  gw_set_limitation_cfm, gw_wink_send_cfm, gw_wink_send_ntf,
}
use velux2mqtt.Error.{◌>>=◌, Result, ok}
use velux2mqtt.Prelude.{Bytes, [], ℕ, ◌∷◌}
use velux2mqtt.Decode.Fields.{Arms, require_exact, select, session_id, byte_at, read_parameter}

unfoldable pub decode_limitation_status : Bytes → ℕ → Result Response
decode_limitation_status payload command = do
  checked ← require_exact payload 10 command
  session ← session_id payload command
  ok (
      limitation_status (record {
        session_id = session;
        node_id = byte_at payload 2;
        parameter_id = byte_at payload 3;
        minimum = read_parameter payload 4;
        maximum = read_parameter payload 6;
        originator = byte_at payload 8;
        limitation_time = byte_at payload 9;
      }))

abbrev pub command_extension_arms : ℕ → Bytes → Arms
command_extension_arms command payload =
    (
      gw_wink_send_cfm ∷ gw_set_limitation_cfm ∷ gw_get_limitation_status_cfm ∷ gw_mode_send_cfm
          ∷ [],
      do
        checked ← require_exact payload 3 command
        session ← session_id payload command
        ok (
            session_command_result
              (record { command = command; session_id = session; status = byte_at payload 2 })),
    )
    ∷ (
      gw_wink_send_ntf ∷ [],
      do
        checked ← require_exact payload 2 command
        session ← session_id payload command
        ok (wink_finished session),
    )
    ∷ (gw_limitation_status_ntf ∷ [], decode_limitation_status payload command)
    ∷ (gw_mode_send_ntf ∷ [], ok (mode_notification payload))
    ∷ []

unfoldable pub decode_command_extension : ℕ → Bytes → Result Response
decode_command_extension command payload =
    select command (command_extension_arms command payload) (ok (Response.unknown command payload))
