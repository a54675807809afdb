-- ===== src/Decode/Configuration.antt =====
-- `decode_configuration` and `decode_system_table_data` of src/klf200/response.rs.
use velux2mqtt.Response.{
  Response, configuration_activation_result, controller_copy_result, key_change_result,
  node_discovery_result, nodes_removed, pgc_job, system_table_data, system_table_update,
}
use velux2mqtt.CommandId.Constants.{
  gw_cs_activate_configuration_mode_cfm, gw_cs_controller_copy_cancel_ntf,
  gw_cs_controller_copy_cfm, gw_cs_controller_copy_ntf, gw_cs_discover_nodes_cfm,
  gw_cs_discover_nodes_ntf, gw_cs_generate_new_key_cfm, gw_cs_generate_new_key_ntf,
  gw_cs_get_systemtable_data_cfm, gw_cs_get_systemtable_data_ntf, gw_cs_pgc_job_ntf,
  gw_cs_receive_key_cfm, gw_cs_receive_key_ntf, gw_cs_remove_nodes_cfm, gw_cs_repair_key_cfm,
  gw_cs_repair_key_ntf, gw_cs_system_table_update_ntf, gw_cs_virgin_state_cfm,
}
use velux2mqtt.Error.{◌>>=◌, Result, ok}
use velux2mqtt.Prelude.{◌*◌, ◌+◌, ◌-◌, ◌==◌, Bytes, [], not, ℕ, ◌∷◌}
use velux2mqtt.Response.Configuration.{SystemTableObject}
use velux2mqtt.Decode.Fields.{
  Arms, byte_at, require, require_exact, select, slice, read_u16, entries, decode_node_set, read_i8,
  acknowledge,
}

unfoldable pub system_table_object : Bytes → ℕ → SystemTableObject
system_table_object payload offset = record {
  index = byte_at payload offset;
  actuator_address = slice payload (offset + 1) (offset + 4);
  actuator_type_sub_type = read_u16 payload (offset + 4);
  power_mode_and_flags = byte_at payload (offset + 6);
  manufacturer_id = byte_at payload (offset + 7);
  backbone_reference = slice payload (offset + 8) (offset + 11);
}

unfoldable pub decode_system_table_data : Bytes → ℕ → Result Response
decode_system_table_data payload command = do
  present ← require payload 2 command
  let count = byte_at payload 0
  let expected = 2 + count * 11
  checked ← require_exact payload expected command
  ok (
      system_table_data (record {
        entries = entries (system_table_object payload) 1 11 count;
        remaining_entries = byte_at payload (expected - 1);
      }))

unfoldable pub decode_discovery_result : Bytes → ℕ → Result Response
decode_discovery_result payload command = do
  checked ← require_exact payload 131 command
  ok (
      node_discovery_result (record {
        added = decode_node_set payload 0;
        rf_connection_error = decode_node_set payload 26;
        key_error_existing_node = decode_node_set payload 52;
        removed = decode_node_set payload 78;
        open_nodes = decode_node_set payload 104;
        status = byte_at payload 130;
      }))

unfoldable pub decode_activation_result : Bytes → ℕ → Result Response
decode_activation_result payload command = do
  checked ← require_exact payload 79 command
  ok (
      configuration_activation_result (record {
        activated = decode_node_set payload 0;
        no_contact = decode_node_set payload 26;
        other_error = decode_node_set payload 52;
        status = read_i8 payload 78;
      }))

abbrev pub configuration_arms : ℕ → Bytes → Arms
configuration_arms command payload =
    (
      gw_cs_get_systemtable_data_cfm ∷ gw_cs_discover_nodes_cfm ∷ gw_cs_virgin_state_cfm
          ∷ gw_cs_controller_copy_cfm ∷ gw_cs_controller_copy_cancel_ntf ∷ gw_cs_receive_key_cfm
          ∷ gw_cs_generate_new_key_cfm ∷ gw_cs_repair_key_cfm ∷ [],
      acknowledge payload command,
    )
    ∷ (gw_cs_get_systemtable_data_ntf ∷ [], decode_system_table_data payload command)
    ∷ (gw_cs_discover_nodes_ntf ∷ [], decode_discovery_result payload command)
    ∷ (
      gw_cs_remove_nodes_cfm ∷ [],
      do
        checked ← require_exact payload 1 command
        ok (nodes_removed (not (byte_at payload 0 == 0))),
    )
    ∷ (
      gw_cs_controller_copy_ntf ∷ [],
      do
        checked ← require_exact payload 2 command
        ok (
            controller_copy_result
              (record { mode = byte_at payload 0; status = byte_at payload 1 })),
    )
    ∷ (
      gw_cs_receive_key_ntf ∷ gw_cs_generate_new_key_ntf ∷ gw_cs_repair_key_ntf ∷ [],
      do
        checked ← require_exact payload 53 command
        ok (
            key_change_result (record {
              command = command;
              status = read_i8 payload 0;
              changed = decode_node_set payload 1;
              unchanged = decode_node_set payload 27;
            })),
    )
    ∷ (
      gw_cs_pgc_job_ntf ∷ [],
      do
        checked ← require_exact payload 3 command
        ok (
            pgc_job (record {
              state = read_i8 payload 0;
              status = read_i8 payload 1;
              job_type = read_i8 payload 2;
            })),
    )
    ∷ (
      gw_cs_system_table_update_ntf ∷ [],
      do
        checked ← require_exact payload 52 command
        ok (
            system_table_update
              (record { added = decode_node_set payload 0; removed = decode_node_set payload 26 })),
    )
    ∷ (gw_cs_activate_configuration_mode_cfm ∷ [], decode_activation_result payload command)
    ∷ []

unfoldable pub decode_configuration : ℕ → Bytes → Result Response
decode_configuration command payload =
    select command (configuration_arms command payload) (ok (Response.unknown command payload))
