-- ===== src/Decode/Groups.antt =====
-- `decode_node_group` and `decode_group_information` of src/klf200/response.rs.
use velux2mqtt.Response.{
  Response, all_groups_accepted, group_change, group_deleted, group_information,
  group_operation_result, node_mutation_result,
}
use velux2mqtt.CommandId.Constants.{
  gw_delete_group_cfm, gw_get_all_groups_information_cfm,
  gw_get_all_groups_information_finished_ntf, gw_get_all_groups_information_ntf,
  gw_get_group_information_cfm, gw_get_group_information_ntf, gw_group_deleted_ntf,
  gw_group_information_changed_ntf, gw_new_group_cfm, gw_set_group_information_cfm,
  gw_set_node_name_cfm, gw_set_node_order_and_placement_cfm, gw_set_node_variation_cfm,
}
use velux2mqtt.Error.{◌>>=◌, Result, ok}
use velux2mqtt.Prelude.{◌==◌, Bytes, Option, [], drop, if◌then◌else◌, none, some, ℕ, ◌∷◌}
use velux2mqtt.Types.Records.{GroupInformation}
use velux2mqtt.Decode.Fields.{
  Arms, require_exact, byte_at, require, select, slice, read_u16, read_i8, acknowledge,
}
use velux2mqtt.Types.FixedString.{decode_fixed_string}

unfoldable pub decode_group_information : Bytes → ℕ → Result GroupInformation
decode_group_information payload command = do
  checked ← require_exact payload 99 command
  name ← decode_fixed_string (slice payload 4 68)
  ok (record {
    group_id = byte_at payload 0;
    order = read_u16 payload 1;
    placement = byte_at payload 3;
    name = name;
    velocity = byte_at payload 68;
    node_variation = byte_at payload 69;
    group_type = byte_at payload 70;
    object_count = byte_at payload 71;
    actuators = record { bytes = slice payload 72 97 };
    revision = read_u16 payload 97;
  })

-- The information of a group that was changed; one that was deleted has none.
unfoldable pub changed_information : Bytes → ℕ → Result (Option GroupInformation)
changed_information payload command =
    if byte_at payload 0 == 1
    then (do
      checked ← require_exact payload 100 command
      information ← decode_group_information (drop 1 payload) command
      ok (some information))
    else (do checked ← require_exact payload 2 command; ok none)

unfoldable pub decode_group_change : Bytes → ℕ → Result Response
decode_group_change payload command = do
  present ← require payload 2 command
  information ← changed_information payload command
  ok (
      group_change (record {
        change_type = byte_at payload 0;
        group_id = byte_at payload 1;
        information = information;
      }))

abbrev pub node_group_arms : ℕ → Bytes → Arms
node_group_arms command payload =
    (
      gw_set_node_variation_cfm ∷ gw_set_node_name_cfm ∷ gw_set_node_order_and_placement_cfm ∷ [],
      do
        checked ← require_exact payload 2 command
        ok (
            node_mutation_result (record {
              command = command;
              status = byte_at payload 0;
              node_id = byte_at payload 1;
            })),
    )
    ∷ (
      gw_get_group_information_cfm ∷ gw_set_group_information_cfm ∷ gw_new_group_cfm ∷ [],
      do
        checked ← require_exact payload 2 command
        ok (
            group_operation_result (record {
              command = command;
              status = byte_at payload 0;
              group_id = byte_at payload 1;
            })),
    )
    ∷ (
      gw_delete_group_cfm ∷ [],
      do
        checked ← require_exact payload 2 command
        ok (
            group_operation_result (record {
              command = command;
              status = byte_at payload 1;
              group_id = byte_at payload 0;
            })),
    )
    ∷ (
      gw_get_group_information_ntf ∷ gw_get_all_groups_information_ntf ∷ [],
      do
        information ← decode_group_information payload command
        ok (group_information (record { command = command; information = information })),
    )
    ∷ (gw_group_information_changed_ntf ∷ [], decode_group_change payload command)
    ∷ (
      gw_get_all_groups_information_cfm ∷ [],
      do
        checked ← require_exact payload 2 command
        ok (
            all_groups_accepted
              (record { status = read_i8 payload 0; total_groups = byte_at payload 1 })),
    )
    ∷ (gw_get_all_groups_information_finished_ntf ∷ [], acknowledge payload command)
    ∷ (
      gw_group_deleted_ntf ∷ [],
      do checked ← require_exact payload 1 command; ok (group_deleted (byte_at payload 0)),
    )
    ∷ []

unfoldable pub decode_node_group : ℕ → Bytes → Result Response
decode_node_group command payload =
    select command (node_group_arms command payload) (ok (Response.unknown command payload))
