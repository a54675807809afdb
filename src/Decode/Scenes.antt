-- ===== src/Decode/Scenes.antt =====
-- `decode_scene_contact` of src/klf200/response.rs, and the decoders of its lists.
use velux2mqtt.Response.{
  Response, contact_input_links, contact_input_operation_result, product_group_notification,
  product_group_result, scene_change, scene_information, scene_initialization_result, scene_list,
  scene_list_accepted, scene_object_result, scene_session_result, scene_status_result,
}
use velux2mqtt.CommandId.Constants.{
  gw_activate_productgroup_cfm, gw_activate_productgroup_ntf, gw_activate_scene_cfm,
  gw_delete_scene_cfm, gw_get_contact_input_link_list_cfm, gw_get_scene_infoamation_cfm,
  gw_get_scene_infoamation_ntf, gw_get_scene_list_cfm, gw_get_scene_list_ntf,
  gw_initialize_scene_cancel_cfm, gw_initialize_scene_cfm, gw_initialize_scene_ntf,
  gw_record_scene_cfm, gw_record_scene_ntf, gw_remove_contact_input_link_cfm, gw_rename_scene_cfm,
  gw_scene_information_changed_ntf, gw_set_contact_input_link_cfm, gw_stop_scene_cfm,
}
use velux2mqtt.Error.{◌>>=◌, Result, err, invalid_request, ok}
use velux2mqtt.Prelude.{
  ◌*◌, ◌+◌, ◌-◌, ◌==◌, Bool, Bytes, List, [], drop, if◌then◌else◌, ltb, ℕ, ◌∷◌,
}
use velux2mqtt.Response.Scenes.{SceneSummary, SceneNode}
use velux2mqtt.Types.Records.{ContactInputLink}
use velux2mqtt.Decode.Fields.{
  Arms, require, byte_at, select, slice, read_parameter, require_exact, try_entries, entries,
  session_id_at, session_id,
}
use velux2mqtt.Types.FixedString.{decode_fixed_string}

unfoldable pub scene_summary_at : Bytes → ℕ → Result SceneSummary
scene_summary_at payload offset = do
  name ← decode_fixed_string (slice payload (offset + 1) (offset + 65))
  ok (record { scene_id = byte_at payload offset; name = name })

unfoldable pub decode_scene_list : Bytes → ℕ → Result Response
decode_scene_list payload command = do
  present ← require payload 2 command
  let count = byte_at payload 0
  if ltb 3 count
      then err (invalid_request "scene-list notification contains more than three scenes")
      else (do
        let expected = 2 + count * 65
        checked ← require_exact payload expected command
        scenes ← try_entries (scene_summary_at payload) 1 65 count
        ok (
            scene_list
              (record { scenes = scenes; remaining_scenes = byte_at payload (expected - 1) })))

unfoldable pub scene_node_at : Bytes → ℕ → SceneNode
scene_node_at payload offset = record {
  node_id = byte_at payload offset;
  parameter_id = byte_at payload (offset + 1);
  parameter = read_parameter payload (offset + 2);
}

unfoldable pub decode_scene_information : Bytes → ℕ → Result Response
decode_scene_information payload command = do
  present ← require payload 67 command
  let count = byte_at payload 65
  if ltb 45 count
      then err (invalid_request "scene-information notification contains more than 45 nodes")
      else (do
        let expected = 67 + count * 4
        checked ← require_exact payload expected command
        name ← decode_fixed_string (slice payload 1 65)
        ok (
            scene_information (record {
              scene_id = byte_at payload 0;
              name = name;
              nodes = entries (scene_node_at payload) 66 4 count;
              remaining_nodes = byte_at payload (expected - 1);
            })))

unfoldable pub decode_contact_input_link : Bytes → ℕ → ContactInputLink
decode_contact_input_link payload offset = record {
  contact_input_id = byte_at payload offset;
  assignment = byte_at payload (offset + 1);
  action_id = byte_at payload (offset + 2);
  command_originator = byte_at payload (offset + 3);
  priority_level = byte_at payload (offset + 4);
  parameter_id = byte_at payload (offset + 5);
  position = read_parameter payload (offset + 6);
  velocity = byte_at payload (offset + 8);
  lock_priority_level = byte_at payload (offset + 9);
  priority_level_settings = slice payload (offset + 10) (offset + 15);
  success_output_id = byte_at payload (offset + 15);
  error_output_id = byte_at payload (offset + 16);
}

unfoldable pub decode_contact_input_links : Bytes → ℕ → Result Response
decode_contact_input_links payload command = do
  present ← require payload 1 command
  let count = byte_at payload 0
  if ltb 10 count
      then err (invalid_request "contact-input list contains more than ten links")
      else (do
        checked ← require_exact payload (1 + count * 17) command
        ok (contact_input_links (entries (decode_contact_input_link payload) 1 17 count)))

-- The flags of the nodes: `true` where the byte is zero.
unfoldable pub zero_flags : Bytes → List Bool
zero_flags [] = []
zero_flags (value ∷ values) = (value == 0) ∷ zero_flags values

abbrev pub scene_contact_arms : ℕ → Bytes → Arms
scene_contact_arms command payload =
    (
      gw_initialize_scene_cfm ∷ gw_initialize_scene_cancel_cfm ∷ gw_record_scene_cfm ∷ [],
      do
        checked ← require_exact payload 1 command
        ok (scene_status_result (record { command = command; status = byte_at payload 0 })),
    )
    ∷ (
      gw_initialize_scene_ntf ∷ [],
      do
        checked ← require_exact payload 26 command
        ok (
            scene_initialization_result
              (record { status = byte_at payload 0; node_states = zero_flags (drop 1 payload) })),
    )
    ∷ (
      gw_record_scene_ntf ∷ gw_delete_scene_cfm ∷ gw_rename_scene_cfm ∷ gw_get_scene_infoamation_cfm
          ∷ [],
      do
        checked ← require_exact payload 2 command
        ok (
            scene_object_result (record {
              command = command;
              status = byte_at payload 0;
              scene_id = byte_at payload 1;
            })),
    )
    ∷ (
      gw_get_scene_list_cfm ∷ [],
      do checked ← require_exact payload 1 command; ok (scene_list_accepted (byte_at payload 0)),
    )
    ∷ (gw_get_scene_list_ntf ∷ [], decode_scene_list payload command)
    ∷ (gw_get_scene_infoamation_ntf ∷ [], decode_scene_information payload command)
    ∷ (
      gw_activate_scene_cfm ∷ gw_stop_scene_cfm ∷ [],
      do
        checked ← require_exact payload 3 command
        session ← session_id_at payload 1 command
        ok (
            scene_session_result
              (record { command = command; status = byte_at payload 0; session_id = session })),
    )
    ∷ (
      gw_scene_information_changed_ntf ∷ [],
      do
        checked ← require_exact payload 2 command
        ok (
            scene_change
              (record { change_type = byte_at payload 0; scene_id = byte_at payload 1 })),
    )
    ∷ (
      gw_activate_productgroup_cfm ∷ [],
      do
        checked ← require_exact payload 3 command
        session ← session_id payload command
        ok (product_group_result (record { session_id = session; status = byte_at payload 2 })),
    )
    ∷ (gw_activate_productgroup_ntf ∷ [], ok (product_group_notification payload))
    ∷ (gw_get_contact_input_link_list_cfm ∷ [], decode_contact_input_links payload command)
    ∷ (
      gw_set_contact_input_link_cfm ∷ gw_remove_contact_input_link_cfm ∷ [],
      do
        checked ← require_exact payload 2 command
        ok (
            contact_input_operation_result (record {
              command = command;
              contact_input_id = byte_at payload 0;
              status = byte_at payload 1;
            })),
    )
    ∷ []

unfoldable pub decode_scene_contact : ℕ → Bytes → Result Response
decode_scene_contact command payload =
    select command (scene_contact_arms command payload) (ok (Response.unknown command payload))
