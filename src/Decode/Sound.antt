-- ===== src/Decode/Sound.antt =====
-- What a response that was decoded can be relied on for.
pub mod Fields
mod Families
use velux2mqtt.Decode.Configuration.{
  decode_configuration, configuration_arms, decode_system_table_data, decode_discovery_result,
  decode_activation_result,
}
use velux2mqtt.Decode.Groups.{
  decode_node_group, node_group_arms, decode_group_change, changed_information,
  decode_group_information,
}
use velux2mqtt.Decode.Commands.{
  decode_command_extension, command_extension_arms, decode_limitation_status,
}
use velux2mqtt.Decode.Logs.{decode_activation_log, activation_log_arms, decode_log_entry}
use velux2mqtt.Decode.Scenes.{
  decode_scene_contact, scene_contact_arms, decode_scene_list, decode_scene_information,
  decode_contact_input_links, decode_contact_input_link, scene_summary_at, scene_node_at,
}
use velux2mqtt.Decode.Nodes.{
  decode_node_information, node_information_of, decode_command_run_status,
  decode_status_notification, decode_node_state, decode_detail, alias_at,
}
use velux2mqtt.Decode.Core.{
  decode_core, core_arms, decode_session_status, decode_information_changed,
}
use velux2mqtt.Decode.Ranges.{decode-Yields}
use velux2mqtt.Frame.{Frame}
use velux2mqtt.Types.FixedString.{until_nul}
use velux2mqtt.Decode.Fields.{read_u16, require_exact, byte_at, slice}
use velux2mqtt.Decode.Gateway.{
  decode_version, decode_gateway, decode_network_setup, decode_local_time, decode_password_changed,
  gateway_arms,
}
use velux2mqtt.Response.{
  Response, activation_log_entry, command_accepted, command_remaining_time, command_run_status,
  contact_input_links, group_information, limitation_status, node_information,
  node_information_changed, password_changed_notification, product_group_result, scene_information,
  scene_list, scene_session_result, session_command_result, session_finished, status_accepted,
  status_notification, wink_finished,
}
use velux2mqtt.Types.Sessions
use velux2mqtt.Decode.Fields.{session_id, session_id_at, require, entries, try_entries}
use velux2mqtt.Types.FixedString.{decode_fixed_string}
use velux2mqtt.Prelude.{
  is_utf8, ◌+◌, ◌<◌, Bytes, ap, length, refl, suc, true, zero, ℕ, ◌≡◌, ◌≤◌, Option-split, arith,
  if_cases, some, ◌*◌, ltb,
}
use velux2mqtt.Error.{◌>>=◌, Result, ok}
use velux2mqtt.Decode.{decode}
use velux2mqtt.Decode.Arms.{Yields, after, Yields-ok, checked, carried, select-Yields, ◌▸◌, unless}
use velux2mqtt.Types.Records.{GroupInformation}
use velux2mqtt.Response.Nodes.{NodeInformation, CommandRunStatus, StatusNotification}
use velux2mqtt.Decode.Sound.Fields.{
  IsSound, sound, with_session, with_text, session_id-Yields, decode_fixed_string-Yields,
  length-entries,
}
use velux2mqtt.Decode.Sound.Families.{
  gateway-IsSound, configuration-IsSound, node_group-IsSound, command_extension-IsSound,
  activation_log-IsSound, scene_contact-IsSound,
}

module _ (command : ℕ) (payload : Bytes) where
  decode_node_information-IsSound :
      Yields
        (λ (i : NodeInformation). (length i.aliases ≤ 5) × (is_utf8 i.name ≡ true))
        (decode_node_information payload command)
  unfolding decode_node_information node_information_of
  decode_node_information-IsSound =
      let P = λ (i : NodeInformation). (length i.aliases ≤ 5) × (is_utf8 i.name ≡ true) in
      after P (require_exact payload 124 command) _ (λ u e.
        unless P (ltb 5 (byte_at payload 103)) _ _ (λ few.
          carried P (λ text. is_utf8 text ≡ true) (decode_fixed_string (slice payload 4 68)) _
            (decode_fixed_string-Yields (slice payload 4 68))
            (λ text t.
              (ground (arith, length-entries (alias_at payload) 104 4 (byte_at payload 103)), t))))

  decode_command_run_status-IsSound :
      Yields
        (λ (r : CommandRunStatus). 0 < r.session_id)
        (decode_command_run_status payload command)
  unfolding decode_command_run_status
  decode_command_run_status-IsSound =
      let P = λ (r : CommandRunStatus). 0 < r.session_id in
      after P (require_exact payload 13 command) _ (λ u e.
        carried P (λ session. 0 < session) (session_id payload command) _
          (session_id-Yields payload command) (λ session p. p))

  decode_status_notification-IsSound :
      Yields
        (λ (r : StatusNotification). 0 < r.session_id)
        (decode_status_notification payload command)
  unfolding decode_status_notification
  decode_status_notification-IsSound =
      let P = λ (r : StatusNotification). 0 < r.session_id in
      after P (require payload 7 command) _ (λ u e.
        after P (decode_detail payload command) _ (λ detail f.
          carried P (λ session. 0 < session) (session_id payload command) _
            (session_id-Yields payload command) (λ session p. p)))

  core-IsSound : Yields IsSound (decode_core command payload)
  unfolding decode_core decode_session_status decode_information_changed
  core-IsSound =
      select-Yields IsSound command (core_arms command payload) _
        ((λ h. sound (require_exact payload 0 command) _ (λ a. tt))
          ▸ (λ h. gateway-IsSound command payload)
          ▸ (λ h. sound (require_exact payload 2 command) _ (λ a. tt))
          ▸ (λ h. sound (require_exact payload 2 command) _ (λ a. tt))
          ▸ (λ h.
              carried IsSound
                (λ (i : NodeInformation). (length i.aliases ≤ 5) × (is_utf8 i.name ≡ true))
                (decode_node_information payload command) _ decode_node_information-IsSound
                (λ i s. s))
          ▸ (λ h.
              after IsSound (require_exact payload 69 command) _
                (λ u e. with_text command payload (slice payload 1 65) _ (λ text t. t)))
          ▸ (λ h. sound (decode_node_state payload command) _ (λ a. tt))
          ▸ (λ h.
              after IsSound (require_exact payload 3 command) _
                (λ u e. with_session command payload _ (λ session p. p)))
          ▸ (λ h.
              carried IsSound (λ (r : CommandRunStatus). 0 < r.session_id)
                (decode_command_run_status payload command) _ decode_command_run_status-IsSound
                (λ r s. s))
          ▸ (λ h.
              after IsSound (require_exact payload 6 command) _
                (λ u e. with_session command payload _ (λ session p. p)))
          ▸ (λ h.
              after IsSound (require_exact payload 2 command) _
                (λ u e. with_session command payload _ (λ session p. p)))
          ▸ (λ h.
              after IsSound (require_exact payload 3 command) _
                (λ u e. with_session command payload _ (λ session p. p)))
          ▸ (λ h.
              carried IsSound (λ (r : StatusNotification). 0 < r.session_id)
                (decode_status_notification payload command) _ decode_status_notification-IsSound
                (λ r s. s))
          ▸ tt)
        tt

-- Every response that a frame is decoded to is sound: no session in it is zero, its scenes, nodes,
-- links and aliases are at most as many as its kind allows, and its names, those of listed scenes and of a changed group
-- included, and its password are text.
pub decode-IsSound :
    (frame : Frame) {response : Response} → decode frame ≡ ok response → IsSound response
decode-IsSound frame h =
    let command = frame.command in
    let payload = frame.payload in
    Yields-ok IsSound (decode frame)
      (decode-Yields IsSound command payload (configuration-IsSound command payload)
        (node_group-IsSound command payload) (command_extension-IsSound command payload)
        (scene_contact-IsSound command payload) (activation_log-IsSound command payload)
        (core-IsSound command payload) frame refl refl)
      h
