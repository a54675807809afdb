-- ===== src/Decode/Sound/Families.antt =====
-- What the decoders of each family of responses can be relied on for.
use velux2mqtt.Decode.Configuration.{
  decode_configuration, configuration_arms, decode_system_table_data, decode_discovery_result,
  decode_activation_result,
}
use velux2mqtt.Decode.Groups.{
  decode_node_group, node_group_arms, decode_group_change, changed_information,
  decode_group_information,
}
use velux2mqtt.Decode.Commands.{
  decode_command_extension, command_extension_arms, decode_limitation_status,
}
use velux2mqtt.Decode.Logs.{decode_activation_log, activation_log_arms, decode_log_entry}
use velux2mqtt.Decode.Scenes.{
  decode_scene_contact, scene_contact_arms, decode_scene_list, decode_scene_information,
  decode_contact_input_links, decode_contact_input_link, scene_summary_at, scene_node_at,
}
use velux2mqtt.Decode.Fields.{require_exact, byte_at, slice}
use velux2mqtt.Decode.Gateway.{
  decode_version, decode_gateway, decode_network_setup, decode_local_time, decode_password_changed,
  gateway_arms,
}
use velux2mqtt.Decode.Fields.{require, try_entries}
use velux2mqtt.Types.FixedString.{decode_fixed_string}
use velux2mqtt.Prelude.{
  is_utf8, ◌+◌, Bytes, length, true, ℕ, ◌≡◌, arith, ◌*◌, ltb, ◌==◌, All, drop, if_both,
}
use velux2mqtt.Response.Scenes.{SceneSummary}
use velux2mqtt.Decode.Sound.Fields.{IsNamed}
use velux2mqtt.Decode.Arms.{checked, Yields, after, carried, select-Yields, ◌▸◌, unless}
use velux2mqtt.Types.Records.{GroupInformation}
use velux2mqtt.Decode.Sound.Fields.{
  IsSound, sound, with_session, with_session_at, with_text, decode_fixed_string-Yields,
  length-entries, try_entries-Yields,
}

abbrev IsTitled : SceneSummary → Type 0
IsTitled scene = is_utf8 scene.name ≡ true

module _ (command : ℕ) (payload : Bytes) where
  pub gateway-IsSound : Yields IsSound (decode_gateway command payload)
  unfolding decode_gateway decode_network_setup decode_local_time decode_password_changed
  gateway-IsSound =
      select-Yields IsSound command (gateway_arms command payload) _
        ((λ h. sound (require_exact payload 1 command) _ (λ a. tt))
          ▸ (λ h. sound (require_exact payload 0 command) _ (λ a. tt))
          ▸ (λ h. sound (require_exact payload 1 command) _ (λ a. tt))
          ▸ (λ h. sound (require_exact payload 1 command) _ (λ a. tt))
          ▸ (λ h.
              after IsSound (require_exact payload 32 command) _
                (λ u e. with_text command payload payload _ (λ text t. t)))
          ▸ (λ h. sound (decode_version payload command) _ (λ a. tt))
          ▸ (λ h. sound (require_exact payload 4 command) _ (λ a. tt))
          ▸ (λ h. sound (require_exact payload 6 command) _ (λ a. tt))
          ▸ (λ h. sound (require_exact payload 1 command) _ (λ a. tt))
          ▸ (λ h. sound (require_exact payload 13 command) _ (λ a. tt))
          ▸ (λ h. sound (require_exact payload 15 command) _ (λ a. tt))
          ▸ tt)
        tt

  pub configuration-IsSound : Yields IsSound (decode_configuration command payload)
  unfolding decode_configuration decode_system_table_data decode_discovery_result
      decode_activation_result
  configuration-IsSound =
      select-Yields IsSound command (configuration_arms command payload) _
        ((λ h. sound (require_exact payload 0 command) _ (λ a. tt))
          ▸ (λ h. after IsSound (require payload 2 command) _ (λ u e.
              sound (require_exact payload (2 + byte_at payload 0 * 11) command) _ (λ a. tt)))
          ▸ (λ h. sound (require_exact payload 131 command) _ (λ a. tt))
          ▸ (λ h. sound (require_exact payload 1 command) _ (λ a. tt))
          ▸ (λ h. sound (require_exact payload 2 command) _ (λ a. tt))
          ▸ (λ h. sound (require_exact payload 53 command) _ (λ a. tt))
          ▸ (λ h. sound (require_exact payload 3 command) _ (λ a. tt))
          ▸ (λ h. sound (require_exact payload 52 command) _ (λ a. tt))
          ▸ (λ h. sound (require_exact payload 79 command) _ (λ a. tt))
          ▸ tt)
        tt

  decode_group_information-IsSound :
      (payload : Bytes)
      → Yields
          (λ (group : GroupInformation). is_utf8 group.name ≡ true)
          (decode_group_information payload command)
  unfolding decode_group_information
  decode_group_information-IsSound payload =
      after (λ (group : GroupInformation). is_utf8 group.name ≡ true)
        (require_exact payload 99 command) _
        (λ u e.
          carried (λ (group : GroupInformation). is_utf8 group.name ≡ true)
            (λ text. is_utf8 text ≡ true) (decode_fixed_string (slice payload 4 68)) _
            (decode_fixed_string-Yields (slice payload 4 68)) (λ text t. t))

  changed-IsNamed : Yields IsNamed (changed_information payload command)
  unfolding changed_information
  changed-IsNamed =
      if_both (Yields IsNamed) (byte_at payload 0 == 1)
        (after IsNamed (require_exact payload 100 command) _ (λ u e.
          carried IsNamed (λ (group : GroupInformation). is_utf8 group.name ≡ true)
            (decode_group_information (drop 1 payload) command) _
            (decode_group_information-IsSound (drop 1 payload)) (λ group g. g)))
        (checked IsNamed (require_exact payload 2 command) (λ u. tt))

  pub node_group-IsSound : Yields IsSound (decode_node_group command payload)
  unfolding decode_node_group decode_group_change
  node_group-IsSound =
      select-Yields IsSound command (node_group_arms command payload) _
        ((λ h. sound (require_exact payload 2 command) _ (λ a. tt))
          ▸ (λ h. sound (require_exact payload 2 command) _ (λ a. tt))
          ▸ (λ h. sound (require_exact payload 2 command) _ (λ a. tt))
          ▸ (λ h.
              carried IsSound (λ (group : GroupInformation). is_utf8 group.name ≡ true)
                (decode_group_information payload command) _
                (decode_group_information-IsSound payload) (λ group g. g))
          ▸ (λ h. after IsSound (require payload 2 command) _ (λ u e.
              carried IsSound IsNamed (changed_information payload command) _ changed-IsNamed
                (λ information named. named)))
          ▸ (λ h. sound (require_exact payload 2 command) _ (λ a. tt))
          ▸ (λ h. sound (require_exact payload 0 command) _ (λ a. tt))
          ▸ (λ h. sound (require_exact payload 1 command) _ (λ a. tt))
          ▸ tt)
        tt

  pub command_extension-IsSound : Yields IsSound (decode_command_extension command payload)
  unfolding decode_command_extension decode_limitation_status
  command_extension-IsSound =
      select-Yields IsSound command (command_extension_arms command payload) _
        ((λ h.
            after IsSound (require_exact payload 3 command) _
              (λ u e. with_session command payload _ (λ session p. p)))
          ▸ (λ h.
              after IsSound (require_exact payload 2 command) _
                (λ u e. with_session command payload _ (λ session p. p)))
          ▸ (λ h.
              after IsSound (require_exact payload 10 command) _
                (λ u e. with_session command payload _ (λ session p. p)))
          ▸ (λ h. tt)
          ▸ tt)
        tt

  pub activation_log-IsSound : Yields IsSound (decode_activation_log command payload)
  unfolding decode_activation_log decode_log_entry
  activation_log-IsSound =
      select-Yields IsSound command (activation_log_arms command payload) _
        ((λ h. sound (require_exact payload 4 command) _ (λ a. tt))
          ▸ (λ h. sound (require_exact payload 0 command) _ (λ a. tt))
          ▸ (λ h.
              after IsSound (require_exact payload 17 command) _
                (λ u e. with_session_at command payload 4 _ (λ session p. p)))
          ▸ (λ h. sound (require_exact payload 3 command) _ (λ a. tt))
          ▸ tt)
        tt

  scene_summary-IsTitled : (offset : ℕ) → Yields IsTitled (scene_summary_at payload offset)
  unfolding scene_summary_at
  scene_summary-IsTitled offset =
      carried IsTitled (λ text. is_utf8 text ≡ true)
        (decode_fixed_string (slice payload (offset + 1) (offset + 65))) _
        (decode_fixed_string-Yields (slice payload (offset + 1) (offset + 65))) (λ text t. t)

  pub scene_contact-IsSound : Yields IsSound (decode_scene_contact command payload)
  unfolding decode_scene_contact decode_scene_list decode_scene_information
      decode_contact_input_links
  scene_contact-IsSound =
      select-Yields IsSound command (scene_contact_arms command payload) _
        ((λ h. sound (require_exact payload 1 command) _ (λ a. tt))
          ▸ (λ h. sound (require_exact payload 26 command) _ (λ a. tt))
          ▸ (λ h. sound (require_exact payload 2 command) _ (λ a. tt))
          ▸ (λ h. sound (require_exact payload 1 command) _ (λ a. tt))
          ▸ (λ h. after IsSound (require payload 2 command) _ (λ u e.
              unless IsSound (ltb 3 (byte_at payload 0)) _ _ (λ few.
                after IsSound (require_exact payload (2 + byte_at payload 0 * 65) command) _ (λ v f.
                  carried IsSound
                    (λ scenes. (length scenes ≡ byte_at payload 0) × All IsTitled scenes)
                    (try_entries (scene_summary_at payload) 1 65 (byte_at payload 0)) _
                    (try_entries-Yields IsTitled (scene_summary_at payload) 1 65 (byte_at payload 0)
                      scene_summary-IsTitled)
                    (λ scenes (n, titled). (ground (arith, n), titled))))))
          ▸ (λ h. after IsSound (require payload 67 command) _ (λ u e.
              unless IsSound (ltb 45 (byte_at payload 65)) _ _ (λ few.
                after IsSound (require_exact payload (67 + byte_at payload 65 * 4) command) _
                  (λ v f. with_text command payload (slice payload 1 65) _ (λ text t. (
                    ground
                        (arith, length-entries (scene_node_at payload) 66 4 (byte_at payload 65)),
                    t,
                  ))))))
          ▸ (λ h.
              after IsSound (require_exact payload 3 command) _
                (λ u e. with_session_at command payload 1 _ (λ session p. p)))
          ▸ (λ h. sound (require_exact payload 2 command) _ (λ a. tt))
          ▸ (λ h.
              after IsSound (require_exact payload 3 command) _
                (λ u e. with_session command payload _ (λ session p. p)))
          ▸ (λ h. tt)
          ▸ (λ h. after IsSound (require payload 1 command) _ (λ u e.
              unless IsSound (ltb 10 (byte_at payload 0)) _ _ (λ few.
                sound (require_exact payload (1 + byte_at payload 0 * 17) command) _ (λ v. ground (
                  arith,
                  length-entries (decode_contact_input_link payload) 1 17 (byte_at payload 0),
                )))))
          ▸ (λ h. sound (require_exact payload 2 command) _ (λ a. tt))
          ▸ tt)
        tt
