-- ===== src/Connection/Identity.antt =====
-- The command that a response is read back to is the one of the frame that it was decoded from.
use velux2mqtt.Decode.{decode}
use velux2mqtt.Error.{◌>>=◌, Result, ok}
use velux2mqtt.Prelude.{Bytes, [], arith, inl, refl, true, ℕ, ◌∙◌, ◌∷◌, ◌≡◌, ◌⊎◌, ◌*◌, ◌+◌, ltb}
use velux2mqtt.Response.{Response, node_information}
use velux2mqtt.Decode.Gateway.{
  decode_gateway, decode_network_setup, decode_local_time, decode_password_changed, gateway_arms,
}
use velux2mqtt.Decode.Configuration.{
  decode_configuration, decode_system_table_data, decode_discovery_result, decode_activation_result,
  configuration_arms,
}
use velux2mqtt.Decode.Groups.{
  decode_node_group, decode_group_change, node_group_arms, changed_information,
}
use velux2mqtt.Decode.Commands.{
  decode_command_extension, decode_limitation_status, command_extension_arms,
}
use velux2mqtt.Decode.Scenes.{
  decode_scene_contact, decode_scene_list, decode_scene_information, decode_contact_input_links,
  scene_contact_arms, scene_summary_at,
}
use velux2mqtt.Decode.Logs.{decode_activation_log, decode_log_entry, activation_log_arms}
use velux2mqtt.Prelude.Maps.{mem}
use velux2mqtt.Decode.Core.{
  decode_core, decode_session_status, decode_information_changed, core_arms,
}
use velux2mqtt.Frame.{Frame}
use velux2mqtt.Connection.Commands.{response_command}
use velux2mqtt.CommandId.Constants.{gw_get_node_information_ntf, gw_get_all_nodes_information_ntf}
use velux2mqtt.Decode.Arms.{Yields, checked, after, select-Yields, mem_one, Yields-ok, ◌▸◌, unless}
use velux2mqtt.Response.Nodes.{NodeInformation}
use velux2mqtt.Decode.Fields.{
  require_exact, require, byte_at, session_id, session_id_at, try_entries, slice,
}
use velux2mqtt.Types.FixedString.{decode_fixed_string}
use velux2mqtt.Decode.Nodes.{decode_node_information}
use velux2mqtt.Decode.Ranges.{decode-Yields}

-- The command of the response is the given one, or the response is the information about a node,
-- which is read back to the notification for all nodes.
abbrev pub Names : ℕ → Response → Type 0
Names command response =
    (response_command response ≡ command)
    ⊎ ((command ≡ gw_get_node_information_ntf)
        × (response_command response ≡ gw_get_all_nodes_information_ntf))

-- An arm of one alternative, whose responses are read back to it, and one whose responses keep the
-- command.
one :
    {A : Type 0} {id : ℕ} (command : ℕ) (m : Result A) (value : A → Response)
    → mem (id ∷ []) command ≡ true
    → ((a : A) → response_command (value a) ≡ id)
    → Yields (Names command) (m >>= λ (a : A). ok (value a))
one command m value h e = checked _ m (λ a. inl (e a ∙ mem_one _ _ h))

keeps :
    {A : Type 0} (command : ℕ) (m : Result A) (value : A → Response)
    → ((a : A) → response_command (value a) ≡ command)
    → Yields (Names command) (m >>= λ (a : A). ok (value a))
keeps command m value e = checked _ m (λ a. inl (e a))

module _ (command : ℕ) (payload : Bytes) where
  gateway-Names : Yields (Names command) (decode_gateway command payload)
  unfolding decode_gateway response_command decode_network_setup decode_local_time
      decode_password_changed
  gateway-Names =
      select-Yields (Names command) command (gateway_arms command payload) _
        ((λ h. one _ _ _ h (λ a. refl))
          ▸ (λ h. keeps _ _ _ (λ a. refl))
          ▸ (λ h. one _ _ _ h (λ a. refl))
          ▸ (λ h. one _ _ _ h (λ a. refl))
          ▸ (λ h.
              after (Names command) (require_exact payload 32 command) _
                (λ a ea. one command (decode_fixed_string payload) _ h (λ z. refl)))
          ▸ (λ h. one _ _ _ h (λ a. refl))
          ▸ (λ h. one _ _ _ h (λ a. refl))
          ▸ (λ h. one _ _ _ h (λ a. refl))
          ▸ (λ h. keeps _ _ _ (λ a. refl))
          ▸ (λ h. one command (require_exact payload 13 command) _ h (λ z. refl))
          ▸ (λ h. one command (require_exact payload 15 command) _ h (λ z. refl))
          ▸ tt)
        (inl refl)

  configuration-Names : Yields (Names command) (decode_configuration command payload)
  unfolding decode_configuration response_command decode_system_table_data decode_discovery_result
      decode_activation_result
  configuration-Names =
      select-Yields (Names command) command (configuration_arms command payload) _
        ((λ h. keeps _ _ _ (λ a. refl))
          ▸ (λ h. after (Names command) (require payload 2 command) _ (λ a ea.
              one command (require_exact payload (2 + byte_at payload 0 * 11) command) _ h
                (λ z. refl)))
          ▸ (λ h. one command (require_exact payload 131 command) _ h (λ z. refl))
          ▸ (λ h. one _ _ _ h (λ a. refl))
          ▸ (λ h. one _ _ _ h (λ a. refl))
          ▸ (λ h. keeps _ _ _ (λ a. refl))
          ▸ (λ h. one _ _ _ h (λ a. refl))
          ▸ (λ h. one _ _ _ h (λ a. refl))
          ▸ (λ h. one command (require_exact payload 79 command) _ h (λ z. refl))
          ▸ tt)
        (inl refl)

  node_group-Names : Yields (Names command) (decode_node_group command payload)
  unfolding decode_node_group response_command decode_group_change
  node_group-Names =
      select-Yields (Names command) command (node_group_arms command payload) _
        ((λ h. keeps _ _ _ (λ a. refl))
          ▸ (λ h. keeps _ _ _ (λ a. refl))
          ▸ (λ h. keeps _ _ _ (λ a. refl))
          ▸ (λ h. keeps _ _ _ (λ a. refl))
          ▸ (λ h.
              after (Names command) (require payload 2 command) _
                (λ a ea. one command (changed_information payload command) _ h (λ z. refl)))
          ▸ (λ h. one _ _ _ h (λ a. refl))
          ▸ (λ h. keeps _ _ _ (λ a. refl))
          ▸ (λ h. one _ _ _ h (λ a. refl))
          ▸ tt)
        (inl refl)

  command_extension-Names : Yields (Names command) (decode_command_extension command payload)
  unfolding decode_command_extension response_command decode_limitation_status
  command_extension-Names =
      select-Yields (Names command) command (command_extension_arms command payload) _
        ((λ h.
            after (Names command) (require_exact payload 3 command) _
              (λ a ea. keeps command (session_id payload command) _ (λ z. refl)))
          ▸ (λ h.
              after (Names command) (require_exact payload 2 command) _
                (λ a ea. one command (session_id payload command) _ h (λ z. refl)))
          ▸ (λ h.
              after (Names command) (require_exact payload 10 command) _
                (λ a ea. one command (session_id payload command) _ h (λ z. refl)))
          ▸ (λ h. inl (mem_one _ _ h))
          ▸ tt)
        (inl refl)

  scene_contact-Names : Yields (Names command) (decode_scene_contact command payload)
  unfolding decode_scene_contact response_command decode_scene_list decode_scene_information
      decode_contact_input_links
  scene_contact-Names =
      select-Yields (Names command) command (scene_contact_arms command payload) _
        ((λ h. keeps _ _ _ (λ a. refl))
          ▸ (λ h. one _ _ _ h (λ a. refl))
          ▸ (λ h. keeps _ _ _ (λ a. refl))
          ▸ (λ h. one _ _ _ h (λ a. refl))
          ▸ (λ h. after (Names command) (require payload 2 command) _ (λ a ea.
              unless (Names command) (ltb 3 (byte_at payload 0)) _ _ (λ few.
                after (Names command) (require_exact payload (2 + byte_at payload 0 * 65) command) _
                  (λ b eb.
                    one command (try_entries (scene_summary_at payload) 1 65 (byte_at payload 0)) _
                      h (λ z. refl)))))
          ▸ (λ h. after (Names command) (require payload 67 command) _ (λ a ea.
              unless (Names command) (ltb 45 (byte_at payload 65)) _ _ (λ few.
                after (Names command) (require_exact payload (67 + byte_at payload 65 * 4) command)
                  _
                  (λ b eb.
                    one command (decode_fixed_string (slice payload 1 65)) _ h (λ z. refl)))))
          ▸ (λ h.
              after (Names command) (require_exact payload 3 command) _
                (λ a ea. keeps command (session_id_at payload 1 command) _ (λ z. refl)))
          ▸ (λ h. one _ _ _ h (λ a. refl))
          ▸ (λ h.
              after (Names command) (require_exact payload 3 command) _
                (λ a ea. one command (session_id payload command) _ h (λ z. refl)))
          ▸ (λ h. inl (mem_one _ _ h))
          ▸ (λ h. after (Names command) (require payload 1 command) _ (λ a ea.
              unless (Names command) (ltb 10 (byte_at payload 0)) _ _ (λ few.
                one command (require_exact payload (1 + byte_at payload 0 * 17) command) _ h
                  (λ z. refl))))
          ▸ (λ h. keeps _ _ _ (λ a. refl))
          ▸ tt)
        (inl refl)

  activation_log-Names : Yields (Names command) (decode_activation_log command payload)
  unfolding decode_activation_log response_command decode_log_entry
  activation_log-Names =
      select-Yields (Names command) command (activation_log_arms command payload) _
        ((λ h. one _ _ _ h (λ a. refl))
          ▸ (λ h. keeps _ _ _ (λ a. refl))
          ▸ (λ h.
              after (Names command) (require_exact payload 17 command) _
                (λ a ea. keeps command (session_id_at payload 4 command) _ (λ z. refl)))
          ▸ (λ h. one _ _ _ h (λ a. refl))
          ▸ tt)
        (inl refl)

  information-Names :
      mem (gw_get_node_information_ntf ∷ gw_get_all_nodes_information_ntf ∷ []) command ≡ true
      → (information : NodeInformation) → Names command (node_information information)
  unfolding mem response_command
  information-Names h information = ground arith

  core-Names : Yields (Names command) (decode_core command payload)
  unfolding decode_core response_command decode_session_status decode_information_changed
  core-Names =
      select-Yields (Names command) command (core_arms command payload) _
        ((λ h. keeps _ _ _ (λ a. refl))
          ▸ (λ h. gateway-Names)
          ▸ (λ h. one _ _ _ h (λ a. refl))
          ▸ (λ h. one _ _ _ h (λ a. refl))
          ▸ (λ h.
              checked (Names command) (decode_node_information payload command)
                (λ information. information-Names h information))
          ▸ (λ h.
              after (Names command) (require_exact payload 69 command) _
                (λ a ea. one command (decode_fixed_string (slice payload 1 65)) _ h (λ z. refl)))
          ▸ (λ h. one _ _ _ h (λ a. refl))
          ▸ (λ h.
              after (Names command) (require_exact payload 3 command) _
                (λ a ea. one command (session_id payload command) _ h (λ z. refl)))
          ▸ (λ h. one _ _ _ h (λ a. refl))
          ▸ (λ h.
              after (Names command) (require_exact payload 6 command) _
                (λ a ea. one command (session_id payload command) _ h (λ z. refl)))
          ▸ (λ h.
              after (Names command) (require_exact payload 2 command) _
                (λ a ea. one command (session_id payload command) _ h (λ z. refl)))
          ▸ (λ h.
              after (Names command) (require_exact payload 3 command) _
                (λ a ea. one command (session_id payload command) _ h (λ z. refl)))
          ▸ (λ h. one _ _ _ h (λ a. refl))
          ▸ tt)
        (inl refl)

decode-Names : (frame : Frame) → Yields (Names frame.command) (decode frame)
decode-Names frame =
    let command = frame.command in
    let payload = frame.payload in
    decode-Yields (Names command) command payload (configuration-Names command payload)
      (node_group-Names command payload) (command_extension-Names command payload)
      (scene_contact-Names command payload) (activation_log-Names command payload)
      (core-Names command payload) frame refl refl

-- A response that was decoded from a frame is read back to the command of the frame. The only
-- exception is the information about a single node, which is read back to the notification that
-- carries it for all nodes.
pub response_command-decode :
    (frame : Frame) {response : Response}
    → decode frame ≡ ok response
    → (response_command response ≡ frame.command)
      ⊎ ((frame.command ≡ gw_get_node_information_ntf)
          × (response_command response ≡ gw_get_all_nodes_information_ntf))
response_command-decode frame h =
    Yields-ok (Names frame.command) (decode frame) (decode-Names frame) h
