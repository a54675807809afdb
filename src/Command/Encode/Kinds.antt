-- ===== src/Command/Encode/Kinds.antt =====
-- Which commands src/klf200/command.rs sends.
use velux2mqtt.Command.Requests.{
  wink, set_limitation, get_limitation_status, mode, initialize_scene, cancel_scene_initialization,
  record_scene, delete_scene, rename_scene, get_scene_list, get_scene_information, activate_scene,
  stop_scene, activate_product_group, get_contact_input_links, set_contact_input_link,
  remove_contact_input_link, get_header, clear, get_line, get_lines_since, get_system_table_data,
  discover_nodes, remove_nodes, virgin_state, controller_copy, receive_key, generate_new_key,
  repair_key, activate_configuration, set_node_variation, set_node_name,
  set_node_order_and_placement, get_group, set_group, delete_group, new_group, get_all_groups,
  reboot, set_factory_default, get_version, get_protocol_version, get_state, leave_learn_state,
  get_network_setup, set_network_setup, set_utc, set_time_zone, get_local_time, configuration,
  node_group, command_extension, scene_contact, activation_log, get_all_nodes_information,
  house_status_monitor_enable, house_status_monitor_disable, get_node_information, password_enter,
  password_change, command_send, status_request, raw, ConfigurationRequest, NodeGroupRequest,
  CommandExtensionRequest, SceneContactRequest, ActivationLogRequest, Request,
}
use velux2mqtt.Frame
use velux2mqtt.Error.{◌>>=◌}
use velux2mqtt.CommandId.{
  CommandKind, notification, confirmation, known, kind, request, expected_confirmation,
}
use velux2mqtt.CommandId.Table.{all_known_commands}
use velux2mqtt.Prelude.{
  Bytes, ap, none, refl, some, sym, ℕ, ◌↔◌, ◌∙◌, ◌≡◌, ◌&&◌, Bool, Option, if◌then◌else◌, false, not,
  true,
}
use velux2mqtt.Error.{Result, err, ok, ok_inj, unsupported_request}
use velux2mqtt.Command.Encode.{
  configuration_command_id, node_group_command_id, command_extension_command_id,
  scene_contact_command_id, activation_log_command_id, command_id, encode_request, encode_payload,
  is_unsupported, KnownCommand, is_known, is_request,
}
use velux2mqtt.Frame.{Frame}
use velux2mqtt.CommandId.Laws.{request-expected_confirmation, expected_confirmation-kind}

-- A request with a command of its own.
abbrev pub IsTyped : Request → Type 0
IsTyped (raw _ _) = ⊥
IsTyped _ = Unit

kind-configuration_command_id :
    (r : ConfigurationRequest) → kind (configuration_command_id r) ≡ request
unfolding kind known all_known_commands configuration_command_id
kind-configuration_command_id get_system_table_data = refl
kind-configuration_command_id (discover_nodes _) = refl
kind-configuration_command_id (remove_nodes _) = refl
kind-configuration_command_id virgin_state = refl
kind-configuration_command_id (controller_copy _) = refl
kind-configuration_command_id receive_key = refl
kind-configuration_command_id generate_new_key = refl
kind-configuration_command_id repair_key = refl
kind-configuration_command_id (activate_configuration _) = refl

kind-node_group_command_id : (r : NodeGroupRequest) → kind (node_group_command_id r) ≡ request
unfolding kind known all_known_commands node_group_command_id
kind-node_group_command_id (set_node_variation _ _) = refl
kind-node_group_command_id (set_node_name _ _) = refl
kind-node_group_command_id (set_node_order_and_placement _ _ _) = refl
kind-node_group_command_id (get_group _) = refl
kind-node_group_command_id (set_group _) = refl
kind-node_group_command_id (delete_group _) = refl
kind-node_group_command_id (new_group _) = refl
kind-node_group_command_id (get_all_groups _ _) = refl

kind-command_extension_command_id :
    (r : CommandExtensionRequest) → kind (command_extension_command_id r) ≡ request
unfolding kind known all_known_commands command_extension_command_id
kind-command_extension_command_id (wink _) = refl
kind-command_extension_command_id (set_limitation _) = refl
kind-command_extension_command_id (get_limitation_status _) = refl
kind-command_extension_command_id (mode _) = refl

kind-scene_contact_command_id :
    (r : SceneContactRequest) → kind (scene_contact_command_id r) ≡ request
unfolding kind known all_known_commands scene_contact_command_id
kind-scene_contact_command_id initialize_scene = refl
kind-scene_contact_command_id cancel_scene_initialization = refl
kind-scene_contact_command_id (record_scene _) = refl
kind-scene_contact_command_id (delete_scene _) = refl
kind-scene_contact_command_id (rename_scene _ _) = refl
kind-scene_contact_command_id get_scene_list = refl
kind-scene_contact_command_id (get_scene_information _) = refl
kind-scene_contact_command_id (activate_scene _) = refl
kind-scene_contact_command_id (stop_scene _) = refl
kind-scene_contact_command_id (activate_product_group _) = refl
kind-scene_contact_command_id get_contact_input_links = refl
kind-scene_contact_command_id (set_contact_input_link _) = refl
kind-scene_contact_command_id (remove_contact_input_link _) = refl

kind-activation_log_command_id :
    (r : ActivationLogRequest) → kind (activation_log_command_id r) ≡ request
unfolding kind known all_known_commands activation_log_command_id
kind-activation_log_command_id get_header = refl
kind-activation_log_command_id clear = refl
kind-activation_log_command_id (get_line _) = refl
kind-activation_log_command_id (get_lines_since _) = refl

kind-command_id : (r : Request) → IsTyped r → kind (command_id r) ≡ request
unfolding kind known all_known_commands command_id
kind-command_id reboot h = refl
kind-command_id set_factory_default h = refl
kind-command_id get_version h = refl
kind-command_id get_protocol_version h = refl
kind-command_id get_state h = refl
kind-command_id leave_learn_state h = refl
kind-command_id get_network_setup h = refl
kind-command_id (set_network_setup _) h = refl
kind-command_id (set_utc _) h = refl
kind-command_id (set_time_zone _) h = refl
kind-command_id get_local_time h = refl
kind-command_id (configuration inner) h = kind-configuration_command_id inner
kind-command_id (node_group inner) h = kind-node_group_command_id inner
kind-command_id (command_extension inner) h = kind-command_extension_command_id inner
kind-command_id (scene_contact inner) h = kind-scene_contact_command_id inner
kind-command_id (activation_log inner) h = kind-activation_log_command_id inner
kind-command_id get_all_nodes_information h = refl
kind-command_id house_status_monitor_enable h = refl
kind-command_id house_status_monitor_disable h = refl
kind-command_id (get_node_information _) h = refl
kind-command_id (password_enter _) h = refl
kind-command_id (password_change _ _) h = refl
kind-command_id (command_send _ _) h = refl
kind-command_id (status_request _ _ _) h = refl
kind-command_id (raw _ _) h = absurd h

framed_command :
    (command : ℕ) (payload : Result Bytes) {f : Frame}
    → (payload >>= λ p. ok (Frame.new command p)) ≡ ok f
    → f.command ≡ command
framed_command command (ok p) e = ap (λ (g : Frame). g.command) (sym (ok_inj e))
framed_command command (err x) e = cc

-- What is sent for a request with a command of its own is a request that has an expected
-- confirmation, and that is a confirmation.
pub request_expects :
    (r : Request) {f : Frame}
    → IsTyped r
    → encode_request r ≡ ok f
    → (kind f.command ≡ request)
      × ((c : ℕ) × (expected_confirmation f.command ≡ some c) × (kind c ≡ confirmation))
unfolding encode_request
request_expects r {f} typed e =
    let command = framed_command (command_id r) (encode_payload r) e in
    let sends : kind f.command ≡ request = ap kind command ∙ kind-command_id r typed in
    let (c, expects) = request-expected_confirmation f.command sends in
    (sends, (c, expects, (expected_confirmation-kind f.command expects).1))

unsupported_cases :
    (entry : Option KnownCommand) (k : CommandKind)
    → ((is_known entry && not (is_request k)) ≡ true) ↔ (¬ (entry ≡ none) × ¬ (k ≡ request))
unsupported_cases none k = (λ e. cc, λ (a, b). absurd (a refl))
unsupported_cases (some entry) request = (λ e. cc, λ (a, b). absurd (b refl))
unsupported_cases (some entry) confirmation = (λ e. ((λ x. cc), (λ x. cc)), λ h. refl)
unsupported_cases (some entry) notification = (λ e. ((λ x. cc), (λ x. cc)), λ h. refl)
unsupported_cases (some entry) CommandKind.unknown = (λ e. ((λ x. cc), (λ x. cc)), λ h. refl)

refused_iff :
    (b : Bool) (command : ℕ) (payload : Bytes)
    → (((if b then err (unsupported_request command) else ok payload) >>= λ p.
          ok (Frame.new command p))
        ≡ err (unsupported_request command))
      ↔ (b ≡ true)
refused_iff true command payload = (λ e. refl, λ h. refl)
refused_iff false command payload = (λ e. cc, λ h. cc)

-- A raw request is refused exactly if its command is known and no request.
pub raw-refused_iff :
    (command : ℕ) (payload : Bytes)
    → (encode_request (raw command payload) ≡ err (unsupported_request command))
      ↔ (¬ (known command ≡ none) × ¬ (kind command ≡ request))
unfolding encode_request encode_payload is_unsupported command_id
raw-refused_iff command payload =
    let refused = refused_iff (is_unsupported command) command payload in
    let cases = unsupported_cases (known command) (kind command) in
    (λ e. cases.0 (refused.0 e), λ h. refused.1 (cases.1 h))
