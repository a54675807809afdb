-- ===== src/Command/Encode/Lengths.antt =====
-- How long the payloads of src/klf200/command.rs are.
use velux2mqtt.Command.Payloads.{encode_activate_scene, encode_stop_scene}
use velux2mqtt.Prelude.{
  ◌++◌, Bool, Bytes, arith, false, length, length-append, length-replicate, length-take, refl,
  replicate, true, ℕ, ◌≡◌, if◌then◌else◌, if_cases, leb, ◌≤◌,
}
use velux2mqtt.Error.{Result, err, ok, unsupported_request, ◌>>=◌}
use velux2mqtt.Command.Requests.{
  wink, set_limitation, get_limitation_status, mode, record_scene, rename_scene,
  activate_product_group, set_contact_input_link, get_header, clear, get_line, get_lines_since,
  remove_nodes, activate_configuration, set_node_name, set_group, new_group, set_network_setup,
  set_time_zone, configuration, node_group, command_extension, scene_contact, activation_log,
  password_enter, password_change, command_send, status_request, raw, ConfigurationRequest,
  NodeGroupRequest, CommandExtensionRequest, SceneContactRequest, ActivationLogRequest, Request,
  WinkRequest, SetLimitationRequest, GetLimitationStatusRequest, ModeRequest,
  ProductGroupActivationRequest, CommandRequest, StatusRequestType,
}
use velux2mqtt.Command.Payloads.{
  slots, encode_network_setup, encode_node_set, encode_wink, encode_set_limitation,
  encode_get_limitation_status, packed_settings, encode_group_information, encode_mode,
  encode_new_group_information, encode_activate_product_group, encode_contact_input_link,
  encode_command_send, encode_status_request, validate_priority_settings,
}
use velux2mqtt.Command.Target.{CommandTarget}
use velux2mqtt.Command.Encode.{
  encode_configuration, encode_node_group, encode_command_extension, encode_scene_contact,
  encode_activation_log, encode_payload, encode_fixed_string, encode_activate_scene,
  encode_stop_scene, is_unsupported,
}
use velux2mqtt.Types.Records.{
  NetworkSetup, NodeSet, GroupInformation, NewGroupInformation, ContactInputLink,
}
use velux2mqtt.Command.Encode.Protocol.{
  IsTarget, configuration_length, node_group_length, command_extension_length, scene_contact_length,
  activation_log_length, HasTargets, payload_length,
}

pub length-slots : (n : ℕ) (bytes : Bytes) → length (slots n bytes) ≡ n
length-slots n bytes =
    length-take n (bytes ++ replicate n 0)
      (omega (arith, length-append bytes (replicate n 0), length-replicate {A = ℕ} n 0))

pub ruleset field_lengths = (length-append, length-slots)

length-network_setup : (s : NetworkSetup) → length (encode_network_setup s) ≡ 13
unfolding encode_network_setup
length-network_setup s = simp field_lengths

length-node_set : (s : NodeSet) → length (encode_node_set s) ≡ 26
unfolding encode_node_set
length-node_set s = simp field_lengths

length-wink : (r : WinkRequest) → length (encode_wink r) ≡ 27
unfolding encode_wink
length-wink r = simp field_lengths

length-set_limitation : (r : SetLimitationRequest) → length (encode_set_limitation r) ≡ 31
unfolding encode_set_limitation
length-set_limitation r = simp field_lengths

length-limitation_status :
    (r : GetLimitationStatusRequest) → length (encode_get_limitation_status r) ≡ 25
unfolding encode_get_limitation_status
length-limitation_status r = simp field_lengths

length-packed_settings :
    (lock : Bool) (settings : Bytes) → length (packed_settings lock settings) ≡ 2
unfolding packed_settings
length-packed_settings true settings = refl
length-packed_settings false settings = refl

-- A computed payload has the length, if there is one.
abbrev pub HasLength : ℕ → Result Bytes → Type 0
HasLength n (ok payload) = length payload ≡ n
HasLength n (err e) = Unit

after-HasLength {ℓ} :
    {A : Type ℓ} (n : ℕ) (m : Result A) (f : A → Bytes)
    → ((a : A) → length (f a) ≡ n)
    → HasLength n (m >>= λ a. ok (f a))
after-HasLength n (ok a) f h = h a
after-HasLength n (err e) f h = tt

pub encode_group_information-HasLength :
    (g : GroupInformation) → HasLength 99 (encode_group_information g)
unfolding encode_group_information
encode_group_information-HasLength g =
    after-HasLength 99 (encode_fixed_string 64 g.name) _ (λ name. simp field_lengths)

encode_mode-HasLength : (r : ModeRequest) → HasLength 31 (encode_mode r)
unfolding encode_mode
encode_mode-HasLength r =
    after-HasLength 31 (validate_priority_settings r.priority_level_settings) _
      (λ checked. simp (field_lengths, length-packed_settings))

encode_new_group_information-HasLength :
    (g : NewGroupInformation) → HasLength 96 (encode_new_group_information g)
unfolding encode_new_group_information
encode_new_group_information-HasLength g =
    after-HasLength 96 (encode_fixed_string 64 g.name) _ (λ name. simp field_lengths)

encode_activate_product_group-HasLength :
    (r : ProductGroupActivationRequest) → HasLength 13 (encode_activate_product_group r)
unfolding encode_activate_product_group
encode_activate_product_group-HasLength r =
    after-HasLength 13 (validate_priority_settings r.priority_level_settings) _
      (λ checked. simp (field_lengths, length-packed_settings))

encode_contact_input_link-HasLength :
    (link : ContactInputLink) → HasLength 17 (encode_contact_input_link link)
unfolding encode_contact_input_link
encode_contact_input_link-HasLength link =
    after-HasLength 17 (validate_priority_settings link.priority_level_settings) _
      (λ checked. simp field_lengths)

command_send_length :
    (command : CommandRequest) (target : CommandTarget)
    → IsTarget target
    → length (encode_command_send command target) ≡ 66
unfolding encode_command_send
command_send_length command target h =
    let few : leb (length target.nodes) 255 ≡ true = ground arith in simp (few, field_lengths)

status_request_length :
    (session_id : ℕ) (target : CommandTarget) (t : StatusRequestType)
    → IsTarget target
    → length (encode_status_request session_id target t) ≡ 26
unfolding encode_status_request
status_request_length session_id target t h =
    let few : leb (length target.nodes) 255 ≡ true = ground arith in simp (few, field_lengths)

configuration-length :
    (r : ConfigurationRequest) → length (encode_configuration r) ≡ configuration_length r
unfolding encode_configuration
configuration-length (remove_nodes nodes) = length-node_set nodes
configuration-length (activate_configuration nodes) = length-node_set nodes
configuration-length _ = refl

node_group-HasLength :
    (r : NodeGroupRequest) → HasLength (node_group_length r) (encode_node_group r)
unfolding encode_node_group
node_group-HasLength (set_node_name _ name) =
    after-HasLength 65 (encode_fixed_string 64 name) _ (λ field. simp field_lengths)
node_group-HasLength (set_group g) = encode_group_information-HasLength g
node_group-HasLength (new_group g) = encode_new_group_information-HasLength g
node_group-HasLength _ = refl

command_extension-HasLength :
    (r : CommandExtensionRequest)
    → HasLength (command_extension_length r) (encode_command_extension r)
unfolding encode_command_extension
command_extension-HasLength (wink r) = length-wink r
command_extension-HasLength (set_limitation r) = length-set_limitation r
command_extension-HasLength (get_limitation_status r) = length-limitation_status r
command_extension-HasLength (mode r) = encode_mode-HasLength r

scene_contact-HasLength :
    (r : SceneContactRequest) → HasLength (scene_contact_length r) (encode_scene_contact r)
unfolding encode_scene_contact encode_activate_scene encode_stop_scene
scene_contact-HasLength (record_scene name) =
    after-HasLength 64 (encode_fixed_string 64 name) _ (λ field. simp field_lengths)
scene_contact-HasLength (rename_scene _ name) =
    after-HasLength 65 (encode_fixed_string 64 name) _ (λ field. simp field_lengths)
scene_contact-HasLength (activate_product_group r) = encode_activate_product_group-HasLength r
scene_contact-HasLength (set_contact_input_link link) = encode_contact_input_link-HasLength link
scene_contact-HasLength _ = refl

activation_log-length :
    (r : ActivationLogRequest) → length (encode_activation_log r) ≡ activation_log_length r
unfolding encode_activation_log
activation_log-length get_header = refl
activation_log-length clear = refl
activation_log-length (get_line _) = refl
activation_log-length (get_lines_since _) = refl

passwords-HasLength :
    (m n : Result Bytes) → HasLength 64 (m >>= λ a. n >>= λ b. ok (slots 32 a ++ slots 32 b))
passwords-HasLength (ok a) n = after-HasLength 64 n _ (λ b. simp field_lengths)
passwords-HasLength (err e) n = tt

raw-HasLength :
    (b : Bool) (command : ℕ) (payload : Bytes)
    → HasLength (length payload) (if b then err (unsupported_request command) else ok payload)
raw-HasLength true command payload = tt
raw-HasLength false command payload = refl

-- Every payload has the length that the protocol gives its request, if the targets are ones that
-- `CommandTarget::new` builds.
pub encode_payload-HasLength :
    (r : Request) → HasTargets r → HasLength (payload_length r) (encode_payload r)
unfolding encode_payload
encode_payload-HasLength (set_network_setup s) h = length-network_setup s
encode_payload-HasLength (set_time_zone z) h =
    after-HasLength 64 (encode_fixed_string 64 z) _ (λ field. length-slots 64 field)
encode_payload-HasLength (configuration r) h = configuration-length r
encode_payload-HasLength (node_group r) h = node_group-HasLength r
encode_payload-HasLength (command_extension r) h = command_extension-HasLength r
encode_payload-HasLength (scene_contact r) h = scene_contact-HasLength r
encode_payload-HasLength (activation_log r) h = activation_log-length r
encode_payload-HasLength (password_enter p) h =
    after-HasLength 32 (encode_fixed_string 32 p) _ (λ field. length-slots 32 field)
encode_payload-HasLength (password_change current new) h =
    passwords-HasLength (encode_fixed_string 32 current) (encode_fixed_string 32 new)
encode_payload-HasLength (command_send command target) h = command_send_length command target h
encode_payload-HasLength (status_request session_id target t) h =
    status_request_length session_id target t h
encode_payload-HasLength (raw command payload) h =
    raw-HasLength (is_unsupported command) command payload
encode_payload-HasLength _ h = refl
