-- ===== src/Command/Encode/Framing.antt =====
-- Requests of src/klf200/command.rs as frames on the wire.
use velux2mqtt.Command.Requests.{
  wink, set_limitation, get_limitation_status, mode, get_line, get_header, clear, get_lines_since,
  initialize_scene, cancel_scene_initialization, record_scene, delete_scene, rename_scene,
  get_scene_list, get_scene_information, activate_scene, stop_scene, activate_product_group,
  get_contact_input_links, set_contact_input_link, remove_contact_input_link,
}
use velux2mqtt.Command.Requests.{
  wink, set_limitation, get_limitation_status, mode, get_line, get_header, clear, get_lines_since,
  initialize_scene, cancel_scene_initialization, record_scene, delete_scene, rename_scene,
  get_scene_list, get_scene_information, activate_scene, stop_scene, activate_product_group,
  get_contact_input_links, set_contact_input_link, remove_contact_input_link, discover_nodes,
  remove_nodes, controller_copy, activate_configuration, configuration, node_group,
  command_extension, scene_contact, activation_log, set_node_variation, set_node_name,
  set_node_order_and_placement, get_group, set_group, delete_group, new_group, get_all_groups, raw,
  NodeGroupRequest, Request, ConfigurationRequest, CommandExtensionRequest, SceneContactRequest,
  ActivationLogRequest,
}
use velux2mqtt.Prelude.{
  arith, length, ◌≤◌, Bytes, ℕ, ◌≡◌, ◌+◌, ◌<◌, [], ap, inl, length-append, sym, ◌∙◌, ◌∷◌, refl,
}
use velux2mqtt.Frame
use velux2mqtt.Frame.{max_payload_length, Frame, klf_protocol_id, envelope, checksum}
use velux2mqtt.Slip
use velux2mqtt.Command.Encode.Protocol.{
  node_group_length, payload_length, configuration_length, command_extension_length,
  scene_contact_length, activation_log_length, HasTargets,
}
use velux2mqtt.Error.{Result, err, ok, ◌>>=◌, ok_inj, IsOk}
use velux2mqtt.Command.Encode.Lengths.{HasLength, encode_payload-HasLength}
use velux2mqtt.Command.Encode.{encode_request, command_id, encode_payload}
use velux2mqtt.Slip.{push, default_max_frame_length, Round}
use velux2mqtt.Frame.RoundTrip.{decode-encode, encode-IsOk_iff}
use velux2mqtt.Slip.RoundTrip.{Fits, push-encode}

-- A raw payload fits a frame; the others do by their lengths.
abbrev pub IsSmall : Request → Type 0
IsSmall (raw _ payload) = length payload ≤ max_payload_length
IsSmall _ = Unit

node_group_small : (r : NodeGroupRequest) → node_group_length r ≤ 252
node_group_small (set_node_variation _ _) = omega arith
node_group_small (set_node_name _ _) = omega arith
node_group_small (set_node_order_and_placement _ _ _) = omega arith
node_group_small (get_group _) = omega arith
node_group_small (set_group _) = omega arith
node_group_small (delete_group _) = omega arith
node_group_small (new_group _) = omega arith
node_group_small (get_all_groups _ _) = omega arith

configuration_small : (r : ConfigurationRequest) → configuration_length r ≤ 252
configuration_small (discover_nodes _) = omega arith
configuration_small (controller_copy _) = omega arith
configuration_small (remove_nodes _) = omega arith
configuration_small (activate_configuration _) = omega arith
configuration_small _ = omega arith

command_extension_small : (r : CommandExtensionRequest) → command_extension_length r ≤ 252
command_extension_small (wink _) = omega arith
command_extension_small (set_limitation _) = omega arith
command_extension_small (get_limitation_status _) = omega arith
command_extension_small (mode _) = omega arith

scene_contact_small : (r : SceneContactRequest) → scene_contact_length r ≤ 252
scene_contact_small initialize_scene = omega arith
scene_contact_small cancel_scene_initialization = omega arith
scene_contact_small (record_scene _) = omega arith
scene_contact_small (delete_scene _) = omega arith
scene_contact_small (rename_scene _ _) = omega arith
scene_contact_small get_scene_list = omega arith
scene_contact_small (get_scene_information _) = omega arith
scene_contact_small (activate_scene _) = omega arith
scene_contact_small (stop_scene _) = omega arith
scene_contact_small (activate_product_group _) = omega arith
scene_contact_small get_contact_input_links = omega arith
scene_contact_small (set_contact_input_link _) = omega arith
scene_contact_small (remove_contact_input_link _) = omega arith

activation_log_small : (r : ActivationLogRequest) → activation_log_length r ≤ 252
activation_log_small get_header = omega arith
activation_log_small clear = omega arith
activation_log_small (get_line _) = omega arith
activation_log_small (get_lines_since _) = omega arith

payload_small : (r : Request) → IsSmall r → payload_length r ≤ 252
payload_small (configuration r) h = configuration_small r
payload_small (node_group r) h = node_group_small r
payload_small (command_extension r) h = command_extension_small r
payload_small (scene_contact r) h = scene_contact_small r
payload_small (activation_log r) h = activation_log_small r
payload_small (raw _ payload) h = h
payload_small _ h = omega arith

frame_of :
    (command : ℕ) (payload : Result Bytes) {f : Frame} (n : ℕ)
    → HasLength n payload
    → (payload >>= λ p. ok (Frame.new command p)) ≡ ok f
    → (f.command ≡ command) × (f.protocol_id ≡ klf_protocol_id) × (length f.payload ≡ n)
frame_of command (ok p) n h e =
    let same = ok_inj e in
    (
      ap (λ (g : Frame). g.command) (sym same),
      ap (λ (g : Frame). g.protocol_id) (sym same),
      ap (λ (g : Frame). length g.payload) (sym same) ∙ h,
    )
frame_of command (err x) n h e = cc

-- An encoded request has its own command identifier, the protocol identifier zero, and the payload
-- length that the protocol gives the request.
pub encode_request_lem :
    (r : Request) {f : Frame}
    → HasTargets r
    → encode_request r ≡ ok f
    → (f.command ≡ command_id r)
      × (f.protocol_id ≡ klf_protocol_id)
      × (length f.payload ≡ payload_length r)
unfolding encode_request
encode_request_lem r h e =
    frame_of (command_id r) (encode_payload r) (payload_length r) (encode_payload-HasLength r h) e

encoded_length :
    (f : Frame) {bytes : Bytes} → Frame.encode f ≡ ok bytes → length bytes ≡ length f.payload + 5
unfolding Frame.encode
encoded_length f e = ground (arith, length-append (envelope f) (checksum (envelope f) ∷ []))

IsOk-value {ℓ} : {A : Type ℓ} (r : Result A) → IsOk r → (a : A) × (r ≡ ok a)
IsOk-value (ok a) h = (a, refl)
IsOk-value (err e) h = absurd h

-- What arrives of a frame that was sent.
abbrev pub Arrives : Frame → Type 0
Arrives f =
    (bytes : Bytes) × (Frame.encode f ≡ ok bytes)
    × (Frame.decode bytes ≡ ok f)
    × ((push (Slip.new default_max_frame_length) (Slip.encode bytes)).1 ≡ ok bytes ∷ [])

sent-Fits :
    (bytes : Bytes) (n : ℕ) → length bytes ≡ n + 5 → n ≤ 252 → Fits default_max_frame_length bytes
sent-Fits [] n e h = absurd (omega arith)
sent-Fits (byte ∷ bytes) n e h = ((λ c. cc), omega arith)

frame-Arrives :
    (f : Frame)
    → f.command < 65536
    → f.protocol_id ≡ klf_protocol_id
    → length f.payload ≤ 252
    → Arrives f
frame-Arrives f lt zero_id le =
    let (bytes, sent) = IsOk-value (Frame.encode f) ((encode-IsOk_iff f).1 (zero_id, le)) in
    let fits = sent-Fits bytes (length f.payload) (encoded_length f sent) le in
    (
      bytes,
      sent,
      decode-encode f lt sent,
      ap (λ (round : Round). round.1)
          (push-encode default_max_frame_length (Slip.new default_max_frame_length) bytes (inl refl)
            fits),
    )

-- A request that is encoded arrives: its frame is encoded, a fresh decoder of the other side
-- delivers exactly the bytes of the frame from their SLIP encoding, and decoding them gives the
-- frame back. Targets are built by `CommandTarget::new`, a raw payload is at most 252 bytes long,
-- and the command is a `u16`.
pub request-Arrives :
    (r : Request) {f : Frame}
    → HasTargets r
    → IsSmall r
    → command_id r < 65536
    → encode_request r ≡ ok f
    → Arrives f
request-Arrives r {f} h small lt e =
    let (command, protocol, size) = encode_request_lem r h e in
    let fits = payload_small r small in frame-Arrives f (omega arith) protocol (omega arith)
