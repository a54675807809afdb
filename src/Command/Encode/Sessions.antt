-- ===== src/Command/Encode/Sessions.antt =====
-- Where src/klf200/command.rs writes the session of a request.
use velux2mqtt.Command.Payloads.{
  encode_activate_scene, encode_stop_scene, encode_activate_product_group, encode_wink,
  encode_set_limitation, encode_get_limitation_status, encode_mode, validate_priority_settings,
}
use velux2mqtt.Command.Requests.{
  wink, set_limitation, get_limitation_status, mode, activate_scene, stop_scene,
  activate_product_group, command_extension, scene_contact, command_send, status_request,
  CommandExtensionRequest, SceneContactRequest, Request, CommandRequest, StatusRequestType,
}
use velux2mqtt.Prelude.{
  Bytes, Option, arith, leb, length, none, refl, some, take, to_be_bytes, true, ℕ, ◌≡◌,
}
use velux2mqtt.Error.{Result, err, ok, ◌>>=◌}
use velux2mqtt.Command.Target.{CommandTarget}
use velux2mqtt.Command.Payloads.{encode_command_send, encode_status_request}
use velux2mqtt.Command.Encode.{
  encode_command_extension, encode_scene_contact, encode_payload, encode_wink,
  encode_activate_scene, request_session, encode_set_limitation, encode_stop_scene,
  encode_get_limitation_status, encode_activate_product_group, encode_mode, scene_contact_session,
  command_extension_session,
}
use velux2mqtt.Command.Encode.Protocol.{IsTarget, HasTargets}

-- A computed payload starts with these bytes, if there is one.
abbrev pub Starts : Bytes → Result Bytes → Type 0
Starts head (ok payload) = take (length head) payload ≡ head
Starts head (err e) = Unit

after-Starts {ℓ} :
    {A : Type ℓ} (head : Bytes) (m : Result A) (f : A → Bytes)
    → ((a : A) → take (length head) (f a) ≡ head)
    → Starts head (m >>= λ a. ok (f a))
after-Starts head (ok a) f h = h a
after-Starts head (err e) f h = tt

abbrev pub StartsWith : Option ℕ → Result Bytes → Type 0
StartsWith (some session_id) payload = Starts (to_be_bytes session_id) payload
StartsWith none payload = Unit

few_nodes : (target : CommandTarget) → IsTarget target → leb (length target.nodes) 255 ≡ true
few_nodes target h = ground arith

command_send-StartsWith :
    (command : CommandRequest) (target : CommandTarget)
    → IsTarget target
    → Starts (to_be_bytes command.session_id) (ok (encode_command_send command target))
unfolding encode_command_send
command_send-StartsWith command target h = rw (few_nodes target h)

status_request-StartsWith :
    (session_id : ℕ) (target : CommandTarget) (t : StatusRequestType)
    → IsTarget target
    → Starts (to_be_bytes session_id) (ok (encode_status_request session_id target t))
unfolding encode_status_request
status_request-StartsWith session_id target t h = rw (few_nodes target h)

extension-StartsWith :
    (r : CommandExtensionRequest)
    → Starts (to_be_bytes (command_extension_session r)) (encode_command_extension r)
unfolding encode_command_extension encode_wink encode_set_limitation encode_get_limitation_status
    encode_mode command_extension_session
extension-StartsWith (wink r) = refl
extension-StartsWith (set_limitation r) = refl
extension-StartsWith (get_limitation_status r) = refl
extension-StartsWith (mode r) =
    after-Starts (to_be_bytes r.session_id) (validate_priority_settings r.priority_level_settings) _
      (λ checked. refl)

scene-StartsWith :
    (r : SceneContactRequest) → StartsWith (scene_contact_session r) (encode_scene_contact r)
unfolding encode_scene_contact encode_activate_scene encode_stop_scene encode_activate_product_group
    scene_contact_session
scene-StartsWith (activate_scene r) = refl
scene-StartsWith (stop_scene r) = refl
scene-StartsWith (activate_product_group r) =
    after-Starts (to_be_bytes r.session_id) (validate_priority_settings r.priority_level_settings) _
      (λ checked. refl)
scene-StartsWith _ = tt

-- The payload of a request with a session starts with the two bytes of that session, if its
-- targets are ones that `CommandTarget::new` builds.
pub encode_payload-StartsWith :
    (r : Request) → HasTargets r → StartsWith (request_session r) (encode_payload r)
unfolding encode_payload request_session
encode_payload-StartsWith (command_send command target) h = command_send-StartsWith command target h
encode_payload-StartsWith (status_request session_id target t) h =
    status_request-StartsWith session_id target t h
encode_payload-StartsWith (command_extension r) h = extension-StartsWith r
encode_payload-StartsWith (scene_contact r) h = scene-StartsWith r
encode_payload-StartsWith _ h = tt
