-- ===== src/Command/Payloads.antt =====
-- src/klf200/command.rs: the payloads of the single requests. The source writes each field into a
-- buffer of zeros; here a payload is its fields from left to right. An array has the length that its
-- type says and is copied whole.
use velux2mqtt.Error.{◌>>=◌}
use velux2mqtt.Types.Position.{to_raw, StandardParameter}
use velux2mqtt.Command.Requests.{
  target_position, current_position, remaining_time, main_information, WinkRequest,
  SetLimitationRequest, GetLimitationStatusRequest, ModeRequest, SceneActivationRequest,
  SceneStopRequest, ProductGroupActivationRequest, CommandRequest, StatusRequestType,
}
use velux2mqtt.Prelude.{
  ◌%◌, ◌*◌, ◌++◌, ◌/◌, Bool, Bytes, [], drop, if◌then◌else◌, false, leb, length, ltb, replicate,
  take, to_be_bytes, true, ◌||◌, ℕ, ◌∷◌,
}
use velux2mqtt.Error.{Result, err, invalid_request, ok}
use velux2mqtt.Command.Target.{CommandTarget}
use velux2mqtt.Types.Records.{
  NetworkSetup, NodeSet, GroupInformation, NewGroupInformation, ContactInputLink,
}
use Prim.Native.Nat.{bit_or}
use velux2mqtt.Types.FixedString.{encode_fixed_string}

-- What writing the bytes into `n` zero bytes leaves there.
abbrev pub slots : ℕ → Bytes → Bytes
slots n bytes = take n (bytes ++ replicate n 0)

abbrev pub bool_byte : Bool → ℕ
bool_byte true = 1
bool_byte false = 0

abbrev pub raw_bytes : StandardParameter → Bytes
raw_bytes p = to_be_bytes (to_raw p)

-- `u32::to_be_bytes`
abbrev pub u32_to_be_bytes : ℕ → Bytes
u32_to_be_bytes n = n / 16777216 % 256 ∷ (n / 65536 % 256) ∷ to_be_bytes n

-- `encode_target`: the count that it returns, and the 20 bytes that it writes.
abbrev pub target_count : CommandTarget → ℕ
target_count target = if leb (length target.nodes) 255 then length target.nodes else 0

abbrev pub target_slots : CommandTarget → Bytes
target_slots target = slots 20 target.nodes

unfoldable pub encode_network_setup : NetworkSetup → Bytes
encode_network_setup setup =
    slots 4 setup.ip_address
    ++ slots 4 setup.subnet_mask
    ++ slots 4 setup.default_gateway
    ++ (bool_byte setup.dhcp ∷ [])

unfoldable pub encode_node_set : NodeSet → Bytes
encode_node_set nodes = slots 25 nodes.actuators.bytes ++ (nodes.beacons.byte ∷ [])

unfoldable pub encode_group_information : GroupInformation → Result Bytes
encode_group_information group = do
  name ← encode_fixed_string 64 group.name
  ok (
      group.group_id
      ∷ (to_be_bytes group.order
          ++ (group.placement
              ∷ (slots 64 name
                  ++ (group.velocity
                      ∷ group.node_variation
                      ∷ group.group_type
                      ∷ group.object_count
                      ∷ (slots 25 group.actuators.bytes ++ to_be_bytes group.revision))))))

unfoldable pub encode_new_group_information : NewGroupInformation → Result Bytes
encode_new_group_information group = do
  name ← encode_fixed_string 64 group.name
  ok (
      to_be_bytes group.order
      ++ (group.placement
          ∷ (slots 64 name
              ++ (group.velocity
                  ∷ group.node_variation
                  ∷ group.group_type
                  ∷ group.object_count
                  ∷ slots 25 group.actuators.bytes))))

unfoldable pub encode_wink : WinkRequest → Bytes
encode_wink request =
    to_be_bytes request.session_id
    ++ (request.command_originator
        ∷ request.priority_level
        ∷ bool_byte request.enabled
        ∷ request.wink_time
        ∷ target_count request.target
        ∷ target_slots request.target)

unfoldable pub encode_set_limitation : SetLimitationRequest → Bytes
encode_set_limitation request =
    to_be_bytes request.session_id
    ++ (request.command_originator
        ∷ request.priority_level
        ∷ target_count request.target
        ∷ (target_slots request.target
            ++ (request.parameter_id
                ∷ (raw_bytes request.minimum
                    ++ (raw_bytes request.maximum ++ (request.limitation_time ∷ []))))))

unfoldable pub encode_get_limitation_status : GetLimitationStatusRequest → Bytes
encode_get_limitation_status request =
    to_be_bytes request.session_id
    ++ (target_count request.target
        ∷ (target_slots request.target ++ (request.parameter_id ∷ request.limitation_type ∷ [])))

-- The fold of `pack_two_bit_settings`; a shift to the left drops what leaves the byte.
unfoldable pub pack_onto : ℕ → Bytes → ℕ
pack_onto packed [] = packed
pack_onto packed (setting ∷ settings) = pack_onto (bit_or (packed * 4 % 256) setting) settings

unfoldable pub pack_two_bit_settings : Bytes → ℕ
unfolding pack_onto
pack_two_bit_settings settings = pack_onto 0 settings

unfoldable pub any_above_three : Bytes → Bool
any_above_three [] = false
any_above_three (setting ∷ settings) = ltb 3 setting || any_above_three settings

unfoldable pub validate_priority_settings : Bytes → Result (Unit {0})
unfolding any_above_three
validate_priority_settings settings =
    if any_above_three settings
    then err (invalid_request "priority-level settings must be in the range 0..=3")
    else ok tt

-- The two bytes of packed settings, which stay zero without the lock.
unfoldable pub packed_settings : Bool → Bytes → Bytes
packed_settings lock settings =
    if lock
    then pack_two_bit_settings (take 4 settings) ∷ pack_two_bit_settings (drop 4 settings) ∷ []
    else 0 ∷ 0 ∷ []

unfoldable pub encode_mode : ModeRequest → Result Bytes
unfolding packed_settings
encode_mode request = do
  checked ← validate_priority_settings request.priority_level_settings
  ok (
      to_be_bytes request.session_id
      ++ (request.command_originator
          ∷ request.priority_level
          ∷ request.mode_number
          ∷ request.mode_parameter
          ∷ target_count request.target
          ∷ (target_slots request.target
              ++ (bool_byte request.priority_level_lock
                  ∷ (packed_settings request.priority_level_lock request.priority_level_settings
                      ++ (request.lock_time ∷ []))))))

unfoldable pub encode_activate_scene : SceneActivationRequest → Bytes
encode_activate_scene request =
    to_be_bytes request.session_id
    ++ (request.command_originator ∷ request.priority_level ∷ request.scene_id ∷ request.velocity
        ∷ [])

unfoldable pub encode_stop_scene : SceneStopRequest → Bytes
encode_stop_scene request =
    to_be_bytes request.session_id
    ++ (request.command_originator ∷ request.priority_level ∷ request.scene_id ∷ [])

unfoldable pub encode_activate_product_group : ProductGroupActivationRequest → Result Bytes
unfolding packed_settings
encode_activate_product_group request = do
  checked ← validate_priority_settings request.priority_level_settings
  ok (
      to_be_bytes request.session_id
      ++ (request.command_originator
          ∷ request.priority_level
          ∷ request.product_group_id
          ∷ request.parameter_id
          ∷ (raw_bytes request.position
              ++ (request.velocity
                  ∷ bool_byte request.priority_level_lock
                  ∷ (packed_settings request.priority_level_lock request.priority_level_settings
                      ++ (request.lock_time ∷ []))))))

unfoldable pub encode_contact_input_link : ContactInputLink → Result Bytes
encode_contact_input_link link = do
  checked ← validate_priority_settings link.priority_level_settings
  ok (
      link.contact_input_id
      ∷ link.assignment
      ∷ link.action_id
      ∷ link.command_originator
      ∷ link.priority_level
      ∷ link.parameter_id
      ∷ (raw_bytes link.position
          ++ (link.velocity
              ∷ link.lock_priority_level
              ∷ (slots 5 link.priority_level_settings
                  ++ (link.success_output_id ∷ link.error_output_id ∷ [])))))

-- The functional parameters are left zero, and so are the bytes behind the nodes.
unfoldable pub encode_command_send : CommandRequest → CommandTarget → Bytes
encode_command_send command target =
    if leb (length target.nodes) 255
    then to_be_bytes command.session_id
      ++ (1
          ∷ 3
          ∷ 0
          ∷ 0
          ∷ 0
          ∷ (raw_bytes command.main_parameter
              ++ (replicate 32 0
                  ++ (length target.nodes ∷ (target_slots target ++ replicate 4 0)))))
    else []

abbrev pub status_type_byte : StatusRequestType → ℕ
status_type_byte target_position = 0
status_type_byte current_position = 1
status_type_byte remaining_time = 2
status_type_byte main_information = 3

unfoldable pub encode_status_request : ℕ → CommandTarget → StatusRequestType → Bytes
encode_status_request session_id target status_type =
    if leb (length target.nodes) 255
    then to_be_bytes session_id
      ++ (length target.nodes
          ∷ (target_slots target ++ (status_type_byte status_type ∷ 0 ∷ 0 ∷ [])))
    else []
