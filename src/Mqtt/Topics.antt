-- ===== src/Mqtt/Topics.antt =====
-- `TopicLayout` of src/mqtt.rs. A result is a sum with the error on the left.
use Prim.Native.String.{String}
use velux2mqtt.Prelude.{
  inl, inr, ◌++◌, ◌==◌, Bool, Bytes, List, [], ascii, if◌then◌else◌, false, is_empty, ◌||◌, ℕ, ◌∷◌,
  ◌⊎◌,
}
use velux2mqtt.Mqtt.Text.{trim, trim_matches, split, decimal}

pub data MqttError : Type 0 where
  invalid_configuration : (message : String) → MqttError
  certificate_read : (path : Bytes) (message : Bytes) → MqttError
  invalid_base_topic : (topic : Bytes) → MqttError
  retained_command : MqttError
  unexpected_command_topic : (topic : Bytes) → MqttError
  invalid_node_id : (topic : Bytes) → MqttError
  invalid_group_id : (topic : Bytes) → MqttError
  invalid_command_payload : (payload : Bytes) → MqttError
  invalid_incoming_utf8 : (field : String) → MqttError
  connection : (message : Bytes) → MqttError
  serialization : (message : Bytes) → MqttError
  shutdown_timeout : MqttError

pub record TopicLayout : Type 0 where
  pub base : Bytes

unfoldable pub any_empty : List Bytes → Bool
any_empty [] = false
any_empty (segment ∷ segments) = is_empty segment || any_empty segments

-- `matches!(byte, b'+' | b'#' | 0)` for any byte
unfoldable pub any_forbidden : Bytes → Bool
any_forbidden [] = false
any_forbidden (b ∷ bytes) = b == 43 || b == 35 || b == 0 || any_forbidden bytes

-- `TopicLayout::new`
unfoldable pub new : Bytes → MqttError ⊎ TopicLayout
unfolding any_empty any_forbidden
new topic =
    let base = trim_matches 47 (trim topic) in
    if is_empty base || any_empty (split 47 base) || any_forbidden base
    then inl (invalid_base_topic base)
    else inr (record { base = base })

module _ (layout : TopicLayout) where
  abbrev pub state : Bytes
  state = layout.base ++ ascii "/state"

  abbrev pub nodes : Bytes
  nodes = layout.base ++ ascii "/nodes"

  abbrev pub groups : Bytes
  groups = layout.base ++ ascii "/groups"

  abbrev pub command_filter : Bytes
  command_filter = layout.base ++ ascii "/+/cmnd/control"

  abbrev pub gateway_reboot_command : Bytes
  gateway_reboot_command = layout.base ++ ascii "/cmnd/reboot"

  abbrev pub node_root : ℕ → Bytes
  node_root node_id = layout.base ++ (ascii "/velux_node_" ++ decimal node_id)

  abbrev pub node_info : ℕ → Bytes
  node_info node_id = node_root node_id ++ ascii "/info"

  abbrev pub node_status : ℕ → Bytes
  node_status node_id = node_root node_id ++ ascii "/status"

  abbrev pub node_state : ℕ → Bytes
  node_state node_id = node_root node_id ++ ascii "/state"

  abbrev pub node_position : ℕ → Bytes
  node_position node_id = node_root node_id ++ ascii "/position"

  abbrev pub node_target : ℕ → Bytes
  node_target node_id = node_root node_id ++ ascii "/target"

  abbrev pub node_command : ℕ → Bytes
  node_command node_id = node_root node_id ++ ascii "/cmnd/control"

  abbrev pub group_root : ℕ → Bytes
  group_root group_id = layout.base ++ (ascii "/velux_group_" ++ decimal group_id)

  abbrev pub group_info : ℕ → Bytes
  group_info group_id = group_root group_id ++ ascii "/info"

  abbrev pub group_command : ℕ → Bytes
  group_command group_id = group_root group_id ++ ascii "/cmnd/control"
