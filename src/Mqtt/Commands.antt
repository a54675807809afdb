-- ===== src/Mqtt/Commands.antt =====
-- `TopicLayout::parse_command` of src/mqtt.rs, with its messages and commands.
use velux2mqtt.Prelude.{
  inl, inr, some, none, ◌&&◌, Bool, Bytes, List, Option, [], ascii, if◌then◌else◌, ℕ, ◌∷◌, ◌⊎◌,
}
use velux2mqtt.Mqtt.Text.{split, strip_prefix, parse_u8, trim, eq_ignore_ascii_case}
use velux2mqtt.CommandId.{bytes_eq}
use velux2mqtt.Node.Cover.{CoverAction, open_action, close_action, toggle_action}
use velux2mqtt.Mqtt.Topics.{
  TopicLayout, MqttError, gateway_reboot_command, invalid_node_id, retained_command,
  invalid_command_payload, invalid_group_id, unexpected_command_topic,
}

pub record IncomingMessage : Type 0 where
  pub topic : Bytes
  pub payload : Bytes
  pub retained : Bool

pub data GroupAction : Type 0 where
  open_group close_group : GroupAction

pub data MqttCommand : Type 0 where
  node : (node_id : ℕ) (action : CoverAction) → MqttCommand
  group : (group_id : ℕ) (action : GroupAction) → MqttCommand
  gateway_reboot : MqttCommand

-- What the segments behind the base topic name.
pub data Addressee : Type 0 where
  to_node to_group : Option ℕ → Addressee
  nowhere : Addressee

unfoldable pub addressed : Bytes → Addressee
addressed target = elim (strip_prefix (ascii "velux_node_") target) [
  | some node_id ↦ to_node (parse_u8 node_id)
  | none ↦ elim (strip_prefix (ascii "velux_group_") target) [
    | some group_id ↦ to_group (parse_u8 group_id)
    | none ↦ nowhere
  ]
]

-- There must be three segments, of which the last two are fixed.
unfoldable pub addressee : List Bytes → Addressee
unfolding addressed bytes_eq
addressee (target ∷ second ∷ third ∷ []) =
    if bytes_eq second (ascii "cmnd") && bytes_eq third (ascii "control")
    then addressed target
    else nowhere
addressee _ = nowhere

unfoldable pub node_action : Bytes → Option CoverAction
node_action payload =
    if eq_ignore_ascii_case payload (ascii "OPEN")
    then some open_action
    else if eq_ignore_ascii_case payload (ascii "CLOSE")
    then some close_action
    else if eq_ignore_ascii_case payload (ascii "TOGGLE")
    then some toggle_action
    else none

unfoldable pub group_action : Bytes → Option GroupAction
group_action payload =
    if eq_ignore_ascii_case payload (ascii "OPEN")
    then some open_group
    else if eq_ignore_ascii_case payload (ascii "CLOSE")
    then some close_group
    else none

-- The command of a message that is addressed, from its topic and its trimmed payload.
unfoldable pub commanded : Bytes → Bytes → Addressee → MqttError ⊎ MqttCommand
unfolding node_action group_action
commanded topic payload (to_node none) = inl (invalid_node_id topic)
commanded topic payload (to_node (some node_id)) = elim (node_action payload) [
  | some action ↦ inr (node node_id action)
  | none ↦ inl (invalid_command_payload payload)
]
commanded topic payload (to_group none) = inl (invalid_group_id topic)
commanded topic payload (to_group (some group_id)) = elim (group_action payload) [
  | some action ↦ inr (group group_id action)
  | none ↦ inl (invalid_command_payload payload)
]
commanded topic payload nowhere = inl (unexpected_command_topic topic)

-- The part of a topic behind the base topic and a slash.
unfoldable pub relative : TopicLayout → Bytes → Option Bytes
relative layout topic = elim (strip_prefix layout.base topic) [
  | some suffix ↦ strip_prefix (ascii "/") suffix
  | none ↦ none
]

unfoldable pub parse_command : TopicLayout → IncomingMessage → MqttError ⊎ MqttCommand
unfolding addressee commanded relative bytes_eq
parse_command layout message =
    let payload = trim message.payload in
    if message.retained
    then inl retained_command
    else if bytes_eq message.topic (gateway_reboot_command layout)
    then (if eq_ignore_ascii_case payload (ascii "REBOOT")
        then inr gateway_reboot
        else inl (invalid_command_payload payload))
    else elim (relative layout message.topic) [
      | some behind ↦ commanded message.topic payload (addressee (split 47 behind))
      | none ↦ inl (unexpected_command_topic message.topic)
    ]
