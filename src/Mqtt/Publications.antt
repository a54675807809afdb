-- ===== src/Mqtt/Publications.antt =====
-- `MqttPublication` and the publications of `TopicLayout` in src/mqtt.rs. The JSON text of a
-- snapshot, which serde writes, is an argument.
use velux2mqtt.Prelude.{
  inl, inr, some, none, Bool, Bytes, List, Option, [], ascii, if◌then◌else◌, true, ℕ, ◌∷◌, ◌⊎◌,
}
use velux2mqtt.Node.Cover.{CoverState, open_cover, closed, opening, closing}
use velux2mqtt.Node.State.{CoverStatusSnapshot, VeluxNode, snapshot}
use velux2mqtt.Mqtt.Text.{decimal}
use velux2mqtt.Mqtt.Topics.{
  TopicLayout, MqttError, state, node_info, node_status, node_state, node_position, node_target,
  group_info,
}

pub record MqttPublication : Type 0 where
  pub topic : Bytes
  pub payload : Bytes
  pub retained : Bool

-- `MqttPublication::retained` and `MqttPublication::clear`
abbrev pub retain : Bytes → Bytes → MqttPublication
retain topic payload = record { topic = topic; payload = payload; retained = true }

abbrev pub clear : Bytes → MqttPublication
clear topic = retain topic []

unfoldable pub cover_state_label : CoverState → Bytes
cover_state_label open_cover = ascii "open"
cover_state_label closed = ascii "closed"
cover_state_label opening = ascii "opening"
cover_state_label closing = ascii "closing"
cover_state_label CoverState.unknown = ascii "unknown"

abbrev pub percent_label : Option ℕ → Bytes
percent_label none = ascii "unknown"
percent_label (some value) = decimal value

unfoldable pub status_publications :
    (CoverStatusSnapshot → MqttError ⊎ Bytes)
    → TopicLayout
    → VeluxNode
    → MqttError ⊎ List MqttPublication
unfolding cover_state_label
status_publications serialize_json layout node =
    let shown = snapshot node in
    elim (serialize_json shown) [
      | inl failure ↦ inl failure
      | inr json ↦ inr (
          retain (node_status layout node.id) json
          ∷ retain (node_state layout node.id) (cover_state_label shown.cover_state)
          ∷ retain (node_position layout node.id) (percent_label shown.position)
          ∷ retain (node_target layout node.id) (percent_label shown.target)
          ∷ [])
    ]

abbrev pub availability_publication : TopicLayout → Bool → MqttPublication
availability_publication layout online =
    retain (state layout) (if online then ascii "online" else ascii "offline")

abbrev pub clear_node_publications : TopicLayout → ℕ → List MqttPublication
clear_node_publications layout node_id =
    clear (node_info layout node_id)
    ∷ clear (node_status layout node_id)
    ∷ clear (node_state layout node_id)
    ∷ clear (node_position layout node_id)
    ∷ clear (node_target layout node_id)
    ∷ []

abbrev pub clear_group_publications : TopicLayout → ℕ → List MqttPublication
clear_group_publications layout group_id = clear (group_info layout group_id) ∷ []
