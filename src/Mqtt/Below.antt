-- ===== src/Mqtt/Below.antt =====
-- Which messages are commands at all.
use velux2mqtt.CommandId.{bytes_eq}
use velux2mqtt.Prelude.{
  inl, inr, some, none, ◌++◌, Bytes, [], ap, ap₂, arith, false, refl, true, ◌∷◌, ◌≡◌, Bool-cases,
  Option, Option-cases, ascii, ◌∙◌, ◌⊎◌,
}
use velux2mqtt.Mqtt.Text.{strip_prefix}
use velux2mqtt.Mqtt.Topics.{gateway_reboot_command, TopicLayout, MqttError}
use velux2mqtt.Mqtt.Commands.{parse_command, relative, IncomingMessage, MqttCommand}

bytes_eq-eq : (xs ys : Bytes) → bytes_eq xs ys ≡ true → xs ≡ ys
unfolding bytes_eq
bytes_eq-eq [] [] h = refl
bytes_eq-eq [] (y ∷ ys) h = absurd (cc)
bytes_eq-eq (x ∷ xs) [] h = absurd (cc)
bytes_eq-eq (x ∷ xs) (y ∷ ys) h = ap₂ (◌∷◌) (ground arith) (bytes_eq-eq xs ys (ground arith))

strip_prefix-some :
    (prefix text : Bytes) {rest : Bytes}
    → strip_prefix prefix text ≡ some rest
    → text ≡ prefix ++ rest
unfolding strip_prefix
strip_prefix-some [] text h = ap (λ o. elim o [ some t ↦ t | none ↦ text ]) h
strip_prefix-some (p ∷ prefix) [] h = absurd (cc)
strip_prefix-some (p ∷ prefix) (b ∷ text) h =
    ap₂ (◌∷◌) (ground arith) (strip_prefix-some prefix text (ground arith))

impossible : {behind : Bytes} → ◌≡◌ {A = Option Bytes} none (some behind) → ⊥
impossible h = cc

refused :
    {failure : MqttError} {command : MqttCommand}
    → ◌≡◌ {A = MqttError ⊎ MqttCommand} (inl failure) (inr command)
    → ⊥
refused h = cc

relative-some :
    (layout : TopicLayout) (topic : Bytes) {behind : Bytes}
    → relative layout topic ≡ some behind
    → topic ≡ layout.base ++ (47 ∷ behind)
unfolding relative
relative-some layout topic h = elim (Option-cases (strip_prefix layout.base topic)) [
  | inl e ↦ absurd (impossible (rw (e, relative) at h))
  | inr (suffix, e) ↦
      strip_prefix-some layout.base topic e
      ∙ ap (λ t. layout.base ++ t) (strip_prefix-some (47 ∷ []) suffix (rw (e, relative) at h))
]

-- A message that is accepted as a command is not retained, and its topic is the base topic of the
-- layout, a slash and something more.
pub parse_command-below :
    (layout : TopicLayout) (message : IncomingMessage) {command : MqttCommand}
    → parse_command layout message ≡ inr command
    → (message.retained ≡ false)
      × ((behind : Bytes) × (message.topic ≡ layout.base ++ (47 ∷ behind)))
unfolding parse_command
parse_command-below layout message h = elim (Bool-cases message.retained) [
  | inl e ↦ absurd (refused (rw (e, parse_command) at h))
  | inr e ↦ (
    e,
    elim (Bool-cases (bytes_eq message.topic (gateway_reboot_command layout))) [
      | inl same ↦
          (ascii "cmnd/reboot", bytes_eq-eq message.topic (gateway_reboot_command layout) same)
      | inr other ↦ elim (Option-cases (relative layout message.topic)) [
        | inl nothing ↦ absurd (refused (rw (e, other, nothing, parse_command) at h))
        | inr (behind, found) ↦ (behind, relative-some layout message.topic found)
      ]
    ],
  )
]
