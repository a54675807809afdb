-- ===== src/Tests/Topics.antt =====
-- Commands over MQTT and delays at concrete inputs.
use velux2mqtt.Mqtt.Topics
use velux2mqtt.Mqtt.Topics.{TopicLayout, node_command}
use velux2mqtt.Mqtt.Commands.{node, parse_command, gateway_reboot, IncomingMessage}
use velux2mqtt.Node.Cover.{toggle_action}
use velux2mqtt.CommandId.{bytes_eq}
use velux2mqtt.Mqtt.Text.{
  eq_ignore_ascii_case, trim, trim_start, trim_reversed, reverse_onto, decimal, trim_matches,
  drop_leading, split, split_onto,
}
use velux2mqtt.Bridge.Backoff.{new, next_delay, after_attempts, reset, next_delay-bounds}
use velux2mqtt.Prelude.{inr, ◌++◌, Bool, Bytes, arith, ascii, false, refl, ◌∷◌, ◌≡◌, ◌≤◌}
use velux2mqtt.Mqtt.RoundTrip.{parse_command-node}
use velux2mqtt.Mqtt.Below.{parse_command-below}

abbrev home : TopicLayout
home = record { base = ascii "home/velux" }

trimmed_home : Topics.new (ascii " /home/velux/ ") ≡ inr home
unfolding Topics.new Topics.any_empty Topics.any_forbidden trim trim_start trim_reversed
    reverse_onto trim_matches drop_leading split split_onto
trimmed_home = refl

parse_command-node_example :
    parse_command home (record {
      topic = ascii "home/velux/velux_node_12/cmnd/control";
      payload = ascii "TOGGLE";
      retained = false;
    })
    ≡ inr (node 12 toggle_action)
unfolding decimal
parse_command-node_example = parse_command-node home 12 toggle_action (omega arith)

abbrev reboots : IncomingMessage
reboots = record {
  topic = ascii "home/velux/cmnd/reboot";
  payload = ascii " reboot";
  retained = false;
}

parse_command-below_example :
    (◌≡◌ {A = Bool} false false)
    × ((behind : Bytes) × (ascii "home/velux/cmnd/reboot" ≡ ascii "home/velux" ++ (47 ∷ behind)))
unfolding parse_command bytes_eq eq_ignore_ascii_case trim trim_start trim_reversed reverse_onto
parse_command-below_example = parse_command-below home reboots {command = gateway_reboot} refl

-- One second to one minute, after three attempts.
next_delay-bounds_example :
    (let backoff = new 1000000000 60000000000 in
      let delay =
        (next_delay (λ limit. limit) (after_attempts (λ limit. limit) 3 (reset backoff))).1 in
      (8000000000 ≤ delay) × (delay ≤ 10000000000))
next_delay-bounds_example =
    next_delay-bounds (λ limit. limit) (new 1000000000 60000000000) 3 (omega arith, omega arith)
      (λ limit. omega arith)
