-- ===== src/Mqtt/RoundTrip.antt =====
-- The commands that are sent to the topics of the layout are the commands that it parses.
use velux2mqtt.Prelude.{
  inr, some, none, ◌<◌, ◌==◌, ==_iff, Bool, ap, ascii, false, true, ℕ, append_assoc, ◌∙◌,
}
use velux2mqtt.Mqtt.Text.{
  strip_prefix, split, split_onto, parse_u8, parse_digits, decimal, trim, trim_start, trim_reversed,
  reverse_onto, eq_ignore_ascii_case,
}
use velux2mqtt.Mqtt.Commands.{
  GroupAction, open_group, close_group, group, group_action, to_node, to_group, nowhere, node,
  Addressee, addressee, addressed, relative, parse_command, commanded, node_action,
}
use velux2mqtt.Prelude.Bits.{all_below, below-all_below}
use velux2mqtt.Node.Cover.{CoverAction, open_action, close_action, toggle_action}
use velux2mqtt.CommandId.{bytes_eq}
use velux2mqtt.Prelude.{◌++◌, Bytes, [], arith, refl, some, ◌∷◌, ◌≡◌}
use velux2mqtt.Mqtt.Text.{strip_prefix}
use velux2mqtt.Mqtt.Topics.{TopicLayout, node_command, group_command}

bytes_eq-append : (prefix xs ys : Bytes) → bytes_eq (prefix ++ xs) (prefix ++ ys) ≡ bytes_eq xs ys
unfolding bytes_eq
bytes_eq-append [] xs ys = refl
bytes_eq-append (b ∷ prefix) xs ys = ground (arith, bytes_eq-append prefix xs ys)

strip_prefix-append : (prefix text : Bytes) → strip_prefix prefix (prefix ++ text) ≡ some text
unfolding strip_prefix
strip_prefix-append [] text = refl
strip_prefix-append (b ∷ prefix) text = ground (arith, strip_prefix-append prefix text)

-- The part of the topic behind the base topic and a slash.
abbrev node_behind : ℕ → Bytes
node_behind id = (ascii "velux_node_" ++ decimal id) ++ ascii "/cmnd/control"

abbrev group_behind : ℕ → Bytes
group_behind id = (ascii "velux_group_" ++ decimal id) ++ ascii "/cmnd/control"

reads_node : ℕ → Addressee → Bool
reads_node id (to_node (some n)) = n == id
reads_node id _ = false

reads_group : ℕ → Addressee → Bool
reads_group id (to_group (some n)) = n == id
reads_group id _ = false

reads_node-eq : (id : ℕ) (a : Addressee) → reads_node id a ≡ true → a ≡ to_node (some id)
unfolding reads_node
reads_node-eq id (to_node (some n)) h = ap (λ (m : ℕ). to_node (some m)) ((==_iff n id).0 h)
reads_node-eq id (to_node none) h = absurd (cc)
reads_node-eq id (to_group n) h = absurd (cc)
reads_node-eq id nowhere h = absurd (cc)

reads_group-eq : (id : ℕ) (a : Addressee) → reads_group id a ≡ true → a ≡ to_group (some id)
unfolding reads_group
reads_group-eq id (to_group (some n)) h = ap (λ (m : ℕ). to_group (some m)) ((==_iff n id).0 h)
reads_group-eq id (to_group none) h = absurd (cc)
reads_group-eq id (to_node n) h = absurd (cc)
reads_group-eq id nowhere h = absurd (cc)

node_table : all_below 256 (λ id. reads_node id (addressee (split 47 (node_behind id)))) ≡ true
unfolding all_below reads_node addressee split split_onto addressed strip_prefix parse_u8
    parse_digits decimal bytes_eq
node_table = refl

group_table : all_below 256 (λ id. reads_group id (addressee (split 47 (group_behind id)))) ≡ true
unfolding all_below reads_group addressee split split_onto addressed strip_prefix parse_u8
    parse_digits decimal bytes_eq
group_table = refl

relative-append :
    (layout : TopicLayout) (behind : Bytes)
    → relative layout (layout.base ++ (47 ∷ behind)) ≡ some behind
unfolding relative strip_prefix
relative-append layout behind = rw (strip_prefix-append layout.base (47 ∷ behind), relative) refl

-- A message on a topic below the base topic, which is not the one for a reboot.
parse_command-addressed :
    (layout : TopicLayout) (behind payload : Bytes)
    → bytes_eq (47 ∷ behind) (ascii "/cmnd/reboot") ≡ false
    → parse_command layout
        (record { topic = layout.base ++ (47 ∷ behind); payload = payload; retained = false })
      ≡ commanded (layout.base ++ (47 ∷ behind)) (trim payload) (addressee (split 47 behind))
unfolding parse_command
parse_command-addressed layout behind payload other =
    rw
      (
        bytes_eq-append layout.base (47 ∷ behind) (ascii "/cmnd/reboot"),
        other,
        relative-append layout behind,
      )
      refl

abbrev pub node_text : CoverAction → Bytes
node_text open_action = ascii "OPEN"
node_text close_action = ascii "CLOSE"
node_text toggle_action = ascii "TOGGLE"

commanded-node :
    (topic : Bytes) (id : ℕ) (action : CoverAction)
    → commanded topic (trim (node_text action)) (to_node (some id)) ≡ inr (node id action)
unfolding commanded node_action eq_ignore_ascii_case trim trim_start trim_reversed reverse_onto
commanded-node topic id open_action = refl
commanded-node topic id close_action = refl
commanded-node topic id toggle_action = refl

-- A message that is not retained, on the command topic that any layout gives a node, and with the
-- text of an action, is parsed as that action for that node.
pub parse_command-node :
    (layout : TopicLayout) (id : ℕ) (action : CoverAction)
    → id < 256
    → parse_command layout
        (record { topic = node_command layout id; payload = node_text action; retained = false })
      ≡ inr (node id action)
unfolding bytes_eq
parse_command-node layout id action h =
    let behind = node_behind id in
    let topic = layout.base ++ (47 ∷ behind) in
    ap
      (λ t.
        parse_command layout (record { topic = t; payload = node_text action; retained = false }))
      (append_assoc layout.base (ascii "/velux_node_" ++ decimal id) (ascii "/cmnd/control"))
    ∙ parse_command-addressed layout behind (node_text action) refl
    ∙ ap (commanded topic (trim (node_text action)))
        (reads_node-eq id _ (below-all_below _ 256 id node_table h))
    ∙ commanded-node topic id action

abbrev pub group_text : GroupAction → Bytes
group_text open_group = ascii "OPEN"
group_text close_group = ascii "CLOSE"

commanded-group :
    (topic : Bytes) (id : ℕ) (action : GroupAction)
    → commanded topic (trim (group_text action)) (to_group (some id)) ≡ inr (group id action)
unfolding commanded group_action eq_ignore_ascii_case trim trim_start trim_reversed reverse_onto
commanded-group topic id open_group = refl
commanded-group topic id close_group = refl

-- A message that is not retained, on the command topic that any layout gives a group, and with the
-- text of an action for groups, is parsed as that action for that group.
pub parse_command-group :
    (layout : TopicLayout) (id : ℕ) (action : GroupAction)
    → id < 256
    → parse_command layout
        (record { topic = group_command layout id; payload = group_text action; retained = false })
      ≡ inr (group id action)
unfolding bytes_eq
parse_command-group layout id action h =
    let behind = group_behind id in
    let topic = layout.base ++ (47 ∷ behind) in
    ap
      (λ t.
        parse_command layout (record { topic = t; payload = group_text action; retained = false }))
      (append_assoc layout.base (ascii "/velux_group_" ++ decimal id) (ascii "/cmnd/control"))
    ∙ parse_command-addressed layout behind (group_text action) refl
    ∙ ap (commanded topic (trim (group_text action)))
        (reads_group-eq id _ (below-all_below _ 256 id group_table h))
    ∙ commanded-group topic id action
