-- ===== src/Decode/Lengths.antt =====
-- A payload that is shorter or longer than the protocol says is refused, and never read.
use velux2mqtt.Decode.{decode}
use velux2mqtt.Frame.{new}
use velux2mqtt.CommandId.Constants.{
  gw_get_version_cfm, gw_get_node_information_ntf, gw_get_all_nodes_information_ntf,
  gw_node_state_position_changed_ntf, gw_command_run_status_ntf, gw_get_group_information_ntf,
  gw_get_all_groups_information_ntf,
}
use velux2mqtt.Decode.Arms.{◌▸◌}
use velux2mqtt.Decode.Scenes.{decode_scene_contact}
use velux2mqtt.Error.{◌>>=◌, KlfError, Result, err}
use velux2mqtt.Prelude.{All, Bytes, ap, ℕ, ◌≡◌}
use velux2mqtt.Decode.Fields.{require_exact, select}
use velux2mqtt.Prelude.Maps.{mem, find, All-find}
use velux2mqtt.Decode.Protocol.{response_lengths}
use velux2mqtt.Frame.{Frame}
use velux2mqtt.Prelude.{length, ltb, arith, ◌≢◌, some, All-append, ◌++◌, if◌then◌else◌}
use velux2mqtt.Error.{truncated_payload, invalid_payload_length}
use velux2mqtt.Decode.Gateway.{
  decode_gateway, decode_version, decode_network_setup, decode_local_time, decode_password_changed,
}
use velux2mqtt.Decode.Logs.{decode_log_entry, decode_activation_log}
use velux2mqtt.Decode.Commands.{decode_limitation_status, decode_command_extension}
use velux2mqtt.Decode.Groups.{decode_group_information, decode_node_group}
use velux2mqtt.Decode.Configuration.{
  decode_discovery_result, decode_activation_result, decode_configuration,
}
use velux2mqtt.Decode.Nodes.{decode_node_information, decode_node_state, decode_command_run_status}
use velux2mqtt.Decode.Core.{decode_session_status, decode_information_changed, decode_core}
use velux2mqtt.Decode.Protocol.{
  core_lengths, log_lengths, scene_lengths, extension_lengths, group_lengths, configuration_lengths,
}

fails {ℓ} :
    {A B : Type ℓ} (m : Result A) (next : A → Result B) {failure : KlfError}
    → m ≡ err failure
    → (m >>= next) ≡ err failure
fails m next h = ap (λ r. r >>= next) h

-- An entry of the table: the failure of the length check is the failure of the decoder.
abbrev Checks : ℕ × ℕ → Type 0
Checks entry =
    (payload : Bytes) (failure : KlfError)
    → require_exact payload entry.1 entry.0 ≡ err failure
    → decode (new entry.0 payload) ≡ err failure

core-Checks : All Checks core_lengths
unfolding decode select mem decode_core decode_gateway decode_version decode_network_setup
    decode_local_time decode_password_changed decode_node_information decode_node_state
    decode_command_run_status decode_session_status decode_information_changed
core-Checks =
    (λ p f. fails _ _)
    ▸ (λ p f. fails _ _)
    ▸ (λ p f. fails _ _)
    ▸ (λ p f. fails _ _)
    ▸ (λ p f. fails _ _)
    ▸ (λ p f. fails _ _)
    ▸ (λ p f. fails _ _)
    ▸ (λ p f. fails _ _)
    ▸ (λ p f. fails _ _)
    ▸ (λ p f. fails _ _)
    ▸ (λ p f. fails _ _)
    ▸ (λ p f. fails _ _)
    ▸ (λ p f. fails _ _)
    ▸ (λ p f e. fails (decode_version p gw_get_version_cfm) _ (fails _ _ e))
    ▸ (λ p f. fails _ _)
    ▸ (λ p f. fails _ _)
    ▸ (λ p f. fails _ _)
    ▸ (λ p f. fails _ _)
    ▸ (λ p f. fails _ _)
    ▸ (λ p f. fails _ _)
    ▸ (λ p f e. fails (decode_node_information p gw_get_node_information_ntf) _ (fails _ _ e))
    ▸ (λ p f e. fails (decode_node_information p gw_get_all_nodes_information_ntf) _ (fails _ _ e))
    ▸ (λ p f. fails _ _)
    ▸ (λ p f e. fails (decode_node_state p gw_node_state_position_changed_ntf) _ (fails _ _ e))
    ▸ (λ p f. fails _ _)
    ▸ (λ p f. fails _ _)
    ▸ (λ p f e. fails (decode_command_run_status p gw_command_run_status_ntf) _ (fails _ _ e))
    ▸ (λ p f. fails _ _)
    ▸ (λ p f. fails _ _)
    ▸ tt

log-Checks : All Checks log_lengths
unfolding decode select mem decode_activation_log decode_log_entry
log-Checks =
    (λ p f. fails _ _)
    ▸ (λ p f. fails _ _)
    ▸ (λ p f. fails _ _)
    ▸ (λ p f. fails _ _)
    ▸ (λ p f. fails _ _)
    ▸ (λ p f. fails _ _)
    ▸ tt

scene-Checks : All Checks scene_lengths
unfolding decode select mem decode_scene_contact
scene-Checks =
    (λ p f. fails _ _)
    ▸ (λ p f. fails _ _)
    ▸ (λ p f. fails _ _)
    ▸ (λ p f. fails _ _)
    ▸ (λ p f. fails _ _)
    ▸ (λ p f. fails _ _)
    ▸ (λ p f. fails _ _)
    ▸ (λ p f. fails _ _)
    ▸ (λ p f. fails _ _)
    ▸ (λ p f. fails _ _)
    ▸ (λ p f. fails _ _)
    ▸ (λ p f. fails _ _)
    ▸ (λ p f. fails _ _)
    ▸ (λ p f. fails _ _)
    ▸ (λ p f. fails _ _)
    ▸ tt

extension-Checks : All Checks extension_lengths
unfolding decode select mem decode_command_extension decode_limitation_status
extension-Checks =
    (λ p f. fails _ _)
    ▸ (λ p f. fails _ _)
    ▸ (λ p f. fails _ _)
    ▸ (λ p f. fails _ _)
    ▸ (λ p f. fails _ _)
    ▸ (λ p f. fails _ _)
    ▸ tt

group-Checks : All Checks group_lengths
unfolding decode select mem decode_node_group decode_group_information
group-Checks =
    (λ p f. fails _ _)
    ▸ (λ p f. fails _ _)
    ▸ (λ p f. fails _ _)
    ▸ (λ p f. fails _ _)
    ▸ (λ p f. fails _ _)
    ▸ (λ p f. fails _ _)
    ▸ (λ p f. fails _ _)
    ▸ (λ p f. fails _ _)
    ▸ (λ p f e. fails (decode_group_information p gw_get_group_information_ntf) _ (fails _ _ e))
    ▸ (λ p f e.
        fails (decode_group_information p gw_get_all_groups_information_ntf) _ (fails _ _ e))
    ▸ (λ p f. fails _ _)
    ▸ (λ p f. fails _ _)
    ▸ tt

configuration-Checks : All Checks configuration_lengths
unfolding decode select mem decode_configuration decode_discovery_result decode_activation_result
configuration-Checks =
    (λ p f. fails _ _)
    ▸ (λ p f. fails _ _)
    ▸ (λ p f. fails _ _)
    ▸ (λ p f. fails _ _)
    ▸ (λ p f. fails _ _)
    ▸ (λ p f. fails _ _)
    ▸ (λ p f. fails _ _)
    ▸ (λ p f. fails _ _)
    ▸ (λ p f. fails _ _)
    ▸ (λ p f. fails _ _)
    ▸ (λ p f. fails _ _)
    ▸ (λ p f. fails _ _)
    ▸ (λ p f. fails _ _)
    ▸ (λ p f. fails _ _)
    ▸ (λ p f. fails _ _)
    ▸ (λ p f. fails _ _)
    ▸ (λ p f. fails _ _)
    ▸ tt

-- The failures of a payload of the wrong length.
abbrev pub wrong_length : ℕ → ℕ → Bytes → KlfError
wrong_length command expected payload =
    if ltb (length payload) expected
    then truncated_payload command expected (length payload)
    else invalid_payload_length command expected (length payload)

require_exact-wrong_length :
    (payload : Bytes) (expected command : ℕ)
    → length payload ≢ expected
    → require_exact payload expected command ≡ err (wrong_length command expected payload)
unfolding require_exact
require_exact-wrong_length payload expected command h = ground arith

tables-Checks : All Checks response_lengths
tables-Checks =
    let from_group = group_lengths ++ configuration_lengths in
    let from_extension = extension_lengths ++ from_group in
    let from_scene = scene_lengths ++ from_extension in
    let from_log = log_lengths ++ from_scene in
    All-append Checks core_lengths from_log core-Checks (
      All-append Checks log_lengths from_scene log-Checks (
        All-append Checks scene_lengths from_extension scene-Checks (
          All-append Checks extension_lengths from_group extension-Checks (
            All-append Checks group_lengths configuration_lengths group-Checks
              configuration-Checks))))

-- A frame whose command has a fixed payload length in the protocol, and whose payload has another
-- length, is refused: as truncated if it is shorter and as too long otherwise, with both lengths.
pub decode-wrong_length :
    (frame : Frame) (expected : ℕ)
    → find response_lengths frame.command ≡ some expected
    → length frame.payload ≢ expected
    → decode frame ≡ err (wrong_length frame.command expected frame.payload)
unfolding decode
decode-wrong_length frame expected h ne =
    All-find Checks response_lengths frame.command tables-Checks h frame.payload _
      (require_exact-wrong_length frame.payload expected frame.command ne)
