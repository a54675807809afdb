-- ===== src/Decode.antt =====
-- `Response::decode` of src/klf200/response.rs, in the modules named for its helpers.
pub mod Fields
pub mod Gateway
pub mod Configuration
pub mod Groups
pub mod Commands
pub mod Nodes
pub mod Scenes
pub mod Logs
pub mod Core
pub mod Arms
pub mod Sound
pub mod GroupRoundTrip
pub mod Protocol
pub mod Lengths
pub mod Ranges
use velux2mqtt.Error.{Result}
use velux2mqtt.Prelude.{if◌then◌else◌, ◌||◌}
use velux2mqtt.Frame.{Frame}
use velux2mqtt.Response.{Response}
use velux2mqtt.Decode.Fields.{in_range}
use velux2mqtt.Decode.Configuration.{decode_configuration}
use velux2mqtt.Decode.Groups.{decode_node_group}
use velux2mqtt.Decode.Commands.{decode_command_extension}
use velux2mqtt.Decode.Scenes.{decode_scene_contact}
use velux2mqtt.Decode.Logs.{decode_activation_log}
use velux2mqtt.Decode.Core.{decode_core}

-- `Response::decode`: the decoder of the range that the command lies in.
unfoldable pub decode : Frame → Result Response
decode frame =
    let command = frame.command in
    let payload = frame.payload in
    if in_range 0x0100 0x011A command
    then decode_configuration command payload
    else if in_range 0x0206 0x0209 command
        || in_range 0x020D 0x020E command
        || in_range 0x0220 0x0230 command
    then decode_node_group command payload
    else if in_range 0x0308 0x0322 command
    then decode_command_extension command payload
    else if in_range 0x0400 0x0465 command
    then decode_scene_contact command payload
    else if in_range 0x0500 0x0509 command
    then decode_activation_log command payload
    else decode_core command payload
