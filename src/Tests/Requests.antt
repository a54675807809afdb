-- ===== src/Tests/Requests.antt =====
-- The theorems about src/klf200/command.rs at concrete requests.
use velux2mqtt.Frame
use velux2mqtt.Command.Requests.{command_send, raw, Request}
use velux2mqtt.CommandId.{kind, request, confirmation, known, expected_confirmation}
use velux2mqtt.Prelude.{◌++◌, Bytes, [], arith, none, refl, replicate, some, ℕ, ◌↔◌, ◌∷◌, ◌≡◌}
use velux2mqtt.Error.{err, ok, unsupported_request}
use velux2mqtt.Frame.{Frame}
use velux2mqtt.Command.Encode.{encode_request, command_id, request_session, encode_payload}
use velux2mqtt.Command.Encode.Lengths.{HasLength, encode_payload-HasLength}
use velux2mqtt.Command.Payloads.{encode_command_send}
use velux2mqtt.Types.Position.{relative, fully_open, to_raw}
use velux2mqtt.Command.Encode.Framing.{Arrives, request-Arrives}
use velux2mqtt.Command.Encode.Sessions.{StartsWith, encode_payload-StartsWith}
use velux2mqtt.Command.Encode.Kinds.{request_expects, raw-refused_iff}

-- Open the covers 1 and 2.
abbrev open_two : Request
open_two =
    command_send (record { session_id = 258; main_parameter = relative fully_open })
      (record { nodes = 1 ∷ 2 ∷ [] })

abbrev open_two_payload : Bytes
open_two_payload =
    1 ∷ 2 ∷ 1 ∷ 3 ∷ 0 ∷ 0 ∷ 0 ∷ 0 ∷ 0 ∷ (replicate 32 0 ++ (2 ∷ 1 ∷ 2 ∷ replicate 22 0))

abbrev open_two_frame : Frame
open_two_frame = Frame.new 0x0300 open_two_payload

open_two_encodes : encode_request open_two ≡ ok open_two_frame
unfolding encode_request encode_payload encode_command_send command_id to_raw
open_two_encodes = refl

request-Arrives_example : Arrives open_two_frame
unfolding command_id
request-Arrives_example = request-Arrives open_two (omega arith) tt (omega arith) open_two_encodes

encode_payload-HasLength_example : HasLength 66 (encode_payload open_two)
encode_payload-HasLength_example = encode_payload-HasLength open_two (omega arith)

encode_payload-StartsWith_example : StartsWith (some 258) (encode_payload open_two)
unfolding request_session
encode_payload-StartsWith_example = encode_payload-StartsWith open_two (omega arith)

request_expects_example :
    (kind open_two_frame.command ≡ request)
    × ((c : ℕ) × (expected_confirmation open_two_frame.command ≡ some c) × (kind c ≡ confirmation))
request_expects_example = request_expects open_two tt open_two_encodes

raw-refused_iff_example :
    (encode_request (raw 0x0301 []) ≡ err (unsupported_request 0x0301))
    ↔ (¬ (known 0x0301 ≡ none) × ¬ (kind 0x0301 ≡ request))
raw-refused_iff_example = raw-refused_iff 0x0301 []
