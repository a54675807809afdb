-- ===== src/Tests/Connections.antt =====
-- Runs of the decoders and of the connection at concrete inputs.
use velux2mqtt.Response.{Response, acknowledgement, node_information, command_accepted}
use velux2mqtt.CommandId.Constants.{
  gw_command_send_cfm, gw_command_send_req, gw_get_all_nodes_information_finished_ntf,
  gw_get_all_nodes_information_ntf, gw_get_group_information_ntf, gw_get_node_information_ntf,
  gw_get_state_req, gw_get_version_cfm, gw_get_version_req,
}
use velux2mqtt.Types.Sessions
use velux2mqtt.Prelude.Maps.{find, mem}
use velux2mqtt.Prelude.{
  is_utf8, ◌+◌, ◌++◌, ◌<◌, Bytes, List, [], arith, ascii, none, refl, replicate, some, ℕ, ◌∷◌, ◌≡◌,
  ◌≤◌, ◌⊎◌, ◌==◌, if◌then◌else◌, length,
}
use velux2mqtt.Error.{request_timeout, ok, err, Result, connection_closed, truncated_payload}
use velux2mqtt.Connection.State.{
  send, shutdown, closed, session_timed_out, notification, Incoming, default_settings,
  QueuedRequest, PendingRequest,
}
use velux2mqtt.Connection.Actor.{
  Clock, command, tick, Input, start, Actor, round, dispatch, take_input,
}
use velux2mqtt.Connection.Run.{started, continues, Runs, finish, waiting_replies}
use velux2mqtt.Connection.Dispatch.{dispatch_next}
use velux2mqtt.Connection.Client.{Received}
use velux2mqtt.Connection.Dispatch.{prepare}
use velux2mqtt.CommandId.{expected_confirmation, known}
use velux2mqtt.CommandId.Table.{all_known_commands}
use velux2mqtt.Command.Encode.{command_id, request_session, encode_request, encode_payload}
use velux2mqtt.Connection.Client.{event}
use velux2mqtt.Command.Requests.{get_version}
use velux2mqtt.Decode.Core.{decode_core, decode_session_status}
use velux2mqtt.Decode.Gateway.{decode_gateway, decode_version}
use velux2mqtt.Decode.Fields.{select, require_exact, session_id, require, session_id_at, read_u16}
use velux2mqtt.Tests.Nodes.{information}
use velux2mqtt.Slip.{encode_bytes, encode_byte}
use velux2mqtt.Frame.{Frame, checksum_from}
use velux2mqtt.Command.Payloads.{encode_group_information}
use velux2mqtt.Types.FixedString.{encode_fixed_string, has_nul}
use velux2mqtt.Decode.{decode}
use velux2mqtt.Frame
use velux2mqtt.Slip
use velux2mqtt.Connection.Commands.{response_command, response_session_id, session_was_accepted}
use velux2mqtt.Decode.Lengths.{decode-wrong_length}
use velux2mqtt.Decode.Groups.{decode_group_information}
use velux2mqtt.Connection.Guards.{
  Guarded, dispatch_next-Guarded, Leaves, Answers, handle_frame-sessions, handle_frame-safe,
}
use velux2mqtt.Connection.Frames.{handle_frame}
use velux2mqtt.Connection.Timeouts.{tick-IsTimely}
use velux2mqtt.Connection.Answers.{times, answered, asked}
use velux2mqtt.Connection.Reader.{read_frames, read_frames-encodes, read_frames-concat}
use velux2mqtt.Connection.Identity.{response_command-decode}
use velux2mqtt.Types.Records.{GroupInformation}
use velux2mqtt.Decode.GroupRoundTrip.{decode-encode_group_information}
use velux2mqtt.Connection.Outcome.{answered_once}
use velux2mqtt.Decode.Sound.Fields.{IsSound}
use velux2mqtt.Decode.Sound.{decode-IsSound}

abbrev version_frame : Frame
version_frame = Frame.new gw_get_version_cfm (0 ∷ 2 ∷ 0 ∷ 0 ∷ 71 ∷ 0 ∷ 6 ∷ 14 ∷ 3 ∷ [])

response_command-decode_example :
    (response_command (
        Response.version (record {
          software = 0 ∷ 2 ∷ 0 ∷ 0 ∷ 71 ∷ 0 ∷ [];
          hardware = 6;
          product_group = 14;
          product_type = 3;
        }))
      ≡ gw_get_version_cfm)
    ⊎ ((gw_get_version_cfm ≡ gw_get_node_information_ntf)
        × (response_command (
              Response.version (record {
                software = 0 ∷ 2 ∷ 0 ∷ 0 ∷ 71 ∷ 0 ∷ [];
                hardware = 6;
                product_group = 14;
                product_type = 3;
              }))
            ≡ gw_get_all_nodes_information_ntf))
unfolding decode decode_core decode_gateway decode_version select mem require_exact
response_command-decode_example = response_command-decode version_frame refl

decode-wrong_length_example :
    decode (Frame.new gw_get_version_cfm (1 ∷ 2 ∷ []))
    ≡ err (truncated_payload gw_get_version_cfm 9 2)
unfolding find
decode-wrong_length_example =
    decode-wrong_length (Frame.new gw_get_version_cfm (1 ∷ 2 ∷ [])) 9 refl (omega arith)

abbrev group : GroupInformation
group = record {
  group_id = 3;
  order = 258;
  placement = 1;
  name = ascii "roof";
  velocity = 0;
  node_variation = 0;
  group_type = 0;
  object_count = 1;
  actuators = record { bytes = 4 ∷ replicate 24 0 };
  revision = 7;
}

abbrev group_payload : Bytes
group_payload =
    3
    ∷ 1
    ∷ 2
    ∷ 1
    ∷ (ascii "roof" ++ (replicate 60 0 ++ (0 ∷ 0 ∷ 0 ∷ 1 ∷ 4 ∷ (replicate 24 0 ++ (0 ∷ 7 ∷ [])))))

decode-encode_group_information_example :
    (length group_payload ≡ 99)
    × (decode_group_information group_payload gw_get_group_information_ntf ≡ ok group)
unfolding encode_group_information encode_fixed_string has_nul is_utf8
decode-encode_group_information_example =
    decode-encode_group_information group gw_get_group_information_ntf refl (omega arith)
      (omega arith) refl refl

abbrev always : Bytes → Result (Unit {0})
always bytes = ok tt

abbrev ask : List QueuedRequest
ask = record { request = get_version; reply = 7 } ∷ []

dispatch_next-Guarded_example : Guarded [] 5030 (dispatch_next always 30 5000 [] ask)
dispatch_next-Guarded_example = dispatch_next-Guarded always 30 5000 [] ask

abbrev asked_version : PendingRequest
asked_version = record {
  command = gw_get_version_req;
  expected_confirmation = gw_get_version_cfm;
  session_id = none;
  deadline = 5000;
  reply = 7;
}

handle_frame-safe_example :
    (let h = handle_frame version_frame (some asked_version) [] 120000 in
      Leaves asked_version h ⊎ Answers asked_version gw_get_version_cfm (decode version_frame) h)
handle_frame-safe_example = handle_frame-safe version_frame asked_version [] 120000

abbrev asked_move : PendingRequest
asked_move = record {
  command = gw_command_send_req;
  expected_confirmation = gw_command_send_cfm;
  session_id = some 5;
  deadline = 5000;
  reply = 9;
}

abbrev accepted_frame : Frame
accepted_frame = Frame.new gw_command_send_cfm (0 ∷ 5 ∷ 1 ∷ [])

handle_frame-sessions_example :
    (let h = handle_frame accepted_frame (some asked_move) ((4, 60) ∷ []) 120000 in
      (h.pending ≡ none)
      × (h.replies ≡ record { reply = 9; outcome = ok (command_accepted 5 1) } ∷ [])
      × ((other : ℕ)
          → find h.sessions other
            ≡ (if 5 == other then some 120000 else find ((4, 60) ∷ []) other)))
unfolding decode decode_core decode_session_status select mem require_exact session_id require
    session_id_at Sessions.session_id read_u16 response_session_id session_was_accepted
handle_frame-sessions_example =
    handle_frame-sessions accepted_frame asked_move ((4, 60) ∷ []) 120000 5 refl refl refl refl

abbrev waiting_actor : Actor
waiting_actor = record { requests = []; pending = some asked_move; sessions = (4, 60) ∷ [] }

abbrev late_tick : Clock
late_tick = record { dispatched = 5999; taken = 6000; swept = 6001 }

tick-IsTimely_example :
    (let r = take_input default_settings late_tick waiting_actor tick in
      (5000 ≤ 6000
        → (r.actor.pending ≡ none)
          × (r.replies
              ≡ record { reply = 9; outcome = err (request_timeout gw_command_send_req) } ∷ []))
      × (6000 < 5000 → (r.actor.pending ≡ some asked_move) × (r.replies ≡ []))
      × ((session deadline : ℕ) → find r.actor.sessions session ≡ some deadline → 6001 < deadline))
tick-IsTimely_example = tick-IsTimely default_settings late_tick waiting_actor asked_move refl

abbrev sends_version : Input
sends_version = command (send get_version 7)

abbrev shuts_down : Input
shuts_down = command (shutdown 8)

-- A request whose bytes the writer of the last round fails to write.
abbrev queued_actor : Actor
queued_actor = record { requests = ask; pending = none; sessions = [] }

one_request : Runs default_settings start (sends_version ∷ []) queued_actor [] []
unfolding round dispatch dispatch_next take_input
one_request = continues always (record { dispatched = 10; taken = 11; swept = 11 }) refl started

-- A writer that fails, and a clock that goes on.
abbrev failing : Bytes → Result (Unit {0})
failing bytes = err connection_closed

abbrev last_round : Clock
last_round = record { dispatched = 20; taken = 21; swept = 21 }

answered_once_example :
    times 7 (
      answered (
        []
        ++ (finish
            (round failing default_settings last_round queued_actor shuts_down)
            (record { shutdown_reply = none; disconnect_reason = some connection_closed })
            []
            (ok tt)).replies))
    ≡ times 7 (asked (sends_version ∷ [])) + times 7 (waiting_replies [])
unfolding round dispatch dispatch_next take_input prepare expected_confirmation known
    all_known_commands command_id request_session encode_request encode_payload Frame.encode
answered_once_example =
    answered_once default_settings one_request failing last_round shuts_down
      (record { shutdown_reply = none; disconnect_reason = some connection_closed }) refl [] (ok tt)
      7

abbrev state_bytes : Bytes
state_bytes = 0 ∷ 3 ∷ 0 ∷ 12 ∷ 15 ∷ []

-- The frame in two chunks.
read_frames-encodes_example :
    read_frames (Slip.new 1024) (ok (192 ∷ 0 ∷ 3 ∷ []) ∷ ok (0 ∷ 12 ∷ 15 ∷ 192 ∷ []) ∷ ok [] ∷ [])
    ≡ Incoming.frame (Frame.new gw_get_state_req []) ∷ closed connection_closed ∷ []
unfolding Frame.encode Slip.encode encode_bytes encode_byte checksum_from
read_frames-encodes_example =
    read_frames-encodes 1024 (Frame.new gw_get_state_req [] ∷ []) (state_bytes ∷ [])
      ((192 ∷ 0 ∷ 3 ∷ []) ∷ (0 ∷ 12 ∷ 15 ∷ 192 ∷ []) ∷ []) ((refl, omega arith, omega arith), tt)
      refl ((λ e. cc), ((λ e. cc), tt))

-- A session ends, a node is reported, and the discovery is finished.
abbrev discovery_events : List Received
discovery_events =
    event (session_timed_out 4)
    ∷ event (notification (node_information information))
    ∷ event (notification (acknowledgement gw_get_all_nodes_information_finished_ntf))
    ∷ []

abbrev rejected : ℕ
rejected = 3

read_frames-concat_example :
    read_frames (Slip.new 1024) (ok (192 ∷ 0 ∷ 3 ∷ []) ∷ ok (0 ∷ 12 ∷ 15 ∷ 192 ∷ []) ∷ ok [] ∷ [])
    ≡ read_frames (Slip.new 1024) (ok (192 ∷ 0 ∷ 3 ∷ 0 ∷ 12 ∷ 15 ∷ 192 ∷ []) ∷ ok [] ∷ [])
read_frames-concat_example =
    read_frames-concat (Slip.new 1024) ((192 ∷ 0 ∷ 3 ∷ []) ∷ (0 ∷ 12 ∷ 15 ∷ 192 ∷ []) ∷ [])
      ((λ e. cc), ((λ e. cc), tt)) (λ e. cc)

decode-IsSound_example : IsSound (command_accepted 5 1)
unfolding decode decode_core decode_session_status select mem require_exact session_id require
    session_id_at Sessions.session_id read_u16
decode-IsSound_example = decode-IsSound accepted_frame refl
