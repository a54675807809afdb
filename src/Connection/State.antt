-- ===== src/Connection/State.antt =====
-- What the actor of src/klf200/connection.rs keeps and exchanges. A `oneshot::Sender` is a number
-- that names it, an `Instant` the milliseconds of a clock, and an error stands where the source
-- keeps its text. The map of the sessions is a list of entries.
use velux2mqtt.Command.Requests.{Request}
use velux2mqtt.Error.{KlfError, Result}
use velux2mqtt.Prelude.{List, Option, ℕ}
use velux2mqtt.Response.{Response}
use velux2mqtt.Frame.{Frame}

pub data ConnectionEvent : Type 0 where
  notification : Response → ConnectionEvent
  unexpected : Response → ConnectionEvent
  session_timed_out : ℕ → ConnectionEvent
  protocol_error : KlfError → ConnectionEvent
  disconnected : KlfError → ConnectionEvent

pub data ActorCommand : Type 0 where
  send : (request : Request) (reply : ℕ) → ActorCommand
  shutdown : (reply : ℕ) → ActorCommand

pub record QueuedRequest : Type 0 where
  pub request : Request
  pub reply : ℕ

pub record PendingRequest : Type 0 where
  pub command : ℕ
  pub expected_confirmation : ℕ
  pub session_id : Option ℕ
  pub deadline : ℕ
  pub reply : ℕ

pub data Incoming : Type 0 where
  frame : Frame → Incoming
  protocol_error : KlfError → Incoming
  closed : KlfError → Incoming

-- What is sent through the channel of a request.
pub record Reply : Type 0 where
  pub reply : ℕ
  pub outcome : Result Response

abbrev pub Sessions : Type 0
Sessions = List (ℕ × ℕ)

-- `ConnectionSettings`, with its durations in milliseconds.
pub record ConnectionSettings : Type 0 where
  pub request_timeout : ℕ
  pub session_timeout : ℕ
  pub command_buffer : ℕ
  pub event_buffer : ℕ
  pub incoming_buffer : ℕ
  pub read_buffer_size : ℕ
  pub maximum_slip_frame_length : ℕ
  pub timeout_check_interval : ℕ

-- `ConnectionSettings::default`
abbrev pub default_settings : ConnectionSettings
default_settings = record {
  request_timeout = 5000;
  session_timeout = 120000;
  command_buffer = 16;
  event_buffer = 64;
  incoming_buffer = 32;
  read_buffer_size = 4096;
  maximum_slip_frame_length = 1024;
  timeout_check_interval = 50;
}
