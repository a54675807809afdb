-- ===== src/Connection/Actor.antt =====
-- `run_actor` of src/klf200/connection.rs. The rounds of its loop are the inputs that `select!`
-- takes, in their order, each with the time; the tasks and channels around it are left out.
use velux2mqtt.Connection.State.{
  send, shutdown, frame, closed, ConnectionEvent, Incoming, ActorCommand, QueuedRequest, Reply,
  ConnectionSettings, PendingRequest, Sessions,
}
use velux2mqtt.Connection.Dispatch.{dispatch_next}
use velux2mqtt.Prelude.{◌+◌, ◌++◌, Bytes, List, Option, [], none, some, ℕ, ◌∷◌}
use velux2mqtt.Error.{KlfError, Result, connection_closed, err, ok}
use velux2mqtt.Connection.Frames.{Handled, handle_frame, expire_request, expire_sessions}

-- What a round takes: a command or the end of their channel, what the reader found or the end of
-- its channel, or a tick.
pub data Input : Type 0 where
  command : ActorCommand → Input
  commands_ended : Input
  incoming : Incoming → Input
  incoming_ended : Input
  tick : Input

pub record Actor : Type 0 where
  pub requests : List QueuedRequest
  pub pending : Option PendingRequest
  pub sessions : Sessions

abbrev pub start : Actor
start = record { requests = []; pending = none; sessions = [] }

-- Why the loop ended: the shutdown to be answered, and the reason of a lost connection.
pub record Stop : Type 0 where
  pub shutdown_reply : Option ℕ
  pub disconnect_reason : Option KlfError

-- A part of a round: the actor behind it, whether the loop ended, and what was sent.
pub record Round : Type 0 where
  pub actor : Actor
  pub stop : Option Stop
  pub replies : List Reply
  pub events : List ConnectionEvent

abbrev pub quiet : Actor → Option Stop → Round
quiet actor stop = record { actor = actor; stop = stop; replies = []; events = [] }

abbrev pub lost : KlfError → Option Stop
lost failure = some (record { shutdown_reply = none; disconnect_reason = some failure })

abbrev pub handled : Actor → Handled → Round
handled actor h = record {
  actor = record actor { pending = h.pending; sessions = h.sessions };
  stop = none;
  replies = h.replies;
  events = h.events;
}

-- The clock each time that a round reads it: when a request has been written, when the input is
-- handled, and in a tick when the sessions are. Nothing is assumed of them.
pub record Clock : Type 0 where
  pub dispatched : ℕ
  pub taken : ℕ
  pub swept : ℕ

-- The arms of `select!`.
unfoldable pub take_input : ConnectionSettings → Clock → Actor → Input → Round
unfolding handle_frame expire_request expire_sessions
take_input settings clock actor (command (send request reply)) =
    quiet
      (record actor {
        requests = actor.requests ++ (record { request = request; reply = reply } ∷ []);
      })
      none
take_input settings clock actor (command (shutdown reply)) =
    quiet actor (some (record { shutdown_reply = some reply; disconnect_reason = none }))
take_input settings clock actor commands_ended =
    quiet actor (some (record { shutdown_reply = none; disconnect_reason = none }))
take_input settings clock actor (incoming (frame received)) =
    handled actor
      (handle_frame received actor.pending actor.sessions (clock.taken + settings.session_timeout))
take_input settings clock actor (incoming (Incoming.protocol_error failure)) =
    record (quiet actor none) { events = ConnectionEvent.protocol_error failure ∷ [] }
take_input settings clock actor (incoming (closed failure)) = quiet actor (lost failure)
take_input settings clock actor incoming_ended = quiet actor (lost connection_closed)
take_input settings clock actor tick =
    let requested = expire_request clock.taken actor.pending actor.sessions in
    let (sessions, timed_out) = expire_sessions clock.swept requested.sessions in
    record (handled actor requested) {
      actor = record actor { pending = requested.pending; sessions = sessions };
      events = timed_out;
    }

module _ (write : Bytes → Result (Unit {0})) (settings : ConnectionSettings) where
  -- The start of a round, which dispatches unless a request is pending.
  unfoldable pub dispatch : ℕ → Actor → Round
  unfolding dispatch_next
  dispatch now actor = elim actor.pending [
    | some request ↦ quiet actor none
    | none ↦
        let d = dispatch_next write now settings.request_timeout actor.sessions actor.requests in
        record {
          actor = record actor { requests = d.requests; pending = d.pending };
          stop = elim d.result [ ok done ↦ none | err failure ↦ lost failure ];
          replies = d.replies;
          events = [];
        }
  ]

  -- A round of the loop.
  unfoldable pub round : Clock → Actor → Input → Round
  unfolding dispatch take_input
  round clock actor input =
      let first = dispatch clock.dispatched actor in
      let second = take_input settings clock first.actor input in
      elim first.stop [
        | some stop ↦ first
        | none ↦ record second {
          replies = first.replies ++ second.replies;
          events = first.events ++ second.events;
        }
      ]
