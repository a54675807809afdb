-- ===== src/Connection/Frames.antt =====
-- `handle_frame`, `expire_request`, `expire_sessions` and `fail_outstanding` of
-- src/klf200/connection.rs, each with the replies and events that it sends.
use velux2mqtt.Prelude.Maps.{insert, remove_key, remove_keys}
use velux2mqtt.CommandId.{kind, CommandKind}
use velux2mqtt.Decode.{decode}
use velux2mqtt.Connection.State.{
  unexpected, session_timed_out, ConnectionEvent, PendingRequest, Sessions, Reply, QueuedRequest,
}
use velux2mqtt.Error.{request_timeout, connection_closed, Result, err, ok}
use velux2mqtt.Prelude.{
  ◌++◌, ◌==◌, Bool, List, Option, [], if◌then◌else◌, false, leb, map, none, some, true, ℕ, ◌∷◌,
}
use velux2mqtt.Response.{Response}
use velux2mqtt.Frame.{Frame}
use velux2mqtt.Connection.Commands.{
  session_was_accepted, confirmation_session_matches, terminal_session_id,
}

pub record Handled : Type 0 where
  pub pending : Option PendingRequest
  pub sessions : Sessions
  pub replies : List Reply
  pub events : List ConnectionEvent

abbrev pub without_session : Sessions → Option ℕ → Sessions
without_session sessions none = sessions
without_session sessions (some session) = remove_key sessions session

-- The sessions after the response to a request with the session, if it has one.
abbrev pub with_confirmed : ℕ → Sessions → Option ℕ → Response → Sessions
with_confirmed deadline sessions none response = sessions
with_confirmed deadline sessions (some session) response =
    if session_was_accepted response
    then insert sessions session deadline
    else remove_key sessions session

-- The reply to a request whose confirmation came.
unfoldable pub answer : ℕ → Sessions → PendingRequest → Result Response → Handled
answer deadline sessions request (ok response) = record {
  pending = none;
  sessions = with_confirmed deadline sessions request.session_id response;
  replies = record { reply = request.reply; outcome = ok response } ∷ [];
  events = [];
}
answer deadline sessions request (err failure) = record {
  pending = none;
  sessions = without_session sessions request.session_id;
  replies = record { reply = request.reply; outcome = err failure } ∷ [];
  events = [];
}

-- A frame with the command that the pending request expects. A confirmation for another session is
-- reported, and the request stays pending.
unfoldable pub confirm : ℕ → Sessions → PendingRequest → Result Response → Handled
unfolding answer
confirm deadline sessions request (ok response) =
    if confirmation_session_matches request.session_id response
    then answer deadline sessions request (ok response)
    else record {
      pending = some request;
      sessions = sessions;
      replies = [];
      events = unexpected response ∷ [];
    }
confirm deadline sessions request (err failure) = answer deadline sessions request (err failure)

abbrev pub is_notification : ℕ → Bool
is_notification command = elim (kind command) [ CommandKind.notification ↦ true | _ ↦ false ]

-- Any other frame.
unfoldable pub report : ℕ → Option PendingRequest → Sessions → Result Response → Handled
report command pending sessions (ok response) =
    if is_notification command
    then record {
      pending = pending;
      sessions = without_session sessions (terminal_session_id response);
      replies = [];
      events = ConnectionEvent.notification response ∷ [];
    }
    else record {
      pending = pending;
      sessions = sessions;
      replies = [];
      events = unexpected response ∷ [];
    }
report command pending sessions (err failure) = record {
  pending = pending;
  sessions = sessions;
  replies = [];
  events = ConnectionEvent.protocol_error failure ∷ [];
}

abbrev pub expects : Option PendingRequest → ℕ → Option PendingRequest
expects none command = none
expects (some request) command =
    if request.expected_confirmation == command then some request else none

unfoldable pub handle_frame : Frame → Option PendingRequest → Sessions → ℕ → Handled
unfolding confirm report
handle_frame frame pending sessions deadline = elim (expects pending frame.command) [
  | some request ↦ confirm deadline sessions request (decode frame)
  | none ↦ report frame.command pending sessions (decode frame)
]

unfoldable pub expire_request : ℕ → Option PendingRequest → Sessions → Handled
expire_request now none sessions = record {
  pending = none;
  sessions = sessions;
  replies = [];
  events = [];
}
expire_request now (some request) sessions =
    if leb request.deadline now
    then record {
      pending = none;
      sessions = without_session sessions request.session_id;
      replies =
          record { reply = request.reply; outcome = err (request_timeout request.command) } ∷ [];
      events = [];
    }
    else record { pending = some request; sessions = sessions; replies = []; events = [] }

-- The sessions whose deadline has passed.
unfoldable pub expired : ℕ → Sessions → List ℕ
expired now [] = []
expired now (entry ∷ sessions) =
    let rest = expired now sessions in if leb entry.1 now then entry.0 ∷ rest else rest

unfoldable pub expire_sessions : ℕ → Sessions → Sessions × List ConnectionEvent
unfolding expired
expire_sessions now sessions =
    (remove_keys sessions (expired now sessions), map session_timed_out (expired now sessions))

abbrev pub closed_reply : ℕ → Reply
closed_reply reply = record { reply = reply; outcome = err connection_closed }

abbrev pub pending_reply : Option PendingRequest → List ℕ
pending_reply none = []
pending_reply (some request) = request.reply ∷ []

abbrev pub queued_replies : List QueuedRequest → List ℕ
queued_replies [] = []
queued_replies (queued ∷ requests) = queued.reply ∷ queued_replies requests

unfoldable pub fail_outstanding : Option PendingRequest → List QueuedRequest → List Reply
fail_outstanding pending requests =
    map closed_reply (pending_reply pending) ++ map closed_reply (queued_replies requests)
