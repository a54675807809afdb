-- ===== src/Connection/Run.antt =====
-- The whole of `run_actor` of src/klf200/connection.rs: rounds until one ends the loop, and what it
-- does then. What closing the writer gives, its timeout included, is an argument, and so are the
-- commands that wait in the channel when the loop ends.
use velux2mqtt.Connection.State.{
  send, shutdown, ConnectionSettings, ActorCommand, Reply, ConnectionEvent, disconnected,
}
use velux2mqtt.Prelude.{◌++◌, Bytes, List, Option, [], map, none, some, ℕ, ◌∷◌, ◌≡◌}
use velux2mqtt.Error.{KlfError, Result}
use velux2mqtt.Connection.Frames.{fail_outstanding, closed_reply}
use velux2mqtt.Connection.Actor.{Actor, Clock, Input, Round, round, Stop}

-- Each round has readings of the clock of its own, and a writer of its own: a round writes at most
-- once, so that this is whatever a writer with a state can do, and it can fail at any time.
pub data Runs (settings : ConnectionSettings)
    : Actor → List Input → Actor → List Reply → List ConnectionEvent → Type 0 where
  started : {actor : Actor} → Runs settings actor [] actor [] []
  continues :
      {actor last : Actor} {input : Input} {inputs : List Input} {replies : List Reply}
      {events : List ConnectionEvent} (write : Bytes → Result (Unit {0})) (clock : Clock)
      → (round write settings clock actor input).stop ≡ none
      → Runs settings (round write settings clock actor input).actor inputs last replies events
      → Runs settings actor
          (input ∷ inputs)
          last
          ((round write settings clock actor input).replies ++ replies)
          ((round write settings clock actor input).events ++ events)

-- The senders of the commands that wait; a shutdown among them is dropped.
unfoldable pub waiting_replies : List ActorCommand → List ℕ
waiting_replies [] = []
waiting_replies (send request reply ∷ commands) = reply ∷ waiting_replies commands
waiting_replies (shutdown reply ∷ commands) = waiting_replies commands

-- What is sent when the loop has ended.
pub record Ended : Type 0 where
  pub replies : List Reply
  pub events : List ConnectionEvent
  pub shutdown_replies : List (ℕ × Result (Unit {0}))

abbrev pub disconnect_events : Option KlfError → List ConnectionEvent
disconnect_events none = []
disconnect_events (some reason) = disconnected reason ∷ []

abbrev pub shutdown_answers : Option ℕ → Result (Unit {0}) → List (ℕ × Result (Unit {0}))
shutdown_answers none result = []
shutdown_answers (some reply) result = (reply, result) ∷ []

unfoldable pub finish : Round → Stop → List ActorCommand → Result (Unit {0}) → Ended
unfolding fail_outstanding waiting_replies
finish last stop waiting closing = record {
  replies =
      last.replies
      ++ (fail_outstanding last.actor.pending last.actor.requests
          ++ map closed_reply (waiting_replies waiting));
  events = last.events ++ disconnect_events stop.disconnect_reason;
  shutdown_replies = shutdown_answers stop.shutdown_reply closing;
}
