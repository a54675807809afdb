-- ===== src/Connection/Outcome.antt =====
-- Every request that the actor takes is answered exactly once, by the time that its loop has ended.
mod Settling
use velux2mqtt.Connection.Run.{started, continues, Runs, finish, waiting_replies}
use velux2mqtt.Connection.Frames.{fail_outstanding}
use velux2mqtt.Connection.State.{
  Incoming, send, Reply, QueuedRequest, PendingRequest, Sessions, ConnectionSettings, shutdown,
  frame, closed, ConnectionEvent, ActorCommand,
}
use velux2mqtt.Prelude.{◌∙◌}
use velux2mqtt.Connection.Dispatch.{dispatch_next}
use velux2mqtt.Connection.Frames.{handle_frame, Handled}
use velux2mqtt.Connection.Actor.{
  Clock, commands_ended, incoming, incoming_ended, tick, command, Actor, Input, Round, handled,
  take_input, dispatch, round, Stop, start,
}
use velux2mqtt.Prelude.{
  ◌+◌, ◌++◌, Bytes, List, Option, [], ap, arith, map, none, refl, some, ℕ, ◌∷◌, ◌≡◌,
}
use velux2mqtt.Error.{Result}
use velux2mqtt.Connection.Frames.{
  closed_reply, handle_frame, expire_request, pending_reply, queued_replies,
}
use velux2mqtt.Connection.Dispatch.{dispatch_next}
use velux2mqtt.Connection.Answers.{
  times, Balanced, asked, answered, times-append, queued-append, dispatch_next-Balances,
  answered-append, outstanding, handle_frame-Balanced, expire_request-Balanced, answered-closed,
}
use velux2mqtt.Connection.Run.{Runs, continues, finish, waiting_replies}
use velux2mqtt.Connection.Outcome.Settling.{Runs-Settles, round-last, times-answered}

-- In every run of the loop, from the start to a round that ends it and through what is sent then:
-- each sender of a request is answered exactly as often as it was taken, as an input or from the
-- channel at the end. So no request is answered twice, none is left without an answer, and no
-- answer goes anywhere else, whatever the frames and the errors are, and whatever the clock and the writer do in each round.
pub answered_once :
    (settings : ConnectionSettings) {inputs : List Input} {last : Actor} {replies : List Reply}
    {events : List ConnectionEvent}
    → Runs settings start inputs last replies events
    → (write : Bytes → Result (Unit {0})) (clock : Clock) (input : Input) (stop : Stop)
    → (round write settings clock last input).stop ≡ some stop
    → (waiting : List ActorCommand) (closing : Result (Unit {0})) (id : ℕ)
    → times id (
        answered (
          replies ++ (finish (round write settings clock last input) stop waiting closing).replies))
      ≡ times id (asked inputs) + times id (waiting_replies waiting)
unfolding finish fail_outstanding times
answered_once settings {last = last} {replies = replies} runs write clock input stop h waiting
      closing id =
    let r = round write settings clock last input in
    let pending = pending_reply r.actor.pending in
    let queued = queued_replies r.actor.requests in
    let late = waiting_replies waiting in
    let closes : List ℕ → List Reply = map closed_reply in
    omega (
      arith,
      Runs-Settles id settings runs,
      round-last id write settings clock last input stop h,
      times-answered id replies (r.replies ++ ((closes pending ++ closes queued) ++ closes late)),
      times-answered id r.replies ((closes pending ++ closes queued) ++ closes late),
      times-answered id (closes pending ++ closes queued) (closes late),
      times-answered id (closes pending) (closes queued),
      ap (times id) (answered-closed pending),
      ap (times id) (answered-closed queued),
      ap (times id) (answered-closed late),
      times-append id pending queued,
    )
