-- ===== src/Connection/Outcome/Settling.antt =====
-- What each part of a round, and a run of rounds, answers and leaves waiting.
use velux2mqtt.Connection.Run.{started, continues, Runs}
use velux2mqtt.Connection.State.{
  Incoming, send, Reply, QueuedRequest, PendingRequest, Sessions, ConnectionSettings, shutdown,
  frame, closed, ConnectionEvent,
}
use velux2mqtt.Prelude.{◌∙◌}
use velux2mqtt.Connection.Dispatch.{dispatch_next}
use velux2mqtt.Connection.Frames.{handle_frame, Handled}
use velux2mqtt.Connection.Actor.{
  Clock, commands_ended, incoming, incoming_ended, tick, command, Actor, Input, Round, handled,
  take_input, dispatch, round, Stop,
}
use velux2mqtt.Prelude.{
  ◌+◌, ◌++◌, Bytes, List, Option, [], ap, arith, none, refl, some, ℕ, ◌∷◌, ◌≡◌,
}
use velux2mqtt.Error.{Result}
use velux2mqtt.Connection.Frames.{handle_frame, expire_request, pending_reply, queued_replies}
use velux2mqtt.Connection.Dispatch.{dispatch_next}
use velux2mqtt.Connection.Answers.{
  times, Balanced, asked, answered, times-append, queued-append, dispatch_next-Balances,
  answered-append, outstanding, handle_frame-Balanced, expire_request-Balanced,
}
use velux2mqtt.Connection.Run.{Runs, continues}

module _ (id : ℕ) where
  -- A part of a round answers what no longer waits, besides the given number of new requests.
  abbrev Settles : Actor → ℕ → Round → Type 0
  Settles actor new r =
      times id (answered r.replies) + times id (outstanding r.actor)
      ≡ times id (outstanding actor) + new

  handled-Settles :
      (actor : Actor) (h : Handled)
      → Balanced id actor.pending h
      → Settles actor 0 (handled actor h)
  handled-Settles actor h e = omega (
    arith,
    e,
    times-append id (pending_reply h.pending) (queued_replies actor.requests),
    times-append id (pending_reply actor.pending) (queued_replies actor.requests),
  )

  take_input-Settles :
      (settings : ConnectionSettings) (clock : Clock) (actor : Actor) (input : Input)
      → Settles actor (times id (asked (input ∷ []))) (take_input settings clock actor input)
  unfolding take_input asked times
  take_input-Settles settings clock actor (command (send request reply)) =
      let requests = queued_replies actor.requests in
      let waiting = pending_reply actor.pending in
      let queued : QueuedRequest = record { request = request; reply = reply } in
      omega (
        arith,
        ap (λ (ids : List ℕ). times id (waiting ++ ids))
            (queued-append actor.requests (queued ∷ [])),
        times-append id requests (reply ∷ []),
        times-append id waiting (requests ++ (reply ∷ [])),
        times-append id waiting requests,
      )
  take_input-Settles settings clock actor (command (shutdown reply)) = omega arith
  take_input-Settles settings clock actor commands_ended = omega arith
  take_input-Settles settings clock actor (incoming (frame received)) =
      handled-Settles actor
        (handle_frame received actor.pending actor.sessions
          (clock.taken + settings.session_timeout))
        (handle_frame-Balanced id received actor.pending actor.sessions _)
  take_input-Settles settings clock actor (incoming (Incoming.protocol_error failure)) = omega arith
  take_input-Settles settings clock actor (incoming (closed failure)) = omega arith
  take_input-Settles settings clock actor incoming_ended = omega arith
  take_input-Settles settings clock actor tick =
      handled-Settles actor (expire_request clock.taken actor.pending actor.sessions)
        (expire_request-Balanced id clock.taken actor.pending actor.sessions)

  stop_asks_nothing :
      (settings : ConnectionSettings) (clock : Clock) (actor : Actor) (input : Input) (stop : Stop)
      → (take_input settings clock actor input).stop ≡ some stop
      → times id (asked (input ∷ [])) ≡ 0
  unfolding take_input asked times
  stop_asks_nothing settings clock actor (command (send request reply)) stop h = absurd (cc)
  stop_asks_nothing settings clock actor (command (shutdown reply)) stop h = refl
  stop_asks_nothing settings clock actor commands_ended stop h = refl
  stop_asks_nothing settings clock actor (incoming received) stop h = refl
  stop_asks_nothing settings clock actor incoming_ended stop h = refl
  stop_asks_nothing settings clock actor tick stop h = refl

  times-asked :
      (input : Input) (inputs : List Input)
      → times id (asked (input ∷ inputs)) ≡ times id (asked (input ∷ [])) + times id (asked inputs)
  unfolding asked times
  times-asked (command (send request reply)) inputs = ground arith
  times-asked (command (shutdown reply)) inputs = omega arith
  times-asked commands_ended inputs = omega arith
  times-asked (incoming received) inputs = omega arith
  times-asked incoming_ended inputs = omega arith
  times-asked tick inputs = omega arith

  pub times-answered :
      (xs ys : List Reply)
      → times id (answered (xs ++ ys)) ≡ times id (answered xs) + times id (answered ys)
  times-answered xs ys =
      ap (times id) (answered-append xs ys) ∙ times-append id (answered xs) (answered ys)

  module _ (write : Bytes → Result (Unit {0})) (settings : ConnectionSettings) where
    dispatch_from :
        (now : ℕ) (requests : List QueuedRequest) (pending : Option PendingRequest)
        (sessions : Sessions)
        → (let actor : Actor = record {
          requests = requests;
          pending = pending;
          sessions = sessions;
        } in
            Settles actor 0 (dispatch write settings now actor))
    unfolding dispatch times
    dispatch_from now requests (some request) sessions = omega arith
    dispatch_from now requests none sessions =
        let d = dispatch_next write now settings.request_timeout sessions requests in
        omega (
          arith,
          dispatch_next-Balances id write now settings.request_timeout sessions requests,
          times-append id (pending_reply d.pending) (queued_replies d.requests),
        )

    dispatch-Settles :
        (now : ℕ) (actor : Actor) → Settles actor 0 (dispatch write settings now actor)
    dispatch-Settles now actor = dispatch_from now actor.requests actor.pending actor.sessions

    both-Settles :
        (actor : Actor) (new : ℕ) (first second : Round)
        → Settles actor 0 first
        → Settles first.actor new second
        → Settles actor new (record second {
          replies = first.replies ++ second.replies;
          events = first.events ++ second.events;
        })
    both-Settles actor new first second h k = omega (
      arith,
      h,
      k,
      ap (times id) (answered-append first.replies second.replies),
      times-append id (answered first.replies) (answered second.replies),
    )

    -- The two parts of a round, with the test of the loop between them.
    module _ (actor : Actor) (first second : Round) (h : Settles actor 0 first) where
      joined : Option Stop → Round
      joined (some stop) = first
      joined none = record second {
        replies = first.replies ++ second.replies;
        events = first.events ++ second.events;
      }

      running-Settles :
          (new : ℕ) (stop : Option Stop)
          → Settles first.actor new second
          → first.stop ≡ stop
          → (joined stop).stop ≡ none
          → Settles actor new (joined stop)
      unfolding joined
      running-Settles new none k e r = both-Settles actor new first second h k
      running-Settles new (some stop) k e r = absurd (cc)

      ending-Settles :
          (new : ℕ) (stop : Option Stop) (last : Stop)
          → Settles first.actor new second
          → (second.stop ≡ some last → new ≡ 0)
          → (joined stop).stop ≡ some last
          → Settles actor 0 (joined stop)
      unfolding joined
      ending-Settles new none last k none_new r =
          omega (arith, none_new r, both-Settles actor new first second h k)
      ending-Settles new (some stop) last k none_new r = h

    round-Settles :
        (clock : Clock) (actor : Actor) (input : Input)
        → (round write settings clock actor input).stop ≡ none
        → Settles actor (times id (asked (input ∷ []))) (round write settings clock actor input)
    unfolding round joined
    round-Settles clock actor input h =
        let first = dispatch write settings clock.dispatched actor in
        let second = take_input settings clock first.actor input in
        running-Settles actor first second (dispatch-Settles clock.dispatched actor) _ first.stop
          (take_input-Settles settings clock first.actor input) refl h

    pub round-last :
        (clock : Clock) (actor : Actor) (input : Input) (stop : Stop)
        → (round write settings clock actor input).stop ≡ some stop
        → Settles actor 0 (round write settings clock actor input)
    unfolding round joined
    round-last clock actor input stop h =
        let first = dispatch write settings clock.dispatched actor in
        let second = take_input settings clock first.actor input in
        ending-Settles actor first second (dispatch-Settles clock.dispatched actor) _ first.stop
          stop (take_input-Settles settings clock first.actor input)
          (stop_asks_nothing settings clock first.actor input stop) h

  pub Runs-Settles :
      (settings : ConnectionSettings) {actor last : Actor} {inputs : List Input}
      {replies : List Reply} {events : List ConnectionEvent}
      → Runs settings actor inputs last replies events
      → times id (answered replies) + times id (outstanding last)
        ≡ times id (outstanding actor) + times id (asked inputs)
  unfolding times asked
  Runs-Settles settings started = omega arith
  Runs-Settles settings
        (continues {actor = actor} {input = input} {inputs = inputs} {replies = replies} write clock
          running runs) =
      let r = round write settings clock actor input in
      omega (
        arith,
        Runs-Settles settings runs,
        round-Settles write settings clock actor input running,
        ap (times id) (answered-append r.replies replies),
        times-append id (answered r.replies) (answered replies),
        times-asked input inputs,
      )
