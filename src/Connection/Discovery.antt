-- ===== src/Connection/Discovery.antt =====
-- What the discovery of nodes in src/klf200/connection.rs makes of the events.
use velux2mqtt.Connection.Client.{
  collect_loop, event, Received, collect, finished, Verdict, skip, fail, lagged, ended,
}
use velux2mqtt.Connection.State.{
  ConnectionEvent, disconnected, notification, session_timed_out, unexpected,
}
use velux2mqtt.Response.{Response, acknowledgement, node_information}
use velux2mqtt.Prelude.{◌++◌, List, [], ℕ, ◌∷◌, ◌≡◌, ◌≢◌}
use velux2mqtt.Error.{
  ok, err, KlfError, Result, connection_closed, invalid_request, request_timeout,
}
use velux2mqtt.Response.Nodes.{NodeInformation}
use velux2mqtt.CommandId.Constants.{
  gw_get_all_nodes_information_finished_ntf, gw_get_all_nodes_information_req,
}

-- The events that say nothing about a discovery.
pub data Ignored : Received → Type 0 where
  unexpected_response : (response : Response) → Ignored (event (unexpected response))
  session_ended : (session_id : ℕ) → Ignored (event (session_timed_out session_id))
  other_acknowledgement :
      (command : ℕ)
      → command ≢ gw_get_all_nodes_information_finished_ntf
      → Ignored (event (notification (acknowledgement command)))
  other_notification :
      (response : Response)
      → ((node : NodeInformation) → response ≢ node_information node)
      → ((command : ℕ) → response ≢ acknowledgement command)
      → Ignored (event (notification response))

abbrev pub appended : {A : Type 0} → List A → Result (List A) → Result (List A)
appended found (ok items) = ok (found ++ items)
appended found (err failure) = err failure

-- What a discovery is to make of the events: the nodes that are reported before the finished
-- notification, in order, or the first thing that goes wrong before it.
pub data Discovers : List Received → Result (List NodeInformation) → Type 0 where
  runs_out : Discovers [] (err (request_timeout gw_get_all_nodes_information_req))
  finishes :
      (behind : List Received)
      → Discovers
          (event (notification (acknowledgement gw_get_all_nodes_information_finished_ntf))
            ∷ behind)
          (ok [])
  finds :
      {events : List Received} {result : Result (List NodeInformation)} (node : NodeInformation)
      → Discovers events result
      → Discovers
          (event (notification (node_information node)) ∷ events)
          (appended (node ∷ []) result)
  ignores :
      {received : Received} {events : List Received} {result : Result (List NodeInformation)}
      → Ignored received
      → Discovers events result
      → Discovers (received ∷ events) result
  disconnects :
      (reason : KlfError) (behind : List Received)
      → Discovers (event (disconnected reason) ∷ behind) (err connection_closed)
  breaks :
      (failure : KlfError) (behind : List Received)
      → Discovers (event (ConnectionEvent.protocol_error failure) ∷ behind) (err failure)
  loses_events :
      (behind : List Received)
      → Discovers (lagged ∷ behind) (err (invalid_request "node discovery event receiver lagged"))
  closes : (behind : List Received) → Discovers (ended ∷ behind) (err connection_closed)

module _ {A : Type 0} (decide : Received → Verdict A) (request : ℕ) where
  -- A round of the loop, after its decision.
  abbrev decided : List A → List Received → Verdict A → Result (List A)
  decided found events (collect a) = collect_loop decide request (found ++ (a ∷ [])) events
  decided found events finished = ok found
  decided found events (fail failure) = err failure
  decided found events skip = collect_loop decide request found events

  -- What was found before the loop comes before what it finds.
  abbrev Continues : List Received → Type 0
  Continues events =
      (found : List A)
      → collect_loop decide request found events
        ≡ appended found (collect_loop decide request [] events)
