-- ===== src/Connection/Dispatch.antt =====
-- `dispatch_next` of src/klf200/connection.rs. What the writer does with bytes is an argument.
use velux2mqtt.Error.{
  ◌>>=◌, Result, connection_closed, err, missing_confirmation, ok, session_id_in_use,
}
use velux2mqtt.CommandId.{expected_confirmation}
use velux2mqtt.Prelude.Maps.{find}
use velux2mqtt.Command.Encode.{command_id, request_session, encode_request}
use velux2mqtt.Frame
use velux2mqtt.Slip
use velux2mqtt.Prelude.{◌+◌, Bytes, List, Option, [], none, some, ℕ, ◌∷◌}
use velux2mqtt.Connection.State.{QueuedRequest, Sessions, PendingRequest, Reply}
use velux2mqtt.Command.Requests.{Request}

pub record Dispatched : Type 0 where
  pub requests : List QueuedRequest
  pub pending : Option PendingRequest
  pub replies : List Reply
  pub sent : List Bytes
  pub result : Result (Unit {0})

-- Whether the session of the request is active.
abbrev pub in_use : Sessions → Option ℕ → Option ℕ
in_use sessions none = none
in_use sessions (some session) = elim (find sessions session) [
  | some deadline ↦ some session
  | none ↦ none
]

-- The checks before the request is written: its confirmation, its session, its encoding. Gives the
-- command of the confirmation and the bytes of the frame.
unfoldable pub prepare : Sessions → Request → Result (ℕ × Bytes)
prepare sessions request = elim (expected_confirmation (command_id request)) [
  | none ↦ err (missing_confirmation (command_id request))
  | some confirmation ↦ elim (in_use sessions (request_session request)) [
    | some session ↦ err (session_id_in_use session)
    | none ↦ do
      frame ← encode_request request
      bytes ← Frame.encode frame
      ok (confirmation, Slip.encode bytes)
  ]
]

module _ (write : Bytes → Result (Unit {0})) (now request_timeout : ℕ) (sessions : Sessions) where
  -- A request that is written is pending; one that cannot be written ends the loop.
  unfoldable pub dispatch_prepared : QueuedRequest → List QueuedRequest → ℕ × Bytes → Dispatched
  dispatch_prepared queued requests prepared = elim (write prepared.1) [
    | err failure ↦ record {
      requests = requests;
      pending = none;
      replies = record { reply = queued.reply; outcome = err connection_closed } ∷ [];
      sent = prepared.1 ∷ [];
      result = err failure;
    }
    | ok written ↦ record {
      requests = requests;
      pending = some (record {
        command = command_id queued.request;
        expected_confirmation = prepared.0;
        session_id = request_session queued.request;
        deadline = now + request_timeout;
        reply = queued.reply;
      });
      replies = [];
      sent = prepared.1 ∷ [];
      result = ok tt;
    }
  ]

  -- The loop over the queue. A request that fails a check is answered, and the next one is tried.
  unfoldable pub dispatch_next : List QueuedRequest → Dispatched
  unfolding dispatch_prepared
  dispatch_next [] = record {
    requests = [];
    pending = none;
    replies = [];
    sent = [];
    result = ok tt;
  }
  dispatch_next (queued ∷ requests) =
      let rest = dispatch_next requests in
      elim (prepare sessions queued.request) [
        | err failure ↦ record rest {
          replies = record { reply = queued.reply; outcome = err failure } ∷ rest.replies;
        }
        | ok prepared ↦ dispatch_prepared queued requests prepared
      ]
