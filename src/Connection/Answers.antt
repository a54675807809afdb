-- ===== src/Connection/Answers.antt =====
-- What the parts of a round answer: each request that stops waiting, and no other.
use velux2mqtt.Connection.State.{send, Reply, QueuedRequest, PendingRequest, Sessions}
use velux2mqtt.Prelude.{inl, inr, Bool-cases, if_both}
use velux2mqtt.Connection.Dispatch.{dispatch_prepared, dispatch_next, prepare, Dispatched}
use velux2mqtt.Connection.Frames.{answer, confirm, report, handle_frame, Handled, is_notification}
use velux2mqtt.Decode.{decode}
use velux2mqtt.Connection.Actor.{command, Actor, Input}
use velux2mqtt.Prelude.{
  ◌+◌, ◌++◌, ◌==◌, Bytes, List, Option, [], ap, arith, if◌then◌else◌, map, none, refl, some, suc, ℕ,
  ◌∷◌, ◌≡◌,
}
use velux2mqtt.Error.{Result, err, ok, Result-both}
use velux2mqtt.Connection.Frames.{
  closed_reply, handle_frame, expire_request, pending_reply, queued_replies, confirm, report,
  answer,
}
use velux2mqtt.Connection.Dispatch.{dispatch_next, dispatch_prepared}
use velux2mqtt.Frame.{Frame}
use velux2mqtt.Response.{Response}
use velux2mqtt.Connection.Commands.{confirmation_session_matches}

-- How often the number stands in the list.
unfoldable pub times : ℕ → List ℕ → ℕ
times id [] = 0
times id (x ∷ xs) = if x == id then suc (times id xs) else times id xs

abbrev pub answered : List Reply → List ℕ
answered [] = []
answered (sent ∷ replies) = sent.reply ∷ answered replies

-- The requests that wait for an answer.
abbrev pub outstanding : Actor → List ℕ
outstanding actor = pending_reply actor.pending ++ queued_replies actor.requests

-- The requests that the inputs bring.
unfoldable pub asked : List Input → List ℕ
asked [] = []
asked (command (send request reply) ∷ inputs) = reply ∷ asked inputs
asked (_ ∷ inputs) = asked inputs

pub times-append : (id : ℕ) (xs ys : List ℕ) → times id (xs ++ ys) ≡ times id xs + times id ys
unfolding times
times-append id [] ys = omega arith
times-append id (x ∷ xs) ys = ground (arith, times-append id xs ys)

pub answered-append : (xs ys : List Reply) → answered (xs ++ ys) ≡ answered xs ++ answered ys
answered-append [] ys = refl
answered-append (x ∷ xs) ys = ap (◌∷◌ x.reply) (answered-append xs ys)

pub answered-closed : (ids : List ℕ) → answered (map closed_reply ids) ≡ ids
answered-closed [] = refl
answered-closed (id ∷ ids) = ap (◌∷◌ id) (answered-closed ids)

pub queued-append :
    (xs ys : List QueuedRequest)
    → queued_replies (xs ++ ys) ≡ queued_replies xs ++ queued_replies ys
queued-append [] ys = refl
queued-append (x ∷ xs) ys = ap (◌∷◌ x.reply) (queued-append xs ys)

module _ (id : ℕ) where
  -- What was sent and what still waits, together.
  abbrev pub balance : List Reply → Option PendingRequest → List QueuedRequest → ℕ
  balance replies pending requests =
      times id (answered replies)
      + times id (pending_reply pending)
      + times id (queued_replies requests)

  abbrev pub Balances : List QueuedRequest → Dispatched → Type 0
  Balances requests d = balance d.replies d.pending d.requests ≡ times id (queued_replies requests)

  prepared-Balances :
      (write : Bytes → Result (Unit {0})) (now timeout : ℕ) (sessions : Sessions)
      (queued : QueuedRequest) (requests : List QueuedRequest) (prepared : ℕ × Bytes)
      → Balances
          (queued ∷ requests)
          (dispatch_prepared write now timeout sessions queued requests prepared)
  unfolding dispatch_prepared times
  prepared-Balances write now timeout sessions queued requests prepared =
      Result-both (Balances (queued ∷ requests)) (write prepared.1) _ _ (λ written. ground arith)
        (λ failure. ground arith)

  pub dispatch_next-Balances :
      (write : Bytes → Result (Unit {0})) (now timeout : ℕ) (sessions : Sessions)
      (requests : List QueuedRequest)
      → Balances requests (dispatch_next write now timeout sessions requests)
  unfolding dispatch_next times
  dispatch_next-Balances write now timeout sessions [] = refl
  dispatch_next-Balances write now timeout sessions (queued ∷ requests) =
      let ih = dispatch_next-Balances write now timeout sessions requests in
      Result-both (Balances (queued ∷ requests)) (prepare sessions queued.request) _ _
        (prepared-Balances write now timeout sessions queued requests)
        (λ failure. ground (arith, ih))

  -- What a handler answers no longer waits.
  abbrev pub Balanced : Option PendingRequest → Handled → Type 0
  Balanced pending h =
      times id (answered h.replies) + times id (pending_reply h.pending)
      ≡ times id (pending_reply pending)

  report-Balanced :
      (code : ℕ) (pending : Option PendingRequest) (sessions : Sessions) (decoded : Result Response)
      → Balanced pending (report code pending sessions decoded)
  unfolding report times
  report-Balanced code pending sessions (ok response) =
      if_both (Balanced pending) (is_notification code) (omega arith) (omega arith)
  report-Balanced code pending sessions (err failure) = omega arith

  confirm-Balanced :
      (deadline : ℕ) (sessions : Sessions) (request : PendingRequest) (decoded : Result Response)
      → Balanced (some request) (confirm deadline sessions request decoded)
  unfolding confirm answer times
  confirm-Balanced deadline sessions request (ok response) =
      if_both (Balanced (some request)) (confirmation_session_matches request.session_id response)
        (omega arith) (omega arith)
  confirm-Balanced deadline sessions request (err failure) = omega arith

  pub handle_frame-Balanced :
      (received : Frame) (pending : Option PendingRequest) (sessions : Sessions) (deadline : ℕ)
      → Balanced pending (handle_frame received pending sessions deadline)
  unfolding handle_frame
  handle_frame-Balanced received none sessions deadline =
      report-Balanced received.command none sessions (decode received)
  handle_frame-Balanced received (some request) sessions deadline =
      elim (Bool-cases (request.expected_confirmation == received.command)) [
        | inl e ↦
            rw (e, handle_frame) (confirm-Balanced deadline sessions request (decode received))
        | inr e ↦
            rw (e, handle_frame)
              (report-Balanced received.command (some request) sessions (decode received))
      ]

  pub expire_request-Balanced :
      (now : ℕ) (pending : Option PendingRequest) (sessions : Sessions)
      → Balanced pending (expire_request now pending sessions)
  unfolding expire_request times
  expire_request-Balanced now none sessions = refl
  expire_request-Balanced now (some request) sessions = ground arith
