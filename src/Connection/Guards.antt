-- ===== src/Connection/Guards.antt =====
-- What the actor lets through: which requests it writes, which frames answer the pending request,
-- and what each does to the sessions.
mod Confirming
use velux2mqtt.Connection.Frames.{
  confirm, answer, report, handle_frame, Handled, is_notification, with_confirmed,
}
use velux2mqtt.Connection.Dispatch.{dispatch_next, dispatch_prepared, prepare, in_use, Dispatched}
use velux2mqtt.Frame
use velux2mqtt.Connection.Commands.{
  confirmation_session_matches, response_session_id, session_was_accepted,
}
use velux2mqtt.CommandId.{expected_confirmation}
use velux2mqtt.Prelude.Maps.{find, find-insert, find-remove_key}
use velux2mqtt.Command.Encode.{command_id, request_session, encode_request}
use velux2mqtt.Command.Requests.{Request}
use velux2mqtt.Decode.{decode}
use velux2mqtt.Prelude.{
  subst, inl, inr, Bytes, Option, Option-cases, [], arith, none, some, true, ℕ, ◌∷◌, ◌≡◌, ◌⊎◌, ◌+◌,
  ◌==◌, ==_iff, Bool-cases, List, if_both, if_cases, length, refl, ◌≤◌, Option-split, if◌then◌else◌,
  ==_self, ap, Bool, false, sym, ◌∙◌,
}
use velux2mqtt.Error.{ok, Result, Result-both, Result-split, err, err≢ok}
use velux2mqtt.Connection.State.{Sessions, QueuedRequest, PendingRequest}
use velux2mqtt.Connection.Dispatch.{prepare, in_use}
use velux2mqtt.Frame.{Frame}
use velux2mqtt.Connection.Frames.{handle_frame}
use velux2mqtt.Decode.Arms.{Yields, Yields-ok, after, checked}
use velux2mqtt.Connection.Commands.{confirmation_session_matches}
use velux2mqtt.Response.{Response}
use velux2mqtt.Connection.Guards.Confirming.{confirmed-find, confirm-answer, handle_frame-confirm}

-- Whether a session is not active, if there is one.
abbrev Inactive : Sessions → Option ℕ → Type 0
Inactive sessions none = Unit
Inactive sessions (some session) = find sessions session ≡ none

in_use-Inactive :
    (sessions : Sessions) (session : Option ℕ)
    → in_use sessions session ≡ none
    → Inactive sessions session
in_use-Inactive sessions none h = tt
in_use-Inactive sessions (some session) h = elim (Option-cases (find sessions session)) [
  | inl e ↦ e
  | inr (deadline, e) ↦ absurd (ground (arith, e))
]

-- What holds of a request that passed the checks.
abbrev pub Checked : Sessions → Request → ℕ × Bytes → Type 0
Checked sessions request prepared =
    (expected_confirmation (command_id request) ≡ some prepared.0)
    × Inactive sessions (request_session request)

prepare-Checked :
    (sessions : Sessions) (request : Request)
    → Yields (Checked sessions request) (prepare sessions request)
unfolding prepare
prepare-Checked sessions request =
    let P = Yields (Checked sessions request) in
    Option-split P (expected_confirmation (command_id request)) _ _ (λ e. tt)
      (λ confirmation e.
        Option-split P (in_use sessions (request_session request)) _ _
          (λ free. after (Checked sessions request) (encode_request request) _ (λ frame f.
            checked (Checked sessions request) (Frame.encode frame)
              (λ bytes. (e, in_use-Inactive sessions (request_session request) free))))
          (λ session f. tt))

-- A pending request was checked and is due at the time.
abbrev pub Waits : Sessions → ℕ → Option PendingRequest → Type 0
Waits sessions deadline none = Unit
Waits sessions deadline (some pending) =
    (expected_confirmation pending.command ≡ some pending.expected_confirmation)
    × Inactive sessions pending.session_id
    × (pending.deadline ≡ deadline)

abbrev pub Guarded : Sessions → ℕ → Dispatched → Type 0
Guarded sessions deadline d =
    Waits sessions deadline d.pending
    × (length d.sent ≤ 1)
    × (d.pending ≡ none → d.result ≡ ok tt → (d.requests ≡ []) × (d.sent ≡ []))

-- A dispatch writes at most one request. The request that it leaves pending has a confirmation, for
-- which it waits until the deadline, and its session, if it has one, was not active. When nothing is
-- pending and the writer did not fail, the queue is empty and nothing was written.
pub dispatch_next-Guarded :
    (write : Bytes → Result (Unit {0})) (now timeout : ℕ) (sessions : Sessions)
    (requests : List QueuedRequest)
    → Guarded sessions (now + timeout) (dispatch_next write now timeout sessions requests)
unfolding dispatch_next dispatch_prepared
dispatch_next-Guarded write now timeout sessions [] = (tt, omega arith, λ e r. (refl, refl))
dispatch_next-Guarded write now timeout sessions (queued ∷ requests) =
    let P = Guarded sessions (now + timeout) in
    let ih = dispatch_next-Guarded write now timeout sessions requests in
    Result-split P (prepare sessions queued.request) _ _
      (λ prepared e.
        let passed =
          Yields-ok (Checked sessions queued.request) _ (prepare-Checked sessions queued.request)
            e in
        Result-both P (write prepared.1) _ _
          (λ written. ((passed.0, passed.1, refl), omega arith, λ e r. absurd (cc)))
          (λ failure. (tt, omega arith, λ e r. absurd (err≢ok _ _ r))))
      (λ failure. ih)

-- The two outcomes of a frame for the pending request: it is left, or it is answered.
abbrev pub Leaves : PendingRequest → Handled → Type 0
Leaves request h = (h.pending ≡ some request) × (h.replies ≡ [])

abbrev pub Answers : PendingRequest → ℕ → Result Response → Handled → Type 0
Answers request code decoded h =
    (h.pending ≡ none)
    × (h.replies ≡ record { reply = request.reply; outcome = decoded } ∷ [])
    × (request.expected_confirmation ≡ code)
    × Yields (λ response. confirmation_session_matches request.session_id response ≡ true) decoded

confirm-safe :
    (deadline : ℕ) (sessions : Sessions) (request : PendingRequest) (code : ℕ)
    (decoded : Result Response)
    → request.expected_confirmation ≡ code
    → (let h = confirm deadline sessions request decoded in
        Leaves request h ⊎ Answers request code decoded h)
unfolding confirm answer
confirm-safe deadline sessions request code (err failure) e = inr (refl, refl, e, tt)
confirm-safe deadline sessions request code (ok response) e =
    if_cases (λ (h : Handled). Leaves request h ⊎ Answers request code (ok response) h)
      (confirmation_session_matches request.session_id response)
      (λ matches. inr (refl, refl, e, matches)) (λ other. inl (refl, refl))

report-Leaves :
    (code : ℕ) (request : PendingRequest) (sessions : Sessions) (decoded : Result Response)
    → Leaves request (report code (some request) sessions decoded)
unfolding report
report-Leaves code request sessions (err failure) = (refl, refl)
report-Leaves code request sessions (ok response) =
    if_both (Leaves request) (is_notification code) (refl, refl) (refl, refl)

-- A frame leaves the pending request as it is and answers nothing; or it has the command that the
-- request expects and names the session of the request, if that has one and the frame can be
-- decoded, and the request is answered with what the frame decodes to.
pub handle_frame-safe :
    (received : Frame) (request : PendingRequest) (sessions : Sessions) (deadline : ℕ)
    → (let h = handle_frame received (some request) sessions deadline in
        Leaves request h ⊎ Answers request received.command (decode received) h)
unfolding handle_frame
handle_frame-safe received request sessions deadline =
    elim (Bool-cases (request.expected_confirmation == received.command)) [
      | inl e ↦
          rw (e, handle_frame)
            (confirm-safe deadline sessions request received.command (decode received)
              ((==_iff request.expected_confirmation received.command).0 e))
      | inr e ↦
          rw (e, handle_frame)
            (inl (report-Leaves received.command request sessions (decode received)))
    ]

-- What a confirmation of a request leaves.
abbrev Confirms : ℕ → Sessions → PendingRequest → ℕ → Response → Handled → Type 0
Confirms deadline sessions request session response h =
    (h.pending ≡ none)
    × (h.replies ≡ record { reply = request.reply; outcome = ok response } ∷ [])
    × ((other : ℕ)
        → find h.sessions other ≡ (
            if session == other
            then (if session_was_accepted response then some deadline else none)
            else find sessions other))

-- The confirmation of a request with a session, which can be decoded and names that session, answers
-- the request with its response, so that no request is pending, and decides the session: it is
-- active until the new deadline if the response accepts it and not active otherwise. Every other
-- session is as before.
pub handle_frame-sessions :
    (received : Frame) (request : PendingRequest) (sessions : Sessions) (deadline session : ℕ)
    {response : Response}
    → request.expected_confirmation ≡ received.command
    → request.session_id ≡ some session
    → decode received ≡ ok response
    → response_session_id response ≡ some session
    → (let h = handle_frame received (some request) sessions deadline in
        (h.pending ≡ none)
        × (h.replies ≡ record { reply = request.reply; outcome = ok response } ∷ [])
        × ((other : ℕ)
            → find h.sessions other ≡ (
                if session == other
                then (if session_was_accepted response then some deadline else none)
                else find sessions other)))
unfolding answer
handle_frame-sessions received request sessions deadline session {response} expected named decoded
      answers =
    subst (Confirms deadline sessions request session response)
      (sym (
        handle_frame-confirm received request sessions deadline expected
        ∙ ap (confirm deadline sessions request) decoded
        ∙ confirm-answer deadline sessions request session response named answers))
      (
        refl,
        refl,
        λ other.
            ap (λ id. find (with_confirmed deadline sessions id response) other) named
            ∙ confirmed-find deadline sessions session response other,
      )
