-- ===== src/Connection/Guards/Confirming.antt =====
-- What the confirmation of a request does, where it names the session of the request.
use velux2mqtt.Connection.Frames.{confirm, answer, handle_frame, Handled, with_confirmed}
use velux2mqtt.Connection.Commands.{
  confirmation_session_matches, response_session_id, session_was_accepted,
}
use velux2mqtt.Prelude.Maps.{find, find-insert, find-remove_key}
use velux2mqtt.Decode.{decode}
use velux2mqtt.Prelude.{
  inl, inr, none, some, true, ℕ, ◌≡◌, ◌==◌, ==_iff, Bool-cases, if_cases, refl, if◌then◌else◌,
  ==_self, ap, Bool, false, sym, ◌∙◌,
}
use velux2mqtt.Error.{ok}
use velux2mqtt.Connection.State.{Sessions, PendingRequest}
use velux2mqtt.Frame.{Frame}
use velux2mqtt.Connection.Frames.{handle_frame}
use velux2mqtt.Connection.Commands.{confirmation_session_matches}
use velux2mqtt.Response.{Response}

pub confirmed-find :
    (deadline : ℕ) (sessions : Sessions) (session : ℕ) (response : Response) (other : ℕ)
    → find (with_confirmed deadline sessions (some session) response) other ≡ (
        if session == other
        then (if session_was_accepted response then some deadline else none)
        else find sessions other)
confirmed-find deadline sessions session response other =
    elim (Bool-cases (session_was_accepted response)) [
      | inl e ↦ rw (e, find-insert sessions session deadline other) refl
      | inr e ↦ rw (e, find-remove_key sessions session other) refl
    ]

matches_own :
    (session : ℕ) (response : Response)
    → response_session_id response ≡ some session
    → confirmation_session_matches (some session) response ≡ true
unfolding confirmation_session_matches
matches_own session response h = rw h (==_self session)

true≢false : ◌≡◌ {A = Bool} true false → ⊥
true≢false h = cc

pub confirm-answer :
    (deadline : ℕ) (sessions : Sessions) (request : PendingRequest) (session : ℕ)
    (response : Response)
    → request.session_id ≡ some session
    → response_session_id response ≡ some session
    → confirm deadline sessions request (ok response)
      ≡ answer deadline sessions request (ok response)
unfolding confirm
confirm-answer deadline sessions request session response named answers =
    if_cases (λ (h : Handled). h ≡ answer deadline sessions request (ok response))
      (confirmation_session_matches request.session_id response) (λ matches. refl)
      (λ other. absurd (
        true≢false (
          sym (matches_own session response answers)
          ∙ ap (λ id. confirmation_session_matches id response) (sym named)
          ∙ other)))

pub handle_frame-confirm :
    (received : Frame) (request : PendingRequest) (sessions : Sessions) (deadline : ℕ)
    → request.expected_confirmation ≡ received.command
    → handle_frame received (some request) sessions deadline
      ≡ confirm deadline sessions request (decode received)
unfolding handle_frame
handle_frame-confirm received request sessions deadline e =
    rw ((==_iff request.expected_confirmation received.command).1 e, handle_frame) refl
