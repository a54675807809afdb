-- ===== src/Connection/Timeouts.antt =====
-- Nothing stays behind its deadline: a tick answers the pending request and ends the sessions whose
-- time has come.
use velux2mqtt.Prelude.Maps.{find, mem, remove_keys, find-remove_keys}
use velux2mqtt.Error.{request_timeout, err}
use velux2mqtt.Connection.Actor.{Clock, tick, take_input, Actor}
use velux2mqtt.Connection.Frames.{expire_sessions, expire_request, expired}
use velux2mqtt.Prelude.{◌<◌, [], arith, none, some, true, ℕ, ◌∷◌, ◌≡◌, ◌≤◌}
use velux2mqtt.Connection.State.{Sessions, ConnectionSettings, PendingRequest}

expired-find :
    (now : ℕ) (sessions : Sessions) (session deadline : ℕ)
    → find sessions session ≡ some deadline
    → deadline ≤ now
    → mem (expired now sessions) session ≡ true
unfolding find mem expired
expired-find now [] session deadline h late = absurd (cc)
expired-find now (entry ∷ sessions) session deadline h late =
    ground (arith, expired-find now sessions session deadline)

left-future :
    (now : ℕ) (sessions : Sessions) (session deadline : ℕ)
    → find (remove_keys sessions (expired now sessions)) session ≡ some deadline
    → now < deadline
left-future now sessions session deadline h = ground (
  arith,
  find-remove_keys sessions (expired now sessions) session,
  expired-find now sessions session deadline,
)

module _ (now : ℕ) (request : PendingRequest) (sessions : Sessions) where
  due :
      request.deadline ≤ now
      → (let h = expire_request now (some request) sessions in
          (h.pending ≡ none)
          × (h.replies
              ≡ record { reply = request.reply; outcome = err (request_timeout request.command) }
                ∷ []))
  unfolding expire_request
  due late = (ground arith, ground arith)

  not_due :
      now < request.deadline
      → (let h = expire_request now (some request) sessions in
          (h.pending ≡ some request) × (h.replies ≡ []))
  unfolding expire_request
  not_due early = (ground arith, ground arith)

-- After a tick, the request that was pending has been answered with a timeout if its deadline has
-- come, as the clock was read first, and is still pending otherwise; and every session that is left has its deadline ahead of the
-- clock as it was read last.
pub tick-IsTimely :
    (settings : ConnectionSettings) (clock : Clock) (actor : Actor) (request : PendingRequest)
    → actor.pending ≡ some request
    → (let r = take_input settings clock actor tick in
        (request.deadline ≤ clock.taken
          → (r.actor.pending ≡ none)
            × (r.replies
                ≡ record { reply = request.reply; outcome = err (request_timeout request.command) }
                  ∷ []))
        × (clock.taken < request.deadline → (r.actor.pending ≡ some request) × (r.replies ≡ []))
        × ((session deadline : ℕ)
            → find r.actor.sessions session ≡ some deadline
            → clock.swept < deadline))
unfolding take_input expire_sessions
tick-IsTimely settings clock actor request h = (
  λ late. rw h (due clock.taken request actor.sessions late),
  λ early. rw h (not_due clock.taken request actor.sessions early),
  λ session deadline left.
      left-future clock.swept (expire_request clock.taken actor.pending actor.sessions).sessions
        session deadline left,
)
