-- ===== src/Node/Requests.antt =====
-- What `VeluxNode::command_request` of src/veluxnode.rs asks of the gateway.
use velux2mqtt.Command.Target
use velux2mqtt.Node.Cover.{open_end, closed_end}
use velux2mqtt.Node.Cover.{parameter}
use velux2mqtt.Node.Actuator.{CoverStrategy}
use velux2mqtt.Node.State.{
  endpoint_request, VeluxNode, state, resolve_action, node_ok, node_err, unsupported_actuator,
  position_unknown, protocol, toggle_endpoint, apply_command_confirmation, NodeResult,
  is_controllable, endpoint_position, mark_command_accepted, command_request,
}
use velux2mqtt.Node.Cover.{
  CoverAction, CoverEndpoint, open_action, close_action, toggle_action, opening, closing, closed,
  derive_cover_state, relative_position,
}
use velux2mqtt.Types.Position.{from_percent}
use velux2mqtt.Node.Toggle.{IsInRange}
use velux2mqtt.Response.{command_accepted}
use velux2mqtt.Response.States.{non_executing, done, OperatingState, waiting_for_power, executing}
use velux2mqtt.Command.Requests.{command_send, CommandRequest, Request}
use velux2mqtt.Prelude.{
  some, none, arith, Option, [], false, refl, true, ℕ, ◌∷◌, ◌≡◌, ◌≢◌, ◌⊎◌, ==_self, subst, sym, ◌∙◌,
}
use velux2mqtt.Types.Position.{to_raw, Percentage}

-- The position that a request with an action is to have on the wire: 0 is fully open and 0xC800
-- fully closed. A toggle never goes on with a movement, and never closes a cover that is closed.
abbrev pub Heads : VeluxNode → CoverAction → ℕ → Type 0
Heads node open_action raw = raw ≡ 0
Heads node close_action raw = raw ≡ 0xC800
Heads node toggle_action raw =
    ((raw ≡ 0) × (state node ≢ opening))
    ⊎ ((raw ≡ 0xC800) × (state node ≢ closing) × (state node ≢ closed))

-- Accepting the request moves the target of the node to the position that was asked for.
abbrev pub Moves : VeluxNode → CoverAction → CommandRequest → Type 0
Moves node action asked =
    (endpoint : CoverEndpoint) × (resolve_action node action ≡ node_ok endpoint)
    × ((apply_command_confirmation node (command_accepted asked.session_id 1) asked.session_id
          endpoint).0.target_position
        ≡ relative_position asked.main_parameter)

abbrev pub IsRequested : VeluxNode → ℕ → CoverAction → NodeResult Request → Type 0
IsRequested node session_id action (node_ok (command_send asked target)) =
    (is_controllable node ≡ true)
    × (asked.session_id ≡ session_id)
    × (target.nodes ≡ node.id ∷ [])
    × Heads node action (to_raw asked.main_parameter)
    × Moves node action asked
IsRequested node session_id action (node_ok _) = ⊥
IsRequested node session_id action (node_err (unsupported_actuator id)) =
    (is_controllable node ≡ false) × (id ≡ node.id)
IsRequested node session_id action (node_err (position_unknown id)) =
    (is_controllable node ≡ true)
    × (action ≡ toggle_action)
    × (node.current_position ≡ none)
    × (id ≡ node.id)
IsRequested node session_id action (node_err (protocol failure)) = ⊥

-- The same of the endpoint that an action resolves to.
abbrev IsResolved : VeluxNode → CoverAction → NodeResult CoverEndpoint → Type 0
IsResolved node action (node_ok endpoint) = Heads node action (endpoint_position endpoint).raw
IsResolved node action (node_err (position_unknown id)) =
    (action ≡ toggle_action) × (node.current_position ≡ none) × (id ≡ node.id)
IsResolved node action (node_err _) = ⊥

toggled :
    (node : VeluxNode) (os : OperatingState) (current target : Option Percentage)
    → node.operating_state ≡ os
    → node.current_position ≡ current
    → node.target_position ≡ target
    → IsInRange current
    → IsResolved node toggle_action (toggle_endpoint node)
unfolding state toggle_endpoint derive_cover_state from_percent
toggled node executing (some c) (some t) eo ec et r = ground arith
toggled node executing none (some t) eo ec et r = ground arith
toggled node waiting_for_power (some c) (some t) eo ec et r = ground arith
toggled node non_executing (some c) target eo ec et r = ground arith
toggled node done (some c) target eo ec et r = ground arith
toggled node _ _ _ eo ec et r = ground arith

resolve_action-IsResolved :
    (node : VeluxNode) (action : CoverAction)
    → IsInRange node.current_position
    → IsResolved node action (resolve_action node action)
unfolding resolve_action
resolve_action-IsResolved node open_action r = refl
resolve_action-IsResolved node close_action r = refl
resolve_action-IsResolved node toggle_action r =
    toggled node node.operating_state node.current_position node.target_position refl refl refl r

asked_position :
    (endpoint : CoverEndpoint)
    → relative_position (parameter endpoint) ≡ some (endpoint_position endpoint)
unfolding relative_position parameter
asked_position open_end = refl
asked_position closed_end = refl

asked_raw :
    (endpoint : CoverEndpoint) → to_raw (parameter endpoint) ≡ (endpoint_position endpoint).raw
unfolding to_raw parameter
asked_raw open_end = refl
asked_raw closed_end = refl

confirmed_target :
    (node : VeluxNode) (session_id : ℕ) (endpoint : CoverEndpoint)
    → (apply_command_confirmation node
        (command_accepted session_id 1)
        session_id
        endpoint).0.target_position
      ≡ some (endpoint_position endpoint)
unfolding apply_command_confirmation mark_command_accepted
confirmed_target node session_id endpoint = rw (==_self session_id) refl

module _ (node : VeluxNode) (session_id : ℕ) (action : CoverAction) where
  abbrev from_resolved : NodeResult CoverEndpoint → NodeResult Request
  from_resolved (node_ok endpoint) = endpoint_request node session_id endpoint
  from_resolved (node_err e) = node_err e

  from_resolved-IsRequested :
      (resolved : NodeResult CoverEndpoint)
      → resolve_action node action ≡ resolved
      → is_controllable node ≡ true
      → IsResolved node action resolved
      → IsRequested node session_id action (from_resolved resolved)
  unfolding endpoint_request Target.new
  from_resolved-IsRequested (node_ok endpoint) e c h = (
    c,
    refl,
    refl,
    subst (Heads node action) (sym (asked_raw endpoint)) h,
    (endpoint, e, confirmed_target node session_id endpoint ∙ sym (asked_position endpoint)),
  )
  from_resolved-IsRequested (node_err (position_unknown id)) e c h = (c, h.0, h.1, h.2)
  from_resolved-IsRequested (node_err (unsupported_actuator id)) e c h = absurd h
  from_resolved-IsRequested (node_err (protocol failure)) e c h = absurd h

  abbrev by_strategy : Option CoverStrategy → NodeResult Request
  by_strategy none = node_err (unsupported_actuator node.id)
  by_strategy (some strategy) = from_resolved (resolve_action node action)

  by_strategy-IsRequested :
      (strategy : Option CoverStrategy)
      → node.cover_strategy ≡ strategy
      → IsInRange node.current_position
      → IsRequested node session_id action (by_strategy strategy)
  unfolding is_controllable
  by_strategy-IsRequested none e r = (rw e refl, refl)
  by_strategy-IsRequested (some strategy) e r =
      from_resolved-IsRequested (resolve_action node action) refl (rw e refl)
        (resolve_action-IsResolved node action r)

-- A request for an action, on a node whose position is unknown or one that the gateway can report:
-- for a cover it is a command in the given session to this node alone, whose position on the wire
-- is 0 to open and 0xC800 to close; a toggle asks for one of the two, never goes on with a movement
-- and never closes a closed cover; and accepting the command moves the target to the position that
-- was asked for. It fails only for a node that is no cover, or for a toggle without a position.
pub command_request-IsRequested :
    (node : VeluxNode) (session_id : ℕ) (action : CoverAction)
    → IsInRange node.current_position
    → IsRequested node session_id action (command_request node session_id action)
unfolding command_request
command_request-IsRequested node session_id action r =
    by_strategy-IsRequested node session_id action node.cover_strategy refl r
