-- ===== src/Node/Toggle.antt =====
-- What `toggle_endpoint` of src/veluxnode.rs decides.
use velux2mqtt.Types.Position.{Percentage, fully_closed, fully_open}
use velux2mqtt.Node.Cover.{
  opening, closing, open_end, closed_end, derive_cover_state, CoverEndpoint,
}
use velux2mqtt.Response.States.{OperatingState, waiting_for_power, executing}
use velux2mqtt.Prelude.{Option, arith, none, some, ◌≡◌, ◌≤◌, ◌&&◌, Bool, false, refl, ◌||◌, ◌↔◌}
use velux2mqtt.Node.State.{
  state, toggle_endpoint, VeluxNode, node_ok, mark_command_accepted, position_is, node_err,
  position_unknown, is_busy,
}

-- Positions that the gateway reports are at most fully closed.
abbrev pub IsInRange : Option Percentage → Type 0
IsInRange none = Unit
IsInRange (some p) = p.raw ≤ fully_closed.raw

toggle_state :
    (node : VeluxNode) (os : OperatingState) (current target : Option Percentage)
    → node.operating_state ≡ os
    → node.current_position ≡ current
    → node.target_position ≡ target
    → IsInRange current
    → (state node ≡ closing → toggle_endpoint node ≡ node_ok open_end)
      × (state node ≡ opening → toggle_endpoint node ≡ node_ok closed_end)
unfolding state toggle_endpoint derive_cover_state
toggle_state node executing (some c) (some t) eo ec et r = (λ h. ground arith, λ h. ground arith)
toggle_state node waiting_for_power (some c) (some t) eo ec et r =
    (λ h. ground arith, λ h. ground arith)
toggle_state node _ _ _ eo ec et r = (λ h. ground arith, λ h. ground arith)

-- A toggle reverses a movement: a cover that closes is opened and one that opens is closed, as long
-- as its position is one that the gateway can report.
pub toggle_reverses :
    (node : VeluxNode)
    → IsInRange node.current_position
    → (state node ≡ closing → toggle_endpoint node ≡ node_ok open_end)
      × (state node ≡ opening → toggle_endpoint node ≡ node_ok closed_end)
toggle_reverses node r =
    toggle_state node node.operating_state node.current_position node.target_position refl refl refl
      r

abbrev pub opposite : CoverEndpoint → CoverEndpoint
opposite open_end = closed_end
opposite closed_end = open_end

-- A toggle right after an accepted command goes back, whatever position was known before.
pub toggle-mark_command_accepted :
    (node : VeluxNode) (endpoint : CoverEndpoint)
    → toggle_endpoint (mark_command_accepted node endpoint).0 ≡ node_ok (opposite endpoint)
unfolding toggle_endpoint mark_command_accepted
toggle-mark_command_accepted node open_end = refl
toggle-mark_command_accepted node closed_end = refl

-- A target at one of the two ends.
abbrev pub targets_end : VeluxNode → Bool
targets_end node =
    position_is node.target_position fully_closed || position_is node.target_position fully_open

toggle_unknown :
    (node : VeluxNode) (os : OperatingState) (current target : Option Percentage)
    → node.operating_state ≡ os
    → node.current_position ≡ current
    → node.target_position ≡ target
    → (toggle_endpoint node ≡ node_err (position_unknown node.id))
      ↔ ((current ≡ none) × ((is_busy os && targets_end node) ≡ false))
unfolding state toggle_endpoint derive_cover_state
toggle_unknown node executing (some c) (some t) eo ec et = (λ h. ground arith, λ h. ground arith)
toggle_unknown node executing none (some t) eo ec et = (λ h. ground arith, λ h. ground arith)
toggle_unknown node waiting_for_power (some c) (some t) eo ec et =
    (λ h. ground arith, λ h. ground arith)
toggle_unknown node _ _ _ eo ec et = (λ h. ground arith, λ h. ground arith)

-- A toggle fails exactly if the current position is unknown and the node is not on the way to one
-- of the two ends.
pub toggle-err_iff :
    (node : VeluxNode)
    → (toggle_endpoint node ≡ node_err (position_unknown node.id)) ↔ (
        (node.current_position ≡ none)
        × ((is_busy node.operating_state && targets_end node) ≡ false))
toggle-err_iff node =
    toggle_unknown node node.operating_state node.current_position node.target_position refl refl
      refl
