-- ===== src/Node/Snapshot.antt =====
-- What `VeluxNode::snapshot` of src/veluxnode.rs shows.
use mathlib.Core.Option
use velux2mqtt.Prelude.{none, some, Option, arith, ℕ, ◌≡◌, ◌≤◌}
use velux2mqtt.Response.States.{OperatingState, waiting_for_power, executing, non_executing, done}
use velux2mqtt.Node.Cover.{mqtt_open_percent, resting_state, derive_cover_state, closed}
use velux2mqtt.Node.State.{snapshot, state, VeluxNode}
use velux2mqtt.Types.Position.{Percentage, rounded_percent}

open_percent_bound :
    (o : Option Percentage) (p : ℕ) → Option.map mqtt_open_percent o ≡ some p → p ≤ 100
unfolding mqtt_open_percent
open_percent_bound none p e = ground arith
open_percent_bound (some q) p e = ground arith

resting_closed :
    (current : Option Percentage)
    → resting_state current ≡ closed
    → Option.map mqtt_open_percent current ≡ some 0
unfolding resting_state mqtt_open_percent rounded_percent
resting_closed none e = ground arith
resting_closed (some c) e = ground arith

derive_closed :
    (os : OperatingState) (current target : Option Percentage)
    → derive_cover_state os current target ≡ closed
    → Option.map mqtt_open_percent current ≡ some 0
unfolding derive_cover_state
derive_closed non_executing current target e = resting_closed current e
derive_closed done current target e = resting_closed current e
derive_closed waiting_for_power (some c) (some t) e = ground arith
derive_closed executing (some c) (some t) e = ground arith
derive_closed _ _ _ e = ground arith

-- The percentages of a snapshot are at most 100, and a cover shown as closed is shown at 0 per cent.
pub snapshot_lem :
    (node : VeluxNode)
    → ((p : ℕ) → (snapshot node).position ≡ some p → p ≤ 100)
      × ((p : ℕ) → (snapshot node).target ≡ some p → p ≤ 100)
      × ((snapshot node).cover_state ≡ closed → (snapshot node).position ≡ some 0)
unfolding snapshot state
snapshot_lem node = (
  open_percent_bound node.current_position,
  open_percent_bound node.target_position,
  derive_closed node.operating_state node.current_position node.target_position,
)
