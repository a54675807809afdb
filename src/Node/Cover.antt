-- ===== src/Node/Cover.antt =====
-- src/veluxnode.rs: the values that describe a cover, and the functions that derive them.
use Prim.Native.String.{String}
use velux2mqtt.Types.Position.{
  Percentage, fully_open, fully_closed, StandardParameter, relative, rounded_percent,
}
use velux2mqtt.Response.States.{
  OperatingState, non_executing, execution_error, not_used, waiting_for_power, executing, done,
  RunStatus, completed, failed, active,
}
use velux2mqtt.Prelude.{◌-◌, ◌==◌, Option, if◌then◌else◌, ltb, none, some, ℕ}

pub data CoverState : Type 0 where
  open_cover closed opening closing unknown : CoverState

pub data Availability : Type 0 where
  available unavailable : Availability

pub data StatusSource : Type 0 where
  discovery notification poll command : StatusSource

-- The timestamp is in seconds since 1970.
pub record StatusFreshness : Type 0 where
  pub source : StatusSource
  pub timestamp : Option ℕ

pub data CoverAction : Type 0 where
  open_action close_action toggle_action : CoverAction

pub data CoverEndpoint : Type 0 where
  open_end closed_end : CoverEndpoint

-- `CoverEndpoint::parameter`
unfoldable pub parameter : CoverEndpoint → StandardParameter
parameter open_end = relative fully_open
parameter closed_end = relative fully_closed

-- While the cover moves, `target > current` means closing.
unfoldable pub moving_state : Option Percentage → Option Percentage → CoverState
moving_state (some current) (some target) =
    if ltb current.raw target.raw
    then closing
    else if ltb target.raw current.raw
    then opening
    else unknown
moving_state (some current) none = unknown
moving_state none target = unknown

unfoldable pub resting_state : Option Percentage → CoverState
resting_state (some current) = if current.raw == fully_closed.raw then closed else open_cover
resting_state none = unknown

unfoldable pub derive_cover_state :
    OperatingState → Option Percentage → Option Percentage → CoverState
unfolding moving_state resting_state
derive_cover_state executing current target = moving_state current target
derive_cover_state waiting_for_power current target = moving_state current target
derive_cover_state non_executing current target = resting_state current
derive_cover_state done current target = resting_state current
derive_cover_state execution_error current target = unknown
derive_cover_state not_used current target = unknown
derive_cover_state (OperatingState.unknown value) current target = unknown

unfoldable pub relative_position : StandardParameter → Option Percentage
relative_position (relative position) = some position
relative_position _ = none

-- `100_u8.saturating_sub(..)`
unfoldable pub mqtt_open_percent : Percentage → ℕ
mqtt_open_percent position = 100 - rounded_percent position

abbrev pub u16_max : ℕ
u16_max = 65535

unfoldable pub known_remaining_time : ℕ → Option ℕ
known_remaining_time seconds = if seconds == u16_max then none else some seconds

unfoldable pub operating_state_from_run_status : RunStatus → OperatingState
operating_state_from_run_status completed = done
operating_state_from_run_status failed = execution_error
operating_state_from_run_status active = executing
operating_state_from_run_status (RunStatus.unknown value) = OperatingState.unknown value

unfoldable pub operating_state_label : OperatingState → String
operating_state_label non_executing = "nonexecuting"
operating_state_label execution_error = "execution_error"
operating_state_label not_used = "not_used"
operating_state_label waiting_for_power = "waiting_for_power"
operating_state_label executing = "executing"
operating_state_label done = "done"
operating_state_label (OperatingState.unknown value) = "unknown"
