-- ===== src/Response/States.antt =====
-- `OperatingState` and `RunStatus` of src/klf200/response.rs, read from a byte.
use velux2mqtt.Prelude.{◌==◌, if◌then◌else◌, ℕ}

pub data OperatingState : Type 0 where
  non_executing : OperatingState
  execution_error : OperatingState
  not_used : OperatingState
  waiting_for_power : OperatingState
  executing : OperatingState
  done : OperatingState
  unknown : ℕ → OperatingState

pub data RunStatus : Type 0 where
  completed : RunStatus
  failed : RunStatus
  active : RunStatus
  unknown : ℕ → RunStatus

-- `OperatingState::from`
unfoldable pub operating_state : ℕ → OperatingState
operating_state value =
    if value == 0
    then non_executing
    else if value == 1
    then execution_error
    else if value == 2
    then not_used
    else if value == 3
    then waiting_for_power
    else if value == 4
    then executing
    else if value == 5
    then done
    else OperatingState.unknown value

-- `RunStatus::from`
unfoldable pub run_status : ℕ → RunStatus
run_status value =
    if value == 0
    then completed
    else if value == 1
    then failed
    else if value == 2
    then active
    else RunStatus.unknown value
