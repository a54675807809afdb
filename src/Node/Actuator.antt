-- ===== src/Node/Actuator.antt =====
-- `ActuatorType` and `CoverStrategy` of src/veluxnode.rs.
pub mod Laws
use Prim.Native.String.{String}
use velux2mqtt.Prelude.{◌==◌, Option, if◌then◌else◌, none, some, ℕ}

pub data ActuatorType : Type 0 where
  venetian_blind roller_shutter awning window_opener garage_opener light : ActuatorType
  gate_opener rolling_door_opener lock blind beacon dual_shutter : ActuatorType
  heating_temperature_interface on_off_switch horizontal_awning exterior_venetian_blind louvre_blind
        curtain_track :
      ActuatorType
  ventilation_point exterior_heating heat_pump intrusion_alarm swinging_shutter : ActuatorType
  unknown : ℕ → ActuatorType

-- `ActuatorType::from_code`
unfoldable pub from_code : ℕ → ActuatorType
from_code code =
    if code == 1
    then venetian_blind
    else if code == 2
    then roller_shutter
    else if code == 3
    then awning
    else if code == 4
    then window_opener
    else if code == 5
    then garage_opener
    else if code == 6
    then light
    else if code == 7
    then gate_opener
    else if code == 8
    then rolling_door_opener
    else if code == 9
    then lock
    else if code == 10
    then blind
    else if code == 12
    then beacon
    else if code == 13
    then dual_shutter
    else if code == 14
    then heating_temperature_interface
    else if code == 15
    then on_off_switch
    else if code == 16
    then horizontal_awning
    else if code == 17
    then exterior_venetian_blind
    else if code == 18
    then louvre_blind
    else if code == 19
    then curtain_track
    else if code == 20
    then ventilation_point
    else if code == 21
    then exterior_heating
    else if code == 22
    then heat_pump
    else if code == 23
    then intrusion_alarm
    else if code == 24
    then swinging_shutter
    else unknown code

-- `ActuatorType::code`
unfoldable pub code : ActuatorType → ℕ
code venetian_blind = 1
code roller_shutter = 2
code awning = 3
code window_opener = 4
code garage_opener = 5
code light = 6
code gate_opener = 7
code rolling_door_opener = 8
code lock = 9
code blind = 10
code beacon = 12
code dual_shutter = 13
code heating_temperature_interface = 14
code on_off_switch = 15
code horizontal_awning = 16
code exterior_venetian_blind = 17
code louvre_blind = 18
code curtain_track = 19
code ventilation_point = 20
code exterior_heating = 21
code heat_pump = 22
code intrusion_alarm = 23
code swinging_shutter = 24
code (unknown value) = value

-- `ActuatorType::label`
unfoldable pub label : ActuatorType → String
label venetian_blind = "venetian_blind"
label roller_shutter = "roller_shutter"
label awning = "awning"
label window_opener = "window_opener"
label garage_opener = "garage_opener"
label light = "light"
label gate_opener = "gate_opener"
label rolling_door_opener = "rolling_door_opener"
label lock = "lock"
label blind = "blind"
label beacon = "beacon"
label dual_shutter = "dual_shutter"
label heating_temperature_interface = "heating_temperature_interface"
label on_off_switch = "on_off_switch"
label horizontal_awning = "horizontal_awning"
label exterior_venetian_blind = "exterior_venetian_blind"
label louvre_blind = "louvre_blind"
label curtain_track = "curtain_track"
label ventilation_point = "ventilation_point"
label exterior_heating = "exterior_heating"
label heat_pump = "heat_pump"
label intrusion_alarm = "intrusion_alarm"
label swinging_shutter = "swinging_shutter"
label (unknown value) = "unknown"

pub data CoverStrategy : Type 0 where
  main_parameter : CoverStrategy

-- `CoverStrategy::for_actuator`
unfoldable pub for_actuator : ActuatorType → Option CoverStrategy
for_actuator venetian_blind = some main_parameter
for_actuator roller_shutter = some main_parameter
for_actuator awning = some main_parameter
for_actuator window_opener = some main_parameter
for_actuator garage_opener = some main_parameter
for_actuator light = none
for_actuator gate_opener = some main_parameter
for_actuator rolling_door_opener = some main_parameter
for_actuator lock = none
for_actuator blind = some main_parameter
for_actuator beacon = none
for_actuator dual_shutter = none
for_actuator heating_temperature_interface = none
for_actuator on_off_switch = none
for_actuator horizontal_awning = some main_parameter
for_actuator exterior_venetian_blind = some main_parameter
for_actuator louvre_blind = some main_parameter
for_actuator curtain_track = some main_parameter
for_actuator ventilation_point = none
for_actuator exterior_heating = none
for_actuator heat_pump = none
for_actuator intrusion_alarm = none
for_actuator swinging_shutter = some main_parameter
for_actuator (unknown value) = none
