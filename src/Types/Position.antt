-- ===== src/Types/Position.antt =====
-- `Percentage` and `StandardParameter` of src/klf200/types.rs. `Percentage::percent`, which only
-- shows the value as a float, is not modelled.
pub mod Laws
use velux2mqtt.Prelude.Int.{ℤ, pos, negsuc, sub_ℕ, add_ℕ, pos_part, neg_part}
use velux2mqtt.Prelude.{
  ◌&&◌, ◌*◌, ◌+◌, ◌-◌, ◌/◌, ◌==◌, Option, if◌then◌else◌, leb, ltb, none, some, ℕ, min,
}

pub record Percentage : Type 0 where
  pub raw : ℕ

abbrev pub fully_open : Percentage
fully_open = record { raw = 0 }

abbrev pub fully_closed : Percentage
fully_closed = record { raw = 0xC800 }

-- `Percentage::from_percent`, of a `u8`.
unfoldable pub from_percent : ℕ → Percentage
from_percent percent =
    let bounded = if ltb 100 percent then 100 else percent in record { raw = bounded * 512 }

-- `u8::try_from` fails from 256 on.
unfoldable pub rounded_percent : Percentage → ℕ
rounded_percent p =
    let rounded = (p.raw + 256) / 512 in if leb rounded 255 then min rounded 100 else 100

pub data StandardParameter : Type 0 where
  relative : Percentage → StandardParameter
  no_feedback : StandardParameter
  percentage_point : ℤ → StandardParameter
  target current default ignore : StandardParameter
  unknown : ℕ → StandardParameter

-- The range 0xC900..=0xD0D0; `i16::try_from` fails from 2 ^ 15 on.
percentage_point_from_raw : ℕ → StandardParameter
percentage_point_from_raw raw =
    let offset = raw - 0xC900 in
    if ltb offset 0x8000 then percentage_point (sub_ℕ offset 1000) else unknown raw

-- `StandardParameter::from_raw`, of a `u16`.
unfoldable pub from_raw : ℕ → StandardParameter
unfolding percentage_point_from_raw
from_raw raw =
    if leb raw 0xC800
    then relative (record { raw = raw })
    else if leb 0xC900 raw && leb raw 0xD0D0
    then percentage_point_from_raw raw
    else if raw == 0xD100
    then target
    else if raw == 0xD200
    then current
    else if raw == 0xD300
    then default
    else if raw == 0xD400
    then ignore
    else if raw == 0xF7FF
    then no_feedback
    else unknown raw

-- `tenths.clamp(-1000, 1000)`
unfoldable pub clamp : ℤ → ℤ
clamp (pos n) = if leb n 1000 then pos n else pos 1000
clamp (negsuc n) = if ltb n 1000 then negsuc n else negsuc 999

-- `u16::try_from` on an `i32`
unfoldable pub u16_try_from : ℤ → Option ℕ
u16_try_from (pos n) = if ltb n 65536 then some n else none
u16_try_from (negsuc n) = none

unfoldable pub to_raw : StandardParameter → ℕ
unfolding clamp u16_try_from
to_raw (relative percentage) = percentage.raw
to_raw no_feedback = 0xF7FF
to_raw (percentage_point tenths) = elim (u16_try_from (add_ℕ (clamp tenths) 1000)) [
  | some offset ↦ offset + 0xC900
  | none ↦ 0xC900
]
to_raw target = 0xD100
to_raw current = 0xD200
to_raw default = 0xD300
to_raw ignore = 0xD400
to_raw (unknown raw) = raw
