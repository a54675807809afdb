-- ===== src/Types/Position/Laws.antt =====
-- Laws of the conversions between raw positions, percentages and standard parameters.
use velux2mqtt.Prelude.Int.{ℤ, pos, negsuc, ◌≤ℤ◌}
use velux2mqtt.Types.Position.{relative, unknown}
use velux2mqtt.Prelude.{◌*◌, ◌+◌, ◌<◌, arith, refl, subst, ℕ, ◌↔◌, ◌≡◌, ◌≢◌, ◌≤◌, ◌⊎◌, min}
use velux2mqtt.Types.Position.{
  to_raw, StandardParameter, from_raw, rounded_percent, ℤ, from_percent, Percentage,
  percentage_point,
}

-- Every 16-bit value survives being read as a parameter and written back.
pub to_raw-from_raw : (raw : ℕ) → raw < 65536 → to_raw (from_raw raw) ≡ raw
unfolding to_raw from_raw
to_raw-from_raw raw h = ground arith

-- The parameters that the wire can express: a percentage up to 0xC800, tenths from -1000 to 1000,
-- and as unknown only the values that no other parameter takes.
abbrev pub IsCanonical : StandardParameter → Type 0
IsCanonical (relative p) = p.raw ≤ 0xC800
IsCanonical (percentage_point tenths) = (negsuc 999 ≤ℤ tenths) × (tenths ≤ℤ pos 1000)
IsCanonical (unknown raw) =
    ((0xC800 < raw) × (raw < 0xC900)
      ⊎ (0xD0D0 < raw)
        × (raw ≢ 0xD100)
        × (raw ≢ 0xD200)
        × (raw ≢ 0xD300)
        × (raw ≢ 0xD400)
        × (raw ≢ 0xF7FF))
IsCanonical _ = Unit

pub from_raw-IsCanonical : (raw : ℕ) → IsCanonical (from_raw raw)
unfolding from_raw
from_raw-IsCanonical raw = ground arith

pub from_raw-to_raw : (p : StandardParameter) → IsCanonical p → from_raw (to_raw p) ≡ p
unfolding to_raw from_raw
from_raw-to_raw (relative p) h = ground arith
from_raw-to_raw (percentage_point (pos n)) h = ground arith
from_raw-to_raw (percentage_point (negsuc n)) h = ground arith
from_raw-to_raw (unknown raw) h = ground arith
from_raw-to_raw _ h = refl

-- Reading any raw value gives a canonical parameter, and the canonical parameters are exactly those
-- that are read back from what they are written as.
pub from_raw-to_raw_iff :
    (raw : ℕ) (p : StandardParameter)
    → IsCanonical (from_raw raw) × ((from_raw (to_raw p) ≡ p) ↔ IsCanonical p)
from_raw-to_raw_iff raw p = (
  from_raw-IsCanonical raw,
  (λ e. subst IsCanonical e (from_raw-IsCanonical (to_raw p)), from_raw-to_raw p),
)

-- Whatever tenths the parameter holds, the raw value lies in the range for percentage points.
pub to_raw-percentage_point_bounds :
    (tenths : ℤ)
    → (0xC900 ≤ to_raw (percentage_point tenths)) × (to_raw (percentage_point tenths) ≤ 0xD0D0)
unfolding to_raw
to_raw-percentage_point_bounds (pos n) = ground arith
to_raw-percentage_point_bounds (negsuc n) = ground arith

-- A percentage is kept by the conversion to a raw position and back, up to 100; beyond, it is 100.
pub rounded_percent-from_percent :
    (percent : ℕ) → rounded_percent (from_percent percent) ≡ min percent 100
unfolding rounded_percent from_percent
rounded_percent-from_percent percent = ground arith

-- The rounded percentage of a 16-bit position is at most 100; in the range of relative positions
-- it is the nearest percentage, halves rounded up.
pub rounded_percent_nearest :
    (p : Percentage)
    → (rounded_percent p ≤ 100)
      × (p.raw ≤ 0xC800
          → (rounded_percent p * 512 ≤ p.raw + 256) × (p.raw < rounded_percent p * 512 + 256))
unfolding rounded_percent
rounded_percent_nearest p = ground arith
