-- ===== src/Node/Actuator/Laws.antt =====
-- Laws of the actuator types.
use velux2mqtt.Node.Actuator.{unknown, from_code, code}
use velux2mqtt.Prelude.{◌<◌, arith, ℕ, ◌≡◌, ◌≢◌, ◌≤◌}

-- No code is lost by reading it as an actuator type.
pub code-from_code : (n : ℕ) → code (from_code n) ≡ n
unfolding code from_code
code-from_code n = ground arith

-- The codes that name an actuator type: 1 to 24 without 11.
abbrev pub IsNamed : ℕ → Type 0
IsNamed n = (0 < n) × (n ≤ 24) × (n ≢ 11)

from_code-named : (n : ℕ) → IsNamed n → (value : ℕ) → from_code n ≢ unknown value
unfolding from_code
from_code-named n h value e = ground arith
