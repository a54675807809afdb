-- ===== src/Tests/Values.antt =====
-- The theorems about the values of src/klf200/types.rs, the command identifiers and the targets at
-- concrete inputs.
use velux2mqtt.Types.Actuators.Refinement
use velux2mqtt.Types.Actuators.Refinement.{
  called, promised, inserts, removes, asks, Call, run-refines,
}
use velux2mqtt.Types.Sessions
use velux2mqtt.Types.Sessions.Fresh
use velux2mqtt.Types.Actuators
use velux2mqtt.Command.Target
use velux2mqtt.Prelude.{
  ◌<◌, ◌==◌, Bytes, List, [], arith, false, is_utf8, length, refl, true, ◌||◌, ℕ, ◌↔◌, ◌∷◌, ◌≡◌,
  ◌≤◌,
}
use velux2mqtt.Error.{IsOk, err, ok, session_ids_exhausted}
use velux2mqtt.Types.Sessions.{Allocator, allocate, release, reserve, allocate_loop, is_active}
use velux2mqtt.Types.Actuators.Laws.{Ascends, is_in}
use velux2mqtt.Types.Actuators.{ActuatorSet, iter}
use velux2mqtt.Types.Position.{to_raw, from_raw, Percentage, percentage_point}
use velux2mqtt.Types.FixedString.{encode_fixed_string, decode_fixed_string, has_nul}
use velux2mqtt.Command.Target.{Apart, CommandTarget, new-ok_iff}
use velux2mqtt.Types.Sessions.Fresh.{
  IsSessionId, allocate-ok, allocate-exhausted_iff, release_lem, reserve_lem,
}
use velux2mqtt.Types.Position.Laws.{IsCanonical, from_raw-to_raw_iff}
use velux2mqtt.Prelude.Int.{pos}
use velux2mqtt.Types.FixedString.Laws.{decode-encode_fixed_string}

-- The last id is taken and the next one to try.
abbrev sessions : Allocator
sessions = record { next = 65535; active = 65535 ∷ 2 ∷ [] }

sessions-IsValid : Fresh.IsValid sessions
sessions-IsValid = record { next_valid = omega arith; active_valid = omega arith }

allocate-ok_example :
    (is_active sessions 1 ≡ false)
    × IsSessionId 1
    × Fresh.IsValid (record { next = 2; active = 1 ∷ 65535 ∷ 2 ∷ [] })
    × ((other : ℕ)
        → is_active (record { next = 2; active = 1 ∷ 65535 ∷ 2 ∷ [] }) other
          ≡ (1 == other || is_active sessions other))
unfolding allocate allocate_loop Sessions.contains
allocate-ok_example = allocate-ok sessions sessions-IsValid refl

allocate-exhausted_iff_example :
    ((allocate sessions).1 ≡ err session_ids_exhausted)
    ↔ ((id : ℕ) → IsSessionId id → is_active sessions id ≡ true)
allocate-exhausted_iff_example = allocate-exhausted_iff sessions sessions-IsValid

abbrev calls : List Call
calls = inserts 9 ∷ inserts 3 ∷ inserts 200 ∷ removes 9 ∷ asks 3 ∷ []

run-refines_example :
    ((Refinement.run called Actuators.new calls).0
      ≡ (Refinement.run promised (λ other. false) calls).0)
    × Ascends 0 (iter (Refinement.run called Actuators.new calls).1)
    × ((i : ℕ)
        → is_in i (iter (Refinement.run called Actuators.new calls).1)
          ≡ (Refinement.run promised (λ other. false) calls).1 i)
run-refines_example = run-refines calls

from_raw-to_raw_iff_example :
    IsCanonical (from_raw 0xC901)
    × ((from_raw (to_raw (percentage_point (pos 1001))) ≡ percentage_point (pos 1001))
        ↔ IsCanonical (percentage_point (pos 1001)))
from_raw-to_raw_iff_example = from_raw-to_raw_iff 0xC901 (percentage_point (pos 1001))

abbrev halfway : Percentage
halfway = record { raw = 768 }

-- "Ab"
abbrev field : Bytes
field = 0x41 ∷ 0x62 ∷ 0 ∷ 0 ∷ []

decode-encode_fixed_string_example :
    (length field ≡ 4) × (decode_fixed_string field ≡ ok (0x41 ∷ 0x62 ∷ []))
unfolding encode_fixed_string is_utf8 has_nul
decode-encode_fixed_string_example = decode-encode_fixed_string 4 (0x41 ∷ 0x62 ∷ []) refl refl

abbrev ab : Bytes
ab = 0x41 ∷ 0x62 ∷ []

abbrev three : List ℕ
three = 1 ∷ 2 ∷ 1 ∷ []

new-ok_iff_example :
    (IsOk (Target.new three) ↔ ((0 < length three) × (length three ≤ 20) × Apart [] three))
    × ((t : CommandTarget) → Target.new three ≡ ok t → t.nodes ≡ three)
new-ok_iff_example = new-ok_iff three
