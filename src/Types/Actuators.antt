-- ===== src/Types/Actuators.antt =====
-- `ActuatorSet` of src/klf200/types.rs: 200 bits in 25 bytes, the lowest bit of a byte first.
pub mod Laws
pub mod Refinement
use Prim.Native.Nat.{bit_and, bit_or}
use velux2mqtt.Prelude.{
  ◌%◌, ◌&&◌, ◌+◌, ◌-◌, ◌/◌, ◌==◌, Bool, Bytes, List, [], ◌^◌, if◌then◌else◌, false, get_or, leb,
  ltb, not, replicate, set, suc, zero, ℕ, ◌∷◌,
}

abbrev pub actuator_count : ℕ
actuator_count = 200

abbrev pub actuator_bytes : ℕ
actuator_bytes = actuator_count / 8

pub record ActuatorSet : Type 0 where
  pub bytes : Bytes

-- `ActuatorSet::new`
abbrev pub new : ActuatorSet
new = record { bytes = replicate actuator_bytes 0 }

-- `1 << (index % 8)` as a `u8`, and its complement `!(1 << (index % 8))`.
abbrev pub bit : ℕ → ℕ
bit index = 2 ^ (index % 8)

abbrev pub complement : ℕ → ℕ
complement byte = 255 - byte

-- The byte that holds a bit, and an assignment to it.
abbrev pub byte_of : ActuatorSet → ℕ → ℕ
byte_of s index = get_or s.bytes (index / 8) 0

abbrev pub with_byte : ActuatorSet → ℕ → ℕ → ActuatorSet
with_byte s index byte = record { bytes = set s.bytes (index / 8) byte }

unfoldable pub contains : ActuatorSet → ℕ → Bool
contains s index = ltb index actuator_count && not (bit_and (byte_of s index) (bit index) == 0)

unfoldable pub insert : ActuatorSet → ℕ → ActuatorSet × Bool
insert s index =
    if leb actuator_count index
    then (s, false)
    else let was_present = contains s index in
      (with_byte s index (bit_or (byte_of s index) (bit index)), not was_present)

unfoldable pub remove : ActuatorSet → ℕ → ActuatorSet × Bool
remove s index =
    if leb actuator_count index
    then (s, false)
    else let was_present = contains s index in
      (with_byte s index (bit_and (byte_of s index) (complement (bit index))), was_present)

-- `(0..ACTUATOR_COUNT).filter(..)`, with `left` indices to go from `index` on.
unfoldable pub iter_from : ActuatorSet → ℕ → ℕ → List ℕ
iter_from s zero index = []
iter_from s (suc left) index =
    let rest = iter_from s left (index + 1) in if contains s index then index ∷ rest else rest

unfoldable pub iter : ActuatorSet → List ℕ
iter s = iter_from s actuator_count 0
