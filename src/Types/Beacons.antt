-- ===== src/Types/Beacons.antt =====
-- `BeaconSet` of src/klf200/types.rs: three bits in a byte.
use Prim.Native.Nat.{bit_and, bit_or}
use velux2mqtt.Prelude.{
  ◌&&◌, ◌-◌, ◌<◌, ◌==◌, Bool, ◌^◌, arith, if◌then◌else◌, false, leb, ltb, not, refl, true, ℕ, ◌≡◌,
}
use velux2mqtt.Prelude.Bits.{all_below, below-all_below}
use velux2mqtt.Prelude.BitTables.{has_bit-bit_or, has_bit-bit_and}

abbrev pub mask : ℕ
mask = 0b0000_0111

pub record BeaconSet : Type 0 where
  pub byte : ℕ

-- `BeaconSet::from_byte`
unfoldable pub from_byte : ℕ → BeaconSet
from_byte byte = record { byte = bit_and byte mask }

unfoldable pub contains : BeaconSet → ℕ → Bool
contains s index = ltb index 3 && not (bit_and s.byte (2 ^ index) == 0)

-- `BeaconSet::set`; `!(1 << index)` of a `u8` is `255 - 2 ^ index`.
unfoldable pub set : BeaconSet → ℕ → Bool → BeaconSet × Bool
set s index enabled = if leb 3 index then (s, false) else (
  record { byte = if enabled then bit_or s.byte (2 ^ index) else bit_and s.byte (255 - 2 ^ index) },
  true,
)

-- No bit but the lowest three is set.
abbrev pub IsValid : BeaconSet → Type 0
IsValid s = s.byte < 8

from_byte_table : all_below 256 (λ b. ltb (bit_and b mask) 8) ≡ true
unfolding all_below
from_byte_table = refl

set_bit_table :
    all_below 8
      (λ b. all_below 3 (λ i. ltb (bit_or b (2 ^ i)) 8 && ltb (bit_and b (255 - 2 ^ i)) 8))
    ≡ true
unfolding all_below
set_bit_table = refl

pub from_byte-IsValid : (byte : ℕ) → byte < 256 → IsValid (from_byte byte)
unfolding from_byte
from_byte-IsValid byte h =
    ground (arith, below-all_below (λ b. ltb (bit_and b mask) 8) 256 byte from_byte_table h)

set_bit : (b i : ℕ) → b < 8 → i < 3 → (bit_or b (2 ^ i) < 8) × (bit_and b (255 - 2 ^ i) < 8)
set_bit b i h l =
    let row = λ (i : ℕ). ltb (bit_or b (2 ^ i)) 8 && ltb (bit_and b (255 - 2 ^ i)) 8 in
    let both = below-all_below row 3 i (below-all_below _ 8 b set_bit_table h) l in ground arith

-- For every index and either value: `set` keeps the reserved bits clear, changes the membership of
-- the index to the value if the index is below 3 and of no other, and reports whether it is.
pub set_lem :
    (s : BeaconSet) (index : ℕ) (enabled : Bool)
    → IsValid s
    → IsValid (set s index enabled).0
      × ((set s index enabled).1 ≡ ltb index 3)
      × ((other : ℕ)
          → contains (set s index enabled).0 other
            ≡ (if ltb index 3 && index == other then enabled else contains s other))
unfolding set contains
set_lem s index enabled v = (
  ground (arith, set_bit s.byte index v),
  ground arith,
  λ other. ground (
    arith,
    has_bit-bit_or s.byte index other (omega arith),
    has_bit-bit_and s.byte index other (omega arith),
  ),
)
