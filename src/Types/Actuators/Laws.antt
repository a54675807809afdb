-- ===== src/Types/Actuators/Laws.antt =====
-- Laws of the actuator set: each operation against membership, and the iteration.
use velux2mqtt.Types.Actuators.{
  ActuatorSet, new, contains, insert, byte_of, with_byte, actuator_bytes, actuator_count, bit_or,
  bit, remove, iter_from, iter, bit_and, complement,
}
use velux2mqtt.Prelude.{
  ◌%◌, ◌&&◌, ◌/◌, ◌<◌, ◌==◌, Bytes, IsBytes, [], arith, if◌then◌else◌, get_or, length, length-set,
  refl, set, suc, zero, ◌||◌, ℕ, ◌∙◌, ◌∷◌, ◌≡◌, ◌+◌, ==_iff, Bool, List, dec_lt, false, if_both,
  leb, ltb, not, ◌≤◌, add-one,
}
use velux2mqtt.Prelude.BitTables.{has_bit-bit_or, bit_or-lt, bit_and-lt, has_bit-bit_and}

-- 25 bytes.
pub record IsValid (s : ActuatorSet) : Type 0 where
  pub size : length s.bytes ≡ actuator_bytes
  pub are_bytes : IsBytes s.bytes

pub new-IsValid : IsValid new
new-IsValid = record { size = refl; are_bytes = omega arith }

get_or-IsByte : (bs : Bytes) (i : ℕ) → IsBytes bs → get_or bs i 0 < 256
get_or-IsByte [] i h = omega arith
get_or-IsByte (b ∷ bs) zero h = h.0
get_or-IsByte (b ∷ bs) (suc i) h = get_or-IsByte bs i h.1

set-IsBytes : (bs : Bytes) (i v : ℕ) → v < 256 → IsBytes bs → IsBytes (set bs i v)
set-IsBytes [] i v l h = tt
set-IsBytes (b ∷ bs) zero v l h = (l, h.1)
set-IsBytes (b ∷ bs) (suc i) v l h = (h.0, set-IsBytes bs i v l h.1)

get_or-set :
    (bs : Bytes) (i j v : ℕ)
    → i < length bs
    → get_or (set bs i v) j 0 ≡ (if i == j then v else get_or bs j 0)
get_or-set [] i j v h = absurd (omega arith)
get_or-set (b ∷ bs) zero zero v h = refl
get_or-set (b ∷ bs) zero (suc j) v h = ground arith
get_or-set (b ∷ bs) (suc i) zero v h = ground arith
get_or-set (b ∷ bs) (suc i) (suc j) v h = ground (arith, get_or-set bs i j v (omega arith))

module _ (s : ActuatorSet) (v : IsValid s) (index byte : ℕ) (lt : index < actuator_count) where
  with_byte-IsValid : byte < 256 → IsValid (with_byte s index byte)
  with_byte-IsValid b = record {
    size = length-set s.bytes (index / 8) byte ∙ v.size;
    are_bytes = set-IsBytes s.bytes (index / 8) byte b v.are_bytes;
  }

  byte_of-with_byte :
      (other : ℕ)
      → byte_of (with_byte s index byte) other
        ≡ (if index / 8 == other / 8 then byte else byte_of s other)
  byte_of-with_byte other = get_or-set s.bytes (index / 8) (other / 8) byte (omega (arith, v.size))

-- Two indices are equal if they name the same bit of the same byte.
index-eq : (i j : ℕ) → (i == j) ≡ (i / 8 == j / 8 && i % 8 == j % 8)
index-eq i j = ground arith

contains-insert :
    (s : ActuatorSet) (index other : ℕ)
    → IsValid s
    → index < actuator_count
    → other < actuator_count
    → contains (insert s index).0 other ≡ (index == other || contains s other)
unfolding contains insert
contains-insert s index other v lt lt' = ground (
  arith,
  byte_of-with_byte s v index (bit_or (byte_of s index) (bit index)) lt other,
  index-eq index other,
  has_bit-bit_or (byte_of s index) (index % 8) (other % 8)
      (get_or-IsByte s.bytes (index / 8) v.are_bytes) (omega arith) (omega arith),
)

contains-remove :
    (s : ActuatorSet) (index other : ℕ)
    → IsValid s
    → index < actuator_count
    → other < actuator_count
    → contains (remove s index).0 other ≡ (not (index == other) && contains s other)
unfolding contains remove
contains-remove s index other v lt lt' = ground (
  arith,
  byte_of-with_byte s v index (bit_and (byte_of s index) (complement (bit index))) lt other,
  index-eq index other,
  has_bit-bit_and (byte_of s index) (index % 8) (other % 8)
      (get_or-IsByte s.bytes (index / 8) v.are_bytes) (omega arith) (omega arith),
)

contains_out : (s : ActuatorSet) (index : ℕ) → actuator_count ≤ index → contains s index ≡ false
unfolding contains
contains_out s index h = ground arith

insert_out : (s : ActuatorSet) (index : ℕ) → actuator_count ≤ index → insert s index ≡ (s, false)
unfolding insert
insert_out s index h = ground arith

insert_in :
    (s : ActuatorSet) (index : ℕ)
    → index < actuator_count
    → insert s index
      ≡ (with_byte s index (bit_or (byte_of s index) (bit index)), not (contains s index))
unfolding insert
insert_in s index h = ground arith

remove_out : (s : ActuatorSet) (index : ℕ) → actuator_count ≤ index → remove s index ≡ (s, false)
unfolding remove
remove_out s index h = ground arith

remove_in :
    (s : ActuatorSet) (index : ℕ)
    → index < actuator_count
    → remove s index
      ≡ (with_byte s index (bit_and (byte_of s index) (complement (bit index))), contains s index)
unfolding remove
remove_in s index h = ground arith

-- What an operation that ends in the set `t` and reports `b` does if it adds the index, or takes
-- it away.
pub record Inserts (s : ActuatorSet) (index : ℕ) (r : ActuatorSet × Bool) : Type 0 where
  pub valid : IsValid r.0
  pub reports : r.1 ≡ (ltb index actuator_count && not (contains s index))
  pub members :
      (other : ℕ)
      → contains r.0 other ≡ (ltb index actuator_count && index == other || contains s other)

pub record Removes (s : ActuatorSet) (index : ℕ) (r : ActuatorSet × Bool) : Type 0 where
  pub valid : IsValid r.0
  pub reports : r.1 ≡ contains s index
  pub members : (other : ℕ) → contains r.0 other ≡ (not (index == other) && contains s other)

-- For every index, in range or not: `insert` keeps the 25 bytes, adds the index if it is below 200
-- and nothing else, and reports whether the index is new.
pub insert_lem : (s : ActuatorSet) (index : ℕ) → IsValid s → Inserts s index (insert s index)
insert_lem s index v = elim (dec_lt index actuator_count) [
  | yes lt ↦ record {
    valid = rw (insert_in s index lt) (
        with_byte-IsValid s v index _ lt (
          bit_or-lt (byte_of s index) (index % 8) 0 (get_or-IsByte s.bytes (index / 8) v.are_bytes)
            (omega arith) (omega arith)));
    reports = ground (arith, insert_in s index lt);
    members = λ other. elim (dec_lt other actuator_count) [
      | yes lt' ↦ ground (arith, contains-insert s index other v lt lt')
      | no out ↦ ground (
        arith,
        contains_out s other (omega arith),
        contains_out (insert s index).0 other (omega arith),
      )
    ];
  }
  | no out ↦ record {
    valid = rw (insert_out s index (omega arith)) v;
    reports = ground (arith, insert_out s index (omega arith));
    members = λ other. ground (arith, insert_out s index (omega arith));
  }
]

-- For every index: `remove` keeps the 25 bytes, takes the index away and nothing else, and reports
-- whether it was there.
pub remove_lem : (s : ActuatorSet) (index : ℕ) → IsValid s → Removes s index (remove s index)
remove_lem s index v = elim (dec_lt index actuator_count) [
  | yes lt ↦ record {
    valid = rw (remove_in s index lt) (
        with_byte-IsValid s v index _ lt (
          bit_and-lt (byte_of s index) (index % 8) 0 (get_or-IsByte s.bytes (index / 8) v.are_bytes)
            (omega arith) (omega arith)));
    reports = ground (arith, remove_in s index lt);
    members = λ other. elim (dec_lt other actuator_count) [
      | yes lt' ↦ contains-remove s index other v lt lt'
      | no out ↦ ground (
        arith,
        contains_out s other (omega arith),
        contains_out (remove s index).0 other (omega arith),
      )
    ];
  }
  | no out ↦ record {
    valid = rw (remove_out s index (omega arith)) v;
    reports = ground (arith, remove_out s index (omega arith), contains_out s index (omega arith));
    members = λ other.
        ground (arith, remove_out s index (omega arith), contains_out s index (omega arith));
  }
]

-- Membership in a list of indices.
abbrev pub is_in : ℕ → List ℕ → Bool
is_in i [] = false
is_in i (x ∷ xs) = x == i || is_in i xs

-- Strictly ascending numbers from a bound on.
abbrev pub Ascends : ℕ → List ℕ → Type 0
Ascends lo [] = Unit
Ascends lo (x ∷ xs) = (lo ≤ x) × Ascends (suc x) xs

Ascends-mono : (lo lo' : ℕ) (xs : List ℕ) → lo ≤ lo' → Ascends lo' xs → Ascends lo xs
Ascends-mono lo lo' [] h a = tt
Ascends-mono lo lo' (x ∷ xs) h a = (omega arith, a.1)

iter_from_lem :
    (s : ActuatorSet) (left lo : ℕ)
    → Ascends lo (iter_from s left lo)
      × ((i : ℕ) → is_in i (iter_from s left lo) ≡ (leb lo i && ltb i (lo + left) && contains s i))
unfolding iter_from
iter_from_lem s zero lo = (tt, λ i. ground arith)
iter_from_lem s (suc left) lo =
    let (up, members) = iter_from_lem s left (lo + 1) in
    (
      if_both (Ascends lo) (contains s lo) (omega arith, rw (← add-one lo) up)
          (Ascends-mono lo (lo + 1) _ (omega arith) up),
      λ i. ground (arith, members i, ==_iff lo i),
    )

contains_within :
    (s : ActuatorSet) (i : ℕ)
    → (leb 0 i && ltb i (0 + actuator_count) && contains s i) ≡ contains s i
unfolding contains
contains_within s i = ground arith

-- `iter` lists the members, each once and in ascending order.
pub iter_lem : (s : ActuatorSet) → Ascends 0 (iter s) × ((i : ℕ) → is_in i (iter s) ≡ contains s i)
unfolding iter
iter_lem s = (
  (iter_from_lem s actuator_count 0).0,
  λ i. (iter_from_lem s actuator_count 0).1 i ∙ contains_within s i,
)
