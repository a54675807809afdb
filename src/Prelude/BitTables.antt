-- ===== src/Prelude/BitTables.antt =====
-- Setting, clearing and testing one bit of a byte, checked for every byte and every pair of bits.
use Prim.Native.Nat.{ℕ, ◌-◌, ◌^◌, ◌<◌, bit_and, bit_or}
use mathlib.Core.Path.{◌≡◌, refl}
use mathlib.Core.Bool.{Bool, true, false, not, ◌&&◌, ◌||◌}
use native.Mathlib.Omega.{arith}
use velux2mqtt.Prelude.Tests.{◌==◌, ltb}
use velux2mqtt.Prelude.Bits.{all_below, below-all_below}

abbrev same : Bool → Bool → Bool
same true b = b
same false b = not b

same-eq : (a b : Bool) → same a b ≡ true → a ≡ b
same-eq true b h = ground arith
same-eq false b h = ground arith

left : (a b : Bool) → (a && b) ≡ true → a ≡ true
left a b h = ground arith

right : (a b : Bool) → (a && b) ≡ true → b ≡ true
right a b h = ground arith

ltb-lt : (a b : ℕ) → ltb a b ≡ true → a < b
ltb-lt a b h = ground arith

-- Whether bit `j` of the byte is set.
abbrev pub has_bit : ℕ → ℕ → Bool
has_bit b j = not (bit_and b (2 ^ j) == 0)

-- The test at one byte and two bits, for setting and for clearing a bit.
set_test : ℕ → ℕ → ℕ → Bool
set_test b i j =
    same (has_bit (bit_or b (2 ^ i)) j) (i == j || has_bit b j) && ltb (bit_or b (2 ^ i)) 256

clear_test : ℕ → ℕ → ℕ → Bool
clear_test b i j =
    same (has_bit (bit_and b (255 - 2 ^ i)) j) (not (i == j) && has_bit b j)
    && ltb (bit_and b (255 - 2 ^ i)) 256

abbrev every : (ℕ → ℕ → ℕ → Bool) → Bool
every t = all_below 256 (λ b. all_below 8 (λ i. all_below 8 (λ j. t b i j)))

every_sound :
    (t : ℕ → ℕ → ℕ → Bool) (b i j : ℕ) → every t ≡ true → b < 256 → i < 8 → j < 8 → t b i j ≡ true
every_sound t b i j h b_lt i_lt j_lt =
    below-all_below (λ j. t b i j) 8 j
      (below-all_below (λ i. all_below 8 (λ j. t b i j)) 8 i
        (below-all_below (λ b. all_below 8 (λ i. all_below 8 (λ j. t b i j))) 256 b h b_lt) i_lt)
      j_lt

set_table : every set_test ≡ true
unfolding set_test all_below
set_table = refl

clear_table : every clear_test ≡ true
unfolding clear_test all_below
clear_table = refl

module _ (b i j : ℕ) (b_lt : b < 256) (i_lt : i < 8) (j_lt : j < 8) where
  pub has_bit-bit_or : has_bit (bit_or b (2 ^ i)) j ≡ (i == j || has_bit b j)
  unfolding set_test
  has_bit-bit_or = same-eq _ _ (left _ _ (every_sound set_test b i j set_table b_lt i_lt j_lt))

  pub bit_or-lt : bit_or b (2 ^ i) < 256
  unfolding set_test
  bit_or-lt = ltb-lt _ _ (right _ _ (every_sound set_test b i j set_table b_lt i_lt j_lt))

  pub has_bit-bit_and : has_bit (bit_and b (255 - 2 ^ i)) j ≡ (not (i == j) && has_bit b j)
  unfolding clear_test
  has_bit-bit_and = same-eq _ _ (left _ _ (every_sound clear_test b i j clear_table b_lt i_lt j_lt))

  pub bit_and-lt : bit_and b (255 - 2 ^ i) < 256
  unfolding clear_test
  bit_and-lt = ltb-lt _ _ (right _ _ (every_sound clear_test b i j clear_table b_lt i_lt j_lt))
