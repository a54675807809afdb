-- ===== src/Command/Packing.antt =====
-- The packed priority settings of src/klf200/command.rs.
use velux2mqtt.Prelude.{
  ◌%◌, ◌*◌, ◌+◌, ◌<◌, ◌==◌, All, Bytes, [], arith, refl, true, ℕ, ◌↔◌, ◌∷◌, ◌≡◌, ◌≤◌, false,
}
use velux2mqtt.Error.{IsOk}
use velux2mqtt.Prelude.Bits.{all_below, below-all_below}
use Prim.Native.Nat.{bit_or}
use velux2mqtt.Command.Payloads.{
  validate_priority_settings, pack_two_bit_settings, any_above_three, pack_onto,
}

shift_table :
    all_below 64
      (λ packed. all_below 4 (λ setting. bit_or (packed * 4 % 256) setting == packed * 4 + setting))
    ≡ true
unfolding all_below
shift_table = refl

shift_in :
    (packed setting : ℕ)
    → packed < 64
    → setting < 4
    → bit_or (packed * 4 % 256) setting ≡ packed * 4 + setting
shift_in packed setting p s =
    let row = below-all_below _ 4 setting (below-all_below _ 64 packed shift_table p) s in
    ground arith

above_three_iff :
    (settings : Bytes) → (any_above_three settings ≡ false) ↔ All (λ s. s ≤ 3) settings
unfolding any_above_three
above_three_iff [] = (λ h. tt, λ h. refl)
above_three_iff (s ∷ settings) =
    let ih = above_three_iff settings in
    (λ h. (ground arith, ih.0 (ground arith)), λ h. ground (arith, ih.1 h.1))

-- Settings are accepted exactly if each of them is at most three.
pub validate_priority_settings_lem :
    (settings : Bytes) → IsOk (validate_priority_settings settings) ↔ All (λ s. s ≤ 3) settings
unfolding validate_priority_settings
validate_priority_settings_lem settings =
    let each = above_three_iff settings in
    (λ h. each.0 (ground arith), λ h. ground (arith, each.1 h))

-- Four settings that are accepted are packed into one byte, two bits each, the first on top.
pub pack_two_bit_settings_lem :
    (a b c d : ℕ)
    → IsOk (validate_priority_settings (a ∷ b ∷ c ∷ d ∷ []))
    → pack_two_bit_settings (a ∷ b ∷ c ∷ d ∷ []) ≡ a * 64 + b * 16 + c * 4 + d
unfolding pack_two_bit_settings pack_onto
pack_two_bit_settings_lem a b c d h =
    let (a_le, (b_le, (c_le, (d_le, rest)))) =
      (validate_priority_settings_lem (a ∷ b ∷ c ∷ d ∷ [])).0 h in
    rw
      (
        shift_in 0 a (omega arith) (omega arith),
        shift_in (0 * 4 + a) b (omega arith) (omega arith),
        shift_in ((0 * 4 + a) * 4 + b) c (omega arith) (omega arith),
        shift_in (((0 * 4 + a) * 4 + b) * 4 + c) d (omega arith) (omega arith),
      )
      (omega arith)
