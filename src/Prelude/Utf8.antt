-- ===== src/Prelude/Utf8.antt =====
-- `std::str::from_utf8`: which byte strings are UTF-8. A lead byte says how many bytes follow, and
-- between which bounds the first of them lies; the others lie between 0x80 and 0xBF.
use Prim.Native.Nat.{ℕ, zero, suc}
use mathlib.Core.Bool.{Bool, true, false, ◌&&◌}
use mathlib.Core.List.{[], ◌∷◌}
use velux2mqtt.Prelude.Tests.{ltb, leb, ◌==◌, if◌then◌else◌}
use velux2mqtt.Prelude.Octets.{Bytes}

-- The bytes that are due, and the bounds of the next one.
pub record Due : Type 0 where
  pub count : ℕ
  pub low : ℕ
  pub high : ℕ

abbrev pub due : ℕ → ℕ → ℕ → Due
due count low high = record { count = count; low = low; high = high }

abbrev within : ℕ → ℕ → ℕ → Bool
within low high b = leb low b && leb b high

-- After a lead byte; bounds that no byte meets where the byte is no lead byte.
unfoldable pub after_lead : ℕ → Due
after_lead b =
    if ltb b 0x80
    then due 0 0x80 0xBF
    else if within 0xC2 0xDF b
    then due 1 0x80 0xBF
    else if b == 0xE0
    then due 2 0xA0 0xBF
    else if b == 0xED
    then due 2 0x80 0x9F
    else if within 0xE1 0xEF b
    then due 2 0x80 0xBF
    else if b == 0xF0
    then due 3 0x90 0xBF
    else if within 0xF1 0xF3 b
    then due 3 0x80 0xBF
    else if b == 0xF4
    then due 3 0x80 0x8F
    else due 1 1 0

unfoldable pub utf8_from : ℕ → ℕ → ℕ → Bytes → Bool
unfolding after_lead
utf8_from zero low high [] = true
utf8_from (suc n) low high [] = false
utf8_from zero low high (b ∷ bs) = let d = after_lead b in utf8_from d.count d.low d.high bs
utf8_from (suc n) low high (b ∷ bs) = within low high b && utf8_from n 0x80 0xBF bs

unfoldable pub is_utf8 : Bytes → Bool
unfolding utf8_from
is_utf8 = utf8_from 0 0x80 0xBF
