-- ===== src/Mqtt/Text.antt =====
-- What src/mqtt.rs uses of `str`, on the UTF-8 bytes of a text.
use velux2mqtt.Prelude.{
  ◌%◌, ◌&&◌, ◌*◌, ◌+◌, ◌++◌, ◌-◌, ◌/◌, ◌==◌, Bool, Bytes, List, Option, [], if◌then◌else◌, false,
  leb, ltb, none, some, true, ◌||◌, ℕ, ◌∷◌,
}

-- The white space of Unicode by its bytes: one, two or three of them.
abbrev pub is_space : ℕ → Bool
is_space a = leb 9 a && leb a 13 || a == 32

abbrev pub is_space_2 : ℕ → ℕ → Bool
is_space_2 a b = a == 0xC2 && (b == 0x85 || b == 0xA0)

abbrev pub is_space_3 : ℕ → ℕ → ℕ → Bool
is_space_3 a b c =
    a == 0xE1 && b == 0x9A && c == 0x80
    || a == 0xE2
      && (b == 0x80 && (leb 0x80 c && leb c 0x8A || c == 0xA8 || c == 0xA9 || c == 0xAF)
          || b == 0x81 && c == 0x9F)
    || a == 0xE3 && b == 0x80 && c == 0x80

-- Without the white space at the start, and the same for bytes in reverse order.
unfoldable pub trim_start : Bytes → Bytes
trim_start (a ∷ b ∷ c ∷ rest) =
    let behind_one = trim_start (b ∷ c ∷ rest) in
    let behind_two = trim_start (c ∷ rest) in
    let behind_three = trim_start rest in
    if is_space a
    then behind_one
    else if is_space_2 a b
    then behind_two
    else if is_space_3 a b c
    then behind_three
    else a ∷ b ∷ c ∷ rest
trim_start (a ∷ b ∷ []) =
    let behind_one = trim_start (b ∷ []) in
    if is_space a then behind_one else if is_space_2 a b then [] else a ∷ b ∷ []
trim_start (a ∷ []) = if is_space a then [] else a ∷ []
trim_start [] = []

unfoldable pub trim_reversed : Bytes → Bytes
trim_reversed (c ∷ b ∷ a ∷ rest) =
    let behind_one = trim_reversed (b ∷ a ∷ rest) in
    let behind_two = trim_reversed (a ∷ rest) in
    let behind_three = trim_reversed rest in
    if is_space c
    then behind_one
    else if is_space_2 b c
    then behind_two
    else if is_space_3 a b c
    then behind_three
    else c ∷ b ∷ a ∷ rest
trim_reversed (c ∷ b ∷ []) =
    let behind_one = trim_reversed (b ∷ []) in
    if is_space c then behind_one else if is_space_2 b c then [] else c ∷ b ∷ []
trim_reversed (c ∷ []) = if is_space c then [] else c ∷ []
trim_reversed [] = []

unfoldable pub reverse_onto : Bytes → Bytes → Bytes
reverse_onto done [] = done
reverse_onto done (b ∷ bytes) = reverse_onto (b ∷ done) bytes

-- `trim`
unfoldable pub trim : Bytes → Bytes
unfolding trim_start trim_reversed reverse_onto
trim text = reverse_onto [] (trim_reversed (reverse_onto [] (trim_start text)))

-- `trim_matches` with one ASCII character
unfoldable pub drop_leading : ℕ → Bytes → Bytes
drop_leading c [] = []
drop_leading c (b ∷ bytes) = let rest = drop_leading c bytes in if b == c then rest else b ∷ bytes

unfoldable pub trim_matches : ℕ → Bytes → Bytes
unfolding drop_leading reverse_onto
trim_matches c text = reverse_onto [] (drop_leading c (reverse_onto [] (drop_leading c text)))

-- `eq_ignore_ascii_case`
abbrev pub to_ascii_lowercase : ℕ → ℕ
to_ascii_lowercase b = if leb 65 b && leb b 90 then b + 32 else b

unfoldable pub eq_ignore_ascii_case : Bytes → Bytes → Bool
eq_ignore_ascii_case [] [] = true
eq_ignore_ascii_case (x ∷ xs) (y ∷ ys) =
    to_ascii_lowercase x == to_ascii_lowercase y && eq_ignore_ascii_case xs ys
eq_ignore_ascii_case _ _ = false

-- `strip_prefix`
unfoldable pub strip_prefix : Bytes → Bytes → Option Bytes
strip_prefix [] text = some text
strip_prefix (p ∷ prefix) [] = none
strip_prefix (p ∷ prefix) (b ∷ text) =
    let rest = strip_prefix prefix text in if p == b then rest else none

-- `split` at one ASCII character, with the segment so far.
unfoldable pub split_onto : ℕ → Bytes → Bytes → List Bytes
split_onto c segment [] = segment ∷ []
split_onto c segment (b ∷ text) =
    let next = split_onto c [] text in
    let same = split_onto c (segment ++ (b ∷ [])) text in if b == c then segment ∷ next else same

unfoldable pub split : ℕ → Bytes → List Bytes
unfolding split_onto
split c text = split_onto c [] text

-- `parse::<u8>`: an optional plus sign and at least one digit, without overflow.
unfoldable pub parse_digits : ℕ → Bytes → Option ℕ
parse_digits value [] = some value
parse_digits value (b ∷ digits) =
    let next = parse_digits (value * 10 + (b - 48)) digits in
    if leb 48 b && leb b 57 && leb (value * 10 + (b - 48)) 255 then next else none

unfoldable pub parse_u8 : Bytes → Option ℕ
unfolding parse_digits
parse_u8 [] = none
parse_u8 (b ∷ []) = parse_digits 0 (b ∷ [])
parse_u8 (b ∷ c ∷ digits) =
    if b == 43 then parse_digits 0 (c ∷ digits) else parse_digits 0 (b ∷ c ∷ digits)

-- A `u8` in decimal.
unfoldable pub decimal : ℕ → Bytes
decimal n =
    if ltb n 10
    then (48 + n) ∷ []
    else if ltb n 100
    then (48 + n / 10) ∷ (48 + n % 10) ∷ []
    else (48 + n / 100) ∷ (48 + n / 10 % 10) ∷ (48 + n % 10) ∷ []
