-- ===== src/Types/FixedString.antt =====
-- `decode_fixed_string` and `encode_fixed_string` of src/klf200/types.rs. A `&str` or `String` is
-- its UTF-8 bytes.
pub mod Laws
use velux2mqtt.Prelude.{
  ◌++◌, ◌-◌, ◌==◌, Bool, Bytes, [], if◌then◌else◌, false, is_utf8, length, ltb, replicate, ◌||◌, ℕ,
  ◌∷◌,
}
use velux2mqtt.Error.{Result, err, invalid_request, invalid_utf8, ok, string_too_long}

-- `value.as_bytes().contains(&0)`
unfoldable pub has_nul : Bytes → Bool
has_nul [] = false
has_nul (b ∷ bs) = b == 0 || has_nul bs

-- `field[..end]`, with `end` the position of the first NUL or the length of the field.
unfoldable pub until_nul : Bytes → Bytes
until_nul [] = []
until_nul (b ∷ bs) = let rest = b ∷ until_nul bs in if b == 0 then [] else rest

unfoldable pub decode_fixed_string : Bytes → Result Bytes
decode_fixed_string field =
    if is_utf8 (until_nul field) then ok (until_nul field) else err invalid_utf8

-- `encode_fixed_string::<N>`; `N.saturating_sub(1)` is `N - 1`.
unfoldable pub encode_fixed_string : ℕ → Bytes → Result Bytes
encode_fixed_string n value =
    let maximum = n - 1 in
    if has_nul value
    then err (invalid_request "fixed-width strings cannot contain NUL bytes")
    else if ltb maximum (length value)
    then err (string_too_long (length value) maximum)
    else ok (value ++ replicate (n - length value) 0)
