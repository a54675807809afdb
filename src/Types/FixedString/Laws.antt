-- ===== src/Types/FixedString/Laws.antt =====
-- Laws of the fixed-width strings.
use velux2mqtt.Prelude.{
  ◌++◌, ◌-◌, ◌<◌, Bytes, [], arith, false, is_utf8, length, length-append, length-replicate, refl,
  replicate, suc, true, zero, ℕ, ◌↔◌, ◌∷◌, ◌≡◌, ◌≤◌,
}
use velux2mqtt.Error.{IsOk, err, ok, string_too_long}
use velux2mqtt.Types.FixedString.{has_nul, encode_fixed_string, until_nul, decode_fixed_string}

until_nul-append :
    (value : Bytes) (n : ℕ) → has_nul value ≡ false → until_nul (value ++ replicate n 0) ≡ value
unfolding has_nul until_nul
until_nul-append [] zero h = refl
until_nul-append [] (suc n) h = refl
until_nul-append (b ∷ bs) n h = ground (arith, until_nul-append bs n)

-- A string is encoded exactly if it has no NUL and leaves room for one, which a field of no bytes
-- need not: there the empty string is encoded. The error says which of the two failed, the NUL
-- first.
pub encode_fixed_string_lem :
    (n : ℕ) (value : Bytes)
    → (IsOk (encode_fixed_string n value) ↔ ((has_nul value ≡ false) × (length value ≤ n - 1)))
      × (has_nul value ≡ false
          → n - 1 < length value
          → encode_fixed_string n value ≡ err (string_too_long (length value) (n - 1)))
unfolding encode_fixed_string
encode_fixed_string_lem n value = ((λ h. ground arith, λ h. ground arith), λ a b. ground arith)

-- A string, whose bytes are UTF-8, that can be encoded fills the field exactly, and is decoded from it
-- again.
pub decode-encode_fixed_string :
    (n : ℕ) (value : Bytes) {field : Bytes}
    → is_utf8 value ≡ true
    → encode_fixed_string n value ≡ ok field
    → (length field ≡ n) × (decode_fixed_string field ≡ ok value)
unfolding encode_fixed_string decode_fixed_string
decode-encode_fixed_string n value utf8 h = ground (
  arith,
  until_nul-append value (n - length value),
  length-append value (replicate (n - length value) 0),
  length-replicate {A = ℕ} (n - length value) 0,
)

has_nul-until_nul : (field : Bytes) → has_nul (until_nul field) ≡ false
unfolding has_nul until_nul
has_nul-until_nul [] = refl
has_nul-until_nul (b ∷ bs) = ground (arith, has_nul-until_nul bs)

length-until_nul : (field : Bytes) → length (until_nul field) ≤ length field
unfolding until_nul
length-until_nul [] = omega arith
length-until_nul (b ∷ bs) = ground (arith, length-until_nul bs)

-- What is decoded from a field is UTF-8 without NUL and no longer than the field, so it can be
-- encoded again into any wider field.
pub decode_fixed_string-encodable :
    (field : Bytes) {value : Bytes} (n : ℕ)
    → decode_fixed_string field ≡ ok value
    → length field < n
    → (is_utf8 value ≡ true) × IsOk (encode_fixed_string n value)
unfolding decode_fixed_string encode_fixed_string
decode_fixed_string-encodable field n h lt =
    ground (arith, has_nul-until_nul field, length-until_nul field)
