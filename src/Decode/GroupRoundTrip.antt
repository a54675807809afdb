-- ===== src/Decode/GroupRoundTrip.antt =====
-- The information about a group is read back from the payload that the client writes it into.
use velux2mqtt.Command.Encode.Lengths.{HasLength, encode_group_information-HasLength}
use velux2mqtt.Prelude.{subst}
use velux2mqtt.Error.{ok, Result-cases, err≢ok, ok_inj}
use velux2mqtt.Decode.Groups.{decode_group_information}
use velux2mqtt.Prelude.{
  ◌++◌, Bytes, [], arith, drop-behind, from_be_bytes, get_or-behind, length, refl, replicate,
  take-front, ℕ, ◌∷◌, ◌≡◌, length-append, ◌%◌, ◌/◌, ◌<◌, inl, inr, is_utf8, true, ap, ap₂, sym, ◌∙◌,
}
use velux2mqtt.Decode.Fields.{require_exact, read_u16}
use velux2mqtt.Command.Payloads.{slots, encode_group_information}
use velux2mqtt.Types.FixedString.{decode_fixed_string, encode_fixed_string}
use velux2mqtt.Types.Records.{GroupInformation}
use velux2mqtt.Types.FixedString.Laws.{decode-encode_fixed_string}

require_exact-ok :
    (payload : Bytes) (expected command : ℕ)
    → length payload ≡ expected
    → require_exact payload expected command ≡ ok tt
unfolding require_exact
require_exact-ok payload expected command h = ground arith

slots_whole : (n : ℕ) (bytes : Bytes) → length bytes ≡ n → slots n bytes ≡ bytes
slots_whole n bytes h = take-front n bytes (replicate n 0) h

-- The payload in its parts.
module _ (id hi lo placement : ℕ) (field : Bytes) (velocity variation kind count : ℕ) (bits : Bytes)
    (revision_hi revision_lo : ℕ) (field_size : length field ≡ 64)
    (bits_size : length bits ≡ 25) where
  abbrev tail : Bytes
  tail = velocity ∷ variation ∷ kind ∷ count ∷ (bits ++ (revision_hi ∷ revision_lo ∷ []))

  decode-parts :
      (command : ℕ) {name : Bytes}
      → decode_fixed_string field ≡ ok name
      → decode_group_information (id ∷ hi ∷ lo ∷ placement ∷ (field ++ tail)) command
        ≡ ok (record {
          group_id = id;
          order = from_be_bytes hi lo;
          placement = placement;
          name = name;
          velocity = velocity;
          node_variation = variation;
          group_type = kind;
          object_count = count;
          actuators = record { bytes = bits };
          revision = from_be_bytes revision_hi revision_lo;
        })
  unfolding decode_group_information read_u16
  decode-parts command h =
      rw
        (
          require_exact-ok (id ∷ hi ∷ lo ∷ placement ∷ (field ++ tail)) 99 command (
              omega (
                arith,
                length-append field tail,
                length-append bits (revision_hi ∷ revision_lo ∷ []),
              )),
          take-front 64 field tail field_size,
          h,
          get_or-behind 64 0 field tail 0 field_size,
          get_or-behind 64 1 field tail 0 field_size,
          get_or-behind 64 2 field tail 0 field_size,
          get_or-behind 64 3 field tail 0 field_size,
          get_or-behind 64 29 field tail 0 field_size,
          get_or-behind 64 30 field tail 0 field_size,
          drop-behind 64 4 field tail field_size,
          take-front 25 bits (revision_hi ∷ revision_lo ∷ []) bits_size,
          get_or-behind 25 0 bits (revision_hi ∷ revision_lo ∷ []) 0 bits_size,
          get_or-behind 25 1 bits (revision_hi ∷ revision_lo ∷ []) 0 bits_size,
        )
        refl

from_be_bytes-to : (n : ℕ) → n < 65536 → from_be_bytes (n / 256 % 256) (n % 256) ≡ n
from_be_bytes-to n h = omega arith

-- A group whose name is text, whose numbers have 16 bits and whose set of actuators has 25 bytes: if
-- it can be encoded, then the payload has 99 bytes and decoding it gives the group back.
pub decode-encode_group_information :
    (group : GroupInformation) (command : ℕ) {payload : Bytes}
    → is_utf8 group.name ≡ true
    → group.order < 65536
    → group.revision < 65536
    → length group.actuators.bytes ≡ 25
    → encode_group_information group ≡ ok payload
    → (length payload ≡ 99) × (decode_group_information payload command ≡ ok group)
unfolding encode_group_information
decode-encode_group_information group command {payload} text order revision size h = (
  subst (HasLength 99) h (encode_group_information-HasLength group),
  elim (Result-cases (encode_fixed_string 64 group.name)) [
    | inl (field, e) ↦
        let fixed = decode-encode_fixed_string 64 group.name text e in
        let written = ok_inj (rw e at h) in
        let bits = group.actuators.bytes in
        ap (λ bytes. decode_group_information bytes command) (sym written)
        ∙ rw (slots_whole 64 field fixed.0, slots_whole 25 bits size)
            (decode-parts group.group_id (group.order / 256 % 256) (group.order % 256)
              group.placement field group.velocity group.node_variation group.group_type
              group.object_count bits (group.revision / 256 % 256) (group.revision % 256) fixed.0
              size command fixed.1)
        ∙ ap₂ (λ o r. ok (record group { order = o; revision = r }))
            (from_be_bytes-to group.order order) (from_be_bytes-to group.revision revision)
    | inr (failure, e) ↦ absurd (err≢ok failure payload (rw e at h))
  ],
)
