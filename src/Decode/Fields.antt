-- ===== src/Decode/Fields.antt =====
-- The helpers of src/klf200/response.rs that check the length of a payload and read its fields, and
-- the choice of an arm of a `match` on the command. Every index is below a length that is checked.
use velux2mqtt.Types.Sessions
use velux2mqtt.Prelude.{
  ◌&&◌, ◌*◌, ◌+◌, ◌-◌, Bool, Bytes, List, [], drop, if◌then◌else◌, from_be_bytes, get_or, leb,
  length, ltb, none, some, suc, take, zero, ℕ, ◌∷◌,
}
use velux2mqtt.Error.{Result, err, invalid_payload_length, invalid_request, ok, truncated_payload}
use Prim.Native.Nat.{compare}
use velux2mqtt.Prelude.Int.{ℤ, pos, negsuc}
use velux2mqtt.Types.Position.{StandardParameter, from_raw}
use velux2mqtt.Types.Records.{NodeSet}
use velux2mqtt.Response.{Response, acknowledgement}
use velux2mqtt.Types.Beacons.{from_byte}
use velux2mqtt.Prelude.Maps.{mem}
use Prim.Native.Nat.{compare, Ordering}
use mathlib.Core.Option.{some, none}
use velux2mqtt.Error.{◌>>=◌}

-- `payload[index]` and `payload[start..end]`
abbrev pub byte_at : Bytes → ℕ → ℕ
byte_at payload index = get_or payload index 0

abbrev pub slice : Bytes → ℕ → ℕ → Bytes
slice payload start end = take (end - start) (drop start payload)

unfoldable pub require : Bytes → ℕ → ℕ → Result (Unit {0})
require payload expected command =
    if ltb (length payload) expected
    then err (truncated_payload command expected (length payload))
    else ok tt

unfoldable pub require_exact : Bytes → ℕ → ℕ → Result (Unit {0})
require_exact payload expected command = elim (compare (length payload) expected) [
  | Ordering.lt ↦ err (truncated_payload command expected (length payload))
  | Ordering.eq ↦ ok tt
  | Ordering.gt ↦ err (invalid_payload_length command expected (length payload))
]

unfoldable pub read_u16 : Bytes → ℕ → ℕ
read_u16 payload offset = from_be_bytes (byte_at payload offset) (byte_at payload (offset + 1))

unfoldable pub read_u32 : Bytes → ℕ → ℕ
read_u32 payload offset =
    byte_at payload offset * 16777216
    + byte_at payload (offset + 1) * 65536
    + byte_at payload (offset + 2) * 256
    + byte_at payload (offset + 3)

-- `i8::from_be_bytes` and `i16::from_be_bytes`
unfoldable pub read_i8 : Bytes → ℕ → ℤ
read_i8 payload offset =
    let byte = byte_at payload offset in if ltb byte 128 then pos byte else negsuc (255 - byte)

unfoldable pub read_i16 : Bytes → ℕ → ℤ
unfolding read_u16
read_i16 payload offset =
    let word = read_u16 payload offset in if ltb word 32768 then pos word else negsuc (65535 - word)

-- `StandardParameter::from_raw(read_u16(..))`
abbrev pub read_parameter : Bytes → ℕ → StandardParameter
read_parameter payload offset = from_raw (read_u16 payload offset)

unfoldable pub session_id_at : Bytes → ℕ → ℕ → Result ℕ
session_id_at payload offset command = do
  checked ← require payload (offset + 2) command
  elim (Sessions.session_id (read_u16 payload offset)) [
    | some session_id ↦ ok session_id
    | none ↦ err (invalid_request "session ID zero is reserved")
  ]

unfoldable pub session_id : Bytes → ℕ → Result ℕ
session_id payload command = do checked ← require payload 2 command; session_id_at payload 0 command

unfoldable pub decode_node_set : Bytes → ℕ → NodeSet
decode_node_set payload offset = record {
  actuators = record { bytes = slice payload offset (offset + 25) };
  beacons = from_byte (byte_at payload (offset + 25));
}

-- `(0..count).map(..)`, of which the closure reads at `offset`, `offset + stride` and so on.
unfoldable pub entries {ℓ} : {A : Type ℓ} → (ℕ → A) → ℕ → ℕ → ℕ → List A
entries read offset stride zero = []
entries read offset stride (suc count) = read offset ∷ entries read (offset + stride) stride count

-- The same with `collect::<Result<Vec<_>>>`, which keeps the first error.
unfoldable pub try_entries {ℓ} : {A : Type ℓ} → (ℕ → Result A) → ℕ → ℕ → ℕ → Result (List A)
try_entries read offset stride zero = ok []
try_entries read offset stride (suc count) = do
  first ← read offset
  rest ← try_entries read (offset + stride) stride count
  ok (first ∷ rest)

-- A range pattern `first..=last`.
abbrev pub in_range : ℕ → ℕ → ℕ → Bool
in_range first last command = leb first command && leb command last

-- The arms of a `match` on the command, each with its alternatives, and the arm for the others.
abbrev pub Arms : Type 0
Arms = List (List ℕ × Result Response)

unfoldable pub select : ℕ → Arms → Result Response → Result Response
select command [] other = other
select command (arm ∷ arms) other =
    let rest = select command arms other in if mem arm.0 command then arm.1 else rest

-- The arm of an acknowledgement, which has no payload.
abbrev pub acknowledge : Bytes → ℕ → Result Response
acknowledge payload command = do
  checked ← require_exact payload 0 command
  ok (acknowledgement command)
