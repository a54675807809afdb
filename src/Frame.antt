-- ===== src/Frame.antt =====
-- src/klf200/frame.rs: the KLF frame envelope with its length field and exclusive-or checksum.
-- `fmt::Debug` of a frame is not modelled.
pub mod Checksum
pub mod RoundTrip
use Prim.Native.Nat.{bit_xor}
use velux2mqtt.Prelude.{
  ℕ, Bytes, ◌∷◌, if◌then◌else◌, get_or, length, not, ◌+◌, ◌==◌, ◌-◌, to_be_bytes, take, ◌++◌, ltb,
  leb, [], drop, from_be_bytes,
}
use velux2mqtt.Error.{
  Result, err, invalid_protocol_id, payload_too_large, frame_too_short, invalid_frame_length,
  invalid_checksum, ok,
}

abbrev pub klf_protocol_id : ℕ
klf_protocol_id = 0

abbrev pub frame_overhead : ℕ
frame_overhead = 5

abbrev pub payload_length_overhead : ℕ
payload_length_overhead = 3

abbrev pub max_payload_length : ℕ
max_payload_length = 252

pub record Frame : Type 0 where
  pub protocol_id : ℕ
  pub command : ℕ
  pub payload : Bytes

-- `Frame::new`
abbrev pub new : ℕ → Bytes → Frame
new command payload = record { protocol_id = klf_protocol_id; command = command; payload = payload }

unfoldable pub checksum_from : ℕ → Bytes → ℕ
checksum_from checksum [] = checksum
checksum_from checksum (byte ∷ bytes) = checksum_from (bit_xor checksum byte) bytes

abbrev pub checksum : Bytes → ℕ
checksum = checksum_from 0

-- The header and the payload, before the checksum is pushed.
abbrev pub envelope : Frame → Bytes
envelope f =
    f.protocol_id
    ∷ (length f.payload + payload_length_overhead)
    ∷ (to_be_bytes f.command ++ f.payload)

unfoldable pub encode : Frame → Result Bytes
encode f =
    if not (f.protocol_id == klf_protocol_id)
    then err (invalid_protocol_id f.protocol_id)
    else if ltb max_payload_length (length f.payload)
    then err (payload_too_large (length f.payload))
    else if not (leb (length f.payload + payload_length_overhead) 255)
    then err (payload_too_large (length f.payload))
    else ok (envelope f ++ (checksum (envelope f) ∷ []))

-- `Frame::decode`. Each index is in range, by the first test.
unfoldable pub decode : Bytes → Result Frame
decode encoded =
    let declared = get_or encoded 1 0 in
    let actual = length encoded - 2 in
    let checksum_index = length encoded - 1 in
    let expected = checksum (take checksum_index encoded) in
    let actual_checksum = get_or encoded checksum_index 0 in
    if ltb (length encoded) frame_overhead
    then err (frame_too_short (length encoded))
    else if not (get_or encoded 0 0 == klf_protocol_id)
    then err (invalid_protocol_id (get_or encoded 0 0))
    else if not (declared == actual)
    then err (invalid_frame_length declared actual)
    else if not (expected == actual_checksum)
    then err (invalid_checksum expected actual_checksum)
    else ok (record {
      protocol_id = get_or encoded 0 0;
      command = from_be_bytes (get_or encoded 2 0) (get_or encoded 3 0);
      payload = drop 4 (take checksum_index encoded);
    })
