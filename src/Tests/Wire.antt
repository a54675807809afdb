-- ===== src/Tests/Wire.antt =====
-- The theorems about the framing of src/klf200/slip.rs and src/klf200/frame.rs at concrete inputs.
use velux2mqtt.Slip
use velux2mqtt.Frame
use velux2mqtt.Prelude.{◌++◌, All, [], arith, inl, map, refl, set, ◌∷◌, ◌≡◌, Bytes}
use velux2mqtt.Error.{KlfError, err, ok, slip_frame_too_large}
use velux2mqtt.Slip.RoundTrip.{Fits, between, push_all-encodes}
use velux2mqtt.Slip.{encode_bytes, push, escaped_bytes, encode_byte, end, push_all}
use velux2mqtt.Slip.Bounds.{IsBoundedRound, push-IsBounded}
use velux2mqtt.Frame.{Frame, checksum, klf_protocol_id, checksum_from}
use velux2mqtt.Frame.RoundTrip.{decode-set, decode-encode, encode-decode}
use velux2mqtt.Slip.Recovery.{push-encode_too_large, push_noise-encode}

frames-Fits : All (Fits 4) ((1 ∷ 0xC0 ∷ []) ∷ (0xDB ∷ []) ∷ [])
frames-Fits = (((λ e. cc), omega arith), (((λ e. cc), omega arith), tt))

push_all-encodes_example :
    (push_all
      (Slip.new 4)
      ((0xC0 ∷ 1 ∷ 0xDB ∷ []) ∷ (0xDC ∷ 0xC0 ∷ 0xC0 ∷ []) ∷ (0xDB ∷ 0xDD ∷ 0xC0 ∷ []) ∷ [])).1
    ≡ map ok ((1 ∷ 0xC0 ∷ []) ∷ (0xDB ∷ []) ∷ [])
unfolding Slip.encode encode_bytes encode_byte
push_all-encodes_example =
    push_all-encodes 4 ((1 ∷ 0xC0 ∷ []) ∷ (0xDB ∷ []) ∷ []) _ refl frames-Fits

push-IsBounded_example : IsBoundedRound 2 (push (Slip.new 2) (0xC0 ∷ 1 ∷ 2 ∷ 3 ∷ 0xC0 ∷ 0xDB ∷ []))
push-IsBounded_example =
    push-IsBounded (Slip.new 2) (0xC0 ∷ 1 ∷ 2 ∷ 3 ∷ 0xC0 ∷ 0xDB ∷ []) (omega arith)

push-encode_too_large_example :
    push (Slip.new 2) (Slip.encode (1 ∷ 2 ∷ 3 ∷ []))
    ≡ (between 2, err (slip_frame_too_large 2) ∷ [])
push-encode_too_large_example =
    push-encode_too_large 2 (Slip.new 2) (1 ∷ 2 ∷ 3 ∷ []) (inl refl) (omega arith)

push_noise-encode_example :
    push (Slip.new 2) ((7 ∷ 0xDB ∷ []) ++ Slip.encode (5 ∷ []))
    ≡ (between 2, (push (Slip.new 2) ((7 ∷ 0xDB ∷ []) ++ (end ∷ []))).1 ++ (ok (5 ∷ []) ∷ []))
push_noise-encode_example =
    push_noise-encode (Slip.new 2) (7 ∷ 0xDB ∷ []) (5 ∷ []) ((λ e. cc), omega arith)

abbrev two_bytes : Bytes
two_bytes = 1 ∷ 0xC0 ∷ []

-- A frame with one byte of payload.
abbrev some_frame : Frame
some_frame = record { protocol_id = 0; command = 0x030D; payload = 9 ∷ [] }

decode-encode_example : Frame.decode (0 ∷ 4 ∷ 3 ∷ 0x0D ∷ 9 ∷ 3 ∷ []) ≡ ok some_frame
unfolding Frame.encode checksum_from
decode-encode_example = decode-encode some_frame (omega arith) refl

encode-decode_example : Frame.encode some_frame ≡ ok (0 ∷ 4 ∷ 3 ∷ 0x0D ∷ 9 ∷ 3 ∷ [])
unfolding Frame.decode checksum_from
encode-decode_example = encode-decode (0 ∷ 4 ∷ 3 ∷ 0x0D ∷ 9 ∷ 3 ∷ []) (omega arith) refl

accepted : Frame.decode (0 ∷ 4 ∷ 3 ∷ 0x0D ∷ 9 ∷ 3 ∷ []) ≡ ok some_frame
unfolding Frame.decode checksum_from
accepted = refl

decode-set_example :
    (e : KlfError) × (Frame.decode (set (0 ∷ 4 ∷ 3 ∷ 0x0D ∷ 9 ∷ 3 ∷ []) 4 8) ≡ err e)
decode-set_example =
    decode-set (0 ∷ 4 ∷ 3 ∷ 0x0D ∷ 9 ∷ 3 ∷ []) 4 8 (accepted) (omega arith) (omega arith)
