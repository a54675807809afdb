-- ===== src/Slip.antt =====
-- src/klf200/slip.rs: SLIP framing of a byte stream.
pub mod RoundTrip
pub mod Bounds
pub mod Recovery
use velux2mqtt.Prelude.{
  ℕ, ◌+◌, Bool, true, false, not, ◌&&◌, ◌||◌, List, [], ◌∷◌, ◌++◌, ◌==◌, if◌then◌else◌, Bytes,
  length, is_empty,
}
use velux2mqtt.Error.{
  Result, ok, err, incomplete_slip_escape, invalid_slip_escape, slip_frame_too_large,
}

abbrev pub end : ℕ
end = 0xC0

abbrev pub esc : ℕ
esc = 0xDB

abbrev pub esc_end : ℕ
esc_end = 0xDC

abbrev pub esc_esc : ℕ
esc_esc = 0xDD

abbrev pub default_max_frame_length : ℕ
default_max_frame_length = 1024

-- What `encode` appends for one byte of the frame.
unfoldable pub encode_byte : ℕ → Bytes
encode_byte byte =
    if byte == end
    then esc ∷ esc_end ∷ []
    else if byte == esc
    then esc ∷ esc_esc ∷ []
    else byte ∷ []

unfoldable pub encode_bytes : Bytes → Bytes
unfolding encode_byte
encode_bytes [] = []
encode_bytes (byte ∷ frame) = encode_byte byte ++ encode_bytes frame

-- The `escaped_bytes` of `encode`, with which it sizes its buffer.
unfoldable pub escaped_bytes : Bytes → ℕ
escaped_bytes [] = 0
escaped_bytes (byte ∷ frame) = (if byte == end || byte == esc then 1 else 0) + escaped_bytes frame

unfoldable pub encode : Bytes → Bytes
unfolding encode_bytes
encode frame = end ∷ (encode_bytes frame ++ (end ∷ []))

pub record Decoder : Type 0 where
  pub buffer : Bytes
  pub maximum_length : ℕ
  pub started : Bool
  pub escaped : Bool
  pub discarding : Bool

-- `Decoder::new`
abbrev pub new : ℕ → Decoder
new maximum_length = record {
  buffer = [];
  maximum_length = maximum_length;
  started = false;
  escaped = false;
  discarding = false;
}

-- One round of the loop of `push`: the decoder afterwards, and what the round appends to `decoded`.
abbrev pub Round : Type 0
Round = Decoder × List (Result Bytes)

-- What an END byte reports.
end_reports : Decoder → List (Result Bytes)
end_reports d =
    if not d.started
    then []
    else if d.escaped && not d.discarding
    then err incomplete_slip_escape ∷ []
    else if not d.discarding && not (is_empty d.buffer)
    then ok d.buffer ∷ []
    else []

push_end : Decoder → Round
unfolding end_reports
push_end d =
    (record d { buffer = []; started = true; escaped = false; discarding = false }, end_reports d)

-- The end of the round: store the decoded byte, unless the buffer is full.
store : Decoder → ℕ → Round
store d decoded_byte =
    if length d.buffer == d.maximum_length
    then (
      record d { buffer = []; discarding = true },
      err (slip_frame_too_large d.maximum_length) ∷ [],
    )
    else (record d { buffer = d.buffer ++ (decoded_byte ∷ []) }, [])

-- The byte behind an ESC.
push_escaped : Decoder → ℕ → Round
unfolding store
push_escaped d byte =
    let d' = record d { escaped = false } in
    if byte == esc_end
    then store d' end
    else if byte == esc_esc
    then store d' esc
    else (record d' { buffer = []; discarding = true }, err (invalid_slip_escape byte) ∷ [])

unfoldable pub push_byte : Decoder → ℕ → Round
unfolding push_end push_escaped store
push_byte d byte =
    if byte == end
    then push_end d
    else if not d.started || d.discarding
    then (d, [])
    else if d.escaped
    then push_escaped d byte
    else if byte == esc
    then (record d { escaped = true }, [])
    else store d byte

-- `Decoder::push`
unfoldable pub push : Decoder → Bytes → Round
push d [] = (d, [])
push d (byte ∷ input) =
    let (d', reported) = push_byte d byte in
    let (d'', decoded) = push d' input in (d'', reported ++ decoded)

-- `push` for each chunk that a reader delivers.
unfoldable pub push_all : Decoder → List Bytes → Round
push_all d [] = (d, [])
push_all d (chunk ∷ chunks) =
    let (d', reported) = push d chunk in
    let (d'', decoded) = push_all d' chunks in (d'', reported ++ decoded)
