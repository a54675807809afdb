-- ===== src/Slip/Bounds.antt =====
-- Sizes: what the encoder writes, and what the decoder can hold and deliver.
use velux2mqtt.Prelude.{
  ℕ, ◌+◌, ◌≤◌, ◌<◌, [], ◌∷◌, ◌++◌, ◌≡◌, ◌≢◌, refl, arith, Bytes, IsBytes, length, length-append,
  All, All-append, is_empty, false, if_cases, if_both, not, ◌==◌, ◌&&◌, ◌∙◌, ◌||◌, subst, IsByte,
}
use velux2mqtt.Error.{Result, ok, err}
use velux2mqtt.Slip.{
  end, encode_byte, encode_bytes, escaped_bytes, encode, Decoder, Round, push_byte, store,
  push_escaped, end_reports, push_end, push, esc_end, esc_esc, esc,
}

length-encode_bytes :
    (frame : Bytes) → length (encode_bytes frame) ≡ length frame + escaped_bytes frame
unfolding encode_bytes escaped_bytes
length-encode_bytes [] = refl
length-encode_bytes (byte ∷ frame) =
    ground (arith, length-append (encode_byte byte) (encode_bytes frame), length-encode_bytes frame)

-- The buffer that `encode` reserves, `frame.len() + escaped_bytes + 2`, is exactly filled.
pub length-encode : (frame : Bytes) → length (encode frame) ≡ length frame + escaped_bytes frame + 2
unfolding encode
length-encode frame =
    omega (arith, length-append (encode_bytes frame) (end ∷ []), length-encode_bytes frame)

-- A byte other than the delimiter.
abbrev pub IsInner : ℕ → Type 0
IsInner byte = byte ≢ end

encode_byte-IsInner : (byte : ℕ) → All IsInner (encode_byte byte)
unfolding encode_byte
encode_byte-IsInner byte = ground arith

pub encode_bytes-IsInner : (frame : Bytes) → All IsInner (encode_bytes frame)
unfolding encode_bytes
encode_bytes-IsInner [] = tt
encode_bytes-IsInner (byte ∷ frame) =
    All-append IsInner (encode_byte byte) (encode_bytes frame) (encode_byte-IsInner byte)
      (encode_bytes-IsInner frame)

encode_byte-IsBytes : (byte : ℕ) → byte < 256 → IsBytes (encode_byte byte)
unfolding encode_byte
encode_byte-IsBytes byte h = ground arith

encode_bytes-IsBytes : (frame : Bytes) → IsBytes frame → IsBytes (encode_bytes frame)
unfolding encode_bytes
encode_bytes-IsBytes [] h = tt
encode_bytes-IsBytes (byte ∷ frame) h =
    All-append IsByte (encode_byte byte) (encode_bytes frame) (encode_byte-IsBytes byte h.0)
      (encode_bytes-IsBytes frame h.1)

-- The encoding of bytes is bytes, and END stands at its two ends only.
pub encode-IsInner :
    (frame : Bytes)
    → IsBytes frame
    → (inner : Bytes) × (encode frame ≡ end ∷ (inner ++ (end ∷ [])))
      × All IsInner inner
      × IsBytes (encode frame)
unfolding encode
encode-IsInner frame h = (
  encode_bytes frame,
  refl,
  encode_bytes-IsInner frame,
  (
    omega arith,
    All-append IsByte (encode_bytes frame) (end ∷ []) (encode_bytes-IsBytes frame h) (omega arith),
  ),
)

is_empty-false : (bs : Bytes) → is_empty bs ≡ false → 0 < length bs
is_empty-false [] h = cc
is_empty-false (b ∷ bs) h = omega arith

-- The buffer holds at most `maximum_length` bytes.
abbrev pub IsBounded : Decoder → Type 0
IsBounded d = length d.buffer ≤ d.maximum_length

-- A delivered frame is not empty and holds at most `maximum` bytes.
abbrev pub IsDelivery : ℕ → Result Bytes → Type 0
IsDelivery maximum (ok frame) = (0 < length frame) × (length frame ≤ maximum)
IsDelivery maximum (err e) = Unit

-- The limit is as before, the buffer is within it, and so is what the round delivers.
abbrev pub IsBoundedRound : ℕ → Round → Type 0
IsBoundedRound maximum r =
    (r.0.maximum_length ≡ maximum) × IsBounded r.0 × All (IsDelivery maximum) r.1

store-IsBounded :
    (d : Decoder) (byte : ℕ) → IsBounded d → IsBoundedRound d.maximum_length (store d byte)
unfolding store
store-IsBounded d byte h =
    if_cases (IsBoundedRound d.maximum_length) (length d.buffer == d.maximum_length)
      (λ full. (refl, omega arith, (tt, tt)))
      (λ room. (refl, ground (arith, length-append d.buffer (byte ∷ [])), tt))

push_escaped-IsBounded :
    (d : Decoder) (byte : ℕ) → IsBounded d → IsBoundedRound d.maximum_length (push_escaped d byte)
unfolding push_escaped
push_escaped-IsBounded d byte h =
    let d' = record d { escaped = false } in
    let P = IsBoundedRound d.maximum_length in
    if_both P (byte == esc_end) (store-IsBounded d' end h)
      (if_both P (byte == esc_esc) (store-IsBounded d' esc h) (refl, omega arith, (tt, tt)))

end_reports-IsDelivery :
    (d : Decoder) → IsBounded d → All (IsDelivery d.maximum_length) (end_reports d)
unfolding end_reports
end_reports-IsDelivery d h =
    let P = All (IsDelivery d.maximum_length) in
    if_both P (not d.started) tt (
      if_both P (d.escaped && not d.discarding) (tt, tt)
        (if_cases P (not d.discarding && not (is_empty d.buffer))
          (λ e. ((is_empty-false d.buffer (ground arith), h), tt)) (λ _. tt)))

push_byte-IsBounded :
    (d : Decoder) (byte : ℕ) → IsBounded d → IsBoundedRound d.maximum_length (push_byte d byte)
unfolding push_byte push_end
push_byte-IsBounded d byte h =
    let P = IsBoundedRound d.maximum_length in
    if_both P (byte == end) (refl, omega arith, end_reports-IsDelivery d h)
      (if_both P (not d.started || d.discarding) (refl, h, tt)
        (if_both P d.escaped (push_escaped-IsBounded d byte h)
          (if_both P (byte == esc) (refl, h, tt) (store-IsBounded d byte h))))

-- Whatever it reads, the decoder keeps its limit, never holds more bytes than that, and delivers
-- only frames that are not empty and not longer.
pub push-IsBounded :
    (d : Decoder) (input : Bytes) → IsBounded d → IsBoundedRound d.maximum_length (push d input)
unfolding push
push-IsBounded d [] h = (refl, h, tt)
push-IsBounded d (byte ∷ input) h =
    let first = push_byte-IsBounded d byte h in
    let rest = push-IsBounded (push_byte d byte).0 input first.1 in
    (
      rest.0 ∙ first.0,
      rest.1,
      All-append (IsDelivery d.maximum_length) (push_byte d byte).1 _ first.2
          (subst (λ m. All (IsDelivery m) (push (push_byte d byte).0 input).1) first.0 rest.2),
    )
