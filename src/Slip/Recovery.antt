-- ===== src/Slip/Recovery.antt =====
-- Errors in the stream: what is reported for a frame that cannot be delivered, and how the decoder
-- finds the next frame.
use velux2mqtt.Prelude.{
  ℕ, ◌≤◌, ◌<◌, [], ◌∷◌, ◌++◌, ◌≡◌, ◌≢◌, refl, arith, Bytes, length, sym, ap, ◌∙◌, length-append,
  All, inl, inr, true, append-nil, append_assoc, ◌⊎◌, dec_lt,
}
use velux2mqtt.Error.{ok, err, slip_frame_too_large}
use velux2mqtt.Slip.{end, encode_byte, encode_bytes, encode, Decoder, push_byte, push}
use velux2mqtt.Slip.RoundTrip.{
  after, push-append, push-encode, between, inside, IsReady, Fits, push_start, push-encode_byte,
}
use velux2mqtt.Slip.Bounds.{IsInner, encode_bytes-IsInner}

-- After an END the decoder is between frames, whatever came before.
push_byte-end : (d : Decoder) → (push_byte d end).0 ≡ between d.maximum_length
unfolding push_byte
push_byte-end d = refl

maximum-push_byte :
    (d : Decoder) (byte : ℕ) → (push_byte d byte).0.maximum_length ≡ d.maximum_length
unfolding push_byte
maximum-push_byte d byte = ground arith

maximum-push : (d : Decoder) (input : Bytes) → (push d input).0.maximum_length ≡ d.maximum_length
unfolding push
maximum-push d [] = refl
maximum-push d (byte ∷ input) = maximum-push (push_byte d byte).0 input ∙ maximum-push_byte d byte

push-end-between :
    (d : Decoder) (input : Bytes) → (push (push d input).0 (end ∷ [])).0 ≡ between d.maximum_length
unfolding push
push-end-between d input = push_byte-end (push d input).0 ∙ ap between (maximum-push d input)

-- Resynchronisation: in whatever state the decoder is and whatever bytes come first, a frame that
-- is not empty and fits the buffer is delivered, right behind the reports that those bytes and an
-- END give.
pub push_noise-encode :
    (d : Decoder) (noise frame : Bytes)
    → Fits d.maximum_length frame
    → push d (noise ++ encode frame)
      ≡ (between d.maximum_length, (push d (noise ++ (end ∷ []))).1 ++ (ok frame ∷ []))
unfolding encode
push_noise-encode d noise frame fits =
    ap (push d) (sym (append_assoc noise (end ∷ []) body))
    ∙ push-append d (noise ++ (end ∷ [])) body
    ∙ ap (after (push d (noise ++ (end ∷ []))).1) delivered
  where
    body : Bytes
    body = encode_bytes frame ++ (end ∷ [])

    at_end : (push d (noise ++ (end ∷ []))).0 ≡ between d.maximum_length
    at_end = ap (λ r. r.0) (push-append d noise (end ∷ [])) ∙ push-end-between d noise

    delivered :
        push (push d (noise ++ (end ∷ []))).0 body ≡ (between d.maximum_length, ok frame ∷ [])
    delivered =
        ap (λ x. push x body) at_end
        ∙ sym (push_start d.maximum_length (between d.maximum_length) body (inr refl))
        ∙ push-encode d.maximum_length (between d.maximum_length) frame (inr refl) fits

-- While it discards, the decoder reports nothing up to and at the next END.
push_discarding :
    (d : Decoder) (rest : Bytes)
    → d.discarding ≡ true
    → All IsInner rest
    → (push d (rest ++ (end ∷ []))).1 ≡ []
unfolding push push_byte
push_discarding d [] h inner = ground arith
push_discarding d (byte ∷ rest) h inner = ground (arith, push_discarding d rest h inner.1)

-- Each byte but END reports nothing, or reports one error and makes the decoder discard.
push_byte-inner :
    (d : Decoder) (byte : ℕ)
    → byte ≢ end
    → ((push_byte d byte).1 ≡ [])
      ⊎ ((length (push_byte d byte).1 ≡ 1) × ((push_byte d byte).0.discarding ≡ true))
unfolding push_byte
push_byte-inner d byte h = ground arith

push-end-le : (d : Decoder) → length (push d (end ∷ [])).1 ≤ 1
unfolding push push_byte
push-end-le d = ground arith

-- Between one END and the next at most one thing is reported, a frame or an error, in whatever
-- state the decoder was: an error is never followed by another from the same frame.
pub length-push-le_one :
    (d : Decoder) (inner : Bytes) → All IsInner inner → length (push d (inner ++ (end ∷ []))).1 ≤ 1
unfolding push
length-push-le_one d [] h = push-end-le d
length-push-le_one d (byte ∷ inner) h = elim (push_byte-inner d byte h.0) [
  | inl quiet ↦ rw quiet (length-push-le_one (push_byte d byte).0 inner h.1)
  | inr (one, discards) ↦
      unfold push in
      rw (push_discarding (push_byte d byte).0 inner discards h.1, append-nil) (omega (arith, one))
]

push_discarding_round :
    (d : Decoder) (rest : Bytes)
    → d.discarding ≡ true
    → All IsInner rest
    → push d (rest ++ (end ∷ [])) ≡ (between d.maximum_length, [])
push_discarding_round d rest h inner = λ i. (at_end i, push_discarding d rest h inner i)
  where
    at_end : (push d (rest ++ (end ∷ []))).0 ≡ between d.maximum_length
    at_end = ap (λ r. r.0) (push-append d rest (end ∷ [])) ∙ push-end-between d rest

-- The byte that no longer fits.
push-encode_byte_full :
    (maximum : ℕ) (buffer : Bytes) (byte : ℕ) (rest : Bytes)
    → length buffer ≡ maximum
    → push (inside maximum buffer) (encode_byte byte ++ rest)
      ≡ after
          (err (slip_frame_too_large maximum) ∷ [])
          (push (record (between maximum) { discarding = true }) rest)
unfolding push push_byte encode_byte
push-encode_byte_full maximum buffer byte rest h = ground arith

push-encode_bytes_too_large :
    (maximum : ℕ) (buffer frame : Bytes)
    → length buffer ≤ maximum
    → maximum < length (buffer ++ frame)
    → push (inside maximum buffer) (encode_bytes frame ++ (end ∷ []))
      ≡ (between maximum, err (slip_frame_too_large maximum) ∷ [])
unfolding encode_bytes
push-encode_bytes_too_large maximum buffer [] le long =
    absurd (omega (arith, rw (append-nil buffer) at long))
push-encode_bytes_too_large maximum buffer (byte ∷ frame) le long =
    ap (push (inside maximum buffer))
      (append_assoc (encode_byte byte) (encode_bytes frame) (end ∷ []))
    ∙ elim (dec_lt (length buffer) maximum) [
      | yes room ↦
          push-encode_byte maximum buffer byte (encode_bytes frame ++ (end ∷ [])) room
          ∙ push-encode_bytes_too_large maximum (buffer ++ (byte ∷ [])) frame
              (omega (arith, length-append buffer (byte ∷ [])))
              (rw (append_assoc buffer (byte ∷ []) frame) long)
      | no full ↦
          push-encode_byte_full maximum buffer byte (encode_bytes frame ++ (end ∷ [])) (omega arith)
          ∙ ap (after (err (slip_frame_too_large maximum) ∷ [])) (
              push_discarding_round (record (between maximum) { discarding = true })
                (encode_bytes frame) refl (encode_bytes-IsInner frame))
    ]

-- A frame longer than the buffer is reported once, as too large, and the decoder is between
-- frames again.
pub push-encode_too_large :
    (maximum : ℕ) (d : Decoder) (frame : Bytes)
    → IsReady maximum d
    → maximum < length frame
    → push d (encode frame) ≡ (between maximum, err (slip_frame_too_large maximum) ∷ [])
unfolding encode
push-encode_too_large maximum d frame ready long =
    push_start maximum d (encode_bytes frame ++ (end ∷ [])) ready
    ∙ push-encode_bytes_too_large maximum [] frame (omega arith) long
