-- ===== src/Slip/RoundTrip.antt =====
-- Decoding what `encode` wrote, in one piece or in any fragments.
use velux2mqtt.Prelude.{
  ℕ, ◌≤◌, ◌<◌, true, List, [], ◌∷◌, ◌++◌, ◌≡◌, ◌≢◌, refl, sym, ap, ◌∙◌, arith, Bytes, ◌⊎◌, length,
  length-append, concat, map, All, append-nil, append_assoc, inl, inr,
}
use velux2mqtt.Error.{Result, ok}
use velux2mqtt.Slip.{
  end, encode_byte, encode_bytes, encode, Decoder, new, Round, push_byte, push, push_all,
}

-- Reports of two rounds in a row.
abbrev pub after : List (Result Bytes) → Round → Round
after reported r = (r.0, reported ++ r.1)

pub push-append :
    (d : Decoder) (xs ys : Bytes) → push d (xs ++ ys) ≡ after (push d xs).1 (push (push d xs).0 ys)
unfolding push
push-append d [] ys = refl
push-append d (x ∷ xs) ys = rw (push-append (push_byte d x).0 xs ys, append_assoc (push_byte d x).1)

-- The decoder between two frames, which has read an END and nothing since.
abbrev pub between : ℕ → Decoder
between maximum = record (new maximum) { started = true }

-- The decoder inside a frame, with `buffer` read so far.
abbrev pub inside : ℕ → Bytes → Decoder
inside maximum buffer = record (between maximum) { buffer = buffer }

pub push-encode_byte :
    (maximum : ℕ) (buffer : Bytes) (byte : ℕ) (rest : Bytes)
    → length buffer < maximum
    → push (inside maximum buffer) (encode_byte byte ++ rest)
      ≡ push (inside maximum (buffer ++ (byte ∷ []))) rest
unfolding push push_byte encode_byte
push-encode_byte maximum buffer byte rest h = ground arith

push-encode_bytes :
    (maximum : ℕ) (buffer frame rest : Bytes)
    → length (buffer ++ frame) ≤ maximum
    → push (inside maximum buffer) (encode_bytes frame ++ rest)
      ≡ push (inside maximum (buffer ++ frame)) rest
unfolding encode_bytes
push-encode_bytes maximum buffer [] rest h = rw (append-nil buffer)
push-encode_bytes maximum buffer (byte ∷ frame) rest h =
    ap (push (inside maximum buffer)) (append_assoc (encode_byte byte) (encode_bytes frame) rest)
    ∙ push-encode_byte maximum buffer byte (encode_bytes frame ++ rest)
        (omega (arith, rw (length-append buffer (byte ∷ frame)) at h))
    ∙ push-encode_bytes maximum (buffer ++ (byte ∷ [])) frame rest
        (rw (append_assoc buffer (byte ∷ []) frame) h)
    ∙ rw (append_assoc buffer (byte ∷ []) frame)

-- An END behind a frame that is not empty delivers the frame.
push-end :
    (maximum : ℕ) (frame : Bytes)
    → frame ≢ []
    → push (inside maximum frame) (end ∷ []) ≡ (between maximum, ok frame ∷ [])
unfolding push push_byte
push-end maximum [] h = absurd (h refl)
push-end maximum (byte ∷ frame) h = refl

-- A decoder that is between frames, or has seen no END yet.
abbrev pub IsReady : ℕ → Decoder → Type 0
IsReady maximum d = (d ≡ new maximum) ⊎ (d ≡ between maximum)

pub push_start :
    (maximum : ℕ) (d : Decoder) (input : Bytes)
    → IsReady maximum d
    → push d (end ∷ input) ≡ push (between maximum) input
unfolding push push_byte
push_start maximum d input (inl e) = rw e refl
push_start maximum d input (inr e) = rw e refl

-- A frame that can be delivered: it is not empty and fits the buffer.
abbrev pub Fits : ℕ → Bytes → Type 0
Fits maximum frame = (frame ≢ []) × (length frame ≤ maximum)

-- A decoder at a frame boundary delivers exactly the frame from its encoding, and is at a frame
-- boundary again.
pub push-encode :
    (maximum : ℕ) (d : Decoder) (frame : Bytes)
    → IsReady maximum d
    → Fits maximum frame
    → push d (encode frame) ≡ (between maximum, ok frame ∷ [])
unfolding encode
push-encode maximum d frame ready (ne, le) =
    push_start maximum d (encode_bytes frame ++ (end ∷ [])) ready
    ∙ push-encode_bytes maximum [] frame (end ∷ []) le
    ∙ push-end maximum frame ne

pub push_all-concat :
    (d : Decoder) (chunks : List Bytes) → push_all d chunks ≡ push d (concat chunks)
unfolding push_all
push_all-concat d [] = unfold push in refl
push_all-concat d (chunk ∷ chunks) =
    rw (push_all-concat (push d chunk).0 chunks) (sym (push-append d chunk (concat chunks)))

push-encodes :
    (maximum : ℕ) (d : Decoder) (frames : List Bytes)
    → IsReady maximum d
    → All (Fits maximum) frames
    → (push d (concat (map encode frames))).1 ≡ map ok frames
push-encodes maximum d [] ready fits = unfold push in refl
push-encodes maximum d (frame ∷ frames) ready (fit, fits) =
    rw
      (
        push-append d (encode frame) (concat (map encode frames)),
        push-encode maximum d frame ready fit,
      )
      (ap (◌∷◌ (ok frame)) (push-encodes maximum (between maximum) frames (inr refl) fits))

-- Any number of frames that are not empty and fit the buffer, encoded one after the other and cut
-- into chunks in any way, come out of a fresh decoder as those frames, in order, with no error.
pub push_all-encodes :
    (maximum : ℕ) (frames chunks : List Bytes)
    → concat chunks ≡ concat (map encode frames)
    → All (Fits maximum) frames
    → (push_all (new maximum) chunks).1 ≡ map ok frames
push_all-encodes maximum frames chunks cut fits =
    rw (push_all-concat (new maximum) chunks, cut)
      (push-encodes maximum (new maximum) frames (inl refl) fits)
