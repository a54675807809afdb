-- ===== src/Connection/Reader.antt =====
-- `read_frames` of src/klf200/connection.rs, up to the end of the stream or a failure of it. What a
-- read of the stream gives is an input: bytes, of which none mean the end, or an error. The reader
-- also stops when nobody receives what it found, which is left out.
use velux2mqtt.Slip.{Round, Decoder, push, push_all}
use velux2mqtt.Prelude.{append_assoc, ap, sym, ◌∙◌, map-append, ap₂, append-nil}
use velux2mqtt.Frame.{Frame}
use velux2mqtt.Connection.State.{closed, Incoming}
use velux2mqtt.Error.{Result, ok, err, connection_closed, err≢ok}
use velux2mqtt.Slip
use velux2mqtt.Frame
use velux2mqtt.Prelude.{
  ◌++◌, ◌<◌, All, Bytes, List, [], concat, length, map, refl, ℕ, ◌∷◌, ◌≡◌, ◌≢◌, ◌≤◌,
}
use velux2mqtt.Slip.RoundTrip.{Fits, push_all-encodes, push_all-concat}
use velux2mqtt.Frame.RoundTrip.{decode-encode}

unfoldable pub to_incoming : Result Bytes → Incoming
to_incoming (err failure) = Incoming.protocol_error failure
to_incoming (ok bytes) = elim (Frame.decode bytes) [
  | ok decoded ↦ Incoming.frame decoded
  | err failure ↦ Incoming.protocol_error failure
]

unfoldable pub read_frames : Decoder → List (Result Bytes) → List Incoming
unfolding to_incoming
read_frames decoder [] = []
read_frames decoder (err failure ∷ reads) = closed failure ∷ []
read_frames decoder (ok [] ∷ reads) = closed connection_closed ∷ []
read_frames decoder (ok (byte ∷ bytes) ∷ reads) =
    let (decoder', reported) = push decoder (byte ∷ bytes) in
    map to_incoming reported ++ read_frames decoder' reads

-- Chunks as reads give them: none of them is empty.
abbrev pub NonEmpty : Bytes → Type 0
NonEmpty bytes = bytes ≢ []

-- What is read before the end of the stream is what the decoder reports of the chunks.
read_frames-push_all :
    (decoder : Decoder) (chunks : List Bytes)
    → All NonEmpty chunks
    → read_frames decoder (map ok chunks ++ (ok [] ∷ []))
      ≡ map to_incoming (push_all decoder chunks).1 ++ (closed connection_closed ∷ [])
unfolding read_frames push_all
read_frames-push_all decoder [] h = refl
read_frames-push_all decoder ([] ∷ chunks) h = absurd (h.0 refl)
read_frames-push_all decoder ((byte ∷ bytes) ∷ chunks) h =
    rw
      (
        read_frames-push_all (push decoder (byte ∷ bytes)).0 chunks h.1,
        map-append to_incoming (push decoder (byte ∷ bytes)).1
            (push_all (push decoder (byte ∷ bytes)).0 chunks).1,
        append_assoc (map to_incoming (push decoder (byte ∷ bytes)).1),
      )
      refl

-- The bytes of frames, one after the other.
abbrev pub Sends : ℕ → List Frame → List Bytes → Type 0
Sends maximum [] [] = Unit
Sends maximum (f ∷ frames) (bytes ∷ encoded) =
    ((Frame.encode f ≡ ok bytes) × (f.command < 65536) × (length bytes ≤ maximum))
    × Sends maximum frames encoded
Sends maximum _ _ = ⊥

sent-Fits :
    (maximum : ℕ) (f : Frame) (bytes : Bytes)
    → Frame.encode f ≡ ok bytes
    → f.command < 65536
    → length bytes ≤ maximum
    → Fits maximum bytes
unfolding Frame.decode
sent-Fits maximum f bytes e lt le = (λ empty. nothing empty, le)
  where
    nothing : bytes ≡ [] → ⊥
    nothing empty = err≢ok _ _ (sym (ap Frame.decode empty) ∙ decode-encode f lt e)

Sends-Fits :
    (maximum : ℕ) (frames : List Frame) (encoded : List Bytes)
    → Sends maximum frames encoded
    → All (Fits maximum) encoded
Sends-Fits maximum [] [] h = tt
Sends-Fits maximum [] (bytes ∷ encoded) h = absurd h
Sends-Fits maximum (f ∷ frames) [] h = absurd h
Sends-Fits maximum (f ∷ frames) (bytes ∷ encoded) ((e, lt, le), h) =
    (sent-Fits maximum f bytes e lt le, Sends-Fits maximum frames encoded h)

decoded_frame :
    (bytes : Bytes) {f : Frame}
    → Frame.decode bytes ≡ ok f
    → to_incoming (ok bytes) ≡ Incoming.frame f
unfolding to_incoming
decoded_frame bytes h = rw (h, to_incoming) refl

sent_frames :
    (maximum : ℕ) (frames : List Frame) (encoded : List Bytes)
    → Sends maximum frames encoded
    → map to_incoming (map ok encoded) ≡ map Incoming.frame frames
unfolding to_incoming
sent_frames maximum [] [] h = refl
sent_frames maximum [] (bytes ∷ encoded) h = absurd h
sent_frames maximum (f ∷ frames) [] h = absurd h
sent_frames maximum (f ∷ frames) (bytes ∷ encoded) ((e, lt, le), h) =
    ap₂ (◌∷◌) (decoded_frame bytes (decode-encode f lt e)) (sent_frames maximum frames encoded h)

-- Frames with 16-bit commands that are encoded one after the other, none of them to more bytes than
-- the decoder takes at most, come out of a fresh decoder as those frames, in order, and then the
-- end, when their bytes are cut into chunks that are not empty, in any way, and read to the end of
-- the stream.
pub read_frames-encodes :
    (maximum : ℕ) (frames : List Frame) (encoded chunks : List Bytes)
    → Sends maximum frames encoded
    → concat chunks ≡ concat (map Slip.encode encoded)
    → All NonEmpty chunks
    → read_frames (Slip.new maximum) (map ok chunks ++ (ok [] ∷ []))
      ≡ map Incoming.frame frames ++ (closed connection_closed ∷ [])
read_frames-encodes maximum frames encoded chunks sends cut full =
    read_frames-push_all (Slip.new maximum) chunks full
    ∙ ap (λ reported. map to_incoming reported ++ (closed connection_closed ∷ []))
        (push_all-encodes maximum encoded chunks cut (Sends-Fits maximum frames encoded sends))
    ∙ ap (λ found. found ++ (closed connection_closed ∷ []))
        (sent_frames maximum frames encoded sends)

-- How the bytes of a stream that is not empty are cut into chunks that are not empty does not matter:
-- whatever they are, with errors in the frames or without, the reader finds in the chunks what it finds when all their bytes come at once.
pub read_frames-concat :
    (decoder : Decoder) (chunks : List Bytes)
    → All NonEmpty chunks
    → concat chunks ≢ []
    → read_frames decoder (map ok chunks ++ (ok [] ∷ []))
      ≡ read_frames decoder (ok (concat chunks) ∷ ok [] ∷ [])
read_frames-concat decoder chunks full some_bytes =
    let found : List (Result Bytes) → List Incoming =
      λ reported. map to_incoming reported ++ (closed connection_closed ∷ []) in
    read_frames-push_all decoder chunks full
    ∙ ap (λ (round : Round). found round.1) (push_all-concat decoder chunks)
    ∙ ap (λ bytes. found (push decoder bytes).1) (sym (append-nil (concat chunks)))
    ∙ ap (λ (round : Round). found round.1) (sym (push_all-concat decoder (concat chunks ∷ [])))
    ∙ sym (read_frames-push_all decoder (concat chunks ∷ []) (some_bytes, tt))
