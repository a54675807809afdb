-- ===== src/Frame/RoundTrip.antt =====
-- Encoding and decoding of a frame are inverse to one another, and what decoding refuses.
use velux2mqtt.Prelude.{
  ℕ, Bytes, get_or, ◌∷◌, ◌≡◌, ◌++◌, length, ◌+◌, [], ◌-◌, if◌then◌else◌, arith, not, length-append,
  ◌==◌, ltb, false, from_be_bytes, refl, take_append, ◌%◌, ◌/◌, ◌<◌, IsBytes, ap, inl, inr, ◌↔◌,
  ◌≤◌, ◌⊎◌, set, subst, sym, ◌∙◌, ◌≢◌, ap₂,
}
use velux2mqtt.Frame.{decode, Frame, klf_protocol_id, checksum, encode, envelope, new}
use velux2mqtt.Error.{
  Result, err, invalid_checksum, invalid_frame_length, invalid_protocol_id, ok, IsOk, KlfError,
  Result-cases, err≢ok, frame_too_short, ok_inj,
}
use velux2mqtt.Frame.Checksum.{checksum-concat_iff, checksum_from-set}

-- What `decode` makes of four header bytes, a payload and a last byte.
abbrev decode_parts : ℕ → ℕ → ℕ → ℕ → Bytes → ℕ → Result Frame
decode_parts p n hi lo payload k =
    let body = p ∷ n ∷ hi ∷ lo ∷ payload in
    let actual = length payload + 3 in
    if not (p == klf_protocol_id)
    then err (invalid_protocol_id p)
    else if not (n == actual)
    then err (invalid_frame_length n actual)
    else if not (checksum body == k)
    then err (invalid_checksum (checksum body) k)
    else ok (record { protocol_id = p; command = from_be_bytes hi lo; payload = payload })

get_or-concat : (xs : Bytes) (k : ℕ) → get_or (xs ++ (k ∷ [])) (length xs) 0 ≡ k
get_or-concat [] k = refl
get_or-concat (x ∷ xs) k = get_or-concat xs k

abbrev parts : ℕ → ℕ → ℕ → ℕ → Bytes → ℕ → Bytes
parts p n hi lo payload k = p ∷ n ∷ hi ∷ lo ∷ (payload ++ (k ∷ []))

decode-parts :
    (p n hi lo : ℕ) (payload : Bytes) (k : ℕ)
    → decode (parts p n hi lo payload k) ≡ decode_parts p n hi lo payload k
unfolding decode
decode-parts p n hi lo payload k =
    let body = p ∷ n ∷ hi ∷ lo ∷ payload in
    let size : length (parts p n hi lo payload k) - 1 ≡ length body =
      omega (arith, length-append payload (k ∷ [])) in
    let size' : length (parts p n hi lo payload k) - 2 ≡ length payload + 3 =
      omega (arith, length-append payload (k ∷ [])) in
    let big : ltb (length (parts p n hi lo payload k)) 5 ≡ false =
      ground (arith, length-append payload (k ∷ [])) in
    rw
      (
        size,
        size',
        big,
        get_or-concat body k,
        take_append body (k ∷ []),
        take_append payload (k ∷ []),
      )
      refl

concat_split : (b : ℕ) (bs : Bytes) → (init : Bytes) × (k : ℕ) × (b ∷ bs ≡ init ++ (k ∷ []))
concat_split b [] = ([], b, refl)
concat_split b (c ∷ cs) = let (init, k, e) = concat_split c cs in (b ∷ init, k, ap (◌∷◌ b) e)

-- A byte string is too short for a frame, or has the parts of one.
parts-cases :
    (bytes : Bytes)
    → (length bytes < 5)
      ⊎ ((p n hi lo k : ℕ) × (payload : Bytes) × (bytes ≡ parts p n hi lo payload k))
parts-cases (p ∷ n ∷ hi ∷ lo ∷ b ∷ bs) =
    let (payload, k, e) = concat_split b bs in
    inr (p, n, hi, lo, k, payload, ap (λ t. p ∷ n ∷ hi ∷ lo ∷ t) e)
parts-cases [] = inl (omega arith)
parts-cases (_ ∷ []) = inl (omega arith)
parts-cases (_ ∷ _ ∷ []) = inl (omega arith)
parts-cases (_ ∷ _ ∷ _ ∷ []) = inl (omega arith)
parts-cases (_ ∷ _ ∷ _ ∷ _ ∷ []) = inl (omega arith)

-- The fields fit their widths.
pub record IsWellFormed (f : Frame) : Type 0 where
  pub protocol_is_byte : f.protocol_id < 256
  pub command_is_u16 : f.command < 65536
  pub payload_is_bytes : IsBytes f.payload

-- A frame is encoded exactly if it has the protocol identifier zero and its payload fits the
-- length byte.
pub encode-IsOk_iff :
    (f : Frame) → IsOk (encode f) ↔ ((f.protocol_id ≡ klf_protocol_id) × (length f.payload ≤ 252))
unfolding encode
encode-IsOk_iff f = (λ h. ground arith, λ h. ground arith)

-- The bytes of an encoded frame are `parts`.
encode-eq-parts :
    (f : Frame)
    → f.protocol_id ≡ klf_protocol_id
    → length f.payload ≤ 252
    → (k : ℕ) × (k ≡ checksum (envelope f))
      × (encode f
          ≡ ok (
              parts f.protocol_id
                (length f.payload + 3)
                (f.command / 256 % 256)
                (f.command % 256)
                f.payload
                k))
unfolding encode
encode-eq-parts f p l = (checksum (envelope f), refl, ground arith)

-- Decoding what was encoded gives the frame back, whose command is a `u16`.
pub decode-encode :
    (f : Frame) {encoded : Bytes}
    → f.command < 65536
    → encode f ≡ ok encoded
    → decode encoded ≡ ok f
decode-encode f {encoded} c e =
    let (p, l) = (encode-IsOk_iff f).0 (subst IsOk (sym e) tt) in
    let (k, k_is, e') = encode-eq-parts f p l in
    let n = length f.payload + 3 in
    let hi = f.command / 256 % 256 in
    let lo = f.command % 256 in
    let same : encoded ≡ parts f.protocol_id n hi lo f.payload k = ok_inj (sym e ∙ e') in
    rw (same, decode-parts f.protocol_id n hi lo f.payload k) (ground arith)

decode_short :
    (bytes : Bytes) → length bytes < 5 → decode bytes ≡ err (frame_too_short (length bytes))
unfolding decode
decode_short bytes h = ground arith

-- What an accepted frame looks like.
decode-eq-ok :
    (p n hi lo : ℕ) (payload : Bytes) (k : ℕ) {f : Frame}
    → decode_parts p n hi lo payload k ≡ ok f
    → (p ≡ 0)
      × (n ≡ length payload + 3)
      × (checksum (p ∷ n ∷ hi ∷ lo ∷ payload) ≡ k)
      × (f ≡ record { protocol_id = p; command = from_be_bytes hi lo; payload = payload })
decode-eq-ok p n hi lo payload k h = ground arith

IsBytes-parts :
    (p n hi lo : ℕ) (payload : Bytes) (k : ℕ)
    → IsBytes (parts p n hi lo payload k)
    → (n < 256) × (hi < 256) × (lo < 256)
IsBytes-parts p n hi lo payload k h = (h.1.0, h.1.1.0, h.1.1.1.0)

encode-parts :
    (p n hi lo : ℕ) (payload : Bytes) (k : ℕ) {f : Frame}
    → decode_parts p n hi lo payload k ≡ ok f
    → (n < 256) × (hi < 256) × (lo < 256)
    → encode f ≡ ok (parts p n hi lo payload k)
encode-parts p n hi lo payload k {f} h (n_lt, hi_lt, lo_lt) =
    let (zero_id, n_is, k_is, f_is) = decode-eq-ok p n hi lo payload k h in
    let g = new (from_be_bytes hi lo) payload in
    let (k', k'_is, e) = encode-eq-parts g refl (omega arith) in
    let same : envelope g ≡ p ∷ n ∷ hi ∷ lo ∷ payload = ground arith in
    let is_new : f ≡ g = f_is ∙ ap (λ (t : ℕ). record g { protocol_id = t }) zero_id in
    rw is_new (e ∙ ap ok (ap₂ (λ t x. t ++ (x ∷ [])) same (k'_is ∙ ap checksum same ∙ k_is)))

-- Encoding what was decoded from bytes (numbers below 256) gives the bytes back: no two byte
-- strings decode to one frame.
pub encode-decode :
    (bytes : Bytes) {f : Frame} → IsBytes bytes → decode bytes ≡ ok f → encode f ≡ ok bytes
encode-decode bytes bs h = elim (parts-cases bytes) [
  | inl short ↦ absurd (err≢ok _ _ (sym (decode_short bytes short) ∙ h))
  | inr (p, n, hi, lo, k, payload, e) ↦ rw e (
      encode-parts p n hi lo payload k (sym (decode-parts p n hi lo payload k) ∙ rw e at h)
        (IsBytes-parts p n hi lo payload k (rw e at bs)))
]

decode-checksum : (bytes : Bytes) {f : Frame} → decode bytes ≡ ok f → checksum bytes ≡ 0
decode-checksum bytes h = elim (parts-cases bytes) [
  | inl short ↦ absurd (err≢ok _ _ (sym (decode_short bytes short) ∙ h))
  | inr (p, n, hi, lo, k, payload, e) ↦ rw e (
      (checksum-concat_iff (p ∷ n ∷ hi ∷ lo ∷ payload) k).1
        (decode-eq-ok p n hi lo payload k (sym (decode-parts p n hi lo payload k) ∙ rw e at h)).2)
]

-- A change of any one byte of an accepted frame makes `decode` fail.
pub decode-set :
    (bytes : Bytes) {f : Frame} (i v : ℕ)
    → decode bytes ≡ ok f
    → i < length bytes
    → v ≢ get_or bytes i 0
    → (e : KlfError) × (decode (set bytes i v) ≡ err e)
decode-set bytes i v h lt ne = elim (Result-cases (decode (set bytes i v))) [
  | inr failed ↦ failed
  | inl (g, accepted) ↦ absurd (
      ne (
        checksum_from-set 0 bytes i v lt
          (decode-checksum (set bytes i v) accepted ∙ sym (decode-checksum bytes h))))
]
