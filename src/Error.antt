-- ===== src/Error.antt =====
-- src/klf200/error.rs: the errors of the KLF client, and results that carry them. An operating
-- system's, TLS's or protocol's message is the bytes of its text.
use Prim.Native.String.{String}
use velux2mqtt.Prelude.{ℕ, Bytes, ◌≡◌, refl, ◌≢◌, ◌⊎◌, inl, inr, ap}

pub data KlfError : Type 0 where
  payload_too_large : (length : ℕ) → KlfError
  frame_too_short : (actual : ℕ) → KlfError
  invalid_protocol_id : (actual : ℕ) → KlfError
  invalid_frame_length : (declared actual : ℕ) → KlfError
  invalid_checksum : (expected actual : ℕ) → KlfError
  invalid_slip_escape : (byte : ℕ) → KlfError
  incomplete_slip_escape : KlfError
  slip_frame_too_large : (maximum : ℕ) → KlfError
  invalid_utf8 : KlfError
  string_too_long : (actual maximum : ℕ) → KlfError
  session_ids_exhausted : KlfError
  session_id_in_use : (session_id : ℕ) → KlfError
  unsupported_request : (command : ℕ) → KlfError
  missing_confirmation : (command : ℕ) → KlfError
  request_timeout : (command : ℕ) → KlfError
  connect_timeout : KlfError
  connection_closed : KlfError
  client_closed : KlfError
  authentication_rejected : KlfError
  discovery_rejected : (status : ℕ) → KlfError
  unexpected_response : (operation : String) (command : ℕ) → KlfError
  io : (message : Bytes) → KlfError
  tls : (message : Bytes) → KlfError
  protocol : (message : Bytes) → KlfError
  empty_certificate_file : KlfError
  truncated_payload : (command expected actual : ℕ) → KlfError
  invalid_payload_length : (command expected actual : ℕ) → KlfError
  invalid_request : (message : String) → KlfError

pub data Result {ℓ} (A : Type ℓ) : Type ℓ where
  ok : A → Result A
  err : KlfError → Result A

-- The `?` operator, by which a do block passes an error on.
infixl 5 ◌>>=◌
abbrev pub ◌>>=◌ {ℓ κ} : {A : Type ℓ} {B : Type κ} → Result A → (A → Result B) → Result B
err failure >>= next = err failure
ok value >>= next = next value

abbrev pub IsOk {ℓ} : {A : Type ℓ} → Result A → Type 0
IsOk (ok a) = Unit
IsOk (err e) = ⊥

pub err≢ok {ℓ} : {A : Type ℓ} (e : KlfError) (a : A) → ◌≢◌ {A = Result A} (err e) (ok a)
err≢ok e a h = cc

pub Result-cases {ℓ} :
    {A : Type ℓ} (r : Result A) → ((a : A) × (r ≡ ok a)) ⊎ ((e : KlfError) × (r ≡ err e))
Result-cases (ok a) = inl (a, refl)
Result-cases (err e) = inr (e, refl)

pub ok_inj {ℓ} : {A : Type ℓ} {a b : A} → ◌≡◌ {A = Result A} (ok a) (ok b) → a ≡ b
ok_inj {a = a} h = ap (λ r. elim r [ ok x ↦ x | err e ↦ a ]) h

-- What holds of both cases of a result holds of what is chosen by it.
pub Result-both {ℓ κ μ} :
    {A : Type ℓ} {B : Type κ} (P : B → Type μ) (r : Result A) (of_ok : A → B)
    (of_err : KlfError → B)
    → ((a : A) → P (of_ok a))
    → ((e : KlfError) → P (of_err e))
    → P (elim r [ ok a ↦ of_ok a | err e ↦ of_err e ])
Result-both P (ok a) of_ok of_err h k = h a
Result-both P (err e) of_ok of_err h k = k e

-- The same, with the equation in reach of the first case.
pub Result-split {ℓ κ μ} :
    {A : Type ℓ} {B : Type κ} (P : B → Type μ) (r : Result A) (of_ok : A → B)
    (of_err : KlfError → B)
    → ((a : A) → r ≡ ok a → P (of_ok a))
    → ((e : KlfError) → P (of_err e))
    → P (elim r [ ok a ↦ of_ok a | err e ↦ of_err e ])
Result-split P (ok a) of_ok of_err h k = h a refl
Result-split P (err e) of_ok of_err h k = k e
