-- ===== src/Frame/Checksum.antt =====
-- The checksum of src/klf200/frame.rs: the exclusive or of all bytes of an accepted frame is zero,
-- so that a change of one byte is always noticed.
use Prim.Native.Nat.{bit_xor}
use velux2mqtt.Frame.{checksum_from, checksum}
use velux2mqtt.Prelude.{
  ℕ, Bytes, ◌≡◌, ◌++◌, ◌<◌, sym, ◌∷◌, length, IsBytes, [], set, ◌∙◌, ◌↔◌, get_or, arith, ap, refl,
  suc, zero,
}
use velux2mqtt.Prelude.Bits.{xor_comm, xor-lt_byte, xor-zero_left, xor_cancel, xor_assoc, xor_self}

checksum_from-acc : (a : ℕ) (bytes : Bytes) → checksum_from a bytes ≡ bit_xor a (checksum bytes)
unfolding checksum_from
checksum_from-acc a [] = sym (xor_comm a 0 ∙ xor-zero_left a)
checksum_from-acc a (byte ∷ bytes) =
    checksum_from-acc (bit_xor a byte) bytes
    ∙ xor_assoc a byte (checksum bytes)
    ∙ ap (bit_xor a) (
        sym (
          checksum_from-acc (bit_xor 0 byte) bytes
          ∙ ap (λ (t : ℕ). bit_xor t (checksum bytes)) (xor-zero_left byte)))

pub checksum_from-append :
    (a : ℕ) (xs ys : Bytes) → checksum_from a (xs ++ ys) ≡ checksum_from (checksum_from a xs) ys
unfolding checksum_from
checksum_from-append a [] ys = refl
checksum_from-append a (x ∷ xs) ys = checksum_from-append (bit_xor a x) xs ys

-- Behind bytes with the checksum `k`, a byte brings the checksum to zero exactly if it is `k`.
pub checksum-concat_iff : (xs : Bytes) (k : ℕ) → (checksum (xs ++ (k ∷ [])) ≡ 0) ↔ (checksum xs ≡ k)
unfolding checksum_from
checksum-concat_iff xs k = (there, back)
  where
    joined : checksum (xs ++ (k ∷ [])) ≡ bit_xor (checksum xs) k
    joined = checksum_from-append 0 xs (k ∷ [])

    there : checksum (xs ++ (k ∷ [])) ≡ 0 → checksum xs ≡ k
    there h =
        xor_cancel k (checksum xs) k (xor_comm k (checksum xs) ∙ sym joined ∙ h ∙ sym (xor_self k))

    back : checksum xs ≡ k → checksum (xs ++ (k ∷ [])) ≡ 0
    back h = joined ∙ ap (λ (t : ℕ). bit_xor t k) h ∙ xor_self k

-- Two byte strings that differ in one place have different checksums.
pub checksum_from-set :
    (a : ℕ) (bytes : Bytes) (i v : ℕ)
    → i < length bytes
    → checksum_from a (set bytes i v) ≡ checksum_from a bytes
    → v ≡ get_or bytes i 0
unfolding checksum_from
checksum_from-set a [] i v h e = absurd (omega arith)
checksum_from-set a (byte ∷ bytes) zero v h e = xor_cancel a v byte (
    xor_cancel (checksum bytes) (bit_xor a v) (bit_xor a byte) (
      swap v
      ∙ sym (checksum_from-acc (bit_xor a v) bytes)
      ∙ e
      ∙ checksum_from-acc (bit_xor a byte) bytes
      ∙ sym (swap byte)))
  where
    swap : (x : ℕ) → bit_xor (checksum bytes) (bit_xor a x) ≡ bit_xor (bit_xor a x) (checksum bytes)
    swap x = xor_comm (checksum bytes) (bit_xor a x)
checksum_from-set a (byte ∷ bytes) (suc i) v h e =
    checksum_from-set (bit_xor a byte) bytes i v (omega arith) e

pub checksum-IsByte :
    (a : ℕ) (bytes : Bytes) → a < 256 → IsBytes bytes → checksum_from a bytes < 256
unfolding checksum_from
checksum-IsByte a [] h hs = h
checksum-IsByte a (byte ∷ bytes) h hs =
    checksum-IsByte (bit_xor a byte) bytes (xor-lt_byte a byte h hs.0) hs.1
