-- ===== src/Decode/Arms.antt =====
-- What holds of the response of every arm holds of the response of a decoder.
use velux2mqtt.Error.{◌>>=◌, Result, err, err≢ok, ok, ok_inj, KlfError}
use velux2mqtt.Prelude.{
  All, List, [], arith, if_cases, refl, subst, true, ℕ, ◌∷◌, ◌≡◌, Bool, if◌then◌else◌, false,
}
use velux2mqtt.Decode.Fields.{select, Arms}
use velux2mqtt.Prelude.Maps.{mem}
use velux2mqtt.Response.{Response}

module _ {ℓ κ} {A : Type ℓ} where
  -- The value has the property, if there is one.
  abbrev pub Yields : (A → Type κ) → Result A → Type κ
  Yields P (ok a) = P a
  Yields P (err e) = Unit

  pub Yields-ok : (P : A → Type κ) (r : Result A) {a : A} → Yields P r → r ≡ ok a → P a
  Yields-ok P (ok b) h e = subst P (ok_inj e) h
  Yields-ok P (err f) h e = absurd (err≢ok _ _ e)

module _ {ℓ κ} {A B : Type ℓ} where
  pub after :
      (P : B → Type κ) (m : Result A) (next : A → Result B)
      → ((a : A) → m ≡ ok a → Yields P (next a))
      → Yields P (m >>= next)
  after P (ok a) next h = h a refl
  after P (err e) next h = tt

pub select-Yields {κ} :
    (P : Response → Type κ) (command : ℕ) (arms : Arms) (other : Result Response)
    → All (λ (arm : List ℕ × Result Response). mem arm.0 command ≡ true → Yields P arm.1) arms
    → Yields P other
    → Yields P (select command arms other)
unfolding select
select-Yields P command [] other h k = k
select-Yields P command (arm ∷ arms) other h k =
    if_cases (Yields P) (mem arm.0 command) h.0 (λ e. select-Yields P command arms other h.1 k)

-- The only alternative of an arm is the command.
pub mem_one : (id command : ℕ) → mem (id ∷ []) command ≡ true → id ≡ command
unfolding mem
mem_one id command h = ground arith

-- The proofs for a list of arms, one after the other.
infixr 4 ◌▸◌
abbrev pub ◌▸◌ {ℓ κ} : {A : Type ℓ} {B : Type κ} → A → B → A × B
a ▸ b = (a, b)

-- The last step makes the response.
pub checked {ℓ κ} :
    {A B : Type ℓ} (P : B → Type κ) (m : Result A) {value : A → B}
    → ((a : A) → P (value a))
    → Yields P (m >>= λ (a : A). ok (value a))
checked P m h = after P m _ (λ a e. h a)

-- The guard of a count.
pub unless {ℓ κ} :
    {A : Type ℓ} (P : A → Type κ) (guard : Bool) (failure : KlfError) (rest : Result A)
    → (guard ≡ false → Yields P rest)
    → Yields P (if guard then err failure else rest)
unless P true failure rest h = tt
unless P false failure rest h = h refl

-- A step whose value has a property of its own.
pub carried {ℓ κ μ} :
    {A B : Type ℓ} (P : B → Type κ) (Q : A → Type μ) (m : Result A) (next : A → Result B)
    → Yields Q m
    → ((a : A) → Q a → Yields P (next a))
    → Yields P (m >>= next)
carried P Q (ok a) next h k = k a h
carried P Q (err e) next h k = tt
