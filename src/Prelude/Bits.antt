-- ===== src/Prelude/Bits.antt =====
-- The bit operations at variables. Each means a recursion on binary digits, of which `xor_step`
-- states one round; the laws of the exclusive or follow by induction on a bound of the arguments.
use Prim.Native.Nat.{
  ℕ, zero, suc, ◌+◌, ◌*◌, ◌/◌, ◌%◌, ◌^◌, ◌≤◌, ◌<◌, bit_xor, digits, differ, bit_xor-bitwise,
}
use mathlib.Core.Path.{◌≡◌, refl, sym, ◌∙◌, ap}
use mathlib.Core.Bool.{Bool, true, ◌&&◌}
use native.Mathlib.Omega.{arith}
use native.Mathlib.Nat.{pow-suc}

-- A property of every number below a bound, by evaluation.
unfoldable pub all_below : ℕ → (ℕ → Bool) → Bool
all_below zero p = true
all_below (suc n) p = p n && all_below n p

pub below-all_below :
    (p : ℕ → Bool) (bound i : ℕ) → all_below bound p ≡ true → i < bound → p i ≡ true
unfolding all_below
below-all_below p (suc bound) i holds lt = ground (arith, below-all_below p bound i)
below-all_below p zero i holds lt = absurd (omega arith)

differ_lem : (x y : ℕ) → x < 2 → y < 2 → differ x y ≡ (x + y) % 2
differ_lem zero y h k = omega arith
differ_lem (suc zero) zero h k = refl
differ_lem (suc zero) (suc zero) h k = refl
differ_lem (suc zero) (suc (suc y)) h k = absurd (omega arith)
differ_lem (suc (suc x)) y h k = absurd (omega arith)

xor_digits : ℕ → ℕ → ℕ → ℕ
xor_digits n a b = digits (λ b. b) differ n a b

no_digits : (n b : ℕ) → xor_digits n 0 b ≡ b
unfolding xor_digits
no_digits zero b = refl
no_digits (suc n) b = refl

-- Any bound that is enough for the first number gives the same digits.
fuel_free : (a b n m : ℕ) → a ≤ n → a ≤ m → xor_digits n a b ≡ xor_digits m a b
unfolding xor_digits
fuel_free zero b n m p q = no_digits n b ∙ sym (no_digits m b)
fuel_free (suc a) b zero m p q = absurd (omega arith)
fuel_free (suc a) b (suc n) zero p q = absurd (omega arith)
fuel_free (suc a) b (suc n) (suc m) p q =
    let halves = fuel_free (suc a / 2) (b / 2) n m (omega arith) (omega arith) in rw halves

zero-xor : (b : ℕ) → bit_xor 0 b ≡ b
zero-xor b = bit_xor-bitwise 0 b

xor_step' : (a b : ℕ) → bit_xor a b ≡ bit_xor (a / 2) (b / 2) * 2 + differ (a % 2) (b % 2)
unfolding xor_digits
xor_step' zero b = omega (arith, zero-xor b, zero-xor (b / 2))
xor_step' (suc a) b = omega (
  arith,
  bit_xor-bitwise (suc a) b,
  bit_xor-bitwise (suc a / 2) (b / 2),
  fuel_free (suc a / 2) (b / 2) a (suc a / 2) (omega arith) (omega arith),
)

xor_step : (a b : ℕ) → bit_xor a b ≡ bit_xor (a / 2) (b / 2) * 2 + (a + b) % 2
xor_step a b = omega (arith, xor_step' a b, differ_lem (a % 2) (b % 2) (omega arith) (omega arith))

xor_self_to : (n a : ℕ) → a ≤ n → bit_xor a a ≡ 0
xor_self_to n zero h = refl
xor_self_to zero (suc a) h = absurd (omega arith)
xor_self_to (suc n) (suc a) h =
    omega (arith, xor_step (suc a) (suc a), xor_self_to n (suc a / 2) (omega arith))

pub xor_self : (a : ℕ) → bit_xor a a ≡ 0
xor_self a = xor_self_to a a (omega arith)

pub xor-zero_left : (b : ℕ) → bit_xor 0 b ≡ b
xor-zero_left b = zero-xor b

xor_comm_to : (n a b : ℕ) → a ≤ n → b ≤ n → bit_xor a b ≡ bit_xor b a
xor_comm_to zero zero zero h k = refl
xor_comm_to zero zero (suc b) h k = absurd (omega arith)
xor_comm_to zero (suc a) b h k = absurd (omega arith)
xor_comm_to (suc n) a b h k =
    omega
      (arith, xor_step a b, xor_step b a, xor_comm_to n (a / 2) (b / 2) (omega arith) (omega arith))

pub xor_comm : (a b : ℕ) → bit_xor a b ≡ bit_xor b a
xor_comm a b = xor_comm_to (a + b) a b (omega arith) (omega arith)

half-xor : (a b : ℕ) → bit_xor a b / 2 ≡ bit_xor (a / 2) (b / 2)
half-xor a b = omega (arith, xor_step a b)

xor_assoc_to :
    (n a b c : ℕ) → a ≤ n → b ≤ n → c ≤ n → bit_xor (bit_xor a b) c ≡ bit_xor a (bit_xor b c)
xor_assoc_to zero zero b c h k l = rw (zero-xor b, zero-xor (bit_xor b c))
xor_assoc_to zero (suc a) b c h k l = absurd (omega arith)
xor_assoc_to (suc n) a b c h k l = omega (
  arith,
  xor_step (bit_xor a b) c,
  xor_step a (bit_xor b c),
  ap (λ (t : ℕ). bit_xor t (c / 2)) (half-xor a b),
  ap (λ (t : ℕ). bit_xor (a / 2) t) (half-xor b c),
  xor_step a b,
  xor_step b c,
  xor_assoc_to n (a / 2) (b / 2) (c / 2) (omega arith) (omega arith) (omega arith),
)

pub xor_assoc : (a b c : ℕ) → bit_xor (bit_xor a b) c ≡ bit_xor a (bit_xor b c)
xor_assoc a b c = xor_assoc_to (a + b + c) a b c (omega arith) (omega arith) (omega arith)

-- The exclusive or with `a` can be undone, so it tells its arguments apart.
pub xor_cancel : (a b c : ℕ) → bit_xor a b ≡ bit_xor a c → b ≡ c
xor_cancel a b c h = sym (undo b) ∙ ap (bit_xor a) h ∙ undo c
  where
    undo : (x : ℕ) → bit_xor a (bit_xor a x) ≡ x
    undo x = sym (xor_assoc a a x) ∙ ap (λ (t : ℕ). bit_xor t x) (xor_self a) ∙ zero-xor x

pub xor-lt-pow : (k a b : ℕ) → a < 2 ^ k → b < 2 ^ k → bit_xor a b < 2 ^ k
xor-lt-pow zero zero zero h l = omega arith
xor-lt-pow zero zero (suc b) h l = absurd (omega arith)
xor-lt-pow zero (suc a) b h l = absurd (omega arith)
xor-lt-pow (suc k) a b h l = omega (
  arith,
  pow-suc 2 k,
  xor_step a b,
  xor-lt-pow k (a / 2) (b / 2) (omega (arith, pow-suc 2 k)) (omega (arith, pow-suc 2 k)),
)

pub xor-lt_byte : (a b : ℕ) → a < 256 → b < 256 → bit_xor a b < 256
xor-lt_byte a b = xor-lt-pow 8 a b
