-- ===== src/Bridge/Backoff.antt =====
-- `ReconnectBackoff` of src/bridge.rs. A `Duration` is its nanoseconds, which stop at the largest
-- duration, and the choice of a random number up to a limit is an argument.
use native.Mathlib.Nat.{pow-suc, mul_assoc}
use velux2mqtt.Prelude.{
  min, suc, zero, ◌*◌, ◌+◌, ◌/◌, ◌^◌, ℕ, ◌≡◌, ◌≤◌, ap, arith, refl, subst, sym, ◌∙◌,
}

-- `Duration::MAX` and `u64::MAX`
abbrev pub u64_max : ℕ
u64_max = 18446744073709551615

abbrev pub duration_max : ℕ
duration_max = 18446744073709551615999999999

abbrev pub saturating : ℕ → ℕ
saturating nanoseconds = min nanoseconds duration_max

pub record ReconnectBackoff : Type 0 where
  pub minimum : ℕ
  pub maximum : ℕ
  pub current : ℕ

abbrev pub new : ℕ → ℕ → ReconnectBackoff
new minimum maximum = record { minimum = minimum; maximum = maximum; current = minimum }

-- The limit of the jitter, in milliseconds.
abbrev pub jitter_limit : ℕ → ℕ
jitter_limit base = min (base / 1000000 / 4) u64_max

-- `next_delay`, with what it leaves and the delay.
unfoldable pub next_delay : (ℕ → ℕ) → ReconnectBackoff → ReconnectBackoff × ℕ
next_delay random backoff = (
  record backoff { current = min (saturating (backoff.current * 2)) backoff.maximum },
  saturating (backoff.current + random (jitter_limit backoff.current) * 1000000),
)

abbrev pub reset : ReconnectBackoff → ReconnectBackoff
reset backoff = record backoff { current = backoff.minimum }

-- The delays of attempts in a row.
unfoldable pub after_attempts : (ℕ → ℕ) → ℕ → ReconnectBackoff → ReconnectBackoff
after_attempts random zero backoff = backoff
after_attempts random (suc attempts) backoff =
    (next_delay random (after_attempts random attempts backoff)).0

-- The bounds of the program's own settings: the delays are in order, and the longest is a duration.
abbrev pub IsOrdered : ReconnectBackoff → Type 0
IsOrdered backoff = (backoff.minimum ≤ backoff.maximum) × (backoff.maximum ≤ duration_max)

grown :
    (current maximum scale minimum : ℕ)
    → maximum ≤ duration_max
    → current ≡ min (minimum * scale) maximum
    → min (saturating (current * 2)) maximum ≡ min (minimum * (scale * 2)) maximum
grown current maximum scale minimum fits h = omega (arith, h, mul_assoc minimum scale 2)

grows :
    (random : ℕ → ℕ) (backoff : ReconnectBackoff) (attempts : ℕ)
    → IsOrdered backoff
    → (let b = after_attempts random attempts (reset backoff) in
        (b.current ≡ min (backoff.minimum * 2 ^ attempts) backoff.maximum)
        × (b.maximum ≡ backoff.maximum))
unfolding after_attempts next_delay
grows random backoff zero ordered = (omega (arith, ordered.0), refl)
grows random backoff (suc attempts) ordered =
    let before = after_attempts random attempts (reset backoff) in
    let ih = grows random backoff attempts ordered in
    (
      ap (λ m. min (saturating (before.current * 2)) m) ih.1
          ∙ grown before.current backoff.maximum (2 ^ attempts) backoff.minimum ordered.1 ih.0
          ∙ ap (λ p. min (backoff.minimum * p) backoff.maximum) (sym (pow-suc 2 attempts)),
      ih.1,
    )

delay-bounds :
    (random : ℕ → ℕ) (b : ReconnectBackoff)
    → b.current ≤ duration_max
    → ((limit : ℕ) → random limit ≤ limit)
    → (b.current ≤ (next_delay random b).1) × ((next_delay random b).1 ≤ b.current + b.current / 4)
unfolding next_delay
delay-bounds random b fits within =
    let drawn = within (jitter_limit b.current) in (omega (arith, fits), omega (arith, drawn))

-- After a reset and any number of attempts, the next delay is at least the minimum doubled as often
-- as there were attempts, or the maximum if that is smaller, and it is longer by at most a quarter
-- of that, whatever random numbers within their limits are drawn. The longest duration is kept.
pub next_delay-bounds :
    (random : ℕ → ℕ) (backoff : ReconnectBackoff) (attempts : ℕ)
    → IsOrdered backoff
    → ((limit : ℕ) → random limit ≤ limit)
    → (let base = min (backoff.minimum * 2 ^ attempts) backoff.maximum in
        let delay = (next_delay random (after_attempts random attempts (reset backoff))).1 in
        (base ≤ delay) × (delay ≤ base + base / 4))
next_delay-bounds random backoff attempts ordered within =
    let b = after_attempts random attempts (reset backoff) in
    let grown_to = grows random backoff attempts ordered in
    subst
      (λ (base : ℕ). (base ≤ (next_delay random b).1) × ((next_delay random b).1 ≤ base + base / 4))
      grown_to.0 (delay-bounds random b (omega (arith, grown_to.0, ordered.1)) within)
