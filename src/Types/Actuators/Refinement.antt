-- ===== src/Types/Actuators/Refinement.antt =====
-- `ActuatorSet` of src/klf200/types.rs against a set of numbers that is only a test of membership.
use velux2mqtt.Types.Actuators.{
  ActuatorSet, actuator_count, contains, insert, iter, new, remove, actuator_bytes,
}
use velux2mqtt.Types.Actuators.Laws.{
  Ascends, IsValid, insert_lem, is_in, iter_lem, new-IsValid, remove_lem,
}
use velux2mqtt.Prelude.Bits.{all_below, below-all_below}
use Prim.Native.Nat.{bit_and}
use velux2mqtt.Prelude.{
  ◌&&◌, ◌==◌, ◌∷◌, ◌∙◌, ◌≡◌, Bool, List, [], ap, false, ltb, not, refl, ℕ, ◌||◌, ◌/◌, get_or,
  replicate, suc, zero, ◌%◌, ◌^◌, arith, true,
}

-- A call of an operation, with its index.
pub data Call : Type 0 where
  inserts : ℕ → Call
  removes : ℕ → Call
  asks : ℕ → Call

abbrev pub Members : Type 0
Members = ℕ → Bool

-- What the documentation of the operations promises of a set: its new members and the answer.
abbrev pub promised : Members → Call → Members × Bool
promised m (inserts index) = (
  (λ other. ltb index actuator_count && index == other || m other),
  ltb index actuator_count && not (m index),
)
promised m (removes index) = ((λ other. not (index == other) && m other), m index)
promised m (asks index) = (m, m index)

abbrev pub called : ActuatorSet → Call → ActuatorSet × Bool
called s (inserts index) = insert s index
called s (removes index) = remove s index
called s (asks index) = (s, contains s index)

-- The answers to a sequence of calls, and the set behind them.
unfoldable pub run : {S : Type 0} → (S → Call → S × Bool) → S → List Call → List Bool × S
run step s [] = ([], s)
run step s (call ∷ calls) =
    let (next, answer) = step s call in
    let (answers, last) = run step next calls in (answer ∷ answers, last)

-- A valid set of bits has the members of an abstract one.
abbrev Represents : ActuatorSet → Members → Type 0
Represents s m = IsValid s × ((other : ℕ) → contains s other ≡ m other)

called-promised :
    (s : ActuatorSet) (m : Members) (call : Call)
    → Represents s m
    → Represents (called s call).0 (promised m call).0 × ((called s call).1 ≡ (promised m call).1)
called-promised s m (inserts index) (v, h) =
    let l = insert_lem s index v in
    (
      (
        l.valid,
        λ other.
            l.members other ∙ ap (λ b. ltb index actuator_count && index == other || b) (h other),
      ),
      l.reports ∙ ap (λ b. ltb index actuator_count && not b) (h index),
    )
called-promised s m (removes index) (v, h) =
    let l = remove_lem s index v in
    (
      (l.valid, λ other. l.members other ∙ ap (λ b. not (index == other) && b) (h other)),
      l.reports ∙ h index,
    )
called-promised s m (asks index) (v, h) = ((v, h), h index)

run-Represents :
    (s : ActuatorSet) (m : Members) (calls : List Call)
    → Represents s m
    → ((run called s calls).0 ≡ (run promised m calls).0)
      × Represents (run called s calls).1 (run promised m calls).1
unfolding run
run-Represents s m [] h = (refl, h)
run-Represents s m (call ∷ calls) h =
    let step = called-promised s m call h in
    let rest = run-Represents (called s call).0 (promised m call).0 calls step.0 in
    (
      ap (λ answer. answer ∷ (run called (called s call).0 calls).0) step.1
          ∙ ap (λ answers. (promised m call).1 ∷ answers) rest.0,
      rest.1,
    )

get_or-replicate : (n i : ℕ) → get_or {A = ℕ} (replicate n 0) i 0 ≡ 0
get_or-replicate zero i = refl
get_or-replicate (suc n) zero = refl
get_or-replicate (suc n) (suc i) = get_or-replicate n i

-- No bit of a byte that is zero is set.
is_clear : ℕ → Bool
is_clear position = bit_and 0 (2 ^ position) == 0

is_clear_lem : (index : ℕ) → is_clear (index % 8) ≡ true
unfolding is_clear all_below
is_clear_lem index = below-all_below is_clear 8 (index % 8) refl (omega arith)

contains-new : (other : ℕ) → contains new other ≡ false
unfolding contains is_clear
contains-new other =
    rw (get_or-replicate actuator_bytes (other / 8)) (rw (is_clear_lem other) (ground arith))

-- Whatever the calls of `insert`, `remove` and `contains` on a new set, with any indices: they are
-- answered as by a set of numbers below 200 that is empty at first, and `iter` then lists the
-- members of that set in ascending order.
pub run-refines :
    (calls : List Call)
    → ((run called new calls).0 ≡ (run promised (λ other. false) calls).0)
      × Ascends 0 (iter (run called new calls).1)
      × ((i : ℕ)
          → is_in i (iter (run called new calls).1) ≡ (run promised (λ other. false) calls).1 i)
run-refines calls =
    let r = run-Represents new (λ other. false) calls (new-IsValid, contains-new) in
    let listed = iter_lem (run called new calls).1 in (r.0, listed.0, λ i. listed.1 i ∙ r.1.1 i)
