-- ===== src/Prelude/Maps.antt =====
-- `BTreeMap` with numbers for keys: the entries in ascending order of their keys.
use mathlib.Core.Option.{Option, none, some}
use mathlib.Core.Path.{◌≡◌, refl, subst}
use mathlib.Core.Logic.{inl, inr}
use mathlib.Core.Bool.{Bool, false, ◌||◌}
use native.Mathlib.Omega.{arith}
use mathlib.Core.List.{List, [], ◌∷◌}
use Prim.Native.Nat.{ℕ}
use velux2mqtt.Prelude.Tests.{if◌then◌else◌, ◌==◌, ltb, Bool-cases}
use velux2mqtt.Prelude.Lists.{All}

module _ {ℓ} {A : Type ℓ} where
  unfoldable pub find : List (ℕ × A) → ℕ → Option A
  find [] key = none
  find (entry ∷ entries) key = if entry.0 == key then some entry.1 else find entries key

  -- `insert`, which replaces the value of a key that is there.
  unfoldable pub insert : List (ℕ × A) → ℕ → A → List (ℕ × A)
  insert [] key value = (key, value) ∷ []
  insert (entry ∷ entries) key value =
      let rest = insert entries key value in
      if entry.0 == key
      then (key, value) ∷ entries
      else if ltb key entry.0
      then (key, value) ∷ entry ∷ entries
      else entry ∷ rest

  unfoldable pub remove_key : List (ℕ × A) → ℕ → List (ℕ × A)
  remove_key [] key = []
  remove_key (entry ∷ entries) key =
      let rest = remove_key entries key in if entry.0 == key then rest else entry ∷ rest

  abbrev pub remove_keys : List (ℕ × A) → List ℕ → List (ℕ × A)
  remove_keys entries [] = entries
  remove_keys entries (key ∷ keys) = remove_keys (remove_key entries key) keys

  abbrev pub keys : List (ℕ × A) → List ℕ
  keys [] = []
  keys (entry ∷ entries) = entry.0 ∷ keys entries

  pub find-insert :
      (m : List (ℕ × A)) (key : ℕ) (value : A) (k : ℕ)
      → find (insert m key value) k ≡ (if key == k then some value else find m k)
  unfolding find insert
  find-insert [] key value k = refl
  find-insert (entry ∷ m) key value k = ground (arith, find-insert m key value k)

  pub find-remove_key :
      (m : List (ℕ × A)) (key k : ℕ)
      → find (remove_key m key) k ≡ (if key == k then none else find m k)
  unfolding find remove_key
  find-remove_key [] key k = ground arith
  find-remove_key (entry ∷ m) key k = ground (arith, find-remove_key m key k)

unfoldable pub mem : List ℕ → ℕ → Bool
mem [] key = false
mem (x ∷ xs) key = x == key || mem xs key

module _ {ℓ} {A : Type ℓ} where
  pub find-remove_keys :
      (m : List (ℕ × A)) (ks : List ℕ) (k : ℕ)
      → find (remove_keys m ks) k ≡ (if mem ks k then none else find m k)
  unfolding mem
  find-remove_keys m [] k = refl
  find-remove_keys m (key ∷ ks) k =
      ground (arith, find-remove_keys (remove_key m key) ks k, find-remove_key m key k)

  pub find-none : (m : List (ℕ × A)) (k : ℕ) → mem (keys m) k ≡ false → find m k ≡ none
  unfolding mem find
  find-none [] k h = refl
  find-none (entry ∷ m) k h = ground (arith, find-none m k)

module _ {ℓ κ} {A : Type ℓ} where
  -- What holds of every entry holds of the one that is found.
  pub All-find :
      (P : ℕ × A → Type κ) (m : List (ℕ × A)) (k : ℕ) {value : A}
      → All P m
      → find m k ≡ some value
      → P (k, value)
  unfolding find
  All-find P [] k holds h = absurd (cc)
  All-find P (entry ∷ m) k holds h = elim (Bool-cases (entry.0 == k)) [
    | inl e ↦ subst P (ground arith) holds.0
    | inr e ↦ All-find P m k holds.1 (ground arith)
  ]
