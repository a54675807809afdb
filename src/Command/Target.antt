-- ===== src/Command/Target.antt =====
-- `CommandTarget` of src/klf200/command.rs: a list of nodes that is checked when it is built.
use velux2mqtt.Prelude.{
  ◌++◌, ◌<◌, ◌==◌, Bool, List, [], arith, if◌then◌else◌, false, is_empty, length, ltb, refl, ◌||◌,
  ℕ, ◌↔◌, ◌∷◌, ◌≡◌, ◌≤◌,
}
use velux2mqtt.Error.{IsOk, Result, err, invalid_request, ok}

abbrev pub max_targets : ℕ
max_targets = 20

pub record CommandTarget : Type 0 where
  pub nodes : List ℕ

-- `nodes[..index].contains(node)`
unfoldable pub contains : List ℕ → ℕ → Bool
contains [] node = false
contains (x ∷ xs) node = x == node || contains xs node

-- Whether a node occurs among those before it, with `before` those before the list.
unfoldable pub repeats : List ℕ → List ℕ → Bool
unfolding contains
repeats before [] = false
repeats before (node ∷ nodes) = contains before node || repeats (before ++ (node ∷ [])) nodes

-- `CommandTarget::new`
unfoldable pub new : List ℕ → Result CommandTarget
unfolding repeats
new nodes =
    if is_empty nodes
    then err (invalid_request "at least one target node is required")
    else if ltb max_targets (length nodes)
    then err (invalid_request "a request can target at most 20 nodes")
    else if repeats [] nodes
    then err (invalid_request "target node IDs must be unique")
    else ok (record { nodes = nodes })

-- No node occurs twice, and none of them in `before`.
abbrev pub Apart : List ℕ → List ℕ → Type 0
Apart before [] = Unit
Apart before (node ∷ nodes) = (contains before node ≡ false) × Apart (before ++ (node ∷ [])) nodes

repeats-Apart : (before nodes : List ℕ) → (repeats before nodes ≡ false) ↔ Apart before nodes
unfolding repeats
repeats-Apart before [] = (λ h. tt, λ h. refl)
repeats-Apart before (node ∷ nodes) =
    let ih = repeats-Apart (before ++ (node ∷ [])) nodes in
    (λ h. (ground arith, ih.0 (ground arith)), λ h. ground (arith, ih.1 h.1))

-- A target is built exactly from 1 to 20 nodes of which none occurs twice, and holds those nodes in
-- their order.
pub new-ok_iff :
    (nodes : List ℕ)
    → (IsOk (new nodes) ↔ ((0 < length nodes) × (length nodes ≤ 20) × Apart [] nodes))
      × ((t : CommandTarget) → new nodes ≡ ok t → t.nodes ≡ nodes)
unfolding new
new-ok_iff [] = ((λ h. absurd h, λ h. absurd (omega arith)), λ t e. cc)
new-ok_iff (node ∷ nodes) =
    let apart = repeats-Apart [] (node ∷ nodes) in
    ((λ h. ground (arith, apart.0), λ h. ground (arith, apart.1 h.2)), λ t e. ground arith)

-- A single node is always a target.
pub new_one : (node : ℕ) → new (node ∷ []) ≡ ok (record { nodes = node ∷ [] })
unfolding new
new_one node = refl
