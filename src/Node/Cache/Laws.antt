-- ===== src/Node/Cache/Laws.antt =====
-- What the operations of `VeluxNodeCache` (src/veluxnode.rs) leave in the cache.
use velux2mqtt.Prelude.Maps.{find, keys, mem, find-insert, find-remove_keys}
use velux2mqtt.Node.State.{from_information, VeluxNode}
use velux2mqtt.Prelude.{
  ◌&&◌, ◌==◌, List, Option, Option-cases, [], ap, if◌then◌else◌, inl, inr, not, refl, some, true, ℕ,
  ◌∙◌, ◌∷◌, ◌≡◌, arith, none, Bool, Bool-cases, false,
}
use velux2mqtt.Response.Nodes.{NodeInformation}
use velux2mqtt.Node.Cache.{
  reconcile_one, reconcile_loop, missing, from_information, Cache, present_ids, reconcile,
}

-- The node of the last information with this id, or the given one without such information.
abbrev pub last_of : List NodeInformation → ℕ → Option VeluxNode → Option VeluxNode
last_of [] id node = node
last_of (i ∷ information) id node =
    last_of information id (if i.node_id == id then some (from_information i) else node)

find-reconcile_one :
    (nodes : Cache) (added updated : List ℕ) (node : VeluxNode) (id : ℕ)
    → find (reconcile_one nodes added updated node).0 id
      ≡ (if node.id == id then some node else find nodes id)
unfolding reconcile_one
find-reconcile_one nodes added updated node id = elim (Option-cases (find nodes node.id)) [
  | inl e ↦ rw (e, reconcile_one) (find-insert nodes node.id node id)
  | inr (existing, e) ↦ rw (e, reconcile_one) (find-insert nodes node.id node id)
]

find-reconcile_loop :
    (nodes : Cache) (added updated : List ℕ) (information : List NodeInformation) (id : ℕ)
    → find (reconcile_loop nodes added updated information).0 id
      ≡ last_of information id (find nodes id)
unfolding reconcile_loop from_information
find-reconcile_loop nodes added updated [] id = refl
find-reconcile_loop nodes added updated (i ∷ information) id =
    let round = reconcile_one nodes added updated (from_information i) in
    find-reconcile_loop round.0 round.1 round.2 information id
    ∙ ap (last_of information id) (find-reconcile_one nodes added updated (from_information i) id)

mem-missing :
    (present ks : List ℕ) (id : ℕ)
    → mem (missing present ks) id ≡ (mem ks id && not (mem present id))
unfolding mem missing
mem-missing present [] id = refl
mem-missing present (key ∷ ks) id = ground (arith, mem-missing present ks id)

-- Without information about an id, the given node is the last.
last_of-absent :
    (information : List NodeInformation) (id : ℕ) (a b : Option VeluxNode)
    → mem (present_ids information) id ≡ true
    → last_of information id a ≡ last_of information id b
unfolding mem
last_of-absent [] id a b h = ground arith
last_of-absent (i ∷ information) id a b h = ground (arith, last_of-absent information id a b)

last_of-none :
    (information : List NodeInformation) (id : ℕ) (a : Option VeluxNode)
    → mem (present_ids information) id ≡ false
    → last_of information id a ≡ a
unfolding mem
last_of-none [] id a h = refl
last_of-none (i ∷ information) id a h = ground (arith, last_of-none information id a)

abbrev pub is_held : Option VeluxNode → Bool
is_held none = false
is_held (some node) = true

mem-keys : (nodes : Cache) (id : ℕ) → mem (keys nodes) id ≡ is_held (find nodes id)
unfolding mem find
mem-keys [] id = refl
mem-keys (entry ∷ nodes) id = ground (arith, mem-keys nodes id)

-- After `reconcile` the cache holds exactly the nodes of the information, whatever it held before:
-- for each id that occurs the node made of its last information, and no other. The ids reported as
-- removed are those that the cache held and that do not occur.
pub reconcile_lem :
    (nodes : Cache) (information : List NodeInformation) (id : ℕ)
    → (find (reconcile nodes information).0 id ≡ last_of information id none)
      × (mem (reconcile nodes information).1.removed id
          ≡ (is_held (find nodes id) && not (mem (present_ids information) id)))
unfolding reconcile
reconcile_lem nodes information id =
    let nodes' = (reconcile_loop nodes [] [] information).0 in
    let present = present_ids information in
    let removed = missing present (keys nodes') in
    let after = find-remove_keys nodes' removed id in
    let gone = mem-missing present (keys nodes') id in
    let held = mem-keys nodes' id in
    let looped = find-reconcile_loop nodes [] [] information id in
    let same = last_of-absent information id (find nodes id) none in
    let kept = last_of-none information id (find nodes id) in
    let nothing = last_of-none information id none in
    elim (Bool-cases (mem present id)) [
      | inl e ↦ (ground (arith, same e), ground arith)
      | inr e ↦ (ground (arith, kept e, nothing e), ground (arith, kept e))
    ]
