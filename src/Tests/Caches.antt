-- ===== src/Tests/Caches.antt =====
-- The theorems about `VeluxNodeCache` of src/veluxnode.rs at a concrete cache.
use velux2mqtt.Tests.Nodes.{information, closes, shutter}
use velux2mqtt.Response.{node_state_position}
use velux2mqtt.Node.State.{from_information, VeluxNode}
use velux2mqtt.Prelude.Maps.{find, mem}
use velux2mqtt.Prelude.{
  ◌&&◌, [], none, not, ◌∷◌, ◌≡◌, ==_iff, ==_ne, List, Option, ap, some, sym, ℕ, ℕ_discrete, ◌∙◌,
}
use velux2mqtt.Node.Cache.{Cache, reconcile, apply_response, present_ids}
use velux2mqtt.Node.Cache.Reports.{IsKeyed, Reports, apply_response-Reports}
use velux2mqtt.Node.Cache.Laws.{last_of, is_held, reconcile_lem}
use velux2mqtt.Response.Nodes.{NodeInformation}

abbrev one_node : Cache
one_node = (3, shutter) ∷ []

-- Node 5 has come and node 3 has gone.
abbrev discovered_five : List NodeInformation
discovered_five = record information { node_id = 5 } ∷ []

reconcile_lem_example :
    (find (reconcile one_node discovered_five).0 3 ≡ last_of discovered_five 3 none)
    × (mem (reconcile one_node discovered_five).1.removed 3
        ≡ (is_held (find one_node 3) && not (mem (present_ids discovered_five) 3)))
reconcile_lem_example = reconcile_lem one_node discovered_five 3

held_id : Option VeluxNode → ℕ
held_id none = 0
held_id (some node) = node.id

none_not : {node : VeluxNode} → ¬ (◌≡◌ {A = Option VeluxNode} none (some node))
none_not h = cc

one_node-IsKeyed : IsKeyed one_node
unfolding find held_id from_information
one_node-IsKeyed id node e = elim (ℕ_discrete 3 id) [
  | yes p ↦ ap held_id (sym (rw ((==_iff 3 id).1 p) at e)) ∙ p
  | no np ↦ absurd (none_not (rw (==_ne 3 id np) at e))
]

apply_response-Reports_example :
    Reports one_node (apply_response one_node (node_state_position closes))
apply_response-Reports_example =
    apply_response-Reports one_node (node_state_position closes) one_node-IsKeyed
