-- ===== src/Node/Cache.antt =====
-- `VeluxNodeCache` of src/veluxnode.rs: the nodes by their ids.
pub mod Laws
pub mod Reports
use velux2mqtt.Prelude.Maps.{find, insert, keys, mem, remove_keys}
use velux2mqtt.Node.State.{
  VeluxNode, differs, set_available, from_information, fresh, apply_information_changed,
  apply_state_position, apply_status, apply_run_status,
}
use velux2mqtt.Response.{
  node_information, node_information_changed, node_state_position, status_notification,
  command_run_status, command_remaining_time, Response,
}
use velux2mqtt.Node.Cover.{notification, poll, known_remaining_time}
use velux2mqtt.Prelude.{
  ◌++◌, ◌==◌, Bool, List, Option, [], if◌then◌else◌, false, none, some, true, ℕ, ◌∷◌,
}
use velux2mqtt.Response.Nodes.{NodeInformation}

abbrev pub Cache : Type 0
Cache = List (ℕ × VeluxNode)

pub record ReconcileResult : Type 0 where
  pub added : List ℕ
  pub updated : List ℕ
  pub removed : List ℕ

-- A round of the loop of `reconcile`, with the ids added and updated so far.
unfoldable pub reconcile_one : Cache → List ℕ → List ℕ → VeluxNode → Cache × List ℕ × List ℕ
reconcile_one nodes added updated node = elim (find nodes node.id) [
  | none ↦ (insert nodes node.id node, added ++ (node.id ∷ []), updated)
  | some existing ↦ (
    insert nodes node.id node,
    added,
    (if differs existing node then updated ++ (node.id ∷ []) else updated),
  )
]

unfoldable pub reconcile_loop :
    Cache → List ℕ → List ℕ → List NodeInformation → Cache × List ℕ × List ℕ
unfolding reconcile_one
reconcile_loop nodes added updated [] = (nodes, added, updated)
reconcile_loop nodes added updated (i ∷ information) =
    let (nodes', added', updated') = reconcile_one nodes added updated (from_information i) in
    reconcile_loop nodes' added' updated' information

-- The ids of the information, `present`.
abbrev pub present_ids : List NodeInformation → List ℕ
present_ids [] = []
present_ids (i ∷ information) = i.node_id ∷ present_ids information

-- The keys that are not among `present`.
unfoldable pub missing : List ℕ → List ℕ → List ℕ
missing present [] = []
missing present (key ∷ keys) =
    let rest = missing present keys in if mem present key then rest else key ∷ rest

-- `VeluxNodeCache::reconcile`
unfoldable pub reconcile : Cache → List NodeInformation → Cache × ReconcileResult
unfolding missing
reconcile nodes information =
    let (nodes', added, updated) = reconcile_loop nodes [] [] information in
    let removed = missing (present_ids information) (keys nodes') in
    (remove_keys nodes' removed, record { added = added; updated = updated; removed = removed })

-- `get_mut` and an update of the node that it finds, with the id of the node if it changed.
unfoldable pub update_node : Cache → ℕ → (VeluxNode → VeluxNode × Bool) → Cache × Option ℕ
update_node nodes id update = elim (find nodes id) [
  | none ↦ (nodes, none)
  | some node ↦
      let (node', reported) = update node in
      (insert nodes id node', (if reported then some node'.id else none))
]

abbrev pub seconds_eq : Option ℕ → Option ℕ → Bool
seconds_eq none none = true
seconds_eq (some a) (some b) = a == b
seconds_eq _ _ = false

-- The update by `Response::CommandRemainingTime`.
unfoldable pub apply_remaining_time : ℕ → VeluxNode → VeluxNode × Bool
apply_remaining_time seconds node =
    let updated = known_remaining_time seconds in
    if seconds_eq node.remaining_time updated
    then (node, false)
    else (record node { remaining_time = updated; freshness = fresh notification none }, true)

-- Whether the cache holds another node than this one, or none.
unfoldable pub is_news : Option VeluxNode → VeluxNode → Bool
is_news none node = true
is_news (some existing) node = differs existing node

-- `VeluxNodeCache::apply_response`
unfoldable pub apply_response : Cache → Response → Cache × Option ℕ
unfolding is_news update_node
apply_response nodes (node_information information) =
    let node = from_information information in
    (insert nodes node.id node, (if is_news (find nodes node.id) node then some node.id else none))
apply_response nodes (node_information_changed information) =
    update_node nodes information.node_id (λ node. apply_information_changed node information)
apply_response nodes (node_state_position report) =
    update_node nodes report.node_id (λ node. apply_state_position node report notification)
apply_response nodes (status_notification status) =
    update_node nodes status.node_id (λ node. apply_status node status poll)
apply_response nodes (command_run_status status) =
    update_node nodes status.node_id (λ node. apply_run_status node status)
apply_response nodes (command_remaining_time session_id node_id node_parameter seconds) =
    update_node nodes node_id (apply_remaining_time seconds)
apply_response nodes _ = (nodes, none)

-- `VeluxNodeCache::set_all_available`
unfoldable pub set_all_available : Cache → Bool → Cache × List ℕ
set_all_available [] available = ([], [])
set_all_available (entry ∷ nodes) available =
    let (node, reported) = set_available (entry.1) available in
    let (nodes', ids) = set_all_available nodes available in
    ((entry.0, node) ∷ nodes', (if reported then node.id ∷ ids else ids))
