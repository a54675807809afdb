-- ===== src/Node/Cache/Reports.antt =====
-- What `VeluxNodeCache::apply_response` of src/veluxnode.rs reports.
use mathlib.Core.Bool.{false≢true}
use velux2mqtt.Node.Cover.{known_remaining_time}
use velux2mqtt.Node.Changes.{
  differs-false_iff, apply_information_changed-IsUpdate, apply_state_position-IsUpdate,
  apply_status-IsUpdate, apply_run_status-IsUpdate,
}
use velux2mqtt.Prelude.Maps.{find, insert, find-insert}
use velux2mqtt.Node.State.{VeluxNode, from_information}
use velux2mqtt.Node.Cover.{notification, poll}
use velux2mqtt.Response.{
  node_information, node_information_changed, node_state_position, status_notification,
  command_run_status, command_remaining_time,
}
use velux2mqtt.Prelude.{
  Bool, Bool-cases, Option, if◌then◌else◌, inl, inr, none, some, ℕ, ℕ_discrete, ◌≡◌, ◌≢◌, ==_iff,
  ==_ne, ==_self, Option-cases, ap, false, if_cases, refl, sym, true, ◌∙◌,
}
use velux2mqtt.Node.Cache.{
  Cache, update_node, seconds_eq, apply_remaining_time, is_news, apply_response, Response,
}
use velux2mqtt.Node.Changes.{IsUpdate}

-- Each node is stored under its id.
abbrev pub IsKeyed : Cache → Type 0
IsKeyed nodes = (id : ℕ) (node : VeluxNode) → find nodes id ≡ some node → node.id ≡ id

-- Every entry that a result changes is the one it reports.
abbrev pub Reports : Cache → Cache × Option ℕ → Type 0
Reports nodes result = (k : ℕ) → find result.0 k ≢ find nodes k → result.1 ≡ some k

update_some :
    (nodes : Cache) (id k : ℕ) (node : VeluxNode) (result : VeluxNode × Bool)
    → find nodes id ≡ some node
    → node.id ≡ id
    → IsUpdate node result
    → find (insert nodes id result.0) k ≢ find nodes k
    → (if result.1 then some result.0.id else none) ≡ some k
update_some nodes id k node result e keyed u moved =
    let after = find-insert nodes id result.0 k in
    let same = u.reports.0 in
    let id_same = u.id-keeps in
    elim (ℕ_discrete id k) [
      | yes is_k ↦ elim (Bool-cases result.1) [
        | inl t ↦ rw t (ap some (id_same ∙ keyed ∙ is_k))
        | inr f ↦ absurd (
            moved (
              (rw ((==_iff id k).1 is_k) at after)
              ∙ ap some (same f)
              ∙ sym e
              ∙ ap (find nodes) is_k))
      ]
      | no other ↦ absurd (moved (rw (==_ne id k other) at after))
    ]

update_node-Reports :
    (nodes : Cache) (id : ℕ) (update : VeluxNode → VeluxNode × Bool)
    → IsKeyed nodes
    → ((node : VeluxNode) → IsUpdate node (update node))
    → Reports nodes (update_node nodes id update)
unfolding update_node
update_node-Reports nodes id update keyed u k moved = elim (Option-cases (find nodes id)) [
  | inl e ↦ absurd (moved (rw (e, update_node) refl))
  | inr (node, e) ↦
      rw (e, update_node)
        (update_some nodes id k node (update node) e (keyed id node e) (u node)
          (rw (e, update_node) at moved))
]

seconds_eq_self : (seconds : Option ℕ) → seconds_eq seconds seconds ≡ true
seconds_eq_self none = refl
seconds_eq_self (some n) = ==_self n

pub apply_remaining_time-IsUpdate :
    (seconds : ℕ) (node : VeluxNode) → IsUpdate node (apply_remaining_time seconds node)
unfolding apply_remaining_time
apply_remaining_time-IsUpdate seconds node =
    if_cases (IsUpdate node) (seconds_eq node.remaining_time (known_remaining_time seconds))
      (λ h. record {
        reports = (λ e. refl, λ e. refl);
        id-keeps = refl;
        actuator_type-keeps = refl;
        cover_strategy-keeps = refl;
      })
      (λ h. record {
        reports = (
          λ e. cc,
          λ e. absurd (
              false≢true (
                sym h
                ∙ ap (λ (n : VeluxNode). seconds_eq n.remaining_time (known_remaining_time seconds))
                    (sym e)
                ∙ seconds_eq_self (known_remaining_time seconds))),
        );
        id-keeps = refl;
        actuator_type-keeps = refl;
        cover_strategy-keeps = refl;
      })

is_news_lem :
    (held : Option VeluxNode) (node : VeluxNode) → is_news held node ≡ false → held ≡ some node
unfolding is_news
is_news_lem none node h = cc
is_news_lem (some existing) node h = ap some ((differs-false_iff existing node).0 h)

inserted-Reports :
    (nodes : Cache) (node : VeluxNode)
    → Reports nodes (
      insert nodes node.id node,
      (if is_news (find nodes node.id) node then some node.id else none),
    )
inserted-Reports nodes node k moved =
    let after = find-insert nodes node.id node k in
    elim (ℕ_discrete node.id k) [
      | yes is_k ↦ elim (Bool-cases (is_news (find nodes node.id) node)) [
        | inl t ↦ rw t (ap some is_k)
        | inr f ↦ absurd (
            moved (
              (rw ((==_iff node.id k).1 is_k) at after)
              ∙ sym (is_news_lem (find nodes node.id) node f)
              ∙ ap (find nodes) is_k))
      ]
      | no other ↦ absurd (moved (rw (==_ne node.id k other) at after))
    ]

-- Whatever the response, every entry of the cache that `apply_response` changes is the one that it
-- reports, if each node is stored under its id; so without a report nothing has changed.
pub apply_response-Reports :
    (nodes : Cache) (response : Response)
    → IsKeyed nodes
    → Reports nodes (apply_response nodes response)
unfolding apply_response
apply_response-Reports nodes (node_information information) keyed =
    inserted-Reports nodes (from_information information)
apply_response-Reports nodes (node_information_changed information) keyed =
    update_node-Reports nodes information.node_id _ keyed
      (λ node. apply_information_changed-IsUpdate node information)
apply_response-Reports nodes (node_state_position report) keyed =
    update_node-Reports nodes report.node_id _ keyed
      (λ node. apply_state_position-IsUpdate node report notification)
apply_response-Reports nodes (status_notification status) keyed =
    update_node-Reports nodes status.node_id _ keyed
      (λ node. apply_status-IsUpdate node status poll)
apply_response-Reports nodes (command_run_status status) keyed =
    update_node-Reports nodes status.node_id _ keyed (λ node. apply_run_status-IsUpdate node status)
apply_response-Reports nodes (command_remaining_time session_id node_id parameter seconds) keyed =
    update_node-Reports nodes node_id _ keyed (apply_remaining_time-IsUpdate seconds)
apply_response-Reports nodes _ keyed = λ k moved. absurd (moved refl)
