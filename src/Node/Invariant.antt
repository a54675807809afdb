-- ===== src/Node/Invariant.antt =====
-- Nodes that src/veluxnode.rs can reach: those that discovery makes, and what updates make of them.
pub mod Updates
use velux2mqtt.Node.Changes.{
  IsUpdate, apply_information_changed-IsUpdate, apply_state_position-IsUpdate,
  apply_status-IsUpdate, apply_run_status-IsUpdate, apply_command_confirmation-IsUpdate,
  set_available-IsUpdate, mark_status_unknown-IsUpdate,
}
use velux2mqtt.Node.Cover.{
  open_end, closed_end, relative_position, CoverEndpoint, StatusSource, available, unavailable,
}
use velux2mqtt.Node.Cache.{apply_remaining_time, seconds_eq}
use velux2mqtt.Node.Cache.Reports.{apply_remaining_time-IsUpdate}
use velux2mqtt.Node.Cover.{known_remaining_time}
use velux2mqtt.Node.Toggle.{IsInRange}
use velux2mqtt.Types.Position.{relative, StandardParameter}
use velux2mqtt.Prelude.{
  ◌&&◌, ◌==◌, Bool, ap, if◌then◌else◌, false, if_both, refl, sym, ℕ, ◌∙◌, ◌≡◌, some, arith, not,
}
use velux2mqtt.Node.State.{
  VeluxNode, apply_status_detail, mark_command_accepted, apply_command_confirmation,
  apply_information_changed, from_information, apply_state_position, apply_status, apply_run_status,
  set_available, mark_status_unknown, endpoint_position, changed, availability_eq,
}
use velux2mqtt.Response.Nodes.{
  StatusNotificationDetail, NodeInformation, NodeInformationChanged, CommandRunStatus, main,
  NodeStatePosition, StatusNotification,
}
use velux2mqtt.Node.Actuator.{for_actuator}
use velux2mqtt.Response.States.{RunStatus}
use velux2mqtt.Response.{Response, command_accepted}
use velux2mqtt.Types.Position.Laws.{IsCanonical}
use velux2mqtt.Node.Invariant.Updates.{
  IsValid, IsReport, IsValidUpdate, information-IsValid, position-IsValid, status-IsValid,
  run-IsValid, confirmed-IsValid, available-IsValid, unknown-IsValid, remaining-IsValid,
  discovered-IsValid,
}

-- One update of the node under an id, with values that were read from the wire: those of
-- `VeluxNode`, and the two that the cache makes itself, the remaining time and the information that
-- is read again.
pub data Step : VeluxNode → VeluxNode → Type 0 where
  information_changed :
      (node : VeluxNode) (information : NodeInformationChanged)
      → Step node (apply_information_changed node information).0
  position_reported :
      (node : VeluxNode) (report : NodeStatePosition) (source : StatusSource)
      → IsCanonical report.current_position
      → IsCanonical report.target_position
      → Step node (apply_state_position node report source).0
  status_reported :
      (node : VeluxNode) (report : StatusNotification) (source : StatusSource)
      → IsReport report.detail
      → Step node (apply_status node report source).0
  run_reported :
      (node : VeluxNode) (report : CommandRunStatus)
      → IsCanonical report.parameter_value
      → Step node (apply_run_status node report).0
  confirmation :
      (node : VeluxNode) (response : Response) (session_id : ℕ) (endpoint : CoverEndpoint)
      → Step node (apply_command_confirmation node response session_id endpoint).0
  availability_set : (node : VeluxNode) (b : Bool) → Step node (set_available node b).0
  status_unknown : (node : VeluxNode) → Step node (mark_status_unknown node).0
  time_reported : (node : VeluxNode) (seconds : ℕ) → Step node (apply_remaining_time seconds node).0
  read_again :
      (node : VeluxNode) (information : NodeInformation)
      → IsCanonical information.current_position
      → IsCanonical information.target_position
      → information.node_id ≡ node.id
      → Step node (from_information information)

pub data Reachable (information : NodeInformation) : VeluxNode → Type 0 where
  discovered : Reachable information (from_information information)
  updated :
      {node next : VeluxNode}
      → Reachable information node
      → Step node next
      → Reachable information next

Step-IsValid : {node next : VeluxNode} → Step node next → IsValid node → IsValid next
Step-IsValid (information_changed node i) v =
    IsValidUpdate.next-IsValid (information-IsValid node i v)
Step-IsValid (position_reported node report source c t) v =
    IsValidUpdate.next-IsValid (position-IsValid node report source c t v)
Step-IsValid (status_reported node report source h) v =
    IsValidUpdate.next-IsValid (status-IsValid node report source h v)
Step-IsValid (run_reported node report h) v =
    IsValidUpdate.next-IsValid (run-IsValid node report h v)
Step-IsValid (confirmation node response session_id endpoint) v =
    IsValidUpdate.next-IsValid (confirmed-IsValid node response session_id endpoint v)
Step-IsValid (availability_set node b) v = IsValidUpdate.next-IsValid (available-IsValid node b v)
Step-IsValid (status_unknown node) v = IsValidUpdate.next-IsValid (unknown-IsValid node v)
Step-IsValid (time_reported node seconds) v =
    IsValidUpdate.next-IsValid (remaining-IsValid node seconds v)
Step-IsValid (read_again node information c t same) v = discovered-IsValid information c t

Step-id : {node next : VeluxNode} → Step node next → next.id ≡ node.id
unfolding from_information
Step-id (information_changed node i) = IsUpdate.id-keeps (apply_information_changed-IsUpdate node i)
Step-id (position_reported node report source c t) =
    IsUpdate.id-keeps (apply_state_position-IsUpdate node report source)
Step-id (status_reported node report source h) =
    IsUpdate.id-keeps (apply_status-IsUpdate node report source)
Step-id (run_reported node report h) = IsUpdate.id-keeps (apply_run_status-IsUpdate node report)
Step-id (confirmation node response session_id endpoint) =
    IsUpdate.id-keeps (apply_command_confirmation-IsUpdate node response session_id endpoint)
Step-id (availability_set node b) = IsUpdate.id-keeps (set_available-IsUpdate node b)
Step-id (status_unknown node) = IsUpdate.id-keeps (mark_status_unknown-IsUpdate node)
Step-id (time_reported node seconds) =
    IsUpdate.id-keeps (apply_remaining_time-IsUpdate seconds node)
Step-id (read_again node information c t same) = same

-- A node that was discovered, with positions as they are read from the wire, stays valid and keeps
-- the gateway's id through any sequence of updates, of which each position was read from the wire
-- too: a report of its information, position, status, run status or remaining time, information
-- that is read again, a confirmation, and a change of its availability or to an unknown status.
pub Reachable-IsValid :
    (information : NodeInformation)
    → IsCanonical information.current_position
    → IsCanonical information.target_position
    → {node : VeluxNode} → Reachable information node
    → IsValid node × (node.id ≡ information.node_id)
unfolding from_information
Reachable-IsValid information c t discovered = (discovered-IsValid information c t, refl)
Reachable-IsValid information c t (updated r step) =
    let earlier = Reachable-IsValid information c t r in
    (Step-IsValid step (earlier.0), Step-id step ∙ earlier.1)
