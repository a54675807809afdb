-- ===== src/Node/Invariant/Updates.antt =====
-- What a valid node of src/veluxnode.rs is, and that each update keeps a node valid.
use velux2mqtt.Node.Cover.{
  open_end, closed_end, relative_position, CoverEndpoint, StatusSource, available, unavailable,
}
use velux2mqtt.Node.Cache.{apply_remaining_time, seconds_eq}
use velux2mqtt.Node.Cover.{known_remaining_time}
use velux2mqtt.Node.Toggle.{IsInRange}
use velux2mqtt.Types.Position.{relative, StandardParameter}
use velux2mqtt.Prelude.{
  ◌&&◌, ◌==◌, Bool, ap, if◌then◌else◌, false, if_both, refl, sym, ℕ, ◌∙◌, ◌≡◌, some, arith, not,
}
use velux2mqtt.Node.State.{
  VeluxNode, apply_status_detail, mark_command_accepted, apply_command_confirmation,
  apply_information_changed, from_information, apply_state_position, apply_status, apply_run_status,
  set_available, mark_status_unknown, endpoint_position, changed, availability_eq,
}
use velux2mqtt.Response.Nodes.{
  StatusNotificationDetail, NodeInformation, NodeInformationChanged, CommandRunStatus, main,
  NodeStatePosition, StatusNotification,
}
use velux2mqtt.Node.Actuator.{for_actuator}
use velux2mqtt.Response.States.{RunStatus}
use velux2mqtt.Response.{Response, command_accepted}
use velux2mqtt.Types.Position.Laws.{IsCanonical}

-- The positions are in the range of relative positions and the strategy is that of the actuator.
pub record IsValid (node : VeluxNode) : Type 0 where
  pub current-bound : IsInRange node.current_position
  pub target-bound : IsInRange node.target_position
  pub strategy : node.cover_strategy ≡ for_actuator node.actuator_type

-- What the gateway can report.
abbrev pub IsReport : StatusNotificationDetail → Type 0
IsReport (main target_position current_position _ _ _) =
    IsCanonical target_position × IsCanonical current_position
IsReport _ = Unit

relative_position-IsInRange :
    (p : StandardParameter) → IsCanonical p → IsInRange (relative_position p)
unfolding relative_position
relative_position-IsInRange (relative p) h = h
relative_position-IsInRange _ h = tt

-- An update whose node is valid.
pub record IsValidUpdate (result : VeluxNode × Bool) : Type 0 where
  pub next-IsValid : IsValid result.0

guarded-IsValid :
    (guard : Bool) (node : VeluxNode) (result : VeluxNode × Bool)
    → IsValid node
    → IsValidUpdate result
    → IsValidUpdate (if guard then (node, false) else result)
guarded-IsValid guard node result h k = if_both IsValidUpdate guard (record { next-IsValid = h }) k

repositioned-IsValid :
    (node next : VeluxNode)
    → IsValid node
    → IsInRange next.current_position
    → IsInRange next.target_position
    → next.cover_strategy ≡ node.cover_strategy
    → next.actuator_type ≡ node.actuator_type
    → IsValidUpdate (changed node next)
repositioned-IsValid node next v c t s a = record {
  next-IsValid = record {
    current-bound = c;
    target-bound = t;
    strategy = s ∙ v.strategy ∙ ap for_actuator (sym a);
  };
}

pub information-IsValid :
    (node : VeluxNode) (i : NodeInformationChanged)
    → IsValid node
    → IsValidUpdate (apply_information_changed node i)
unfolding apply_information_changed
information-IsValid node i v =
    guarded-IsValid (not (i.node_id == node.id)) node _ v
      (repositioned-IsValid node _ v v.current-bound v.target-bound refl refl)

pub position-IsValid :
    (node : VeluxNode) (report : NodeStatePosition) (source : StatusSource)
    → IsCanonical report.current_position
    → IsCanonical report.target_position
    → IsValid node
    → IsValidUpdate (apply_state_position node report source)
unfolding apply_state_position
position-IsValid node report source c t v =
    guarded-IsValid (not (report.node_id == node.id)) node _ v (
      repositioned-IsValid node _ v (relative_position-IsInRange _ c)
        (relative_position-IsInRange _ t) refl refl)

detail-IsValid :
    (node : VeluxNode) (r : RunStatus) (source : StatusSource) (d : StatusNotificationDetail)
    → IsReport d
    → IsValid node
    → IsValidUpdate (apply_status_detail node r source d)
unfolding apply_status_detail
detail-IsValid node r source (main t c _ _ _) h v =
    repositioned-IsValid node _ v (relative_position-IsInRange c (h.1))
      (relative_position-IsInRange t (h.0)) refl refl
detail-IsValid node r source _ h v = record { next-IsValid = v }

pub status-IsValid :
    (node : VeluxNode) (report : StatusNotification) (source : StatusSource)
    → IsReport report.detail
    → IsValid node
    → IsValidUpdate (apply_status node report source)
unfolding apply_status
status-IsValid node report source h v =
    guarded-IsValid _ node _ v (detail-IsValid node report.run_status source report.detail h v)

pub run-IsValid :
    (node : VeluxNode) (report : CommandRunStatus)
    → IsCanonical report.parameter_value
    → IsValid node
    → IsValidUpdate (apply_run_status node report)
unfolding apply_run_status
run-IsValid node report h v = guarded-IsValid (not (report.node_id == node.id)) node _ v (
    repositioned-IsValid node _ v
      (if_both IsInRange (report.node_parameter == 0) (relative_position-IsInRange _ h)
        v.current-bound)
      v.target-bound refl refl)

endpoint-IsInRange : (endpoint : CoverEndpoint) → IsInRange (some (endpoint_position endpoint))
endpoint-IsInRange open_end = omega arith
endpoint-IsInRange closed_end = omega arith

accepted-IsValid :
    (node : VeluxNode) (endpoint : CoverEndpoint)
    → IsValid node
    → IsValidUpdate (mark_command_accepted node endpoint)
unfolding mark_command_accepted
accepted-IsValid node endpoint v =
    repositioned-IsValid node _ v v.current-bound (endpoint-IsInRange endpoint) refl refl

pub confirmed-IsValid :
    (node : VeluxNode) (response : Response) (session_id : ℕ) (endpoint : CoverEndpoint)
    → IsValid node
    → IsValidUpdate (apply_command_confirmation node response session_id endpoint)
unfolding apply_command_confirmation
confirmed-IsValid node (command_accepted confirmed status) session_id endpoint v =
    if_both IsValidUpdate (status == 1 && confirmed == session_id)
      (accepted-IsValid node endpoint v) (record { next-IsValid = v })
confirmed-IsValid node _ session_id endpoint v = record { next-IsValid = v }

pub available-IsValid :
    (node : VeluxNode) (b : Bool) → IsValid node → IsValidUpdate (set_available node b)
unfolding set_available
available-IsValid node b v =
    if_both IsValidUpdate (availability_eq node.availability (if b then available else unavailable))
      (record { next-IsValid = v })
      (record {
        next-IsValid = record {
          current-bound = v.current-bound;
          target-bound = v.target-bound;
          strategy = v.strategy;
        };
      })

pub unknown-IsValid : (node : VeluxNode) → IsValid node → IsValidUpdate (mark_status_unknown node)
unfolding mark_status_unknown
unknown-IsValid node v = repositioned-IsValid node _ v tt tt refl refl

pub remaining-IsValid :
    (node : VeluxNode) (seconds : ℕ)
    → IsValid node
    → IsValidUpdate (apply_remaining_time seconds node)
unfolding apply_remaining_time
remaining-IsValid node seconds v =
    guarded-IsValid (seconds_eq node.remaining_time (known_remaining_time seconds)) node _ v
      (record {
        next-IsValid = record {
          current-bound = v.current-bound;
          target-bound = v.target-bound;
          strategy = v.strategy;
        };
      })

pub discovered-IsValid :
    (information : NodeInformation)
    → IsCanonical information.current_position
    → IsCanonical information.target_position
    → IsValid (from_information information)
unfolding from_information
discovered-IsValid information c t = record {
  current-bound = relative_position-IsInRange _ c;
  target-bound = relative_position-IsInRange _ t;
  strategy = refl;
}
